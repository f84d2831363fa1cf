-- ===== src/Machine/Valid.antt =====
-- The writes that the simulators make keep a machine valid.
use f_ca.Base.{Bool, true, false, if◌then◌else◌, ℕ, ◌≡◌, ◌^◌, ◌<◌, List, refl, All, arith}
use f_ca.Machine.{
  Machine, write_reg, put_char, Outcome, next, ◌>>=◌, IsValid, Leaves, at_next, at_fail, at_fault,
}

module _ {m : Machine} (valid : IsValid m) where
  open valid use {pc_word, reg_word, mem_byte, zero_reg, input_word}

  pub write_reg-IsValid : (rd v : ℕ) → v < 2 ^ 32 → IsValid (write_reg rd v m)
  write_reg-IsValid rd v h = record {
    pc_word = pc_word;
    reg_word = λ i. ground (arith, reg_word i);
    mem_byte = mem_byte;
    zero_reg = refl;
    input_word = input_word;
  }

  pub pc-IsValid : (p : ℕ) → p < 2 ^ 32 → IsValid (record m { pc = p })
  pc-IsValid p h = record {
    pc_word = h;
    reg_word = reg_word;
    mem_byte = mem_byte;
    zero_reg = zero_reg;
    input_word = input_word;
  }

  pub put_char-IsValid : (c : ℕ) → IsValid (put_char c m)
  put_char-IsValid c = record {
    pc_word = pc_word;
    reg_word = reg_word;
    mem_byte = mem_byte;
    zero_reg = zero_reg;
    input_word = input_word;
  }

  pub input-IsValid :
      (rest : List ℕ) → All (λ n. n < 2 ^ 32) rest → IsValid (record m { input = rest })
  input-IsValid rest h = record {
    pc_word = pc_word;
    reg_word = reg_word;
    mem_byte = mem_byte;
    zero_reg = zero_reg;
    input_word = h;
  }

  pub mem-IsValid : (mem' : ℕ → ℕ) → ((i : ℕ) → mem' i < 2 ^ 8) → IsValid (record m { mem = mem' })
  mem-IsValid mem' h = record {
    pc_word = pc_word;
    reg_word = reg_word;
    mem_byte = h;
    zero_reg = zero_reg;
    input_word = input_word;
  }

module _ {P : Machine → Type 0} where
  pub Leaves-bind :
      {Q : Machine → Type 0} {o : Outcome} {k : Machine → Outcome}
      → Leaves P o
      → ((m : Machine) → P m → Q m)
      → ((m : Machine) → P m → Leaves Q (k m))
      → Leaves Q (o >>= k)
  Leaves-bind (at_next {m} p) g h = h m p
  Leaves-bind (at_fail {m} p) g h = at_fail (g m p)
  Leaves-bind at_fault g h = at_fault

  -- A branch leaves what both sides leave.
  pub Leaves-if :
      (b : Bool) {x y : Outcome} → Leaves P x → Leaves P y → Leaves P (if b then x else y)
  Leaves-if true hx hy = hx
  Leaves-if false hx hy = hy

  pub Leaves-next : {o : Outcome} {m : Machine} → Leaves P o → o ≡ next m → P m
  Leaves-next (at_next p) e = ground arith
  Leaves-next (at_fail p) e = cc
  Leaves-next at_fault e = cc

pub IsValid-if : (b : Bool) {x y : Machine} → IsValid x → IsValid y → IsValid (if b then x else y)
IsValid-if true hx hy = hx
IsValid-if false hx hy = hy
