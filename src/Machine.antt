-- ===== src/Machine.antt =====
-- The state that the simulators of project_2/main.c and proj2/my_project/dbswl.c keep in globals:
-- the program counter, 32 registers, 65536 bytes of data memory, and the two standard streams.
pub mod Valid
pub mod Bind
use f_ca.Base.{ℕ, ◌^◌, ◌<◌, ◌≡◌, List, ◌∷◌, [], ◌++◌, All, update}

-- `input` holds the numbers that the calls of `scanf("%d", …)` will read, as 32-bit patterns, and
-- `output` the characters that `printf("%c", …)` has written.
pub record Machine : Type 0 where
  pub pc : ℕ
  pub reg : ℕ → ℕ
  pub mem : ℕ → ℕ
  pub input : List ℕ
  pub output : List ℕ

-- The initial values of the globals, with what the user will type.
abbrev pub initial : List ℕ → Machine
initial typed = record { pc = 0; reg = λ _. 0; mem = λ _. 0; input = typed; output = [] }

-- `reg[rd] = v; reg[0] = 0;`
abbrev pub write_reg : ℕ → ℕ → Machine → Machine
write_reg rd v m = record m { reg = update (update m.reg rd v) 0 0 }

-- `printf("%c", c);`
abbrev pub put_char : ℕ → Machine → Machine
put_char c m = record m { output = m.output ++ c ∷ [] }

-- How one round of the loop ends: it goes on, `main` returns -1, or the behaviour is undefined in C
-- (an array access out of bounds, or the value of a variable that `scanf` has not set).
pub data Outcome : Type 0 where
  next : Machine → Outcome
  fails : Machine → Outcome
  fault : Outcome

infixl 5 ◌>>=◌
abbrev pub ◌>>=◌ : Outcome → (Machine → Outcome) → Outcome
next m >>= k = k m
fails m >>= k = fails m
fault >>= k = fault

-- Every value fits its C type, those still to be read too, and x0 is 0.
pub record IsValid (m : Machine) : Type 0 where
  pub pc_word : m.pc < 2 ^ 32
  pub reg_word : (i : ℕ) → m.reg i < 2 ^ 32
  pub mem_byte : (i : ℕ) → m.mem i < 2 ^ 8
  pub zero_reg : m.reg 0 ≡ 0
  pub input_word : All (λ n. n < 2 ^ 32) m.input

-- `P` holds of the machine at the end, unless the behaviour is undefined.
pub data Leaves (P : Machine → Type 0) : Outcome → Type 0 where
  at_next : {m : Machine} → P m → Leaves P (next m)
  at_fail : {m : Machine} → P m → Leaves P (fails m)
  at_fault : Leaves P fault
