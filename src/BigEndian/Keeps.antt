-- ===== src/BigEndian/Keeps.antt =====
-- proj2/my_project/ekdus.c: what `executeInst` leaves of memory, and so of the program in it.
use mathlib.Core.Bool.{true≢false}
use f_ca.Base.{
  ℕ, ◌+◌, ◌-◌, ◌%◌, ◌^◌, ◌≤◌, ◌<◌, ◌≡◌, ◌≢◌, ◌⊎◌, inl, inr, refl, sym, ap, ◌∙◌, arith, Bool, true,
  false, if◌then◌else◌, ne→==, List, [], ◌∷◌, ◌==◌,
}
use f_ca.Word.{add32, sext}
use f_ca.Machine.{
  Machine, put_char, Outcome, next, fails, fault, ◌>>=◌, IsValid, Leaves, at_next, at_fault,
}
use f_ca.Machine.Valid.{Leaves-if, Leaves-next}
use f_ca.Isa.{BranchOp, LoadOp, StoreOp, Instr, load, store, branch, encode, IsInstr}
use f_ca.Isa.Meaning.{meaning, IsSupported}
use f_ca.Handlers.Trace.{supported-IsValid}
use f_ca.BigEndian.Store.{error, update_regi, load_a_word, write_word, mem_to_inst}
use f_ca.BigEndian.Fields.{Fields, fields}
use f_ca.BigEndian.Exec.{advance, jump, imm_arith, arithmetic, if_plain, jalr, execute_inst}
use f_ca.BigEndian.Exec
use f_ca.BigEndian.Digits.{fields-IsCut}
use f_ca.BigEndian.Faithful.{Fits, StandsFor, IsFaithful}
use f_ca.BigEndian.Access.{store_data-eq, store_typed-eq}

-- The memory holds what this one does.
data MemIs (mem : ℕ → ℕ) : Machine → Type 0 where
  mem_is : {m : Machine} → ((a : ℕ) → m.mem a ≡ mem a) → MemIs mem m

MemIs-eq : {mem : ℕ → ℕ} {m : Machine} → MemIs mem m → (a : ℕ) → m.mem a ≡ mem a
MemIs-eq (mem_is e) = e

update_regi-mem : (rd v : ℕ) (m : Machine) (a : ℕ) → (update_regi rd v m).mem a ≡ m.mem a
unfolding update_regi
update_regi-mem rd v m a = ground arith

module _ (f : Fields) (m : Machine) where
  error-mem : MemIs m.mem (error m)
  unfolding error
  error-mem = mem_is λ a. refl

  written : (v : ℕ) → MemIs m.mem (advance (update_regi f.rd v m))
  written v = mem_is (update_regi-mem f.rd v m)

  imm_arith-mem : MemIs m.mem (imm_arith f m)
  unfolding imm_arith update_regi error
  imm_arith-mem = mem_is λ a. ground arith

  arithmetic-mem : MemIs m.mem (arithmetic f m)
  unfolding arithmetic update_regi error
  arithmetic-mem = mem_is λ a. ground arith

  branch-mem : MemIs m.mem (Exec.branch f m)
  unfolding Exec.branch error
  branch-mem = mem_is λ a. ground arith

  jump-mem : (v n : ℕ) → MemIs m.mem (jump n (update_regi f.rd v m))
  jump-mem v n = mem_is (update_regi-mem f.rd v m)

  jalr-mem : MemIs m.mem (jalr f m)
  unfolding jalr
  jalr-mem = mem_is (update_regi-mem f.rd (add32 m.pc 4) m)

  typed-mem :
      (input : List ℕ)
      → m.input ≡ input
      → Leaves (MemIs m.mem) (load_a_word f.rd m >>= λ m'. next (advance m'))
  unfolding load_a_word
  typed-mem [] e = rw e at_fault
  typed-mem (n ∷ rest) e =
      rw e (at_next (mem_is (update_regi-mem f.rd n (record m { input = rest }))))

  load-mem : Leaves (MemIs m.mem) (Exec.load f m)
  unfolding Exec.load
  load-mem =
      Leaves-if _
        (Leaves-if _ (typed-mem m.input refl) (Leaves-if _ (at_next (written _)) at_fault))
        (at_next error-mem)

Leaves-else :
    {P : Machine → Type 0} {y : Outcome} (b : Bool) (x : Outcome)
    → b ≡ false
    → Leaves P y
    → Leaves P (if b then x else y)
Leaves-else true x e h = absurd (true≢false e)
Leaves-else false x e h = h

-- Every instruction but a store leaves memory as it is.
execute_inst-mem :
    (inst : ℕ) (m : Machine)
    → (fields inst).opcode ≢ 0x23
    → Leaves (MemIs m.mem) (execute_inst inst m)
unfolding execute_inst
execute_inst-mem inst m other =
    let f = fields inst in
    Leaves-if (f.opcode == 0x37) (at_next (written f m (Exec.upper_imm f))) (
      Leaves-if (f.opcode == 0x17) (at_next (written f m (add32 m.pc (Exec.upper_imm f)))) (
        Leaves-if (f.opcode == 0x6F) (at_next (jump-mem f m (add32 m.pc 4) (Exec.jal_imm f))) (
          Leaves-if (f.opcode == 0x67) (at_next (jalr-mem f m)) (
            Leaves-if (f.opcode == 0x03) (load-mem f m) (
              Leaves-if (f.opcode == 0x13) (at_next (imm_arith-mem f m)) (
                Leaves-if (f.opcode == 0x63) (at_next (branch-mem f m)) (
                  Leaves-else (f.opcode == 0x23) (Exec.store f m) (ne→== f.opcode 0x23 other) (
                    Leaves-if (f.opcode == 0x33) (at_next (arithmetic-mem f m))
                      (at_next (error-mem f m))))))))))

-- Memory outside the data is left as it is.
abbrev pub Keeps : Machine → Machine → Type 0
Keeps m m' = (a : ℕ) → a < 0x10000000 ⊎ 0x10010000 ≤ a → m'.mem a ≡ m.mem a

abbrev pub state_of : Outcome → Machine → Machine
state_of (next m) other = m
state_of (fails m) other = m
state_of fault other = other

other-Keeps :
    (i : Instr) (m m' : Machine)
    → encode i % 2 ^ 7 ≢ 0x23
    → execute_inst (encode i) m ≡ next m'
    → Keeps m m'
other-Keeps i m m' h e a outside =
    let cut = fields-IsCut (encode i) in
    MemIs-eq (Leaves-next (execute_inst-mem (encode i) m (omega (arith, h, cut.opcode))) e) a

store-Keeps :
    (rs2 rs1 n : ℕ) (m m' d : Machine)
    → Fits m
    → StandsFor m d
    → IsInstr (store StoreOp.sw rs2 rs1 n)
    → IsFaithful (store StoreOp.sw rs2 rs1 n) m
    → execute_inst (encode (store StoreOp.sw rs2 rs1 n)) m ≡ next m'
    → Keeps m m'
unfolding write_word
store-Keeps rs2 rs1 n m m' d fits stands h (inl inside) e a outside =
    let at = (m.reg rs1 + sext 12 n) % 2 ^ 32 in
    let v = m.reg rs2 in
    let same : m' ≡ advance (record m { mem = write_word at v m.mem }) =
      ap (λ o. state_of o m) (sym e ∙ store_data-eq m d fits stands rs2 rs1 n h inside) in
    ap (λ (x : Machine). x.mem a) same ∙ ground (arith, inside, outside)
store-Keeps rs2 rs1 n m m' d fits stands h (inr typed) e a outside =
    let same : m' ≡ advance (put_char (m.reg rs2) m) =
      ap (λ o. state_of o m) (sym e ∙ store_typed-eq m d fits stands rs2 rs1 n h typed.0 typed.1) in
    ap (λ (x : Machine). x.mem a) same

-- A faithful instruction leaves memory outside the data as it is.
pub execute_inst-Keeps :
    (i : Instr) (m m' d : Machine)
    → Fits m
    → StandsFor m d
    → IsInstr i
    → IsFaithful i m
    → execute_inst (encode i) m ≡ next m'
    → Keeps m m'
unfolding encode
execute_inst-Keeps (store StoreOp.sw rs2 rs1 n) m m' d fits stands h f e =
    store-Keeps rs2 rs1 n m m' d fits stands h f e
execute_inst-Keeps (store _ rs2 rs1 n) m m' d fits stands h f e = elim f [ ]
execute_inst-Keeps i m m' d fits stands h f e = other-Keeps i m m' (omega arith) e

-- Every instruction that is executed as the manual says is one of those that project_2/main.c is to
-- execute.
faithful-IsSupported : (i : Instr) (m : Machine) → IsFaithful i m → IsSupported i
faithful-IsSupported (branch BranchOp.bltu rs1 rs2 n) m f = elim f [ ]
faithful-IsSupported (branch BranchOp.bgeu rs1 rs2 n) m f = elim f [ ]
faithful-IsSupported (load LoadOp.lw rd rs1 n) m f = tt
faithful-IsSupported (load _ rd rs1 n) m f = elim f [ ]
faithful-IsSupported (store StoreOp.sw rs2 rs1 n) m f = tt
faithful-IsSupported (store _ rs2 rs1 n) m f = elim f [ ]
faithful-IsSupported _ m f = tt

-- The machine of the manual stays valid.
pub meaning-IsValid :
    (i : Instr) (m d d' : Machine)
    → IsInstr i
    → IsFaithful i m
    → IsValid d
    → meaning i d ≡ next d'
    → IsValid d'
meaning-IsValid i m d d' h f valid e =
    Leaves-next (supported-IsValid i d h (faithful-IsSupported i m f) valid) e

-- The state fits its types again where memory outside the data does.
pub Keeps-Fits : (m m' d' : Machine) → Fits m → Keeps m m' → IsValid d' → StandsFor m' d' → Fits m'
Keeps-Fits m m' d' fits keeps valid stands = record {
  reg_word = λ i. omega (arith, stands.reg i, valid.reg_word i);
  mem_byte = λ a. byte a (place a);
  zero_reg = omega (arith, stands.reg 0, valid.zero_reg);
}
  where
    place : (a : ℕ) → (a < 0x10000000 ⊎ 0x10010000 ≤ a) ⊎ ((0x10000000 ≤ a) × (a < 0x10010000))
    place a = ground arith

    byte :
        (a : ℕ)
        → (a < 0x10000000 ⊎ 0x10010000 ≤ a) ⊎ ((0x10000000 ≤ a) × (a < 0x10010000))
        → m'.mem a < 2 ^ 8
    byte a (inl outside) = omega (arith, keeps a outside, fits.mem_byte a)
    byte a (inr h) =
        let back : 0x10000000 + (a - 0x10000000) ≡ a = omega arith in
        omega (
          arith,
          ap m'.mem back,
          stands.mem (a - 0x10000000) (omega arith),
          valid.mem_byte (a - 0x10000000),
        )

-- The words of the program depend on the memory below the data alone.
pub mem_to_inst-low :
    (mem mem' : ℕ → ℕ) (a : ℕ)
    → a < 2 ^ 16
    → ((b : ℕ) → b < 0x10000000 → mem' b ≡ mem b)
    → mem_to_inst a mem' ≡ mem_to_inst a mem
unfolding mem_to_inst
mem_to_inst-low mem mem' a h keeps =
    rw
      (
        keeps a (omega arith),
        keeps (a + 1) (omega arith),
        keeps (a + 2) (omega arith),
        keeps (a + 3) (omega arith),
      )
      refl
