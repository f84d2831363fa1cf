-- ===== src/Strings/Finish.antt =====
-- proj2/pa2/태환.c: the end of a round, where x0 is cleared again.
use mathlib.Core.Path.{fun_ext}
use f_ca.Base.{
  ℕ, ◌+◌, ◌%◌, ◌^◌, ◌≡◌, ◌≢◌, ◌⊎◌, inr, refl, ap, ◌∙◌, arith, Bool, true, false, ◌&&◌,
  if◌then◌else◌, ◌==◌, update,
}
use f_ca.Machine.{Machine, write_reg, next}
use f_ca.Isa.Meaning.{go_on, jump_to}
use f_ca.Strings.Exec.{reset, finish}

clear : ℕ → (ℕ → ℕ) → ℕ → ℕ
clear r reg = if r == 0 then update reg r 0 else reg

if-reg :
    (b : Bool) (m : Machine) (g : ℕ → ℕ)
    → (if b then record m { reg = g } else m) ≡ record m { reg = if b then g else m.reg }
if-reg true m g = refl
if-reg false m g = refl

reset-eq : (r : ℕ) (m : Machine) → reset r m ≡ record m { reg = clear r m.reg }
unfolding clear
reset-eq r m = if-reg (r == 0) m (update m.reg r 0)

clear_lem :
    (r : ℕ) (reg : ℕ → ℕ) (i : ℕ) → clear r reg i ≡ (if r == 0 && (i == 0) then 0 else reg i)
unfolding clear
clear_lem r reg i = ground arith

finish-clear :
    (rs1 rs2 rd : ℕ) (m : Machine)
    → finish rs1 rs2 rd m
      ≡ next (record m { reg = clear rd (clear rs2 (clear rs1 m.reg)); pc = (m.pc + 4) % 2 ^ 32 })
unfolding finish
finish-clear rs1 rs2 rd m =
    ap (λ (k : Machine). next (record k { pc = (k.pc + 4) % 2 ^ 32 }))
      (ap (reset rd)
          (ap (reset rs2) (reset-eq rs1 m) ∙ reset-eq rs2 (record m { reg = clear rs1 m.reg }))
        ∙ reset-eq rd (record m { reg = clear rs2 (clear rs1 m.reg) }))

-- The registers at the end of a round: x0 is 0 if it is 0 before or the destination.
pub finish-is :
    (rs1 rs2 rd : ℕ) (m : Machine) (g : ℕ → ℕ)
    → ((i : ℕ) → i ≢ 0 → m.reg i ≡ g i)
    → g 0 ≡ 0
    → (rd ≡ 0) ⊎ (m.reg 0 ≡ 0)
    → finish rs1 rs2 rd m ≡ next (record m { reg = g; pc = (m.pc + 4) % 2 ^ 32 })
finish-is rs1 rs2 rd m g agree zero_ clears =
    finish-clear rs1 rs2 rd m
    ∙ ap (λ (r : ℕ → ℕ). next (record m { reg = r; pc = (m.pc + 4) % 2 ^ 32 })) (fun_ext at)
  where
    zero_at : (i : ℕ) → i ≡ 0 → (m.reg i ≡ m.reg 0) × (g i ≡ g 0)
    zero_at i e = (ap m.reg e, ap g e)

    at : (i : ℕ) → clear rd (clear rs2 (clear rs1 m.reg)) i ≡ g i
    at i = ground (
      arith,
      clear_lem rs1 m.reg i,
      clear_lem rs2 (clear rs1 m.reg) i,
      clear_lem rd (clear rs2 (clear rs1 m.reg)) i,
      zero_at i,
      agree i,
      zero_,
      clears,
    )

module _ (rs1 rs2 rd : ℕ) (m : Machine) (zero_reg : m.reg 0 ≡ 0) where
  -- A value is written.
  pub finish-write :
      (v : ℕ) → finish rs1 rs2 rd (record m { reg = update m.reg rd v }) ≡ go_on (write_reg rd v m)
  finish-write v =
      finish-is rs1 rs2 rd (record m { reg = update m.reg rd v }) (update (update m.reg rd v) 0 0)
        (λ i other. ground arith) (ground arith) (ground (arith, zero_reg))

  -- A value is written, and the program goes on at `p + 4`.
  pub finish-jump :
      (v p : ℕ)
      → finish rs1 rs2 rd (record m { reg = update m.reg rd v; pc = p })
        ≡ jump_to (p + 4) (write_reg rd v m)
  finish-jump v p =
      finish-is rs1 rs2 rd (record m { reg = update m.reg rd v; pc = p })
        (update (update m.reg rd v) 0 0) (λ i other. ground arith) (ground arith)
        (ground (arith, zero_reg))

  -- No register is written.
  pub finish-turn : (p : ℕ) → finish rs1 rs2 rd (record m { pc = p }) ≡ jump_to (p + 4) m
  finish-turn p =
      finish-is rs1 rs2 rd (record m { pc = p }) m.reg (λ i other. refl) zero_reg (inr zero_reg)
