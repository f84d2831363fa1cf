-- ===== src/Simulator/Stuck.antt =====
-- The unsigned branches, which the `switch` leaves out: the last lines of the round add 4 to the
-- `pc` on the four tests that they know, so on these two the `pc` never moves.
use f_ca.Base.{ℕ, zero, suc, ◌/◌, ◌<◌, ◌≡◌, ◌⊎◌, refl, ◌∙◌, ap, arith, List, get_or, length}
use f_ca.Machine.{Machine, next, ◌>>=◌}
use f_ca.Isa.{BranchOp, bltu, bgeu, branch, encode, IsInstr}
use f_ca.Simulator.Decode.{Fields, decode}
use f_ca.Simulator.Exec.{taken, not_taken, execute, advance, round}
use f_ca.Simulator.Run.{step, run}
use f_ca.Simulator.Run.Laws.{run_more}
use f_ca.Simulator.Roundtrip.{decode-encode}

round_unsigned :
    (f : Fields) (m : Machine)
    → f.opcode ≡ 0x63
    → (f.func3 ≡ 6) ⊎ (f.func3 ≡ 7)
    → round f m ≡ next m
unfolding round execute advance taken not_taken
round_unsigned f m op codes = ground arith

func3_unsigned :
    (o : BranchOp) (rs1 rs2 n : ℕ)
    → IsInstr (branch o rs1 rs2 n)
    → (o ≡ bltu) ⊎ (o ≡ bgeu)
    → (decode (encode (branch o rs1 rs2 n))).func3 ≡ 6
      ⊎ (decode (encode (branch o rs1 rs2 n))).func3 ≡ 7
func3_unsigned o rs1 rs2 n h unsigned = ground (arith, decode-encode (branch o rs1 rs2 n) h)

-- Once the `pc` is at `bltu` or `bgeu`, every count of rounds ends where it began: the branch is
-- neither taken nor passed, whatever the registers hold.
pub run_unsigned_branch :
    (k : ℕ) (o : BranchOp) (rs1 rs2 n : ℕ) (buf : List ℕ) (m : Machine)
    → IsInstr (branch o rs1 rs2 n)
    → (o ≡ bltu) ⊎ (o ≡ bgeu)
    → m.pc / 4 < length buf
    → get_or buf (m.pc / 4) 0 ≡ encode (branch o rs1 rs2 n)
    → run k buf m ≡ next m
run_unsigned_branch zero o rs1 rs2 n buf m h unsigned inside at = unfold run in refl
run_unsigned_branch (suc k) o rs1 rs2 n buf m h unsigned inside at =
    run_more buf m k inside
    ∙ ap (λ r. r >>= run k buf) stays
    ∙ run_unsigned_branch k o rs1 rs2 n buf m h unsigned inside at
  where
    stays : step buf m ≡ next m
    stays =
        unfold step in
        rw at (
          round_unsigned _ m (decode-encode (branch o rs1 rs2 n) h).0
            (func3_unsigned o rs1 rs2 n h unsigned))
