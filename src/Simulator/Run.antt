-- ===== src/Simulator/Run.antt =====
-- project_2/main.c, lines 60-65: the loop over the instruction count, over the words of the file.
pub mod Laws
use f_ca.Base.{ℕ, zero, suc, ◌/◌, List, ltb, if◌then◌else◌, get_or, length}
use f_ca.Machine.{Machine, Outcome, next, ◌>>=◌}
use f_ca.Simulator.Decode.{decode}
use f_ca.Simulator.Exec.{round}

-- One round at a `pc` inside the file.
unfoldable pub step : List ℕ → Machine → Outcome
step buf m = round (decode (get_or buf (m.pc / 4) 0)) m

-- `for (int i = 0; i < inst; ++i) { if (pc / 4 >= cnt) break; … }`. The loop ends in `next m`
-- after its last round or at the `break`.
unfoldable pub run : ℕ → List ℕ → Machine → Outcome
run zero buf m = next m
run (suc n) buf m =
    let rest = run n buf in if ltb (m.pc / 4) (length buf) then step buf m >>= rest else next m
