-- ===== src/BigEndian/Run.antt =====
-- proj2/my_project/ekdus.c, lines 397-400 and 420-431: the program is copied into memory, and the
-- loop runs it from there.
use f_ca.Base.{ℕ, zero, suc, ◌+◌, List, [], ◌∷◌, ltb, ◌==◌, if◌then◌else◌}
use f_ca.Machine.{Machine, Outcome, next, fault, ◌>>=◌}
use f_ca.BigEndian.Store.{inst_to_mem, mem_to_inst}
use f_ca.BigEndian.Exec.{execute_inst}

-- `for (int a = 0; a < totInst; a++) { instTOmem(pc, inst[a]); pc += 4; }`, from the word at `pc` on.
unfoldable pub copy_program : ℕ → List ℕ → (ℕ → ℕ) → ℕ → ℕ
copy_program pc [] memory = memory
copy_program pc (word ∷ inst) memory = copy_program (pc + 4) inst (inst_to_mem pc word memory)

unfoldable pub step : Machine → Outcome
step m = execute_inst (mem_to_inst m.pc m.mem) m

-- `while ((checkInst[pc] != 2) && (executedInst < instNumb))`, with the count that is left. The one
-- entry of `checkInst` that is 2 is that of `last`, the end of the program; past its 65536 entries
-- the test is undefined.
unfoldable pub run : ℕ → ℕ → Machine → Outcome
run last zero m = if ltb m.pc 0x10000 then next m else fault
run last (suc left) m =
    let rest = run last left in
    if ltb m.pc 0x10000 then (if m.pc == last then next m else step m >>= rest) else fault
