-- ===== src/BigEndian/Main.antt =====
-- proj2/my_project/ekdus.c, lines 57-61 and 376-439: `main` and the print of the registers.
use f_ca.Base.{
  ℕ, zero, suc, ◌+◌, ◌-◌, ◌*◌, ◌/◌, Bool, List, [], ◌∷◌, ltb, leb, not, ◌&&◌, ◌==◌, if◌then◌else◌,
  get_or, length,
}
use f_ca.Base.Int.{ℤ}
use f_ca.Machine.{Machine, initial, Outcome, next, fails, fault}
use f_ca.Handlers.Data.{codes}
use f_ca.Simulator.Main.{File, missing, short, bytes, Exit, error, success, undefined}
use f_ca.Simulator.Main.{read_words, rounds}
use f_ca.BigEndian.Run.{copy_program, run}

-- The values that the calls of `printf("x%d: 0x%08x\n", …)` print, from `registers[i]` on.
unfoldable pub print_regi : ℕ → ℕ → Machine → List ℕ
print_regi zero i m = []
print_regi (suc left) i m = m.reg i ∷ print_regi left (i + 1) m

-- `uint8_t memory[0x10010000] = {0xFF, };`
unfoldable pub first_memory : ℕ → ℕ
first_memory i = if i == 0 then 0xFF else 0

-- `fread(&memory[0x10000000], 1, fileSizeData, dataFile);`
unfoldable pub read_data : List ℕ → (ℕ → ℕ) → ℕ → ℕ
read_data content memory i =
    if leb 0x10000000 i then get_or content (i - 0x10000000) (memory i) else memory i

unfoldable pub finish : Outcome → Exit
finish (next m) = success m.output (print_regi 32 0 m)
finish (fails m) = error m.output
finish fault = undefined

-- From `pc = 0` on. `checkInst[4*totInst] = 2` has to lie in its array of 65536 entries.
unfoldable pub execute : ℕ → ℕ → (ℕ → ℕ) → List ℕ → Exit
execute tot_inst inst_numb memory typed =
    if ltb (4 * tot_inst) 0x10000
    then finish (run (4 * tot_inst) inst_numb (record (initial typed) { mem = memory }))
    else undefined

-- The data file, whose `fopen` is not asked whether it succeeded, and whose bytes have to fit behind
-- 0x10000000. What `fread` reads of a file that it cuts short is not known.
unfoldable pub with_data : File → ℕ → ℕ → (ℕ → ℕ) → List ℕ → Exit
with_data missing tot_inst inst_numb memory typed = undefined
with_data short tot_inst inst_numb memory typed = undefined
with_data (bytes content) tot_inst inst_numb memory typed =
    if leb (length content) 0x10000
    then execute tot_inst inst_numb (read_data content memory) typed
    else undefined

-- The instruction file, whose bytes have to be whole words, since `totInst` is rounded up.
unfoldable pub with_program : ℕ → List ℕ → File → ℤ → ℤ → List ℕ → Exit
with_program argc content second argv2 argv3 typed =
    let inst = read_words content in
    let tot_inst : ℕ = (length content + 3) / 4 in
    let memory = copy_program 0 inst first_memory in
    if not (length inst == tot_inst)
    then error []
    else if argc == 3
    then execute tot_inst (rounds argv2) memory typed
    else with_data second tot_inst (rounds argv3) memory typed

-- `error []` is an exit with 1 and nothing printed. The message on a wrong count of arguments goes
-- to the standard output, and the exit is 0, without registers. `alloc` tells whether `malloc`
-- succeeds, which the source does not ask.
unfoldable pub main : ℕ → File → File → ℤ → ℤ → Bool → List ℕ → Exit
main argc first second argv2 argv3 alloc typed =
    let opened : Exit = elim first [
      | missing ↦ error []
      | short ↦ if alloc then error [] else undefined
      | bytes content ↦
          if alloc then with_program argc content second argv2 argv3 typed else undefined
    ] in
    if not (argc == 3) && not (argc == 4)
    then success (codes "error: not in a right instruction form\n") []
    else opened
