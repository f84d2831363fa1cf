-- ===== src/Handlers/Main.antt =====
-- proj2/my_project/dbswl.c, lines 282-343 and 517-522: `main` around the loop.
pub mod Laws
use f_ca.Base.{
  ℕ, zero, suc, ◌+◌, Bool, List, [], ◌∷◌, ltb, leb, ◌==◌, if◌then◌else◌, get_or, length,
}
use f_ca.Base.Int.{ℤ}
use f_ca.Machine.{Machine, initial, Outcome, next, fails, fault}
use f_ca.Simulator.Main.{File, missing, short, bytes, Exit, error, success, undefined}
use f_ca.Simulator.Main.{read_words, rounds}
use f_ca.Handlers.Data.{memory_size}
use f_ca.Handlers.Dispatch.{run}

-- The values that `printf("x%d: 0x%08x\n", i, reg[i])` prints, from `reg[i]` on.
unfoldable pub print_registers : ℕ → ℕ → Machine → List ℕ
print_registers zero i m = []
print_registers (suc left) i m = m.reg i ∷ print_registers left (i + 1) m

-- The end of `main` after the loop. No round makes `main` return, so `fails` does not come up.
unfoldable pub finish : Outcome → Exit
finish (next m) = success m.output (print_registers 32 0 m)
finish (fails m) = error m.output
finish fault = undefined

-- `fread(memory, sizeof(char), data_fileSize, data_fp)` into the 65536 bytes of `memory`.
unfoldable pub read_data : List ℕ → Machine → Machine
read_data content m = record m { mem = λ i. get_or content i 0 }

unfoldable pub with_data_file : File → ℕ → List ℕ → List ℕ → Exit
with_data_file missing num_instructions buffer typed = error []
with_data_file short num_instructions buffer typed = error []
with_data_file (bytes content) num_instructions buffer typed =
    if leb (length content) memory_size
    then finish (run num_instructions buffer (read_data content (initial typed)))
    else undefined

-- `argv2` and `argv3` are what `atoi` makes of the two arguments.
unfoldable pub execute_file : ℕ → File → ℤ → ℤ → List ℕ → List ℕ → Exit
execute_file argc second argv2 argv3 buffer typed =
    if argc == 4
    then with_data_file second (rounds argv3) buffer typed
    else finish (run (rounds argv2) buffer (initial typed))

-- The arguments are those of the other simulator's `main`; `error []` is an `EXIT_FAILURE` with
-- nothing on the standard output. (The messages go to the standard error.)
unfoldable pub main : ℕ → File → File → ℤ → ℤ → Bool → List ℕ → Exit
main argc missing second argv2 argv3 alloc typed = error []
main argc short second argv2 argv3 alloc typed = error []
main argc (bytes content) second argv2 argv3 alloc typed =
    if ltb argc 3
    then error []
    else if alloc
    then execute_file argc second argv2 argv3 (read_words content) typed
    else error []
