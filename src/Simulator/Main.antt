-- ===== src/Simulator/Main.antt =====
-- project_2/main.c, lines 13-58 and 433-439: `main` from its arguments to its exit.
pub mod Laws
use f_ca.Base.{
  ℕ, zero, suc, ◌+◌, ◌*◌, ◌^◌, ◌<◌, Bool, true, false, List, [], ◌∷◌, ltb, leb, ◌==◌, if◌then◌else◌,
  get_or, length,
}
use f_ca.Base.Int.{ℤ, pos, negsuc}
use f_ca.Machine.{Machine, initial, Outcome, next, fails, fault}
use f_ca.Simulator.Run.{run}

-- A file as the calls of `fopen` and `fread` find it: absent, cut short by `fread`, or its bytes.
pub data File : Type 0 where
  missing : File
  short : File
  bytes : List ℕ → File

-- The end of the process: -1, or 0 with what `printf` has shown of the registers; each with the
-- characters written before. `undefined` is behaviour that C does not define.
pub data Exit : Type 0 where
  error : List ℕ → Exit
  success : List ℕ → List ℕ → Exit
  undefined : Exit

-- `fread(buf, sizeof(int), total_inst/sizeof(int), fp)` on a little-endian host: whole words, and
-- the last one to three bytes of a file that ends inside a word are not read.
unfoldable pub read_words : List ℕ → List ℕ
read_words (a ∷ b ∷ c ∷ d ∷ rest) = (a + b * 2 ^ 8 + c * 2 ^ 16 + d * 2 ^ 24) ∷ read_words rest
read_words _ = []

-- The values that `for (int i = 0; i < 32; ++i) printf(…, reg[i])` prints, from `reg[i]` on.
unfoldable pub print_registers : ℕ → ℕ → Machine → List ℕ
print_registers zero i m = []
print_registers (suc left) i m = m.reg i ∷ print_registers left (i + 1) m

unfoldable pub finish : Outcome → Exit
finish (next m) = success m.output (print_registers 32 0 m)
finish (fails m) = error m.output
finish fault = undefined

-- The rounds of `for (int i = 0; i < inst; ++i)`.
abbrev pub rounds : ℤ → ℕ
rounds (pos n) = n
rounds (negsuc n) = 0

-- `fread(mem, 1, total_size, dp)` into the 65536 bytes of `mem`.
unfoldable pub with_data : List ℕ → Machine → Machine
with_data content m = record m { mem = λ i. get_or content i 0 }

unfoldable pub load_data : File → ℕ → List ℕ → List ℕ → Exit
load_data missing n buf typed = error []
load_data short n buf typed = error []
load_data (bytes content) n buf typed =
    if leb (length content) 65536
    then finish (run n buf (with_data content (initial typed)))
    else undefined

unfoldable pub start : ℕ → File → ℤ → ℤ → List ℕ → List ℕ → Exit
start argc second inst2 inst3 buf typed =
    if argc == 4
    then load_data second (rounds inst3) buf typed
    else finish (run (rounds inst2) buf (initial typed))

-- `first` and `second` are the files that `argv[1]` and `argv[2]` name, `inst2` and `inst3` what
-- `atoi` makes of `argv[2]` and `argv[3]`, `alloc` tells whether `malloc` succeeds, and `typed`
-- holds the numbers that the user will type.
unfoldable pub main : ℕ → File → File → ℤ → ℤ → Bool → List ℕ → Exit
main argc missing second inst2 inst3 alloc typed = error []
main argc short second inst2 inst3 alloc typed = error []
main argc (bytes content) second inst2 inst3 alloc typed =
    if ltb argc 3
    then error []
    else if alloc
    then start argc second inst2 inst3 (read_words content) typed
    else error []
