-- ===== src/BigEndian/Started.antt =====
-- proj2/my_project/ekdus.c: `main` as a whole, on the files of a program and its data.
use mathlib.Core.List.{map}
use f_ca.Base.{
  ℕ, zero, suc, ◌+◌, ◌-◌, ◌*◌, ◌/◌, ◌^◌, ◌≤◌, ◌<◌, ◌≡◌, refl, sym, ap, ◌∙◌, arith, true, List, [],
  ◌∷◌, All, get_or, length, le→leb, lt→ltb, eq→==,
}
use f_ca.Base.Int.{ℤ}
use f_ca.Machine.{Machine, IsValid, initial, next}
use f_ca.Isa.{Instr, encode, IsInstr}
use f_ca.Isa.Bounds.{encode-words}
use f_ca.Isa.Program.{manual}
use f_ca.Bits.{bit_and_low}
use f_ca.Simulator.Main.{bytes, success, rounds, read_words}
use f_ca.Simulator.Main.Laws.{write_words}
use f_ca.Simulator.Run.Laws.{length-encode, get_or-encode}
use f_ca.Disassembler.Main.Laws.{read_written, length-write_words}
use f_ca.BigEndian.Store.{inst_to_mem, mem_to_inst}
use f_ca.BigEndian.Run.{copy_program}
use f_ca.BigEndian.Laws.{mem_to_inst-copy_program}
use f_ca.BigEndian.Main.{
  first_memory, read_data, finish, execute, with_data, with_program, main, print_regi,
}
use f_ca.BigEndian.Faithful.{Fits, StandsFor}
use f_ca.BigEndian.Keeps.{mem_to_inst-low}
use f_ca.BigEndian.Whole.{Trace, run-Trace, IsLoaded}

inst_to_mem-eq :
    (pc w a : ℕ) (memory : ℕ → ℕ)
    → (pc + 4 ≤ a → inst_to_mem pc w memory a ≡ memory a)
      × (memory a < 2 ^ 8 → inst_to_mem pc w memory a < 2 ^ 8)
unfolding inst_to_mem
inst_to_mem-eq pc w a memory = ground (
  arith,
  bit_and_low 8 w,
  bit_and_low 8 (w / 2 ^ 8),
  bit_and_low 8 (w / 2 ^ 16),
  bit_and_low 8 (w / 2 ^ 24),
)

-- Behind the program memory stays as it is, and every element stays a byte.
copy_program-eq :
    (words : List ℕ) (pc a : ℕ) (memory : ℕ → ℕ)
    → (pc + 4 * length words ≤ a → copy_program pc words memory a ≡ memory a)
      × (memory a < 2 ^ 8 → copy_program pc words memory a < 2 ^ 8)
unfolding copy_program
copy_program-eq [] pc a memory = (λ h. refl, λ h. h)
copy_program-eq (w ∷ words) pc a memory =
    let rest = copy_program-eq words (pc + 4) a (inst_to_mem pc w memory) in
    let one = inst_to_mem-eq pc w a memory in
    (λ h. rest.0 (omega arith) ∙ one.0 (omega arith), λ h. rest.1 (one.1 h))

first_memory-eq : (a : ℕ) → (first_memory a < 2 ^ 8) × (0 < a → first_memory a ≡ 0)
unfolding first_memory
first_memory-eq a = ground arith

get_or-eq : (content : List ℕ) (a x : ℕ) → x ≡ 0 → get_or content a x ≡ get_or content a 0
get_or-eq content a x e = ap (get_or content a) e

get_or-byte :
    (content : List ℕ) (a x : ℕ) → All (λ b. b < 256) content → x < 256 → get_or content a x < 256
get_or-byte [] a x h lt = lt
get_or-byte (b ∷ content) zero x h lt = h.0
get_or-byte (b ∷ content) (suc a) x h lt = get_or-byte content a x h.1 lt

-- Memory when the loop starts, and the states of the program and of the manual.
abbrev memory_of : List Instr → List ℕ → ℕ → ℕ
memory_of program content = read_data content (copy_program 0 (map encode program) first_memory)

abbrev pub started : List Instr → List ℕ → List ℕ → Machine
started program content typed = record (initial typed) { mem = memory_of program content }

abbrev pub loaded : List ℕ → List ℕ → Machine
loaded content typed = record (initial typed) { mem = λ a. get_or content a 0 }

module _ (program : List Instr) (content typed : List ℕ) (ok : All IsInstr program)
    (small : 4 * length program < 2 ^ 16) (data_bytes : All (λ b. b < 256) content) where
  pub started-Fits : Fits (started program content typed)
  unfolding read_data
  started-Fits = record {
    reg_word = λ i. omega arith;
    mem_byte = λ a.
        let copied = copy_program-eq (map encode program) 0 a first_memory in
        let low : copy_program 0 (map encode program) first_memory a < 256 =
          copied.1 (first_memory-eq a).0 in
        ground (
          arith,
          low,
          get_or-byte content (a - 0x10000000) (copy_program 0 (map encode program) first_memory a)
              data_bytes low,
        );
    zero_reg = refl;
  }

  started-StandsFor : StandsFor (started program content typed) (loaded content typed)
  unfolding read_data
  started-StandsFor = record {
    pc = refl;
    reg = λ i. refl;
    mem = λ a h.
        let there : ℕ = 0x10000000 + a in
        let len = length-encode program in
        let back : there - 0x10000000 ≡ a = omega arith in
        let none_ : copy_program 0 (map encode program) first_memory there ≡ 0 =
          (copy_program-eq (map encode program) 0 there first_memory).0 (omega arith)
          ∙ (first_memory-eq there).1 (omega arith) in
        rw (le→leb 0x10000000 there (omega arith), none_, back) refl;
    input = refl;
    output = refl;
  }

  pub started-IsLoaded : IsLoaded program (started program content typed)
  unfolding read_data
  started-IsLoaded k h =
      let copied = copy_program 0 (map encode program) first_memory in
      let len = length-encode program in
      let here : 0 + 4 * k ≡ 4 * k = omega arith in
      mem_to_inst-low copied (memory_of program content) (4 * k) (omega arith)
        (λ a low. ground arith)
      ∙ ap (λ a. mem_to_inst a copied) (sym here)
      ∙ mem_to_inst-copy_program (map encode program) k 0 first_memory (encode-words program ok)
          (omega arith)
      ∙ get_or-encode program k h

  loaded-IsValid : All (λ n. n < 2 ^ 32) typed → IsValid (loaded content typed)
  loaded-IsValid words = record {
    pc_word = omega arith;
    reg_word = λ i. omega arith;
    mem_byte = λ a. get_or-byte content a 0 data_bytes (omega arith);
    zero_reg = refl;
    input_word = words;
  }

  -- With the file of a program of less than 16384 words and a data file of at most 65536 bytes, and
  -- where `malloc` succeeds: for every trace of faithful steps of the manual, as many as the last
  -- argument says, from the machine in which data memory holds the bytes of the file and 0 behind them,
  -- `main` prints the characters and the registers of a state that stands for the machine in which the
  -- trace ends, in which the manual's run ends too.
  pub main-manual :
      {d' : Machine} (argv2 argv3 : ℤ)
      → length content ≤ 0x10000
      → All (λ n. n < 2 ^ 32) typed
      → Trace program (rounds argv3) (loaded content typed) d'
      → (m' : Machine) × (main 4
            (bytes (write_words (map encode program)))
            (bytes content)
            argv2
            argv3
            true
            typed
          ≡ success m'.output (print_regi 32 0 m'))
        × (manual (rounds argv3) program (loaded content typed) ≡ next d')
        × StandsFor m' d'
  unfolding main with_program with_data execute finish
  main-manual argv2 argv3 fits words steps =
      let all =
        run-Trace program small (started program content typed) ok started-Fits started-IsLoaded
          (loaded-IsValid words) started-StandsFor steps in
      let ws = map encode program in
      let len = length-encode program in
      let read : read_words (write_words ws) ≡ ws = read_written ws (encode-words program ok) in
      let rounded : (length (write_words ws) + 3) / 4 ≡ length program =
        omega (arith, length-write_words ws) in
      let same = eq→== (length program) (length program) refl in
      (
        all.0,
        rw
            (
              read,
              rounded,
              len,
              same,
              le→leb (length content) 0x10000 fits,
              lt→ltb (4 * length program) 0x10000 small,
              all.1,
            )
            refl,
        all.2,
        all.3,
      )
