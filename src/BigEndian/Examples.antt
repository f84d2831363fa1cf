-- ===== src/BigEndian/Examples.antt =====
-- The laws of the third simulator at concrete words.
use f_ca.Base.{ℕ, ◌+◌, ◌*◌, ◌≡◌, arith, [], ◌∷◌}
use f_ca.Word.{sext}
use f_ca.BigEndian.Store.{inst_to_mem, mem_to_inst}
use f_ca.BigEndian.Run.{copy_program}
use f_ca.BigEndian.Laws.{mem_to_inst-copy_program}
use f_ca.Base.{refl, inl, update}
use f_ca.Bits.{bit_and_low}
use f_ca.Word.{shr}
use f_ca.Machine.{Machine, next, write_reg}
use f_ca.Isa.{StoreOp, Instr, store, encode}
use f_ca.Isa.Meaning.{meaning}
use f_ca.BigEndian.Run.{step}
use f_ca.BigEndian.Laws.{mem_to_inst-inst_to_mem}
use f_ca.BigEndian.Faithful.{Fits, StandsFor}
use f_ca.BigEndian.Round.{step-Matches}
use f_ca.Base.{List}
use f_ca.Isa.{ImmOp, imm}
use f_ca.Isa.Meaning.{imm_value}
use mathlib.Core.List.{map}
use f_ca.Base.{true}
use f_ca.Base.Int.{pos}
use f_ca.Isa.Program.{manual}
use f_ca.Simulator.Main.{bytes, success}
use f_ca.Simulator.Main.Laws.{write_words}
use f_ca.BigEndian.Main.{main, print_regi}
use f_ca.BigEndian.Started.{loaded, main-manual}
use f_ca.BigEndian.Whole.{Trace, follow, over}

abbrev empty : ℕ → ℕ
empty i = 0

mem_to_inst-copy_program_example :
    mem_to_inst (0 + 4 * 1) (copy_program 0 (0x02A00093 ∷ 0xFFFFFFFF ∷ []) empty) ≡ 0xFFFFFFFF
mem_to_inst-copy_program_example =
    mem_to_inst-copy_program (0x02A00093 ∷ 0xFFFFFFFF ∷ []) 1 0 empty (ground arith) (omega arith)

-- The program `sw x1, 0(x1)` where x1 holds the address of the first word of data memory.
abbrev storing : Instr
storing = store StoreOp.sw 1 1 0

abbrev state : Machine
state = record {
  pc = 8;
  reg = update (λ _. 0) 1 0x10000000;
  mem = inst_to_mem 8 (encode storing) (λ _. 0);
  input = [];
  output = [];
}

state-Fits : Fits state
unfolding inst_to_mem
state-Fits = record {
  reg_word = λ i. ground arith;
  mem_byte = λ i. ground (
    arith,
    bit_and_low 8 (encode storing),
    bit_and_low 8 (shr (encode storing) 8),
    bit_and_low 8 (shr (encode storing) 16),
    bit_and_low 8 (shr (encode storing) 24),
  );
  zero_reg = refl;
}

abbrev data_of : Machine → Machine
data_of m = record m { mem = λ a. m.mem (0x10000000 + a) }

data_of-StandsFor : (m : Machine) → StandsFor m (data_of m)
data_of-StandsFor m = record {
  pc = refl;
  reg = λ i. refl;
  mem = λ a h. refl;
  input = refl;
  output = refl;
}

step-Matches_example :
    (m' : Machine) × (d' : Machine) × (step state ≡ next m')
    × (meaning storing (data_of state) ≡ next d')
    × StandsFor m' d'
step-Matches_example =
    step-Matches state (data_of state) state-Fits (data_of-StandsFor state) storing (ground arith)
      (inl (unfold sext in (omega arith, omega arith)))
      (mem_to_inst-inst_to_mem 8 (encode storing) (λ _. 0) (unfold encode in omega arith))

-- The program `addi x1, x0, 5`, from its first instruction.
abbrev program : List Instr
program = imm ImmOp.addi 1 0 5 ∷ []

-- A byte of data.
abbrev sample_data : List ℕ
sample_data = 7 ∷ []

abbrev after : Machine
after = record (write_reg 1 5 (loaded sample_data [])) { pc = 4 }

sample-Trace : Trace program 3 (loaded sample_data []) after
unfolding meaning imm_value f_ca.Isa.Meaning.reg_value sext
sample-Trace = follow (omega arith) refl tt refl (over refl)

main-manual_example :
    (m' : Machine) × (main 4
        (bytes (write_words (map encode program)))
        (bytes sample_data)
        (pos 0)
        (pos 3)
        true
        []
      ≡ success m'.output (print_regi 32 0 m'))
    × (manual 3 program (loaded sample_data []) ≡ next after)
    × StandsFor m' after
main-manual_example =
    main-manual program sample_data [] (ground arith) (omega arith) (ground arith) (pos 0) (pos 3)
      (omega arith) tt sample-Trace
