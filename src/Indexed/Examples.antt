-- ===== src/Indexed/Examples.antt =====
-- The laws of the simulator that counts in words, at concrete programs.
use f_ca.Base.{◌*◌, refl, arith, true, List, [], ◌∷◌, update}
use f_ca.Word.{sext}
use f_ca.Machine.{write_reg, Machine}
use f_ca.Isa.{BranchOp, jal, branch, ImmOp, ShiftOp, StoreOp, Instr, imm, store, shift}
use f_ca.Indexed.State.{State}
use f_ca.Indexed.Main.{start}
use f_ca.Indexed.Shows.{Shows, byte_of}
use f_ca.Indexed.Valid.{IsState}
use f_ca.Indexed.Faithful.{Follows}
use f_ca.Indexed.Round.{round-Follows}
use f_ca.Indexed.Whole.{with_file}

-- x1 holds the address of the second word of data memory.
abbrev sample : State
sample = record {
  curr_i = 3;
  reg = update (λ _. 0) 1 0x10000004;
  data_ = λ _. 0xFF;
  user_lw = 0;
  input = [];
  output = [];
}

sample-IsState : IsState sample
sample-IsState = record {
  reg_word = λ i. ground arith;
  data_word = λ i. omega arith;
  user_word = omega arith;
  input_word = tt;
}

abbrev machine_of : State → Machine
machine_of s = record {
  pc = s.curr_i * 4;
  reg = update s.reg 0 0;
  mem = byte_of s.data_;
  input = s.input;
  output = s.output;
}

machine_of-Shows : (s : State) → Shows s (machine_of s)
machine_of-Shows s = record {
  pc = refl;
  reg = λ i. refl;
  mem = λ a h. refl;
  input = refl;
  output = refl;
}

abbrev back : Instr
back = branch BranchOp.bne 1 0 0xFFC

-- A branch back by two words.
round-Follows_example : Follows (with_file true) back sample (machine_of sample)
round-Follows_example =
    round-Follows (with_file true) back sample (machine_of sample) (ground arith) sample-IsState
      (machine_of-Shows sample) (omega arith) (unfold sext in ground arith)

-- It goes on by a word, and back.
abbrev program : List Instr
program = imm ImmOp.addi 1 0 5 ∷ jal 2 0xFFFFE ∷ []

abbrev first : State
first = start (7 ∷ []) []

abbrev after : Machine
after = record (write_reg 2 8 (record (write_reg 1 5 (machine_of first)) { pc = 4 })) { pc = 0 }
