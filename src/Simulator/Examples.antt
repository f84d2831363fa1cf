-- ===== src/Simulator/Examples.antt =====
-- The laws of the simulator at concrete programs and machines.
use mathlib.Core.List.{map}
use f_ca.Base.{ℕ, ◌≡◌, ◌≢◌, ◌⊎◌, ◌↔◌, refl, inl, arith, List, [], ◌∷◌, ◌++◌, update, true}
use f_ca.Base.Int.{pos}
use f_ca.Word.{IsWord}
use f_ca.Machine.{Machine, initial, write_reg, next, fault, IsValid, Leaves}
use f_ca.Isa.{
  RegOp, ImmOp, BranchOp, LoadOp, StoreOp, Instr, lui, branch, load, store, imm, reg, encode,
}
use f_ca.Isa.Meaning.{meaning}
use f_ca.Isa.Program.{manual, IsProgram}
use f_ca.Simulator.Decode.{decode}
use f_ca.Simulator.Exec
use f_ca.Simulator.Exec.{round}
use f_ca.Simulator.Run.{run}
use f_ca.Simulator.Main.{bytes, finish, with_data, main}
use f_ca.Simulator.Arith.{IsDecoded, decode-IsDecoded}
use f_ca.Simulator.Roundtrip.{Reads, decode-encode}
use f_ca.Simulator.Refines.Round.{round-encode}
use f_ca.Simulator.Run.Laws.{run-IsValid, run-refines}
use f_ca.Simulator.Effects.{round-frame}
use f_ca.Simulator.Memory.{load-store}
use f_ca.Simulator.Faults.{LoadFaults, StoreFaults, round-eq-fault_iff}
use f_ca.Simulator.Stuck.{run_unsigned_branch}
use f_ca.Simulator.Main.Laws.{write_words, main-refines}

-- 42 goes to data memory and comes back, and the branch leaves out the word behind it.
abbrev sample : List Instr
sample =
    lui 5 0x10000
    ∷ imm ImmOp.addi 1 0 42
    ∷ store StoreOp.sw 1 5 0
    ∷ load LoadOp.lw 2 5 0
    ∷ branch BranchOp.beq 1 2 4
    ∷ reg RegOp.sub 3 0 1
    ∷ []

sample-IsProgram : IsProgram sample
sample-IsProgram = ground arith

abbrev blank : Machine
blank = initial (7 ∷ [])

blank-IsValid : IsValid blank
blank-IsValid = record {
  pc_word = omega arith;
  reg_word = λ i. omega arith;
  mem_byte = λ i. omega arith;
  zero_reg = refl;
  input_word = (omega arith, tt);
}

-- `addi x1, x0, 42`, as its word.
abbrev addi_word : ℕ
addi_word = 0x02A00093

-- The data memory after 0x01020304 is stored at its start, in the order of the writes.
abbrev stored : Machine
stored = record blank { mem = update (update (update (update (λ _. 0) 0 4) 1 3) 2 2) 3 1 }

run-refines_example : run 6 (map encode sample) blank ≡ manual 6 sample blank
run-refines_example = run-refines 6 sample blank sample-IsProgram blank-IsValid

main-refines_example :
    main 4
      (bytes (write_words (map encode sample) ++ 0 ∷ []))
      (bytes (1 ∷ 2 ∷ []))
      (pos 0)
      (pos 6)
      true
      (7 ∷ [])
    ≡ finish (manual 6 sample (with_data (1 ∷ 2 ∷ []) (initial (7 ∷ []))))
main-refines_example =
    main-refines sample (1 ∷ 2 ∷ []) (7 ∷ []) (0 ∷ []) 6 (pos 0) sample-IsProgram (ground arith)
      (ground arith) (omega arith) (omega arith)

round-encode_example :
    round (decode (encode (imm ImmOp.addi 1 0 42))) blank ≡ meaning (imm ImmOp.addi 1 0 42) blank
round-encode_example = round-encode (imm ImmOp.addi 1 0 42) blank (ground arith) tt blank-IsValid

decode-encode_example :
    Reads (branch BranchOp.beq 1 2 4) (decode (encode (branch BranchOp.beq 1 2 4)))
decode-encode_example = decode-encode (branch BranchOp.beq 1 2 4) (ground arith)

run-IsValid_example : Leaves IsValid (run 6 (map encode sample) blank)
run-IsValid_example = run-IsValid 6 (map encode sample) blank blank-IsValid

round-eq-fault_iff_example :
    (round (decode addi_word) blank ≡ fault)
    ↔ (LoadFaults (decode addi_word) blank ⊎ StoreFaults (decode addi_word) blank)
round-eq-fault_iff_example = round-eq-fault_iff (decode addi_word) blank

stores : Exec.store 2 0x01020304 0x10000000 0 blank ≡ next stored
unfolding Exec.store Exec.store_bytes f_ca.Word.slt
stores = refl

load-store_example : Exec.load 2 4 0x10000000 0 stored ≡ next (write_reg 4 0x01020304 stored)
load-store_example =
    load-store 0x01020304 4 0x10000000 0 blank stored (omega arith) (ground arith) stores

decode-IsDecoded_example : IsDecoded addi_word (decode addi_word)
decode-IsDecoded_example = decode-IsDecoded addi_word (omega arith)

round-frame_example : Leaves (λ m'. m'.reg 3 ≡ 0) (round (decode addi_word) blank)
round-frame_example = round-frame addi_word 3 blank (omega arith) other
  where
    other : 3 ≢ (decode addi_word).rd
    other = unfold decode in ground arith

run_unsigned_branch_example : run 9 (encode (branch BranchOp.bltu 1 2 4) ∷ []) blank ≡ next blank
run_unsigned_branch_example =
    run_unsigned_branch 9 BranchOp.bltu 1 2 4 (encode (branch BranchOp.bltu 1 2 4) ∷ []) blank
      (ground arith) (inl refl) (omega arith) refl
