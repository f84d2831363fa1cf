-- ===== src/Handlers/Examples.antt =====
-- The laws of the second simulator at concrete words and machines.
use f_ca.Base.{◌+◌, ◌*◌, ◌/◌, ◌%◌, ◌^◌, ◌≡◌, ◌≢◌, refl, arith, [], ltb, update, if◌then◌else◌}
use f_ca.Word.{sext, slt, add32}
use f_ca.Machine.{Machine, initial, write_reg, next, IsValid}
use f_ca.Isa.{BranchOp, jalr, branch, encode}
use f_ca.Isa.Meaning.{meaning}
use f_ca.Simulator.Decode
use f_ca.Simulator.Exec
use f_ca.Handlers.Decode.{decode}
use f_ca.Handlers.Dispatch.{round, run}
use f_ca.Handlers.Agree.{Agrees, round-eq}
use f_ca.Handlers.Faithful.{round-faithful, round-blt_signs, round-jalr_self}
use mathlib.Core.List.{map}
use f_ca.Base.{List, ◌∷◌, ◌++◌, true}
use f_ca.Base.Int.{pos}
use f_ca.Isa.{Instr, ImmOp, imm, LoadOp, StoreOp, lui, load, store}
use f_ca.Simulator.Main.{bytes, success}
use f_ca.Simulator.Main.Laws.{write_words}
use f_ca.Simulator.Run
use f_ca.Handlers.Narrow.{narrow_load, narrow_store, round-load, round-store}
use f_ca.Handlers.Trace.{Trace, run-Trace, runs-agree}
use f_ca.Handlers.Main.{main, print_registers, read_data}
use f_ca.Handlers.Main.Laws.{main-Trace}

-- x1 holds -1 and x2 holds 1.
abbrev signed : Machine
signed = record (initial []) { reg = update (update (λ _. 0) 1 0xFFFFFFFF) 2 1 }

signed-IsValid : IsValid signed
signed-IsValid = record {
  pc_word = omega arith;
  reg_word = λ i. ground arith;
  mem_byte = λ i. omega arith;
  zero_reg = refl;
  input_word = tt;
}

signs_differ : slt 0xFFFFFFFF 1 ≢ ltb 0xFFFFFFFF 1
unfolding slt
signs_differ = ground arith

round-eq_example : round (decode 0x02A00093) signed ≡ Exec.round (Decode.decode 0x02A00093) signed
round-eq_example = round-eq 0x02A00093 signed (omega arith) addi
  where
    addi : Agrees (decode 0x02A00093) signed
    addi = unfold decode in ground arith

round-faithful_example :
    round (decode (encode (branch BranchOp.bltu 2 1 4))) signed
    ≡ meaning (branch BranchOp.bltu 2 1 4) signed
round-faithful_example =
    round-faithful signed signed-IsValid (branch BranchOp.bltu 2 1 4) (ground arith) tt

round-blt_signs_example : round (decode (encode (branch BranchOp.blt 1 2 4))) signed ≡ (
    if slt 0xFFFFFFFF 1
    then next (record signed { pc = add32 (add32 0 (sext 13 (4 * 2))) 4 })
    else next signed)
round-blt_signs_example = round-blt_signs 1 2 4 signed (ground arith) signs_differ

round-jalr_self_example :
    round (decode (encode (jalr 1 1 8))) signed
    ≡ next (write_reg 1 (add32 0 4) (record signed { pc = (0 + 4 + sext 12 8) % 2 ^ 32 / 2 * 2 }))
round-jalr_self_example = round-jalr_self 1 8 signed (ground arith)

round-load_example :
    round (decode (encode (load LoadOp.lb 3 2 0xFFF))) signed
    ≡ narrow_load LoadOp.lb 3 (add32 1 (sext 12 0xFFF)) signed
round-load_example =
    round-load signed signed-IsValid LoadOp.lb 3 2 0xFFF (ground arith) (ground arith)

round-store_example :
    round (decode (encode (store StoreOp.sh 1 2 4))) signed
    ≡ narrow_store StoreOp.sh 0xFFFFFFFF (add32 1 (sext 12 4)) signed
round-store_example =
    round-store signed signed-IsValid StoreOp.sh 1 2 4 (ground arith) (ground arith)

-- Two steps, and the end of the program.
abbrev sample : List Instr
sample = imm ImmOp.addi 1 0 42 ∷ lui 2 3 ∷ []

abbrev after : Machine
after = record (write_reg 2 (3 * 2 ^ 12) (record (write_reg 1 42 (initial [])) { pc = 4 })) {
  pc = 8;
}

sample-Trace : Trace sample 5 (initial []) after
unfolding meaning f_ca.Isa.Meaning.imm_value f_ca.Isa.Meaning.reg_value sext
sample-Trace =
    Trace.follow (omega arith) tt refl
      (Trace.follow (omega arith) tt refl (Trace.over (omega arith)))

blank-IsValid : IsValid (initial [])
blank-IsValid = record {
  pc_word = omega arith;
  reg_word = λ i. omega arith;
  mem_byte = λ i. omega arith;
  zero_reg = refl;
  input_word = tt;
}

run-Trace_example : run 5 (map encode sample) (initial []) ≡ next after
run-Trace_example = run-Trace sample (ground arith) blank-IsValid sample-Trace

runs-agree_example :
    run 5 (map encode sample) (initial []) ≡ Run.run 5 (map encode sample) (initial [])
runs-agree_example = runs-agree sample (ground arith) blank-IsValid sample-Trace

-- The same from the machine that an empty data file leaves.
abbrev loaded : Machine
loaded = record (initial []) { mem = λ i. 0 }

loaded-Trace : Trace sample 5 (read_data [] (initial [])) after
unfolding read_data
loaded-Trace = sample-Trace

main-Trace_example :
    main 4 (bytes (write_words (map encode sample) ++ [])) (bytes []) (pos 0) (pos 5) true []
    ≡ success [] (print_registers 32 0 after)
main-Trace_example =
    main-Trace sample [] [] [] 5 (pos 0) after (ground arith) tt tt (omega arith) (omega arith)
      loaded-Trace
