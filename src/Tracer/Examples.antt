-- ===== src/Tracer/Examples.antt =====
-- The laws of the executing disassembler at concrete words and files.
use mathlib.Core.List.{map}
use f_ca.Base.{ℕ, ◌≡◌, refl, arith, some, none, List, [], ◌∷◌, true, update, if◌then◌else◌}
use f_ca.Word.{IsWord, add32, sext}
use f_ca.Isa.{RegOp, ImmOp, ShiftOp, BranchOp, LoadOp, Instr, branch, load, imm, shift, reg, encode}
use f_ca.Isa.Meaning.{holds}
use f_ca.Simulator.Main.{bytes}
use f_ca.Simulator.Main.Laws.{write_words}
use f_ca.Disassembler.Main
use f_ca.Tracer.Fields.{fields}
use f_ca.Tracer.Effect.{State, round}
use f_ca.Tracer.Main.{main}
use f_ca.Tracer.Execute.{read, round_srai, round-branch}
use f_ca.Tracer.Straight.{main-eq}

-- x1 holds 2 ^ 31 + 5.
abbrev large : State
large = record { current_i = 3; reg = update (λ _. 0) 1 0x80000005 }

large-words : (k : ℕ) → IsWord (large.reg k)
large-words k = ground arith

round_srai_example : round (fields (encode (shift ShiftOp.srai 2 1 4))) large ≡ none
round_srai_example = round_srai 2 1 4 large (ground arith) large-words

round-branch_example :
    round (fields (encode (branch BranchOp.blt 1 0 0xFFC))) large
    ≡ some (
        if holds BranchOp.blt (read large 1) (read large 0)
        then record { current_i = add32 3 (sext 11 0x7FE); reg = read large }
        else record { current_i = add32 3 1; reg = update (read large) 0 0 })
round-branch_example =
    round-branch BranchOp.blt 1 0 0xFFC large (ground arith) (ground arith) refl large-words

abbrev sample : List Instr
sample = imm ImmOp.addi 1 0 42 ∷ load LoadOp.lw 2 1 0 ∷ reg RegOp.sub 3 1 2 ∷ []

main-eq_example :
    main 3 (bytes (write_words (map encode sample))) true
    ≡ Main.main 3 (bytes (write_words (map encode sample))) true
main-eq_example = main-eq sample 3 true (ground arith) (omega arith)
