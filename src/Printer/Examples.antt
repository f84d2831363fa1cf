-- ===== src/Printer/Examples.antt =====
-- The laws of the C++ disassembler at concrete words and files.
use mathlib.Core.List.{map}
use f_ca.Base.{
  ℕ, ◌+◌, ◌≤◌, ◌<◌, ◌≡◌, ◌⊎◌, ◌↔◌, arith, some, List, [], ◌∷◌, ◌++◌, length, get_or, ◌^◌,
}
use f_ca.Isa.{ImmOp, BranchOp, LoadOp, Instr, jal, branch, load, imm, encode}
use f_ca.Simulator.Main.Laws.{write_words}
use f_ca.Disassembler.Text.{unknown}
use f_ca.Disassembler.Listing.{assembly}
use f_ca.Printer.Fields.{fields}
use f_ca.Printer.Text.{text}
use f_ca.Printer.Main.{decimal, Line, lines, printed, main}
use f_ca.Printer.Right.{text-eq_iff}
use f_ca.Printer.Lines.{line_at, listing, lines-line_at, main-numbered}

text-eq_iff_example :
    (text (fields (encode (jal 1 0x40000))) ≡ assembly (jal 1 0x40000))
    ↔ ((0x40000 < 2 ^ 18) ⊎ (2 ^ 20 ≤ 0x40000 + 2 ^ 15))
text-eq_iff_example = text-eq_iff (jal 1 0x40000) (ground arith)

abbrev other : Line
other = record { radix = decimal; id = 0; word = 0; shown = unknown }

abbrev words : List ℕ
words = 0 ∷ 0x02A00093 ∷ []

lines-line_at_example :
    (length (lines decimal 0 words) ≡ 2)
    × (get_or (lines decimal 0 words) 1 other ≡ line_at decimal 0 1 words)
lines-line_at_example = lines-line_at words 1 other (omega arith)

abbrev sample : List Instr
sample = imm ImmOp.addi 1 0 42 ∷ branch BranchOp.beq 1 2 4 ∷ load LoadOp.lb 2 1 7 ∷ []

main-numbered_example :
    main 2 (some (write_words (map encode sample) ++ 1 ∷ [])) ≡ printed (listing 0 sample)
main-numbered_example = main-numbered sample (1 ∷ []) 2 (omega arith) (ground arith) (omega arith)
