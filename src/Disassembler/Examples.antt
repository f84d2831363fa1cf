-- ===== src/Disassembler/Examples.antt =====
-- The laws of the disassembler at concrete words and files.
use f_ca.Base.{◌≡◌, List, [], ◌∷◌, arith}
use f_ca.Isa.{BranchOp, LoadOp, ShiftOp, Instr, branch, jal, load, shift, encode}
use f_ca.Simulator.Decode
use f_ca.Disassembler.Decode.{parts}
use f_ca.Disassembler.Text.{text}
use f_ca.Disassembler.Agree.{as_fields, parts-eq}
use f_ca.Disassembler.Listing.{assembly, text-encode}

-- A loop back by 8 bytes, a byte access, and an arithmetic shift.
abbrev sample : List Instr
sample =
    load LoadOp.lbu 1 2 0xFFF
    ∷ shift ShiftOp.srai 3 1 4
    ∷ branch BranchOp.bgeu 3 0 0xFFC
    ∷ jal 1 0xFFFFC
    ∷ []

text-encode_example :
    text (parts (encode (shift ShiftOp.srai 3 1 4))) ≡ assembly (shift ShiftOp.srai 3 1 4)
text-encode_example = text-encode (shift ShiftOp.srai 3 1 4) (ground arith)

parts-eq_example : as_fields (parts 0x02A00093) ≡ Decode.decode 0x02A00093
parts-eq_example = parts-eq 0x02A00093 (omega arith)
