-- ===== src/Indexed/Memory.antt =====
-- `lw` and `sw` of proj2/pa2/제출1.cc on encoded instructions.
use f_ca.Base.{ℕ, ◌+◌, ◌%◌, ◌^◌, ◌≡◌, ◌≢◌, ◌⊎◌, List, ◌∙◌, arith, true, false, some, update, ◌∷◌}
use f_ca.Word.{add32, sext}
use f_ca.Isa.{RegOp, ImmOp, ShiftOp, BranchOp, LoadOp, StoreOp, Instr, lui, auipc, encode, IsInstr}
use f_ca.Isa
use f_ca.Isa.Bounds.{encode-IsWord}
use f_ca.Simulator.Arith.{decode-IsDecoded}
use f_ca.Simulator.Roundtrip.{decode-encode}
use f_ca.Printer.Fields.{fields}
use f_ca.Printer.Agree.{fields-IsCut}
use f_ca.Printer.Right.{signed_12}
use f_ca.Indexed.State.{State, Flags}
use f_ca.Indexed.Exec.{execute, round, load, store, cell}
use f_ca.Indexed.Valid.{read, written}
use f_ca.Isa.Digits.{load_digits, store_digits}
use f_ca.Printer.Digits.{load_imm-eq, store_imm-eq, store_imms-eq}
use f_ca.Printer.Fields.{lw_imm, sw_imm}
use f_ca.Indexed.State.{read_cin}

-- `data` serves every address, or all but 0x20000000.
abbrev pub IsData : Flags → ℕ → Type 0
IsData flags a =
    (flags.flag ≡ false) × (flags.proj3_flag ≡ false) ⊎ (flags.proj3_flag ≡ true) × (a ≢ 0x20000000)

module _ (flags : Flags) (s : State) where
  pub load_data-eq :
      (rd rs1 n : ℕ)
      → IsInstr (Isa.load LoadOp.lw rd rs1 n)
      → IsData flags ((read s rs1 + sext 12 n) % 2 ^ 32)
      → round flags (fields (encode (Isa.load LoadOp.lw rd rs1 n))) s
        ≡ some (written rd (s.data_ (cell ((read s rs1 + sext 12 n) % 2 ^ 32))) s)
  unfolding round execute load
  load_data-eq rd rs1 n h served =
      let i = Isa.load LoadOp.lw rd rs1 n in
      let w = encode-IsWord i h in
      let offset : lw_imm (encode i) ≡ sext 12 n =
        (load_imm-eq (encode i) n h.2 (load_digits LoadOp.lw rd rs1 n h)).2 ∙ signed_12 n h.2 in
      ground
        (arith, decode-encode i h, decode-IsDecoded (encode i) w, fields-IsCut (encode i), offset)

  pub load_input-eq :
      (rd rs1 n typed : ℕ) (rest : List ℕ)
      → IsInstr (Isa.load LoadOp.lw rd rs1 n)
      → flags.proj3_flag ≡ true
      → (read s rs1 + sext 12 n) % 2 ^ 32 ≡ 0x20000000
      → s.input ≡ typed ∷ rest
      → round flags (fields (encode (Isa.load LoadOp.lw rd rs1 n))) s
        ≡ some (written rd typed (record s { user_lw = typed; input = rest }))
  unfolding round execute load read_cin
  load_input-eq rd rs1 n typed rest h proj3 address e =
      let i = Isa.load LoadOp.lw rd rs1 n in
      let w = encode-IsWord i h in
      let offset : lw_imm (encode i) ≡ sext 12 n =
        (load_imm-eq (encode i) n h.2 (load_digits LoadOp.lw rd rs1 n h)).2 ∙ signed_12 n h.2 in
      ground
        (arith, decode-encode i h, decode-IsDecoded (encode i) w, fields-IsCut (encode i), offset)

  pub store_data-eq :
      (rs2 rs1 n : ℕ)
      → IsInstr (Isa.store StoreOp.sw rs2 rs1 n)
      → IsData flags ((read s rs1 + sext 12 n) % 2 ^ 32)
      → round flags (fields (encode (Isa.store StoreOp.sw rs2 rs1 n))) s
        ≡ some (record s {
          curr_i = add32 s.curr_i 1;
          reg = update (read s) 0 0;
          data_ = update s.data_ (cell ((read s rs1 + sext 12 n) % 2 ^ 32)) (read s rs2);
        })
  unfolding round execute store
  store_data-eq rs2 rs1 n h served =
      let i = Isa.store StoreOp.sw rs2 rs1 n in
      let f = fields (encode i) in
      let w = encode-IsWord i h in
      let cut = fields-IsCut (encode i) in
      let whole =
        store_imm-eq f n h.2 (omega (arith, cut.rd))
          (omega (arith, cut.rd, cut.funct7, store_digits StoreOp.sw rs2 rs1 n h)) in
      let offset : sw_imm f ≡ sext 12 n = (store_imms-eq f n h.2 whole).2 ∙ signed_12 n h.2 in
      ground (arith, decode-encode i h, decode-IsDecoded (encode i) w, cut, offset)
