-- ===== src/BigEndian/Access.antt =====
-- `lw` and `sw` of proj2/my_project/ekdus.c follow the manual.
use f_ca.Base.{
  ℕ, ◌+◌, ◌-◌, ◌%◌, ◌^◌, ◌<◌, ◌≡◌, inl, inr, refl, ap, ◌∙◌, arith, List, [], ◌∷◌, ◌++◌, bit_and,
}
use f_ca.Bits.{bit_and_low}
use f_ca.Word.{sext}
use f_ca.Machine.{Machine, next, write_reg, put_char}
use f_ca.Isa.{LoadOp, StoreOp, load, store, encode, IsInstr}
use f_ca.Isa.Bounds.{encode-IsWord}
use f_ca.Isa.Meaning.{meaning, put_word}
use f_ca.Simulator.Arith.{decode-IsDecoded}
use f_ca.Simulator.Roundtrip.{decode-encode}
use f_ca.BigEndian.Store.{update_regi, load_a_word, store_a_word, read_word, write_word}
use f_ca.BigEndian.Exec.{execute_inst, advance, low_imm, store_imm}
use f_ca.BigEndian.Exec
use f_ca.BigEndian.Digits.{fields-IsCut}
use f_ca.BigEndian.Faithful.{
  Fits, StandsFor, InData, IsTyped, IsFaithful, Matches, compute, advance-StandsFor,
}
use f_ca.BigEndian.Words.{
  load_offset, store_offset, load_word-data, load_word-typed, store_word-data, store_word-typed,
  read_word-eq, write_word-eq,
}

module _ (m d : Machine) (fits : Fits m) (stands : StandsFor m d) where
  load_data-eq :
      (rd rs1 n : ℕ)
      → IsInstr (load LoadOp.lw rd rs1 n)
      → InData ((m.reg rs1 + sext 12 n) % 2 ^ 32)
      → execute_inst (encode (load LoadOp.lw rd rs1 n)) m
        ≡ next (advance (update_regi rd (read_word ((m.reg rs1 + sext 12 n) % 2 ^ 32) m.mem) m))
  unfolding execute_inst Exec.load
  load_data-eq rd rs1 n h inside =
      let i = load LoadOp.lw rd rs1 n in
      let w = encode-IsWord i h in
      ground (
        arith,
        decode-encode i h,
        decode-IsDecoded (encode i) w,
        fields-IsCut (encode i),
        load_offset rd rs1 n h,
      )

  load_typed-eq :
      (rd rs1 n v : ℕ) (rest : List ℕ)
      → IsInstr (load LoadOp.lw rd rs1 n)
      → (m.reg rs1 + sext 12 n) % 2 ^ 32 ≡ 0x20000000
      → m.input ≡ v ∷ rest
      → execute_inst (encode (load LoadOp.lw rd rs1 n)) m
        ≡ next (advance (update_regi rd v (record m { input = rest })))
  unfolding execute_inst Exec.load load_a_word
  load_typed-eq rd rs1 n v rest h there e =
      let i = load LoadOp.lw rd rs1 n in
      let w = encode-IsWord i h in
      ground (
        arith,
        decode-encode i h,
        decode-IsDecoded (encode i) w,
        fields-IsCut (encode i),
        load_offset rd rs1 n h,
      )

  pub store_data-eq :
      (rs2 rs1 n : ℕ)
      → IsInstr (store StoreOp.sw rs2 rs1 n)
      → InData ((m.reg rs1 + sext 12 n) % 2 ^ 32)
      → execute_inst (encode (store StoreOp.sw rs2 rs1 n)) m
        ≡ next (
            advance
              (record m { mem = write_word ((m.reg rs1 + sext 12 n) % 2 ^ 32) (m.reg rs2) m.mem }))
  unfolding execute_inst Exec.store
  store_data-eq rs2 rs1 n h inside =
      let i = store StoreOp.sw rs2 rs1 n in
      let w = encode-IsWord i h in
      ground (
        arith,
        decode-encode i h,
        decode-IsDecoded (encode i) w,
        fields-IsCut (encode i),
        store_offset rs2 rs1 n h,
      )

  pub store_typed-eq :
      (rs2 rs1 n : ℕ)
      → IsInstr (store StoreOp.sw rs2 rs1 n)
      → (m.reg rs1 + sext 12 n) % 2 ^ 32 ≡ 0x20000000
      → m.reg rs2 < 0x7F
      → execute_inst (encode (store StoreOp.sw rs2 rs1 n)) m
        ≡ next (advance (put_char (m.reg rs2) m))
  unfolding execute_inst Exec.store store_a_word
  store_typed-eq rs2 rs1 n h there small =
      let i = store StoreOp.sw rs2 rs1 n in
      let w = encode-IsWord i h in
      let byte : bit_and (m.reg rs2) 0xFF ≡ m.reg rs2 = omega (arith, bit_and_low 8 (m.reg rs2)) in
      ground (
        arith,
        decode-encode i h,
        decode-IsDecoded (encode i) w,
        fields-IsCut (encode i),
        store_offset rs2 rs1 n h,
        byte,
      )

  load_input :
      (rd rs1 n : ℕ) (typed : List ℕ)
      → IsInstr (load LoadOp.lw rd rs1 n)
      → (m.reg rs1 + sext 12 n) % 2 ^ 32 ≡ 0x20000000
      → m.input ≡ typed
      → IsTyped typed
      → Matches (load LoadOp.lw rd rs1 n) m d
  load_input rd rs1 n [] h there e some_ = elim some_ [ ]
  load_input rd rs1 n (v ∷ rest) h there e some_ =
      let m0 = record m { input = rest } in
      let d0 = record d { input = rest } in
      let fits0 : Fits m0 = record {
        reg_word = fits.reg_word;
        mem_byte = fits.mem_byte;
        zero_reg = fits.zero_reg;
      } in
      let stands0 : StandsFor m0 d0 = record {
        pc = stands.pc;
        reg = stands.reg;
        mem = stands.mem;
        input = refl;
        output = stands.output;
      } in
      (
        advance (update_regi rd v m0),
        record (write_reg rd v d0) { pc = (d.pc + 4) % 2 ^ 32 },
        load_typed-eq rd rs1 n v rest h there e,
        unfold meaning in
            rw (stands.reg rs1) (
              load_word-typed rd ((m.reg rs1 + sext 12 n) % 2 ^ 32) v rest d there
                (stands.input ∙ e)),
        advance-StandsFor m0 d0 fits0 stands0 rd v,
      )

  pub load-Matches :
      (rd rs1 n : ℕ)
      → IsInstr (load LoadOp.lw rd rs1 n)
      → IsFaithful (load LoadOp.lw rd rs1 n) m
      → Matches (load LoadOp.lw rd rs1 n) m d
  load-Matches rd rs1 n h (inr typed) = load_input rd rs1 n m.input h typed.0 refl typed.1
  load-Matches rd rs1 n h (inl inside) =
      let a : ℕ = (m.reg rs1 + sext 12 n) % 2 ^ 32 in
      compute m d fits stands (load LoadOp.lw rd rs1 n) rd (read_word a m.mem)
        (load_data-eq rd rs1 n h inside)
        (unfold meaning in
          rw (stands.reg rs1, load_word-data rd a d inside, read_word-eq m d fits stands a inside)
            refl)

  pub store-Matches :
      (rs2 rs1 n : ℕ)
      → IsInstr (store StoreOp.sw rs2 rs1 n)
      → IsFaithful (store StoreOp.sw rs2 rs1 n) m
      → Matches (store StoreOp.sw rs2 rs1 n) m d
  store-Matches rs2 rs1 n h (inl inside) =
      let a : ℕ = (m.reg rs1 + sext 12 n) % 2 ^ 32 in
      let v : ℕ = m.reg rs2 in
      (
        advance (record m { mem = write_word a v m.mem }),
        record d { pc = (d.pc + 4) % 2 ^ 32; mem = put_word d.mem (a - 0x10000000) v },
        store_data-eq rs2 rs1 n h inside,
        unfold meaning in rw (stands.reg rs1, stands.reg rs2) (store_word-data v a d inside),
        record {
          pc = ap (λ p. (p + 4) % 2 ^ 32) stands.pc;
          reg = stands.reg;
          mem = λ b lt. write_word-eq m d fits stands a v b inside lt;
          input = stands.input;
          output = stands.output;
        },
      )
  store-Matches rs2 rs1 n h (inr typed) =
      let a : ℕ = (m.reg rs1 + sext 12 n) % 2 ^ 32 in
      let v : ℕ = m.reg rs2 in
      (
        advance (put_char v m),
        record (put_char v d) { pc = (d.pc + 4) % 2 ^ 32 },
        store_typed-eq rs2 rs1 n h typed.0 typed.1,
        unfold meaning in
            rw (stands.reg rs1, stands.reg rs2) (store_word-typed v a d typed.0 typed.1),
        record {
          pc = ap (λ p. (p + 4) % 2 ^ 32) stands.pc;
          reg = stands.reg;
          mem = stands.mem;
          input = stands.input;
          output = ap (λ out. out ++ v ∷ []) stands.output;
        },
      )
