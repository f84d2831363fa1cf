-- ===== src/Handlers/Narrow.antt =====
-- Bytes and halfwords: the accesses that project_2/main.c lacks, against the manual.
use f_ca.Base.{
  ℕ, ◌+◌, ◌-◌, ◌*◌, ◌/◌, ◌%◌, ◌^◌, ◌<◌, ◌≡◌, ◌≢◌, ◌⊎◌, Bool, bit_or, leb, ◌&&◌, ◌==◌, if◌then◌else◌,
  update, arith,
}
use f_ca.Bits.{bit_and_low, bit_or_disjoint}
use f_ca.Word.{IsWord, add32, shl, sext, slt}
use f_ca.Word.Laws.{sign8, sign16}
use f_ca.Machine.{Machine, Outcome, ◌>>=◌, write_reg, put_char, IsValid}
use f_ca.Machine.Bind.{bind_congr}
use f_ca.Isa.{LoadOp, StoreOp, load, store, encode, IsInstr}
use f_ca.Isa.Meaning.{go_on}
use f_ca.Simulator.Decode.{Fields}
use f_ca.Simulator.Roundtrip.{Reads}
use f_ca.Handlers.Decode.{sign_extend, decode}
use f_ca.Handlers.Data.{
  print, out_of_range, address_of, execute_lb, execute_lh, execute_lbu, execute_lhu, execute_sb,
  execute_sh,
}
use f_ca.Handlers.Dispatch.{loads, stores, dispatch, advance, round}
use f_ca.Handlers.Faithful.{reads}

-- The bytes that an access covers lie in data memory.
abbrev pub covered : ℕ → ℕ → Bool
covered width a = leb 0x10000000 a && leb (a + width) 0x10010000

abbrev pub half_at : (ℕ → ℕ) → ℕ → ℕ
half_at mem a = mem a + mem (a + 1) * 2 ^ 8

-- A narrow load or store, by the manual where its address is covered, and as this simulator reports
-- it where it is not: a message on the output, and on to the next instruction.
unfoldable pub narrow_load : LoadOp → ℕ → ℕ → Machine → Outcome
narrow_load LoadOp.lb rd a m =
    if covered 1 a
    then go_on (write_reg rd (sext 8 (m.mem (a - 0x10000000))) m)
    else go_on (print "lb: Memory address out of range\n" m)
narrow_load LoadOp.lh rd a m =
    if covered 2 a
    then go_on (write_reg rd (sext 16 (half_at m.mem (a - 0x10000000))) m)
    else go_on (print "lh: Memory address out of range\n" m)
narrow_load LoadOp.lbu rd a m =
    if covered 1 a
    then go_on (write_reg rd (m.mem (a - 0x10000000)) m)
    else go_on (print "lbu: Memory address out of range\n" m)
narrow_load LoadOp.lhu rd a m =
    if covered 2 a
    then go_on (write_reg rd (half_at m.mem (a - 0x10000000)) m)
    else go_on (print "lhu: Memory address out of range\n" m)
narrow_load LoadOp.lw rd a m = go_on m

unfoldable pub narrow_store : StoreOp → ℕ → ℕ → Machine → Outcome
narrow_store StoreOp.sb v a m =
    if a == 0x20000000
    then go_on (put_char (v % 256) m)
    else if covered 1 a
    then go_on (record m { mem = update m.mem (a - 0x10000000) (v % 256) })
    else go_on (print "sb: Memory address out of range\n" m)
narrow_store StoreOp.sh v a m =
    if covered 2 a
    then go_on (record m {
      mem = update (update m.mem (a - 0x10000000) (v % 256)) (a - 0x10000000 + 1) (v / 2 ^ 8 % 256);
    })
    else go_on (print "sh: Memory address out of range\n" m)
narrow_store StoreOp.sw v a m = go_on m

-- The two tests of a guard, with the offset into data memory as a word.
out_of_range-eq :
    (a limit : ℕ) → IsWord a → limit < 2 ^ 31 → 0 < limit → out_of_range a limit ≡ leb limit a
unfolding slt
out_of_range-eq a limit h small positive = ground arith

join_half : (lo hi : ℕ) → lo < 2 ^ 8 → hi < 2 ^ 8 → bit_or (shl hi 8) lo ≡ lo + hi * 2 ^ 8
join_half lo hi h h' =
    let top : shl hi 8 ≡ hi * 2 ^ 8 = omega arith in
    rw top (omega (arith, bit_or_disjoint 8 hi lo h))

module _ (m : Machine) (valid : IsValid m) where
  open valid use {mem_byte}

  module _ (rd rs1 imm : ℕ) where
    abbrev address : ℕ
    address = add32 (m.reg rs1) imm

    abbrev offset : ℕ
    offset = address_of rs1 imm m

    lb-eq : (execute_lb rd rs1 imm m >>= go_on) ≡ narrow_load LoadOp.lb rd address m
    unfolding execute_lb sign_extend narrow_load
    lb-eq = ground (
      arith,
      out_of_range-eq offset 65536 (omega arith) (omega arith) (omega arith),
      sign8 (m.mem offset) (mem_byte offset),
    )

    lbu-eq : (execute_lbu rd rs1 imm m >>= go_on) ≡ narrow_load LoadOp.lbu rd address m
    unfolding execute_lbu narrow_load
    lbu-eq = ground (arith, out_of_range-eq offset 65536 (omega arith) (omega arith) (omega arith))

    lh-eq : (execute_lh rd rs1 imm m >>= go_on) ≡ narrow_load LoadOp.lh rd address m
    unfolding execute_lh sign_extend narrow_load
    lh-eq = ground (
      arith,
      out_of_range-eq offset 65535 (omega arith) (omega arith) (omega arith),
      mem_byte offset,
      mem_byte (offset + 1),
      join_half (m.mem offset) (m.mem (offset + 1)),
      sign16 (half_at m.mem offset),
    )

    lhu-eq : (execute_lhu rd rs1 imm m >>= go_on) ≡ narrow_load LoadOp.lhu rd address m
    unfolding execute_lhu narrow_load
    lhu-eq = ground (
      arith,
      out_of_range-eq offset 65535 (omega arith) (omega arith) (omega arith),
      mem_byte offset,
      mem_byte (offset + 1),
      join_half (m.mem offset) (m.mem (offset + 1)),
    )

    sb-eq : (execute_sb rd rs1 imm m >>= go_on) ≡ narrow_store StoreOp.sb (m.reg rd) address m
    unfolding execute_sb narrow_store
    sb-eq = ground (
      arith,
      out_of_range-eq offset 65536 (omega arith) (omega arith) (omega arith),
      bit_and_low 8 (m.reg rd),
    )

    sh-eq : (execute_sh rd rs1 imm m >>= go_on) ≡ narrow_store StoreOp.sh (m.reg rd) address m
    unfolding execute_sh narrow_store
    sh-eq = ground (
      arith,
      out_of_range-eq offset 65535 (omega arith) (omega arith) (omega arith),
      bit_and_low 8 (m.reg rd),
      bit_and_low 8 (m.reg rd / 2 ^ 8),
    )

  round-access :
      (f : Fields) → (f.opcode ≡ 0x03) ⊎ (f.opcode ≡ 0x23) → round f m ≡ (dispatch f m >>= go_on)
  unfolding round advance
  round-access f op = bind_congr (dispatch f m) (λ m'. ground arith)

  -- From a valid machine, a round on `lb`, `lh`, `lbu` or `lhu`, whose operands fit their fields,
  -- ends as the manual says where the bytes lie in data memory, with the byte or halfword extended
  -- by its sign or by zeros, and else goes on with a message.
  pub round-load :
      (o : LoadOp) (rd rs1 n : ℕ)
      → o ≢ LoadOp.lw
      → IsInstr (load o rd rs1 n)
      → round (decode (encode (load o rd rs1 n))) m
        ≡ narrow_load o rd (add32 (m.reg rs1) (sext 12 n)) m
  round-load o rd rs1 n narrow h = go _ (reads (load o rd rs1 n) h)
    where
      go :
          (f : Fields)
          → Reads (load o rd rs1 n) f
          → round f m ≡ narrow_load o rd (add32 (m.reg rs1) (sext 12 n)) m
      go f r =
          unfold dispatch loads in
          ground (
            arith,
            round-access f,
            lb-eq rd rs1 (sext 12 n),
            lbu-eq rd rs1 (sext 12 n),
            lh-eq rd rs1 (sext 12 n),
            lhu-eq rd rs1 (sext 12 n),
          )

  -- From a valid machine, a round on `sb` or `sh`, whose operands fit their fields, writes the low
  -- byte or halfword of the register where its bytes lie in data memory, prints the low byte for
  -- `sb` to 0x20000000, and else goes on with a message.
  pub round-store :
      (o : StoreOp) (rs2 rs1 n : ℕ)
      → o ≢ StoreOp.sw
      → IsInstr (store o rs2 rs1 n)
      → round (decode (encode (store o rs2 rs1 n))) m
        ≡ narrow_store o (m.reg rs2) (add32 (m.reg rs1) (sext 12 n)) m
  round-store o rs2 rs1 n narrow h = go _ (reads (store o rs2 rs1 n) h)
    where
      go :
          (f : Fields)
          → Reads (store o rs2 rs1 n) f
          → round f m ≡ narrow_store o (m.reg rs2) (add32 (m.reg rs1) (sext 12 n)) m
      go f r =
          unfold dispatch stores in
          ground (arith, round-access f, sb-eq rs2 rs1 (sext 12 n), sh-eq rs2 rs1 (sext 12 n))
