-- ===== src/Handlers/Agree.antt =====
-- Where this simulator and that of project_2/main.c do the same.
use native.Mathlib.Decide.{ℕ_discrete}
use f_ca.Base.{ℕ, ◌<◌, ◌≡◌, ◌≢◌, ◌⊎◌, refl, arith, ap, ◌∙◌, ltb}
use f_ca.Word.{IsWord, slt}
use f_ca.Word.Laws.{guard_lem, guard_lem'}
use f_ca.Machine.Bind.{bind_congr}
use f_ca.Machine.{Machine, next, ◌>>=◌}
use f_ca.Simulator.Decode.{Fields}
use f_ca.Simulator.Decode
use f_ca.Simulator.Arith.{decode-IsDecoded}
use f_ca.Simulator.Alu.{op_imm, op_reg}
use f_ca.Simulator.Exec.{
  assign, taken, not_taken, load, store, read_input, load_bytes, store_bytes, data_addr, execute,
}
use f_ca.Simulator.Exec
use f_ca.Handlers.Decode.{sign_extend, decode}
use f_ca.Handlers.Arith.{
  execute_add, execute_sub, execute_sll, execute_slt, execute_sltu, execute_xor, execute_srl,
  execute_sra, execute_or, execute_and, execute_addi, execute_slti, execute_sltiu, execute_xori,
  execute_ori, execute_andi, execute_slli, execute_srli, execute_srai, execute_lui, execute_auipc,
}
use f_ca.Handlers.Jump.{
  execute_jal, execute_jalr, execute_beq, execute_bne, execute_blt, execute_bge,
}
use f_ca.Handlers.Data.{scan, execute_lw, execute_sw}
use f_ca.Handlers.Dispatch.{r_type, i_type, loads, stores, b_type, dispatch, passes, advance, round}

-- The two programs decode every word alike.
pub decode-eq : (w : ℕ) → decode w ≡ Decode.decode w
unfolding decode Decode.decode sign_extend Decode.sign
decode-eq w = refl

-- Inside the range that both guards let through, or at the address of the user's numbers.
abbrev pub IsServed : ℕ → ℕ → Type 0
IsServed base off = (data_addr base off ≡ 0x10000000) ⊎ (data_addr base off < 0xFFFF)

-- The signed and the unsigned order say the same of two words.
abbrev pub SameOrder : ℕ → ℕ → Type 0
SameOrder a b = slt a b ≡ ltb a b

module _ (f : Fields) (m : Machine) where
  r_type-eq :
      f.func3 < 8
      → next (r_type f m) ≡ assign f.rd (op_reg f.func3 f.func7 (m.reg f.rs1) (m.reg f.rs2)) m
  unfolding r_type op_reg assign execute_add execute_sub execute_sll execute_slt execute_sltu
      execute_xor execute_srl execute_sra execute_or execute_and
  r_type-eq h = ground arith

  i_type-eq :
      f.func3 < 8 → next (i_type f m) ≡ assign f.rd (op_imm f.func3 f.func7 f.imm_i (m.reg f.rs1)) m
  unfolding i_type op_imm assign execute_addi execute_slti execute_sltiu execute_xori execute_ori
      execute_andi execute_slli execute_srli execute_srai
  i_type-eq h = ground arith

  scan-eq : scan f.rd m ≡ read_input f.rd m
  unfolding scan read_input
  scan-eq = refl

  lw-eq :
      (imm : ℕ)
      → IsServed (m.reg f.rs1) imm
      → execute_lw f.rd f.rs1 imm m ≡ load 2 f.rd (m.reg f.rs1) imm m
  unfolding execute_lw load load_bytes
  lw-eq imm h = ground (arith, guard_lem (data_addr (m.reg f.rs1) imm), scan-eq)

  sw-eq :
      (imm : ℕ)
      → IsServed (m.reg f.rs1) imm
      → execute_sw f.rs2 f.rs1 imm m ≡ store 2 (m.reg f.rs2) (m.reg f.rs1) imm m
  unfolding execute_sw store store_bytes
  sw-eq imm h = ground (arith, guard_lem' (data_addr (m.reg f.rs1) imm))

  -- The instructions on which the programs do the same.
  abbrev pub Agrees : Type 0
  Agrees =
      (f.opcode ≡ 0x33)
      ⊎ ((f.opcode ≡ 0x13)
          ⊎ ((f.opcode ≡ 0x17)
              ⊎ ((f.opcode ≡ 0x37)
                  ⊎ ((f.opcode ≡ 0x6F)
                      ⊎ (((f.opcode ≡ 0x67) × (f.rd ≢ f.rs1))
                          ⊎ (((f.opcode ≡ 0x63)
                                × ((f.func3 ≡ 0)
                                    ⊎ ((f.func3 ≡ 1)
                                        ⊎ (((f.func3 ≡ 4) ⊎ (f.func3 ≡ 5))
                                            × SameOrder (m.reg f.rs1) (m.reg f.rs2)))))
                              ⊎ (((f.opcode ≡ 0x03)
                                    × (f.func3 ≡ 2)
                                    × IsServed (m.reg f.rs1) f.imm_i)
                                  ⊎ ((f.opcode ≡ 0x23)
                                      × (f.func3 ≡ 2)
                                      × IsServed (m.reg f.rs1) f.imm_s))))))))

  dispatch-eq : f.func3 < 8 → Agrees → dispatch f m ≡ execute f m
  unfolding dispatch execute loads stores b_type taken execute_lui execute_auipc execute_jal
      execute_jalr execute_beq execute_bne execute_blt execute_bge
  dispatch-eq h agrees = ground (arith, r_type-eq h, i_type-eq h, lw-eq f.imm_i, sw-eq f.imm_s)

  advance-eq : f.opcode ≢ 0x63 → (m' : Machine) → advance f m' ≡ Exec.advance f m'
  unfolding advance Exec.advance
  advance-eq h m' = ground arith

  branch-eq :
      f.opcode ≡ 0x63
      → Agrees
      → (execute f m >>= λ m'. next (advance f m'))
        ≡ (execute f m >>= λ m'. next (Exec.advance f m'))
  unfolding execute advance Exec.advance passes not_taken
  branch-eq h agrees = ground arith

  finish-eq :
      Agrees
      → (execute f m >>= λ m'. next (advance f m'))
        ≡ (execute f m >>= λ m'. next (Exec.advance f m'))
  finish-eq agrees = elim (ℕ_discrete f.opcode 0x63) [
    | yes h ↦ branch-eq h agrees
    | no h ↦ bind_congr (execute f m) (λ m'. ap next (advance-eq h m'))
  ]

-- A round of this program and a round of project_2/main.c end alike on every instruction on which
-- they can: not on a byte or halfword access or an unsigned branch, which the other program lacks,
-- nor on an address out of range, a `jalr` over its own base, or a signed branch whose registers
-- compare differently as unsigned numbers.
pub round-eq :
    (w : ℕ) (m : Machine)
    → IsWord w
    → Agrees (decode w) m
    → round (decode w) m ≡ Exec.round (Decode.decode w) m
unfolding round Exec.round
round-eq w m h agrees =
    let small : (decode w).func3 < 8 =
      rw (decode-eq w) (omega (arith, (decode-IsDecoded w h).func3)) in
    rw (dispatch-eq (decode w) m small agrees)
      (finish-eq (decode w) m agrees ∙ ap (λ f. Exec.round f m) (decode-eq w))
