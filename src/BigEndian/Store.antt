-- ===== src/BigEndian/Store.antt =====
-- proj2/my_project/ekdus.c, lines 43-94: registers, memory and the two streams.
use f_ca.Base.{ℕ, ◌+◌, ◌-◌, [], ◌∷◌, bit_and, bit_or, not, ◌==◌, if◌then◌else◌, update}
use f_ca.Word.{add32, sub32, not32, shl, shr}
use f_ca.Machine.{Machine, put_char, Outcome, next, fault}
use f_ca.Handlers.Data.{print}

-- `printf("unknown instruction\n"); pc += 4;`
unfoldable pub error : Machine → Machine
error m = record (print "unknown instruction\n" m) { pc = add32 m.pc 4 }

-- The sign bit by a mask: `original |= ~((1 << bit) - 1)` where it is set.
unfoldable pub sign : ℕ → ℕ → ℕ
sign original bit =
    if not (bit_and original (shl 1 (bit - 1)) == 0)
    then bit_or original (not32 (sub32 (shl 1 bit) 1))
    else original

-- A write to x0 is left out.
unfoldable pub update_regi : ℕ → ℕ → Machine → Machine
update_regi rd value m = if not (rd == 0) then record m { reg = update m.reg rd value } else m

-- The size of `memory`.
abbrev pub memory_size : ℕ
memory_size = 0x10010000

-- The four bytes from `address` on, highest first, of a word that lies in `memory`.
unfoldable pub inst_to_mem : ℕ → ℕ → (ℕ → ℕ) → ℕ → ℕ
inst_to_mem address instruction memory =
    update
      (update
        (update (update memory address (bit_and (shr instruction 24) 0xFF)) (address + 1)
          (bit_and (shr instruction 16) 0xFF))
        (address + 2) (bit_and (shr instruction 8) 0xFF))
      (address + 3) (bit_and instruction 0xFF)

unfoldable pub mem_to_inst : ℕ → (ℕ → ℕ) → ℕ
mem_to_inst address memory =
    bit_or
      (bit_or (bit_or (bit_or 0 (shl (memory address) 24)) (shl (memory (address + 1)) 16))
        (shl (memory (address + 2)) 8))
      (memory (address + 3))

-- `uint8_t byte = registers[rs2]; printf("%c", byte);`
unfoldable pub store_a_word : ℕ → Machine → Machine
store_a_word rs2 m = put_char (bit_and (m.reg rs2) 0xFF) m

-- `scanf("%d", &target); updateRegi(rd, target);`
unfoldable pub load_a_word : ℕ → Machine → Outcome
load_a_word rd m = elim m.input [
  | [] ↦ fault
  | target ∷ rest ↦ next (update_regi rd target (record m { input = rest }))
]

-- `*(int32_t*)&memory[address]` and its assignment, on a little-endian host.
unfoldable pub read_word : ℕ → (ℕ → ℕ) → ℕ
read_word address memory =
    bit_or
      (bit_or (bit_or (shl (memory (address + 3)) 24) (shl (memory (address + 2)) 16))
        (shl (memory (address + 1)) 8))
      (memory address)

unfoldable pub write_word : ℕ → ℕ → (ℕ → ℕ) → ℕ → ℕ
write_word address value memory =
    update
      (update
        (update (update memory address (bit_and value 0xFF)) (address + 1)
          (bit_and (shr value 8) 0xFF))
        (address + 2) (bit_and (shr value 16) 0xFF))
      (address + 3) (bit_and (shr value 24) 0xFF)
