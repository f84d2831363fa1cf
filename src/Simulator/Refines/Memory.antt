-- ===== src/Simulator/Refines/Memory.antt =====
-- Loads and stores: the two signed tests of the guard, and words as four bytes.
use f_ca.Base.{ℕ, ◌+◌, ◌*◌, ◌/◌, ◌%◌, ◌^◌, ◌<◌, ◌≡◌, arith, bit_or, ltb, if◌then◌else◌}
use f_ca.Bits.{bit_and_low, bit_or_disjoint}
use f_ca.Word.{shl}
use f_ca.Word.Laws.{guard_lem, guard_lem'}
use f_ca.Machine.{Machine, ◌>>=◌, fault, write_reg, IsValid}
use f_ca.Isa.Meaning.{go_on, word_at, put_word, read_number, load_word, store_word}
use f_ca.Simulator.Exec.{data_addr, read_input, load_bytes, store_bytes, load, store}

-- `|` of four shifted bytes is the little-endian word.
pub join_bytes :
    (x y z w : ℕ)
    → x < 256
    → y < 256
    → z < 256
    → w < 256
    → bit_or (bit_or (bit_or (shl w 24) (shl z 16)) (shl y 8)) x
      ≡ x + y * 2 ^ 8 + z * 2 ^ 16 + w * 2 ^ 24
join_bytes x y z w hx hy hz hw = ground (
  arith,
  bit_or_disjoint 24 w (z * 2 ^ 16),
  bit_or_disjoint 16 (w * 2 ^ 8 + z) (y * 2 ^ 8),
  bit_or_disjoint 8 (w * 2 ^ 16 + z * 2 ^ 8 + y) x,
)

read_input-eq : (rd : ℕ) (m : Machine) → (read_input rd m >>= go_on) ≡ read_number rd m
unfolding read_input read_number
read_input-eq rd m = ground arith

module _ (m : Machine) (valid : IsValid m) where
  open valid use {mem_byte}

  -- A word inside the array.
  load_bytes-eq :
      (rd d : ℕ)
      → (load_bytes rd d m >>= go_on)
        ≡ (if ltb d 65533 then go_on (write_reg rd (word_at m.mem d) m) else fault)
  unfolding load_bytes
  load_bytes-eq rd d = ground (
    arith,
    join_bytes (m.mem d) (m.mem (d + 1)) (m.mem (d + 2)) (m.mem (d + 3)) (mem_byte d)
        (mem_byte (d + 1)) (mem_byte (d + 2)) (mem_byte (d + 3)),
  )

  store_bytes-eq :
      (d v : ℕ)
      → (store_bytes d v m >>= go_on)
        ≡ (if ltb d 65533 then go_on (record m { mem = put_word m.mem d v }) else fault)
  unfolding store_bytes
  store_bytes-eq d v = ground (
    arith,
    bit_and_low 8 v,
    bit_and_low 8 (v / 2 ^ 8),
    bit_and_low 8 (v / 2 ^ 16),
    bit_and_low 8 (v / 2 ^ 24),
  )

  pub load-eq :
      (rd base off : ℕ) → (load 2 rd base off m >>= go_on) ≡ load_word rd ((base + off) % 2 ^ 32) m
  unfolding load load_word
  load-eq rd base off =
      let a : ℕ = (base + off) % 2 ^ 32 in
      let d : ℕ = data_addr base off in
      ground (arith, guard_lem d, read_input-eq rd m, load_bytes-eq rd d)

  pub store-eq :
      (v base off : ℕ) → (store 2 v base off m >>= go_on) ≡ store_word v ((base + off) % 2 ^ 32) m
  unfolding store store_word
  store-eq v base off =
      let a : ℕ = (base + off) % 2 ^ 32 in
      let d : ℕ = data_addr base off in ground (arith, guard_lem' d, store_bytes-eq d v)
