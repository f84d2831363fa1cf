-- ===== src/Strings/Served.antt =====
-- proj2/pa2/태환.c: `lw` and `sw` of the address at which a number is read and a character printed.
use native.Mathlib.Decide.{dec_lt}
use f_ca.Base.{
  ℕ, ◌%◌, ◌^◌, ◌≤◌, ◌<◌, ◌≡◌, refl, arith, true, false, if◌then◌else◌, List, [], ◌∷◌, ltb, lt→ltb,
  le→ltb, eq→==,
}
use f_ca.Word.{slt}
use f_ca.Machine.{Machine, put_char, IsValid, ◌>>=◌}
use f_ca.Isa.Meaning.{go_on, read_number}
use f_ca.Isa.Meaning
use f_ca.Strings.Memory.{scan, print_char, load_word, store_word}
use f_ca.Strings.Exec.{finish}
use f_ca.Strings.Finish.{finish-write, finish-turn}

slt_small : (v : ℕ) → v < 127 → slt v 127 ≡ true
unfolding slt
slt_small v h = ground arith

slt_large : (v : ℕ) → 127 ≤ v → v < 2 ^ 31 → slt v 127 ≡ false
unfolding slt
slt_large v lo hi = ground arith

module _ (m : Machine) (valid : IsValid m) where
  scan-eq :
      (r1 r2 rd : ℕ) (typed : List ℕ)
      → m.input ≡ typed
      → (scan rd m >>= finish r1 r2 rd) ≡ read_number rd m
  unfolding scan read_number
  scan-eq r1 r2 rd [] e = rw e refl
  scan-eq r1 r2 rd (n ∷ rest) e =
      rw e (finish-write r1 r2 rd (record m { input = rest }) valid.zero_reg n)

  print-eq :
      (r1 r2 rd v : ℕ)
      → v < 2 ^ 31
      → (print_char v m >>= finish r1 r2 rd) ≡ go_on (if ltb v 0x7F then put_char v m else m)
  unfolding print_char
  print-eq r1 r2 rd v h = elim (dec_lt v 127) [
    | yes small ↦
        let byte : v % 2 ^ 8 ≡ v = omega arith in
        rw (slt_small v small, lt→ltb v 127 small, byte)
          (finish-turn r1 r2 rd (put_char v m) valid.zero_reg m.pc)
    | no large ↦
        rw (slt_large v (omega arith) h, le→ltb v 127 (omega arith))
          (finish-turn r1 r2 rd m valid.zero_reg m.pc)
  ]

  -- `lw` from 0x20000000 reads a number.
  pub load_word-served :
      (fresh : ℕ → ℕ) (r1 r2 rd a : ℕ)
      → a ≡ 0x20000000
      → (load_word fresh rd a m >>= finish r1 r2 rd) ≡ Meaning.load_word rd a m
  unfolding load_word Meaning.load_word
  load_word-served fresh r1 r2 rd a e = rw (eq→== a 0x20000000 e) (scan-eq r1 r2 rd m.input refl)

  -- `sw` to 0x20000000 prints a character, where the number is not negative.
  pub store_word-served :
      (r1 r2 rd v a : ℕ)
      → (a ≡ 0x20000000) × (v < 2 ^ 31)
      → (store_word v a m >>= finish r1 r2 rd) ≡ Meaning.store_word v a m
  unfolding store_word Meaning.store_word
  store_word-served r1 r2 rd v a h = rw (eq→== a 0x20000000 h.0) (print-eq r1 r2 rd v h.1)
