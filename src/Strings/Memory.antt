-- ===== src/Strings/Memory.antt =====
-- proj2/pa2/태환.c: the branches of `main` for loads and stores. `Data_Memory` is the memory of the
-- machine, each `char` as its byte.
use f_ca.Base.{
  ltb, length, ℕ, ◌+◌, ◌-◌, ◌%◌, ◌^◌, Bool, ◌||◌, not, List, [], ◌∷◌, ◌++◌, ◌==◌, if◌then◌else◌,
  update,
}
use f_ca.Word.{slt, sext}
use f_ca.Machine.{Machine, put_char, Outcome, next, fails, fault}
use f_ca.Handlers.Data.{print}
use f_ca.Strings.Blocks.{string, signedbintodec, unsignedbintodec}
use f_ca.Strings.Binary.{dectobin8}

-- registers[rd] = v
abbrev pub assign : ℕ → ℕ → Machine → Outcome
assign rd v m = next (record m { reg = update m.reg rd v })

-- scanf("%d",&num); registers[rd] = num; where nothing is read, `num` has no value.
unfoldable pub scan : ℕ → Machine → Outcome
scan rd m = elim m.input [ [] ↦ fault | typed ∷ rest ↦ assign rd typed (record m { input = rest }) ]

-- if(v < 127) printf("%c",(char)v);
unfoldable pub print_char : ℕ → Machine → Outcome
print_char v m = next (if slt v 127 then put_char (v % 2 ^ 8) m else m)

-- address < 0x10000000 || address > last
abbrev pub outside : ℕ → ℕ → Bool
outside address last = slt address 0x10000000 || slt last address

-- printf("Memory adderss error\n"); break;
abbrev pub refuse : Machine → Outcome
refuse m = fails (print "Memory adderss error\n" m)

-- A string of `size` characters or more is read or written past the end of its block, which C leaves
-- undefined.
abbrev pub within : ℕ → List ℕ → Outcome → Outcome
within size string out = if ltb (length string) size then out else fault

module _ (fresh : ℕ → ℕ) where
  -- dectobin8((int)Data_Memory[index]) as a string, and what the block holds behind it
  abbrev pub byte_string : Machine → ℕ → List ℕ
  byte_string m index = string 33 0 (dectobin8 fresh (sext 8 (m.mem index)))

  -- A block of `size` characters that `malloc` returns, as the string to which `strcat` appends.
  abbrev pub empty : ℕ → List ℕ
  empty size = string size 0 fresh

  unfoldable pub load_byte : ℕ → ℕ → Machine → Outcome
  load_byte rd address m =
      if outside address 0x1000FFFF
      then refuse m
      else let bin = byte_string m (address - 0x10000000) in
        within 33 bin (assign rd (signedbintodec bin) m)

  unfoldable pub load_half : ℕ → ℕ → Machine → Outcome
  load_half rd address m =
      let index = address - 0x10000000 in
      if outside address 0x1000FFFE
      then refuse m
      else let bin = empty 17 ++ byte_string m (index + 1) ++ byte_string m index in
        within 17 bin (assign rd (signedbintodec bin) m)

  -- `lw` does not compare the address, so that the four bytes may lie outside the array.
  unfoldable pub load_word : ℕ → ℕ → Machine → Outcome
  load_word rd address m =
      let index = address - 0x10000000 in
      if address == 0x20000000
      then scan rd m
      else if outside address 0x1000FFFC
      then fault
      else let bin =
          empty 33
          ++ byte_string m (index + 3)
          ++ byte_string m (index + 2)
          ++ byte_string m (index + 1)
          ++ byte_string m index in
        within 33 bin (assign rd (signedbintodec bin) m)

  unfoldable pub load_byte_unsigned : ℕ → ℕ → Machine → Outcome
  load_byte_unsigned rd address m =
      let bin = empty 9 ++ byte_string m (address - 0x10000000) in
      if not (outside address 0x1000FFFF)
      then within 9 bin (assign rd (unsignedbintodec bin) m)
      else if address == 0x20000000
      then scan rd m
      else refuse m

  -- The `+1` moves the pointer to the digits, not the index.
  unfoldable pub load_half_unsigned : ℕ → ℕ → Machine → Outcome
  load_half_unsigned rd address m =
      let index = address - 0x10000000 in
      if outside address 0x1000FFFE
      then refuse m
      else let bin =
          empty 17 ++ string 32 1 (dectobin8 fresh (sext 8 (m.mem index))) ++ byte_string m index in
        within 17 bin (assign rd (unsignedbintodec bin) m)

-- sb; it prints no message where it ends the loop.
unfoldable pub store_byte : ℕ → ℕ → Machine → Outcome
store_byte v address m =
    if not (outside address 0x1000FFFF)
    then next (record m { mem = update m.mem (address - 0x10000000) (v % 2 ^ 8) })
    else if address == 0x20000000
    then print_char v m
    else fails m

-- `sw` does not compare the address either. `temp2` has 9 characters; from the second byte on 9
-- digits fill it, and the string is read past its end.
unfoldable pub store_word : ℕ → ℕ → Machine → Outcome
store_word v address m = if address == 0x20000000 then print_char v m else fault

-- `sh` frees both blocks in every round of its loop, the second time what is free already.
unfoldable pub store_half : ℕ → ℕ → Machine → Outcome
store_half v address m = if outside address 0x1000FFFE then refuse m else fault
