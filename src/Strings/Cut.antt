-- ===== src/Strings/Cut.antt =====
-- proj2/pa2/태환.c: the strings that `main` cuts out of an instruction, and the literals that it
-- compares them with.
use f_ca.Base.{ℕ, zero, suc, Bool, true, false, ◌&&◌, List, [], ◌∷◌, ◌==◌}
use f_ca.Strings.Blocks.{spelled}

-- strcmp(a, b) == 0
unfoldable pub equal : List ℕ → List ℕ → Bool
equal [] [] = true
equal [] (b ∷ bs) = false
equal (a ∷ rest) [] = false
equal (a ∷ rest) (b ∷ bs) = (a == b) && equal rest bs

-- memcpy(to, &from[skip], n)
unfoldable pub part : ℕ → ℕ → List ℕ → List ℕ
part skip n [] = []
part zero zero (c ∷ cs) = []
part zero (suc n) (c ∷ cs) = c ∷ part zero n cs
part (suc skip) n (c ∷ cs) = part skip n cs

pub record Parts : Type 0 where
  pub opcode : List ℕ
  pub func3 : List ℕ
  pub func7 : List ℕ
  pub imm11_0 : List ℕ
  pub imm11_5 : List ℕ
  pub imm4_0 : List ℕ
  pub imm12 : List ℕ
  pub imm10_5 : List ℕ
  pub imm4_1 : List ℕ
  pub imm11_24 : List ℕ
  pub imm31_12 : List ℕ
  pub imm20 : List ℕ
  pub imm10_1 : List ℕ
  pub imm11_11 : List ℕ
  pub imm19_12 : List ℕ
  pub shamtstr : List ℕ
  pub rdstr : List ℕ
  pub rs1str : List ℕ
  pub rs2str : List ℕ

unfoldable pub cut : List ℕ → Parts
cut inst = record {
  opcode = part 25 7 inst;
  func3 = part 17 3 inst;
  func7 = part 0 7 inst;
  imm11_0 = part 0 12 inst;
  imm11_5 = part 0 7 inst;
  imm4_0 = part 20 5 inst;
  imm12 = part 0 1 inst;
  imm10_5 = part 1 6 inst;
  imm4_1 = part 20 4 inst;
  imm11_24 = part 24 1 inst;
  imm31_12 = part 0 20 inst;
  imm20 = part 0 1 inst;
  imm10_1 = part 1 10 inst;
  imm11_11 = part 11 1 inst;
  imm19_12 = part 12 8 inst;
  shamtstr = part 7 5 inst;
  rdstr = part 20 5 inst;
  rs1str = part 12 5 inst;
  rs2str = part 7 5 inst;
}

-- The literals, by their values in binary: "0110011", "0000011", "1100111" and so on.
abbrev pub is_opcode : Parts → ℕ → Bool
is_opcode f code = equal f.opcode (spelled 7 code)

abbrev pub is_func3 : Parts → ℕ → Bool
is_func3 f code = equal f.func3 (spelled 3 code)

abbrev pub is_func7 : Parts → ℕ → Bool
is_func7 f code = equal f.func7 (spelled 7 code)
