-- ===== src/Strings/Blocks.antt =====
-- proj2/pa2/태환.c: `pow`, the blocks of characters, and the values of strings of digits.
use f_ca.Base.{
  ℕ, zero, suc, ◌+◌, ◌-◌, ◌*◌, ◌/◌, ◌%◌, ◌^◌, List, [], ◌∷◌, length, ◌==◌, if◌then◌else◌, update,
}
use f_ca.Word.{add32, sub32}

-- `pow`, whose arguments are whole numbers wherever it is called. (A `double` holds each exactly.)
unfoldable pub pow : ℕ → ℕ → ℕ
pow a zero = 1
pow a (suc zero) = a
pow a (suc (suc b)) = a * pow a (suc b)

-- The string in a block: its characters from index `p`, up to the first NUL among the next `n`.
unfoldable pub string : ℕ → ℕ → (ℕ → ℕ) → List ℕ
string zero p block = []
string (suc n) p block =
    let rest = string n (p + 1) block in if block p == 0 then [] else block p ∷ rest

-- `dec += pow(2, len - PC - 1) * n` for the characters from `PC` on.
unfoldable pub add_digits : List ℕ → ℕ → ℕ
add_digits [] dec = dec
add_digits (c ∷ cs) dec = add_digits cs (add32 dec (pow 2 (length cs) * sub32 c 48))

-- The value of the first digit is taken off.
unfoldable pub signedbintodec : List ℕ → ℕ
signedbintodec [] = 0
signedbintodec (c ∷ cs) = add_digits cs (sub32 0 (pow 2 (length cs) * sub32 c 48 % 2 ^ 32))

unfoldable pub unsignedbintodec : List ℕ → ℕ
unsignedbintodec bin = add_digits bin 0

-- The first `n` rounds of `my_htob`'s first loop leave `arr[PC]` for `PC < n` and the rest of `n`.
unfoldable pub nibble_digit : ℕ → ℕ → ℕ
nibble_digit zero n = n % 2
nibble_digit (suc j) n = nibble_digit j (n / 2)

-- The last `n` binary digits of `w` as characters, the highest first.
unfoldable pub spelled : ℕ → ℕ → List ℕ
spelled zero w = []
spelled (suc n) w = (nibble_digit n w + 48) ∷ spelled n w

-- The exchanges of the first `n` characters with the last `n` of `k`.
unfoldable pub swaps : ℕ → ℕ → (ℕ → ℕ) → ℕ → ℕ
swaps zero k block = block
swaps (suc n) k block =
    let before = swaps n k block in
    let temp = before n in update (update before n (before (k - 1 - n))) (k - 1 - n) temp

-- The loop that turns the first `k` characters round.
unfoldable pub turn_round : ℕ → (ℕ → ℕ) → ℕ → ℕ
turn_round k block = swaps (k / 2) k block
