-- ===== src/Base/Decimal.antt =====
-- `%d` and `%lu` of the C library on a number that is not negative, and its reading.
use Prim.Native.Nat.{ℕ, zero, suc, ◌+◌, ◌-◌, ◌*◌, ◌/◌, ◌%◌, ◌^◌, ◌≤◌, ◌<◌}
use mathlib.Core.Path.{◌≡◌, refl, ◌∙◌, ap}
use mathlib.Core.Logic.{◌≢◌, inl, inr}
use mathlib.Core.Bool.{Bool, true, false, ◌&&◌}
use mathlib.Core.List.{[], ◌∷◌, ◌++◌}
use native.Mathlib.Omega.{arith}
use native.Mathlib.Numerals.{add-one}
use native.Mathlib.Nat.{pow-suc}
use librequiemdb.Base.Tests.{◌==◌, Bool-cases, ltb, leb, if◌then◌else◌}
use librequiemdb.Base.Lists.{length, length-append, All}
use librequiemdb.Base.Text.{Bytes, is_space}

unfoldable pub digits : ℕ → ℕ → Bytes
digits zero n = []
digits (suc fuel) n =
    let rest = digits fuel (n / 10) in
    if ltb n 10 then (b'0' + n) ∷ [] else rest ++ (b'0' + n % 10) ∷ []

unfoldable pub decimal : ℕ → Bytes
unfolding digits
decimal n = digits (n + 1) n

-- `%d` of an unsigned number of 32 bits: the upper half of its range prints as negative.
abbrev pub print_d : ℕ → Bytes
print_d n = if ltb n (2 ^ 31) then decimal n else b'-' ∷ decimal (2 ^ 32 - n)

abbrev pub is_digit : ℕ → Bool
is_digit c = leb b'0' c && leb c b'9'

-- A digit is neither a space nor a sign.
pub digit_facts :
    (c : ℕ)
    → is_digit c ≡ true
    → (is_space c ≡ false) × ((c == b'-') ≡ false) × ((c == b'+') ≡ false)
unfolding is_space
digit_facts c d = (ground arith, ground arith, ground arith)

-- A number in front of a text, onto what was read of it.
unfoldable pub read_from : ℕ → Bytes → ℕ × Bytes
read_from acc [] = (acc, [])
read_from acc (c ∷ s) =
    let more = read_from (acc * 10 + (c - b'0')) s in if is_digit c then more else (acc, c ∷ s)

abbrev pub StopsDigits : Bytes → Type 0
StopsDigits [] = Unit
StopsDigits (c ∷ s) = is_digit c ≡ false

abbrev value_from : ℕ → Bytes → ℕ
value_from acc [] = acc
value_from acc (c ∷ s) = value_from (acc * 10 + (c - b'0')) s

value_from-append :
    (xs ys : Bytes) (acc : ℕ) → value_from acc (xs ++ ys) ≡ value_from (value_from acc xs) ys
value_from-append [] ys acc = refl
value_from-append (x ∷ xs) ys acc = value_from-append xs ys (acc * 10 + (x - b'0'))

read_from-digits :
    (xs rest : Bytes) (acc : ℕ)
    → All (λ c. is_digit c ≡ true) xs
    → StopsDigits rest
    → read_from acc (xs ++ rest) ≡ (value_from acc xs, rest)
unfolding read_from
read_from-digits [] [] acc h stops = refl
read_from-digits [] (c ∷ rest) acc h stops = ground arith
read_from-digits (x ∷ xs) rest acc h stops =
    ground (arith, read_from-digits xs rest (acc * 10 + (x - b'0')) h.1 stops)

All-append : (P : ℕ → Type 0) (xs ys : Bytes) → All P xs → All P ys → All P (xs ++ ys)
All-append P [] ys h k = k
All-append P (x ∷ xs) ys h k = (h.0, All-append P xs ys h.1 k)

digits-is_digit : (fuel n : ℕ) → All (λ c. is_digit c ≡ true) (digits fuel n)
unfolding digits
digits-is_digit zero n = tt
digits-is_digit (suc fuel) n = elim (Bool-cases (ltb n 10)) [
  | inl small ↦ rw small (ground arith, tt)
  | inr large ↦ rw large (
      All-append (λ c. is_digit c ≡ true) (digits fuel (n / 10)) ((b'0' + n % 10) ∷ [])
        (digits-is_digit fuel (n / 10)) (ground arith, tt))
]

digits-ne-nil : (fuel n : ℕ) → digits (suc fuel) n ≢ []
unfolding digits
digits-ne-nil fuel n = ground (arith, length-append (digits fuel (n / 10)) ((b'0' + n % 10) ∷ []))

All-cons :
    (P : ℕ → Type 0) (xs : Bytes) → xs ≢ [] → All P xs → (c : ℕ) × (s : Bytes) × (xs ≡ c ∷ s) × P c
All-cons P [] ne h = absurd (ne refl)
All-cons P (c ∷ s) ne h = (c, s, refl, h.0)

-- The digits of a number begin with a digit.
pub decimal-cons : (n : ℕ) → (c : ℕ) × (s : Bytes) × (decimal n ≡ c ∷ s) × (is_digit c ≡ true)
unfolding decimal
decimal-cons n =
    All-cons (λ c. is_digit c ≡ true) (digits (n + 1) n) (rw add-one (digits-ne-nil n n))
      (digits-is_digit (n + 1) n)

value_from-digits : (fuel n : ℕ) → n < fuel → value_from 0 (digits fuel n) ≡ n
unfolding digits
value_from-digits zero n lt = absurd (omega arith)
value_from-digits (suc fuel) n lt = ground (
  arith,
  value_from-digits fuel (n / 10),
  value_from-append (digits fuel (n / 10)) ((b'0' + n % 10) ∷ []) 0,
)

-- A number is read back from its decimal digits, if no digit follows them.
pub read_from-decimal :
    (n : ℕ) (rest : Bytes) → StopsDigits rest → read_from 0 (decimal n ++ rest) ≡ (n, rest)
unfolding decimal
read_from-decimal n rest stops =
    read_from-digits (digits (n + 1) n) rest 0 (digits-is_digit (n + 1) n) stops
    ∙ ap (λ v. (v, rest)) (value_from-digits (n + 1) n (omega arith))

length-digits : (k fuel n : ℕ) → n < 10 ^ suc k → length (digits fuel n) ≤ suc k
unfolding digits
length-digits k zero n lt = omega arith
length-digits zero (suc fuel) n lt = ground arith
length-digits (suc k) (suc fuel) n lt = ground (
  arith,
  pow-suc 10 (suc k),
  length-digits k fuel (n / 10),
  length-append (digits fuel (n / 10)) ((b'0' + n % 10) ∷ []),
)

-- A number below 10 ^ k has k digits at most.
pub length-decimal : (k n : ℕ) → n < 10 ^ suc k → length (decimal n) ≤ suc k
unfolding decimal
length-decimal k n lt = length-digits k (n + 1) n lt
