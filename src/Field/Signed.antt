-- ===== src/Field/Signed.antt =====
-- src/requiemdb-sql.c: the signed numbers of 32 bits that are read from printed numbers.
use Prim.Native.Nat.{◌^◌}
use librequiemdb.Base.{
  ℕ, ◌<◌, ◌-◌, ◌%◌, ltb, Bool-cases, inl, inr, true, false, [], ◌∷◌, ◌≡◌, ◌∙◌, refl, sym, ap, some,
  Bytes, arith, append-nil, is_space,
}
use librequiemdb.Base.Decimal.{
  decimal, decimal-cons, print_d, read_from, read_from-decimal, is_digit, digit_facts,
}
use librequiemdb.Error.{ok}
use librequiemdb.Time.{scan_d, scan_digits, scan_signed, skip_blanks}
use librequiemdb.Time.RoundTrip.{scan_d-cons}
use librequiemdb.Field.{field_to_int32, signed_or}

int32_of :
    (old c n : ℕ) (s t rest : Bytes)
    → skip_blanks s ≡ c ∷ t
    → scan_d s ≡ some (n, rest)
    → field_to_int32 old s ≡ ok n
unfolding field_to_int32
int32_of old c n s t rest e h = rw e (rw (h, signed_or) refl)

skip_blanks-digit : (c : ℕ) (s : Bytes) → is_digit c ≡ true → skip_blanks (c ∷ s) ≡ c ∷ s
unfolding skip_blanks
skip_blanks-digit c s d = rw (digit_facts c d).0 refl

negative :
    (c m : ℕ) (s : Bytes)
    → is_digit c ≡ true
    → read_from 0 (c ∷ s) ≡ (m, [])
    → scan_d (b'-' ∷ c ∷ s) ≡ some ((2 ^ 32 - m % 2 ^ 32) % 2 ^ 32, [])
unfolding scan_d scan_signed scan_digits skip_blanks is_space
negative c m s d h = rw d (rw h refl)

skip_blanks-minus : (s : Bytes) → skip_blanks (b'-' ∷ s) ≡ b'-' ∷ s
unfolding skip_blanks is_space
skip_blanks-minus s = refl

-- A number of 32 bits that `%d` printed is read back.
pub field_to_int32-print_d : (old n : ℕ) → n < 2 ^ 32 → field_to_int32 old (print_d n) ≡ ok n
field_to_int32-print_d old n small = elim (Bool-cases (ltb n (2 ^ 31))) [
  | inl y ↦ rw y (printed n y)
  | inr y ↦ rw y (minus y)
]
  where
    read_back : (m : ℕ) → read_from 0 (decimal m) ≡ (m, [])
    read_back m = ap (read_from 0) (sym (append-nil (decimal m))) ∙ read_from-decimal m [] tt

    is_small : (n : ℕ) → ltb n (2 ^ 31) ≡ true → n < 2 ^ 31
    is_small n h = ground arith

    printed : (n : ℕ) → ltb n (2 ^ 31) ≡ true → field_to_int32 old (decimal n) ≡ ok n
    printed n y =
        let (c, s, e, d) = decimal-cons n in
        rw e (
          int32_of old c n (c ∷ s) s [] (skip_blanks-digit c s d)
            (scan_d-cons c n s [] d (is_small n y) (rw e at (read_back n))))

    back :
        (n : ℕ)
        → n < 2 ^ 32
        → ltb n (2 ^ 31) ≡ false
        → (2 ^ 32 - (2 ^ 32 - n) % 2 ^ 32) % 2 ^ 32 ≡ n
    back n h k = ground arith

    minus : ltb n (2 ^ 31) ≡ false → field_to_int32 old (b'-' ∷ decimal (2 ^ 32 - n)) ≡ ok n
    minus y =
        let (c, s, e, d) = decimal-cons (2 ^ 32 - n) in
        rw e (
          int32_of old b'-' _ (b'-' ∷ c ∷ s) (c ∷ s) [] (skip_blanks-minus (c ∷ s))
            (negative c (2 ^ 32 - n) s d (rw e at (read_back (2 ^ 32 - n))))
          ∙ ap ok (back n small y))
