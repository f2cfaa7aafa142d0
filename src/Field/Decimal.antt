-- ===== src/Field/Decimal.antt =====
-- src/requiemdb-sql.c: the numbers that are read from printed numbers.
use Prim.Native.Nat.{◌^◌}
use librequiemdb.Base.{
  ℕ, ◌<◌, ◌-◌, ◌%◌, if◌then◌else◌, ltb, true, [], ◌∷◌, ◌≡◌, ◌∙◌, refl, sym, ap, some, Bytes, arith,
  append-nil,
}
use librequiemdb.Base.Decimal.{
  decimal, decimal-cons, read_from, read_from-decimal, is_digit, digit_facts,
}
use librequiemdb.Error.{ok, err, db, invalid_value}
use librequiemdb.Field.{scan_u, field_to_uint8, field_to_uint16, field_to_uint32, field_to_uint64}

scan_u-cons :
    (c n : ℕ) (s : Bytes)
    → is_digit c ≡ true
    → n < 2 ^ 64
    → read_from 0 (c ∷ s) ≡ (n, [])
    → scan_u (c ∷ s) ≡ ok (some n)
unfolding scan_u
scan_u-cons c n s d small h =
    let (blank, minus, plus) = digit_facts c d in
    rw blank (rw minus (rw plus (rw d (rw h (is_small n small)))))
  where
    is_small :
        (n : ℕ) → n < 2 ^ 64 → ok (some (if ltb n (2 ^ 64) then n else 2 ^ 64 - 1)) ≡ ok (some n)
    is_small n h = ground arith

pub scan_u-decimal : (n : ℕ) → n < 2 ^ 64 → scan_u (decimal n) ≡ ok (some n)
scan_u-decimal n small =
    let (c, s, e, d) = decimal-cons n in
    let r = ap (read_from 0) (sym (append-nil (decimal n))) ∙ read_from-decimal n [] tt in
    rw e (scan_u-cons c n s d small (rw e at r))

pub field_to_uint64-decimal : (old n : ℕ) → n < 2 ^ 64 → field_to_uint64 old (decimal n) ≡ ok n
unfolding field_to_uint64
field_to_uint64-decimal old n small = rw (scan_u-decimal n small) refl

-- A number below 2 ^ 64 that was printed is read back from its field in 64 bits, and in 32 and 16
-- bits up to the bits above; in 8 bits, the lower 32 bits of it are read back if they are below
-- 256, and otherwise it is refused. What the variable held does not matter.
pub fields-decimal :
    (old n : ℕ)
    → n < 2 ^ 64
    → (field_to_uint64 old (decimal n) ≡ ok n)
      × (field_to_uint32 old (decimal n) ≡ ok (n % 2 ^ 32))
      × (field_to_uint16 old (decimal n) ≡ ok (n % 2 ^ 16))
      × (field_to_uint8 (decimal n)
          ≡ (if ltb (n % 2 ^ 32) 256 then ok (n % 2 ^ 32) else err (db invalid_value)))
unfolding field_to_uint64 field_to_uint32 field_to_uint16 field_to_uint8
fields-decimal old n small = (
  rw (scan_u-decimal n small) refl,
  rw (scan_u-decimal n small) refl,
  rw (scan_u-decimal n small) refl,
  rw (scan_u-decimal n small) refl,
)
