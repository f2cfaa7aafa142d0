-- ===== src/Field.antt =====
-- src/requiemdb-sql.c: the values of fields as numbers, `requiemdb_sql_field_to_...`. A number that is
-- not there leaves the variable as it was, and what it held is an argument, `old`.
pub mod Decimal
pub mod Signed
use Prim.Native.Nat.{◌^◌}
use librequiemdb.Base.{
  ℕ, ◌-◌, ◌%◌, Bool, true, false, [], ◌∷◌, Option, none, some, ◌==◌, ltb, if◌then◌else◌, Bytes,
  is_space,
}
use librequiemdb.Base.Decimal.{read_from, is_digit}
use librequiemdb.Error.{Result, ok, err, db, invalid_value, ◌>>=◌}
use librequiemdb.Time.{scan_d, skip_blanks}

-- `sscanf` of a field by `%lu`. A number past the range is the largest one.
abbrev clamp64 : ℕ → ℕ
clamp64 n = if ltb n (2 ^ 64) then n else 2 ^ 64 - 1

-- A number with a minus in front is negated.
abbrev negated64 : ℕ → ℕ
negated64 n = if ltb n (2 ^ 64) then (2 ^ 64 - n) % 2 ^ 64 else 2 ^ 64 - 1

abbrev digits_by : (ℕ → ℕ) → Bytes → Option ℕ
digits_by f [] = none
digits_by f (c ∷ s) = let n = (read_from 0 (c ∷ s)).0 in if is_digit c then some (f n) else none

-- `err` is the end of the text in front of a number, `none` that there is no number.
unfoldable pub scan_u : Bytes → Result (Option ℕ)
scan_u [] = err (db invalid_value)
scan_u (c ∷ s) =
    let rest = scan_u s in
    if is_space c
    then rest
    else if c == b'-'
    then ok (digits_by negated64 s)
    else if c == b'+'
    then ok (digits_by clamp64 s)
    else ok (digits_by clamp64 (c ∷ s))

abbrev pub or_old : ℕ → Option ℕ → ℕ
or_old old none = old
or_old old (some n) = n

-- `requiemdb_sql_field_to_uint64`
unfoldable pub field_to_uint64 : ℕ → Bytes → Result ℕ
unfolding scan_u
field_to_uint64 old s = do n ← scan_u s; ok (or_old old n)

-- the lower bits of a number that was read
abbrev pub lower : ℕ → Option ℕ → Option ℕ
lower w none = none
lower w (some n) = some (n % 2 ^ w)

-- `requiemdb_sql_field_to_uint32`
unfoldable pub field_to_uint32 : ℕ → Bytes → Result ℕ
unfolding scan_u
field_to_uint32 old s = do n ← scan_u s; ok (or_old old (lower 32 n))

-- `requiemdb_sql_field_to_uint16`
unfoldable pub field_to_uint16 : ℕ → Bytes → Result ℕ
unfolding scan_u
field_to_uint16 old s = do n ← scan_u s; ok (or_old old (lower 16 n))

-- `tmp` is read by `%u` and compared as an `int`.
abbrev pub as_byte : Option ℕ → Result ℕ
as_byte none = err (db invalid_value)
as_byte (some n) = if ltb (n % 2 ^ 32) 256 then ok (n % 2 ^ 32) else err (db invalid_value)

-- `requiemdb_sql_field_to_uint8`
unfoldable pub field_to_uint8 : Bytes → Result ℕ
unfolding scan_u
field_to_uint8 s = do n ← scan_u s; as_byte n

abbrev pub signed_or : ℕ → Bytes → Bytes → Result ℕ
signed_or old s [] = err (db invalid_value)
signed_or old s (c ∷ rest) = elim (scan_d s) [ none ↦ ok old | some r ↦ ok r.0 ]

-- `requiemdb_sql_field_to_int32`
unfoldable pub field_to_int32 : ℕ → Bytes → Result ℕ
unfolding scan_d skip_blanks
field_to_int32 old s = signed_or old s (skip_blanks s)
