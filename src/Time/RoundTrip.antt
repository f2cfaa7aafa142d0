-- ===== src/Time/RoundTrip.antt =====
-- src/requiemdb-sql.c: a timestamp that was written is read back.
use Prim.Native.Nat.{◌^◌}
use librequiemdb.Base.{
  ℕ, ◌-◌, ◌%◌, ◌≤◌, ◌<◌, true, [], ◌∷◌, ◌++◌, ◌≡◌, refl, sym, ap, ◌∙◌, arith, Option, some, inl,
  inr, Bool-cases, ltb, Bytes, append-nil, is_space,
}
use librequiemdb.Base.Decimal.{
  decimal, print_d, read_from, read_from-decimal, decimal-cons, StopsDigits, is_digit, digit_facts,
}
use librequiemdb.Error.{ok}
use librequiemdb.Message.{Time}
use librequiemdb.Time.{
  Tm, Clock, add32, padded, two_digits, timestamp_text, scan_digits, scan_signed, skip_blanks,
  scan_d, with_number, scan_timestamp, time_from_timestamp, expect, from_scanned,
}

mod_small : (n : ℕ) → n < 2 ^ 31 → n % 2 ^ 32 ≡ n
mod_small n h = omega arith

-- A digit is neither a space nor a sign.
pub scan_d-cons :
    (c n : ℕ) (s rest : Bytes)
    → is_digit c ≡ true
    → n < 2 ^ 31
    → read_from 0 (c ∷ s) ≡ (n, rest)
    → scan_d (c ∷ s) ≡ some (n, rest)
unfolding scan_d scan_signed scan_digits skip_blanks
scan_d-cons c n s rest d small h =
    let (blank, minus, plus) = digit_facts c d in
    rw blank (rw minus (rw plus (rw d (rw h (ap (λ m. some (m, rest)) (mod_small n small))))))

scan_d-blank : (s : Bytes) → scan_d (b' ' ∷ s) ≡ scan_d s
unfolding scan_d skip_blanks is_space
scan_d-blank s = refl

-- A number below 2 ^ 31, printed with or without a zero in front, is scanned back.
scan_d-decimal :
    (n : ℕ) (rest : Bytes)
    → n < 2 ^ 31
    → StopsDigits rest
    → scan_d (decimal n ++ rest) ≡ some (n, rest)
scan_d-decimal n rest small stops =
    let (c, s, e, d) = decimal-cons n in
    rw e (scan_d-cons c n (s ++ rest) rest d small (rw e at (read_from-decimal n rest stops)))

scan_d-padded :
    (n : ℕ) (rest : Bytes)
    → n < 2 ^ 31
    → StopsDigits rest
    → scan_d (padded n ++ rest) ≡ some (n, rest)
unfolding read_from
scan_d-padded n rest small stops = elim (Bool-cases (ltb n 10)) [
  | inl y ↦
      rw y (scan_d-cons b'0' n (decimal n ++ rest) rest refl small (read_from-decimal n rest stops))
  | inr y ↦ rw y (scan_d-decimal n rest small stops)
]

scan_d-two_digits :
    (n : ℕ) (rest : Bytes)
    → n < 2 ^ 31
    → StopsDigits rest
    → scan_d (two_digits n ++ rest) ≡ some (n, rest)
unfolding two_digits
scan_d-two_digits n rest small stops = rw (is_small n small) (scan_d-padded n rest small stops)
  where
    is_small : (n : ℕ) → n < 2 ^ 31 → ltb n (2 ^ 31) ≡ true
    is_small n h = ground arith

pub scan_d-print_d :
    (n : ℕ) (rest : Bytes)
    → n < 2 ^ 31
    → StopsDigits rest
    → scan_d (print_d n ++ rest) ≡ some (n, rest)
scan_d-print_d n rest small stops = rw (is_small n small) (scan_d-decimal n rest small stops)
  where
    is_small : (n : ℕ) → n < 2 ^ 31 → ltb n (2 ^ 31) ≡ true
    is_small n h = ground arith

with_number-of {ℓ} :
    {A : Type ℓ} (s : Bytes) {rest : Bytes} {n : ℕ} (k : ℕ → Bytes → Option A)
    → scan_d s ≡ some (n, rest)
    → with_number s k ≡ k n rest
with_number-of s k h = rw (h, with_number) refl

-- No number of a broken-down time is negative, before or after its correction.
pub record IsTm (t : Tm) : Type 0 where
  pub year_small : add32 t.year 1900 < 2 ^ 31
  pub mon_small : add32 t.mon 1 < 2 ^ 31
  pub mday_small : t.mday < 2 ^ 31
  pub hour_small : t.hour < 2 ^ 31
  pub min_small : t.min < 2 ^ 31
  pub sec_small : t.sec < 2 ^ 31

scan_timestamp-text :
    (t : Tm)
    → IsTm t
    → scan_timestamp (timestamp_text t)
      ≡ some (record t { year = add32 t.year 1900; mon = add32 t.mon 1 })
unfolding scan_timestamp timestamp_text expect
scan_timestamp-text t h =
    with_number-of _ _ (scan_d-print_d (add32 t.year 1900) _ h.year_small refl)
    ∙ with_number-of _ _ (scan_d-two_digits (add32 t.mon 1) _ h.mon_small refl)
    ∙ with_number-of _ _ (scan_d-two_digits t.mday _ h.mday_small refl)
    ∙ with_number-of _ _ (scan_d-blank _ ∙ scan_d-two_digits t.hour _ h.hour_small refl)
    ∙ with_number-of _ _ (scan_d-two_digits t.min _ h.min_small refl)
    ∙ with_number-of _ _ (
        ap scan_d (sym (append-nil (two_digits t.sec))) ∙ scan_d-two_digits t.sec [] h.sec_small tt)

add32_back : (a b : ℕ) → a < 2 ^ 32 → b ≤ 2 ^ 32 → add32 (add32 a b) (2 ^ 32 - b) ≡ a
add32_back a b h k = omega arith

from_scanned-back :
    (c : Clock) (t : Time) (tm : Tm)
    → c.timegm tm ≡ t.sec
    → tm.year < 2 ^ 32
    → tm.mon < 2 ^ 32
    → from_scanned c t.gmt_offset t.usec
        (some (record tm { year = add32 tm.year 1900; mon = add32 tm.mon 1 }))
      ≡ ok t
unfolding from_scanned
from_scanned-back c t tm inverse y m =
    rw (add32_back tm.year 1900 y (omega arith))
      (rw (add32_back tm.mon 1 m (omega arith)) (rw inverse refl))

-- The text of a time's broken-down form, where `gmtime` gives one that `timegm` inverts, whose
-- year and month have 32 bits and none of whose numbers is negative, nor the year and the month
-- as they are printed, is read back as this time, with the offset and the microseconds given.
pub time_from_timestamp-timestamp_text :
    (c : Clock) (t : Time) (tm : Tm)
    → c.gmtime t.sec ≡ ok tm
    → c.timegm tm ≡ t.sec
    → IsTm tm
    → tm.year < 2 ^ 32
    → tm.mon < 2 ^ 32
    → time_from_timestamp c (timestamp_text tm) t.gmt_offset t.usec ≡ ok t
unfolding time_from_timestamp
time_from_timestamp-timestamp_text c t tm g inverse h y m =
    ap (from_scanned c t.gmt_offset t.usec) (scan_timestamp-text tm h)
    ∙ from_scanned-back c t tm inverse y m
