-- ===== src/Time/Bounds.antt =====
-- src/requiemdb-plugin-sql.c: the default timestamp in the buffers of its callers.
use Prim.Native.Nat.{◌^◌}
use librequiemdb.Base.{
  ℕ, ◌+◌, ◌-◌, ◌≤◌, ◌<◌, [], ◌∷◌, ◌++◌, ◌≡◌, arith, none, Bytes, length, length-append,
}
use librequiemdb.Base.Decimal.{print_d, length-decimal}
use librequiemdb.Error.{ok}
use librequiemdb.Time.{
  Tm, add32, padded, two_digits, timestamp_text, timestamp_size, build_timestamp_string,
  default_timestamp,
}

length-padded : (n : ℕ) → n < 2 ^ 32 → length (padded n) ≤ 10
length-padded n small = ground (arith, length-decimal 9 n (omega arith), length-decimal 0 n)

length-two_digits : (n : ℕ) → n < 2 ^ 32 → length (two_digits n) ≤ 11
unfolding two_digits
length-two_digits n small = ground (arith, length-padded n small, length-padded (2 ^ 32 - n))

length-print_d : (n : ℕ) → n < 2 ^ 32 → length (print_d n) ≤ 11
length-print_d n small =
    ground (arith, length-decimal 9 n (omega arith), length-decimal 9 (2 ^ 32 - n))

length-front :
    (xs : Bytes) (c : ℕ) (ys : Bytes) {k l : ℕ}
    → length xs ≤ k
    → length ys ≤ l
    → length (xs ++ c ∷ ys) ≤ k + (l + 1)
length-front xs c ys h j = ground (arith, length-append xs (c ∷ ys))

-- The numbers of `struct tm` have 32 bits.
pub record HasWidth (t : Tm) : Type 0 where
  pub mday_width : t.mday < 2 ^ 32
  pub hour_width : t.hour < 2 ^ 32
  pub min_width : t.min < 2 ^ 32
  pub sec_width : t.sec < 2 ^ 32

length-timestamp_text : (t : Tm) → HasWidth t → length (timestamp_text t) ≤ 71
unfolding timestamp_text
length-timestamp_text t h = length-front _ _ _ (length-print_d (add32 t.year 1900) (omega arith)) (
    length-front _ _ _ (length-two_digits (add32 t.mon 1) (omega arith)) (
      length-front _ _ _ (length-two_digits t.mday h.mday_width) (
        length-front _ _ _ (length-two_digits t.hour h.hour_width) (
          length-front _ _ _ (length-two_digits t.min h.min_width)
            (length-two_digits t.sec h.sec_width)))))

-- Without a function of the plugin, a broken-down time whose numbers have 32 bits, negative ones
-- included, fits the buffers of 128 bytes: the result is the quoted text and no error.
pub build_timestamp_string-default :
    (t : Tm)
    → HasWidth t
    → build_timestamp_string none timestamp_size t ≡ ok (b'\'' ∷ (timestamp_text t ++ b'\'' ∷ []))
unfolding build_timestamp_string default_timestamp
build_timestamp_string-default t h =
    ground (arith, length-timestamp_text t h, length-append (timestamp_text t) (b'\'' ∷ []))
