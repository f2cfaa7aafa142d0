-- ===== src/Time.antt =====
-- src/requiemdb-sql.c and src/requiemdb-plugin-sql.c: times as timestamps of SQL, and back. The
-- numbers of `struct tm` have 32 bits, in two's complement. `gmtime_r`, `requiem_timegm` and a
-- plugin's own function for timestamps are a parameter.
pub mod RoundTrip
pub mod Bounds
use Prim.Native.Nat.{◌^◌}
use librequiemdb.Base.{
  ℕ, ◌+◌, ◌-◌, ◌%◌, Bool, true, false, [], ◌∷◌, ◌++◌, Option, none, some, ◌==◌, ltb, leb,
  if◌then◌else◌, Bytes, codes, is_space, length, take,
}
use librequiemdb.Base.Decimal.{decimal, print_d, read_from, is_digit}
use librequiemdb.Error.{Result, ok, err, db, raw, generic, ◌>>=◌}
use librequiemdb.Message.{Time}

-- `struct tm`
pub record Tm : Type 0 where
  pub year : ℕ
  pub mon : ℕ
  pub mday : ℕ
  pub hour : ℕ
  pub min : ℕ
  pub sec : ℕ

pub record Clock : Type 0 where
  pub gmtime : ℕ → Result Tm
  pub timegm : Tm → ℕ
  pub build_timestamp : Option (Tm → Result Bytes)

-- the sum of two numbers of 32 bits
abbrev pub add32 : ℕ → ℕ → ℕ
add32 a b = (a + b) % 2 ^ 32

-- `snprintf` of a text into a buffer
abbrev pub snprintf : ℕ → Bytes → Bytes
snprintf size text = take (size - 1) text

-- `%.2d`
abbrev pub padded : ℕ → Bytes
padded n = if ltb n 10 then b'0' ∷ decimal n else decimal n

unfoldable pub two_digits : ℕ → Bytes
two_digits n = if ltb n (2 ^ 31) then padded n else b'-' ∷ padded (2 ^ 32 - n)

-- The text of the default in `_requiemdb_plugin_sql_build_timestamp_string`, without its quotes.
unfoldable pub timestamp_text : Tm → Bytes
unfolding two_digits
timestamp_text t =
    print_d (add32 t.year 1900)
    ++ b'-'
      ∷ (two_digits (add32 t.mon 1)
          ++ b'-'
            ∷ (two_digits t.mday
                ++ b' '
                  ∷ (two_digits t.hour ++ b':' ∷ (two_digits t.min ++ b':' ∷ two_digits t.sec))))

-- the default, for a buffer of the given size
unfoldable pub default_timestamp : ℕ → Tm → Result Bytes
unfolding timestamp_text
default_timestamp size t =
    let text = b'\'' ∷ (timestamp_text t ++ b'\'' ∷ []) in
    if leb size (length text) then err (raw 1) else ok text

-- `_requiemdb_plugin_sql_build_timestamp_string`
unfoldable pub build_timestamp_string : Option (Tm → Result Bytes) → ℕ → Tm → Result Bytes
unfolding default_timestamp
build_timestamp_string none size t = default_timestamp size t
build_timestamp_string (some f) size t = f t

-- What `requiemdb_sql_time_to_timestamp` writes into its three buffers.
pub record Stamp : Type 0 where
  pub time : Bytes
  pub gmtoff : Bytes
  pub usec : Bytes

-- `REQUIEMDB_SQL_TIMESTAMP_STRING_SIZE`, and the size of the other two buffers of the callers
abbrev pub timestamp_size : ℕ
timestamp_size = 128

abbrev pub number_size : ℕ
number_size = 16

-- `requiemdb_sql_time_to_timestamp`
unfoldable pub time_to_timestamp : Clock → Option Time → Result Stamp
unfolding build_timestamp_string
time_to_timestamp c none =
    ok (record { time = codes "NULL"; gmtoff = codes "NULL"; usec = codes "NULL" })
time_to_timestamp c (some t) = do
  tm ← c.gmtime t.sec
  text ← build_timestamp_string c.build_timestamp timestamp_size tm
  ok (record {
    time = text;
    gmtoff = snprintf number_size (print_d t.gmt_offset);
    usec = snprintf number_size (print_d t.usec);
  })

-- `%d` of `sscanf`: spaces, a sign, digits.
unfoldable pub skip_blanks : Bytes → Bytes
skip_blanks [] = []
skip_blanks (c ∷ s) = let rest = skip_blanks s in if is_space c then rest else c ∷ s

unfoldable pub scan_digits : Bool → Bytes → Option (ℕ × Bytes)
scan_digits negative [] = none
scan_digits negative (c ∷ s) =
    let (n, rest) = read_from 0 (c ∷ s) in
    if is_digit c
    then some ((if negative then (2 ^ 32 - n % 2 ^ 32) % 2 ^ 32 else n % 2 ^ 32), rest)
    else none

unfoldable pub scan_signed : Bytes → Option (ℕ × Bytes)
unfolding scan_digits
scan_signed [] = none
scan_signed (c ∷ s) =
    if c == b'-'
    then scan_digits true s
    else if c == b'+'
    then scan_digits false s
    else scan_digits false (c ∷ s)

unfoldable pub scan_d : Bytes → Option (ℕ × Bytes)
unfolding scan_signed skip_blanks
scan_d s = scan_signed (skip_blanks s)

-- A character of the format; a space of the format skips all spaces.
unfoldable pub expect : ℕ → Bytes → Option Bytes
expect c [] = none
expect c (d ∷ s) = if c == d then some s else none

-- `number` and the text behind it go to what follows.
abbrev pub with_number {ℓ} : {A : Type ℓ} → Bytes → (ℕ → Bytes → Option A) → Option A
with_number s k = elim (scan_d s) [ none ↦ none | some r ↦ k r.0 r.1 ]

abbrev pub with_char {ℓ} : {A : Type ℓ} → ℕ → Bytes → (Bytes → Option A) → Option A
with_char c s k = elim (expect c s) [ none ↦ none | some rest ↦ k rest ]

-- `sscanf(time_buf, "%d-%d-%d %d:%d:%d", ...)` with all six numbers; `%d` skips the spaces itself.
unfoldable pub scan_timestamp : Bytes → Option Tm
scan_timestamp s = with_number s λ y s1. with_char b'-' s1 λ s2. with_number s2 λ mo s3.
    with_char b'-' s3 λ s4. with_number s4 λ d s5. with_number s5 λ h s6. with_char b':' s6 λ s7.
      with_number s7 λ mi s8. with_char b':' s8 λ s9.
        with_number s9
          λ se rest. some (record { year = y; mon = mo; mday = d; hour = h; min = mi; sec = se })

unfoldable pub from_scanned : Clock → ℕ → ℕ → Option Tm → Result Time
from_scanned c gmtoff usec none = err (db generic)
from_scanned c gmtoff usec (some tm) =
    let tm' : Tm = record tm {
      year = add32 tm.year (2 ^ 32 - 1900);
      mon = add32 tm.mon (2 ^ 32 - 1);
    } in
    ok (record { sec = c.timegm tm'; gmt_offset = gmtoff; usec = usec })

-- `requiemdb_sql_time_from_timestamp`
unfoldable pub time_from_timestamp : Clock → Bytes → ℕ → ℕ → Result Time
unfolding scan_timestamp from_scanned
time_from_timestamp c time_buf gmtoff usec = from_scanned c gmtoff usec (scan_timestamp time_buf)
