-- ===== src/Classic/Get/Common.antt =====
-- plugins/format/classic/classic-get.c: the fields of a row. What the functions take from librequiem
-- and the C library is a parameter, with what an unset variable holds and the rounds of each loop.
use librequiemdb.Base.{ℕ, ◌∷◌, [], ◌++◌, Option, none, some, Bytes}
use librequiemdb.Error.{Result, raw, ◌>>=◌, ok}
use librequiemdb.Message.{
  Text, Enum, Time, Data, byte, byte_string, char_string, char_data, other_data,
}
use librequiemdb.Time.{Clock, time_from_timestamp}
use librequiemdb.Base.Decimal.{decimal}
use librequiemdb.Field.{
  field_to_uint8, field_to_uint16, field_to_uint32, field_to_uint64, field_to_int32,
}
use librequiemdb.Reading.{Reading, ret, fail, field, unescape, lift}

-- The enumerations that are read.
pub data Enumeration : Type 0 where
  user_id_type user_category address_category node_category action_category : Enumeration
  confidence_rating impact_severity impact_completion impact_type linkage_category : Enumeration
  checksum_algorithm file_category file_fstype source_spoofed target_decoy : Enumeration
  additional_data_type reference_origin : Enumeration

-- `idmef_additional_data_type_t`
pub data DataType : Type 0 where
  error_type boolean byte_type character date_time integer ntpstamp portlist real : DataType
  string byte_string_type xml : DataType

pub record Outside : Type 0 where
  pub fuel : ℕ
  pub old : ℕ
  pub clock : Clock
  -- the text of the enumeration in a new object, and of the number that `_to_numeric` gives for a text
  pub initial : Enumeration → Enum
  pub named : Enumeration → Bytes → Enum
  -- `requiemdb_sql_field_to_float`, with the numbers as `%f` prints them
  pub field_to_float : Bytes → Bytes → Result Bytes
  pub zero_float : Bytes
  pub data_type : Enum → DataType
  -- `idmef_data_t` in a new object
  pub no_data : Data

abbrev pub enum_of : Outside → Enumeration → Option Bytes → Enum
enum_of o e none = o.initial e
enum_of o e (some v) = o.named e v

abbrev pub optional_enum_of : Outside → Enumeration → Option Bytes → Option Enum
optional_enum_of o e none = none
optional_enum_of o e (some v) = some (o.named e v)

abbrev pub text_of : Option Bytes → Text
text_of none = none
text_of (some v) = some (some v)

-- `idmef_data_set_char_string_dup`, whose content ends with a zero
abbrev pub char_string_of : Bytes → Data
char_string_of v = char_string (v ++ 0 ∷ [])

-- A value that cannot be read as a number is kept as a string.
abbrev pub or_string : {A : Type 0} → (A → Data) → Bytes → Result A → Data
or_string f v (Result.ok x) = f x
or_string f v (Result.err e) = char_string_of v

module _ {Res Row : Type 0} (o : Outside) where
  -- `_get_string`, `_get_string_listed`
  unfoldable pub get_string : Res → Row → ℕ → Reading Res Row Text
  get_string res row i = field res row i (λ v. ret (text_of v))

  -- `_get_enum`
  unfoldable pub get_enum : Enumeration → Res → Row → ℕ → Reading Res Row Enum
  get_enum e res row i = field res row i (λ v. ret (enum_of o e v))

  -- `_get_enum` of an optional enumeration
  unfoldable pub get_optional_enum : Enumeration → Res → Row → ℕ → Reading Res Row (Option Enum)
  get_optional_enum e res row i = field res row i (λ v. ret (optional_enum_of o e v))

  -- The number of a field. It is written into a field of the new object, which is 0.
  abbrev pub number_of : (Bytes → Result ℕ) → Option Bytes → Reading Res Row (Option ℕ)
  number_of f none = ret none
  number_of f (some v) = lift (do n ← f v; ok (some n))

  -- `_get_uint8`, `_get_uint16`, `_get_uint32`
  unfoldable pub get_uint8 : Res → Row → ℕ → Reading Res Row (Option ℕ)
  unfolding field_to_uint8
  get_uint8 res row i = field res row i (number_of field_to_uint8)

  unfoldable pub get_uint16 : Res → Row → ℕ → Reading Res Row (Option ℕ)
  unfolding field_to_uint16
  get_uint16 res row i = field res row i (number_of (field_to_uint16 0))

  unfoldable pub get_uint32 : Res → Row → ℕ → Reading Res Row (Option ℕ)
  unfolding field_to_uint32
  get_uint32 res row i = field res row i (number_of (field_to_uint32 0))

  abbrev pub float_of : Option Bytes → Reading Res Row Bytes
  float_of none = ret o.zero_float
  float_of (some v) = lift (o.field_to_float o.zero_float v)

  -- `_get_float`
  unfoldable pub get_float : Res → Row → ℕ → Reading Res Row Bytes
  get_float res row i = field res row i float_of

  abbrev pub time_of : Bytes → ℕ → Bytes → Reading Res Row (Option Time)
  time_of time usec gmtoff = lift (do
    offset ← field_to_int32 o.old gmtoff
    t ← time_from_timestamp o.clock time offset usec
    ok (some t))

  -- A field that must be there.
  abbrev pub needed :
      (Bytes → Reading Res Row (Option Time)) → Option Bytes → Reading Res Row (Option Time)
  needed k none = fail (raw 1)
  needed k (some v) = k v

  abbrev pub usec_of :
      (ℕ → Reading Res Row (Option Time)) → Result ℕ → Reading Res Row (Option Time)
  usec_of k (Result.ok n) = k n
  usec_of k (Result.err e) = fail e

  -- The time, if its field is there, with the column of its microseconds if there is one.
  abbrev pub time_at : Res → Row → ℕ → Option ℕ → Option Bytes → Reading Res Row (Option Time)
  time_at res row gmtoff_index usec_index none = ret none
  time_at res row gmtoff_index none (some time) =
      field res row gmtoff_index (needed λ gmtoff. time_of time 0 gmtoff)
  time_at res row gmtoff_index (some usec_index) (some time) = field res row gmtoff_index (
      needed λ gmtoff.
        field res row usec_index
          (needed λ v. usec_of (λ usec. time_of time usec gmtoff) (field_to_uint32 0 v)))

  -- `_get_timestamp`
  unfoldable pub get_timestamp : Res → Row → ℕ → ℕ → Option ℕ → Reading Res Row (Option Time)
  unfolding field_to_int32 field_to_uint32 time_from_timestamp
  get_timestamp res row time_index gmtoff_index usec_index =
      field res row time_index (time_at res row gmtoff_index usec_index)

  -- The switch of `get_additional_data` over the type.
  unfoldable pub get_data : DataType → Bytes → Reading Res Row Data
  unfolding field_to_uint8 field_to_uint32 field_to_uint64
  get_data boolean v = ret (or_string (λ (n : ℕ). byte (n ∷ [])) v (field_to_uint8 v))
  get_data byte_type v = ret (or_string (λ (n : ℕ). byte (n ∷ [])) v (field_to_uint8 v))
  get_data character v = ret (or_string (λ (n : ℕ). char_data (n ∷ [])) v (field_to_uint8 v))
  get_data date_time v = ret (char_string_of v)
  get_data portlist v = ret (char_string_of v)
  get_data string v = ret (char_string_of v)
  get_data xml v = ret (char_string_of v)
  get_data real v =
      ret (or_string (λ (t : Bytes). other_data t) v (o.field_to_float o.zero_float v))
  get_data integer v =
      ret (or_string (λ (n : ℕ). other_data (decimal n)) v (field_to_uint32 o.old v))
  get_data byte_string_type v = unescape v (λ t. ret (byte_string t))
  get_data ntpstamp v =
      ret (or_string (λ (n : ℕ). other_data (decimal n)) v (field_to_uint64 o.old v))
  get_data error_type v = fail (raw 1)
