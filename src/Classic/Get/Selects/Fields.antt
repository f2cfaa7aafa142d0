-- ===== src/Classic/Get/Selects/Fields.antt =====
-- plugins/format/classic/classic-get.c: the reading of a field sends no statement.
use librequiemdb.Base.{ℕ, Option, none, some, Bytes}
use librequiemdb.Error.{Result, ok, err}
use librequiemdb.Field.{field_to_uint32}
use librequiemdb.Message.{Time}
use librequiemdb.Reading.{Reading, field}
use librequiemdb.Reading.Selects.{Selects, field-Selects, lift-Selects}
use librequiemdb.Classic.Get.Common.{
  Outside, Enumeration, DataType, error_type, boolean, byte_type, character, date_time, integer,
  ntpstamp, portlist, real, string, byte_string_type, xml, get_string, get_enum, get_optional_enum,
  get_uint8, get_uint16, get_uint32, get_float, get_timestamp, get_data, number_of, float_of,
  time_at, needed, usec_of, time_of,
}

module _ {Res Row : Type 0} (o : Outside) (res : Res) (row : Row) where
  pub get_string-Selects : (i : ℕ) → Selects (get_string o res row i)
  unfolding get_string Selects
  get_string-Selects i = λ v. tt

  pub get_enum-Selects : (e : Enumeration) (i : ℕ) → Selects (get_enum o e res row i)
  unfolding get_enum Selects
  get_enum-Selects e i = λ v. tt

  pub get_optional_enum-Selects :
      (e : Enumeration) (i : ℕ) → Selects (get_optional_enum o e res row i)
  unfolding get_optional_enum Selects
  get_optional_enum-Selects e i = λ v. tt

  number_field :
      (f : Bytes → Result ℕ) (i : ℕ)
      → Selects (field res row i (number_of {Res = Res} {Row = Row} o f))
  unfolding Selects
  number_field f i = λ v. given v
    where
      given : (v : Option Bytes) → Selects (number_of {Res = Res} {Row = Row} o f v)
      given none = tt
      given (some v) = lift-Selects Res Row _

  pub get_uint8-Selects : (i : ℕ) → Selects (get_uint8 o res row i)
  unfolding get_uint8
  get_uint8-Selects i = number_field _ i

  pub get_uint16-Selects : (i : ℕ) → Selects (get_uint16 o res row i)
  unfolding get_uint16
  get_uint16-Selects i = number_field _ i

  pub get_uint32-Selects : (i : ℕ) → Selects (get_uint32 o res row i)
  unfolding get_uint32
  get_uint32-Selects i = number_field _ i

  pub get_float-Selects : (i : ℕ) → Selects (get_float o res row i)
  unfolding get_float Selects
  get_float-Selects i = λ v. given v
    where
      given : (v : Option Bytes) → Selects (float_of {Res = Res} {Row = Row} o v)
      given none = tt
      given (some v) = lift-Selects Res Row _

  needed-Selects :
      (k : Bytes → Reading Res Row (Option Time)) (v : Option Bytes)
      → ((v : Bytes) → Selects (k v))
      → Selects (needed o k v)
  unfolding Selects
  needed-Selects k none h = tt
  needed-Selects k (some v) h = h v

  usec_of-Selects :
      (k : ℕ → Reading Res Row (Option Time)) (r : Result ℕ)
      → ((n : ℕ) → Selects (k n))
      → Selects (usec_of o k r)
  unfolding Selects
  usec_of-Selects k (ok n) h = h n
  usec_of-Selects k (err e) h = tt

  time_at-Selects :
      (gmtoff : ℕ) (usec : Option ℕ) (time : Option Bytes)
      → Selects (time_at o res row gmtoff usec time)
  unfolding Selects
  time_at-Selects gmtoff usec none = tt
  time_at-Selects gmtoff none (some time) = λ v. needed-Selects _ v (λ g. lift-Selects Res Row _)
  time_at-Selects gmtoff (some usec) (some time) = λ v. needed-Selects _ v λ g. λ u.
      needed-Selects _ u λ x.
        usec_of-Selects (λ n. time_of o time n g) (field_to_uint32 0 x) λ n. lift-Selects Res Row _

  pub get_timestamp-Selects :
      (time gmtoff : ℕ) (usec : Option ℕ) → Selects (get_timestamp o res row time gmtoff usec)
  unfolding get_timestamp
  get_timestamp-Selects time gmtoff usec =
      field-Selects res row time _ (time_at-Selects gmtoff usec)

pub get_data-Selects :
    (Res Row : Type 0) (o : Outside) (t : DataType) (v : Bytes)
    → Selects {Res = Res} {Row = Row} (get_data o t v)
unfolding get_data Selects
get_data-Selects Res Row o error_type v = tt
get_data-Selects Res Row o boolean v = tt
get_data-Selects Res Row o byte_type v = tt
get_data-Selects Res Row o character v = tt
get_data-Selects Res Row o date_time v = tt
get_data-Selects Res Row o integer v = tt
get_data-Selects Res Row o ntpstamp v = tt
get_data-Selects Res Row o portlist v = tt
get_data-Selects Res Row o real v = tt
get_data-Selects Res Row o string v = tt
get_data-Selects Res Row o byte_string_type v = λ t. tt
get_data-Selects Res Row o xml v = tt

pub ruleset field_rules = (
  get_string-Selects, get_enum-Selects, get_optional_enum-Selects, get_uint8-Selects,
  get_uint16-Selects, get_uint32-Selects, get_float-Selects, get_timestamp-Selects,
)
