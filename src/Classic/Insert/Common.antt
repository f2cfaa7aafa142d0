-- ===== src/Classic/Insert/Common.antt =====
-- plugins/format/classic/classic-insert.c: the texts of strings, data, numbers and times in an insertion.
use librequiemdb.Base.{ℕ, ◌-◌, Bool, [], Option, none, some, Bytes, codes, take, length}
use librequiemdb.Base.Decimal.{decimal, print_d}
use librequiemdb.Error.{Error}
use librequiemdb.Message.{
  Text, Enum, Time, Data, byte, byte_string, char_string, char_data, other_data,
}
use librequiemdb.Time.{Clock, Stamp, time_to_timestamp, snprintf}
use librequiemdb.Program.{Program, escaped_binary, lift}

-- `get_string`
unfoldable pub get_string : Text → Option Bytes
get_string none = none
get_string (some none) = some []
get_string (some (some s)) = some s

-- `get_data`. The content of a string of characters ends with a zero, which is not inserted; it is
-- not empty, so that its length less one does not wrap around.
unfoldable pub get_data : {c : Bool} → Data → Program c Bytes
get_data (byte b) = escaped_binary b
get_data (byte_string b) = escaped_binary b
get_data (char_string b) = escaped_binary (take (length b - 1) b)
get_data (char_data b) = escaped_binary (take 1 b)
get_data (other_data t) = escaped_binary t

-- `get_optional_enum`
unfoldable pub get_optional_enum : Option Enum → Option Bytes
get_optional_enum none = none
get_optional_enum (some e) = e

-- `get_optional_uint8`, `get_optional_uint16`, `get_optional_uint32` and `get_optional_uint64`, into a
-- buffer of the given size; the buffers have room for NULL.
unfoldable pub get_optional_uint : ℕ → Option ℕ → Bytes
get_optional_uint size none = codes "NULL"
get_optional_uint size (some n) = snprintf size (decimal n)

-- `get_optional_int32`
unfoldable pub get_optional_int32 : ℕ → Option ℕ → Bytes
get_optional_int32 size none = codes "NULL"
get_optional_int32 size (some n) = snprintf size (print_d n)

-- `requiemdb_sql_time_to_timestamp` in a program
abbrev pub timestamp : {c : Bool} → Clock → Option Error → Option Time → Program c Stamp
timestamp clock r t = lift r (time_to_timestamp clock t)
