-- ===== src/Plugin/Defaults.antt =====
-- src/requiemdb-plugin-sql.c: what is done for a plugin that has no function to escape text or
-- binary data, or to take the escaping of binary data back.
pub mod Hex
use Prim.Native.Nat.{◌^◌}
use librequiemdb.Base.{
  ℕ, ◌+◌, ◌*◌, ◌/◌, ◌%◌, [], ◌∷◌, ◌++◌, Option, none, some, if◌then◌else◌, Bytes, codes, length,
  leb, get_elem?,
}
use librequiemdb.Error.{Result, ok, err, db, generic}

-- `hex[n]`
abbrev pub hex_digit : ℕ → ℕ
hex_digit n = elim (get_elem? (codes "0123456789ABCDEF") n) [ none ↦ 0 | some d ↦ d ]

unfoldable pub bin2hex : Bytes → Bytes
bin2hex [] = []
bin2hex (c ∷ input) = hex_digit (c / 16) ∷ hex_digit (c % 16) ∷ bin2hex input

-- The literal and the size of its buffer, which is a `size_t` of 64 bits; `malloc` succeeds.
abbrev pub out_size : Bytes → ℕ
out_size input = (length input * 2 + 4) % 2 ^ 64

unfoldable pub default_escape_binary : Bytes → Result Bytes
unfolding bin2hex
default_escape_binary input =
    if leb (out_size input) (length input)
    then err (db generic)
    else ok (codes "X'" ++ (bin2hex input ++ codes "'"))

module _ {W : Type 0} where
  -- `_requiemdb_plugin_sql_escape_binary`
  unfoldable pub escape_binary :
      Option (Bytes → W → Result Bytes × W) → Bytes → W → Result Bytes × W
  unfolding default_escape_binary
  escape_binary none input w = (default_escape_binary input, w)
  escape_binary (some f) input w = f input w

  -- `_requiemdb_plugin_sql_escape`, with the functions `escape` and `escape_binary` of the plugin
  unfoldable pub escape :
      Option (Bytes → W → Result Bytes × W)
      → Option (Bytes → W → Result Bytes × W)
      → Bytes
      → W
      → Result Bytes × W
  unfolding escape_binary
  escape none binary input w = escape_binary binary input w
  escape (some f) binary input w = f input w

  -- `_requiemdb_plugin_sql_unescape_binary`
  unfoldable pub unescape_binary :
      Option (Bytes → W → Result Bytes × W) → Bytes → W → Result Bytes × W
  unescape_binary none input w = (ok input, w)
  unescape_binary (some f) input w = f input w
