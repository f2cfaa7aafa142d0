-- ===== src/Settings.antt =====
-- src/requiemdb-sql-settings.c: the settings of a connection, and the parser of a settings string.
-- A `const char **str` cursor is the text from the cursor on, which ends where the terminator is.
-- The hash table is librequiem's: its operations are a parameter.
pub mod Value
pub mod Print
use librequiemdb.Base.{
  ℕ, zero, suc, ◌+◌, Bool, true, false, ◌&&◌, ◌||◌, List, [], ◌∷◌, ◌++◌, Option, none, some, ◌==◌,
  if◌then◌else◌, Bytes, codes, is_space, is_alnum, length,
}
use librequiemdb.Error.{Result, ok, err, Error, db, invalid_settings_string, ◌>>=◌}

-- `requiem_hash_t` of strings, with `requiem_hash_new`, `requiem_hash_set` and `requiem_hash_get`.
pub record Hash : Type 1 where
  pub Table : Type 0
  pub new : Result Table
  pub set : Table → Bytes → Bytes → Table × Result (Unit {0})
  pub get : Table → Bytes → Option Bytes

unfoldable pub skip_spaces : Bytes → Bytes
skip_spaces [] = []
skip_spaces (c ∷ s) = let rest = skip_spaces s in if is_space c then rest else c ∷ s

-- `isalnum(**str) || **str == '_'`
unfoldable pub is_name : ℕ → Bool
unfolding is_alnum
is_name c = is_alnum c || c == b'_'

-- The scan of a name: what it passes over, and where it stops.
unfoldable pub scan_name : Bytes → Bytes × Bytes
scan_name [] = ([], [])
scan_name (c ∷ s) = let (n, rest) = scan_name s in if is_name c then (c ∷ n, rest) else ([], c ∷ s)

-- The tests behind the scan, on what it passed over and where it stopped.
unfoldable pub end_name : Bytes → Bytes → Result (Option (Bytes × Bytes))
end_name [] _ = err (db invalid_settings_string)
end_name n [] = err (db invalid_settings_string)
end_name n (c ∷ rest) = if c == b'=' then ok (some (n, rest)) else err (db invalid_settings_string)

scan_end : Bytes × Bytes → Result (Option (Bytes × Bytes))
scan_end (n, rest) = end_name n rest

name_at : Bytes → Result (Option (Bytes × Bytes))
unfolding scan_end
name_at [] = ok none
name_at (c ∷ s) = scan_end (scan_name (c ∷ s))

-- `none` is the result 0, at the end of the string.
unfoldable pub get_name : Bytes → Result (Option (Bytes × Bytes))
unfolding name_at
get_name s = name_at (skip_spaces s)

-- The loop of `get_value`: the value read so far comes back with the cursor.
unfoldable pub value_loop : ℕ → Bool → Bytes → Bytes → Bytes × Bytes
value_loop stop escaped [] out = (out, [])
value_loop stop escaped (c ∷ s) out =
    let keep = value_loop stop false s (out ++ c ∷ []) in
    let skip = value_loop stop true s out in
    if escaped then keep else if c == b'\\' then skip else if c == stop then (out, s) else keep

-- The last test of `get_value`.
unfoldable pub end_value : Bool → Bytes × Bytes → Result (Bytes × Bytes)
end_value true (v, []) = err (db invalid_settings_string)
end_value true (v, c ∷ s) = ok (v, c ∷ s)
end_value false (v, s) = ok (v, s)

unfoldable pub get_value : Bytes → Result (Bytes × Bytes)
unfolding end_value
get_value [] = ok ([], [])
get_value (c ∷ s) =
    if c == b'\'' || c == b'"'
    then end_value true (value_loop c false s [])
    else end_value false (value_loop b' ' false (c ∷ s) [])

-- One round of a loop over the cursor: return, or go on.
pub data Round {ℓ} (T : Type ℓ) : Type ℓ where
  stop : T → Result (Unit {0}) → Round T
  go : T → Bytes → Round T

module _ (h : Hash) where
  open h use {Table, set}

  abbrev set_next : Table × Result (Unit {0}) → Bytes → Round Table
  set_next (t, ok _) s = go t s
  set_next (t, err e) s = stop t (err e)

  set_value : Table → Bytes → Result (Bytes × Bytes) → Round Table
  set_value t name (err e) = stop t (err e)
  set_value t name (ok (v, s)) = set_next (set t name v) s

  set_name : Table → Result (Option (Bytes × Bytes)) → Round Table
  unfolding set_value
  set_name t (err e) = stop t (err e)
  set_name t (ok none) = stop t (ok tt)
  set_name t (ok (some (name, s))) = set_value t name (get_value s)

  -- `while ( (ret = get_name(&str, &name)) > 0 )`; `none` means that the fuel ran out.
  unfoldable pub set_loop : ℕ → Table → Bytes → Option (Table × Result (Unit {0}))
  unfolding set_name
  set_loop zero t s = none
  set_loop (suc fuel) t s = elim (set_name t (get_name s)) [
    | stop t' r ↦ some (t', r)
    | go t' s' ↦ set_loop fuel t' s'
  ]

  unfoldable pub set_from_string : Table → Bytes → Option (Table × Result (Unit {0}))
  unfolding set_loop
  set_from_string t s = set_loop (length s + 1) t s

  -- The settings are destroyed, and only the error comes back, if the string is refused.
  abbrev or_destroy : Option (Table × Result (Unit {0})) → Option (Result Table)
  or_destroy none = none
  or_destroy (some (t, ok _)) = some (ok t)
  or_destroy (some (t, err e)) = some (err e)

  new_table : Result Table → Bytes → Option (Result Table)
  new_table (ok t) s = or_destroy (set_from_string t s)
  new_table (err e) s = some (err e)

  unfoldable pub new_from_string : Bytes → Option (Result Table)
  unfolding new_table set_from_string
  new_from_string s = new_table h.new s

-- The keys of requiemdb-sql-settings.h that `convenient_functions` is expanded at.
pub data Key : Type 0 where
  host port name user pass type file log : Key

abbrev pub key : Key → Bytes
key host = codes "host"
key port = codes "port"
key name = codes "name"
key user = codes "user"
key pass = codes "pass"
key type = codes "type"
key file = codes "file"
key log = codes "log"

abbrev pub default : Key → Option Bytes
default host = some (codes "localhost")
default name = some (codes "requiem")
default _ = none

module _ (h : Hash) where
  -- `requiemdb_sql_settings_set_<name>`
  unfoldable pub set_key : Key → h.Table → Bytes → h.Table × Result (Unit {0})
  set_key k t v = h.set t (key k) v

  -- `value ? value : default`
  abbrev or_default : Option Bytes → Option Bytes → Option Bytes
  or_default none d = d
  or_default (some v) d = some v

  -- `requiemdb_sql_settings_get_<name>`
  unfoldable pub get_key : Key → h.Table → Option Bytes
  get_key k t = or_default (h.get t (key k)) (default k)
