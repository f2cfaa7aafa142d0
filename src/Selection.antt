-- ===== src/Selection.antt =====
-- src/requiemdb-path-selection.c: selected paths, their text form, and the list of them.
-- `idmef_path_new_fast` is librequiem's, and is a parameter. `malloc` succeeds.
pub mod Parse
use Prim.Native.Nat.{◌^◌, bit_or}
use librequiemdb.Base.{
  ℕ, zero, suc, ◌+◌, ◌-◌, ◌%◌, Bool, true, false, ◌&&◌, List, [], ◌∷◌, ◌++◌, Option, none, some,
  ◌==◌, ltb, if◌then◌else◌, Bytes, codes, length, take, drop,
}
use mathlib.Core.Option
use librequiemdb.Error.{Result, ok, err, Error, db, raw, invalid_selected_object_string, ◌>>=◌}

-- `requiemdb_selected_path_flags_t`
abbrev pub function_min : ℕ
function_min = 0x01

abbrev pub function_max : ℕ
function_max = 0x02

abbrev pub function_avg : ℕ
function_avg = 0x04

abbrev pub function_std : ℕ
function_std = 0x08

abbrev pub function_count : ℕ
function_count = 0x10

abbrev pub group_by : ℕ
group_by = 0x20

abbrev pub order_asc : ℕ
order_asc = 0x40

abbrev pub order_desc : ℕ
order_desc = 0x80

-- `strncmp(a, b, n) == 0`; the terminator stands where a list ends.
unfoldable pub strncmp_eq : ℕ → Bytes → Bytes → Bool
strncmp_eq zero a b = true
strncmp_eq (suc n) (x ∷ a) (y ∷ b) = x == y && strncmp_eq n a b
strncmp_eq (suc n) [] [] = true
strncmp_eq (suc n) _ _ = false

-- On the text from `str` up to `len`, which is all that `strncmp` reads of it.
unfoldable pub parse_filter : Bytes → Result ℕ
unfolding strncmp_eq
parse_filter s =
    if strncmp_eq (length s) s (codes "group_by")
    then ok group_by
    else if strncmp_eq (length s) s (codes "order_desc")
    then ok order_desc
    else if strncmp_eq (length s) s (codes "order_asc")
    then ok order_asc
    else err (db invalid_selected_object_string)

abbrev cons_head : ℕ → List Bytes → List Bytes
cons_head c [] = (c ∷ []) ∷ []
cons_head c (first ∷ rest) = (c ∷ first) ∷ rest

-- The texts between the commas.
unfoldable pub segments : Bytes → List Bytes
segments [] = [] ∷ []
segments (c ∷ s) = let rest = segments s in if c == b',' then [] ∷ rest else cons_head c rest

pub or_filters : ℕ → List Bytes → Result ℕ
or_filters flags [] = ok flags
or_filters flags (s ∷ ss) = do ret ← parse_filter s; or_filters (bit_or flags ret) ss

unfoldable pub parse_filters : Bytes → Result ℕ
unfolding or_filters
parse_filters s = or_filters 0 (segments s)

unfoldable pub parse_function : Bytes → ℕ
unfolding strncmp_eq
parse_function s =
    if strncmp_eq 4 s (codes "min(")
    then function_min
    else if strncmp_eq 4 s (codes "max(")
    then function_max
    else if strncmp_eq 4 s (codes "avg(")
    then function_avg
    else if strncmp_eq 4 s (codes "std(")
    then function_std
    else if strncmp_eq 6 s (codes "count(")
    then function_count
    else 0

-- `strchr` and `strrchr`, as the index of what they find
unfoldable pub strchr : ℕ → Bytes → Option ℕ
strchr c [] = none
strchr c (d ∷ s) = let rest = Option.map suc (strchr c s) in if d == c then some 0 else rest

unfoldable pub strrchr : ℕ → Bytes → Option ℕ
strrchr c [] = none
strrchr c (d ∷ s) = elim (strrchr c s) [
  | some i ↦ some (suc i)
  | none ↦ if d == c then some 0 else none
]

-- The filters behind the first slash, if there is one.
filter_flags : Bytes → Option ℕ → Result ℕ
filter_flags s none = ok 0
filter_flags s (some i) = parse_filters (drop (i + 1) s)

-- `struct requiemdb_selected_path`
pub record SelectedPath (P : Type 0) : Type 0 where
  pub path : P
  pub flags : ℕ

module _ {P : Type 0} (new_path : Bytes → Result P) where
  -- `len` is a `size_t` of 64 bits.
  unfoldable pub parse_path : Bytes → ℕ → Result P
  parse_path s len = if ltb ((len + 1) % 2 ^ 64) len then err (raw 1) else new_path (take len s)

  -- The path in the brackets of a function; the length is a difference of pointers.
  in_brackets : Bytes → Option ℕ → Option ℕ → Result P
  unfolding parse_path
  in_brackets s none e = err (db invalid_selected_object_string)
  in_brackets s (some i) none = err (db invalid_selected_object_string)
  in_brackets s (some i) (some e) = parse_path (drop (i + 1) s) ((e + 2 ^ 64 - (i + 1)) % 2 ^ 64)

  before_filters : Bytes → Option ℕ → Result P
  unfolding parse_path
  before_filters s none = new_path s
  before_filters s (some i) = parse_path s i

  path_of : Bytes → ℕ → Result P
  unfolding in_brackets before_filters
  path_of s function =
      if function == 0
      then before_filters s (strchr b'/' s)
      else in_brackets s (strchr b'(' s) (strrchr b')' s)

  -- `requiemdb_selected_path_new_string`
  unfoldable pub new_string : Bytes → Result (SelectedPath P)
  unfolding filter_flags path_of
  new_string s = do
    flags ← filter_flags s (strchr b'/' s)
    path ← path_of s (parse_function s)
    ok (record { path = path; flags = bit_or flags (parse_function s) })

-- `struct requiemdb_path_selection`; the selected paths in the order of the list
pub record PathSelection (P : Type 0) : Type 0 where
  pub list : List (SelectedPath P)
  pub count : ℕ

module _ {P : Type 0} where
  -- `requiemdb_path_selection_new`
  abbrev pub empty : PathSelection P
  empty = record { list = []; count = 0 }

  -- `requiemdb_path_selection_add`
  unfoldable pub add : PathSelection P → SelectedPath P → PathSelection P
  add sel p = record { list = sel.list ++ p ∷ []; count = (sel.count + 1) % 2 ^ 64 }
