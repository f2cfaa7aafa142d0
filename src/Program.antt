-- ===== src/Program.antt =====
-- The functions of plugins/format/classic/classic-insert.c as programs: trees of the calls that they
-- make on a connection, which stop at the first negative return value; and `requiemdb_sql_insert` of
-- src/requiemdb-sql.c with `get_last_insert_ident`, on which they run.
pub mod Keeps
pub mod Traced
pub mod Outcome
pub mod Served
pub mod Typed
use Prim.Native.Nat.{◌^◌}
use librequiemdb.Base.{
  String, refl, ℕ, ◌+◌, ◌-◌, ◌%◌, Bool, true, false, List, [], ◌∷◌, ◌++◌, ◌≡◌, Option, none, some,
  ◌==◌, ltb, if◌then◌else◌, Bytes, codes, is_space,
}
use librequiemdb.Base.Decimal.{decimal, print_d, read_from, is_digit}
use librequiemdb.Error.{Result, ok, err, Error, db, raw, invalid_value}
use librequiemdb.Field.{field_to_uint64}
use librequiemdb.Plugin.{Plugin}
use librequiemdb.Strings.{Strings}
use librequiemdb.Sql.{Sql, query_sql, escape_text, escape_bytes, fetch_row, fetch_field}
use librequiemdb.Delete.{send_text, query_sprintf}

-- An argument of `requiemdb_sql_insert` with its directive: '%c' in quotes, a 64-bit number, `%d`, `%s`.
pub data Value : Type 0 where
  letter number index : ℕ → Value
  text : Bytes → Value

abbrev pub value_text : Value → Bytes
value_text (letter c) = b'\'' ∷ c ∷ b'\'' ∷ []
value_text (number n) = decimal n
value_text (index n) = print_d n
value_text (text t) = t

-- The formats have their directives behind ", ".
abbrev pub values_text : List Value → Bytes
values_text [] = []
values_text (v ∷ []) = value_text v
values_text (v ∷ w ∷ vs) = value_text v ++ (codes ", " ++ values_text (w ∷ vs))

abbrev pub insert_head : Bytes → Bytes → Bytes
insert_head table fields =
    codes "INSERT INTO " ++ (table ++ (codes " (" ++ (fields ++ codes ") VALUES(")))

-- A program is `strict` if it looks at the result of every insertion. An insertion or an escape may
-- replace the error, and its result goes to what follows.
pub data Program (strict : Bool) (A : Type 0) : Type 0 where
  ret : A → Program strict A
  fail : Error → Program strict A
  escape : Option Error → Option Bytes → (Bytes → Program strict A) → Program strict A
  escape_binary : Bytes → (Bytes → Program strict A) → Program strict A
  insert : Option Error → Bytes → Bytes → List Value → Program strict A → Program strict A
  -- an insertion whose result is passed on and not tested at once
  insert_anyway :
      strict ≡ false → Bytes → Bytes → List Value → (Bool → Program strict A) → Program strict A
  -- `get_last_insert_ident`
  last_insert_ident : Bytes → (ℕ → Program strict A) → Program strict A

infixl 5 ◌>>=◌ ◌>>◌
unfoldable pub ◌>>=◌ : {c : Bool} {A B : Type 0} → Program c A → (A → Program c B) → Program c B
ret x >>= k = k x
fail e >>= k = fail e
escape r i f >>= k = escape r i (λ t. f t >>= k)
escape_binary i f >>= k = escape_binary i (λ t. f t >>= k)
insert r t fs vs m >>= k = insert r t fs vs (m >>= k)
insert_anyway h t fs vs f >>= k = insert_anyway h t fs vs (λ b. f b >>= k)
last_insert_ident t f >>= k = last_insert_ident t (λ n. f n >>= k)

abbrev pub ◌>>◌ : {c : Bool} {B : Type 0} → Program c (Unit {0}) → Program c B → Program c B
m >> n = m >>= λ _. n

abbrev pub replaced : Option Error → Error → Error
replaced none e = e
replaced (some e') e = e'

-- The calls alone, and a result of other code.
abbrev pub escaped : {c : Bool} → Option Bytes → Program c Bytes
escaped input = escape none input (λ t. ret t)

abbrev pub escaped_or : {c : Bool} → Error → Option Bytes → Program c Bytes
escaped_or e input = escape (some e) input (λ t. ret t)

abbrev pub escaped_binary : {c : Bool} → Bytes → Program c Bytes
escaped_binary input = escape_binary input (λ t. ret t)

abbrev pub inserted : {c : Bool} → String → String → List Value → Program c (Unit {0})
inserted table fields values = insert none (codes table) (codes fields) values (ret tt)

abbrev pub inserted_or : {c : Bool} → Error → String → String → List Value → Program c (Unit {0})
inserted_or e table fields values = insert (some e) (codes table) (codes fields) values (ret tt)

abbrev pub inserted_anyway : String → String → List Value → Program false Bool
inserted_anyway table fields values =
    insert_anyway refl (codes table) (codes fields) values (λ b. ret b)

abbrev pub lift : {c : Bool} {A : Type 0} → Option Error → Result A → Program c A
lift r (ok x) = ret x
lift r (err e) = fail (replaced r e)

-- The loop over the items of a list, with `index++`.
unfoldable pub each :
    {c : Bool} {B : Type 0} → ℕ → (ℕ → B → Program c (Unit {0})) → List B → Program c (Unit {0})
each i f [] = ret tt
each i f (x ∷ xs) = f i x >> each (i + 1) f xs

-- What follows it: the last item once more, at the index -1.
unfoldable pub last_item :
    {c : Bool} {B : Type 0} → (ℕ → B → Program c (Unit {0})) → List B → Program c (Unit {0})
last_item f [] = ret tt
last_item f (x ∷ []) = f (2 ^ 32 - 1) x
last_item f (x ∷ y ∷ xs) = last_item f (y ∷ xs)

unfoldable pub indexed :
    {c : Bool} {B : Type 0} → (ℕ → B → Program c (Unit {0})) → List B → Program c (Unit {0})
unfolding each last_item
indexed f xs = each 0 f xs >> last_item f xs

-- `if ( ! item ) return 0`
abbrev pub present :
    {c : Bool} {B : Type 0} → (B → Program c (Unit {0})) → Option B → Program c (Unit {0})
present f none = ret tt
present f (some x) = f x

module _ (p : Plugin) (str : Strings) where
  open p use {World, Res, Row}

  abbrev pub insert_text : Bytes → Bytes → List Value → Result Bytes
  insert_text table fields values = elim (str.cat [] (insert_head table fields)) [
    | err e ↦ err e
    | ok q ↦ elim (str.cat q (values_text values)) [
      | err e ↦ err e
      | ok q' ↦ str.cat q' (codes ")")
    ]
  ]

  -- `requiemdb_sql_insert`
  unfoldable pub sql_insert :
      Bytes → Bytes → List Value → Sql World → Result (Option (Res × ℕ)) × Sql World
  sql_insert table fields values s = send_text p str (insert_text table fields values) s

  abbrev pub number_of : ℕ → Result (Option Bytes) × Sql World → Result ℕ × Sql World
  number_of old (err e, s) = (err e, s)
  number_of old (ok none, s) = (err (raw 1), s)
  number_of old (ok (some value), s) = (field_to_uint64 old value, s)

  abbrev pub first_field : ℕ → Res → Result (Option Row) × Sql World → Result ℕ × Sql World
  first_field old res (err e, s) = (err e, s)
  first_field old res (ok none, s) = (err (raw 1), s)
  first_field old res (ok (some row), s) = number_of old (fetch_field p res row 0 s)

  abbrev pub first_row : ℕ → Result (Option (Res × ℕ)) × Sql World → Result ℕ × Sql World
  first_row old (err e, s) = (err e, s)
  first_row old (ok none, s) = (err (raw 1), s)
  first_row old (ok (some (res, n)), s) = first_field old res (fetch_row p res s)

  -- `get_last_insert_ident`, into a variable that held `old`. `max` gives one row with one field: the
  -- source uses the table, the row and the field without a test, and where one is missing, which
  -- C leaves undefined, this stops with -1.
  unfoldable pub get_last_insert_ident : ℕ → Bytes → Sql World → Result ℕ × Sql World
  unfolding query_sprintf fetch_row fetch_field field_to_uint64
  get_last_insert_ident old table s =
      first_row old (query_sprintf p str (codes "SELECT max(_ident) FROM %s;") table s)

  -- The program on a connection, with what an unset identifier holds.
  unfoldable pub run : {c : Bool} {A : Type 0} → ℕ → Program c A → Sql World → Result A × Sql World
  unfolding sql_insert get_last_insert_ident escape_text escape_bytes
  run old (ret x) s = (ok x, s)
  run old (fail e) s = (err e, s)
  run old (escape r i f) s =
      let (t, s') = escape_text p i s in
      elim t [ err e ↦ (err (replaced r e), s') | ok t ↦ run old (f t) s' ]
  run old (escape_binary i f) s =
      let (t, s') = escape_bytes p i s in elim t [ err e ↦ (err e, s') | ok t ↦ run old (f t) s' ]
  run old (insert r table fields values m) s =
      let (a, s') = sql_insert table fields values s in
      elim a [ err e ↦ (err (replaced r e), s') | ok _ ↦ run old m s' ]
  run old (insert_anyway h table fields values f) s =
      let (a, s') = sql_insert table fields values s in
      elim a [ err e ↦ run old (f false) s' | ok _ ↦ run old (f true) s' ]
  run old (last_insert_ident table f) s =
      let (n, s') = get_last_insert_ident old table s in
      elim n [ err e ↦ (err e, s') | ok n ↦ run old (f n) s' ]
