-- ===== src/Reading.antt =====
-- The functions of plugins/format/classic/classic-get.c as readings: trees of the calls that they make
-- on a connection. A query, a row or a field that is not there is `none`. A loop over rows has its
-- number of rounds for fuel; `exhausted` is a loop that ran out of it.
pub mod Selects
pub mod Tables
use Prim.Native.Nat.{◌^◌}
use librequiemdb.Base.{
  ℕ, suc, zero, ◌+◌, ◌-◌, ◌%◌, List, [], ◌∷◌, ◌++◌, Option, none, some, Bytes, codes, String, ltb,
  if◌then◌else◌,
}
use librequiemdb.Base.Decimal.{decimal, print_d}
use librequiemdb.Error.{Result, ok, err, Error}
use librequiemdb.Plugin.{Plugin}
use librequiemdb.Strings.{Strings}
use librequiemdb.Sql.{Sql, query_sql, fetch_row, fetch_field, unescape_bytes, found_rows}
use librequiemdb.Delete.{send_text}

pub data Reading (Res Row A : Type 0) : Type 0 where
  ret : A → Reading Res Row A
  fail : Error → Reading Res Row A
  exhausted : Reading Res Row A
  -- `requiemdb_sql_query_sprintf`, with `none` for the return value 0
  ask : Bytes → (Result (Option Res) → Reading Res Row A) → Reading Res Row A
  fetch : Res → (Result (Option Row) → Reading Res Row A) → Reading Res Row A
  field : Res → Row → ℕ → (Option Bytes → Reading Res Row A) → Reading Res Row A
  unescape : Bytes → (Bytes → Reading Res Row A) → Reading Res Row A

-- What `while ( (ret = fetch_row(table, &row)) > 0 )` read, and the error that `ret` ended with.
abbrev pub Rows : Type 0 → Type 0
Rows A = List A × Option Error

module _ {Res Row : Type 0} where
  infixl 5 ◌>>=◌
  unfoldable pub ◌>>=◌ :
      {A B : Type 0} → Reading Res Row A → (A → Reading Res Row B) → Reading Res Row B
  ret x >>= k = k x
  fail e >>= k = fail e
  exhausted >>= k = exhausted
  ask q f >>= k = ask q (λ r. f r >>= k)
  fetch res f >>= k = fetch res (λ r. f r >>= k)
  field res row i f >>= k = field res row i (λ v. f v >>= k)
  unescape v f >>= k = unescape v (λ t. f t >>= k)

  -- The calls alone, and a result of other code.
  abbrev pub column : Res → Row → ℕ → Reading Res Row (Option Bytes)
  column res row i = field res row i (λ v. ret v)

  abbrev pub lift : {A : Type 0} → Result A → Reading Res Row A
  lift (ok x) = ret x
  lift (err e) = fail e

  -- `if ( ret <= 0 ) return ret`, behind a query and behind the fetch of a row
  abbrev pub found :
      {A B : Type 0}
      → (A → Reading Res Row (Option B))
      → Result (Option A)
      → Reading Res Row (Option B)
  found k (err e) = fail e
  found k (ok none) = ret none
  found k (ok (some x)) = k x

  abbrev pub kept : {A : Type 0} → Reading Res Row A → Reading Res Row (Option A)
  kept m = m >>= λ a. ret (some a)

  -- The first row of a query.
  unfoldable pub one :
      {A : Type 0} → Bytes → (Res → Row → Reading Res Row A) → Reading Res Row (Option A)
  unfolding ◌>>=◌
  one q k = ask q (found λ res. fetch res (found λ row. kept (k res row)))

  -- A row, given the reading of the rows behind it.
  abbrev pub and_more : {A : Type 0} → Reading Res Row (Rows A) → A → Reading Res Row (Rows A)
  and_more rest a = rest >>= λ more. ret (a ∷ more.0, more.1)

  abbrev pub row_or_end :
      {A : Type 0}
      → (Row → Reading Res Row A)
      → Reading Res Row (Rows A)
      → Result (Option Row)
      → Reading Res Row (Rows A)
  row_or_end k rest (err e) = ret ([], some e)
  row_or_end k rest (ok none) = ret ([], none)
  row_or_end k rest (ok (some row)) = k row >>= and_more rest

  -- The loop over the rows, with `index++`.
  unfoldable pub rows :
      {A : Type 0} → ℕ → ℕ → Res → (ℕ → Row → Reading Res Row A) → Reading Res Row (Rows A)
  unfolding ◌>>=◌
  rows zero i res k = exhausted
  rows (suc n) i res k = fetch res (row_or_end (k i) (rows n (i + 1) res k))

  abbrev pub all_read : {A : Type 0} → Rows A → Reading Res Row (List A)
  all_read (xs, none) = ret xs
  all_read (xs, some e) = fail e

  abbrev pub asked :
      {A : Type 0}
      → (Res → Reading Res Row (List A))
      → Result (Option Res)
      → Reading Res Row (List A)
  asked k (err e) = fail e
  asked k (ok none) = ret []
  asked k (ok (some res)) = k res

  -- The rows of a query.
  unfoldable pub many_indexed :
      {A : Type 0} → ℕ → Bytes → (Res → ℕ → Row → Reading Res Row A) → Reading Res Row (List A)
  unfolding ◌>>=◌ rows
  many_indexed fuel q k = ask q (asked λ res. rows fuel 0 res (k res) >>= all_read)

  unfoldable pub many :
      {A : Type 0} → ℕ → Bytes → (Res → Row → Reading Res Row A) → Reading Res Row (List A)
  unfolding many_indexed
  many fuel q k = many_indexed fuel q (λ res i row. k res row)

  -- The loop over the items that were read, with `cnt++`.
  unfoldable pub each :
      {A B : Type 0} → ℕ → (ℕ → A → Reading Res Row B) → List A → Reading Res Row (List B)
  unfolding ◌>>=◌
  each i f [] = ret []
  each i f (x ∷ xs) = f i x >>= λ y. each (i + 1) f xs >>= λ ys. ret (y ∷ ys)

  -- An error of the loop over the rows is overwritten by the first item.
  abbrev pub each_read :
      {A B : Type 0} → (ℕ → A → Reading Res Row B) → Rows A → Reading Res Row (List B)
  each_read f ([], none) = ret []
  each_read f ([], some e) = fail e
  each_read f (x ∷ xs, e) = each 0 f (x ∷ xs)

  -- The rows of a query, and then more for each of them.
  unfoldable pub many_then :
      {A B : Type 0}
      → ℕ
      → Bytes
      → (Res → Row → Reading Res Row A)
      → (ℕ → A → Reading Res Row B)
      → Reading Res Row (List B)
  unfolding ◌>>=◌ rows each
  many_then fuel q k f = ask q (asked λ res. rows fuel 0 res (λ i row. k res row) >>= each_read f)

-- The texts of the queries.
abbrev pub select : String → String → Bytes
select fields table = codes "SELECT " ++ (codes fields ++ (codes " FROM " ++ codes table))

abbrev pub of_message : ℕ → Bytes
of_message ident = codes " WHERE _message_ident = " ++ decimal ident

abbrev pub of_parent : ℕ → ℕ → Bytes
of_parent parent_type ident =
    codes " WHERE _parent_type = '"
    ++ parent_type ∷ (codes "' AND _message_ident = " ++ decimal ident)

abbrev pub at : String → ℕ → Bytes
at index i = codes " AND " ++ (codes index ++ (codes " = " ++ print_d i))

abbrev pub listed : Bytes
listed = codes " AND _index != -1"

abbrev pub in_order : Bytes
in_order = listed ++ codes " ORDER BY _index ASC"

-- A `char` argument for an index: the lower 8 bits, with a sign.
abbrev pub as_char : ℕ → ℕ
as_char i = if ltb (i % 256) 128 then i % 256 else i % 256 + (2 ^ 32 - 256)

module _ (p : Plugin) (str : Strings) where
  open p use {World, Res, Row}

  -- The reading on a connection; `none` for a loop that ran out of fuel.
  unfoldable pub read : {A : Type 0} → Reading Res Row A → Sql World → Option (Result A) × Sql World
  unfolding query_sql fetch_row fetch_field unescape_bytes
  read (ret x) s = (some (ok x), s)
  read (fail e) s = (some (err e), s)
  read exhausted s = (none, s)
  read (ask q f) s = let (r, s') = send_text p str (str.cat [] q) s in read (f (found_rows p r)) s'
  read (fetch res f) s = let (r, s') = fetch_row p res s in read (f r) s'
  read (field res row i f) s =
      let (r, s') = fetch_field p res row i s in
      elim r [ err e ↦ (some (err e), s') | ok v ↦ read (f v) s' ]
  read (unescape v f) s =
      let (r, s') = unescape_bytes p v s in
      elim r [ err e ↦ (some (err e), s') | ok t ↦ read (f t) s' ]
