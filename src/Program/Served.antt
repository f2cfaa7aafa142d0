-- ===== src/Program/Served.antt =====
-- Programs over a server that answers every call: what they send is read off the program.
pub mod Runs
use Prim.Native.Nat.{◌^◌}
use librequiemdb.Base.{
  ℕ, ◌<◌, ◌-◌, if◌then◌else◌, ltb, Bool, true, false, List, [], ◌∷◌, ◌++◌, ◌≡◌, ◌∙◌, refl, sym,
  subst, ap, Option, none, some, Bytes, codes, arith, append_assoc, append-nil,
}
use librequiemdb.Base.Decimal.{
  decimal, decimal-cons, read_from, read_from-decimal, is_digit, digit_facts,
}
use librequiemdb.Error.{Error, Result, ok, err}
use librequiemdb.Plugin.{Plugin}
use librequiemdb.Strings.{Strings, Appends}
use librequiemdb.Sql.{Sql, query_sql, escape_text, escape_bytes, fetch_row, fetch_field}
use librequiemdb.Sql.Trace.{is_ok}
use librequiemdb.Delete.{format_s, send_text, query_sprintf}
use librequiemdb.Program.{
  Program, ret, fail, escape, escape_binary, insert, insert_anyway, last_insert_ident, Value,
  values_text, replaced, insert_head, insert_text, sql_insert, get_last_insert_ident, run,
  first_row, first_field, number_of,
}
use librequiemdb.Field.{field_to_uint64}

abbrev pub max_query : Bytes → Bytes
max_query table = format_s (codes "SELECT max(_ident) FROM %s;") table

-- Every query succeeds, and `sent` reads off the world what was sent; the largest identifier is `n`,
-- and `quoted` and `quoted_binary` are the texts that the two escapes give.
pub record Serves (p : Plugin) (sent : p.World → List Bytes) (quoted quoted_binary : Bytes → Bytes)
    (n : ℕ) : Type 0 where
  pub of_query : (q : Bytes) (w : p.World) → (r : Option p.Res) × ((p.query q w).0 ≡ ok r)
  pub of_sent : (q : Bytes) (w : p.World) → sent (p.query q w).1 ≡ sent w ++ q ∷ []
  pub of_max :
      (table : Bytes) (w : p.World) → (r : p.Res) × ((p.query (max_query table) w).0 ≡ ok (some r))
  pub of_row : (r : p.Res) (w : p.World) → (row : p.Row) × (p.fetch_row r w ≡ (ok (some row), w))
  pub of_field :
      (r : p.Res) (row : p.Row) (w : p.World) → p.fetch_field r row 0 w ≡ (ok (some (decimal n)), w)
  pub of_escape : (i : Bytes) (w : p.World) → p.escape i w ≡ (ok (quoted i), w)
  pub of_escape_binary : (i : Bytes) (w : p.World) → p.escape_binary i w ≡ (ok (quoted_binary i), w)
  pub small : n < 2 ^ 64

abbrev pub insertion : Bytes → Bytes → List Value → Bytes
insertion table fields values = (insert_head table fields ++ values_text values) ++ codes ")"

-- The statements of a program, and its result.
module _ (quoted quoted_binary : Bytes → Bytes) (n : ℕ) where
  abbrev pub quoted_text : Option Bytes → Bytes
  quoted_text none = codes "NULL"
  quoted_text (some i) = quoted i

  unfoldable pub statements : {c : Bool} {A : Type 0} → Program c A → List Bytes
  statements (ret x) = []
  statements (fail e) = []
  statements (escape r i f) = statements (f (quoted_text i))
  statements (escape_binary i f) = statements (f (quoted_binary i))
  statements (insert r table fields values m) = insertion table fields values ∷ statements m
  statements (insert_anyway h table fields values f) =
      insertion table fields values ∷ statements (f true)
  statements (last_insert_ident table f) = max_query table ∷ statements (f n)

  unfoldable pub outcome : {c : Bool} {A : Type 0} → Program c A → Result A
  outcome (ret x) = ok x
  outcome (fail e) = err e
  outcome (escape r i f) = outcome (f (quoted_text i))
  outcome (escape_binary i f) = outcome (f (quoted_binary i))
  outcome (insert r table fields values m) = outcome m
  outcome (insert_anyway h table fields values f) = outcome (f true)
  outcome (last_insert_ident table f) = outcome (f n)
