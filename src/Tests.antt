-- ===== src/Tests.antt =====
-- Concrete instances of the parameters of the model: a table of settings, a database server that
-- keeps the list of what it was asked, strings while memory lasts, and paths; and the examples of
-- the theorems at concrete inputs, of the code under src/ and plugins/format/classic/.
mod Insert
mod Get
use librequiemdb.Base.{
  ℕ, ◌+◌, Bool, true, false, not, sym, List, [], ◌∷◌, ◌++◌, ◌≡◌, ◌≤◌, ◌≢◌, ◌==◌, refl, Option, none,
  some, Bytes, codes, same, inl, inr, arith, length, if◌then◌else◌,
}
use librequiemdb.Base.Decimal.{decimal, print_d}
use librequiemdb.Error.{
  Result, ok, err, db, is_connection, connection, query, not_in_transaction,
  invalid_settings_string,
}
use librequiemdb.Strings.{plenty, plenty-Appends}
use librequiemdb.Plugin.{Plugin}
use librequiemdb.Settings.{Hash, set_from_string, get_value, value_loop, is_name}
use librequiemdb.Settings.Value.{length-get_value}
use librequiemdb.Settings.Print.{
  print, set_each, set_from_string_total, set_from_string-print, set_from_string-quoted_end,
}
use librequiemdb.Sql.{Sql, fresh, query_sql, do_end, do_abort, transaction_start, transaction_abort}
use librequiemdb.Sql.Lock.{Call, start, abort, send, escape, calls, Holds, calls-Holds, lock_leak}
use librequiemdb.Sql.Trace.{Event, opening, sent, closing, is_ok, Observes}
use librequiemdb.Delete.{
  heartbeat, queries, delete_message, get_string_from_ident_list, get_string_from_result_ident,
  equals,
}
use librequiemdb.Delete.Commit.{AllOrNothing, delete_message-AllOrNothing}
use librequiemdb.Delete.Atomic.{delete_message-restores}
use librequiemdb.Delete.Idents.{read_idents, seen, read_idents-list, read_idents-results}
use librequiemdb.Criterion.{like_value}
use librequiemdb.Criterion.Like.{
  is_plain, char, any_text, glob_tokens, like_tokens, tokens-like_value, like_value_percent,
}
use librequiemdb.Classic.Select.{Select, empty, add_field, order_text}
use librequiemdb.Classic.Select.Columns.{
  columns, joined, add_fields, total, add_field-columns, order_position,
}
use librequiemdb.Selection.{group_by, order_asc, order_desc, function_max, new_string}
use librequiemdb.Selection.Parse.{new_string-print}
use librequiemdb.Selection.Parse.Filters.{max, grouped, descending}
use librequiemdb.Idmef.{alert, source, at, forbidden, Paths, Compares}
use librequiemdb.Classic.Join.{
  Join, JoinedTable, new, new_table, resolve_indexes, lookup_table, is_table_of, alias,
}
use librequiemdb.Classic.Join.Tables.{IsFree, new_tables, new_tables-aliases, new_table-lookup}
use librequiemdb.Classic.Resolve.{class_table, resolve, resolve_table_name, resolve_field_name}
use librequiemdb.Classic.Resolve.Names.{split_words, is_words, class_table-split_words}
use librequiemdb.Classic.Criteria.{absent, linked, Builder, resolve_criteria, resolve_criterion}
use librequiemdb.Classic.Criteria.Meaning.{term, Condition, Writes, resolve_criteria-meaning}
use librequiemdb.Plugin.Defaults.{default_escape_binary}
use librequiemdb.Plugin.Defaults.Hex.{read_literal, read_literal-default_escape_binary}

abbrev plain : Bytes → Result Bytes
plain t = ok t

-- A table of settings that keeps every pair, the last first.
abbrev look_up : List (Bytes × Bytes) → Bytes → Option Bytes
look_up [] k = none
look_up ((k', v) ∷ kvs) k = if same k k' then some v else look_up kvs k

abbrev pairs : Hash
pairs = record {
  Table = List (Bytes × Bytes);
  new = ok [];
  set = λ t k v. ((k, v) ∷ t, ok tt);
  get = look_up;
}

-- A server that refuses one statement, and loses the connection at another.
abbrev answer : Bytes → Result (Option ℕ)
answer q =
    if same q (codes "refused")
    then err (db query)
    else if same q (codes "lost")
    then err (db connection)
    else ok none

abbrev server : Plugin
server = record {
  World = List Event;
  Res = ℕ;
  Row = ℕ;
  open_session = λ w. (ok tt, w ++ opening true ∷ []);
  close = λ w. w ++ closing ∷ [];
  query = λ q w. (answer q, w ++ sent q (is_ok (answer q)) ∷ []);
  escape = λ s w. (ok s, w);
  escape_binary = λ s w. (ok s, w);
  unescape_binary = λ s w. (ok s, w);
  row_count = λ r w. 0;
  fetch_row = λ r w. (ok none, w);
  fetch_field = λ r row n w. (ok none, w);
  column_num = λ r name w. ok 0;
  thread_error = λ w. false;
}

abbrev asked : List Event → List Event
asked w = w

abbrev server-Observes : Observes server asked
server-Observes = record { of_open = λ w. refl; of_close = λ w. refl; of_query = λ q w. refl }

abbrev idle : Sql (List Event)
idle = fresh []

delete_message-AllOrNothing_example :
    AllOrNothing server plenty plenty-Appends asked server-Observes
      (queries heartbeat)
      (codes "= 7")
      idle
      (delete_message server plenty (queries heartbeat) (codes "= 7") idle)
delete_message-AllOrNothing_example =
    delete_message-AllOrNothing server plenty plenty-Appends asked server-Observes heartbeat
      (codes "= 7") idle refl refl

delete_message-restores_example :
    ((delete_message server plenty (codes "refused" ∷ []) (codes "= 7") idle).1.transaction ≡ false)
    × ((delete_message server plenty (codes "refused" ∷ []) (codes "= 7") idle).1.lock ≡ idle.lock)
delete_message-restores_example =
    delete_message-restores server plenty (codes "refused" ∷ []) (codes "= 7") idle refl

-- A connection is opened, a transaction begun, a statement refused, and the transaction aborted.
abbrev session : List (Call ℕ ℕ)
session = start ∷ send (codes "refused") ∷ abort ∷ escape (some (codes "x")) ∷ []

calls-Holds_example : Holds 0 (calls server session idle)
unfolding transaction_start transaction_abort query_sql same is_connection
calls-Holds_example =
    calls-Holds server session 0 idle (tt, ((λ _. refl), (tt, ((λ _. refl), tt))))
      (record { held = refl })

abbrev lost : Sql (List Event)
lost = record idle { transaction = true; lock = 1 }

lock_leak_example :
    ((query_sql server (codes "SELECT 1") lost).1.transaction ≡ false)
    × ((query_sql server (codes "SELECT 1") lost).1.lock ≡ 1)
    × (do_end server (query_sql server (codes "SELECT 1") lost).1
        ≡ (err (db not_in_transaction), (query_sql server (codes "SELECT 1") lost).1))
    × (do_abort server (query_sql server (codes "SELECT 1") lost).1
        ≡ (err (db not_in_transaction), (query_sql server (codes "SELECT 1") lost).1))
lock_leak_example = lock_leak server (codes "SELECT 1") lost refl refl refl

abbrev two_settings : List (Bytes × Bytes)
two_settings = (codes "host", codes "a 'b'") ∷ (codes "name", codes "") ∷ []

set_from_string-print_example :
    set_from_string pairs [] (print b'\'' two_settings) ≡ some (set_each pairs [] two_settings)
unfolding is_name
set_from_string-print_example = set_from_string-print pairs b'\'' two_settings [] (inl refl) (
  ((λ e. cc), (refl, (refl, (refl, (refl, tt))))),
  (((λ e. cc), (refl, (refl, (refl, (refl, tt))))), tt),
)

set_from_string_total_example :
    (r : List (Bytes × Bytes) × Result (Unit {0})) × (set_from_string pairs [] (codes "host=a")
      ≡ some r)
set_from_string_total_example = set_from_string_total pairs [] (codes "host=a")

set_from_string-quoted_end_example :
    set_from_string pairs [] (codes "host=\"a\"") ≡ some ([], err (db invalid_settings_string))
unfolding is_name
set_from_string-quoted_end_example =
    set_from_string-quoted_end pairs b'"' (codes "host") (codes "a") [] (inr refl)
      ((λ e. cc), (refl, (refl, (refl, (refl, tt)))))

length-get_value_example : length (codes "a b") + length (codes " c=d") ≤ length (codes "'a b' c=d")
unfolding get_value value_loop
length-get_value_example = length-get_value (codes "'a b' c=d") refl

read_idents-list_example :
    (t : Bytes) × (get_string_from_ident_list plenty (3 ∷ 40 ∷ []) ≡ ok (t, 2))
    × (read_idents t ≡ 3 ∷ 40 ∷ [])
read_idents-list_example = read_idents-list plenty plenty-Appends (3 ∷ 40 ∷ [])

read_idents-results_example :
    (t : Bytes) × (get_string_from_result_ident plenty 0 (some 3 ∷ none ∷ some 4 ∷ [])
      ≡ ok (some (t, 3)))
    × (read_idents t ≡ 3 ∷ 3 ∷ 4 ∷ [])
unfolding seen
read_idents-results_example =
    read_idents-results plenty plenty-Appends 0 (some 3) (none ∷ some 4 ∷ [])

abbrev pattern : Bytes
pattern = codes "a*\\*"

tokens-like_value_example :
    like_tokens false (like_value plenty pattern) ≡ char b'a' ∷ any_text ∷ char b'*' ∷ []
unfolding glob_tokens is_plain
tokens-like_value_example = tokens-like_value plenty plenty-Appends pattern refl

like_value_percent_example :
    (like_tokens false (like_value plenty (codes "\\%x"))
      ≡ char b'\\' ∷ any_text ∷ like_tokens false (like_value plenty (codes "x")))
    × (glob_tokens false (codes "\\%x") ≡ char b'%' ∷ glob_tokens false (codes "x"))
like_value_percent_example = like_value_percent plenty plenty-Appends (codes "x")

add_field-columns_example :
    (t : Select) × (add_field plenty empty (codes "a, b, c") (group_by + order_asc) ≡ ok t)
    × (columns t.fields ≡ columns [] + columns (codes "a, b, c"))
    × (t.field_count ≡ 1)
    × (t.group_by ≡ print_d 1)
    × (t.order_by ≡ print_d 1 ++ codes " ASC")
add_field-columns_example =
    add_field-columns plenty plenty-Appends empty (codes "a, b, c") (group_by + order_asc) (λ e. cc)
      (omega arith)

order_position_example :
    (t u : Select) × (add_fields plenty plenty-Appends empty ((codes "a, b, c", 0) ∷ []) ≡ ok t)
    × (add_field plenty t (codes "d") order_desc ≡ ok u)
    × (columns t.fields ≡ total ((codes "a, b, c", 0) ∷ []))
    × (u.order_by ≡ joined t.order_by (order_text order_desc 2))
order_position_example =
    order_position plenty plenty-Appends ((codes "a, b, c", 0) ∷ []) (codes "d") order_desc
      ((λ e. cc), tt) (λ e. cc) refl (omega arith)

new_string-print_example :
    new_string plain (codes "max(alert.ident)/group_by,order_desc")
    ≡ ok (record { path = codes "alert.ident"; flags = function_max + group_by + order_desc })
new_string-print_example =
    new_string-print plain (some max) (codes "alert.ident") (grouped ∷ descending ∷ []) (record {
      no_slash = omega arith;
      no_open = omega arith;
      no_close = omega arith;
      fits = omega arith;
    })

-- Paths alert.source(n).ident, by their number n.
abbrev sources : Paths
sources = record {
  Path' = ℕ;
  depth = λ p. 3;
  class_of = λ p d. if d == 0 then alert else source;
  class_name = λ p d. codes "Source";
  name = λ p d. codes "ident";
  index = λ p d. if d == 1 then at p else forbidden;
  is_time = λ p. false;
  compare = λ p q. p == q;
  ncompare = λ p q n. p == q;
}

sources-Compares : Compares sources
sources-Compares = record { compare_self = λ p. ground arith; ncompare_self = λ p n. ground arith }

abbrev requests : List (ℕ × Bytes)
requests = (4, codes "Requiem_Source") ∷ (5, codes "Requiem_Source") ∷ []

abbrev joined_tables : Join ℕ
joined_tables = new_tables plenty sources new requests

new_tables-aliases_example : alias 0 ≢ alias 1
unfolding new_table resolve_indexes
new_tables-aliases_example =
    new_tables-aliases plenty sources requests 0 1 _ _ (omega arith) (omega arith) refl refl

abbrev after : Join ℕ
after = new_tables plenty sources new ((4, codes "Requiem_Source") ∷ [])

new_table-lookup_example :
    IsFree plenty sources none 4
    × (after.top_class ≡ some alert)
    × (s : JoinedTable ℕ) × (lookup_table plenty sources after 4 ≡ some s)
    × (is_table_of plenty sources 4 s ≡ true)
unfolding new_table resolve_indexes
new_table-lookup_example =
    new_table-lookup plenty sources sources-Compares new after 4 (codes "Requiem_Source") _ refl

class_table-split_words_example :
    (t : Bytes) × (class_table plenty (codes "user_id") ≡ ok (codes "Requiem_" ++ t))
    × (split_words true t ≡ codes "user_id")
unfolding is_words
class_table-split_words_example =
    class_table-split_words plenty plenty-Appends (codes "user_id") refl

-- A criterion is a number, which is its own text, and holds unless it is 0.
abbrev numbers : Builder ℕ
numbers = record {
  Criterion = ℕ;
  State = Unit {0};
  path = λ c. 4;
  build = λ field c out st. (ok (out ++ decimal c), st);
}

-- The text of a number, which holds unless the number is 0.
abbrev IsNumber : Bytes → Bool → Type 0
IsNumber t v = (n : ℕ) × (t ≡ decimal n) × (v ≡ not (n == 0))

abbrev holds : ℕ → Bool
holds n = not (n == 0)

numbers-Writes : Writes numbers IsNumber holds
numbers-Writes = record {
  of_build = λ field c out out' st e.
      let same : out ++ decimal c ≡ out' = cc in (decimal c, sym same, (c, refl, refl));
}

resolve_criteria-meaning_example :
    (t : Bytes) × (codes "((1 AND 0) OR (2))" ≡ [] ++ t) × Condition IsNumber term t true
unfolding resolve_criteria resolve_criterion resolve resolve_table_name resolve_field_name new_table
    resolve_indexes lookup_table decimal is_table_of
resolve_criteria-meaning_example =
    resolve_criteria-meaning plenty plenty-Appends sources numbers IsNumber holds numbers-Writes 1
      (linked 0 absent absent) (linked 2 absent absent) [] (new, tt) (codes "((1 AND 0) OR (2))")
      refl

read_literal-default_escape_binary_example :
    (t : Bytes) × (default_escape_binary (0 ∷ 39 ∷ 255 ∷ []) ≡ ok t)
    × (read_literal t ≡ 0 ∷ 39 ∷ 255 ∷ [])
    × (length t + 1 ≡ 10)
read_literal-default_escape_binary_example =
    read_literal-default_escape_binary (0 ∷ 39 ∷ 255 ∷ [])
      (omega arith, (omega arith, (omega arith, tt))) (omega arith)
