-- ===== src/Classic/Join.antt =====
-- plugins/format/classic/classic-sql-join.c: the tables that a query joins to its top table.
pub mod Tables
use Prim.Native.Nat.{◌^◌}
use librequiemdb.Base.{
  ℕ, ◌%◌, zero, suc, ◌+◌, ◌-◌, Bool, true, false, not, ◌&&◌, ◌||◌, List, [], ◌∷◌, ◌++◌, Option,
  none, some, ◌==◌, ltb, if◌then◌else◌, Bytes, codes, same,
}
use librequiemdb.Base.Decimal.{decimal, print_d}
use librequiemdb.Error.{Result, ok, err, db, raw, query, ◌>>=◌}
use librequiemdb.Strings.{Strings}
use librequiemdb.Idmef.{
  Class, alert, heartbeat, classification, assessment, overflow_alert, tool_alert,
  correlation_alert, source, target, file, file_access, user_id, alertident, same_class, Index, at,
  last, undefined, forbidden, Paths,
}

-- `struct classic_sql_joined_table`; a `parent_type` of 0 is `none`.
pub record JoinedTable (P : Type 0) : Type 0 where
  pub path : P
  pub table_name : Bytes
  pub aliased_table_name : Bytes
  pub parent_type : Option ℕ
  pub index_constraints : Bytes

-- `struct classic_sql_join`; a `top_class` of 0 is `none`.
pub record Join (P : Type 0) : Type 0 where
  pub top_class : Option Class
  pub tables : List (JoinedTable P)
  pub next_id : ℕ

-- `classic_sql_join_new`
abbrev pub new : {P : Type 0} → Join P
new = record { top_class = none; tables = []; next_id = 0 }

-- `classic_sql_join_set_top_class`
abbrev pub set_top_class : {P : Type 0} → Join P → Class → Join P
set_top_class j c = record j { top_class = some c }

abbrev pub is_forbidden : Index → Bool
is_forbidden forbidden = true
is_forbidden _ = false

-- `sprintf(alias, "t%d", id)` of an `unsigned int`
abbrev pub alias : ℕ → Bytes
alias n = b't' ∷ print_d n

-- the operator and the number of `add_index_constraint`
abbrev pub index_text : Index → Bytes
index_text (at n) = codes "= " ++ decimal n
index_text last = codes "= -1"
index_text undefined = codes "!= -1"
index_text forbidden = codes "!= -1"

module _ (str : Strings) (paths : Paths) where
  open paths use {Path', depth, class_of, name, index, is_time, compare, ncompare}

  -- the test of `classic_sql_join_lookup_table` on one table
  unfoldable pub is_table_of : Path' → JoinedTable Path' → Bool
  is_table_of path table =
      let d = depth path in
      let whole =
        not (is_forbidden (index path (d - 1)))
        || (is_time path && not (same_class (class_of path (d - 2)) file)) in
      d == depth table.path
      && (if whole then compare path table.path else ncompare path table.path (d - 1))

  find_table : Path' → List (JoinedTable Path') → Option (JoinedTable Path')
  find_table path [] = none
  find_table path (t ∷ ts) = if is_table_of path t then some t else find_table path ts

  -- `classic_sql_join_lookup_table`
  unfoldable pub lookup_table : Join Path' → Path' → Option (JoinedTable Path')
  unfolding find_table
  lookup_table j path = find_table path j.tables

  file_parent_type : Path' → Option ℕ
  file_parent_type path =
      if same_class (class_of path 3) file_access && same_class (class_of path 4) user_id
      then some b'F'
      else none

  target_parent_type : Path' → Option ℕ
  unfolding file_parent_type
  target_parent_type path =
      if depth path == 3
      then none
      else if same_class (class_of path 2) file
      then file_parent_type path
      else some b'T'

  source_parent_type : Path' → Option ℕ
  source_parent_type path = if ltb 3 (depth path) then some b'S' else none

  -- `resolve_tool_alert_parent_type` and `resolve_correlation_alert_parent_type`
  listed_parent_type : ℕ → Path' → Option ℕ
  listed_parent_type letter path =
      if same_class (class_of path 2) alertident then some letter else none

  default_parent_type : Path' → Option ℕ
  default_parent_type path =
      if same (name path (depth path - 1)) (codes "detect_time") then none else some b'A'

  alert_parent_type : Class → Path' → Option ℕ
  unfolding target_parent_type source_parent_type listed_parent_type default_parent_type
  alert_parent_type classification path = none
  alert_parent_type assessment path = none
  alert_parent_type overflow_alert path = none
  alert_parent_type tool_alert path = listed_parent_type b'T' path
  alert_parent_type correlation_alert path = listed_parent_type b'C' path
  alert_parent_type source path = source_parent_type path
  alert_parent_type target path = target_parent_type path
  alert_parent_type _ path = default_parent_type path

  -- `resolve_parent_type`
  unfoldable pub resolve_parent_type : Path' → Option ℕ
  unfolding alert_parent_type
  resolve_parent_type path =
      if same_class (class_of path 0) heartbeat
      then some b'H'
      else alert_parent_type (class_of path 1) path

  constraint_separator : Bytes → Result Bytes
  constraint_separator [] = ok []
  constraint_separator (c ∷ s) = str.cat (c ∷ s) (codes " AND ")

  -- `add_index_constraint`; a parent level of -1 is `none`.
  abbrev level_text : Option ℕ → Bytes
  level_text none = codes "._index "
  level_text (some n) = codes "._parent" ++ (decimal n ++ codes "_index ")

  unfoldable pub add_index_constraint : Bytes → Bytes → Option ℕ → Index → Result Bytes
  unfolding constraint_separator
  add_index_constraint table_alias out level i = do
    out' ← constraint_separator out
    str.cat out' (table_alias ++ (level_text level ++ index_text i))

  -- The loop of `resolve_indexes` over the depths from `d` on, with the rounds left.
  index_loop : Path' → Bytes → ℕ → ℕ → ℕ → Bytes → Result Bytes
  index_loop path table_alias zero d level out = ok out
  index_loop path table_alias (suc n) d level out =
      let skip = index_loop path table_alias n (d + 1) level out in
      let constrain = (do
        out' ← add_index_constraint table_alias out (some level) (index path d)
        index_loop path table_alias n (d + 1) (level + 1) out') in
      if is_forbidden (index path d) then skip else constrain

  last_index : Path' → Bytes → Bytes → Result Bytes
  last_index path table_alias out =
      let i1 = index path (depth path - 1) in
      let i2 = index path (depth path - 2) in
      if not (is_forbidden i1)
      then add_index_constraint table_alias out none i1
      else if not (is_forbidden i2)
      then add_index_constraint table_alias out none i2
      else ok out

  -- `resolve_indexes`: the text of the constraints
  unfoldable pub resolve_indexes : Path' → Bytes → Result Bytes
  unfolding index_loop last_index add_index_constraint
  resolve_indexes path table_alias = if ltb (depth path) 2 then err (db query) else do
    out ← index_loop path table_alias (depth path - 3) 1 0 []
    last_index path table_alias out

  abbrev table_of : Join Path' → Path' → Bytes → Bytes → JoinedTable Path'
  table_of j path table_name constraints = record {
    path = path;
    table_name = table_name;
    aliased_table_name = alias j.next_id;
    parent_type = resolve_parent_type path;
    index_constraints = constraints;
  }

  -- The table is added at the end of the list; its number is used up even where its constraints fail.
  add_table : Join Path' → Path' → Bytes → Result Bytes → Join Path' × Result (JoinedTable Path')
  add_table j path table_name (err e) = (record j { next_id = (j.next_id + 1) % 2 ^ 32 }, err e)
  add_table j path table_name (ok constraints) =
      let t : JoinedTable Path' = table_of j path table_name constraints in
      (record j { tables = j.tables ++ t ∷ []; next_id = (j.next_id + 1) % 2 ^ 32 }, ok t)

  top_conflicts : Option Class → Class → Bool
  top_conflicts none c = false
  top_conflicts (some t) c = not (same_class c t)

  -- `classic_sql_join_new_table`: the join and the new table or the error
  unfoldable pub new_table : Join Path' → Path' → Bytes → Join Path' × Result (JoinedTable Path')
  unfolding add_table top_conflicts
  new_table j path table_name =
      if top_conflicts j.top_class (class_of path 0)
      then (j, err (raw 1))
      else add_table (set_top_class j (class_of path 0)) path table_name
          (resolve_indexes path (alias j.next_id))

  abbrev parent_text : Bytes → Option ℕ → Bytes
  parent_text table_alias none = []
  parent_text table_alias (some letter) =
      table_alias ++ (codes "._parent_type='" ++ letter ∷ codes "' AND ")

  abbrev constraint_text : Bytes → Bytes
  constraint_text [] = []
  constraint_text (c ∷ s) = codes " AND " ++ c ∷ s

  cat_parent : Bytes → Bytes → Option ℕ → Result Bytes
  cat_parent out table_alias none = ok out
  cat_parent out table_alias (some letter) = str.cat out (parent_text table_alias (some letter))

  cat_constraints : Bytes → Bytes → Result Bytes
  cat_constraints out [] = ok out
  cat_constraints out (c ∷ s) = str.cat out (constraint_text (c ∷ s))

  -- `classic_joined_table_to_string`
  unfoldable pub table_to_string : JoinedTable Path' → Bytes → Result Bytes
  unfolding cat_parent cat_constraints
  table_to_string t out = do
    let a = t.aliased_table_name
    o1 ←
        str.cat out
          (codes " LEFT JOIN " ++ (t.table_name ++ (codes " AS " ++ (a ++ codes " ON ("))))
    o2 ← cat_parent o1 a t.parent_type
    o3 ← str.cat o2 (a ++ codes "._message_ident=top_table._ident")
    o4 ← cat_constraints o3 t.index_constraints
    str.cat o4 (codes ")")

  tables_to_string : List (JoinedTable Path') → Bytes → Result Bytes
  tables_to_string [] out = ok out
  tables_to_string (t ∷ ts) out = do out' ← table_to_string t out; tables_to_string ts out'

  abbrev top_table : Option Class → Bytes
  top_table (some alert) = codes "Requiem_Alert"
  top_table _ = codes "Requiem_Heartbeat"

  -- `classic_sql_join_to_string`
  unfoldable pub to_string : Join Path' → Bytes → Result Bytes
  unfolding tables_to_string table_to_string
  to_string j out = do
    out' ← str.cat out (top_table j.top_class ++ codes " AS top_table")
    tables_to_string j.tables out'
