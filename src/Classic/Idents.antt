-- ===== src/Classic/Idents.antt =====
-- plugins/format/classic/classic.c: the request for the identifiers of messages and its rows. The criteria are those
-- of Classic/Criteria with the texts of Criterion/Build, over the connection that escapes their values.
-- `limited` appends the limit and the offset of the request as the SQL plugin writes them, and
-- `create_time` is the path of that name under a class.
pub mod Keeping
use librequiemdb.Base.{ℕ, Bool, true, false, List, [], ◌∷◌, ◌++◌, Option, none, some, Bytes, codes}
use librequiemdb.Error.{Result, ok, err, ◌>>=◌}
use librequiemdb.Plugin.{Plugin}
use librequiemdb.Strings.{Strings}
use librequiemdb.Sql.{Sql, query_sql, fetch_row, fetch_field}
use librequiemdb.Field.{field_to_uint64}
use librequiemdb.Idmef.{Class, Paths}
use librequiemdb.Time.{Clock}
use librequiemdb.Selection.{order_asc, order_desc}
use librequiemdb.Criterion.Build.{Dialect, CriterionValue, build_criterion}
use librequiemdb.Classic.Select.{Select, empty, add_field, fields_to_string, modifiers_to_string}
use librequiemdb.Classic.Join.{Join, new, set_top_class, to_string}
use librequiemdb.Classic.Resolve.{resolve_selected}
use librequiemdb.Classic.Criteria.{Criteria, absent, linked, is_present, Builder, resolve_criteria}

-- `requiemdb_result_idents_order_t`
pub data Order : Type 0 where
  order_by_none order_by_create_time_desc order_by_create_time_asc : Order

abbrev pub where_text : Strings → Bool → Bytes → Bytes → Result Bytes
where_text str false conditions out = ok out
where_text str true conditions out = do
  out' ← str.cat out (codes " WHERE ")
  str.cat out' conditions

module _ (p : Plugin) (str : Strings) (clock : Clock) (d : Dialect) (paths : Paths) where
  open p use {World}
  open paths use {Path'}

  -- The implementation of the interface: a path, an operator and a value.
  abbrev pub builder : Builder Path'
  builder = record {
    Criterion = Path' × d.Operator × CriterionValue;
    State = Sql World;
    path = λ c. c.0;
    build = λ field c out s. build_criterion str d p clock field c.1 c.2 out s;
  }

module _ (p : Plugin) (str : Strings) (clock : Clock) (d : Dialect) (paths : Paths)
    (create_time : Class → Result paths.Path') (limited : Bytes → Result Bytes) where
  open p use {World, Res, Row}
  open paths use {Path'}

  abbrev pub conditions_by : Builder Path'
  conditions_by = builder p str clock d paths

  abbrev order_flag : Order → ℕ
  order_flag order_by_create_time_desc = order_desc
  order_flag _ = order_asc

  -- `get_message_idents_set_order`
  unfoldable pub set_order : Class → Order → Join Path' → Select → Join Path' × Result Select
  unfolding resolve_selected
  set_order c order_by_none j select = (j, ok select)
  set_order c order j select = elim (create_time c) [
    | err e ↦ (j, err e)
    | ok path ↦
        resolve_selected str paths (record { path = path; flags = order_flag order }) j select
  ]

  -- The text of the query.
  unfoldable pub idents_text : Join Path' → Select → Bool → Bytes → Result Bytes
  idents_text j select restricted conditions = do
    out ← str.cat [] (codes "SELECT ")
    out ← fields_to_string str select out
    out ← str.cat out (codes " FROM ")
    out ← to_string str paths j out
    out ← where_text str restricted conditions out
    out ← modifiers_to_string str select out
    limited out

  abbrev pub sent_text : Result Bytes → Sql World → Result (Option (Res × ℕ)) × Sql World
  sent_text (err e) s = (err e, s)
  sent_text (ok q) s = query_sql p q s

  abbrev pub restricted_by :
      Criteria conditions_by.Criterion
      → Select
      → (Join Path' × Sql World) × Result Bytes
      → Result (Option (Res × ℕ)) × Sql World
  restricted_by criteria select ((j, s), err e) = (err e, s)
  restricted_by criteria select ((j, s), ok conditions) =
      sent_text (idents_text j select (is_present criteria) conditions) s

  abbrev pub ordered_by :
      Criteria conditions_by.Criterion
      → Join Path' × Result Select
      → Sql World
      → Result (Option (Res × ℕ)) × Sql World
  ordered_by criteria (j, err e) s = (err e, s)
  ordered_by criteria (j, ok select) s =
      restricted_by criteria select (resolve_criteria str paths conditions_by criteria [] (j, s))

  abbrev pub selected_ident :
      Class
      → Criteria conditions_by.Criterion
      → Order
      → Result Select
      → Sql World
      → Result (Option (Res × ℕ)) × Sql World
  selected_ident c criteria order (err e) s = (err e, s)
  selected_ident c criteria order (ok select) s =
      ordered_by criteria (set_order c order (set_top_class new c) select) s

  -- `get_message_idents`, of `classic_get_alert_idents` and `classic_get_heartbeat_idents`
  unfoldable pub get_message_idents :
      Class
      → Criteria conditions_by.Criterion
      → Order
      → Sql World
      → Result (Option (Res × ℕ)) × Sql World
  unfolding idents_text set_order resolve_criteria
  get_message_idents c criteria order s =
      selected_ident c criteria order (add_field str empty (codes "DISTINCT(top_table._ident)") 0) s

  abbrev pub ident_of : ℕ → Result (Option Bytes) × Sql World → Result (Option ℕ) × Sql World
  ident_of old (err e, s) = (err e, s)
  ident_of old (ok none, s) = (ok none, s)
  ident_of old (ok (some value), s) = ((do ident ← field_to_uint64 old value; ok (some ident)), s)

  abbrev pub row_ident : ℕ → Res → Result (Option Row) × Sql World → Result (Option ℕ) × Sql World
  row_ident old res (err e, s) = (err e, s)
  row_ident old res (ok none, s) = (ok none, s)
  row_ident old res (ok (some row), s) = ident_of old (fetch_field p res row 0 s)

  -- `classic_get_next_message_ident`, into a variable that held `old`
  unfoldable pub get_next_message_ident : ℕ → Res → Sql World → Result (Option ℕ) × Sql World
  unfolding fetch_row fetch_field field_to_uint64
  get_next_message_ident old res s = row_ident old res (fetch_row p res s)
