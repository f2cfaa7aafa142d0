-- ===== src/Classic/Values.antt =====
-- plugins/format/classic/classic.c: the request for the values of selected paths, and the values of a
-- row. `new_from_path` is `idmef_value_new_from_path`, and `limited` is as in Classic/Idents.
pub mod Columns
use Prim.Native.Nat.{◌^◌}
use librequiemdb.Base.{
  ℕ, ◌+◌, ◌%◌, Bool, true, false, not, ◌&&◌, List, [], ◌∷◌, Option, none, some, Bytes, codes,
  if◌then◌else◌,
}
use librequiemdb.Error.{Result, ok, err, ◌>>=◌}
use librequiemdb.Plugin.{Plugin}
use librequiemdb.Strings.{Strings}
use librequiemdb.Sql.{Sql, query_sql, fetch_row, fetch_field}
use librequiemdb.Field.{field_to_uint32, field_to_int32}
use librequiemdb.Idmef.{Paths}
use librequiemdb.Message.{Time}
use librequiemdb.Time.{Clock, time_from_timestamp}
use librequiemdb.Selection.{
  SelectedPath, function_min, function_max, function_avg, function_std, function_count,
}
use librequiemdb.Classic.Select.{Select, empty, has, fields_to_string, modifiers_to_string}
use librequiemdb.Classic.Join.{Join, new, to_string}
use librequiemdb.Classic.Resolve.{resolve_selection}
use librequiemdb.Criterion.Build.{Dialect}
use librequiemdb.Classic.Criteria.{Criteria, is_present, Builder, resolve_criteria}
use librequiemdb.Classic.Idents.{builder, where_text}

-- `idmef_value_t *`: NULL, a number, a time, or what librequiem makes of the text of a field. `unset`
-- is a pointer that was not written.
pub data Value (V : Type 0) : Type 0 where
  unset null : Value V
  count_value : ℕ → Value V
  time_value : Time → Value V
  of_path : V → Value V

abbrev pub zero_time : Time
zero_time = record { sec = 0; gmt_offset = 0; usec = 0 }

-- The result of `requiemdb_sql_time_from_timestamp` is not tested; without it, the time is a new one.
abbrev pub time_or_new : Result Time → Time
time_or_new (err e) = zero_time
time_or_new (ok t) = t

abbrev pub several : Bool → ℕ
several true = 3
several false = 1

module _ (p : Plugin) (clock : Clock) (paths : Paths) (V : Type 0)
    (new_from_path : paths.Path' → Bytes → Result V) where
  open p use {World, Res, Row}
  open paths use {Path', is_time}

  abbrev pub multiple_time_field : SelectedPath Path' → Bool
  multiple_time_field x =
      is_time x.path
      && not (has x.flags (function_min + function_max + function_avg + function_std))

  -- A value, and the number of columns that it takes.
  abbrev pub Read : Type 0
  Read = Result (Value V × ℕ)

  -- The count is read into a variable that held `old`.
  abbrev pub counted : ℕ → Bytes → Read
  counted old v = do n ← field_to_uint32 old v; ok (count_value n, 1)

  abbrev pub time_of : Bytes → ℕ → ℕ → Value V
  time_of v gmtoff usec = time_value (time_or_new (time_from_timestamp clock v gmtoff usec))

  -- The error of the conversion is not returned, but the result of the fetch, 1.
  abbrev pub with_usec : Bytes → ℕ → Result ℕ → Read
  with_usec v gmtoff (err e) = ok (unset, 1)
  with_usec v gmtoff (ok usec) = ok (time_of v gmtoff usec, 3)

  abbrev pub usec_of : Bytes → ℕ → Result (Option Bytes) × Sql World → Read × Sql World
  usec_of v gmtoff (err e, s) = (err e, s)
  usec_of v gmtoff (ok none, s) = (ok (time_of v gmtoff 0, 3), s)
  usec_of v gmtoff (ok (some u), s) = (with_usec v gmtoff (field_to_uint32 0 u), s)

  abbrev pub with_gmtoff :
      (ℕ → Sql World → Read × Sql World) → Sql World → Result ℕ → Read × Sql World
  with_gmtoff k s (err e) = (err e, s)
  with_gmtoff k s (ok gmtoff) = k gmtoff s

  abbrev pub gmtoff_of :
      (ℕ → Sql World → Read × Sql World) → Result (Option Bytes) × Sql World → Read × Sql World
  gmtoff_of k (err e, s) = (err e, s)
  gmtoff_of k (ok none, s) = k 0 s
  gmtoff_of k (ok (some v), s) = with_gmtoff k s (field_to_int32 0 v)

  -- The columns behind that of the time.
  abbrev pub time_at : Res → Row → ℕ → Bytes → Bool → Sql World → Read × Sql World
  time_at res row cnt v false s = (ok (time_of v 0 0, 1), s)
  time_at res row cnt v true s =
      gmtoff_of (λ gmtoff s'. usec_of v gmtoff (fetch_field p res row (cnt + 2) s'))
        (fetch_field p res row (cnt + 1) s)

  abbrev pub from_path : Path' → Bytes → Read
  from_path path v = do x ← new_from_path path v; ok (of_path x, 1)

  abbrev pub value_of :
      ℕ → Res → Row → ℕ → SelectedPath Path' → Result (Option Bytes) × Sql World → Read × Sql World
  value_of old res row cnt x (err e, s) = (err e, s)
  value_of old res row cnt x (ok none, s) = (ok (null, several (multiple_time_field x)), s)
  value_of old res row cnt x (ok (some v), s) =
      if has x.flags function_count
      then (counted old v, s)
      else if is_time x.path
      then time_at res row cnt v (multiple_time_field x) s
      else (from_path x.path v, s)

  unfoldable pub get_value : ℕ → Res → Row → ℕ → SelectedPath Path' → Sql World → Read × Sql World
  unfolding fetch_field field_to_uint32 field_to_int32 time_from_timestamp
  get_value old res row cnt x s = value_of old res row cnt x (fetch_field p res row cnt s)

  -- The loop over the selected paths; `sql_cnt` has 32 bits.
  abbrev pub and_values :
      (ℕ → Sql World → Result (List (Value V)) × Sql World)
      → ℕ
      → Read × Sql World
      → Result (List (Value V)) × Sql World
  and_values k cnt (err e, s) = (err e, s)
  and_values k cnt (ok (v, n), s) =
      let (r, s') = k ((cnt + n) % 2 ^ 32) s in (do vs ← r; ok (v ∷ vs), s')

  unfoldable pub values_from :
      ℕ
      → Res
      → Row
      → ℕ
      → List (SelectedPath Path')
      → Sql World
      → Result (List (Value V)) × Sql World
  unfolding get_value
  values_from old res row cnt [] s = (ok [], s)
  values_from old res row cnt (x ∷ xs) s =
      and_values (λ cnt' s'. values_from old res row cnt' xs s') cnt (get_value old res row cnt x s)

  abbrev pub row_values :
      ℕ
      → Res
      → List (SelectedPath Path')
      → Result (Option Row) × Sql World
      → Result (Option (List (Value V))) × Sql World
  row_values old res xs (err e, s) = (err e, s)
  row_values old res xs (ok none, s) = (ok none, s)
  row_values old res xs (ok (some row), s) =
      let (r, s') = values_from old res row 0 xs s in (do vs ← r; ok (some vs), s')

  -- `classic_get_next_values`
  unfoldable pub get_next_values :
      ℕ → Res → List (SelectedPath Path') → Sql World → Result (Option (List (Value V))) × Sql World
  unfolding fetch_row values_from
  get_next_values old res xs s = row_values old res xs (fetch_row p res s)

module _ (p : Plugin) (str : Strings) (clock : Clock) (d : Dialect) (paths : Paths)
    (limited : Bytes → Result Bytes) where
  open p use {World, Res}
  open paths use {Path'}

  abbrev pub conditions : Builder Path'
  conditions = builder p str clock d paths

  abbrev pub distinct_text : Bool → Bytes → Result Bytes
  distinct_text false out = ok out
  distinct_text true out = str.cat out (codes "DISTINCT ")

  -- The text of the query.
  unfoldable pub values_text : Join Path' → Select → Bool → Bool → Bytes → Result Bytes
  values_text j select distinct restricted text = do
    out ← str.cat [] (codes "SELECT ")
    out ← distinct_text distinct out
    out ← fields_to_string str select out
    out ← str.cat out (codes " FROM ")
    out ← to_string str paths j out
    out ← where_text str restricted text out
    out ← modifiers_to_string str select out
    limited out

  abbrev pub sent_values : Result Bytes → Sql World → Result (Option (Res × ℕ)) × Sql World
  sent_values (err e) s = (err e, s)
  sent_values (ok q) s = query_sql p q s

  abbrev pub values_where :
      Bool
      → Bool
      → Select
      → (Join Path' × Sql World) × Result Bytes
      → Result (Option (Res × ℕ)) × Sql World
  values_where distinct restricted select ((j, s), err e) = (err e, s)
  values_where distinct restricted select ((j, s), ok text) =
      sent_values (values_text j select distinct restricted text) s

  abbrev pub values_of :
      Criteria conditions.Criterion
      → Bool
      → Join Path' × Result Select
      → Sql World
      → Result (Option (Res × ℕ)) × Sql World
  values_of criteria distinct (j, err e) s = (err e, s)
  values_of criteria distinct (j, ok select) s =
      values_where distinct (is_present criteria) select
        (resolve_criteria str paths conditions criteria [] (j, s))

  -- `classic_get_values`
  unfoldable pub get_values :
      List (SelectedPath Path')
      → Criteria conditions.Criterion
      → Bool
      → Sql World
      → Result (Option (Res × ℕ)) × Sql World
  unfolding values_text resolve_selection resolve_criteria
  get_values selection criteria distinct s =
      values_of criteria distinct (resolve_selection str paths selection new empty) s
