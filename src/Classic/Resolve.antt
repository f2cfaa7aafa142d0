-- ===== src/Classic/Resolve.antt =====
-- plugins/format/classic/classic-path-resolve.c: the tables and the fields that paths stand for.
-- Every path has at least two elements, as the indices `depth - 2` ask.
pub mod Again
pub mod Names
pub mod Columns
use Prim.Native.Nat.{◌^◌}
use librequiemdb.Base.{
  ℕ, ◌+◌, ◌-◌, ◌%◌, Bool, true, false, not, ◌&&◌, ◌||◌, List, [], ◌∷◌, ◌++◌, Option, none, some,
  ◌==◌, if◌then◌else◌, Bytes, codes, same,
}
use librequiemdb.Error.{Result, ok, err, ◌>>=◌}
use librequiemdb.Strings.{Strings}
use librequiemdb.Idmef.{
  Class, alert, heartbeat, process, snmp_service, web_service, checksum, file, file_access, Paths,
}
use librequiemdb.Selection.{
  SelectedPath, function_min, function_max, function_avg, function_std, function_count,
}
use librequiemdb.Classic.Select.{Select, has, add_field}
use librequiemdb.Classic.Join.{Join, JoinedTable, lookup_table, new_table}

-- `FIELD_CONTEXT_WHERE`, `FIELD_CONTEXT_SELECT`, `FIELD_CONTEXT_FUNCTION`
pub data Context : Type 0 where
  in_where in_select in_function : Context

-- The functions of one entry of `classes`.
pub data TableResolver : Type 0 where
  default_table message_table process_table file_access_table web_service_table : TableResolver

pub data FieldResolver : Type 0 where
  default_field message_field snmp_field checksum_field file_field : FieldResolver

-- The entry of `classes` for a class, or `default_class`.
abbrev pub search_class : Class → TableResolver × FieldResolver
search_class alert = (message_table, message_field)
search_class heartbeat = (message_table, message_field)
search_class process = (process_table, default_field)
search_class snmp_service = (default_table, snmp_field)
search_class web_service = (web_service_table, default_field)
search_class checksum = (default_table, checksum_field)
search_class file = (default_table, file_field)
search_class file_access = (file_access_table, default_field)
search_class _ = (default_table, default_field)

-- `c += 'A' - 'a'` on a `char` of eight bits
abbrev pub upper : ℕ → ℕ
upper c = (c + 224) % 2 ^ 8

module _ (str : Strings) where
  -- The loop over the name of the class.
  class_loop : Bool → Bytes → Bytes → Result Bytes
  class_loop next_is_maj [] out = ok out
  class_loop next_is_maj (c ∷ s) out =
      let skip = class_loop true s out in
      let keep = (do
        out' ← str.cat out ((if next_is_maj then upper c else c) ∷ [])
        class_loop false s out') in
      if c == b'_' then skip else keep

  -- `default_table_name_resolver`, on the name of the class
  unfoldable pub class_table : Bytes → Result Bytes
  unfolding class_loop
  class_table class_name = do out ← str.cat [] (codes "Requiem_"); class_loop true class_name out

module _ (str : Strings) (paths : Paths) where
  open paths use {Path', depth, class_of, class_name, name, is_time}

  abbrev pub child_name : Path' → Bytes
  child_name path = name path (depth path - 1)

  default_table_name : Path' → Result Bytes
  unfolding class_table
  default_table_name path = class_table str (class_name path (depth path - 2))

  message_table_name : Bytes → Path' → Result Bytes
  unfolding default_table_name
  message_table_name child path =
      if same child (codes "create_time")
      then ok (codes "Requiem_CreateTime")
      else if same child (codes "detect_time")
      then ok (codes "Requiem_DetectTime")
      else if same child (codes "analyzer_time")
      then ok (codes "Requiem_AnalyzerTime")
      else default_table_name path

  -- `class->resolve_table_name`
  unfoldable pub resolve_table_name : TableResolver → Path' → Result Bytes
  unfolding message_table_name default_table_name
  resolve_table_name default_table path = default_table_name path
  resolve_table_name message_table path = message_table_name (child_name path) path
  resolve_table_name process_table path =
      if same (child_name path) (codes "arg")
      then ok (codes "Requiem_ProcessArg")
      else if same (child_name path) (codes "env")
      then ok (codes "Requiem_ProcessEnv")
      else ok (codes "Requiem_Process")
  resolve_table_name file_access_table path =
      if same (child_name path) (codes "permission")
      then ok (codes "Requiem_FileAccess_Permission")
      else ok (codes "Requiem_FileAccess")
  resolve_table_name web_service_table path =
      if same (child_name path) (codes "arg")
      then ok (codes "Requiem_WebServiceArg")
      else ok (codes "Requiem_WebService")

  -- `"%s.%s"`
  abbrev pub dotted : Bytes → Bytes → Bytes
  dotted table child = table ++ b'.' ∷ child

  -- the texts of `time_with_usec_field_name_resolver`, `time_without_usec_field_name_resolver`
  abbrev pub time_with_usec : Context → Bytes → Bytes
  time_with_usec in_select table =
      dotted table (codes "time, ")
      ++ (dotted table (codes "gmtoff, ") ++ dotted table (codes "usec"))
  time_with_usec _ table = dotted table (codes "time")

  abbrev pub time_without_usec : Context → Bytes → Bytes → Bytes
  time_without_usec in_select table child =
      dotted table child ++ (codes ", " ++ (dotted table child ++ codes "_gmtoff, 0"))
  time_without_usec _ table child = dotted table child

  abbrev pub is_message_time : Bytes → Bool
  is_message_time child =
      same child (codes "create_time")
      || same child (codes "detect_time")
      || same child (codes "analyzer_time")

  abbrev pub is_file_time : Bytes → Bool
  is_file_time child =
      same child (codes "create_time")
      || same child (codes "modify_time")
      || same child (codes "access_time")

  unfoldable pub field_name : FieldResolver → Context → Bytes → Bytes → Bytes
  field_name default_field context table child = dotted table child
  field_name message_field context table child =
      if is_message_time child then time_with_usec context table else dotted table child
  field_name snmp_field context table child =
      dotted table (if same child (codes "oid") then codes "snmp_oid" else child)
  field_name checksum_field context table child =
      dotted table (if same child (codes "key") then codes "checksum_key" else child)
  field_name file_field context table child =
      if is_file_time child then time_without_usec context table child else dotted table child

  -- `class->resolve_field_name`
  unfoldable pub resolve_field_name : FieldResolver → Path' → Context → Bytes → Bytes → Result Bytes
  unfolding field_name
  resolve_field_name r path context table out =
      str.cat out (field_name r context table (child_name path))

  new_named : Join Path' → Path' → Result Bytes → Join Path' × Result (JoinedTable Path')
  new_named j path (err e) = (j, err e)
  new_named j path (ok table_name) = new_table str paths j path table_name

  found_or_new :
      Join Path' → Path' → Option (JoinedTable Path') → Join Path' × Result (JoinedTable Path')
  unfolding new_named
  found_or_new j path (some t) = (j, ok t)
  found_or_new j path none =
      new_named j path (resolve_table_name ((search_class (class_of path (depth path - 2))).0) path)

  in_table :
      Path' → Context → Bytes → Join Path' × Result (JoinedTable Path') → Join Path' × Result Bytes
  in_table path context out (j, err e) = (j, err e)
  in_table path context out (j, ok t) = (
    j,
    resolve_field_name ((search_class (class_of path (depth path - 2))).1) path context
        t.aliased_table_name out,
  )

  -- `classic_path_resolve`
  unfoldable pub resolve : Path' → Context → Join Path' → Bytes → Join Path' × Result Bytes
  unfolding found_or_new in_table
  resolve path context j out =
      if depth path == 2 && not (is_time path)
      then (j, resolve_field_name default_field path context (codes "top_table") out)
      else in_table path context out (found_or_new j path (lookup_table str paths j path))

  abbrev pub context_of : ℕ → Context
  context_of flags =
      if has flags (function_min + function_max + function_avg + function_std + function_count)
      then in_function
      else in_select

  select_field : Select → ℕ → Join Path' × Result Bytes → Join Path' × Result Select
  select_field s flags (j, err e) = (j, err e)
  select_field s flags (j, ok field) = (j, add_field str s field flags)

  -- `classic_path_resolve_selected`
  unfoldable pub resolve_selected :
      SelectedPath Path' → Join Path' → Select → Join Path' × Result Select
  unfolding select_field
  resolve_selected p j s = select_field s p.flags (resolve p.path (context_of p.flags) j [])

  -- `classic_path_resolve_selection`
  unfoldable pub resolve_selection :
      List (SelectedPath Path') → Join Path' → Select → Join Path' × Result Select
  resolve_selection [] j s = (j, ok s)
  resolve_selection (p ∷ ps) j s =
      let (j', r) = resolve_selected p j s in
      elim r [ err e ↦ (j', err e) | ok s' ↦ resolve_selection ps j' s' ]
