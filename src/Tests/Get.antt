-- ===== src/Tests/Get.antt =====
-- The examples of the theorems on the reading of messages: a server that answers each query with the
-- rows that a table lists for its text, and one that keeps what is inserted.
use Prim.Native.Nat.{◌^◌}
use librequiemdb.Base.{
  ap, All, Bool-cases, inl, inr, ℕ, ◌+◌, ◌<◌, ◌==◌, Bool, true, false, List, [], ◌∷◌, ◌++◌, ◌≡◌,
  ◌≢◌, refl, Option, none, some, Bytes, codes, same, arith, if◌then◌else◌, take, length, is_space,
}
use librequiemdb.Base.Decimal.{decimal, read_from}
use librequiemdb.Error.{ok, err, raw}
use librequiemdb.Plugin.{Plugin}
use librequiemdb.Strings.{plenty, plenty-Appends}
use librequiemdb.Sql.{Sql, fresh}
use librequiemdb.Message.{Enum, Node, Analyzer, Heartbeat, byte_string, heartbeat_message}
use librequiemdb.Reading.{read, select, of_parent, at, in_order}
use librequiemdb.Reading.Tables.{Cells, cell, Tables}
use librequiemdb.Classic.Get.{of_ident, classic_get_alert, classic_get_heartbeat}
use librequiemdb.Classic.Get.Common.{Outside, DataType, string, error_type}
use librequiemdb.Classic.Get.Stored.{
  address_cells, node_cells, process_cells, analyzer_cells, heartbeat_cells, time_cells,
  HeartbeatHeld,
}
use librequiemdb.Reading.Selects.{ReadsOnly}
use librequiemdb.Classic.Get.Selects.{messages-contents}
use librequiemdb.Classic.Get.RoundTrip.Message.{classic_get_heartbeat-stored}
use librequiemdb.Idmef.{Paths, alert, undefined}
use librequiemdb.Sql.{fetch_field}
use librequiemdb.Time.{timestamp_text, expect}
use librequiemdb.Error.{Result}
use librequiemdb.Classic.Select.Columns.{columns, commas}
use librequiemdb.Classic.Resolve.{message_field, field_name, resolve_field_name}
use librequiemdb.Classic.Values.{time_value, get_value}
use librequiemdb.Classic.Values.Columns.{get_value-columns}
use librequiemdb.Handle.{FormatPlugin, classic}
use librequiemdb.Tests.Insert.{
  no_ident, stopped, start_tm, start-IsTm, epoch, analyzer, node, process, beat, address,
}

-- The rows that are left of each result, with the results that were opened.
record Server : Type 0 where
  next : ℕ
  left : ℕ → List Cells

abbrev Table : Type 0
Table = Bytes → List Cells

abbrev opened : List Cells → Server → Server
opened rows w = record { next = w.next + 1; left = λ r. if r == w.next then rows else w.left r }

abbrev fetched : ℕ → List Cells → Server → Option Cells × Server
fetched r [] w = (none, w)
fetched r (c ∷ cs) w = (some c, record w { left = λ r'. if r' == r then cs else w.left r' })

abbrev tabled : Table → Plugin
tabled db = record {
  World = Server;
  Res = ℕ;
  Row = Cells;
  open_session = λ w. (ok tt, w);
  close = λ w. w;
  query = λ q w. (ok (some w.next), opened (db q) w);
  escape = λ s w. (ok s, w);
  escape_binary = λ s w. (ok s, w);
  unescape_binary = λ s w. (ok s, w);
  row_count = λ r w. length (w.left r);
  fetch_row = λ r w. let (row, w') = fetched r (w.left r) w in (ok row, w');
  fetch_field = λ r row i w. (ok (cell i row), w);
  column_num = λ r name w. ok 0;
  thread_error = λ w. false;
}

at_other : {A : Type 0} (r k : ℕ) (x y : A) → r ≢ k → (if r == k then x else y) ≡ y
at_other r k x y h = ground arith

at_same : {A : Type 0} (r : ℕ) (x y : A) → (if r == r then x else y) ≡ x
at_same r x y = ground arith

-- Every query has a result, and one without rows counts none.
tabled-Tables : (db : Table) → ((q : Bytes) → length (db q) < 2 ^ 31) → Tables (tabled db) db
tabled-Tables db few = record {
  IsOpen = λ r w. r < w.next;
  left = λ r w. w.left r;
  cells = λ row. row;
  few = few;
  of_none = λ q w h. rw h (
    some w.next,
    _,
    refl,
    ap length (at_same w.next _ _),
    λ r o. (omega arith, at_other r w.next _ _ (λ e. omega arith)),
  );
  of_some = λ q w c cs h. rw h (
    w.next,
    _,
    refl,
    ap length (at_same w.next _ _),
    omega arith,
    at_same w.next _ _,
    λ r o. (omega arith, at_other r w.next _ _ (λ e. omega arith), λ e. omega arith),
  );
  of_end = λ r w h. rw h refl;
  of_row = λ r w c cs o h.
      rw h (c, _, refl, refl, o, at_same r _ _, λ r' o' ne. (o', at_other r' r _ _ ne));
  of_field = λ r row i w. refl;
}

abbrev type_of : Enum → DataType
type_of none = error_type
type_of (some v) = if same v (codes "string") then string else error_type

-- The loops of the example have at most one row.
abbrev outside : Outside
outside = record {
  fuel = 4;
  old = 5;
  clock = stopped;
  initial = λ e. some (codes "unknown");
  named = λ e v. some v;
  field_to_float = λ old v. ok v;
  zero_float = codes "0.0";
  data_type = type_of;
  no_data = byte_string [];
}

abbrev stored_node : Node
stored_node = record node { category = some (codes "hosts") }

abbrev stored_analyzer : Analyzer
stored_analyzer = record analyzer { model = none; node = some stored_node }

abbrev stored_beat : Heartbeat
stored_beat = record beat { analyzers = stored_analyzer ∷ [] }

abbrev of_beat : Bytes
of_beat = of_parent b'H' 9

-- The rows that hold the heartbeat 9, for the text of each query that finds some.
abbrev stored : List (Bytes × List Cells)
stored =
    (
      select "messageid, heartbeat_interval" "Requiem_Heartbeat" ++ of_ident 9,
      heartbeat_cells stored_beat ∷ [],
    )
    ∷ (
      select "analyzerid, name, manufacturer, model, version, class, ostype, osversion"
            "Requiem_Analyzer"
          ++ (of_beat ++ in_order),
      analyzer_cells stored_analyzer ∷ [],
    )
    ∷ (
      select "ident, category, location, name" "Requiem_Node" ++ (of_beat ++ at "_parent0_index" 0),
      node_cells stored_node ∷ [],
    )
    ∷ (
      select "ident, category, vlan_name, vlan_num, address, netmask" "Requiem_Address"
          ++ (of_beat ++ (at "_parent0_index" 0 ++ in_order)),
      address_cells address ∷ [],
    )
    ∷ (
      select "ident, name, pid, path" "Requiem_Process" ++ (of_beat ++ at "_parent0_index" 0),
      process_cells process ∷ [],
    )
    ∷ (
      select "arg" "Requiem_ProcessArg" ++ (of_beat ++ (at "_parent0_index" 0 ++ in_order)),
      (some (codes "-v") ∷ []) ∷ [],
    )
    ∷ (select "time, gmtoff, usec" "Requiem_CreateTime" ++ of_beat, time_cells start_tm epoch ∷ [])
    ∷ (
      select "type, meaning, data" "Requiem_AdditionalData" ++ (of_beat ++ in_order),
      (some (codes "string") ∷ none ∷ some (codes "x") ∷ []) ∷ [],
    )
    ∷ []

abbrev rows_in : List (Bytes × List Cells) → Table
rows_in [] q = []
rows_in ((t, rows) ∷ ts) q = if same t q then rows else rows_in ts q

rows_in-few :
    (ts : List (Bytes × List Cells))
    → All (λ t. length t.1 < 2 ^ 31) ts
    → (q : Bytes) → length (rows_in ts q) < 2 ^ 31
rows_in-few [] h q = omega arith
rows_in-few (t ∷ ts) (here, later) q = elim (Bool-cases (same t.0 q)) [
  | inl e ↦ rw e here
  | inr e ↦ rw e (rows_in-few ts later q)
]

stored-few : (q : Bytes) → length (rows_in stored q) < 2 ^ 31
stored-few = rows_in-few stored (
  omega arith,
  (
    omega arith,
    (omega arith, (omega arith, (omega arith, (omega arith, (omega arith, (omega arith, tt)))))),
  ),
)

stored_beat-HeartbeatHeld : HeartbeatHeld outside (rows_in stored) 9 stored_beat
unfolding same decimal
stored_beat-HeartbeatHeld = record {
  messageid = tt;
  heartbeat_interval = omega arith;
  held = refl;
  analyzers = record {
    held = refl;
    fits = omega arith;
    each = (
      record {
        analyzerid = tt;
        name = tt;
        manufacturer = tt;
        model = tt;
        version = tt;
        class = tt;
        ostype = tt;
        osversion = tt;
        node = record {
          held = refl;
          parts = record {
            ident = tt;
            category = refl;
            location = tt;
            name = tt;
            addresses = record {
              held = refl;
              fits = omega arith;
              each = (
                record {
                  ident = tt;
                  category = refl;
                  vlan_name = tt;
                  vlan_num = omega arith;
                  address = tt;
                  netmask = tt;
                },
                tt,
              );
            };
          };
        };
        process = record {
          held = refl;
          parts = record {
            ident = tt;
            name = tt;
            pid = omega arith;
            path = tt;
            small = omega arith;
            args = record { held = refl; fits = omega arith; each = (tt, tt) };
            envs = record { held = refl; fits = omega arith; each = tt };
          };
        };
      },
      tt,
    );
  };
  create_time = record {
    tm = start_tm;
    held = refl;
    gmtime = refl;
    timegm = refl;
    is_tm = start-IsTm;
    year = omega arith;
    mon = omega arith;
    gmt_offset = omega arith;
    usec = omega arith;
  };
  analyzer_time = refl;
  additional_data = record {
    held = refl;
    fits = omega arith;
    each = (record { type = refl; is_string = refl; meaning = tt; content = refl }, tt);
  };
}

abbrev server : Server
server = record { next = 0; left = λ r. [] }

abbrev connected : Sql Server
connected = record (fresh server) { connected = true }

classic_get_heartbeat-stored_example :
    (read (tabled (rows_in stored)) plenty (classic_get_heartbeat outside 9) connected).0
    ≡ some (ok (heartbeat_message (some stored_beat)))
classic_get_heartbeat-stored_example =
    classic_get_heartbeat-stored (tabled (rows_in stored)) plenty plenty-Appends (rows_in stored)
      (tabled-Tables (rows_in stored) stored-few) outside 9 stored_beat connected
      stored_beat-HeartbeatHeld refl

-- A server that keeps the statements that are not queries, and has one row for each query.
record Keeper : Type 0 where
  inserted : List Bytes
  row : Bool

abbrev keeper : Plugin
keeper = record {
  World = Keeper;
  Res = Unit {0};
  Row = Unit {0};
  open_session = λ w. (ok tt, w);
  close = λ w. w;
  query = λ q w.
      if same (take 7 q) (codes "SELECT ")
      then (ok (some tt), record w { row = true })
      else (ok none, record w { inserted = q ∷ w.inserted });
  escape = λ s w. (ok s, w);
  escape_binary = λ s w. (ok s, w);
  unescape_binary = λ s w. (ok s, w);
  row_count = λ r w. 1;
  fetch_row = λ r w. (ok (if w.row then some tt else none), record w { row = false });
  fetch_field = λ r row n w. (ok (some (decimal 5)), w);
  column_num = λ r name w. ok 0;
  thread_error = λ w. false;
}

abbrev inserted : Keeper → List Bytes
inserted w = w.inserted

keeper-ReadsOnly : ReadsOnly keeper (List Bytes) inserted
unfolding same decimal
keeper-ReadsOnly = record {
  of_open = λ w. refl;
  of_close = λ w. refl;
  of_select = λ t w. refl;
  of_unescape = λ v w. refl;
  of_fetch_row = λ r w. refl;
  of_fetch_field = λ r row i w. refl;
}

abbrev keeping : Sql Keeper
keeping = fresh (record { inserted = codes "INSERT" ∷ []; row = false })

messages-contents_example :
    (inserted (read keeper plenty (classic_get_alert outside 9) keeping).1.world
      ≡ codes "INSERT" ∷ [])
    × (inserted (read keeper plenty (classic_get_heartbeat outside 9) keeping).1.world
        ≡ codes "INSERT" ∷ [])
messages-contents_example =
    messages-contents keeper plenty plenty-Appends (List Bytes) inserted keeper-ReadsOnly outside 9
      keeping

-- One path, that of the creation time of an alert.
abbrev created : Paths
created = record {
  Path' = Unit {0};
  depth = λ x. 2;
  class_of = λ x i. alert;
  class_name = λ x i. codes "alert";
  name = λ x i. codes "create_time";
  index = λ x i. undefined;
  is_time = λ x. true;
  compare = λ x y. true;
  ncompare = λ x y n. true;
}

abbrev any_text : Unit {0} → Bytes → Result Bytes
any_text x t = ok t

get_value-columns_example : 3 ≡ columns (codes "t0.time, t0.gmtoff, t0.usec")
unfolding get_value resolve_field_name field_name same commas fetch_field timestamp_text decimal
    is_space expect read_from
get_value-columns_example =
    get_value-columns (tabled (rows_in stored)) stopped created Bytes any_text plenty plenty-Appends
      (record { path = tt; flags = 0 }) message_field (codes "t0")
      (codes "t0.time, t0.gmtoff, t0.usec") 0 0 (time_cells start_tm epoch) 0 connected
      (time_value epoch) 3 (omega arith) refl refl refl (λ e. refl) refl refl (λ e. cc e)

-- The table of the format has one row.
abbrev formats : Table
formats q = (some (codes "classic") ∷ some (codes "14.7") ∷ []) ∷ []

abbrev is_current : Option Bytes → Result (Unit {0})
is_current none = err (raw 1)
is_current (some v) = if same v (codes "14.7") then ok tt else err (raw 1)

abbrev loaded : Bytes → Option (FormatPlugin (tabled formats))
loaded name =
    if same name (codes "classic")
    then some (classic (tabled formats) plenty stopped no_ident 0 is_current)
    else none
