-- ===== src/Tests/Insert.antt =====
-- The examples of the theorems on insertions, handles and times: a server that answers every call and
-- keeps the list of its statements, and a heartbeat.
use librequiemdb.Base.{
  ℕ, ◌==◌, not, Bool, true, false, List, [], ◌∷◌, ◌++◌, ◌≡◌, refl, none, some, Bytes, codes, same,
  take, arith, is_space, if◌then◌else◌,
}
use librequiemdb.Base.Decimal.{decimal}
use librequiemdb.Error.{ok, err, db, invalid_value, cannot_load_format_plugin}
use librequiemdb.Plugin.{Plugin}
use librequiemdb.Strings.{plenty, plenty-Appends}
use librequiemdb.Sql.{Sql, fresh, query_sql, escape_text, transaction_start, transaction_end}
use librequiemdb.Sql.Trace.{Event, opening, sent, closing, Observes}
use librequiemdb.Delete.{heartbeat, delete_one, format_s, send_all, query_sprintf}
use librequiemdb.Message.{
  Time, Address, Node, Process, Analyzer, Heartbeat, Alertident, Alert, default_alert, char_string,
  heartbeat_message, alert_message,
}
use librequiemdb.Time.{
  Tm, Clock, timestamp_text, build_timestamp_string, timestamp_size, time_from_timestamp,
  time_to_timestamp,
}
use librequiemdb.Time.RoundTrip.{IsTm, time_from_timestamp-timestamp_text}
use librequiemdb.Time.Bounds.{build_timestamp_string-default}
use librequiemdb.Program.{run, sql_insert, get_last_insert_ident}
use librequiemdb.Field.{field_to_uint8, field_to_uint16, field_to_uint32, field_to_uint64}
use librequiemdb.Field.Decimal.{fields-decimal}
use librequiemdb.Program.Keeps.{Kept}
use librequiemdb.Program.Traced.{Quiet}
use librequiemdb.Program.Served.{Serves, statements, outcome}
use librequiemdb.Program.Served.Runs.{Answers, run-Answers}
use librequiemdb.Classic.Insert.Sent.{node_statement, address_statement, insert_node-sends}
use librequiemdb.Classic.Insert.{classic_insert, insert_heartbeat, insert_alert}
use librequiemdb.Classic.Insert.Node.{insert_node}
use librequiemdb.Classic.Insert.Atomic.{classic_insert-restores}
use librequiemdb.Classic.Insert.Commit.{CommitsOnce, classic_insert-CommitsOnce}
use librequiemdb.Program.Typed.{IsTyped}
use librequiemdb.Classic.Insert.Columns.{messages-IsTyped}
use librequiemdb.Classic.Insert.Live.{SucceedsWith, heartbeat_succeeds}
use librequiemdb.Idmef.{Paths, alert, source, at, forbidden}
use librequiemdb.Classic.Criteria.{Criteria, absent, linked}
use librequiemdb.Classic.Idents.{order_by_create_time_desc, get_message_idents, builder}
use librequiemdb.Classic.Idents.Keeping.{get_message_idents-Stays}
use librequiemdb.Program.Keeps.{Stays}
use librequiemdb.Handle.{user_start}
use librequiemdb.Criterion.Build.{
  TimeConstraint, Dialect, fixed, other_value, Moment', minus_one, build_broken_down_time,
}
use librequiemdb.Criterion.Build.Moment.{build_broken_down_time-text}
use librequiemdb.Handle.Library.{Library, Calls, init, init_after_failure}
use librequiemdb.Handle.User.{
  Request, insert_request, delete_request, requests, ended, user_transaction-restores,
}

abbrev is_select : Bytes → Bool
is_select q = same (take 10 q) (codes "SELECT max")

-- The largest identifier is 5.
abbrev pub recorder : Plugin
recorder = record {
  World = List Bytes;
  Res = Unit {0};
  Row = Unit {0};
  open_session = λ w. (ok tt, w);
  close = λ w. w;
  query = λ q w. (ok (if is_select q then some tt else none), w ++ q ∷ []);
  escape = λ s w. (ok (b'\'' ∷ (s ++ b'\'' ∷ [])), w);
  escape_binary = λ s w. (ok (b'\'' ∷ (s ++ b'\'' ∷ [])), w);
  unescape_binary = λ s w. (ok s, w);
  row_count = λ r w. 1;
  fetch_row = λ r w. (ok (some tt), w);
  fetch_field = λ r row n w. (ok (some (decimal 5)), w);
  column_num = λ r name w. ok 0;
  thread_error = λ w. false;
}

abbrev quoted : Bytes → Bytes
quoted s = b'\'' ∷ (s ++ b'\'' ∷ [])

abbrev texts : List Bytes → List Bytes
texts w = w

recorder-Serves : Serves recorder texts quoted quoted 5
unfolding same format_s
recorder-Serves = record {
  of_query = λ q w. (_, refl);
  of_sent = λ q w. refl;
  of_max = λ t w. (tt, refl);
  of_row = λ r w. (tt, refl);
  of_field = λ r row w. refl;
  of_escape = λ i w. refl;
  of_escape_binary = λ i w. refl;
  small = omega arith;
}

abbrev pub start_tm : Tm
start_tm = record { year = 70; mon = 0; mday = 1; hour = 0; min = 0; sec = 0 }

-- A clock that stands at the beginning of time.
abbrev pub stopped : Clock
stopped = record { gmtime = λ s. ok start_tm; timegm = λ t. 0; build_timestamp = none }

abbrev pub epoch : Time
epoch = record { sec = 0; gmt_offset = 3600; usec = 7 }

abbrev pub address : Address
address = record {
  ident = none;
  category = some (codes "ipv4-addr");
  vlan_name = none;
  vlan_num = some 3;
  address = some (some (codes "10.0.0.1"));
  netmask = none;
}

abbrev pub node : Node
node = record {
  ident = none;
  category = none;
  location = none;
  name = some (some (codes "web"));
  addresses = address ∷ [];
}

abbrev two_addresses : Node
two_addresses = record node { addresses = address ∷ address ∷ [] }

abbrev pub process : Process
process = record {
  ident = none;
  name = some (some (codes "sensor"));
  pid = some 12;
  path = none;
  args = some (some (codes "-v")) ∷ [];
  envs = [];
}

abbrev pub analyzer : Analyzer
analyzer = record {
  analyzerid = some (some (codes "1"));
  name = none;
  manufacturer = none;
  model = some none;
  version = none;
  class = none;
  ostype = none;
  osversion = none;
  node = some node;
  process = some process;
}

abbrev pub beat : Heartbeat
beat = record {
  messageid = some (some (codes "m"));
  heartbeat_interval = some 600;
  create_time = some epoch;
  analyzer_time = none;
  analyzers = analyzer ∷ [];
  additional_data =
      record {
        type = some (codes "string");
        meaning = none;
        data_of = char_string (codes "x" ++ 0 ∷ []);
      }
      ∷ [];
}

abbrev pub no_ident : Alertident
no_ident = record { alertident = none; analyzerid = none }

abbrev quiet_alert : Alert
quiet_alert = record {
  messageid = some (some (codes "m"));
  create_time = some epoch;
  detect_time = none;
  analyzer_time = some epoch;
  assessment = none;
  type = default_alert;
  analyzers = analyzer ∷ [];
  sources = [];
  targets = [];
  classification =
      some (record { ident = none; text = some (some (codes "scan")); references = [] });
  additional_data = [];
}

abbrev ready : Sql (List Bytes)
ready = record (fresh []) { connected = true }

heartbeat_succeeds_example :
    SucceedsWith recorder plenty plenty-Appends texts quoted quoted 5 recorder-Serves ready
      (classic_insert recorder plenty stopped no_ident 0
        (some (heartbeat_message (some beat)))
        ready)
      (codes "BEGIN"
        ∷ (statements quoted quoted 5 (insert_heartbeat stopped beat) ++ codes "COMMIT" ∷ []))
unfolding time_to_timestamp build_timestamp_string timestamp_text decimal
heartbeat_succeeds_example =
    heartbeat_succeeds recorder plenty plenty-Appends texts quoted quoted 5 recorder-Serves stopped
      no_ident 0 beat ready refl refl refl (_, refl) (_, refl)

run-Answers_example :
    Answers recorder plenty plenty-Appends texts quoted quoted 5 recorder-Serves ready
      (run recorder plenty 0 (insert_heartbeat stopped beat) ready)
      (outcome quoted quoted 5 (insert_heartbeat stopped beat))
      (statements quoted quoted 5 (insert_heartbeat stopped beat))
run-Answers_example =
    run-Answers recorder plenty plenty-Appends texts quoted quoted 5 recorder-Serves 0
      (insert_heartbeat stopped beat) ready refl

insert_node-sends_example :
    Answers recorder plenty plenty-Appends texts quoted quoted 5 recorder-Serves ready
      (run recorder plenty 0 (insert_node {c = true} b'A' 5 0 two_addresses) ready)
      (ok tt)
      (node_statement quoted quoted 5 b'A' 5 0 two_addresses
        ∷ address_statement quoted quoted 5 b'A' 5 0 0 address
        ∷ address_statement quoted quoted 5 b'A' 5 0 1 address
        ∷ address_statement quoted quoted 5 b'A' 5 0 4294967295 address
        ∷ [])
insert_node-sends_example =
    insert_node-sends recorder plenty plenty-Appends texts quoted quoted 5 recorder-Serves 0 b'A' 5
      0 two_addresses ready refl

fields-decimal_example :
    (field_to_uint64 0 (decimal 66000) ≡ ok 66000)
    × (field_to_uint32 0 (decimal 66000) ≡ ok 66000)
    × (field_to_uint16 0 (decimal 66000) ≡ ok 464)
    × (field_to_uint8 (decimal 66000) ≡ err (db invalid_value))
fields-decimal_example = fields-decimal 0 66000 (omega arith)

messages-IsTyped_example :
    IsTyped (insert_alert stopped no_ident quiet_alert) × IsTyped (insert_heartbeat stopped beat)
messages-IsTyped_example = messages-IsTyped stopped no_ident quiet_alert beat

classic_insert-restores_example :
    ((classic_insert recorder plenty stopped no_ident 0
        (some (alert_message (some quiet_alert)))
        ready).1.transaction
      ≡ false)
    × ((classic_insert recorder plenty stopped no_ident 0
          (some (alert_message (some quiet_alert)))
          ready).1.lock
        ≡ 0)
unfolding Kept insert_alert transaction_start query_sql same escape_text sql_insert
    get_last_insert_ident format_s decimal is_space time_to_timestamp
classic_insert-restores_example =
    classic_insert-restores recorder plenty stopped no_ident 0
      (some (alert_message (some quiet_alert))) ready refl ((λ _. refl), tt)

-- The same over a list of events.
abbrev database : Plugin
database = record {
  World = List Event;
  Res = Unit {0};
  Row = Unit {0};
  open_session = λ w. (ok tt, w ++ opening true ∷ []);
  close = λ w. w ++ closing ∷ [];
  query = λ q w. (ok (if is_select q then some tt else none), w ++ sent q true ∷ []);
  escape = λ s w. (ok (quoted s), w);
  escape_binary = λ s w. (ok (quoted s), w);
  unescape_binary = λ s w. (ok s, w);
  row_count = λ r w. 1;
  fetch_row = λ r w. (ok (some tt), w);
  fetch_field = λ r row n w. (ok (some (decimal 5)), w);
  column_num = λ r name w. ok 0;
  thread_error = λ w. false;
}

abbrev asked : List Event → List Event
asked w = w

abbrev database-Observes : Observes database asked
database-Observes = record { of_open = λ w. refl; of_close = λ w. refl; of_query = λ q w. refl }

abbrev database-Quiet : Quiet database asked
database-Quiet = record {
  of_escape = λ i w. refl;
  of_escape_binary = λ i w. refl;
  of_fetch_row = λ r w. refl;
  of_fetch_field = λ r row n w. refl;
}

classic_insert-CommitsOnce_example :
    CommitsOnce database plenty plenty-Appends asked database-Observes database-Quiet (fresh []) (
      classic_insert database plenty stopped no_ident 0
        (some (heartbeat_message (some beat)))
        (fresh []))
classic_insert-CommitsOnce_example =
    classic_insert-CommitsOnce database plenty plenty-Appends asked database-Observes database-Quiet
      stopped no_ident 0 (heartbeat_message (some beat)) (fresh []) refl refl tt

pub start-IsTm : IsTm start_tm
start-IsTm = record {
  year_small = omega arith;
  mon_small = omega arith;
  mday_small = omega arith;
  hour_small = omega arith;
  min_small = omega arith;
  sec_small = omega arith;
}

time_from_timestamp-timestamp_text_example :
    time_from_timestamp stopped (timestamp_text start_tm) 3600 7 ≡ ok epoch
time_from_timestamp-timestamp_text_example =
    time_from_timestamp-timestamp_text stopped epoch start_tm refl refl start-IsTm (omega arith)
      (omega arith)

build_timestamp_string-default_example :
    build_timestamp_string none timestamp_size start_tm ≡ ok (codes "'1970-01-01 00:00:00'")
unfolding timestamp_text decimal
build_timestamp_string-default_example = build_timestamp_string-default start_tm (record {
  mday_width = omega arith;
  hour_width = omega arith;
  min_width = omega arith;
  sec_width = omega arith;
})

abbrev unused : Library
unused = record { refcount = 0; format_loaded = false; sql_loaded = false }

abbrev all_well : Calls
all_well = record {
  requiem_init = ok tt;
  access_format = true;
  load_format = ok tt;
  access_sql = true;
  load_sql = ok tt;
}

abbrev no_directory : Calls
no_directory = record all_well { access_format = false }

init_after_failure_example :
    ((init no_directory (init no_directory unused).1).0 ≡ ok tt)
    × ((init no_directory (init no_directory unused).1).1.format_loaded ≡ false)
    × ((init no_directory (init no_directory unused).1).1.sql_loaded ≡ false)
unfolding init
init_after_failure_example =
    init_after_failure no_directory no_directory unused (db cannot_load_format_plugin) refl refl

abbrev work : List Request
work = insert_request (some (heartbeat_message (some beat))) ∷ delete_request heartbeat 3 ∷ []

user_transaction-restores_example :
    ((ended recorder plenty stopped no_ident 0 true (
        requests recorder plenty stopped no_ident 0 work (user_start recorder ready).1)).transaction
      ≡ false)
    × ((ended recorder plenty stopped no_ident 0 true
          (requests recorder plenty stopped no_ident 0 work (user_start recorder ready).1)).lock
        ≡ 0)
    × ((ended recorder plenty stopped no_ident 0 true (
          requests recorder plenty stopped no_ident 0 work
            (user_start recorder ready).1)).internal_transaction_disabled
        ≡ false)
unfolding user_start delete_one query_sql same transaction_start send_all query_sprintf format_s
    transaction_end classic_insert decimal is_space time_to_timestamp
user_transaction-restores_example =
    user_transaction-restores recorder plenty stopped no_ident 0 true work ready refl refl
      ((tt, (λ _. refl)), ((λ _. refl), tt))

data Comparison : Type 0 where
  equal not_equal : Comparison

abbrev is_equal_one : Comparison → Bool
is_equal_one equal = true
is_equal_one not_equal = false

abbrev part : Bytes → TimeConstraint → Comparison → ℕ → Bytes
part field type op value = field ++ b'=' ∷ decimal value

abbrev numbered : Dialect
numbered = record {
  Operator = Comparison;
  is_null = λ op. false;
  is_not_null = λ op. false;
  is_equal = is_equal_one;
  is_not_equal = λ op. not (is_equal_one op);
  has_not = λ op. not (is_equal_one op);
  has_substr = λ op. false;
  null_operator = equal;
  equal_operator = equal;
  operator_string = λ op. codes "=";
  build_constraint = λ out field op value. ok (out ++ value);
  build_time_constraint = λ out field type op value. ok (out ++ part field type op value);
}

abbrev in_may : Moment'
in_may = record {
  tm_year = 106;
  tm_mon = 4;
  tm_yday = minus_one;
  tm_mday = minus_one;
  tm_wday = minus_one;
  tm_hour = minus_one;
  tm_min = minus_one;
  tm_sec = minus_one;
}

build_broken_down_time-text_example :
    build_broken_down_time plenty numbered (codes "t") not_equal in_may []
    ≡ ok (codes "NOT(t=2006 AND t=5)")
unfolding decimal
build_broken_down_time-text_example =
    build_broken_down_time-text plenty plenty-Appends numbered part
      (λ out field type op value. refl) (codes "t") not_equal in_may []

-- Paths alert.source(n).ident, by their number n.
abbrev source_idents : Paths
source_idents = record {
  Path' = ℕ;
  depth = λ p. 3;
  class_of = λ p d. if d == 0 then alert else source;
  class_name = λ p d. codes "Source";
  name = λ p d. codes "ident";
  index = λ p d. if d == 1 then at p else forbidden;
  is_time = λ p. false;
  compare = λ p q. p == q;
  ncompare = λ p q n. p == q;
}

-- alert.source(4).ident = 'it' OR alert.source(5).ident != 'us'
abbrev either_source : Criteria (builder recorder plenty stopped numbered source_idents).Criterion
either_source =
    linked (4, equal, fixed (other_value none (ok (codes "it")))) absent
      (linked (5, not_equal, fixed (other_value none (ok (codes "us")))) absent absent)

abbrev in_transaction' : Sql (List Bytes)
in_transaction' = (transaction_start recorder (fresh [])).1

get_message_idents-Stays_example : Stays recorder plenty in_transaction' (
    get_message_idents recorder plenty stopped numbered source_idents
      (λ c. ok 4)
      (λ out. ok out)
      alert
      either_source
      order_by_create_time_desc
      in_transaction')
unfolding transaction_start query_sql same
get_message_idents-Stays_example =
    get_message_idents-Stays recorder plenty stopped numbered source_idents (λ c. ok 4)
      (λ out. ok out) alert either_source order_by_create_time_desc in_transaction' (λ _. refl)
