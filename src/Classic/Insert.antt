-- ===== src/Classic/Insert.antt =====
-- plugins/format/classic/classic-insert.c: the insertion of messages, as programs over a connection.
-- `clock` is the clock of the times, and `null_alertident` is what the getters of librequiem give for
-- the NULL that `insert_tool_alert` may pass on.
pub mod Common
pub mod Node
pub mod Service
pub mod File
pub mod Source
pub mod Detail
pub mod Atomic
pub mod Commit
pub mod Columns
pub mod Live
pub mod Sent
use Prim.Native.Nat.{◌^◌}
use librequiemdb.Base.{
  ℕ, ◌-◌, Bool, true, false, List, ◌∷◌, [], Option, none, some, codes, String, Bytes,
}
use librequiemdb.Error.{Result, ok, err, Error, raw}
use librequiemdb.Plugin.{Plugin}
use librequiemdb.Strings.{Strings}
use librequiemdb.Sql.{Sql, transaction_start, transaction_end, transaction_abort}
use librequiemdb.Delete.{finish}
use librequiemdb.Message.{
  Text, OverflowAlert, Alertident, ToolAlert, CorrelationAlert, AlertType, default_alert,
  tool_alert, overflow_alert, correlation_alert, unknown_alert, Alert, Heartbeat, Message,
  alert_message, heartbeat_message, unknown_message,
}
use librequiemdb.Time.{Clock}
use librequiemdb.Program.{
  Program, ret, fail, last_insert_ident, ◌>>=◌, ◌>>◌, escaped, inserted, inserted_anyway, each,
  indexed, present, letter, number, index, text, run, insert,
}
use Common.{get_string, get_optional_uint, get_data}
use Source.{insert_source, insert_target, insert_analyzer}
use Detail.{
  insert_classification, insert_additional_data, insert_createtime, insert_detecttime,
  insert_analyzertime, insert_assessment,
}

module _ {c : Bool} where
  unfoldable pub insert_overflow_alert : ℕ → OverflowAlert → Program c (Unit {0})
  unfolding ◌>>=◌ get_string get_data get_optional_uint
  insert_overflow_alert message_ident overflow = do
    program ← escaped (get_string overflow.program)
    buffer ← get_data overflow.buffer
    inserted "Requiem_OverflowAlert" "_message_ident, program, size, buffer" (
        number message_ident
        ∷ text program
        ∷ text (get_optional_uint 16 overflow.size)
        ∷ text buffer
        ∷ [])

  unfoldable pub insert_alertident : ℕ → ℕ → ℕ → Alertident → Program c (Unit {0})
  unfolding ◌>>=◌ get_string
  insert_alertident parent_type message_ident alertident_index item = do
    analyzerid ← escaped (get_string item.analyzerid)
    messageid ← escaped (get_string item.alertident)
    inserted "Requiem_Alertident" "_parent_type, _message_ident, _index, alertident, analyzerid" (
        letter parent_type
        ∷ number message_ident
        ∷ index alertident_index
        ∷ text messageid
        ∷ text analyzerid
        ∷ [])

  unfoldable pub insert_correlation_alert : ℕ → CorrelationAlert → Program c (Unit {0})
  unfolding ◌>>=◌ get_string indexed insert_alertident
  insert_correlation_alert message_ident correlation = do
    name ← escaped (get_string correlation.name)
    inserted "Requiem_CorrelationAlert" "_message_ident, name"
        (number message_ident ∷ text name ∷ [])
    indexed (insert_alertident b'C' message_ident) correlation.alertidents

  unfoldable pub insert_message_messageid : String → Text → Program c ℕ
  unfolding ◌>>=◌ get_string
  insert_message_messageid table_name messageid = do
    tmp ← escaped (get_string messageid)
    inserted table_name "messageid" (text tmp ∷ [])
    last_insert_ident (codes table_name) (λ n. ret n)

-- The source tests `ret < 0` behind the loop where the others test for a last item: `ret` is negative
-- only if there was no item and the insertion of the alert itself failed.
abbrev pub after_loop : Alertident → ℕ → Bool → List Alertident → Program false (Unit {0})
after_loop null_alertident message_ident false [] =
    insert_alertident b'T' message_ident (2 ^ 32 - 1) null_alertident
after_loop null_alertident message_ident _ _ = ret tt

unfoldable pub insert_tool_alert : Alertident → ℕ → ToolAlert → Program false (Unit {0})
unfolding ◌>>=◌ get_string each insert_alertident
insert_tool_alert null_alertident message_ident tool = do
  name ← escaped (get_string tool.name)
  command ← escaped (get_string tool.command)
  done ←
      inserted_anyway "Requiem_ToolAlert" "_message_ident, name, command"
        (number message_ident ∷ text name ∷ text command ∷ [])
  each 0 (insert_alertident b'T' message_ident) tool.alertidents
  after_loop null_alertident message_ident done tool.alertidents

-- The `switch` of `insert_alert`.
abbrev pub insert_alert_type : Alertident → ℕ → AlertType → Program false (Unit {0})
insert_alert_type null_alertident ident default_alert = ret tt
insert_alert_type null_alertident ident (tool_alert tool) =
    present (insert_tool_alert null_alertident ident) tool
insert_alert_type null_alertident ident (overflow_alert overflow) =
    insert_overflow_alert ident overflow
insert_alert_type null_alertident ident (correlation_alert correlation) =
    present (insert_correlation_alert ident) correlation
insert_alert_type null_alertident ident unknown_alert = fail (raw 1)

unfoldable pub insert_alert : Clock → Alertident → Alert → Program false (Unit {0})
unfolding ◌>>=◌ insert_message_messageid insert_createtime insert_detecttime insert_analyzertime
    insert_assessment insert_tool_alert insert_overflow_alert insert_correlation_alert indexed
    insert_analyzer insert_source insert_target insert_classification insert_additional_data
insert_alert clock null_alertident alert = do
  ident ← insert_message_messageid "Requiem_Alert" alert.messageid
  insert_createtime clock b'A' ident alert.create_time
  insert_detecttime clock ident alert.detect_time
  insert_analyzertime clock b'A' ident alert.analyzer_time
  present (insert_assessment ident) alert.assessment
  insert_alert_type null_alertident ident alert.type
  indexed (insert_analyzer b'A' ident) alert.analyzers
  indexed (insert_source ident) alert.sources
  indexed (insert_target clock ident) alert.targets
  present (insert_classification ident) alert.classification
  indexed (insert_additional_data b'A' ident) alert.additional_data

unfoldable pub insert_heartbeat : Clock → Heartbeat → Program true (Unit {0})
unfolding ◌>>=◌ get_string get_optional_uint indexed insert_analyzer insert_createtime
    insert_analyzertime insert_additional_data
insert_heartbeat clock heartbeat = do
  messageid ← escaped (get_string heartbeat.messageid)
  inserted "Requiem_Heartbeat" "messageid, heartbeat_interval"
      (text messageid ∷ text (get_optional_uint 16 heartbeat.heartbeat_interval) ∷ [])
  ident ← last_insert_ident (codes "Requiem_Heartbeat") (λ n. ret n)
  indexed (insert_analyzer b'H' ident) heartbeat.analyzers
  insert_createtime clock b'H' ident heartbeat.create_time
  insert_analyzertime clock b'H' ident heartbeat.analyzer_time
  indexed (insert_additional_data b'H' ident) heartbeat.additional_data

module _ (p : Plugin) (str : Strings) where
  open p use {World}

  unfoldable pub insert_started :
      {c : Bool}
      → ℕ
      → Program c (Unit {0})
      → Result (Unit {0}) × Sql World
      → Result (Unit {0}) × Sql World
  unfolding finish run
  insert_started old m (err e, s) = (err e, s)
  insert_started old m (ok _, s) = finish p str (run p str old m s)

  -- A program in a transaction of its own: the parts of `classic_insert` around its `switch`.
  unfoldable pub in_transaction :
      {c : Bool} → ℕ → Program c (Unit {0}) → Sql World → Result (Unit {0}) × Sql World
  unfolding insert_started
  in_transaction old m s = insert_started old m (transaction_start p s)

  -- `classic_insert`
  unfoldable pub classic_insert :
      Clock → Alertident → ℕ → Option Message → Sql World → Result (Unit {0}) × Sql World
  unfolding in_transaction insert_alert insert_heartbeat
  classic_insert clock null_alertident old none s = (ok tt, s)
  classic_insert clock null_alertident old (some (alert_message alert)) s =
      in_transaction old (present (insert_alert clock null_alertident) alert) s
  classic_insert clock null_alertident old (some (heartbeat_message heartbeat)) s =
      in_transaction old (present (insert_heartbeat clock) heartbeat) s
  classic_insert clock null_alertident old (some unknown_message) s =
      in_transaction {c = true} old (fail (raw 1)) s
