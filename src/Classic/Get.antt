-- ===== src/Classic/Get.antt =====
-- plugins/format/classic/classic-get.c: the reading of messages. The children have the functions for
-- the parts of a message, and Common those for the fields of a row.
pub mod Common
pub mod Selects
pub mod Stored
pub mod RoundTrip
pub mod Node
pub mod Service
pub mod File
pub mod Source
pub mod Detail
use librequiemdb.Base.{ℕ, ◌++◌, Option, some, none, Bytes, codes}
use librequiemdb.Base.Decimal.{decimal}
use librequiemdb.Error.{Result, db, raw, invalid_message_ident}
use librequiemdb.Message.{
  Text, Message, Alert, Heartbeat, AlertType, default_alert, tool_alert, overflow_alert, ToolAlert,
  OverflowAlert, CorrelationAlert, correlation_alert, alert_message, heartbeat_message,
}
use librequiemdb.Reading.{Reading, ret, fail, ask, fetch, ◌>>=◌, select}
use librequiemdb.Classic.Get.Common.{Outside, get_string, get_uint32}
use librequiemdb.Classic.Get.Source.{get_analyzer, get_source, get_target}
use librequiemdb.Classic.Get.Detail.{
  get_analyzer_time, get_detect_time, get_create_time, get_assessment, get_additional_data,
  get_classification, get_tool_alert, get_correlation_alert, get_overflow_alert,
}

abbrev pub of_ident : ℕ → Bytes
of_ident ident = codes " WHERE _ident = " ++ decimal ident

-- An alert of another type replaces the one that was there.
abbrev pub alert_type :
    Option ToolAlert → Option CorrelationAlert → Option OverflowAlert → AlertType
alert_type t c (some a) = overflow_alert a
alert_type t (some c) none = correlation_alert (some c)
alert_type (some t) none none = tool_alert (some t)
alert_type none none none = default_alert

module _ {Res Row : Type 0} (o : Outside) where
  -- The row of the message itself. No result is an error; a result without a row leaves the variable
  -- for the row unset, and the model stops with -1.
  abbrev pub own_row :
      {A : Type 0} → (Row → Reading Res Row A) → Result (Option Row) → Reading Res Row A
  own_row k (Result.err e) = fail e
  own_row k (Result.ok none) = fail (raw 1)
  own_row k (Result.ok (some row)) = k row

  abbrev pub own :
      {A : Type 0} → (Res → Row → Reading Res Row A) → Result (Option Res) → Reading Res Row A
  own k (Result.err e) = fail e
  own k (Result.ok none) = fail (db invalid_message_ident)
  own k (Result.ok (some res)) = fetch res (own_row (k res))

  unfoldable pub get_alert_messageid : ℕ → Reading Res Row Text
  unfolding get_string
  get_alert_messageid ident =
      ask (select "messageid" "Requiem_Alert" ++ of_ident ident)
        (own λ res row. get_string o res row 0)

  unfoldable pub classic_get_alert : ℕ → Reading Res Row Message
  classic_get_alert ident = do
    messageid ← get_alert_messageid ident
    assessment ← get_assessment o ident
    analyzers ← get_analyzer o ident b'A'
    create_time ← get_create_time o ident b'A'
    detect_time ← get_detect_time o ident
    analyzer_time ← get_analyzer_time o ident b'A'
    sources ← get_source o ident
    targets ← get_target o ident
    classification ← get_classification o ident
    additional_data ← get_additional_data o ident b'A'
    tool ← get_tool_alert o ident
    correlation ← get_correlation_alert o ident
    overflow ← get_overflow_alert o ident
    ret (
        alert_message (
          some (record {
            messageid = messageid;
            create_time = create_time;
            detect_time = detect_time;
            analyzer_time = analyzer_time;
            assessment = assessment;
            type = alert_type tool correlation overflow;
            analyzers = analyzers;
            sources = sources;
            targets = targets;
            classification = classification;
            additional_data = additional_data;
          })))

  abbrev pub heartbeat_row : Res → Row → Reading Res Row (Text × Option ℕ)
  heartbeat_row res row = do
    messageid ← get_string o res row 0
    interval ← get_uint32 o res row 1
    ret (messageid, interval)

  -- `_get_heartbeat`
  unfoldable pub get_heartbeat : ℕ → Reading Res Row (Text × Option ℕ)
  get_heartbeat ident =
      ask (select "messageid, heartbeat_interval" "Requiem_Heartbeat" ++ of_ident ident)
        (own heartbeat_row)

  unfoldable pub classic_get_heartbeat : ℕ → Reading Res Row Message
  classic_get_heartbeat ident = do
    own_fields ← get_heartbeat ident
    analyzers ← get_analyzer o ident b'H'
    create_time ← get_create_time o ident b'H'
    analyzer_time ← get_analyzer_time o ident b'H'
    additional_data ← get_additional_data o ident b'H'
    ret (
        heartbeat_message (
          some (record {
            messageid = own_fields.0;
            heartbeat_interval = own_fields.1;
            create_time = create_time;
            analyzer_time = analyzer_time;
            analyzers = analyzers;
            additional_data = additional_data;
          })))
