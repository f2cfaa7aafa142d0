-- ===== src/Classic/Get/Selects.antt =====
-- plugins/format/classic/classic-get.c: the statements that the reading of a message sends. The parts
-- are in the children.
pub mod Fields
pub mod Parts
pub mod Detail
use librequiemdb.Base.{ℕ, Option, none, some, refl, ◌≡◌, false}
use librequiemdb.Plugin.{Plugin}
use librequiemdb.Strings.{Strings, Appends}
use librequiemdb.Sql.{Sql}
use librequiemdb.Reading.{read}
use librequiemdb.Reading.Selects.{ReadsOnly, read_contents}
use librequiemdb.Error.{Result, ok, err}
use librequiemdb.Reading.{Reading, ◌>>=◌, fetch}
use librequiemdb.Reading.Selects.{Selects, bind-Selects}
use librequiemdb.Classic.Get.Common.{Outside}
use librequiemdb.Classic.Get.Selects.Fields.{get_string-Selects, get_uint32-Selects}
use librequiemdb.Classic.Get.Selects.Parts.{
  get_analyzer-Selects, get_source-Selects, get_target-Selects,
}
use librequiemdb.Classic.Get.Selects.Detail.{
  get_analyzer_time-Selects, get_detect_time-Selects, get_create_time-Selects,
  get_assessment-Selects, get_additional_data-Selects, get_classification-Selects,
  get_tool_alert-Selects, get_correlation_alert-Selects, get_overflow_alert-Selects,
}
use librequiemdb.Classic.Get.{
  own, own_row, get_alert_messageid, heartbeat_row, get_heartbeat, classic_get_alert,
  classic_get_heartbeat,
}

module _ (Res Row : Type 0) (o : Outside) where
  own_row-Selects :
      {A : Type 0} (k : Row → Reading Res Row A) (r : Result (Option Row))
      → ((row : Row) → Selects (k row))
      → Selects (own_row o k r)
  unfolding Selects
  own_row-Selects k (err e) h = tt
  own_row-Selects k (ok none) h = tt
  own_row-Selects k (ok (some row)) h = h row

  own-Selects :
      {A : Type 0} (k : Res → Row → Reading Res Row A) (r : Result (Option Res))
      → ((res : Res) (row : Row) → Selects (k res row))
      → Selects (own o k r)
  unfolding Selects
  own-Selects k (err e) h = tt
  own-Selects k (ok none) h = tt
  own-Selects k (ok (some res)) h = λ r. own_row-Selects (k res) r (h res)

  get_alert_messageid-Selects : (m : ℕ) → Selects {Res = Res} {Row = Row} (get_alert_messageid o m)
  unfolding get_alert_messageid Selects
  get_alert_messageid-Selects m =
      ((_, refl), λ r. own-Selects _ r λ res row. get_string-Selects o res row 0)

  get_heartbeat-Selects : (m : ℕ) → Selects {Res = Res} {Row = Row} (get_heartbeat o m)
  unfolding get_heartbeat Selects
  get_heartbeat-Selects m = (
    (_, refl),
    λ r. own-Selects _ r λ res row.
        bind-Selects _ _ (get_string-Selects o res row 0)
          λ i. bind-Selects _ _ (get_uint32-Selects o res row 1) λ n. tt,
  )

  pub classic_get_alert-Selects : (m : ℕ) → Selects {Res = Res} {Row = Row} (classic_get_alert o m)
  unfolding classic_get_alert Selects
  classic_get_alert-Selects m =
      search
        (
          bind-Selects, get_alert_messageid-Selects, get_assessment-Selects, get_analyzer-Selects,
          get_create_time-Selects, get_detect_time-Selects, get_analyzer_time-Selects,
          get_source-Selects, get_target-Selects, get_classification-Selects,
          get_additional_data-Selects, get_tool_alert-Selects, get_correlation_alert-Selects,
          get_overflow_alert-Selects,
        )
        depth 60 fits 4000

  pub classic_get_heartbeat-Selects :
      (m : ℕ) → Selects {Res = Res} {Row = Row} (classic_get_heartbeat o m)
  unfolding classic_get_heartbeat Selects
  classic_get_heartbeat-Selects m =
      search
        (
          bind-Selects, get_heartbeat-Selects, get_analyzer-Selects, get_create_time-Selects,
          get_analyzer_time-Selects, get_additional_data-Selects,
        )
        depth 40 fits 2000

module _ (p : Plugin) (str : Strings) (more : Appends str) (D : Type 0) (contents : p.World → D)
    (only : ReadsOnly p D contents) (o : Outside) where
  open p use {World, Res, Row}

  -- While memory lasts, over a plugin whose connections, SELECT statements, rows, fields and
  -- unescapes leave what the database holds unchanged: so does the reading of any alert and of
  -- any heartbeat, whatever the answers and wherever it ends.
  pub messages-contents :
      (ident : ℕ) (s : Sql World)
      → (contents (read p str (classic_get_alert o ident) s).1.world ≡ contents s.world)
        × (contents (read p str (classic_get_heartbeat o ident) s).1.world ≡ contents s.world)
  messages-contents ident s = (
    read_contents p str more D contents only _ s (classic_get_alert-Selects Res Row o ident),
    read_contents p str more D contents only _ s (classic_get_heartbeat-Selects Res Row o ident),
  )
