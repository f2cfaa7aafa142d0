-- ===== src/Classic/Get/Detail.antt =====
-- plugins/format/classic/classic-get.c: the times of a message, the assessment and the classification
-- of an alert, its additional data, and the types of alerts.
use librequiemdb.Base.{
  ℕ, zero, suc, ◌++◌, List, [], ◌∷◌, Option, some, none, Bytes, Bool, true, false,
}
use librequiemdb.Error.{Result, raw}
use librequiemdb.Message.{
  Time, Impact, Action, Confidence, Assessment, Reference, Classification, AdditionalData, Data,
  byte_string, Alertident, ToolAlert, CorrelationAlert, OverflowAlert,
}
use librequiemdb.Reading.{
  Reading, ret, fail, exhausted, ask, fetch, field, unescape, found, kept, asked, ◌>>=◌, one, many,
  select, of_message, of_parent, in_order,
}
use librequiemdb.Classic.Get.Common.{
  Outside, get_string, get_enum, get_optional_enum, get_uint32, get_float, get_timestamp, get_data,
  action_category, confidence_rating, impact_severity, impact_completion, impact_type,
  additional_data_type, reference_origin,
}

module _ {Res Row : Type 0} (o : Outside) where
  -- The time of the first row, if there is one.
  abbrev pub time_of_row : Bytes → Reading Res Row (Option Time)
  time_of_row q = ask q (found λ res. fetch res (found λ row. get_timestamp o res row 0 1 (some 2)))

  unfoldable pub get_analyzer_time : ℕ → ℕ → Reading Res Row (Option Time)
  get_analyzer_time message_ident parent_type =
      time_of_row
        (select "time, gmtoff, usec" "Requiem_AnalyzerTime" ++ of_parent parent_type message_ident)

  unfoldable pub get_detect_time : ℕ → Reading Res Row (Option Time)
  get_detect_time message_ident =
      time_of_row (select "time, gmtoff, usec" "Requiem_DetectTime" ++ of_message message_ident)

  unfoldable pub get_create_time : ℕ → ℕ → Reading Res Row (Option Time)
  get_create_time message_ident parent_type =
      time_of_row
        (select "time, gmtoff, usec" "Requiem_CreateTime" ++ of_parent parent_type message_ident)

  abbrev pub action_row : Res → Row → Reading Res Row Action
  action_row res row = do
    category ← get_enum o action_category res row 0
    description ← get_string o res row 1
    ret (record { category = category; description = description })

  unfoldable pub get_action : ℕ → Reading Res Row (List Action)
  unfolding many
  get_action message_ident =
      many o.fuel
        (select "category, description" "Requiem_Action" ++ (of_message message_ident ++ in_order))
        action_row

  abbrev pub confidence_row : Res → Row → Reading Res Row Confidence
  confidence_row res row = do
    rating ← get_enum o confidence_rating res row 0
    confidence ← get_float o res row 1
    ret (record { rating = rating; confidence = confidence })

  unfoldable pub get_confidence : ℕ → Reading Res Row (Option Confidence)
  unfolding one
  get_confidence message_ident =
      one (select "rating, confidence" "Requiem_Confidence" ++ of_message message_ident)
        confidence_row

  abbrev pub impact_row : Res → Row → Reading Res Row Impact
  impact_row res row = do
    severity ← get_optional_enum o impact_severity res row 0
    completion ← get_optional_enum o impact_completion res row 1
    type ← get_enum o impact_type res row 2
    description ← get_string o res row 3
    ret (record {
      severity = severity;
      completion = completion;
      type = type;
      description = description;
    })

  unfoldable pub get_impact : ℕ → Reading Res Row (Option Impact)
  unfolding one
  get_impact message_ident =
      one
        (select "severity, completion, type, description" "Requiem_Impact"
          ++ of_message message_ident)
        impact_row

  abbrev pub assessment_parts : ℕ → Reading Res Row Assessment
  assessment_parts message_ident = do
    impact ← get_impact message_ident
    confidence ← get_confidence message_ident
    actions ← get_action message_ident
    ret (record { impact = impact; confidence = confidence; actions = actions })

  -- No row of the table is fetched.
  unfoldable pub get_assessment : ℕ → Reading Res Row (Option Assessment)
  unfolding ◌>>=◌
  get_assessment message_ident =
      ask (select "_message_ident" "Requiem_Assessment" ++ of_message message_ident)
        (found λ res. kept (assessment_parts message_ident))

  -- The object of a row, and whether the loop goes on: it ends, with no error, at a row without data.
  abbrev pub with_data : AdditionalData → Option Bytes → Reading Res Row (AdditionalData × Bool)
  with_data d none = ret (d, false)
  with_data d (some v) =
      get_data o (o.data_type d.type) v >>= λ x. ret (record d { data_of = x }, true)

  abbrev pub additional_data_row : Res → Row → Reading Res Row (AdditionalData × Bool)
  additional_data_row res row = do
    type ← get_enum o additional_data_type res row 0
    meaning ← get_string o res row 1
    field res row 2 (with_data (record { type = type; meaning = meaning; data_of = o.no_data }))

  -- What follows a row, given the reading of the rows behind it.
  abbrev pub next_data :
      Reading Res Row (List AdditionalData)
      → AdditionalData × Bool
      → Reading Res Row (List AdditionalData)
  next_data rest (d, false) = ret (d ∷ [])
  next_data rest (d, true) = rest >>= λ more. ret (d ∷ more)

  abbrev pub next_row :
      Res
      → Reading Res Row (List AdditionalData)
      → Result (Option Row)
      → Reading Res Row (List AdditionalData)
  next_row res rest (Result.err e) = fail e
  next_row res rest (Result.ok none) = ret []
  next_row res rest (Result.ok (some row)) = additional_data_row res row >>= next_data rest

  unfoldable pub data_rows : ℕ → Res → Reading Res Row (List AdditionalData)
  unfolding ◌>>=◌
  data_rows zero res = exhausted
  data_rows (suc n) res = fetch res (next_row res (data_rows n res))

  unfoldable pub get_additional_data : ℕ → ℕ → Reading Res Row (List AdditionalData)
  unfolding data_rows
  get_additional_data message_ident parent_type =
      ask
        (select "type, meaning, data" "Requiem_AdditionalData"
          ++ (of_parent parent_type message_ident ++ in_order))
        (asked λ res. data_rows o.fuel res)

  abbrev pub reference_row : Res → Row → Reading Res Row Reference
  reference_row res row = do
    origin ← get_enum o reference_origin res row 0
    name ← get_string o res row 1
    url ← get_string o res row 2
    meaning ← get_string o res row 3
    ret (record { origin = origin; name = name; url = url; meaning = meaning })

  unfoldable pub get_reference : ℕ → Reading Res Row (List Reference)
  unfolding many
  get_reference message_ident =
      many o.fuel
        (select "origin, name, url, meaning" "Requiem_Reference"
          ++ (of_message message_ident ++ in_order))
        reference_row

  abbrev pub classification_row : ℕ → Res → Row → Reading Res Row Classification
  classification_row message_ident res row = do
    ident ← get_string o res row 0
    text ← get_string o res row 1
    references ← get_reference message_ident
    ret (record { ident = ident; text = text; references = references })

  unfoldable pub get_classification : ℕ → Reading Res Row (Option Classification)
  unfolding one
  get_classification message_ident =
      one (select "ident, text" "Requiem_Classification" ++ of_message message_ident)
        (classification_row message_ident)

  abbrev pub alertident_row : Res → Row → Reading Res Row Alertident
  alertident_row res row = do
    alertident ← get_string o res row 0
    analyzerid ← get_string o res row 1
    ret (record { alertident = alertident; analyzerid = analyzerid })

  unfoldable pub get_alertident : ℕ → ℕ → Reading Res Row (List Alertident)
  unfolding many
  get_alertident message_ident parent_type =
      many o.fuel
        (select "alertident, analyzerid" "Requiem_Alertident"
          ++ (of_parent parent_type message_ident ++ in_order))
        alertident_row

  abbrev pub tool_alert_row : ℕ → Res → Row → Reading Res Row ToolAlert
  tool_alert_row message_ident res row = do
    name ← get_string o res row 0
    command ← get_string o res row 1
    alertidents ← get_alertident message_ident b'T'
    ret (record { name = name; command = command; alertidents = alertidents })

  unfoldable pub get_tool_alert : ℕ → Reading Res Row (Option ToolAlert)
  unfolding one
  get_tool_alert message_ident =
      one (select "name, command" "Requiem_ToolAlert" ++ of_message message_ident)
        (tool_alert_row message_ident)

  abbrev pub correlation_alert_row : ℕ → Res → Row → Reading Res Row CorrelationAlert
  correlation_alert_row message_ident res row = do
    name ← get_string o res row 0
    alertidents ← get_alertident message_ident b'C'
    ret (record { name = name; alertidents = alertidents })

  unfoldable pub get_correlation_alert : ℕ → Reading Res Row (Option CorrelationAlert)
  unfolding one
  get_correlation_alert message_ident =
      one (select "name" "Requiem_CorrelationAlert" ++ of_message message_ident)
        (correlation_alert_row message_ident)

  -- The field of the buffer is used without a test that there is one; the model stops with -1.
  abbrev pub buffer_of : Option Bytes → Reading Res Row Data
  buffer_of none = fail (raw 1)
  buffer_of (some v) = unescape v (λ t. ret (byte_string t))

  abbrev pub overflow_alert_row : Res → Row → Reading Res Row OverflowAlert
  overflow_alert_row res row = do
    program ← get_string o res row 0
    size ← get_uint32 o res row 1
    buffer ← field res row 2 buffer_of
    ret (record { program = program; size = size; buffer = buffer })

  unfoldable pub get_overflow_alert : ℕ → Reading Res Row (Option OverflowAlert)
  unfolding one
  get_overflow_alert message_ident =
      one (select "program, size, buffer" "Requiem_OverflowAlert" ++ of_message message_ident)
        overflow_alert_row
