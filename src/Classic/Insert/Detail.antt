-- ===== src/Classic/Insert/Detail.antt =====
-- plugins/format/classic/classic-insert.c: the classification of an alert, its assessment, its times
-- and its additional data.
use librequiemdb.Base.{ℕ, Bool, false, ◌∷◌, [], Option, none}
use librequiemdb.Message.{
  Reference, Classification, AdditionalData, Time, Impact, Action, Confidence, Assessment,
}
use librequiemdb.Time.{Clock}
use librequiemdb.Program.{
  Program, ret, ◌>>=◌, ◌>>◌, escaped, inserted, inserted_anyway, indexed, present, letter, number,
  index, text,
}
use librequiemdb.Classic.Insert.Common.{get_string, get_optional_enum, get_data, timestamp}

unfoldable pub insert_reference : {c : Bool} → ℕ → ℕ → Reference → Program c (Unit {0})
unfolding ◌>>=◌ get_string
insert_reference message_ident reference_index reference = do
  origin ← escaped reference.origin
  url ← escaped (get_string reference.url)
  name ← escaped (get_string reference.name)
  meaning ← escaped (get_string reference.meaning)
  inserted "Requiem_Reference" "_message_ident, _index, origin, name, url, meaning" (
      number message_ident
      ∷ index reference_index
      ∷ text origin
      ∷ text name
      ∷ text url
      ∷ text meaning
      ∷ [])

-- The result of the classification's own insertion is overwritten or dropped.
unfoldable pub insert_classification : ℕ → Classification → Program false (Unit {0})
unfolding ◌>>=◌ get_string indexed insert_reference
insert_classification message_ident classification = do
  ident ← escaped (get_string classification.ident)
  t ← escaped (get_string classification.text)
  _ ←
      inserted_anyway "Requiem_Classification" "_message_ident, ident, text"
        (number message_ident ∷ text ident ∷ text t ∷ [])
  indexed (insert_reference message_ident) classification.references

module _ {c : Bool} where
  unfoldable pub insert_additional_data : ℕ → ℕ → ℕ → AdditionalData → Program c (Unit {0})
  unfolding ◌>>=◌ get_string get_data
  insert_additional_data parent_type message_ident ad_index additional_data = do
    type ← escaped additional_data.type
    meaning ← escaped (get_string additional_data.meaning)
    data_text ← get_data additional_data.data_of
    inserted "Requiem_AdditionalData" "_parent_type, _message_ident, _index, type, meaning, data" (
        letter parent_type
        ∷ number message_ident
        ∷ index ad_index
        ∷ text type
        ∷ text meaning
        ∷ text data_text
        ∷ [])

  -- A creation time that is not there is inserted as NULL.
  unfoldable pub insert_createtime : Clock → ℕ → ℕ → Option Time → Program c (Unit {0})
  unfolding ◌>>=◌
  insert_createtime clock parent_type message_ident time = do
    utc ← timestamp clock none time
    inserted "Requiem_CreateTime" "_parent_type, _message_ident, time, gmtoff, usec" (
        letter parent_type
        ∷ number message_ident
        ∷ text utc.time
        ∷ text utc.gmtoff
        ∷ text utc.usec
        ∷ [])

  insert_detecttime_at : Clock → ℕ → Option Time → Program c (Unit {0})
  unfolding ◌>>=◌
  insert_detecttime_at clock message_ident time = do
    utc ← timestamp clock none time
    inserted "Requiem_DetectTime" "_message_ident, time, gmtoff, usec"
        (number message_ident ∷ text utc.time ∷ text utc.gmtoff ∷ text utc.usec ∷ [])

  unfoldable pub insert_detecttime : Clock → ℕ → Option Time → Program c (Unit {0})
  unfolding insert_detecttime_at
  insert_detecttime clock message_ident none = ret tt
  insert_detecttime clock message_ident time = insert_detecttime_at clock message_ident time

  insert_analyzertime_at : Clock → ℕ → ℕ → Option Time → Program c (Unit {0})
  unfolding ◌>>=◌
  insert_analyzertime_at clock parent_type message_ident time = do
    utc ← timestamp clock none time
    inserted "Requiem_AnalyzerTime" "_parent_type, _message_ident, time, gmtoff, usec" (
        letter parent_type
        ∷ number message_ident
        ∷ text utc.time
        ∷ text utc.gmtoff
        ∷ text utc.usec
        ∷ [])

  unfoldable pub insert_analyzertime : Clock → ℕ → ℕ → Option Time → Program c (Unit {0})
  unfolding insert_analyzertime_at
  insert_analyzertime clock parent_type message_ident none = ret tt
  insert_analyzertime clock parent_type message_ident time =
      insert_analyzertime_at clock parent_type message_ident time

  unfoldable pub insert_impact : ℕ → Impact → Program c (Unit {0})
  unfolding ◌>>=◌ get_string get_optional_enum
  insert_impact message_ident impact = do
    completion ← escaped (get_optional_enum impact.completion)
    type ← escaped impact.type
    severity ← escaped (get_optional_enum impact.severity)
    description ← escaped (get_string impact.description)
    inserted "Requiem_Impact" "_message_ident, severity, completion, type, description"
        (number message_ident ∷ text severity ∷ text completion ∷ text type ∷ text description ∷ [])

  unfoldable pub insert_action : ℕ → ℕ → Action → Program c (Unit {0})
  unfolding ◌>>=◌ get_string
  insert_action message_ident action_index action = do
    category ← escaped action.category
    description ← escaped (get_string action.description)
    inserted "Requiem_Action" "_message_ident, _index, category, description"
        (number message_ident ∷ index action_index ∷ text category ∷ text description ∷ [])

  unfoldable pub insert_confidence : ℕ → Confidence → Program c (Unit {0})
  unfolding ◌>>=◌
  insert_confidence message_ident confidence = do
    rating ← escaped confidence.rating
    inserted "Requiem_Confidence" "_message_ident, rating, confidence"
        (number message_ident ∷ text rating ∷ text confidence.confidence ∷ [])

  unfoldable pub insert_assessment : ℕ → Assessment → Program c (Unit {0})
  unfolding ◌>>=◌ indexed insert_impact insert_confidence insert_action
  insert_assessment message_ident assessment = do
    inserted "Requiem_Assessment" "_message_ident" (number message_ident ∷ [])
    present (insert_impact message_ident) assessment.impact
    present (insert_confidence message_ident) assessment.confidence
    indexed (insert_action message_ident) assessment.actions
