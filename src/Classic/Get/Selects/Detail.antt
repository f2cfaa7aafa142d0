-- ===== src/Classic/Get/Selects/Detail.antt =====
-- plugins/format/classic/classic-get.c: the statements for the times, the assessment, the
-- classification, the additional data and the types of alerts.
use librequiemdb.Base.{ℕ, zero, suc, Bool, true, false, List, Option, none, some, Bytes, refl}
use librequiemdb.Error.{Result, ok, err}
use librequiemdb.Message.{AdditionalData, Data, OverflowAlert}
use librequiemdb.Reading.{Reading, ◌>>=◌, field}
use librequiemdb.Reading.Selects.{
  Selects, bind-Selects, field-Selects, one-Selects, many-Selects, first-Selects, asked-Selects,
  kept-Selects, found-Selects,
}
use librequiemdb.Classic.Get.Common.{Outside}
use librequiemdb.Classic.Get.Selects.Fields.{
  field_rules, get_data-Selects, get_timestamp-Selects, get_string-Selects, get_uint32-Selects,
}
use librequiemdb.Classic.Get.Node.{}
use librequiemdb.Classic.Get.Service.{}
use librequiemdb.Classic.Get.File.{}
use librequiemdb.Classic.Get.Source.{}
use librequiemdb.Classic.Get.Detail.{
  get_action, get_confidence, get_impact, get_reference, get_classification, get_alertident,
  get_tool_alert, get_correlation_alert, get_analyzer_time, get_detect_time, get_create_time,
  get_assessment, with_data, additional_data_row, next_data, next_row, data_rows,
  get_additional_data, buffer_of, get_overflow_alert,
}

module _ (Res Row : Type 0) (o : Outside) where
  pub get_action-Selects : (m : ℕ) → Selects {Res = Res} {Row = Row} (get_action o m)
  unfolding get_action Selects
  get_action-Selects m =
      many-Selects _ _ _ (_, refl) λ res row. search (bind-Selects, field_rules) depth 40 fits 2000

  pub get_confidence-Selects : (m : ℕ) → Selects {Res = Res} {Row = Row} (get_confidence o m)
  unfolding get_confidence Selects
  get_confidence-Selects m =
      one-Selects _ _ (_, refl) λ res row. search (bind-Selects, field_rules) depth 40 fits 2000

  pub get_impact-Selects : (m : ℕ) → Selects {Res = Res} {Row = Row} (get_impact o m)
  unfolding get_impact Selects
  get_impact-Selects m =
      one-Selects _ _ (_, refl) λ res row. search (bind-Selects, field_rules) depth 40 fits 2000

  pub get_reference-Selects : (m : ℕ) → Selects {Res = Res} {Row = Row} (get_reference o m)
  unfolding get_reference Selects
  get_reference-Selects m =
      many-Selects _ _ _ (_, refl) λ res row. search (bind-Selects, field_rules) depth 40 fits 2000

  pub get_classification-Selects :
      (m : ℕ) → Selects {Res = Res} {Row = Row} (get_classification o m)
  unfolding get_classification Selects
  get_classification-Selects m =
      one-Selects _ _ (_, refl)
        λ res row. search (bind-Selects, field_rules, get_reference-Selects) depth 40 fits 2000

  pub get_alertident-Selects : (m t : ℕ) → Selects {Res = Res} {Row = Row} (get_alertident o m t)
  unfolding get_alertident Selects
  get_alertident-Selects m t =
      many-Selects _ _ _ (_, refl) λ res row. search (bind-Selects, field_rules) depth 40 fits 2000

  pub get_tool_alert-Selects : (m : ℕ) → Selects {Res = Res} {Row = Row} (get_tool_alert o m)
  unfolding get_tool_alert Selects
  get_tool_alert-Selects m =
      one-Selects _ _ (_, refl)
        λ res row. search (bind-Selects, field_rules, get_alertident-Selects) depth 40 fits 2000

  pub get_correlation_alert-Selects :
      (m : ℕ) → Selects {Res = Res} {Row = Row} (get_correlation_alert o m)
  unfolding get_correlation_alert Selects
  get_correlation_alert-Selects m =
      one-Selects _ _ (_, refl)
        λ res row. search (bind-Selects, field_rules, get_alertident-Selects) depth 40 fits 2000

  pub get_analyzer_time-Selects :
      (m t : ℕ) → Selects {Res = Res} {Row = Row} (get_analyzer_time o m t)
  unfolding get_analyzer_time Selects
  get_analyzer_time-Selects m t =
      first-Selects _ _ (_, refl) (λ res row. get_timestamp-Selects o res row 0 1 (some 2))

  pub get_detect_time-Selects : (m : ℕ) → Selects {Res = Res} {Row = Row} (get_detect_time o m)
  unfolding get_detect_time Selects
  get_detect_time-Selects m =
      first-Selects _ _ (_, refl) (λ res row. get_timestamp-Selects o res row 0 1 (some 2))

  pub get_create_time-Selects : (m t : ℕ) → Selects {Res = Res} {Row = Row} (get_create_time o m t)
  unfolding get_create_time Selects
  get_create_time-Selects m t =
      first-Selects _ _ (_, refl) (λ res row. get_timestamp-Selects o res row 0 1 (some 2))

  pub get_assessment-Selects : (m : ℕ) → Selects {Res = Res} {Row = Row} (get_assessment o m)
  unfolding get_assessment Selects
  get_assessment-Selects m = (
    (_, refl),
    λ r. found-Selects _ r λ res.
        kept-Selects _
          (search (bind-Selects, get_impact-Selects, get_confidence-Selects, get_action-Selects)),
  )

  with_data-Selects :
      (d : AdditionalData) (v : Option Bytes) → Selects {Res = Res} {Row = Row} (with_data o d v)
  unfolding Selects
  with_data-Selects d none = tt
  with_data-Selects d (some v) = bind-Selects _ _ (get_data-Selects Res Row o _ v) (λ x. tt)

  additional_data_row-Selects : (res : Res) (row : Row) → Selects (additional_data_row o res row)
  unfolding Selects
  additional_data_row-Selects res row =
      search (bind-Selects, field-Selects, field_rules, with_data-Selects) depth 20

  next_data-Selects :
      (rest : Reading Res Row (List AdditionalData)) (d : AdditionalData × Bool)
      → Selects rest
      → Selects (next_data o rest d)
  unfolding Selects
  next_data-Selects rest (d, false) h = tt
  next_data-Selects rest (d, true) h = bind-Selects rest _ h (λ more. tt)

  next_row-Selects :
      (res : Res) (rest : Reading Res Row (List AdditionalData))
      → Selects rest
      → (r : Result (Option Row)) → Selects (next_row o res rest r)
  unfolding Selects
  next_row-Selects res rest h (err e) = tt
  next_row-Selects res rest h (ok none) = tt
  next_row-Selects res rest h (ok (some row)) =
      bind-Selects _ _ (additional_data_row-Selects res row) (λ d. next_data-Selects rest d h)

  data_rows-Selects : (n : ℕ) (res : Res) → Selects {Res = Res} {Row = Row} (data_rows o n res)
  unfolding data_rows Selects
  data_rows-Selects zero res = tt
  data_rows-Selects (suc n) res = next_row-Selects res _ (data_rows-Selects n res)

  pub get_additional_data-Selects :
      (m t : ℕ) → Selects {Res = Res} {Row = Row} (get_additional_data o m t)
  unfolding get_additional_data
  get_additional_data-Selects m t =
      asked-Selects _ _ (_, refl) (λ res. data_rows-Selects o.fuel res)

  buffer_of-Selects : (v : Option Bytes) → Selects {Res = Res} {Row = Row} (buffer_of o v)
  unfolding Selects
  buffer_of-Selects none = tt
  buffer_of-Selects (some v) = λ t. tt

  buffer_field-Selects :
      (res : Res) (row : Row) (k : Data → Reading Res Row OverflowAlert)
      → ((d : Data) → Selects (k d))
      → Selects (field res row 2 (buffer_of o) >>= k)
  buffer_field-Selects res row k h =
      bind-Selects (field res row 2 (buffer_of o)) k
        (field-Selects res row 2 (buffer_of o) buffer_of-Selects) h

  pub get_overflow_alert-Selects :
      (m : ℕ) → Selects {Res = Res} {Row = Row} (get_overflow_alert o m)
  unfolding get_overflow_alert Selects
  get_overflow_alert-Selects m =
      one-Selects _ _ (_, refl)
        λ res row.
          search (bind-Selects, get_string-Selects, get_uint32-Selects, buffer_field-Selects) depth
            20
