-- ===== src/Classic/Select.antt =====
-- plugins/format/classic/classic-sql-select.c: the selected fields of a query and its modifiers.
pub mod Columns
use Prim.Native.Nat.{◌^◌, bit_and}
use librequiemdb.Base.{
  ℕ, ◌+◌, ◌-◌, ltb, ◌%◌, Bool, true, false, not, [], ◌∷◌, ◌++◌, Option, none, some, ◌==◌,
  if◌then◌else◌, Bytes, codes,
}
use librequiemdb.Base.Decimal.{print_d}
use librequiemdb.Error.{Result, ok, err, ◌>>=◌}
use librequiemdb.Strings.{Strings}
use librequiemdb.Selection.{
  function_min, function_max, function_avg, function_std, function_count, group_by, order_asc,
  order_desc,
}

-- `struct classic_sql_select`
pub record Select : Type 0 where
  pub fields : Bytes
  pub field_count : ℕ
  pub order_by : Bytes
  pub group_by : Bytes

-- `classic_sql_select_new`
abbrev pub empty : Select
empty = record { fields = []; field_count = 0; order_by = []; group_by = [] }

-- `flags & bit`
abbrev pub has : ℕ → ℕ → Bool
has flags bit = not (bit_and flags bit == 0)

-- The first entry of `sql_functions_table` whose flag is set.
unfoldable pub function_name : ℕ → Option Bytes
function_name flags =
    if has flags function_min
    then some (codes "MIN")
    else if has flags function_max
    then some (codes "MAX")
    else if has flags function_avg
    then some (codes "AVG")
    else if has flags function_std
    then some (codes "STD")
    else if has flags function_count
    then some (codes "COUNT")
    else none

abbrev pub field_text : Option Bytes → Bytes → Bytes
field_text none name = name
field_text (some f) name = f ++ b'(' ∷ (name ++ b')' ∷ [])

-- The entry of `order_by`.
abbrev pub order_text : ℕ → ℕ → Bytes
order_text flags n = print_d n ++ (if has flags order_asc then codes " ASC" else codes " DESC")

module _ (str : Strings) where
  -- `if ( ! requiem_string_is_empty(s) ) requiem_string_cat(s, ", ")`
  unfoldable pub separate : Bytes → Result Bytes
  separate [] = ok []
  separate (c ∷ s) = str.cat (c ∷ s) (codes ", ")

  -- An entry of `group_by` or `order_by`, if the flags ask for it.
  unfoldable pub modify : Bool → Bytes → Bytes → Result Bytes
  unfolding separate
  modify false s text = ok s
  modify true s text = do s' ← separate s; str.cat s' text

  -- `classic_sql_select_add_field`; `field_count` has 32 bits.
  unfoldable pub add_field : Select → Bytes → ℕ → Result Select
  unfolding separate modify function_name
  add_field s name flags = do
    let n = (s.field_count + 1) % 2 ^ 32
    fields ← separate s.fields
    fields' ← str.cat fields (field_text (function_name flags) name)
    grouped ← modify (has flags group_by) s.group_by (print_d n)
    ordered ← modify (has flags (order_asc + order_desc)) s.order_by (order_text flags n)
    ok (record { fields = fields'; field_count = n; order_by = ordered; group_by = grouped })

  -- `classic_sql_select_fields_to_string`
  unfoldable pub fields_to_string : Select → Bytes → Result Bytes
  fields_to_string s out = str.cat out s.fields

  clause : Bytes → Bytes → Bytes → Result Bytes
  clause [] keyword out = ok out
  clause (c ∷ s) keyword out = str.cat out (keyword ++ c ∷ s)

  -- `classic_sql_select_modifiers_to_string`
  unfoldable pub modifiers_to_string : Select → Bytes → Result Bytes
  unfolding clause
  modifiers_to_string s out = do
    out' ← clause s.group_by (codes " GROUP BY ") out
    clause s.order_by (codes " ORDER BY ") out'
