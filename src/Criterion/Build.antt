-- ===== src/Criterion/Build.antt =====
-- src/requiemdb-sql.c: the text of a criterion. The operators of librequiem and the texts that an SQL
-- plugin writes for constraints are parameters; a plugin that lacks a function gives its error.
pub mod Moment
use Prim.Native.Nat.{◌^◌}
use librequiemdb.Base.{
  ℕ, ◌+◌, ◌-◌, Bool, true, false, List, [], ◌∷◌, ◌++◌, Option, none, some, ◌==◌, if◌then◌else◌,
  Bytes, codes,
}
use librequiemdb.Error.{Result, ok, err, Error, db, raw, query, ◌>>=◌}
use librequiemdb.Plugin.{Plugin}
use librequiemdb.Strings.{Strings}
use librequiemdb.Sql.{Sql, escape_text}
use librequiemdb.Criterion.{like_value}
use librequiemdb.Message.{Time}
use librequiemdb.Time.{Clock, add32, time_to_timestamp}

-- `requiemdb_sql_time_constraint_type_t`
pub data TimeConstraint : Type 0 where
  year month yday mday wday hour min sec : TimeConstraint

-- `idmef_criterion_operator_t` with the tests that the source makes of it, and the plugin's texts.
pub record Dialect : Type 1 where
  pub Operator : Type 0
  pub is_null : Operator → Bool
  pub is_not_null : Operator → Bool
  pub is_equal : Operator → Bool
  pub is_not_equal : Operator → Bool
  pub has_not : Operator → Bool
  pub has_substr : Operator → Bool
  pub null_operator : Operator
  pub equal_operator : Operator
  pub operator_string : Operator → Bytes
  pub build_constraint : Bytes → Bytes → Operator → Bytes → Result Bytes
  pub build_time_constraint : Bytes → Bytes → TimeConstraint → Operator → ℕ → Result Bytes

-- `struct tm` of a broken-down time, where -1 is a number that is not asked for.
pub record Moment' : Type 0 where
  pub tm_year : ℕ
  pub tm_mon : ℕ
  pub tm_yday : ℕ
  pub tm_mday : ℕ
  pub tm_wday : ℕ
  pub tm_hour : ℕ
  pub tm_min : ℕ
  pub tm_sec : ℕ

-- `idmef_value_t`: a time, or another value with its content as a string or as data, and with what
-- `idmef_value_to_string` gives.
pub data FixedValue : Type 0 where
  time_value : Option Time → FixedValue
  other_value : Option Bytes → Result Bytes → FixedValue

-- `idmef_criterion_value_t`
pub data CriterionValue : Type 0 where
  fixed : FixedValue → CriterionValue
  regex : Option Bytes → CriterionValue
  broken_down_time : Moment' → CriterionValue
  unknown_value : CriterionValue

abbrev pub minus_one : ℕ
minus_one = 2 ^ 32 - 1

-- `if ( year != -1 ) year += 1900`, and the same for the month
abbrev pub corrected : ℕ → ℕ → ℕ
corrected n by' = if n == minus_one then n else add32 n by'

-- `tbl`
abbrev pub time_parts : Moment' → List (TimeConstraint × ℕ)
time_parts t =
    (year, corrected t.tm_year 1900)
    ∷ (month, corrected t.tm_mon 1)
    ∷ (yday, t.tm_yday)
    ∷ (mday, t.tm_mday)
    ∷ (wday, t.tm_wday)
    ∷ (hour, t.tm_hour)
    ∷ (min, t.tm_min)
    ∷ (sec, t.tm_sec)
    ∷ []

module _ (str : Strings) (d : Dialect) where
  open d use {Operator}

  abbrev separated : Bool → Bytes → Result Bytes
  separated prev out = if prev then str.cat out (codes " AND ") else ok out

  -- The loop over `tbl`.
  unfoldable pub time_loop :
      Bytes → Operator → Bool → List (TimeConstraint × ℕ) → Bytes → Result Bytes
  time_loop field op prev [] out = ok out
  time_loop field op prev ((type, value) ∷ parts) out =
      let skipped = time_loop field op prev parts out in
      let written = (do
        out' ← separated prev out
        out'' ← d.build_time_constraint out' field type op value
        time_loop field op true parts out'') in
      if value == minus_one then skipped else written

  -- `build_criterion_broken_down_time_equal`
  unfoldable pub broken_down_time_equal : Bytes → Operator → Moment' → Bytes → Result Bytes
  unfolding time_loop
  broken_down_time_equal field op t out = time_loop field op false (time_parts t) out

  -- `build_criterion_broken_down_time_not_equal`
  unfoldable pub broken_down_time_not_equal : Bytes → Moment' → Bytes → Result Bytes
  unfolding broken_down_time_equal
  broken_down_time_not_equal field t out = do
    out' ← str.cat out (codes "NOT(")
    out'' ← broken_down_time_equal field d.equal_operator t out'
    str.cat out'' (codes ")")

  -- `build_criterion_broken_down_time`
  unfoldable pub build_broken_down_time : Bytes → Operator → Moment' → Bytes → Result Bytes
  unfolding broken_down_time_not_equal
  build_broken_down_time field op t out =
      if d.is_equal op
      then broken_down_time_equal field op t out
      else if d.is_not_equal op
      then broken_down_time_not_equal field t out
      else err (db query)

  module _ (p : Plugin) (clock : Clock) where
    open p use {World}

    abbrev pub then_write :
        Result Bytes × Sql World → (Bytes → Result Bytes) → Result Bytes × Sql World
    then_write (err e, s) k = (err e, s)
    then_write (ok text, s) k = (k text, s)

    -- `build_criterion_fixed_sql_value`, onto an empty output
    unfoldable pub fixed_sql_value : Operator → FixedValue → Sql World → Result Bytes × Sql World
    unfolding time_to_timestamp like_value escape_text
    fixed_sql_value op (time_value none) s = (err (raw 1), s)
    fixed_sql_value op (time_value (some t)) s =
        ((do stamp ← time_to_timestamp clock (some t); str.cat [] stamp.time), s)
    fixed_sql_value op (other_value content shown) s =
        if d.has_substr op
        then elim content [
          | none ↦ (err (raw 1), s)
          | some input ↦ then_write (escape_text p (some (like_value str input)) s) (str.cat [])
        ]
        else elim shown [
          | err e ↦ (err e, s)
          | ok text ↦ then_write (escape_text p (some text) s) (str.cat [])
        ]

    -- `build_criterion_fixed_value`
    unfoldable pub fixed_value :
        Bytes → Operator → FixedValue → Bytes → Sql World → Result Bytes × Sql World
    unfolding fixed_sql_value
    fixed_value field op value out s =
        then_write (fixed_sql_value op value s) (d.build_constraint out field op)

    -- `build_criterion_regex`
    unfoldable pub build_regex :
        Bytes → Operator → Option Bytes → Bytes → Sql World → Result Bytes × Sql World
    unfolding escape_text
    build_regex field op r out s = then_write (escape_text p r s) (d.build_constraint out field op)

    unfoldable pub build_value :
        Bytes → Operator → CriterionValue → Bytes → Sql World → Result Bytes × Sql World
    unfolding fixed_value build_regex build_broken_down_time
    build_value field op (fixed v) out s = fixed_value field op v out s
    build_value field op (regex r) out s = build_regex field op r out s
    build_value field op (broken_down_time t) out s = (build_broken_down_time field op t out, s)
    build_value field op unknown_value out s = (err (raw 1), s)

    -- "%s %s" of the field and an operator
    abbrev pub field_operator : Bytes → Operator → Bytes
    field_operator field op = field ++ b' ' ∷ d.operator_string op

    abbrev pub in_brackets :
        Bytes → Operator → CriterionValue → Result Bytes → Sql World → Result Bytes × Sql World
    in_brackets field op value (err e) s = (err e, s)
    in_brackets field op unknown_value (ok out) s = (str.cat out (codes ")"), s)
    in_brackets field op value (ok out) s =
        then_write (build_value field op value out s) (λ out'. str.cat out' (codes ")"))

    -- `requiemdb_sql_build_criterion_string`. An operator with NOT that goes with a value of an unknown
    -- type keeps the result of the opening bracket, which is not negative.
    unfoldable pub build_criterion :
        Bytes → Operator → CriterionValue → Bytes → Sql World → Result Bytes × Sql World
    unfolding build_value
    build_criterion field op value out s =
        if d.is_null op
        then (str.cat out (field_operator field op), s)
        else if d.is_not_null op
        then (str.cat out (field_operator field op), s)
        else if d.has_not op
        then in_brackets field op value
            (str.cat out (b'(' ∷ (field_operator field d.null_operator ++ codes " OR "))) s
        else build_value field op value out s
