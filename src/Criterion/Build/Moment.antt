-- ===== src/Criterion/Build/Moment.antt =====
-- src/requiemdb-sql.c: the text of a broken-down time.
use librequiemdb.Base.{
  ℕ, Bool, true, false, List, [], ◌∷◌, ◌++◌, ◌≡◌, refl, sym, ap, ◌∙◌, ◌==◌, if◌then◌else◌, Bytes,
  codes, append-nil, append_assoc, Bool-cases, inl, inr, arith,
}
use librequiemdb.Error.{Result, ok, err, db, query}
use librequiemdb.Strings.{Strings, Appends}
use librequiemdb.Criterion.Build.{
  TimeConstraint, Dialect, Moment', minus_one, time_parts, time_loop, separated,
  broken_down_time_equal, broken_down_time_not_equal, build_broken_down_time,
}

-- The numbers that are asked for.
abbrev pub asked_parts : List (TimeConstraint × ℕ) → List (TimeConstraint × ℕ)
asked_parts [] = []
asked_parts ((type, value) ∷ parts) =
    let rest = asked_parts parts in if value == minus_one then rest else (type, value) ∷ rest

module _ (str : Strings) (more : Appends str) (d : Dialect)
    (part : Bytes → TimeConstraint → d.Operator → ℕ → Bytes)
    (writes : (out field : Bytes) (type : TimeConstraint) (op : d.Operator) (value : ℕ)
      → d.build_time_constraint out field type op value
        ≡ ok (out ++ part field type op value)) where
  -- The constraints with AND between them.
  abbrev pub joined_by_and : Bytes → d.Operator → List (TimeConstraint × ℕ) → Bytes
  joined_by_and field op [] = []
  joined_by_and field op ((type, value) ∷ []) = part field type op value
  joined_by_and field op ((type, value) ∷ q ∷ parts) =
      part field type op value ++ (codes " AND " ++ joined_by_and field op (q ∷ parts))

  abbrev sep : Bool → Bytes
  sep prev = if prev then codes " AND " else []

  -- What the loop adds behind a first constraint, or as its start.
  abbrev tail' : Bool → Bytes → d.Operator → List (TimeConstraint × ℕ) → Bytes
  tail' false field op parts = joined_by_and field op parts
  tail' true field op [] = []
  tail' true field op (q ∷ parts) = codes " AND " ++ joined_by_and field op (q ∷ parts)

  tail-cons :
      (prev : Bool) (field : Bytes) (op : d.Operator) (type : TimeConstraint) (value : ℕ)
      (parts : List (TimeConstraint × ℕ))
      → tail' prev field op ((type, value) ∷ parts)
        ≡ sep prev ++ (part field type op value ++ tail' true field op parts)
  tail-cons false field op type value [] = sym (append-nil (part field type op value))
  tail-cons false field op type value (q ∷ parts) = refl
  tail-cons true field op type value [] =
      ap (λ t. codes " AND " ++ t) (sym (append-nil (part field type op value)))
  tail-cons true field op type value (q ∷ parts) = refl

  separated-out : (prev : Bool) (out : Bytes) → separated str d prev out ≡ ok (out ++ sep prev)
  separated-out true out = more.cat_ok out (codes " AND ")
  separated-out false out = ap ok (sym (append-nil out))

  time_loop-tail :
      (field : Bytes) (op : d.Operator) (prev : Bool) (parts : List (TimeConstraint × ℕ))
      (out : Bytes)
      → time_loop str d field op prev parts out
        ≡ ok (out ++ tail' prev field op (asked_parts parts))
  unfolding time_loop
  time_loop-tail field op true [] out = ap ok (sym (append-nil out))
  time_loop-tail field op false [] out = ap ok (sym (append-nil out))
  time_loop-tail field op prev ((type, value) ∷ parts) out =
      elim (Bool-cases (value == minus_one)) [
        | inl skipped ↦ rw skipped (time_loop-tail field op prev parts out)
        | inr asked ↦ rw asked (
            rw (separated-out prev out) (
              rw (writes _ field type op value) (
                time_loop-tail field op true parts _
                ∙ ap ok (
                    append_assoc (out ++ sep prev) (part field type op value)
                      (tail' true field op (asked_parts parts))
                    ∙ append_assoc out (sep prev)
                        (part field type op value ++ tail' true field op (asked_parts parts))
                    ∙ ap (λ t. out ++ t)
                        (sym (tail-cons prev field op type value (asked_parts parts)))))))
      ]

  -- What the text is, by the operator.
  abbrev pub moment_text : Bytes → d.Operator → Moment' → Bytes → Result Bytes
  moment_text field op t out =
      if d.is_equal op
      then ok (out ++ joined_by_and field op (asked_parts (time_parts t)))
      else if d.is_not_equal op
      then ok (
          out
          ++ (codes "NOT("
              ++ (joined_by_and field d.equal_operator (asked_parts (time_parts t)) ++ codes ")")))
      else err (db query)

  not_equal-text :
      (field : Bytes) (t : Moment') (out : Bytes)
      → broken_down_time_not_equal str d field t out
        ≡ ok (
            out
            ++ (codes "NOT("
                ++ (joined_by_and field d.equal_operator (asked_parts (time_parts t))
                    ++ codes ")")))
  unfolding broken_down_time_not_equal broken_down_time_equal
  not_equal-text field t out =
      let c = joined_by_and field d.equal_operator (asked_parts (time_parts t)) in
      rw (more.cat_ok out (codes "NOT(")) (
        rw (time_loop-tail field d.equal_operator false (time_parts t) (out ++ codes "NOT(")) (
          more.cat_ok _ (codes ")")
          ∙ ap ok (
              append_assoc (out ++ codes "NOT(") c (codes ")")
              ∙ append_assoc out (codes "NOT(") (c ++ codes ")"))))

  -- While memory lasts, and where the plugin appends to the output the text of each constraint on
  -- a number of a time: a broken-down time with the operator for equality adds the constraints of
  -- its numbers that are not -1, in the order of the table and with AND between them; with the
  -- one for inequality it adds NOT with these, for equality, in brackets; and any other operator
  -- is refused.
  pub build_broken_down_time-text :
      (field : Bytes) (op : d.Operator) (t : Moment') (out : Bytes)
      → build_broken_down_time str d field op t out ≡ moment_text field op t out
  unfolding build_broken_down_time broken_down_time_equal
  build_broken_down_time-text field op t out =
      ground (arith, not_equal-text field t out, time_loop-tail field op false (time_parts t) out)
