-- ===== src/Classic/Idents/Keeping.antt =====
-- classic.c: the lock and the transaction of a connection behind a request for identifiers and its rows.
use librequiemdb.Base.{
  ℕ, Bool, true, false, [], refl, Option, none, some, Bytes, codes, if◌then◌else◌,
}
use librequiemdb.Error.{Result, ok, err}
use librequiemdb.Plugin.{Plugin}
use librequiemdb.Strings.{Strings}
use librequiemdb.Sql.{Sql, escape_text}
use librequiemdb.Sql.Lock.{IsLive}
use librequiemdb.Program.Keeps.{
  Stays, Stays-trans, Keeps-refl, escape_text-Stays, query_sql-Stays, fetch_row-Stays,
  fetch_field-Stays,
}
use librequiemdb.Criterion.{like_value}
use librequiemdb.Idmef.{Class, Paths}
use librequiemdb.Time.{Clock}
use librequiemdb.Criterion.Build.{
  Dialect, FixedValue, time_value, other_value, CriterionValue, fixed, regex, broken_down_time,
  unknown_value, then_write, fixed_sql_value, fixed_value, build_regex, build_value, in_brackets,
  build_criterion,
}
use librequiemdb.Classic.Select.{Select}
use librequiemdb.Classic.Join.{Join}
use librequiemdb.Classic.Resolve.{resolve, in_where}
use librequiemdb.Classic.Criteria.{
  Criteria, absent, linked, is_present, Builder, resolve_criteria, resolve_criterion, built,
  and_then, write, when, conjunction, disjunction,
}
use librequiemdb.Classic.Idents.{
  Order, builder, sent_text, restricted_by, ordered_by, selected_ident, get_message_idents,
  ident_of, row_ident, get_next_message_ident,
}

module _ (p : Plugin) (str : Strings) (clock : Clock) (d : Dialect) where
  open p use {World, Res, Row}

  same-Stays {ℓ} : {A : Type ℓ} (s : Sql World) (r : Result A) → IsLive s → Stays p str s (r, s)
  same-Stays s r l = record { keeps = Keeps-refl p str s; live = λ _. l }

  then_write-Stays :
      (s : Sql World) (a : Result Bytes × Sql World) (k : Bytes → Result Bytes)
      → Stays p str s a
      → Stays p str s (then_write str d p clock a k)
  then_write-Stays s (err e, t) k h = record { keeps = h.keeps; live = λ e. cc e }
  then_write-Stays s (ok text, t) k h = record { keeps = h.keeps; live = λ _. h.live refl }

  choose-Stays :
      (s : Sql World) (b : Bool) (x y : Result Bytes × Sql World)
      → Stays p str s x
      → Stays p str s y
      → Stays p str s (if b then x else y)
  choose-Stays s true x y h k = h
  choose-Stays s false x y h k = k

  text-Stays :
      (i : Option Bytes) (s : Sql World)
      → IsLive s
      → Stays p str s (then_write str d p clock (escape_text p i s) (str.cat []))
  text-Stays i s l =
      then_write-Stays s (escape_text p i s) (str.cat []) (escape_text-Stays p str i s l)

  fixed_sql_value-Stays :
      (op : d.Operator) (v : FixedValue) (s : Sql World)
      → IsLive s
      → Stays p str s (fixed_sql_value str d p clock op v s)
  unfolding fixed_sql_value
  fixed_sql_value-Stays op (time_value none) s l = same-Stays s _ l
  fixed_sql_value-Stays op (time_value (some t)) s l = same-Stays s _ l
  fixed_sql_value-Stays op (other_value none (err e)) s l =
      choose-Stays s (d.has_substr op) _ _ (same-Stays s _ l) (same-Stays s _ l)
  fixed_sql_value-Stays op (other_value none (ok t)) s l =
      choose-Stays s (d.has_substr op) _ _ (same-Stays s _ l) (text-Stays (some t) s l)
  fixed_sql_value-Stays op (other_value (some i) (err e)) s l =
      choose-Stays s (d.has_substr op) _ _ (text-Stays (some (like_value str i)) s l)
        (same-Stays s _ l)
  fixed_sql_value-Stays op (other_value (some i) (ok t)) s l =
      choose-Stays s (d.has_substr op) _ _ (text-Stays (some (like_value str i)) s l)
        (text-Stays (some t) s l)

  build_value-Stays :
      (field : Bytes) (op : d.Operator) (v : CriterionValue) (out : Bytes) (s : Sql World)
      → IsLive s
      → Stays p str s (build_value str d p clock field op v out s)
  unfolding build_value fixed_value build_regex
  build_value-Stays field op (fixed v) out s l =
      then_write-Stays s _ _ (fixed_sql_value-Stays op v s l)
  build_value-Stays field op (regex r) out s l =
      then_write-Stays s _ _ (escape_text-Stays p str r s l)
  build_value-Stays field op (broken_down_time t) out s l = same-Stays s _ l
  build_value-Stays field op unknown_value out s l = same-Stays s _ l

  in_brackets-Stays :
      (field : Bytes) (op : d.Operator) (v : CriterionValue) (r : Result Bytes) (s : Sql World)
      → IsLive s
      → Stays p str s (in_brackets str d p clock field op v r s)
  in_brackets-Stays field op (fixed v) (ok out) s l =
      then_write-Stays s _ _ (build_value-Stays field op (fixed v) out s l)
  in_brackets-Stays field op (regex r) (ok out) s l =
      then_write-Stays s _ _ (build_value-Stays field op (regex r) out s l)
  in_brackets-Stays field op (broken_down_time t) (ok out) s l =
      then_write-Stays s _ _ (build_value-Stays field op (broken_down_time t) out s l)
  in_brackets-Stays field op unknown_value (ok out) s l = same-Stays s _ l
  in_brackets-Stays field op (fixed v) (err e) s l = same-Stays s _ l
  in_brackets-Stays field op (regex r) (err e) s l = same-Stays s _ l
  in_brackets-Stays field op (broken_down_time t) (err e) s l = same-Stays s _ l
  in_brackets-Stays field op unknown_value (err e) s l = same-Stays s _ l

  pub build_criterion-Stays :
      (field : Bytes) (op : d.Operator) (v : CriterionValue) (out : Bytes) (s : Sql World)
      → IsLive s
      → Stays p str s (build_criterion str d p clock field op v out s)
  unfolding build_criterion
  build_criterion-Stays field op v out s l = choose-Stays s (d.is_null op) _ _ (same-Stays s _ l) (
      choose-Stays s (d.is_not_null op) _ _ (same-Stays s _ l) (
        choose-Stays s (d.has_not op) _ _ (in_brackets-Stays field op v _ s l)
          (build_value-Stays field op v out s l)))

  module _ (paths : Paths) (create_time : Class → Result paths.Path')
      (limited : Bytes → Result Bytes) where
    open paths use {Path'}

    abbrev Env' : Type 0
    Env' = Join Path' × Sql World

    -- A step of the resolution over a live connection.
    abbrev KeepsLive : (Bytes → Env' → Env' × Result Bytes) → Type 0
    KeepsLive k =
        (out : Bytes) (e : Env') → IsLive e.1 → Stays p str e.1 ((k out e).1, (k out e).0.1)

    abbrev asked : Builder Path'
    asked = builder p str clock d paths

    and_then-Stays :
        (s : Sql World) (a : Env' × Result Bytes) (k : Bytes → Env' → Env' × Result Bytes)
        → Stays p str s (a.1, a.0.1)
        → KeepsLive k
        → Stays p str s ((and_then str paths asked a k).1, (and_then str paths asked a k).0.1)
    and_then-Stays s (e, err x) k h more = h
    and_then-Stays s (e, ok out) k h more = Stays-trans p str h (more out e (h.live refl))

    write-KeepsLive : (text : Bytes) → KeepsLive (write str paths asked text)
    write-KeepsLive text out e l = same-Stays e.1 _ l

    when-KeepsLive :
        (b : Bool) (k : Bytes → Env' → Env' × Result Bytes)
        → KeepsLive k
        → KeepsLive (when str paths asked b k)
    unfolding when
    when-KeepsLive true k h out e l = h out e l
    when-KeepsLive false k h out e l = same-Stays e.1 _ l

    conjunction-KeepsLive :
        (k : Bytes → Env' → Env' × Result Bytes)
        → KeepsLive k
        → KeepsLive (conjunction str paths asked k)
    unfolding conjunction
    conjunction-KeepsLive k h out e l =
        and_then-Stays e.1 (write str paths asked (codes " AND ") out e) k
          (write-KeepsLive (codes " AND ") out e l) h

    disjunction-KeepsLive :
        (k : Bytes → Env' → Env' × Result Bytes)
        → KeepsLive k
        → KeepsLive (disjunction str paths asked k)
    unfolding disjunction
    disjunction-KeepsLive k h out e l =
        and_then-Stays e.1
          (and_then str paths asked (write str paths asked (codes ") OR (") out e) k)
          (write str paths asked (codes "))"))
          (and_then-Stays e.1 (write str paths asked (codes ") OR (") out e) k
            (write-KeepsLive (codes ") OR (") out e l) h)
          (write-KeepsLive (codes "))"))

    built-Stays :
        (c : asked.Criterion) (out : Bytes) (j : Join Path') (s : Sql World) (r : Result Bytes)
        → IsLive s
        → Stays p str s (
          (built str paths asked c out ((j, s), r)).1,
          (built str paths asked c out ((j, s), r)).0.1,
        )
    unfolding built
    built-Stays c out j s (err x) l = same-Stays s _ l
    built-Stays c out j s (ok field) l = build_criterion-Stays field c.1 c.2 out s l

    resolve_criterion-KeepsLive :
        (c : asked.Criterion) → KeepsLive (resolve_criterion str paths asked c)
    unfolding resolve_criterion
    resolve_criterion-KeepsLive c out (j, s) l =
        let a = resolve str paths c.0 in_where j [] in built-Stays c out a.0 s a.1 l

    resolve_criteria-KeepsLive :
        (c : Criteria asked.Criterion) → KeepsLive (resolve_criteria str paths asked c)
    unfolding resolve_criteria
    resolve_criteria-KeepsLive absent out e l = same-Stays e.1 _ l
    resolve_criteria-KeepsLive (linked c x y) out e l =
        and_then-Stays e.1
          (and_then str paths asked
            (and_then str paths asked
              (when str paths asked (is_present y) (write str paths asked (codes "((")) out e)
              (resolve_criterion str paths asked c))
            (when str paths asked (is_present x)
              (conjunction str paths asked (resolve_criteria str paths asked x))))
          _
          (and_then-Stays e.1
            (and_then str paths asked
              (when str paths asked (is_present y) (write str paths asked (codes "((")) out e)
              (resolve_criterion str paths asked c))
            _
            (and_then-Stays e.1
              (when str paths asked (is_present y) (write str paths asked (codes "((")) out e) _
              (when-KeepsLive (is_present y) _ (write-KeepsLive (codes "((")) out e l)
              (resolve_criterion-KeepsLive c))
            (when-KeepsLive (is_present x) _
              (conjunction-KeepsLive _ (resolve_criteria-KeepsLive x))))
          (when-KeepsLive (is_present y) _ (disjunction-KeepsLive _ (resolve_criteria-KeepsLive y)))

    sent_text-Stays :
        (r : Result Bytes) (s : Sql World)
        → IsLive s
        → Stays p str s (sent_text p str clock d paths create_time limited r s)
    sent_text-Stays (err e) s l = same-Stays s _ l
    sent_text-Stays (ok q) s l = query_sql-Stays p str q s l

    restricted_by-Stays :
        (criteria : Criteria asked.Criterion) (select : Select) (s : Sql World)
        (a : Env' × Result Bytes)
        → Stays p str s (a.1, a.0.1)
        → Stays p str s (restricted_by p str clock d paths create_time limited criteria select a)
    restricted_by-Stays criteria select s ((j, t), err e) h = record {
      keeps = h.keeps;
      live = λ e. cc e;
    }
    restricted_by-Stays criteria select s ((j, t), ok conditions) h =
        Stays-trans p str h (sent_text-Stays _ t (h.live refl))

    ordered_by-Stays :
        (criteria : Criteria asked.Criterion) (a : Join Path' × Result Select) (s : Sql World)
        → IsLive s
        → Stays p str s (ordered_by p str clock d paths create_time limited criteria a s)
    ordered_by-Stays criteria (j, err e) s l = same-Stays s _ l
    ordered_by-Stays criteria (j, ok select) s l =
        restricted_by-Stays criteria select s (resolve_criteria str paths asked criteria [] (j, s))
          (resolve_criteria-KeepsLive criteria [] (j, s) l)

    selected_ident-Stays :
        (c : Class) (criteria : Criteria asked.Criterion) (order : Order) (r : Result Select)
        (s : Sql World)
        → IsLive s
        → Stays p str s
            (selected_ident p str clock d paths create_time limited c criteria order r s)
    selected_ident-Stays c criteria order (err e) s l = same-Stays s _ l
    selected_ident-Stays c criteria order (ok select) s l = ordered_by-Stays criteria _ s l

    -- Over a connection that is open if a transaction is: a request for the identifiers of
    -- messages, with any criteria and order, keeps the lock of the thread, the open transaction
    -- and the setting of internal transactions whatever its result, and a request that succeeds
    -- leaves the connection open if a transaction is.
    pub get_message_idents-Stays :
        (c : Class) (criteria : Criteria asked.Criterion) (order : Order) (s : Sql World)
        → IsLive s
        → Stays p str s
            (get_message_idents p str clock d paths create_time limited c criteria order s)
    unfolding get_message_idents
    get_message_idents-Stays c criteria order s l = selected_ident-Stays c criteria order _ s l

    ident_of-Stays :
        (old : ℕ) (s : Sql World) (a : Result (Option Bytes) × Sql World)
        → Stays p str s a
        → Stays p str s (ident_of p str clock d paths create_time limited old a)
    ident_of-Stays old s (err e, t) h = record { keeps = h.keeps; live = λ e. cc e }
    ident_of-Stays old s (ok none, t) h = record { keeps = h.keeps; live = λ _. h.live refl }
    ident_of-Stays old s (ok (some v), t) h = record { keeps = h.keeps; live = λ _. h.live refl }

    row_ident-Stays :
        (old : ℕ) (res : Res) (s : Sql World) (a : Result (Option Row) × Sql World)
        → Stays p str s a
        → Stays p str s (row_ident p str clock d paths create_time limited old res a)
    row_ident-Stays old res s (err e, t) h = record { keeps = h.keeps; live = λ e. cc e }
    row_ident-Stays old res s (ok none, t) h = record { keeps = h.keeps; live = λ _. h.live refl }
    row_ident-Stays old res s (ok (some row), t) h =
        Stays-trans p str h
          (ident_of-Stays old t _ (fetch_field-Stays p str res row 0 t (h.live refl)))

    -- The identifier of a row: over a live connection, the lock and the transaction stay.
    get_next_message_ident-Stays :
        (old : ℕ) (res : Res) (s : Sql World)
        → IsLive s
        → Stays p str s (get_next_message_ident p str clock d paths create_time limited old res s)
    unfolding get_next_message_ident
    get_next_message_ident-Stays old res s l =
        row_ident-Stays old res s _ (fetch_row-Stays p str res s l)
