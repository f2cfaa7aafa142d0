-- ===== src/Program/Served/Runs.antt =====
-- What a run does over a server that answers every call, call by call.
use librequiemdb.Base.{
  ℕ, Bool, true, false, List, [], ◌∷◌, ◌++◌, ◌≡◌, ◌∙◌, refl, sym, subst, ap, Option, none, some,
  Bytes, codes, arith, append_assoc, append-nil,
}
use librequiemdb.Base.Decimal.{decimal}
use librequiemdb.Error.{Error, Result, ok, err}
use librequiemdb.Plugin.{Plugin}
use librequiemdb.Strings.{Strings, Appends}
use librequiemdb.Sql.{Sql, query_sql, escape_text, escape_bytes, fetch_row, fetch_field}
use librequiemdb.Sql.Trace.{is_ok}
use librequiemdb.Delete.{send_text, query_sprintf}
use librequiemdb.Program.{
  Program, ret, fail, escape, escape_binary, insert, insert_anyway, last_insert_ident, Value,
  values_text, replaced, insert_head, insert_text, sql_insert, get_last_insert_ident, run,
  first_row, first_field, number_of,
}
use librequiemdb.Field.Decimal.{field_to_uint64-decimal}
use librequiemdb.Program.Served.{max_query, Serves, insertion, quoted_text, statements, outcome}

module _ (p : Plugin) (str : Strings) (more : Appends str) (sent : p.World → List Bytes)
    (quoted quoted_binary : Bytes → Bytes) (n : ℕ)
    (serves : Serves p sent quoted quoted_binary n) where
  open p use {World, Res, Row}

  -- The call gave `x` and sent `ss`; the connection is open.
  pub record Answers {ℓ} {A : Type ℓ} (s : Sql World) (a : Result A × Sql World) (x : Result A)
      (ss : List Bytes) : Type ℓ where
    pub gives : a.0 ≡ x
    pub open' : a.1.connected ≡ true
    pub sends : sent a.1.world ≡ sent s.world ++ ss

  escape_text-Answers :
      (i : Option Bytes) (s : Sql World)
      → s.connected ≡ true
      → Answers s (escape_text p i s) (ok (quoted_text quoted quoted_binary n i)) []
  unfolding escape_text
  escape_text-Answers none s on = record {
    gives = refl;
    open' = on;
    sends = sym (append-nil (sent s.world));
  }
  escape_text-Answers (some i) s on = record {
    gives = ground (arith, serves.of_escape i s.world);
    open' = ground (arith, serves.of_escape i s.world);
    sends = ground (arith, serves.of_escape i s.world, append-nil (sent s.world));
  }

  escape_bytes-Answers :
      (i : Bytes) (s : Sql World)
      → s.connected ≡ true
      → Answers s (escape_bytes p i s) (ok (quoted_binary i)) []
  unfolding escape_bytes
  escape_bytes-Answers i s on = record {
    gives = ground (arith, serves.of_escape_binary i s.world);
    open' = ground (arith, serves.of_escape_binary i s.world);
    sends = ground (arith, serves.of_escape_binary i s.world, append-nil (sent s.world));
  }

  pub query_sql-Answers :
      (q : Bytes) (s : Sql World)
      → s.connected ≡ true
      → Answers s (query_sql p q s) (query_sql p q s).0 (q ∷ [])
  unfolding query_sql
  query_sql-Answers q s on =
      let (r, e) = serves.of_query q s.world in
      record {
        gives = refl;
        open' = ground (arith, e);
        sends = ground (arith, e, serves.of_sent q s.world);
      }

  query_sql-gives :
      (q : Bytes) (s : Sql World) (res : Res)
      → s.connected ≡ true
      → (p.query q s.world).0 ≡ ok (some res)
      → (k : ℕ) × ((query_sql p q s).0 ≡ ok (some (res, k)))
  unfolding query_sql
  query_sql-gives q s res on e = (p.row_count res (query_sql p q s).1.world, ground (arith, e))

  Answers-trans {ℓ κ} :
      {A : Type ℓ} {B : Type κ} {s : Sql World} (a : Result A × Sql World) {x : Result A}
      {ss ts : List Bytes} (b : Result B × Sql World) {y : Result B}
      → Answers s a x ss
      → Answers a.1 b y ts
      → Answers s b y (ss ++ ts)
  Answers-trans {s = s} a {ss = ss} {ts = ts} b h k = record {
    gives = k.gives;
    open' = k.open';
    sends = k.sends ∙ ap (λ t. t ++ ts) h.sends ∙ append_assoc (sent s.world) ss ts;
  }

  query_sprintf-query :
      (table : Bytes) (s : Sql World)
      → query_sprintf p str (codes "SELECT max(_ident) FROM %s;") table s
        ≡ query_sql p (max_query table) s
  unfolding query_sprintf
  query_sprintf-query table s = ap (λ r. send_text p str r s) (more.cat_ok [] (max_query table))

  fetch_row-found :
      (res : Res) (s : Sql World) → (row : Row) × (fetch_row p res s ≡ (ok (some row), s))
  unfolding fetch_row
  fetch_row-found res s = let (row, e) = serves.of_row res s.world in (row, rw e refl)

  fetch_field-found :
      (res : Res) (row : Row) (s : Sql World)
      → fetch_field p res row 0 s ≡ (ok (some (decimal n)), s)
  unfolding fetch_field
  fetch_field-found res row s = rw (serves.of_field res row s.world) refl

  first_row-found :
      (old : ℕ) (r : Result (Option (Res × ℕ))) (s : Sql World) (res : Res) (k : ℕ)
      → r ≡ ok (some (res, k))
      → first_row p str old (r, s) ≡ (ok n, s)
  first_row-found old r s res k e =
      let (row, found) = fetch_row-found res s in
      ap (λ r. first_row p str old (r, s)) e
      ∙ ap (first_field p str old res) found
      ∙ ap (number_of p str old) (fetch_field-found res row s)
      ∙ ap (λ m. (m, s)) (field_to_uint64-decimal old n serves.small)

  get_last_insert_ident-Answers :
      (old : ℕ) (table : Bytes) (s : Sql World)
      → s.connected ≡ true
      → Answers s (get_last_insert_ident p str old table s) (ok n) (max_query table ∷ [])
  unfolding get_last_insert_ident
  get_last_insert_ident-Answers old table s on =
      let q = query_sql p (max_query table) s in
      let (res, found) = serves.of_max table s.world in
      let (k, gives) = query_sql-gives (max_query table) s res on found in
      let h = query_sql-Answers (max_query table) s on in
      subst (λ a. Answers s a (ok n) (max_query table ∷ []))
        (sym (
          ap (first_row p str old) (query_sprintf-query table s)
          ∙ first_row-found old q.0 q.1 res k gives))
        (record { gives = refl; open' = h.open'; sends = h.sends })

  insert_text-ok :
      (table fields : Bytes) (values : List Value)
      → insert_text p str table fields values ≡ ok (insertion table fields values)
  insert_text-ok table fields values =
      rw (more.cat_ok [] (insert_head table fields), insert_text)
        (rw (more.cat_ok (insert_head table fields) (values_text values)) (more.cat_ok _ _))

  pub query_sql-ok :
      (q : Bytes) (s : Sql World) (r : Option Res)
      → s.connected ≡ true
      → (p.query q s.world).0 ≡ ok r
      → is_ok (query_sql p q s).0 ≡ true
  unfolding query_sql
  query_sql-ok q s r on e = ground (arith, e)

  value_of {ℓ} : {A : Type ℓ} (r : Result A) → is_ok r ≡ true → (x : A) × (r ≡ ok x)
  value_of (ok x) h = (x, refl)
  value_of (err e) h = cc h

  -- An insertion succeeds.
  sql_insert-Answers :
      (table fields : Bytes) (values : List Value) (s : Sql World)
      → s.connected ≡ true
      → (x : Option (Res × ℕ)) × Answers s
          (sql_insert p str table fields values s)
          (ok x)
          (insertion table fields values ∷ [])
  unfolding sql_insert
  sql_insert-Answers table fields values s on =
      let q = insertion table fields values in
      let (r, e) = serves.of_query q s.world in
      let (x, gives) = value_of (query_sql p q s).0 (query_sql-ok q s r on e) in
      let h = query_sql-Answers q s on in
      (
        x,
        subst (λ t. Answers s (send_text p str t s) (ok x) (q ∷ []))
            (sym (insert_text-ok table fields values))
            (record { gives = gives; open' = h.open'; sends = h.sends }),
      )

  goes_on {ℓ} :
      {A : Type 0} {B : Type ℓ} (a : Result B × Sql World) (g : Error → Error)
      (k : B → Sql World → Result A × Sql World) (x : B)
      → a.0 ≡ ok x
      → elim a.0 as (λ _. Result A × Sql World) [ err e ↦ (err (g e), a.1) | ok x ↦ k x a.1 ]
        ≡ k x a.1
  goes_on {A = A} a g k x e =
      ap (λ r. elim r as (λ _. Result A × Sql World) [ err e ↦ (err (g e), a.1) | ok x ↦ k x a.1 ])
        e

  goes_on_anyway {ℓ} :
      {A : Type 0} {B : Type ℓ} (a : Result B × Sql World)
      (k : Bool → Sql World → Result A × Sql World) (x : B)
      → a.0 ≡ ok x
      → elim a.0 as (λ _. Result A × Sql World) [ err e ↦ k false a.1 | ok x ↦ k true a.1 ]
        ≡ k true a.1
  goes_on_anyway {A = A} a k x e =
      ap (λ r. elim r as (λ _. Result A × Sql World) [ err e ↦ k false a.1 | ok x ↦ k true a.1 ]) e

  -- While memory lasts, over a server that answers every call, with its largest identifier `n` of
  -- 64 bits, and a connection that is open: a program gives its outcome, sends its statements in
  -- order, and leaves the connection open.
  pub run-Answers :
      {c : Bool} {A : Type 0} (old : ℕ) (m : Program c A) (s : Sql World)
      → s.connected ≡ true
      → Answers s
          (run p str old m s)
          (outcome quoted quoted_binary n m)
          (statements quoted quoted_binary n m)
  unfolding run outcome statements
  run-Answers old (ret x) s on = record {
    gives = refl;
    open' = on;
    sends = sym (append-nil (sent s.world));
  }
  run-Answers old (fail e) s on = record {
    gives = refl;
    open' = on;
    sends = sym (append-nil (sent s.world));
  }
  run-Answers old (escape r i f) s on =
      let a = escape_text p i s in
      let h = escape_text-Answers i s on in
      let t = quoted_text quoted quoted_binary n i in
      subst
        (λ z.
          Answers s z (outcome quoted quoted_binary n (f t))
            (statements quoted quoted_binary n (f t)))
        (sym (goes_on a (replaced r) (λ t. run p str old (f t)) t h.gives))
        (Answers-trans a (run p str old (f t) a.1) h (run-Answers old (f t) a.1 h.open'))
  run-Answers old (escape_binary i f) s on =
      let a = escape_bytes p i s in
      let h = escape_bytes-Answers i s on in
      let t = quoted_binary i in
      subst
        (λ z.
          Answers s z (outcome quoted quoted_binary n (f t))
            (statements quoted quoted_binary n (f t)))
        (sym (goes_on a (λ e. e) (λ t. run p str old (f t)) t h.gives))
        (Answers-trans a (run p str old (f t) a.1) h (run-Answers old (f t) a.1 h.open'))
  run-Answers old (insert r table fields values m) s on =
      let a = sql_insert p str table fields values s in
      let (x, h) = sql_insert-Answers table fields values s on in
      subst
        (λ z.
          Answers s z (outcome quoted quoted_binary n m)
            (insertion table fields values ∷ statements quoted quoted_binary n m))
        (sym (goes_on a (replaced r) (λ _. run p str old m) x h.gives))
        (Answers-trans a (run p str old m a.1) h (run-Answers old m a.1 h.open'))
  run-Answers old (insert_anyway e table fields values f) s on =
      let a = sql_insert p str table fields values s in
      let (x, h) = sql_insert-Answers table fields values s on in
      subst
        (λ z.
          Answers s z (outcome quoted quoted_binary n (f true))
            (insertion table fields values ∷ statements quoted quoted_binary n (f true)))
        (sym (goes_on_anyway a (λ b. run p str old (f b)) x h.gives))
        (Answers-trans a (run p str old (f true) a.1) h (run-Answers old (f true) a.1 h.open'))
  run-Answers old (last_insert_ident table f) s on =
      let a = get_last_insert_ident p str old table s in
      let h = get_last_insert_ident-Answers old table s on in
      subst
        (λ z.
          Answers s z (outcome quoted quoted_binary n (f n))
            (max_query table ∷ statements quoted quoted_binary n (f n)))
        (sym (goes_on a (λ e. e) (λ n. run p str old (f n)) n h.gives))
        (Answers-trans a (run p str old (f n) a.1) h (run-Answers old (f n) a.1 h.open'))
