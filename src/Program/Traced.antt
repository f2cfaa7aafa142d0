-- ===== src/Program/Traced.antt =====
-- Programs over a plugin whose calls are recorded: none of their statements is a COMMIT.
use librequiemdb.Base.{
  ℕ, Bool, true, false, List, [], ◌++◌, ◌≡◌, refl, sym, subst, Option, none, some, Bytes, codes,
  same,
}
use librequiemdb.Error.{Error, Result, ok, err}
use librequiemdb.Plugin.{Plugin}
use librequiemdb.Strings.{Strings, Appends}
use librequiemdb.Sql.{
  Sql, query_sql, escape_text, escape_bytes, fetch_row, fetch_field, assert_connected, with_session,
  lock, update,
}
use librequiemdb.Sql.Trace.{
  Event, Observes, Without, Without-refl, Without-trans, Without-query_other,
  Without-assert_connected, Without-update,
}
use librequiemdb.Delete.{format_s, send_text, query_sprintf}
use librequiemdb.Program.{
  Program, ret, fail, escape, escape_binary, insert, insert_anyway, last_insert_ident, Value,
  values_text, replaced, insert_head, insert_text, sql_insert, get_last_insert_ident, run,
  first_row, first_field, number_of,
}

-- Escapes and the reading of results send no statement.
pub record Quiet (p : Plugin) (events : p.World → List Event) : Type 0 where
  pub of_escape : (i : Bytes) (w : p.World) → events (p.escape i w).1 ≡ events w
  pub of_escape_binary : (i : Bytes) (w : p.World) → events (p.escape_binary i w).1 ≡ events w
  pub of_fetch_row : (r : p.Res) (w : p.World) → events (p.fetch_row r w).1 ≡ events w
  pub of_fetch_field :
      (r : p.Res) (row : p.Row) (n : ℕ) (w : p.World)
      → events (p.fetch_field r row n w).1 ≡ events w

module _ (p : Plugin) (str : Strings) (more : Appends str) (events : p.World → List Event)
    (o : Observes p events) (quiet : Quiet p events) where
  open p use {World, Res, Row}

  abbrev commit : Bytes
  commit = codes "COMMIT"

  -- No COMMIT succeeded between the two states.
  abbrev pub NoCommit : Sql World → Sql World → Type 0
  NoCommit s s' = Without commit (events s.world) (events s'.world)

  NoCommit-eq :
      (s : Sql World) {w : World}
      → events w ≡ events s.world
      → Without commit (events s.world) (events w)
  NoCommit-eq s e =
      subst (Without commit (events s.world)) (sym e) (Without-refl commit (events s.world))

  with_session-NoCommit :
      (f : World → Result Bytes × World) (a : Result (Unit {0}) × Sql World)
      → ((w : World) → events (f w).1 ≡ events w)
      → NoCommit a.1 (with_session p f a).1
  unfolding with_session
  with_session-NoCommit f (err e, s) h = Without-refl commit (events s.world)
  with_session-NoCommit f (ok _, s) h = NoCommit-eq s (h s.world)

  session-NoCommit :
      (f : World → Result Bytes × World) (s : Sql World)
      → ((w : World) → events (f w).1 ≡ events w)
      → NoCommit s (with_session p f (assert_connected p (lock s))).1
  session-NoCommit f s h =
      Without-trans (Without-assert_connected p events o commit (lock s))
        (with_session-NoCommit f (assert_connected p (lock s)) h)

  escape_text-NoCommit : (i : Option Bytes) (s : Sql World) → NoCommit s (escape_text p i s).1
  unfolding escape_text
  escape_text-NoCommit none s = Without-refl commit (events s.world)
  escape_text-NoCommit (some i) s = session-NoCommit (p.escape i) s (quiet.of_escape i)

  escape_bytes-NoCommit : (i : Bytes) (s : Sql World) → NoCommit s (escape_bytes p i s).1
  unfolding escape_bytes
  escape_bytes-NoCommit i s = session-NoCommit (p.escape_binary i) s (quiet.of_escape_binary i)

  insert_text-ok :
      (table fields : Bytes) (values : List Value)
      → insert_text p str table fields values
        ≡ ok ((insert_head table fields ++ values_text values) ++ codes ")")
  insert_text-ok table fields values =
      rw (more.cat_ok [] (insert_head table fields), insert_text)
        (rw (more.cat_ok (insert_head table fields) (values_text values)) (more.cat_ok _ _))

  sql_insert-NoCommit :
      (table fields : Bytes) (values : List Value) (s : Sql World)
      → NoCommit s (sql_insert p str table fields values s).1
  unfolding sql_insert same
  sql_insert-NoCommit table fields values s =
      subst (λ r. NoCommit s (send_text p str r s).1) (sym (insert_text-ok table fields values))
        (Without-query_other p events o _ commit s refl)

  updated-NoCommit {ℓ} : {A : Type ℓ} (r : Result A) (s : Sql World) → NoCommit s (update p r s)
  updated-NoCommit (ok x) s = Without-refl commit (events s.world)
  updated-NoCommit (err e) s = Without-update p events o commit e s

  fetch_row-NoCommit : (res : Res) (s : Sql World) → NoCommit s (fetch_row p res s).1
  unfolding fetch_row
  fetch_row-NoCommit res s =
      let s' = record s { world = (p.fetch_row res s.world).1 } in
      Without-trans (NoCommit-eq s (quiet.of_fetch_row res s.world))
        (updated-NoCommit (p.fetch_row res s.world).0 s')

  fetch_field-NoCommit :
      (res : Res) (row : Row) (n : ℕ) (s : Sql World) → NoCommit s (fetch_field p res row n s).1
  unfolding fetch_field
  fetch_field-NoCommit res row n s =
      let s' = record s { world = (p.fetch_field res row n s.world).1 } in
      Without-trans (NoCommit-eq s (quiet.of_fetch_field res row n s.world))
        (updated-NoCommit (p.fetch_field res row n s.world).0 s')

  number_of-same :
      (old : ℕ) (a : Result (Option Bytes) × Sql World) → (number_of p str old a).1 ≡ a.1
  number_of-same old (err e, s) = refl
  number_of-same old (ok none, s) = refl
  number_of-same old (ok (some v), s) = refl

  first_field-NoCommit :
      (old : ℕ) (res : Res) (a : Result (Option Row) × Sql World)
      → NoCommit a.1 (first_field p str old res a).1
  first_field-NoCommit old res (err e, s) = Without-refl commit (events s.world)
  first_field-NoCommit old res (ok none, s) = Without-refl commit (events s.world)
  first_field-NoCommit old res (ok (some row), s) =
      subst (NoCommit s) (sym (number_of-same old (fetch_field p res row 0 s)))
        (fetch_field-NoCommit res row 0 s)

  first_row-NoCommit :
      (old : ℕ) (a : Result (Option (Res × ℕ)) × Sql World) → NoCommit a.1 (first_row p str old a).1
  first_row-NoCommit old (err e, s) = Without-refl commit (events s.world)
  first_row-NoCommit old (ok none, s) = Without-refl commit (events s.world)
  first_row-NoCommit old (ok (some (res, n)), s) =
      Without-trans (fetch_row-NoCommit res s) (first_field-NoCommit old res (fetch_row p res s))

  max_query : Bytes → Bytes
  max_query table = format_s (codes "SELECT max(_ident) FROM %s;") table

  get_last_insert_ident-NoCommit :
      (old : ℕ) (table : Bytes) (s : Sql World)
      → NoCommit s (get_last_insert_ident p str old table s).1
  unfolding get_last_insert_ident query_sprintf same format_s max_query
  get_last_insert_ident-NoCommit old table s =
      subst (λ r. NoCommit s (first_row p str old (send_text p str r s)).1)
        (sym (more.cat_ok [] (max_query table)))
        (Without-trans (Without-query_other p events o (max_query table) commit s refl)
          (first_row-NoCommit old (query_sql p (max_query table) s)))

  after {ℓ} :
      {A : Type 0} {B : Type ℓ} (s : Sql World) (a : Result B × Sql World) (g : Error → Error)
      (k : B → Sql World → Result A × Sql World)
      → NoCommit s a.1
      → ((x : B) → NoCommit a.1 (k x a.1).1)
      → NoCommit s
          (elim a.0 as (λ _. Result A × Sql World) [ err e ↦ (err (g e), a.1) | ok x ↦ k x a.1 ]).1
  after s (err e, s') g k h next = h
  after s (ok x, s') g k h next = Without-trans h (next x)

  after_anyway {ℓ} :
      {A : Type 0} {B : Type ℓ} (s : Sql World) (a : Result B × Sql World)
      (k : Bool → Sql World → Result A × Sql World)
      → NoCommit s a.1
      → ((b : Bool) → NoCommit a.1 (k b a.1).1)
      → NoCommit s
          (elim a.0 as (λ _. Result A × Sql World) [ err e ↦ k false a.1 | ok x ↦ k true a.1 ]).1
  after_anyway s (err e, s') k h next = Without-trans h (next false)
  after_anyway s (ok x, s') k h next = Without-trans h (next true)

  pub run-NoCommit :
      {c : Bool} {A : Type 0} (old : ℕ) (m : Program c A) (s : Sql World)
      → NoCommit s (run p str old m s).1
  unfolding run
  run-NoCommit old (ret x) s = Without-refl commit (events s.world)
  run-NoCommit old (fail e) s = Without-refl commit (events s.world)
  run-NoCommit old (escape r i f) s =
      after s (escape_text p i s) (replaced r) (λ t. run p str old (f t)) (escape_text-NoCommit i s)
        (λ t. run-NoCommit old (f t) _)
  run-NoCommit old (escape_binary i f) s =
      after s (escape_bytes p i s) (λ e. e) (λ t. run p str old (f t)) (escape_bytes-NoCommit i s)
        (λ t. run-NoCommit old (f t) _)
  run-NoCommit old (insert r table fields values m) s =
      after s (sql_insert p str table fields values s) (replaced r) (λ _. run p str old m)
        (sql_insert-NoCommit table fields values s) (λ _. run-NoCommit old m _)
  run-NoCommit old (insert_anyway e table fields values f) s =
      after_anyway s (sql_insert p str table fields values s) (λ b. run p str old (f b))
        (sql_insert-NoCommit table fields values s) (λ b. run-NoCommit old (f b) _)
  run-NoCommit old (last_insert_ident table f) s =
      after s (get_last_insert_ident p str old table s) (λ e. e) (λ n. run p str old (f n))
        (get_last_insert_ident-NoCommit old table s) (λ n. run-NoCommit old (f n) _)
