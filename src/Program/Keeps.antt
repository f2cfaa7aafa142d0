-- ===== src/Program/Keeps.antt =====
-- Programs over a live connection: what a run leaves of the lock and of the transaction.
use librequiemdb.Base.{
  ℕ, Bool, true, false, List, [], ◌≡◌, refl, Option, none, some, Bytes, codes, arith,
}
use librequiemdb.Error.{Error, Result, ok, err}
use librequiemdb.Plugin.{Plugin}
use librequiemdb.Strings.{Strings}
use librequiemdb.Sql.{Sql, query_sql, escape_text, escape_bytes, fetch_row, fetch_field}
use librequiemdb.Sql.Lock.{IsLive, lock-query_sql, transaction-query_sql}
use librequiemdb.Sql.Start.{Keeps, Keeps-trans, connected-query_sql, internal-query_sql}
use librequiemdb.Sql.Trace.{is_ok}
use librequiemdb.Delete.{format_s, send_text, query_sprintf}
use librequiemdb.Program.{
  Program, ret, fail, escape, escape_binary, insert, insert_anyway, last_insert_ident, Value,
  replaced, insert_text, sql_insert, get_last_insert_ident, run, first_row, first_field, number_of,
}

module _ (p : Plugin) (str : Strings) where
  open p use {World, Res, Row}

  pub Keeps-refl : (s : Sql World) → Keeps p s s
  Keeps-refl s = record { same_lock = refl; same_transaction = refl; same_internal = refl }

  -- A call keeps the lock and the transaction, and a call that succeeds leaves a live connection.
  pub record Stays {ℓ} {A : Type ℓ} (s : Sql World) (a : Result A × Sql World) : Type ℓ where
    pub keeps : Keeps p s a.1
    pub live : is_ok a.0 ≡ true → IsLive a.1

  pub query_sql-Stays : (q : Bytes) (s : Sql World) → IsLive s → Stays s (query_sql p q s)
  query_sql-Stays q s l = record {
    keeps = record {
      same_lock = lock-query_sql p q s;
      same_transaction = transaction-query_sql p q s l;
      same_internal = internal-query_sql p q s;
    };
    live = λ h _. connected-query_sql p q s h;
  }

  pub escape_text-Stays :
      (i : Option Bytes) (s : Sql World) → IsLive s → Stays s (escape_text p i s)
  unfolding escape_text
  escape_text-Stays none s l = record { keeps = Keeps-refl s; live = λ _. l }
  escape_text-Stays (some i) s l = record {
    keeps = record {
      same_lock = ground arith;
      same_transaction = ground arith;
      same_internal = ground arith;
    };
    live = λ h t. ground arith;
  }

  escape_bytes-Stays : (i : Bytes) (s : Sql World) → IsLive s → Stays s (escape_bytes p i s)
  unfolding escape_bytes
  escape_bytes-Stays i s l = record {
    keeps = record {
      same_lock = ground arith;
      same_transaction = ground arith;
      same_internal = ground arith;
    };
    live = λ h t. ground arith;
  }

  sql_insert-Stays :
      (table fields : Bytes) (values : List Value) (s : Sql World)
      → IsLive s
      → Stays s (sql_insert p str table fields values s)
  unfolding sql_insert
  sql_insert-Stays table fields values s l = go (insert_text p str table fields values)
    where
      go : (r : Result Bytes) → Stays s (send_text p str r s)
      go (err e) = record { keeps = Keeps-refl s; live = λ _. l }
      go (ok q) = query_sql-Stays q s l

  pub Stays-trans {ℓ κ} :
      {A : Type ℓ} {B : Type κ} {s : Sql World} {a : Result A × Sql World}
      {b : Result B × Sql World}
      → Stays s a
      → Stays a.1 b
      → Stays s b
  Stays-trans a b = record { keeps = Keeps-trans p a.keeps b.keeps; live = b.live }

  pub fetch_row-Stays : (res : Res) (s : Sql World) → IsLive s → Stays s (fetch_row p res s)
  unfolding fetch_row
  fetch_row-Stays res s l = record {
    keeps = record {
      same_lock = ground arith;
      same_transaction = ground arith;
      same_internal = ground arith;
    };
    live = λ h t. ground arith;
  }

  pub fetch_field-Stays :
      (res : Res) (row : Row) (n : ℕ) (s : Sql World)
      → IsLive s
      → Stays s (fetch_field p res row n s)
  unfolding fetch_field
  fetch_field-Stays res row n s l = record {
    keeps = record {
      same_lock = ground arith;
      same_transaction = ground arith;
      same_internal = ground arith;
    };
    live = λ h t. ground arith;
  }

  number_of-Stays :
      (old : ℕ) (s : Sql World) (a : Result (Option Bytes) × Sql World)
      → Stays s a
      → Stays s (number_of p str old a)
  number_of-Stays old s (err e, s') h = record { keeps = h.keeps; live = λ e. cc e }
  number_of-Stays old s (ok none, s') h = record { keeps = h.keeps; live = λ e. cc e }
  number_of-Stays old s (ok (some v), s') h = record { keeps = h.keeps; live = λ _. h.live refl }

  first_field-Stays :
      (old : ℕ) (res : Res) (s : Sql World) (a : Result (Option Row) × Sql World)
      → Stays s a
      → Stays s (first_field p str old res a)
  first_field-Stays old res s (err e, s') h = record { keeps = h.keeps; live = λ e. cc e }
  first_field-Stays old res s (ok none, s') h = record { keeps = h.keeps; live = λ e. cc e }
  first_field-Stays old res s (ok (some row), s') h =
      Stays-trans h (number_of-Stays old s' _ (fetch_field-Stays res row 0 s' (h.live refl)))

  first_row-Stays :
      (old : ℕ) (s : Sql World) (a : Result (Option (Res × ℕ)) × Sql World)
      → Stays s a
      → Stays s (first_row p str old a)
  first_row-Stays old s (err e, s') h = record { keeps = h.keeps; live = λ e. cc e }
  first_row-Stays old s (ok none, s') h = record { keeps = h.keeps; live = λ e. cc e }
  first_row-Stays old s (ok (some (res, n)), s') h =
      Stays-trans h (first_field-Stays old res s' _ (fetch_row-Stays res s' (h.live refl)))

  query_sprintf-Stays :
      (f arg : Bytes) (s : Sql World) → IsLive s → Stays s (query_sprintf p str f arg s)
  unfolding query_sprintf
  query_sprintf-Stays f arg s l = go (str.cat [] (format_s f arg))
    where
      go : (r : Result Bytes) → Stays s (send_text p str r s)
      go (err e) = record { keeps = Keeps-refl s; live = λ _. l }
      go (ok q) = query_sql-Stays q s l

  get_last_insert_ident-Stays :
      (old : ℕ) (table : Bytes) (s : Sql World)
      → IsLive s
      → Stays s (get_last_insert_ident p str old table s)
  unfolding get_last_insert_ident
  get_last_insert_ident-Stays old table s l =
      first_row-Stays old s _ (query_sprintf-Stays (codes "SELECT max(_ident) FROM %s;") table s l)

  -- No insertion whose result is not tested at once loses the connection of an open transaction.
  unfoldable pub Kept : {c : Bool} {A : Type 0} → ℕ → Program c A → Sql World → Type 0
  Kept old (ret x) s = Unit
  Kept old (fail e) s = Unit
  Kept old (escape r i f) s =
      let (t, s') = escape_text p i s in elim t [ err e ↦ Unit | ok t ↦ Kept old (f t) s' ]
  Kept old (escape_binary i f) s =
      let (t, s') = escape_bytes p i s in elim t [ err e ↦ Unit | ok t ↦ Kept old (f t) s' ]
  Kept old (insert r table fields values m) s =
      let (a, s') = sql_insert p str table fields values s in
      elim a [ err e ↦ Unit | ok _ ↦ Kept old m s' ]
  Kept old (insert_anyway h table fields values f) s =
      let (a, s') = sql_insert p str table fields values s in
      IsLive s' × elim a [ err e ↦ Kept old (f false) s' | ok _ ↦ Kept old (f true) s' ]
  Kept old (last_insert_ident table f) s =
      let (n, s') = get_last_insert_ident p str old table s in
      elim n [ err e ↦ Unit | ok n ↦ Kept old (f n) s' ]

  after {ℓ} :
      {A : Type 0} {B : Type ℓ} {s : Sql World} (a : Result B × Sql World) (g : Error → Error)
      (k : B → Sql World → Result A × Sql World) (Q : B → Sql World → Type 0)
      → Stays s a
      → elim a.0 as (λ _. Type 0) [ err e ↦ Unit {0} | ok x ↦ Q x a.1 ]
      → ((x : B) → IsLive a.1 → Q x a.1 → Keeps p a.1 (k x a.1).1)
      → Keeps p s
          (elim a.0 as (λ _. Result A × Sql World) [ err e ↦ (err (g e), a.1) | ok x ↦ k x a.1 ]).1
  after (err e, s') g k Q h q more = h.keeps
  after (ok x, s') g k Q h q more = Keeps-trans p h.keeps (more x (h.live refl) q)

  after_anyway :
      {A : Type 0} {s : Sql World} (a : Result (Option (Res × ℕ)) × Sql World)
      (k : Bool → Sql World → Result A × Sql World) (Q : Bool → Sql World → Type 0)
      → Stays s a
      → elim a.0 as (λ _. Type 0) [ err e ↦ Q false a.1 | ok x ↦ Q true a.1 ]
      → ((b : Bool) → Q b a.1 → Keeps p a.1 (k b a.1).1)
      → Keeps p s
          (elim a.0 as (λ _. Result A × Sql World) [ err e ↦ k false a.1 | ok x ↦ k true a.1 ]).1
  after_anyway (err e, s') k Q h q more = Keeps-trans p h.keeps (more false q)
  after_anyway (ok x, s') k Q h q more = Keeps-trans p h.keeps (more true q)

  -- Over a live connection.
  pub run-Keeps :
      {c : Bool} {A : Type 0} (old : ℕ) (m : Program c A) (s : Sql World)
      → IsLive s
      → Kept old m s
      → Keeps p s (run p str old m s).1
  unfolding run Kept
  run-Keeps old (ret x) s l h = Keeps-refl s
  run-Keeps old (fail e) s l h = Keeps-refl s
  run-Keeps old (escape r i f) s l h =
      after (escape_text p i s) (replaced r) (λ t. run p str old (f t)) (λ t. Kept old (f t))
        (escape_text-Stays i s l) h (λ t. run-Keeps old (f t) _)
  run-Keeps old (escape_binary i f) s l h =
      after (escape_bytes p i s) (λ e. e) (λ t. run p str old (f t)) (λ t. Kept old (f t))
        (escape_bytes-Stays i s l) h (λ t. run-Keeps old (f t) _)
  run-Keeps old (insert r table fields values m) s l h =
      after (sql_insert p str table fields values s) (replaced r) (λ _. run p str old m)
        (λ _. Kept old m) (sql_insert-Stays table fields values s l) h (λ _. run-Keeps old m _)
  run-Keeps old (insert_anyway e table fields values f) s l h =
      after_anyway (sql_insert p str table fields values s) (λ b. run p str old (f b))
        (λ b. Kept old (f b)) (sql_insert-Stays table fields values s l) h.1
        (λ b. run-Keeps old (f b) _ h.0)
  run-Keeps old (last_insert_ident table f) s l h =
      after (get_last_insert_ident p str old table s) (λ e. e) (λ n. run p str old (f n))
        (λ n. Kept old (f n)) (get_last_insert_ident-Stays old table s l) h
        (λ n. run-Keeps old (f n) _)

  either {ℓ} :
      {B : Type ℓ} (a : Result B × Sql World) (Q : B → Sql World → Type 0)
      → ((x : B) → Q x a.1)
      → elim a.0 as (λ _. Type 0) [ err e ↦ Unit {0} | ok x ↦ Q x a.1 ]
  either (err e, s) Q h = tt
  either (ok x, s) Q h = h x

  -- A program that tests the result of every insertion.
  pub strict-Kept : {A : Type 0} (old : ℕ) (m : Program true A) (s : Sql World) → Kept old m s
  unfolding Kept
  strict-Kept old (ret x) s = tt
  strict-Kept old (fail e) s = tt
  strict-Kept old (escape r i f) s =
      either (escape_text p i s) (λ t. Kept old (f t)) (λ t. strict-Kept old (f t) _)
  strict-Kept old (escape_binary i f) s =
      either (escape_bytes p i s) (λ t. Kept old (f t)) (λ t. strict-Kept old (f t) _)
  strict-Kept old (insert r table fields values m) s =
      either (sql_insert p str table fields values s) (λ _. Kept old m) (λ _. strict-Kept old m _)
  strict-Kept old (insert_anyway e table fields values f) s = cc e
  strict-Kept old (last_insert_ident table f) s =
      either (get_last_insert_ident p str old table s) (λ n. Kept old (f n))
        (λ n. strict-Kept old (f n) _)
