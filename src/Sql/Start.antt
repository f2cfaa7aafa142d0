-- ===== src/Sql/Start.antt =====
-- src/requiemdb-sql.c: what a query and the start of a transaction leave of the state.
use librequiemdb.Base.{
  ℕ, ◌+◌, true, false, not, ◌≡◌, ◌∙◌, ap, refl, sym, subst, Bool-cases, inl, inr, arith, codes,
  Bytes, Option,
}
use librequiemdb.Error.{Result, ok, err}
use librequiemdb.Plugin.{Plugin}
use librequiemdb.Sql.{
  Sql, lock, began, committed, roll_back, query_sql, transaction_start, transaction_end,
  transaction_abort,
}
use librequiemdb.Sql.Lock.{IsLive, Holds, lock-query_sql, transaction-query_sql}
use librequiemdb.Sql.Trace.{is_ok}

module _ (p : Plugin) where
  pub connected-query_sql :
      (q : Bytes) (s : Sql p.World)
      → is_ok (query_sql p q s).0 ≡ true
      → (query_sql p q s).1.connected ≡ true
  unfolding query_sql
  connected-query_sql q s h = ground arith

  pub internal-query_sql :
      (q : Bytes) (s : Sql p.World)
      → (query_sql p q s).1.internal_transaction_disabled ≡ s.internal_transaction_disabled
  unfolding query_sql
  internal-query_sql q s = ground arith

  -- What a run of statements keeps of a live connection.
  pub record Keeps (s s' : Sql p.World) : Type 0 where
    pub same_lock : s'.lock ≡ s.lock
    pub same_transaction : s'.transaction ≡ s.transaction
    pub same_internal : s'.internal_transaction_disabled ≡ s.internal_transaction_disabled

  pub Keeps-trans : {s t u : Sql p.World} → Keeps s t → Keeps t u → Keeps s u
  Keeps-trans a b = record {
    same_lock = b.same_lock ∙ a.same_lock;
    same_transaction = b.same_transaction ∙ a.same_transaction;
    same_internal = b.same_internal ∙ a.same_internal;
  }

  -- What `requiemdb_sql_transaction_start` leaves outside a transaction.
  abbrev pub Started : ℕ → Result (Unit {0}) × Sql p.World → Type 0
  Started base (ok _, s) =
      (s.transaction ≡ not s.internal_transaction_disabled) × IsLive s × Holds base s
  Started base (err _, s) = (s.transaction ≡ false) × (s.lock ≡ base)

  begin_facts :
      (base : ℕ) (r : Result (Option (p.Res × ℕ))) (s s' : Sql p.World)
      → s.internal_transaction_disabled ≡ false
      → s'.internal_transaction_disabled ≡ s.internal_transaction_disabled
      → s'.transaction ≡ false
      → s'.lock ≡ base + 1
      → (is_ok r ≡ true → s'.connected ≡ true)
      → Started base (began p (r, s'))
  unfolding began
  begin_facts base (ok x) s s' i i' t l c = (ground arith, λ _. c refl, omega arith)
  begin_facts base (err e) s s' i i' t l c = (t, omega arith)

  pub start_disabled :
      (s : Sql p.World)
      → s.internal_transaction_disabled ≡ true
      → transaction_start p s ≡ (ok tt, s)
  unfolding transaction_start
  start_disabled s e = ground arith

  pub start_enabled :
      (s : Sql p.World)
      → s.internal_transaction_disabled ≡ false
      → s.transaction ≡ false
      → transaction_start p s ≡ began p (query_sql p (codes "BEGIN") (lock s))
  unfolding transaction_start
  start_enabled s e off = ground arith

  pub start-Started :
      (base : ℕ) (s : Sql p.World)
      → s.transaction ≡ false
      → s.lock ≡ base
      → Started base (transaction_start p s)
  start-Started base s off h = elim (Bool-cases s.internal_transaction_disabled) [
    | inl on ↦
        subst (Started base) (sym (start_disabled s on))
          (ground arith, λ t. absurd (ground arith), record { held = ground arith })
    | inr on ↦
        let t = lock s in
        let q = codes "BEGIN" in
        subst (Started base) (sym (start_enabled s on off)) (
          begin_facts base (query_sql p q t).0 t (query_sql p q t).1 on (internal-query_sql q t)
            (transaction-query_sql p q t (λ x. absurd (ground arith)) ∙ off)
            (lock-query_sql p q t ∙ ap (λ n. n + 1) h) (connected-query_sql q t))
  ]

  pub end_enabled :
      (s : Sql p.World)
      → s.internal_transaction_disabled ≡ false
      → s.transaction ≡ true
      → transaction_end p s ≡ committed p (query_sql p (codes "COMMIT") s)
  unfolding transaction_end
  end_enabled s e on = ground arith

  pub abort_enabled :
      (s : Sql p.World)
      → s.internal_transaction_disabled ≡ false
      → s.transaction ≡ true
      → transaction_abort p s ≡ roll_back p (record s { transaction = false })
  unfolding transaction_abort
  abort_enabled s e on = ground arith
