-- ===== src/Delete/Atomic.antt =====
-- classic-delete.c: the lock and the transaction of a connection behind a deletion.
use librequiemdb.Base.{
  ℕ, true, false, not, List, [], ◌∷◌, ◌≡◌, ◌∙◌, ap, refl, sym, arith, codes, Bytes,
}
use librequiemdb.Error.{Result, ok, err}
use librequiemdb.Plugin.{Plugin}
use librequiemdb.Strings.{Strings}
use librequiemdb.Sql.{Sql, transaction_start, transaction_end, transaction_abort}
use librequiemdb.Sql.Lock.{IsLive, Holds, lock-query_sql, transaction-query_sql}
use librequiemdb.Sql.Start.{
  Keeps, Keeps-trans, connected-query_sql, internal-query_sql, Started, start-Started,
}
use librequiemdb.Sql.Trace.{is_ok}
use librequiemdb.Delete.{
  send_text, next, finish, delete_started, format_s, query_sprintf, send_all, delete_message,
}

module _ (p : Plugin) (str : Strings) where
  query_sprintf-Keeps :
      (f idents : Bytes) (s : Sql p.World) → IsLive s → Keeps p s (query_sprintf p str f idents s).1
  unfolding query_sprintf
  query_sprintf-Keeps f idents s live =
      elim (str.cat [] (format_s f idents)) as (λ r. Keeps p s (send_text p str r s).1) [
        | err e ↦ record { same_lock = refl; same_transaction = refl; same_internal = refl }
        | ok q ↦ record {
          same_lock = lock-query_sql p q s;
          same_transaction = transaction-query_sql p q s live;
          same_internal = internal-query_sql p q s;
        }
      ]

  connected-query_sprintf :
      (f idents : Bytes) (s : Sql p.World)
      → is_ok (query_sprintf p str f idents s).0 ≡ true
      → (query_sprintf p str f idents s).1.connected ≡ true
  unfolding query_sprintf
  connected-query_sprintf f idents s =
      elim (str.cat [] (format_s f idents))
        as (λ r. is_ok (send_text p str r s).0 ≡ true → (send_text p str r s).1.connected ≡ true) [
          | err e ↦ λ h. cc
          | ok q ↦ connected-query_sql p q s
        ]

  Keeps-next {ℓ} :
      {A : Type ℓ} (r : Result A) (k : Sql p.World → Result (Unit {0}) × Sql p.World)
      {s t : Sql p.World}
      → Keeps p s t
      → (is_ok r ≡ true → Keeps p t (k t).1)
      → Keeps p s (next p str r k t).1
  Keeps-next (err e) k h more = h
  Keeps-next (ok x) k h more = Keeps-trans p h (more refl)

  pub send_all-Keeps :
      (fs : List Bytes) (idents : Bytes) (s : Sql p.World)
      → IsLive s
      → Keeps p s (send_all p str fs idents s).1
  unfolding send_all
  send_all-Keeps [] idents s live = record {
    same_lock = refl;
    same_transaction = refl;
    same_internal = refl;
  }
  send_all-Keeps (f ∷ fs) idents s live =
      Keeps-next (query_sprintf p str f idents s).0 (send_all p str fs idents)
        (query_sprintf-Keeps f idents s live)
        (λ h. send_all-Keeps fs idents _ (λ _. connected-query_sprintf f idents s h))

  -- After `finish`, from a state in a transaction of its own or in none, the lock is held `base`
  -- times and no transaction is open.
  pub finish_restores :
      (base : ℕ) (a : Result (Unit {0}) × Sql p.World)
      → a.1.transaction ≡ not a.1.internal_transaction_disabled
      → Holds base a.1
      → ((finish p str a).1.transaction ≡ false) × ((finish p str a).1.lock ≡ base)
  unfolding finish transaction_end transaction_abort
  finish_restores base (ok _, s) t h = ground (arith, lock-query_sql p (codes "COMMIT") s)
  finish_restores base (err e, s) t h =
      let s' = record s { transaction = false } in
      ground (
        arith,
        lock-query_sql p (codes "ROLLBACK") s',
        transaction-query_sql p (codes "ROLLBACK") s',
      )

  delete_started-restores :
      (base : ℕ) (fs : List Bytes) (idents : Bytes) (a : Result (Unit {0}) × Sql p.World)
      → Started p base a
      → ((delete_started p str fs idents a).1.transaction ≡ false)
        × ((delete_started p str fs idents a).1.lock ≡ base)
  unfolding delete_started
  delete_started-restores base fs idents (err e, s) h = h
  delete_started-restores base fs idents (ok _, s) (t, live, held) =
      let k = send_all-Keeps fs idents s live in
      finish_restores base (send_all p str fs idents s)
        (k.same_transaction ∙ t ∙ ap not (sym k.same_internal))
        (record { held = ground (arith, k.same_lock, k.same_transaction, held.held) })

  -- Outside a transaction, a deletion that ends in any way, with success, with a statement refused,
  -- the connection lost or the commit refused, leaves no transaction open and the lock as it was.
  pub delete_message-restores :
      (fs : List Bytes) (idents : Bytes) (s : Sql p.World)
      → s.transaction ≡ false
      → ((delete_message p str fs idents s).1.transaction ≡ false)
        × ((delete_message p str fs idents s).1.lock ≡ s.lock)
  unfolding delete_message
  delete_message-restores fs idents s off =
      delete_started-restores s.lock fs idents (transaction_start p s)
        (start-Started p s.lock s off refl)
