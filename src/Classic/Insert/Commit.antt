-- ===== src/Classic/Insert/Commit.antt =====
-- classic-insert.c: whether what an insertion sends is committed.
use librequiemdb.Base.{
  ℕ, Bool, true, false, List, [], ◌∷◌, ◌++◌, ◌≡◌, ◌∙◌, refl, sym, subst, codes, if◌then◌else◌,
  Bytes, Option, some, same,
}
use librequiemdb.Error.{Result, ok, err}
use librequiemdb.Plugin.{Plugin}
use librequiemdb.Strings.{Strings, Appends}
use librequiemdb.Sql.{Sql, lock, began, query_sql, transaction_start}
use librequiemdb.Sql.Start.{internal-query_sql, connected-query_sql, start_enabled}
use librequiemdb.Sql.Trace.{
  Event, sent, opening, is_ok, Observes, Without, Without-trans, events-query_ok, opened-Without,
  Without-query_other,
}
use librequiemdb.Delete.{finish}
use librequiemdb.Delete.Commit.{Finished, finish-Finished}
use librequiemdb.Message.{Alertident, Message, alert_message, heartbeat_message, unknown_message}
use librequiemdb.Time.{Clock}
use librequiemdb.Program.{Program, run, fail, present}
use librequiemdb.Program.Keeps.{run-Keeps}
use librequiemdb.Program.Traced.{Quiet, run-NoCommit}
use librequiemdb.Classic.Insert.{
  insert_started, in_transaction, insert_alert, insert_heartbeat, classic_insert,
}
use librequiemdb.Classic.Insert.Atomic.{KeptFrom, IsRegular, strict-KeptFrom}

module _ (p : Plugin) (str : Strings) (more : Appends str) (events : p.World → List Event)
    (o : Observes p events) (quiet : Quiet p events) where
  open p use {World, Res}

  abbrev commit : Bytes
  commit = codes "COMMIT"

  -- After a success the last event is a COMMIT that succeeded and no other did; after an error none did.
  abbrev pub CommitsOnce : Sql World → Result (Unit {0}) × Sql World → Type 0
  CommitsOnce s (ok _, s') =
      (t : List Event) × Without (codes "COMMIT") (events s.world) t
      × (events s'.world ≡ t ++ sent (codes "COMMIT") true ∷ [])
  CommitsOnce s (err _, s') = Without (codes "COMMIT") (events s.world) (events s'.world)

  Finished-CommitsOnce :
      (s : Sql World) (a b : Result (Unit {0}) × Sql World)
      → Without commit (events s.world) (events a.1.world)
      → Finished p str more events o a b
      → CommitsOnce s b
  Finished-CommitsOnce s a (ok _, s') h (good, bad) =
      let (all_ok, commit_ok, same_events) = good refl in
      (
        events a.1.world ++ (if a.1.connected then [] else opening true ∷ []),
        Without-trans h (opened-Without p events o commit a.1.connected (events a.1.world)),
        same_events ∙ (events-query_ok p events o commit a.1 commit_ok).1,
      )
  Finished-CommitsOnce s a (err _, s') h (good, bad) = Without-trans h (bad refl)

  begun-CommitsOnce :
      {c : Bool} (old : ℕ) (m : Program c (Unit {0})) (s : Sql World)
      (a : Result (Option (Res × ℕ)) × Sql World)
      → Without commit (events s.world) (events a.1.world)
      → (is_ok a.0 ≡ true → a.1.connected ≡ true)
      → a.1.internal_transaction_disabled ≡ false
      → KeptFrom p str old m (began p a)
      → CommitsOnce s (insert_started p str old m (began p a))
  unfolding insert_started began
  begun-CommitsOnce old m s (err e, s') h on i kept = h
  begun-CommitsOnce old m s (ok x, s') h on i kept =
      let t = record s' { transaction = true } in
      let k = run-Keeps p str old m t (λ _. on refl) kept in
      let a = run p str old m t in
      Finished-CommitsOnce s a (finish p str a)
        (Without-trans h (run-NoCommit p str more events o quiet old m t))
        (finish-Finished p str more events o a (k.same_internal ∙ i) k.same_transaction)

  in_transaction-CommitsOnce :
      {c : Bool} (old : ℕ) (m : Program c (Unit {0})) (s : Sql World)
      → s.transaction ≡ false
      → s.internal_transaction_disabled ≡ false
      → KeptFrom p str old m (transaction_start p s)
      → CommitsOnce s (in_transaction p str old m s)
  unfolding in_transaction same
  in_transaction-CommitsOnce old m s off i kept =
      let e = start_enabled p s i off in
      subst (λ a. CommitsOnce s (insert_started p str old m a)) (sym e)
        (begun-CommitsOnce old m s (query_sql p (codes "BEGIN") (lock s))
          (Without-query_other p events o (codes "BEGIN") commit (lock s) refl)
          (connected-query_sql p (codes "BEGIN") (lock s))
          (internal-query_sql p (codes "BEGIN") (lock s) ∙ i) (subst (KeptFrom p str old m) e kept))

  -- While memory lasts, outside a transaction and with internal transactions enabled, over a
  -- plugin whose calls `events` records and whose escapes and reads of results send nothing, and
  -- provided that no insertion of an alert whose result is passed over leaves the transaction on
  -- a connection that was lost: the insertion of a message that succeeds ends with a COMMIT that
  -- succeeds, the only one since its start, and in an insertion that fails no COMMIT has
  -- succeeded.
  pub classic_insert-CommitsOnce :
      (clock : Clock) (null_alertident : Alertident) (old : ℕ) (message : Message) (s : Sql World)
      → s.transaction ≡ false
      → s.internal_transaction_disabled ≡ false
      → IsRegular p str clock null_alertident old (some message) s
      → CommitsOnce s (classic_insert p str clock null_alertident old (some message) s)
  unfolding classic_insert
  classic_insert-CommitsOnce clock null_alertident old (alert_message alert) s off i kept =
      in_transaction-CommitsOnce old (present (insert_alert clock null_alertident) alert) s off i
        kept
  classic_insert-CommitsOnce clock null_alertident old (heartbeat_message h) s off i kept =
      in_transaction-CommitsOnce old (present (insert_heartbeat clock) h) s off i
        (strict-KeptFrom p str old (present (insert_heartbeat clock) h) (transaction_start p s))
  classic_insert-CommitsOnce clock null_alertident old unknown_message s off i kept =
      in_transaction-CommitsOnce {c = true} old (fail _) s off i
        (strict-KeptFrom p str old (fail _) (transaction_start p s))
