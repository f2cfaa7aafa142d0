-- ===== src/Classic/Insert/Atomic.antt =====
-- classic-insert.c: the lock and the transaction of a connection behind an insertion.
use librequiemdb.Base.{
  ℕ, Bool, true, false, not, ◌≡◌, ◌∙◌, ap, refl, sym, arith, Option, none, some,
}
use librequiemdb.Error.{Result, ok, err}
use librequiemdb.Plugin.{Plugin}
use librequiemdb.Strings.{Strings}
use librequiemdb.Sql.{Sql, transaction_start}
use librequiemdb.Sql.Start.{Started, start-Started}
use librequiemdb.Delete.Atomic.{finish_restores}
use librequiemdb.Message.{
  Alertident, Heartbeat, Message, alert_message, heartbeat_message, unknown_message,
}
use librequiemdb.Time.{Clock}
use librequiemdb.Program.{Program, run, fail, present}
use librequiemdb.Program.Keeps.{Kept, run-Keeps, strict-Kept}
use librequiemdb.Classic.Insert.{
  insert_started, in_transaction, insert_alert, insert_heartbeat, classic_insert,
}

module _ (p : Plugin) (str : Strings) where
  open p use {World}

  -- No insertion that the program passes over loses the connection, if the transaction started.
  abbrev pub KeptFrom :
      {c : Bool} → ℕ → Program c (Unit {0}) → Result (Unit {0}) × Sql World → Type 0
  KeptFrom old m (err e, s) = Unit
  KeptFrom old m (ok _, s) = Kept p str old m s

  insert_started-restores :
      {c : Bool} (base old : ℕ) (m : Program c (Unit {0})) (a : Result (Unit {0}) × Sql World)
      → Started p base a
      → KeptFrom old m a
      → ((insert_started p str old m a).1.transaction ≡ false)
        × ((insert_started p str old m a).1.lock ≡ base)
  unfolding insert_started
  insert_started-restores base old m (err e, s) h kept = h
  insert_started-restores base old m (ok _, s) (t, live, held) kept =
      let k = run-Keeps p str old m s live kept in
      finish_restores p str base (run p str old m s)
        (k.same_transaction ∙ t ∙ ap not (sym k.same_internal))
        (record { held = ground (arith, k.same_lock, k.same_transaction, held.held) })

  in_transaction-restores :
      {c : Bool} (old : ℕ) (m : Program c (Unit {0})) (s : Sql World)
      → s.transaction ≡ false
      → KeptFrom old m (transaction_start p s)
      → ((in_transaction p str old m s).1.transaction ≡ false)
        × ((in_transaction p str old m s).1.lock ≡ s.lock)
  unfolding in_transaction
  in_transaction-restores old m s off kept =
      insert_started-restores s.lock old m (transaction_start p s)
        (start-Started p s.lock s off refl) kept

  pub strict-KeptFrom :
      (old : ℕ) (m : Program true (Unit {0})) (a : Result (Unit {0}) × Sql World) → KeptFrom old m a
  strict-KeptFrom old m (err e, s) = tt
  strict-KeptFrom old m (ok _, s) = strict-Kept p str old m s

  -- Outside a transaction, the insertion of a heartbeat that ends in any way leaves no transaction
  -- open and the lock as it was.
  pub heartbeat-restores :
      (clock : Clock) (null_alertident : Alertident) (old : ℕ) (heartbeat : Option Heartbeat)
      (s : Sql World)
      → s.transaction ≡ false
      → ((classic_insert p str clock null_alertident old
            (some (heartbeat_message heartbeat))
            s).1.transaction
          ≡ false)
        × ((classic_insert p str clock null_alertident old
              (some (heartbeat_message heartbeat))
              s).1.lock
            ≡ s.lock)
  unfolding classic_insert
  heartbeat-restores clock null_alertident old heartbeat s off =
      in_transaction-restores old (present (insert_heartbeat clock) heartbeat) s off
        (strict-KeptFrom old (present (insert_heartbeat clock) heartbeat) (transaction_start p s))

  -- What an alert needs beyond a heartbeat.
  abbrev pub IsRegular : Clock → Alertident → ℕ → Option Message → Sql World → Type 0
  IsRegular clock null_alertident old (some (alert_message alert)) s =
      KeptFrom old (present (insert_alert clock null_alertident) alert) (transaction_start p s)
  IsRegular clock null_alertident old _ s = Unit

  -- Outside a transaction, the insertion of any message that ends in any way leaves no
  -- transaction open and the lock as it was, provided that no insertion of an alert whose result
  -- is passed over leaves the transaction on a connection that was lost.
  pub classic_insert-restores :
      (clock : Clock) (null_alertident : Alertident) (old : ℕ) (message : Option Message)
      (s : Sql World)
      → s.transaction ≡ false
      → IsRegular clock null_alertident old message s
      → ((classic_insert p str clock null_alertident old message s).1.transaction ≡ false)
        × ((classic_insert p str clock null_alertident old message s).1.lock ≡ s.lock)
  unfolding classic_insert
  classic_insert-restores clock null_alertident old none s off kept = (off, refl)
  classic_insert-restores clock null_alertident old (some (alert_message alert)) s off kept =
      in_transaction-restores old (present (insert_alert clock null_alertident) alert) s off kept
  classic_insert-restores clock null_alertident old (some (heartbeat_message h)) s off kept =
      heartbeat-restores clock null_alertident old h s off
  classic_insert-restores clock null_alertident old (some unknown_message) s off kept =
      in_transaction-restores {c = true} old (fail _) s off
        (strict-KeptFrom old (fail _) (transaction_start p s))
