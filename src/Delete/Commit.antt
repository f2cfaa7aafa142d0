-- ===== src/Delete/Commit.antt =====
-- classic-delete.c: whether what a deletion sends is committed.
use librequiemdb.Base.{
  ℕ, Bool, true, false, List, [], ◌∷◌, ◌++◌, ◌≡◌, ◌∙◌, ap, refl, sym, subst, arith, codes,
  if◌then◌else◌, Bytes, Option, same, append_assoc,
}
use librequiemdb.Error.{Error, Result, ok, err}
use librequiemdb.Plugin.{Plugin}
use librequiemdb.Strings.{Strings, Appends}
use librequiemdb.Sql.{Sql, lock, began, committed, rolled_back, roll_back, query_sql}
use librequiemdb.Sql.Start.{internal-query_sql, start_enabled, end_enabled, abort_enabled}
use librequiemdb.Sql.Trace.{
  Event, sent, opening, is_ok, Observes, Without, Without-refl, Without-trans, events-query_ok,
  Without-query_sql, Without-query_other,
}
use librequiemdb.Delete.{
  Kind, alert, heartbeat, queries, format_s, aborted, finish, delete_started, send_all,
  delete_message,
}
use librequiemdb.Delete.Atomic.{send_all-Keeps}
use librequiemdb.Delete.Sent.{all_sent, NotAmong, query_on, send_all_sent, send_all-Without}

-- No statement of a deletion is COMMIT, whatever the identifiers.
queries-NotAmong : (k : Kind) (idents : Bytes) → NotAmong (codes "COMMIT") (queries k) idents
unfolding same format_s
queries-NotAmong alert idents = ground arith
queries-NotAmong heartbeat idents = ground arith

module _ (p : Plugin) (str : Strings) (more : Appends str) (events : p.World → List Event)
    (o : Observes p events) where
  world-rolled_back :
      (a : Result (Option (p.Res × ℕ)) × Sql p.World) → (rolled_back p a).1.world ≡ a.1.world
  unfolding rolled_back
  world-rolled_back (ok x, s) = refl
  world-rolled_back (err e, s) = refl

  Without-if {ℓ} :
      {A : Type ℓ} (q : Bytes) (t : List Event) (b : Bool) (x y : A × Sql p.World)
      → Without q t (events x.1.world)
      → Without q t (events y.1.world)
      → Without q t (events (if b then x else y).1.world)
  Without-if q t true x y h k = h
  Without-if q t false x y h k = k

  abbrev commit : Bytes
  commit = codes "COMMIT"

  roll_back-Without :
      (s : Sql p.World) → Without commit (events s.world) (events (roll_back p s).1.world)
  unfolding roll_back same
  roll_back-Without s =
      let q = query_sql p (codes "ROLLBACK") s in
      Without-if commit (events s.world) _ _ (rolled_back p q)
        (Without-refl commit (events s.world))
        (subst (λ w. Without commit (events s.world) (events w)) (sym (world-rolled_back q))
          (Without-query_other p events o (codes "ROLLBACK") commit s refl))

  aborted_state :
      (e : Error) (a : Result (Unit {0}) × Sql p.World)
      → (is_ok (aborted p str e a).0 ≡ false) × ((aborted p str e a).1 ≡ a.1)
  aborted_state e (ok _, s) = (refl, refl)
  aborted_state e (err _, s) = (refl, refl)

  committed_state :
      (a : Result (Option (p.Res × ℕ)) × Sql p.World)
      → (is_ok (committed p a).0 ≡ is_ok a.0) × ((committed p a).1.world ≡ a.1.world)
  unfolding committed
  committed_state (ok x, s) = (refl, refl)
  committed_state (err e, s) = (refl, refl)

  -- What `finish` did, from a transaction: it sent COMMIT, or no successful COMMIT.
  abbrev pub Finished : Result (Unit {0}) × Sql p.World → Result (Unit {0}) × Sql p.World → Type 0
  Finished a b =
      (is_ok b.0 ≡ true
        → (is_ok a.0 ≡ true)
          × (is_ok (query_sql p commit a.1).0 ≡ true)
          × (events b.1.world ≡ events (query_sql p commit a.1).1.world))
      × (is_ok b.0 ≡ false → Without commit (events a.1.world) (events b.1.world))

  committed-Finished : (s : Sql p.World) → Finished (ok tt, s) (committed p (query_sql p commit s))
  committed-Finished s =
      let (same_ok, same_world) = committed_state (query_sql p commit s) in
      (
        λ h. (refl, sym same_ok ∙ h, ap events same_world),
        λ h.
            subst (λ w. Without commit (events s.world) (events w)) (sym same_world)
              (Without-query_sql p events o commit commit s (sym same_ok ∙ h)),
      )

  aborted-Finished :
      (e : Error) (s : Sql p.World)
      → Finished (err e, s) (aborted p str e (roll_back p (record s { transaction = false })))
  aborted-Finished e s =
      let s' = record s { transaction = false } in
      let (fails, same_state) = aborted_state e (roll_back p s') in
      (
        λ h. cc (fails, h),
        λ h.
            subst (λ t. Without commit (events s.world) (events t.world)) (sym same_state)
              (roll_back-Without s'),
      )

  pub finish-Finished :
      (a : Result (Unit {0}) × Sql p.World)
      → a.1.internal_transaction_disabled ≡ false
      → a.1.transaction ≡ true
      → Finished a (finish p str a)
  unfolding finish
  finish-Finished (ok u, s) i t =
      subst (Finished (ok u, s)) (sym (end_enabled p s i t)) (committed-Finished s)
  finish-Finished (err e, s) i t =
      subst (λ b. Finished (err e, s) (aborted p str e b)) (sym (abort_enabled p s i t))
        (aborted-Finished e s)

  -- After BEGIN succeeded and left `s`.
  begun :
      (fs : List Bytes) (idents : Bytes) (s : Sql p.World) (b : Result (Unit {0}) × Sql p.World)
      → s.connected ≡ true
      → NotAmong commit fs idents
      → Finished (send_all p str fs idents s) b
      → (is_ok b.0 ≡ true
          → events b.1.world ≡ events s.world ++ (all_sent fs idents ++ sent commit true ∷ []))
        × (is_ok b.0 ≡ false → Without commit (events s.world) (events b.1.world))
  begun fs idents s b on h (good, bad) = (
    λ e.
        let (all_ok, commit_ok, same_events) = good e in
        let (on', sent_all) = send_all_sent p str more events o fs idents s on all_ok in
        same_events
        ∙ (query_on p str more events o commit (send_all p str fs idents s).1 on' commit_ok).1
        ∙ ap (λ t. t ++ sent commit true ∷ []) sent_all
        ∙ append_assoc (events s.world) (all_sent fs idents) (sent commit true ∷ []),
    λ e. Without-trans (send_all-Without p str more events o commit fs idents s h) (bad e),
  )

  -- What BEGIN did before it left the state `s'`.
  abbrev Began : Sql p.World → Result (Option (p.Res × ℕ)) × Sql p.World → Type 0
  Began s (r, s') =
      (is_ok r ≡ true
        → (s'.connected ≡ true)
          × (events s'.world
              ≡ (events s.world ++ (if s.connected then [] else opening true ∷ []))
                ++ sent (codes "BEGIN") true ∷ []))
      × Without commit (events s.world) (events s'.world)
      × (s'.internal_transaction_disabled ≡ false)

  -- All or nothing, from the events at `s` to those of a deletion's end.
  abbrev IsAtomic : List Bytes → Bytes → Sql p.World → Result (Unit {0}) × Sql p.World → Type 0
  IsAtomic fs idents s b =
      (is_ok b.0 ≡ true
        → events b.1.world
          ≡ ((events s.world ++ (if s.connected then [] else opening true ∷ []))
              ++ sent (codes "BEGIN") true ∷ [])
            ++ (all_sent fs idents ++ sent commit true ∷ []))
      × (is_ok b.0 ≡ false → Without commit (events s.world) (events b.1.world))

  delete_began :
      (fs : List Bytes) (idents : Bytes) (s : Sql p.World)
      (a : Result (Option (p.Res × ℕ)) × Sql p.World)
      → NotAmong commit fs idents
      → Began s a
      → IsAtomic fs idents s (delete_started p str fs idents (began p a))
  unfolding delete_started began
  delete_began fs idents s (err e, s') h (good, bad, i) = (λ e. cc e, λ e. bad)
  delete_began fs idents s (ok x, s') h (good, bad, i) =
      let (on, e) = good refl in
      let t = record s' { transaction = true } in
      let k = send_all-Keeps p str fs idents t (λ _. on) in
      let done =
        finish-Finished (send_all p str fs idents t) (k.same_internal ∙ i) k.same_transaction in
      let (yes', no') = begun fs idents t (finish p str (send_all p str fs idents t)) on h done in
      (
        λ r. yes' r ∙ ap (λ v. v ++ (all_sent fs idents ++ sent commit true ∷ [])) e,
        λ r. Without-trans bad (no' r),
      )

  -- The events of a deletion that succeeded: the connection opened if it was closed, then BEGIN,
  -- the statements and COMMIT, all successful. In one that failed no COMMIT was successful.
  abbrev pub AllOrNothing :
      List Bytes → Bytes → Sql p.World → Result (Unit {0}) × Sql p.World → Type 0
  AllOrNothing fs idents s (ok _, s') =
      events s'.world
      ≡ ((events s.world ++ (if s.connected then [] else opening true ∷ []))
          ++ sent (codes "BEGIN") true ∷ [])
        ++ (all_sent fs idents ++ sent (codes "COMMIT") true ∷ [])
  AllOrNothing fs idents s (err _, s') = Without (codes "COMMIT") (events s.world) (events s'.world)

  AllOrNothing-of :
      (fs : List Bytes) (idents : Bytes) (s : Sql p.World) (b : Result (Unit {0}) × Sql p.World)
      → IsAtomic fs idents s b
      → AllOrNothing fs idents s b
  AllOrNothing-of fs idents s (ok _, s') (yes', no') = yes' refl
  AllOrNothing-of fs idents s (err _, s') (yes', no') = no' refl

  -- While memory lasts, outside a transaction and with internal transactions enabled, over a
  -- plugin whose calls `events` records: a deletion that succeeds has opened the connection if it
  -- was closed, and has sent BEGIN, every statement and COMMIT, all successfully, in this order
  -- and with nothing between them; in a deletion that fails no COMMIT has succeeded.
  pub delete_message-AllOrNothing :
      (k : Kind) (idents : Bytes) (s : Sql p.World)
      → s.transaction ≡ false
      → s.internal_transaction_disabled ≡ false
      → AllOrNothing (queries k) idents s (delete_message p str (queries k) idents s)
  unfolding delete_message same
  delete_message-AllOrNothing k idents s off i =
      let q = query_sql p (codes "BEGIN") (lock s) in
      subst (λ a. AllOrNothing (queries k) idents s (delete_started p str (queries k) idents a))
        (sym (start_enabled p s i off))
        (AllOrNothing-of (queries k) idents s _ (
          delete_began (queries k) idents s q (queries-NotAmong k idents) (
            events-query_ok p events o (codes "BEGIN") (lock s),
            Without-query_other p events o (codes "BEGIN") commit (lock s) refl,
            internal-query_sql p (codes "BEGIN") (lock s) ∙ i,
          )))
