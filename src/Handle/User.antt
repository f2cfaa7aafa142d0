-- ===== src/Handle/User.antt =====
-- src/requiemdb.c: a transaction of the user around insertions and deletions of the classic format,
-- whose own transactions are then disabled.
use librequiemdb.Base.{
  ℕ, ◌+◌, Bool, true, false, List, [], ◌∷◌, ◌≡◌, ◌∙◌, ap, refl, sym, subst, arith, Option, none,
  some, codes,
}
use librequiemdb.Error.{Result, ok, err}
use librequiemdb.Plugin.{Plugin}
use librequiemdb.Strings.{Strings}
use librequiemdb.Sql.{
  Sql, lock, began, roll_back, rolled_back, committed, query_sql, transaction_start,
  transaction_end, transaction_abort, do_start, do_end, do_abort,
}
use librequiemdb.Sql.Lock.{IsLive, lock-query_sql, transaction-query_sql}
use librequiemdb.Sql.Start.{Keeps, Keeps-trans, start_disabled, connected-query_sql}
use librequiemdb.Sql.Trace.{is_ok}
use librequiemdb.Delete.{
  Kind, queries, equals, finish, send_all, delete_started, delete_message, delete_one,
}
use librequiemdb.Delete.Atomic.{send_all-Keeps}
use librequiemdb.Message.{Message, Alertident, alert_message, heartbeat_message, unknown_message}
use librequiemdb.Time.{Clock}
use librequiemdb.Program.{Program, run, present, fail}
use librequiemdb.Program.Keeps.{run-Keeps}
use librequiemdb.Classic.Insert.{
  insert_started, in_transaction, insert_alert, insert_heartbeat, classic_insert,
}
use librequiemdb.Classic.Insert.Atomic.{KeptFrom, IsRegular, strict-KeptFrom}
use librequiemdb.Handle.{user_started, user_start, user_end, user_abort}

pub data Request : Type 0 where
  insert_request : Option Message → Request
  delete_request : Kind → ℕ → Request

module _ (p : Plugin) (str : Strings) (clock : Clock) (null_alertident : Alertident) (old : ℕ) where
  open p use {World, Res}

  abbrev pub request : Request → Sql World → Result (Unit {0}) × Sql World
  request (insert_request message) s = classic_insert p str clock null_alertident old message s
  request (delete_request k ident) s = delete_one p str k ident s

  abbrev pub requests : List Request → Sql World → Sql World
  requests [] s = s
  requests (r ∷ rs) s = requests rs (request r s).1

  -- A request leaves a live connection, and so do the insertions of an alert that are passed over.
  abbrev pub IsSafe : Request → Sql World → Type 0
  IsSafe (insert_request message) s =
      IsRegular p str clock null_alertident old message s
      × IsLive (request (insert_request message) s).1
  IsSafe (delete_request k ident) s = IsLive (request (delete_request k ident) s).1

  abbrev pub AreSafe : List Request → Sql World → Type 0
  AreSafe [] s = Unit
  AreSafe (r ∷ rs) s = IsSafe r s × AreSafe rs (request r s).1

  finish_disabled :
      (a : Result (Unit {0}) × Sql World)
      → a.1.internal_transaction_disabled ≡ true
      → (finish p str a).1 ≡ a.1
  unfolding finish transaction_end transaction_abort
  finish_disabled (ok _, s) h = rw h refl
  finish_disabled (err e, s) h = rw h refl

  finish_Keeps :
      (s : Sql World) (a : Result (Unit {0}) × Sql World)
      → s.internal_transaction_disabled ≡ true
      → Keeps p s a.1
      → Keeps p s (finish p str a).1
  finish_Keeps s a h k = subst (Keeps p s) (sym (finish_disabled a (k.same_internal ∙ h))) k

  in_transaction-Keeps :
      {c : Bool} (m : Program c (Unit {0})) (s : Sql World)
      → s.internal_transaction_disabled ≡ true
      → IsLive s
      → KeptFrom p str old m (transaction_start p s)
      → Keeps p s (in_transaction p str old m s).1
  unfolding in_transaction insert_started
  in_transaction-Keeps m s h l kept =
      subst (λ a. Keeps p s (insert_started p str old m a).1) (sym (start_disabled p s h))
        (finish_Keeps s (run p str old m s) h
          (run-Keeps p str old m s l (subst (KeptFrom p str old m) (start_disabled p s h) kept)))

  request-Keeps :
      (r : Request) (s : Sql World)
      → s.internal_transaction_disabled ≡ true
      → IsLive s
      → IsSafe r s
      → Keeps p s (request r s).1
  unfolding classic_insert delete_one delete_message delete_started
  request-Keeps (insert_request none) s h l safe = record {
    same_lock = refl;
    same_transaction = refl;
    same_internal = refl;
  }
  request-Keeps (insert_request (some (alert_message a))) s h l (kept, after) =
      in_transaction-Keeps (present (insert_alert clock null_alertident) a) s h l kept
  request-Keeps (insert_request (some (heartbeat_message b))) s h l safe =
      in_transaction-Keeps (present (insert_heartbeat clock) b) s h l
        (strict-KeptFrom p str old _ _)
  request-Keeps (insert_request (some unknown_message)) s h l safe =
      in_transaction-Keeps {c = true} (fail _) s h l (strict-KeptFrom p str old (fail _) _)
  request-Keeps (delete_request k ident) s h l safe =
      subst (λ a. Keeps p s (delete_started p str (queries k) (equals ident) a).1)
        (sym (start_disabled p s h))
        (finish_Keeps s (send_all p str (queries k) (equals ident) s) h
          (send_all-Keeps p str (queries k) (equals ident) s l))

  after-IsLive : (r : Request) (s : Sql World) → IsSafe r s → IsLive (request r s).1
  after-IsLive (insert_request message) s safe = safe.1
  after-IsLive (delete_request k ident) s safe = safe

  requests-Keeps :
      (rs : List Request) (s : Sql World)
      → s.internal_transaction_disabled ≡ true
      → IsLive s
      → AreSafe rs s
      → Keeps p s (requests rs s)
  requests-Keeps [] s h l safe = record {
    same_lock = refl;
    same_transaction = refl;
    same_internal = refl;
  }
  requests-Keeps (r ∷ rs) s h l safe =
      let k = request-Keeps r s h l safe.0 in
      Keeps-trans p k
        (requests-Keeps rs (request r s).1 (k.same_internal ∙ h) (after-IsLive r s safe.0) safe.1)

  started_facts :
      (l : ℕ) (a : Result (Option (Res × ℕ)) × Sql World)
      → a.1.lock ≡ l
      → (is_ok a.0 ≡ true → a.1.connected ≡ true)
      → (user_started p (began p a)).0 ≡ ok tt
      → ((user_started p (began p a)).1.lock ≡ l)
        × ((user_started p (began p a)).1.transaction ≡ true)
        × ((user_started p (began p a)).1.connected ≡ true)
        × ((user_started p (began p a)).1.internal_transaction_disabled ≡ true)
  unfolding began
  started_facts l (err e, s) same_lock on good = cc good
  started_facts l (ok x, s) same_lock on good = (same_lock, refl, on refl, refl)

  do_start_outside :
      (s : Sql World)
      → s.transaction ≡ false
      → do_start p s ≡ began p (query_sql p (codes "BEGIN") (lock s))
  unfolding do_start
  do_start_outside s off = rw off refl

  start_facts :
      (s : Sql World)
      → s.transaction ≡ false
      → (user_start p s).0 ≡ ok tt
      → ((user_start p s).1.lock ≡ s.lock + 1)
        × ((user_start p s).1.transaction ≡ true)
        × ((user_start p s).1.connected ≡ true)
        × ((user_start p s).1.internal_transaction_disabled ≡ true)
  unfolding user_start
  start_facts s off good =
      let q = codes "BEGIN" in
      let e = do_start_outside s off in
      subst
        (λ a.
          ((user_started p a).1.lock ≡ s.lock + 1)
          × ((user_started p a).1.transaction ≡ true)
          × ((user_started p a).1.connected ≡ true)
          × ((user_started p a).1.internal_transaction_disabled ≡ true))
        (sym e)
        (started_facts (s.lock + 1) (query_sql p q (lock s)) (lock-query_sql p q (lock s))
          (connected-query_sql p q (lock s)) (ap (λ a. (user_started p a).0) (sym e) ∙ good))

  -- How the user ends the transaction.
  abbrev pub ended : Bool → Sql World → Sql World
  ended true s = (user_end p s).1
  ended false s = (user_abort p s).1

  ended_facts :
      (commit : Bool) (base : ℕ) (s : Sql World)
      → s.transaction ≡ true
      → s.lock ≡ base + 1
      → ((ended commit s).transaction ≡ false)
        × ((ended commit s).lock ≡ base)
        × ((ended commit s).internal_transaction_disabled ≡ false)
  unfolding user_end user_abort do_end do_abort committed roll_back rolled_back
  ended_facts true base s on l = ground (arith, lock-query_sql p (codes "COMMIT") s)
  ended_facts false base s on l =
      let s' = record s { transaction = false } in
      ground (
        arith,
        lock-query_sql p (codes "ROLLBACK") s',
        transaction-query_sql p (codes "ROLLBACK") s' (λ t. absurd (ground arith)),
      )

  -- Outside a transaction: a transaction that the user starts with success, any insertions and
  -- deletions in it, whatever their results, as long as none of them, and no insertion of an
  -- alert whose result is passed over, leaves the transaction on a connection that was lost, and
  -- its end or its abort, whatever they give, leave no transaction open, the lock as it was and
  -- internal transactions enabled.
  pub user_transaction-restores :
      (commit : Bool) (rs : List Request) (s : Sql World)
      → s.transaction ≡ false
      → (user_start p s).0 ≡ ok tt
      → AreSafe rs (user_start p s).1
      → ((ended commit (requests rs (user_start p s).1)).transaction ≡ false)
        × ((ended commit (requests rs (user_start p s).1)).lock ≡ s.lock)
        × ((ended commit (requests rs (user_start p s).1)).internal_transaction_disabled ≡ false)
  user_transaction-restores commit rs s off good safe =
      let (l, t, on, i) = start_facts s off good in
      let k = requests-Keeps rs (user_start p s).1 i (λ _. on) safe in
      ended_facts commit s.lock (requests rs (user_start p s).1) (k.same_transaction ∙ t)
        (k.same_lock ∙ l)
