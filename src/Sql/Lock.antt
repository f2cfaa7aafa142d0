-- ===== src/Sql/Lock.antt =====
-- src/requiemdb-sql.c: how often a thread holds the lock of a connection, in and out of a
-- transaction.
use librequiemdb.Base.{
  ℕ, ◌+◌, true, false, List, [], ◌∷◌, ◌≡◌, arith, codes, if◌then◌else◌, Bytes, Option,
}
use librequiemdb.Error.{ok, err, db, not_in_transaction}
use librequiemdb.Plugin.{Plugin}
use librequiemdb.Sql.{
  Sql, lock, query_sql, transaction_start, transaction_end, transaction_abort, do_end, do_abort,
  escape_text, escape_bytes, unescape_bytes, fetch_row, fetch_field,
}

-- The thread holds the lock `base` times besides what the transaction holds.
pub record Holds {W : Type 0} (base : ℕ) (s : Sql W) : Type 0 where
  pub held : s.lock ≡ base + (if s.transaction then 1 else 0)

-- No transaction is open on a connection that was lost.
abbrev pub IsLive : {W : Type 0} → Sql W → Type 0
IsLive s = s.transaction ≡ true → s.connected ≡ true

-- The calls of a client on a connection.
pub data Call (Res Row : Type 0) : Type 0 where
  start finish abort : Call Res Row
  send : Bytes → Call Res Row
  escape : Option Bytes → Call Res Row
  escape_binary unescape_binary : Bytes → Call Res Row
  next_row : Res → Call Res Row
  field : Res → Row → ℕ → Call Res Row

module _ (p : Plugin) where
  open p use {World, Res, Row}

  -- A query leaves the lock as it was, whether it succeeds or fails.
  pub lock-query_sql : (q : Bytes) (s : Sql World) → (query_sql p q s).1.lock ≡ s.lock
  unfolding query_sql
  lock-query_sql q s = ground arith

  -- Over a live connection it leaves the transaction bit too.
  pub transaction-query_sql :
      (q : Bytes) (s : Sql World) → IsLive s → (query_sql p q s).1.transaction ≡ s.transaction
  unfolding query_sql
  transaction-query_sql q s live = ground arith

  abbrev pub call : Call Res Row → Sql World → Sql World
  call start s = (transaction_start p s).1
  call finish s = (transaction_end p s).1
  call abort s = (transaction_abort p s).1
  call (send q) s = (query_sql p q s).1
  call (escape input) s = (escape_text p input s).1
  call (escape_binary input) s = (escape_bytes p input s).1
  call (unescape_binary input) s = (unescape_bytes p input s).1
  call (next_row res) s = (fetch_row p res s).1
  call (field res row n) s = (fetch_field p res row n s).1

  -- A call that may reconnect is made over a live connection.
  abbrev pub IsSafe : Call Res Row → Sql World → Type 0
  IsSafe (send q) s = IsLive s
  IsSafe (escape input) s = IsLive s
  IsSafe (escape_binary input) s = IsLive s
  IsSafe (unescape_binary input) s = IsLive s
  IsSafe _ s = Unit

  call-Holds :
      (c : Call Res Row) {base : ℕ} (s : Sql World)
      → IsSafe c s
      → Holds base s
      → Holds base (call c s)
  unfolding transaction_start transaction_end transaction_abort escape_text escape_bytes
      unescape_bytes fetch_row fetch_field
  call-Holds start s safe h = ground (
    arith,
    lock-query_sql (codes "BEGIN") (lock s),
    transaction-query_sql (codes "BEGIN") (lock s),
  )
  call-Holds finish s safe h = ground (arith, lock-query_sql (codes "COMMIT") s)
  call-Holds abort s safe h = ground (
    arith,
    lock-query_sql (codes "ROLLBACK") (record s { transaction = false }),
    transaction-query_sql (codes "ROLLBACK") (record s { transaction = false }),
  )
  call-Holds (send q) s safe h = ground (arith, lock-query_sql q s, transaction-query_sql q s safe)
  call-Holds _ s safe h = ground arith

  abbrev pub calls : List (Call Res Row) → Sql World → Sql World
  calls [] s = s
  calls (c ∷ cs) s = calls cs (call c s)

  abbrev pub AreSafe : List (Call Res Row) → Sql World → Type 0
  AreSafe [] s = Unit
  AreSafe (c ∷ cs) s = IsSafe c s × AreSafe cs (call c s)

  -- Whatever the calls and their results, the thread holds the lock once more than outside of a
  -- transaction exactly while one is open, if it did so before the calls, and provided that no
  -- query or escape is made in a transaction whose connection was lost.
  pub calls-Holds :
      (cs : List (Call Res Row)) (base : ℕ) (s : Sql World)
      → AreSafe cs s
      → Holds base s
      → Holds base (calls cs s)
  calls-Holds [] base s safe h = h
  calls-Holds (c ∷ cs) base s safe h =
      calls-Holds cs base (call c s) safe.1 (call-Holds c s safe.0 h)

  transaction-query_sql_lost :
      (q : Bytes) (s : Sql World)
      → s.connected ≡ false
      → (p.open_session s.world).0 ≡ ok tt
      → (query_sql p q s).1.transaction ≡ false
  unfolding query_sql
  transaction-query_sql_lost q s c o = ground arith

  -- A query in a transaction whose connection was lost, where it can be opened again, reconnects
  -- and forgets the transaction, and neither its end nor its abort gives the lock back.
  pub lock_leak :
      (q : Bytes) (s : Sql World)
      → s.transaction ≡ true
      → s.connected ≡ false
      → (p.open_session s.world).0 ≡ ok tt
      → ((query_sql p q s).1.transaction ≡ false)
        × ((query_sql p q s).1.lock ≡ s.lock)
        × (do_end p (query_sql p q s).1 ≡ (err (db not_in_transaction), (query_sql p q s).1))
        × (do_abort p (query_sql p q s).1 ≡ (err (db not_in_transaction), (query_sql p q s).1))
  unfolding do_end do_abort
  lock_leak q s t c o =
      let off = transaction-query_sql_lost q s c o in
      (off, lock-query_sql q s, ground (arith, off), ground (arith, off))
