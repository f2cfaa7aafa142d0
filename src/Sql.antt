-- ===== src/Sql.antt =====
-- src/requiemdb-sql.c: a connection, its lock and its transactions.
-- `lock` counts how often the calling thread holds the recursive mutex. The two bits of `status`
-- are two booleans. `malloc` and the log file's `fopen` succeed.
pub mod Lock
pub mod Trace
pub mod Start
use Prim.Native.Nat.{◌^◌}
use librequiemdb.Base.{
  ℕ, ◌+◌, ◌-◌, ◌%◌, ◌==◌, ltb, Bool, true, false, not, ◌&&◌, List, [], ◌∷◌, ◌++◌, Option, none,
  some, if◌then◌else◌, Bytes, codes,
}
use librequiemdb.Error.{
  Result, ok, err, Error, db, raw, is_connection, already_in_transaction, not_in_transaction, query,
}
use librequiemdb.Plugin.{Plugin}

-- `struct requiemdb_sql`; `logfile` is what was written to the log file, if there is one.
pub record Sql (W : Type 0) : Type 0 where
  pub connected : Bool
  pub transaction : Bool
  pub lock : ℕ
  pub internal_transaction_disabled : Bool
  pub logfile : Option (List Bytes)
  pub world : W

module _ {W : Type 0} where
  -- `gl_recursive_lock_lock` and `gl_recursive_lock_unlock`
  abbrev pub lock : Sql W → Sql W
  lock s = record s { lock = s.lock + 1 }

  abbrev pub unlock : Sql W → Sql W
  unlock s = record s { lock = s.lock - 1 }

  -- `requiemdb_sql_enable_query_logging`, `requiemdb_sql_disable_query_logging`
  pub enable_query_logging : Sql W → Sql W
  enable_query_logging s = record s { logfile = some [] }

  pub disable_query_logging : Sql W → Sql W
  disable_query_logging s = record s { logfile = none }

  abbrev pub enable_internal_transaction : Sql W → Sql W
  enable_internal_transaction s = record s { internal_transaction_disabled = false }

  abbrev pub disable_internal_transaction : Sql W → Sql W
  disable_internal_transaction s = record s { internal_transaction_disabled = true }

  -- the `fprintf` of a query that was sent
  abbrev log_query : Bytes → Sql W → Sql W
  log_query q s = elim s.logfile [ none ↦ s | some l ↦ record s { logfile = some (l ++ q ∷ []) } ]

module _ (p : Plugin) where
  open p use {World, Res, Row}

  -- `update_sql_from_errno`
  abbrev pub update_from_error : Error → Sql World → Sql World
  update_from_error e s =
      if is_connection e then record s { world = p.close s.world; connected = false } else s

  abbrev pub update {ℓ} : {A : Type ℓ} → Result A → Sql World → Sql World
  update (ok _) s = s
  update (err e) s = update_from_error e s

  abbrev opened : Result (Unit {0}) → Sql World → Sql World
  opened (ok _) s = record s { connected = true; transaction = false }
  opened (err _) s = s

  -- `requiemdb_sql_connect`; the assignment of `status` drops the transaction bit.
  unfoldable pub connect : Sql World → Result (Unit {0}) × Sql World
  connect s = let (r, w) = p.open_session s.world in (r, opened r (record s { world = w }))

  abbrev unlock_on_error : Result (Unit {0}) × Sql World → Result (Unit {0}) × Sql World
  unlock_on_error (ok u, s) = (ok u, s)
  unlock_on_error (err e, s) = (err e, unlock s)

  -- the macro `assert_connected`, which unlocks before it returns an error
  unfoldable pub assert_connected : Sql World → Result (Unit {0}) × Sql World
  unfolding connect
  assert_connected s = if not s.connected then unlock_on_error (connect s) else (ok tt, s)

  -- the table of a query's result, with its row count
  abbrev table_of : Result (Option Res) → Sql World → Result (Option (Res × ℕ))
  table_of (err e) s = err e
  table_of (ok none) s = ok none
  table_of (ok (some res)) s = ok (some (res, p.row_count res s.world))

  run_query : Bytes → Result (Unit {0}) × Sql World → Result (Option (Res × ℕ)) × Sql World
  run_query q (err e, s) = (err e, s)
  run_query q (ok _, s) =
      let (r, w) = p.query q s.world in
      let s' = log_query q (unlock (update r (record s { world = w }))) in (table_of r s', s')

  -- `requiemdb_sql_query`
  unfoldable pub query_sql : Bytes → Sql World → Result (Option (Res × ℕ)) × Sql World
  unfolding run_query assert_connected
  query_sql q s = run_query q (assert_connected (lock s))

  -- What `ret <= 0` finds of the result of a query; the number of its rows is an `unsigned int`, which
  -- is returned as an `int`.
  abbrev rows_of : Res → ℕ → Result (Option Res)
  rows_of res n =
      if n % 2 ^ 32 == 0
      then ok none
      else if ltb (n % 2 ^ 32) (2 ^ 31)
      then ok (some res)
      else err (raw (2 ^ 32 - n % 2 ^ 32))

  abbrev pub found_rows : Result (Option (Res × ℕ)) → Result (Option Res)
  found_rows (err e) = err e
  found_rows (ok none) = ok none
  found_rows (ok (some (res, n))) = rows_of res n

  unfoldable pub began : Result (Option (Res × ℕ)) × Sql World → Result (Unit {0}) × Sql World
  began (err e, s) = (err e, unlock s)
  began (ok _, s) = (ok tt, record s { transaction = true })

  -- `_requiemdb_sql_transaction_start`
  unfoldable pub do_start : Sql World → Result (Unit {0}) × Sql World
  unfolding began
  do_start s =
      let s' = lock s in
      if s'.transaction
      then (err (db already_in_transaction), unlock s')
      else began (query_sql (codes "BEGIN") s')

  -- `requiemdb_sql_transaction_start`
  unfoldable pub transaction_start : Sql World → Result (Unit {0}) × Sql World
  unfolding do_start
  transaction_start s = if s.internal_transaction_disabled then (ok tt, s) else do_start s

  abbrev done {ℓ} : {A : Type ℓ} → Result A → Result (Unit {0})
  done (ok _) = ok tt
  done (err e) = err e

  unfoldable pub committed : Result (Option (Res × ℕ)) × Sql World → Result (Unit {0}) × Sql World
  committed (r, s) = (done r, unlock (record s { transaction = false }))

  -- `_requiemdb_sql_transaction_end`
  unfoldable pub do_end : Sql World → Result (Unit {0}) × Sql World
  unfolding committed
  do_end s =
      if not s.transaction
      then (err (db not_in_transaction), s)
      else committed (query_sql (codes "COMMIT") s)

  -- `requiemdb_sql_transaction_end`
  unfoldable pub transaction_end : Sql World → Result (Unit {0}) × Sql World
  unfolding do_end
  transaction_end s = if s.internal_transaction_disabled then (ok tt, s) else do_end s

  -- The error of a ROLLBACK is reported as a query error.
  unfoldable pub rolled_back : Result (Option (Res × ℕ)) × Sql World → Result (Unit {0}) × Sql World
  rolled_back (err _, s) = (err (db query), unlock s)
  rolled_back (ok _, s) = (ok tt, unlock s)

  unfoldable pub roll_back : Sql World → Result (Unit {0}) × Sql World
  unfolding rolled_back
  roll_back s =
      if p.thread_error s.world && not s.connected
      then (err (db query), unlock s)
      else rolled_back (query_sql (codes "ROLLBACK") s)

  -- `_requiemdb_sql_transaction_abort`
  unfoldable pub do_abort : Sql World → Result (Unit {0}) × Sql World
  unfolding roll_back
  do_abort s =
      if not s.transaction
      then (err (db not_in_transaction), s)
      else roll_back (record s { transaction = false })

  -- `requiemdb_sql_transaction_abort`
  unfoldable pub transaction_abort : Sql World → Result (Unit {0}) × Sql World
  unfolding do_abort
  transaction_abort s = if s.internal_transaction_disabled then (ok tt, s) else do_abort s

  -- The body that the three escaping functions share, over the plugin's function.
  unfoldable pub with_session :
      (World → Result Bytes × World) → Result (Unit {0}) × Sql World → Result Bytes × Sql World
  with_session f (err e, s) = (err e, s)
  with_session f (ok _, s) = let (r, w) = f s.world in (r, unlock (record s { world = w }))

  -- `requiemdb_sql_escape_fast`
  unfoldable pub escape_fast : Bytes → Sql World → Result Bytes × Sql World
  unfolding with_session assert_connected
  escape_fast input s = with_session (p.escape input) (assert_connected (lock s))

  -- `requiemdb_sql_escape`; no input is the text NULL.
  unfoldable pub escape_text : Option Bytes → Sql World → Result Bytes × Sql World
  unfolding escape_fast
  escape_text none s = (ok (codes "NULL"), s)
  escape_text (some input) s = escape_fast input s

  -- `requiemdb_sql_escape_binary`, `requiemdb_sql_unescape_binary`
  unfoldable pub escape_bytes : Bytes → Sql World → Result Bytes × Sql World
  unfolding with_session assert_connected
  escape_bytes input s = with_session (p.escape_binary input) (assert_connected (lock s))

  unfoldable pub unescape_bytes : Bytes → Sql World → Result Bytes × Sql World
  unfolding with_session assert_connected
  unescape_bytes input s = with_session (p.unescape_binary input) (assert_connected (lock s))

  -- `requiemdb_sql_table_fetch_row`; the lock is not taken.
  unfoldable pub fetch_row : Res → Sql World → Result (Option Row) × Sql World
  fetch_row res s = let (r, w) = p.fetch_row res s.world in (r, update r (record s { world = w }))

  -- `requiemdb_sql_row_fetch_field`
  unfoldable pub fetch_field : Res → Row → ℕ → Sql World → Result (Option Bytes) × Sql World
  fetch_field res row n s =
      let (r, w) = p.fetch_field res row n s.world in (r, update r (record s { world = w }))

  -- `requiemdb_sql_row_fetch_field_by_name`
  unfoldable pub fetch_field_by_name :
      Res → Row → Bytes → Sql World → Result (Option Bytes) × Sql World
  unfolding fetch_field
  fetch_field_by_name res row name s = elim (p.column_num res name s.world) [
    | err e ↦ (err e, s)
    | ok n ↦ fetch_field res row n s
  ]

  -- `requiemdb_sql_destroy`, up to what it frees
  unfoldable pub destroy : Sql World → World
  destroy s = if s.connected then p.close s.world else s.world

-- `requiemdb_sql_new`: `calloc` clears the state.
abbrev pub fresh : {W : Type 0} → W → Sql W
fresh w = record {
  connected = false;
  transaction = false;
  lock = 0;
  internal_transaction_disabled = false;
  logfile = none;
  world = w;
}
