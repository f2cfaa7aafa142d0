-- ===== src/Handle.antt =====
-- src/requiemdb.c: a handle on a database, which is a connection with a format plugin, and
-- src/requiemdb-plugin-format.c: the deletion of several messages through a format plugin that only
-- deletes one.
pub mod Detect
pub mod Lists
pub mod Library
pub mod User
use librequiemdb.Base.{
  ℕ, suc, ◌+◌, Bool, true, false, List, [], ◌∷◌, Option, none, some, Bytes, codes, length,
}
use librequiemdb.Error.{Result, ok, err, Error, db, raw, cannot_load_format_plugin}
use librequiemdb.Plugin.{Plugin}
use librequiemdb.Strings.{Strings}
use librequiemdb.Sql.{
  Sql, query_sql, fetch_row, fetch_field, do_start, do_end, do_abort, disable_internal_transaction,
  enable_internal_transaction,
}
use librequiemdb.Delete.{Kind, delete_one, delete_from_list, delete_from_results}
use librequiemdb.Message.{Message, Alertident}
use librequiemdb.Time.{Clock}
use librequiemdb.Classic.Insert.{classic_insert}

-- What `requiemdb_plugin_format_t` holds, up to the functions that read messages; the two functions
-- that delete several messages may be missing.
pub record FormatPlugin (p : Plugin) : Type 0 where
  pub check_schema_version : Option Bytes → Result (Unit {0})
  pub insert_message : Option Message → Sql p.World → Result (Unit {0}) × Sql p.World
  pub delete_single : Kind → ℕ → Sql p.World → Result (Unit {0}) × Sql p.World
  pub delete_list : Kind → Option (List ℕ → Sql p.World → Result ℕ × Sql p.World)
  pub delete_results : Kind → Option (ℕ → List (Option ℕ) → Sql p.World → Result ℕ × Sql p.World)

module _ (p : Plugin) where
  open p use {World, Res, Row}

  -- The functions that `classic_LTX_requiemdb_plugin_init` sets.
  abbrev pub classic :
      Strings → Clock → Alertident → ℕ → (Option Bytes → Result (Unit {0})) → FormatPlugin p
  classic str clock null_alertident old check = record {
    check_schema_version = check;
    insert_message = classic_insert p str clock null_alertident old;
    delete_single = delete_one p str;
    delete_list = λ k. some (delete_from_list p str k);
    delete_results = λ k. some (delete_from_results p str k);
  }

  -- The loop of `_requiemdb_plugin_format_delete_alert_from_list` and of the one for heartbeats.
  unfoldable pub delete_each :
      (ℕ → Sql World → Result (Unit {0}) × Sql World)
      → ℕ
      → List ℕ
      → Sql World
      → Result ℕ × Sql World
  delete_each f i [] s = (ok i, s)
  delete_each f i (n ∷ ns) s =
      let (r, s') = f n s in elim r [ err e ↦ (err e, s') | ok _ ↦ delete_each f (i + 1) ns s' ]

  unfoldable pub format_delete_list :
      FormatPlugin p → Kind → List ℕ → Sql World → Result ℕ × Sql World
  unfolding delete_each
  format_delete_list f k ns s = elim (f.delete_list k) [
    | some g ↦ g ns s
    | none ↦ delete_each (f.delete_single k) 0 ns s
  ]

  -- The loop over the results of `requiemdb_result_idents_get_next` up to its 0; an error is a
  -- result too, and leaves `ident` as it was.
  unfoldable pub delete_each_result :
      (ℕ → Sql World → Result (Unit {0}) × Sql World)
      → ℕ
      → ℕ
      → List (Option ℕ)
      → Sql World
      → Result ℕ × Sql World
  delete_each_result f count ident [] s = (ok count, s)
  delete_each_result f count ident (none ∷ rows) s =
      let (r, s') = f ident s in
      elim r [ err e ↦ (err e, s') | ok _ ↦ delete_each_result f (count + 1) ident rows s' ]
  delete_each_result f count ident (some n ∷ rows) s =
      let (r, s') = f n s in
      elim r [ err e ↦ (err e, s') | ok _ ↦ delete_each_result f (count + 1) n rows s' ]

  unfoldable pub format_delete_results :
      FormatPlugin p → Kind → ℕ → List (Option ℕ) → Sql World → Result ℕ × Sql World
  unfolding delete_each_result
  format_delete_results f k ident rows s = elim (f.delete_results k) [
    | some g ↦ g ident rows s
    | none ↦ delete_each_result (f.delete_single k) 0 ident rows s
  ]

  -- `requiemdb_delete_alert_from_list`, `requiemdb_delete_heartbeat_from_list`
  unfoldable pub handle_delete_list :
      FormatPlugin p → Kind → List ℕ → Sql World → Result ℕ × Sql World
  unfolding format_delete_list
  handle_delete_list f k [] s = (ok 0, s)
  handle_delete_list f k (n ∷ ns) s = format_delete_list f k (n ∷ ns) s

  abbrev pub user_started : Result (Unit {0}) × Sql World → Result (Unit {0}) × Sql World
  user_started (err e, s) = (err e, s)
  user_started (ok _, s) = (ok tt, disable_internal_transaction s)

  -- `requiemdb_transaction_start`
  unfoldable pub user_start : Sql World → Result (Unit {0}) × Sql World
  unfolding do_start
  user_start s = user_started (do_start p s)

  -- `requiemdb_transaction_end`
  unfoldable pub user_end : Sql World → Result (Unit {0}) × Sql World
  unfolding do_end
  user_end s = let (r, s') = do_end p s in (r, enable_internal_transaction s')

  -- `requiemdb_transaction_abort`
  unfoldable pub user_abort : Sql World → Result (Unit {0}) × Sql World
  unfolding do_abort
  user_abort s = let (r, s') = do_abort p s in (r, enable_internal_transaction s')
