-- ===== src/Delete.antt =====
-- plugins/format/classic/classic-delete.c: the deletion of messages, and `requiemdb_sql_query_sprintf`
-- of src/requiemdb-sql.c, which sends its statements.
pub mod Idents
pub mod Atomic
pub mod Sent
pub mod Commit
use Prim.Native.Nat.{◌^◌}
use librequiemdb.Base.{
  ℕ, suc, Bool, true, false, List, [], ◌∷◌, ◌++◌, Option, none, some, String, ◌==◌, ◌&&◌,
  if◌then◌else◌, Bytes, codes, length, take,
}
use librequiemdb.Base.Decimal.{decimal}
use librequiemdb.Error.{Result, ok, err, Error, ◌>>=◌}
use librequiemdb.Plugin.{Plugin}
use librequiemdb.Strings.{Strings}
use librequiemdb.Sql.{Sql, query_sql, transaction_start, transaction_end, transaction_abort}

-- `printf` of a format whose only directives are `%s`, all of the same argument.
unfoldable pub format_s : Bytes → Bytes → Bytes
format_s [] arg = []
format_s (c ∷ []) arg = c ∷ []
format_s (c ∷ d ∷ f) arg =
    let here = arg ++ format_s f arg in
    let later = c ∷ format_s (d ∷ f) arg in if c == b'%' && d == b's' then here else later

module _ (p : Plugin) (str : Strings) where
  open p use {World, Res}

  abbrev pub send_text : Result Bytes → Sql World → Result (Option (Res × ℕ)) × Sql World
  send_text (err e) s = (err e, s)
  send_text (ok q) s = query_sql p q s

  -- `requiemdb_sql_query_sprintf`, for a format of `%s` directives
  unfoldable pub query_sprintf : Bytes → Bytes → Sql World → Result (Option (Res × ℕ)) × Sql World
  query_sprintf f arg s = send_text (str.cat [] (format_s f arg)) s

  -- `if ( ret < 0 ) goto error`, and on with the loop otherwise
  abbrev next {ℓ} :
      {A : Type ℓ}
      → Result A
      → (Sql World → Result (Unit {0}) × Sql World)
      → Sql World
      → Result (Unit {0}) × Sql World
  next (err e) k s = (err e, s)
  next (ok _) k s = k s

  -- The loop over the statements of `delete_message`.
  unfoldable pub send_all : List Bytes → Bytes → Sql World → Result (Unit {0}) × Sql World
  send_all [] idents s = (ok tt, s)
  send_all (f ∷ fs) idents s =
      let (r, s') = query_sprintf f idents s in next r (send_all fs idents) s'

  -- `(tmp < 0) ? tmp : ret`
  abbrev aborted : Error → Result (Unit {0}) × Sql World → Result (Unit {0}) × Sql World
  aborted e (ok _, s) = (err e, s)
  aborted e (err e', s) = (err e', s)

  unfoldable pub finish : Result (Unit {0}) × Sql World → Result (Unit {0}) × Sql World
  finish (ok _, s) = transaction_end p s
  finish (err e, s) = aborted e (transaction_abort p s)

  unfoldable pub delete_started :
      List Bytes → Bytes → Result (Unit {0}) × Sql World → Result (Unit {0}) × Sql World
  unfolding finish
  delete_started queries idents (err e, s) = (err e, s)
  delete_started queries idents (ok _, s) = finish (send_all queries idents s)

  unfoldable pub delete_message : List Bytes → Bytes → Sql World → Result (Unit {0}) × Sql World
  unfolding delete_started
  delete_message queries idents s = delete_started queries idents (transaction_start p s)

-- The statements of `do_delete_alert`.
abbrev texts : List String → List Bytes
texts [] = []
texts (s ∷ ss) = codes s ∷ texts ss

abbrev pub alert_queries : List Bytes
alert_queries = texts (
    "DELETE FROM Requiem_Action WHERE _message_ident %s"
    ∷ "DELETE FROM Requiem_AdditionalData WHERE _message_ident %s AND _parent_type = 'A'"
    ∷ "DELETE FROM Requiem_Address WHERE _message_ident %s AND _parent_type != 'H'"
    ∷ "DELETE FROM Requiem_Alert WHERE _ident %s"
    ∷ "DELETE FROM Requiem_Alertident WHERE _message_ident %s"
    ∷ "DELETE FROM Requiem_Analyzer WHERE _message_ident %s AND _parent_type = 'A'"
    ∷ "DELETE FROM Requiem_AnalyzerTime WHERE _message_ident %s AND _parent_type = 'A'"
    ∷ "DELETE FROM Requiem_Assessment WHERE _message_ident %s"
    ∷ "DELETE FROM Requiem_Classification WHERE _message_ident %s"
    ∷ "DELETE FROM Requiem_Reference WHERE _message_ident %s"
    ∷ "DELETE FROM Requiem_Confidence WHERE _message_ident %s"
    ∷ "DELETE FROM Requiem_CorrelationAlert WHERE _message_ident %s"
    ∷ "DELETE FROM Requiem_CreateTime WHERE _message_ident %s AND _parent_type = 'A'"
    ∷ "DELETE FROM Requiem_DetectTime WHERE _message_ident %s"
    ∷ "DELETE FROM Requiem_File WHERE _message_ident %s"
    ∷ "DELETE FROM Requiem_FileAccess WHERE _message_ident %s"
    ∷ "DELETE FROM Requiem_FileAccess_Permission WHERE _message_ident %s"
    ∷ "DELETE FROM Requiem_Impact WHERE _message_ident %s"
    ∷ "DELETE FROM Requiem_Inode WHERE _message_ident %s"
    ∷ "DELETE FROM Requiem_Checksum WHERE _message_ident %s"
    ∷ "DELETE FROM Requiem_Linkage WHERE _message_ident %s"
    ∷ "DELETE FROM Requiem_Node WHERE _message_ident %s AND _parent_type != 'H'"
    ∷ "DELETE FROM Requiem_OverflowAlert WHERE _message_ident %s"
    ∷ "DELETE FROM Requiem_Process WHERE _message_ident %s AND _parent_type != 'H'"
    ∷ "DELETE FROM Requiem_ProcessArg WHERE _message_ident %s AND _parent_type != 'H'"
    ∷ "DELETE FROM Requiem_ProcessEnv WHERE _message_ident %s AND _parent_type != 'H'"
    ∷ "DELETE FROM Requiem_SnmpService WHERE _message_ident %s"
    ∷ "DELETE FROM Requiem_Service WHERE _message_ident %s"
    ∷ "DELETE FROM Requiem_Source WHERE _message_ident %s"
    ∷ "DELETE FROM Requiem_Target WHERE _message_ident %s"
    ∷ "DELETE FROM Requiem_ToolAlert WHERE _message_ident %s"
    ∷ "DELETE FROM Requiem_User WHERE _message_ident %s"
    ∷ "DELETE FROM Requiem_UserId WHERE _message_ident %s"
    ∷ "DELETE FROM Requiem_WebService WHERE _message_ident %s"
    ∷ "DELETE FROM Requiem_WebServiceArg WHERE _message_ident %s" ∷ [])

-- The statements of `do_delete_heartbeat`.
abbrev pub heartbeat_queries : List Bytes
heartbeat_queries = texts (
    "DELETE FROM Requiem_AdditionalData WHERE _parent_type = 'H' AND _message_ident %s"
    ∷ "DELETE FROM Requiem_Address WHERE _parent_type = 'H' AND _message_ident %s"
    ∷ "DELETE FROM Requiem_Analyzer WHERE _parent_type = 'H' AND _message_ident %s"
    ∷ "DELETE FROM Requiem_AnalyzerTime WHERE _parent_type = 'H' AND _message_ident %s"
    ∷ "DELETE FROM Requiem_CreateTime WHERE _parent_type = 'H' AND _message_ident %s"
    ∷ "DELETE FROM Requiem_Node WHERE _parent_type = 'H' AND _message_ident %s"
    ∷ "DELETE FROM Requiem_Process WHERE _parent_type = 'H' AND _message_ident %s"
    ∷ "DELETE FROM Requiem_ProcessArg WHERE _parent_type = 'H' AND _message_ident %s"
    ∷ "DELETE FROM Requiem_ProcessEnv WHERE _parent_type = 'H' AND _message_ident %s"
    ∷ "DELETE FROM Requiem_Heartbeat WHERE _ident %s" ∷ [])

-- The `sprintf` of one identifier behind a separator.
abbrev item : Bool → ℕ → Bytes
item need_sep n = (if need_sep then codes ", " else []) ++ decimal n

module _ (str : Strings) where
  list_loop : Bool → List ℕ → Bytes → Result Bytes
  list_loop need_sep [] out = ok out
  list_loop need_sep (n ∷ ns) out = do out' ← str.cat out (item need_sep n); list_loop true ns out'

  -- The text and the number of identifiers.
  unfoldable pub get_string_from_ident_list : List ℕ → Result (Bytes × ℕ)
  unfolding list_loop
  get_string_from_ident_list ns = do
    out ← str.cat [] (codes "IN (")
    out' ← list_loop false ns out
    out'' ← str.cat out' (codes ")")
    ok (out'', length ns)

  -- The results of `requiemdb_result_idents_get_next` up to its 0: an identifier, or an error,
  -- which leaves the variable `ident` as it was and is not told from a row.
  result_loop : Bool → ℕ → List (Option ℕ) → Bytes → Result Bytes
  result_loop need_sep ident [] out = ok out
  result_loop need_sep ident (none ∷ rows) out = do
    out' ← str.cat out (item need_sep ident)
    result_loop true ident rows out'
  result_loop need_sep ident (some n ∷ rows) out = do
    out' ← str.cat out (item need_sep n)
    result_loop true n rows out'

  -- No row is the result 0.
  result_end : List (Option ℕ) → Bytes → Result (Option (Bytes × ℕ))
  result_end [] out = ok none
  result_end (r ∷ rs) out = do out' ← str.cat out (codes ")"); ok (some (out', length (r ∷ rs)))

  -- `ident` is what the variable held at first.
  unfoldable pub get_string_from_result_ident : ℕ → List (Option ℕ) → Result (Option (Bytes × ℕ))
  unfolding result_loop result_end
  get_string_from_result_ident ident rows = do
    out ← str.cat [] (codes "IN (")
    out' ← result_loop false ident rows out
    result_end rows out'

-- The functions for alerts and for heartbeats are alike.
pub data Kind : Type 0 where
  alert heartbeat : Kind

abbrev pub queries : Kind → List Bytes
queries alert = alert_queries
queries heartbeat = heartbeat_queries

-- `snprintf(buf, sizeof(buf), "= %" REQUIEM_PRIu64, ident)` at 32 bytes
unfoldable pub equals : ℕ → Bytes
equals ident = take 31 (codes "= " ++ decimal ident)

module _ (p : Plugin) (str : Strings) where
  open p use {World}

  -- `classic_delete_alert`, `classic_delete_heartbeat`
  unfoldable pub delete_one : Kind → ℕ → Sql World → Result (Unit {0}) × Sql World
  unfolding delete_message equals
  delete_one k ident s = delete_message p str (queries k) (equals ident) s

  -- `(ret < 0) ? ret : count`
  abbrev pub counted : ℕ → Result (Unit {0}) × Sql World → Result ℕ × Sql World
  counted n (ok _, s) = (ok n, s)
  counted n (err e, s) = (err e, s)

  -- `classic_delete_alert_from_list`, `classic_delete_heartbeat_from_list`
  unfoldable pub delete_from_list : Kind → List ℕ → Sql World → Result ℕ × Sql World
  unfolding delete_message get_string_from_ident_list
  delete_from_list k ns s = elim (get_string_from_ident_list str ns) [
    | err e ↦ (err e, s)
    | ok (idents, n) ↦ counted n (delete_message p str (queries k) idents s)
  ]

  -- `classic_delete_alert_from_result_idents`, `classic_delete_heartbeat_from_result_idents`
  unfoldable pub delete_from_results : Kind → ℕ → List (Option ℕ) → Sql World → Result ℕ × Sql World
  unfolding delete_message get_string_from_result_ident
  delete_from_results k ident rows s = elim (get_string_from_result_ident str ident rows) [
    | err e ↦ (err e, s)
    | ok none ↦ (ok 0, s)
    | ok (some (idents, n)) ↦ counted n (delete_message p str (queries k) idents s)
  ]
