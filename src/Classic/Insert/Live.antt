-- ===== src/Classic/Insert/Live.antt =====
-- classic-insert.c: a heartbeat over a server that answers every call.
pub mod Outcomes
use librequiemdb.Base.{
  ℕ, Bool, true, false, List, [], ◌∷◌, ◌++◌, ◌≡◌, ◌∙◌, ap, refl, sym, subst, codes, Bytes, Option,
  none, some, append_assoc, arith,
}
use librequiemdb.Error.{Result, ok, err, Error}
use librequiemdb.Plugin.{Plugin}
use librequiemdb.Strings.{Strings, Appends}
use librequiemdb.Sql.{Sql, lock, began, committed, query_sql, transaction_start, transaction_end}
use librequiemdb.Sql.Start.{internal-query_sql, start_enabled, end_enabled}
use librequiemdb.Sql.Trace.{is_ok}
use librequiemdb.Delete.{finish}
use librequiemdb.Message.{Heartbeat, Alertident, heartbeat_message}
use librequiemdb.Time.{Clock}
use librequiemdb.Program.{Program, run, present}
use librequiemdb.Program.Keeps.{strict-Kept, run-Keeps}
use librequiemdb.Program.Served.{Serves, statements, outcome}
use librequiemdb.Program.Served.Runs.{Answers, run-Answers, query_sql-Answers, query_sql-ok}
use librequiemdb.Classic.Insert.{insert_started, in_transaction, insert_heartbeat, classic_insert}
use Outcomes.{IsWritable, insert_heartbeat-Succeeds}

module _ (p : Plugin) (str : Strings) (more : Appends str) (sent : p.World → List Bytes)
    (quoted quoted_binary : Bytes → Bytes) (n : ℕ)
    (serves : Serves p sent quoted quoted_binary n) where
  open p use {World, Res}

  -- The call succeeded and sent `ss`.
  abbrev pub SucceedsWith : Sql World → Result (Unit {0}) × Sql World → List Bytes → Type 0
  SucceedsWith s a ss = (a.0 ≡ ok tt) × (sent a.1.world ≡ sent s.world ++ ss)

  committed_facts :
      (a : Result (Option (Res × ℕ)) × Sql World)
      → is_ok a.0 ≡ true
      → ((committed p a).0 ≡ ok tt) × ((committed p a).1.world ≡ a.1.world)
  unfolding committed
  committed_facts (ok x, s) h = (refl, refl)
  committed_facts (err e, s) h = cc h

  finish_committed :
      (s : Sql World)
      → s.internal_transaction_disabled ≡ false
      → s.transaction ≡ true
      → s.connected ≡ true
      → SucceedsWith s (transaction_end p s) (codes "COMMIT" ∷ [])
  finish_committed s i t on =
      let q = query_sql p (codes "COMMIT") s in
      let (r, e) = serves.of_query (codes "COMMIT") s.world in
      let h =
        query_sql-Answers p str more sent quoted quoted_binary n serves (codes "COMMIT") s on in
      let (succeeds, world) =
        committed_facts q
          (query_sql-ok p str more sent quoted quoted_binary n serves (codes "COMMIT") s r on e) in
      subst (λ a. SucceedsWith s a (codes "COMMIT" ∷ [])) (sym (end_enabled p s i t))
        (succeeds, ap sent world ∙ h.sends)

  finish_ok :
      (a : Result (Unit {0}) × Sql World) → a.0 ≡ ok tt → finish p str a ≡ transaction_end p a.1
  unfolding finish
  finish_ok (ok _, s) h = refl
  finish_ok (err e, s) h = cc h

  in_transaction_sent :
      (old : ℕ) (m : Program true (Unit {0})) (s : Sql World)
      → s.connected ≡ true
      → s.transaction ≡ false
      → s.internal_transaction_disabled ≡ false
      → outcome quoted quoted_binary n m ≡ ok tt
      → SucceedsWith s
          (in_transaction p str old m s)
          (codes "BEGIN" ∷ (statements quoted quoted_binary n m ++ codes "COMMIT" ∷ []))
  unfolding in_transaction insert_started began
  in_transaction_sent old m s on off i good =
      let l = lock s in
      let (r, e) = serves.of_query (codes "BEGIN") s.world in
      let h =
        query_sql-Answers p str more sent quoted quoted_binary n serves (codes "BEGIN") l on in
      let b = query_sql-ok p str more sent quoted quoted_binary n serves (codes "BEGIN") l r on e in
      subst (λ a. SucceedsWith s (insert_started p str old m a) all) (sym (start_enabled p s i off))
        (started (query_sql p (codes "BEGIN") l) b h.open'
          (internal-query_sql p (codes "BEGIN") l ∙ i) h.sends)
    where
      ss : List Bytes
      ss = statements quoted quoted_binary n m

      all : List Bytes
      all = codes "BEGIN" ∷ (statements quoted quoted_binary n m ++ codes "COMMIT" ∷ [])

      started :
          (a : Result (Option (Res × ℕ)) × Sql World)
          → is_ok a.0 ≡ true
          → a.1.connected ≡ true
          → a.1.internal_transaction_disabled ≡ false
          → sent a.1.world ≡ sent s.world ++ codes "BEGIN" ∷ []
          → SucceedsWith s (insert_started p str old m (began p a)) all
      started (err e, t) b open' i' begun = cc b
      started (ok x, t) b open' i' begun =
          let t' = record t { transaction = true } in
          let a = run p str old m t' in
          let h = run-Answers p str more sent quoted quoted_binary n serves old m t' open' in
          let k = run-Keeps p str old m t' (λ _. open') (strict-Kept p str old m t') in
          let (ends, sends) =
            finish_committed a.1 (k.same_internal ∙ i') k.same_transaction h.open' in
          subst (λ b. SucceedsWith s b all) (sym (finish_ok a (h.gives ∙ good)))
            (
              ends,
              sends
                  ∙ ap (λ v. v ++ codes "COMMIT" ∷ []) (h.sends ∙ ap (λ v. v ++ ss) begun)
                  ∙ append_assoc (sent s.world ++ codes "BEGIN" ∷ []) ss (codes "COMMIT" ∷ [])
                  ∙ append_assoc (sent s.world) (codes "BEGIN" ∷ []) (ss ++ codes "COMMIT" ∷ []),
            )

  -- Over a server that answers every call, with its largest identifier `n` of 64 bits, an open
  -- connection outside a transaction, with internal transactions enabled, and while memory lasts:
  -- a heartbeat whose two times can be written is inserted with success, and what was sent is
  -- BEGIN, the statements of its program in order, and COMMIT.
  pub heartbeat_succeeds :
      (clock : Clock) (null_alertident : Alertident) (old : ℕ) (heartbeat : Heartbeat)
      (s : Sql World)
      → s.connected ≡ true
      → s.transaction ≡ false
      → s.internal_transaction_disabled ≡ false
      → IsWritable clock heartbeat.create_time
      → IsWritable clock heartbeat.analyzer_time
      → SucceedsWith s
          (classic_insert p str clock null_alertident old
            (some (heartbeat_message (some heartbeat)))
            s)
          (codes "BEGIN"
            ∷ (statements quoted quoted_binary n (insert_heartbeat clock heartbeat)
                ++ codes "COMMIT" ∷ []))
  unfolding classic_insert
  heartbeat_succeeds clock null_alertident old heartbeat s on off i created analyzed =
      in_transaction_sent old (insert_heartbeat clock heartbeat) s on off i
        (insert_heartbeat-Succeeds quoted quoted_binary n clock heartbeat created analyzed)
