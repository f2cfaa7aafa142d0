-- ===== src/Delete/Sent.antt =====
-- classic-delete.c: what the statements of a deletion send, in order.
use librequiemdb.Base.{
  Bool, true, false, List, [], ◌∷◌, ◌++◌, ◌≡◌, ◌∙◌, ap, refl, sym, subst, if◌then◌else◌, Bytes, All,
  same, append_assoc, append-nil,
}
use librequiemdb.Error.{Result, ok, err}
use librequiemdb.Plugin.{Plugin}
use librequiemdb.Strings.{Strings, Appends}
use librequiemdb.Sql.{Sql, query_sql}
use librequiemdb.Sql.Trace.{
  Event, sent, opening, is_ok, Observes, Without, Without-refl, Without-trans, events-query_ok,
  Without-query_other,
}
use librequiemdb.Delete.{format_s, send_text, next, query_sprintf, send_all}

abbrev pub all_sent : List Bytes → Bytes → List Event
all_sent [] idents = []
all_sent (f ∷ fs) idents = sent (format_s f idents) true ∷ all_sent fs idents

-- None of the statements is the statement `q`.
abbrev pub NotAmong : Bytes → List Bytes → Bytes → Type 0
NotAmong q fs idents = All (λ f. same q (format_s f idents) ≡ false) fs

module _ (p : Plugin) (str : Strings) (more : Appends str) (events : p.World → List Event)
    (o : Observes p events) where
  sprintf-query :
      (f idents : Bytes) (s : Sql p.World)
      → query_sprintf p str f idents s ≡ query_sql p (format_s f idents) s
  unfolding query_sprintf
  sprintf-query f idents s = ap (λ r. send_text p str r s) (more.cat_ok [] (format_s f idents))

  -- `k` goes on from the state that a statement left, and succeeds only if the statement did.
  next_ok {ℓ} :
      {A : Type ℓ} (r : Result A) (k : Sql p.World → Result (Unit {0}) × Sql p.World)
      (s : Sql p.World)
      → is_ok (next p str r k s).0 ≡ true
      → (is_ok r ≡ true) × (next p str r k s ≡ k s)
  next_ok (ok x) k s h = (refl, refl)
  next_ok (err e) k s h = cc

  -- A statement that succeeds over an open connection is the only event.
  pub query_on :
      (q : Bytes) (s : Sql p.World)
      → s.connected ≡ true
      → is_ok (query_sql p q s).0 ≡ true
      → ((query_sql p q s).1.connected ≡ true)
        × (events (query_sql p q s).1.world ≡ events s.world ++ sent q true ∷ [])
  query_on q s on h =
      let fact = events-query_ok p events o q s h in
      let at = λ (b : Bool).
        (events s.world ++ (if b then [] else opening true ∷ [])) ++ sent q true ∷ [] in
      (fact.0, fact.1 ∙ ap at on ∙ ap (λ t. t ++ sent q true ∷ []) (append-nil (events s.world)))

  statement_on :
      (f idents : Bytes) (s : Sql p.World)
      → s.connected ≡ true
      → is_ok (query_sprintf p str f idents s).0 ≡ true
      → ((query_sprintf p str f idents s).1.connected ≡ true)
        × (events (query_sprintf p str f idents s).1.world
            ≡ events s.world ++ sent (format_s f idents) true ∷ [])
  statement_on f idents s on =
      subst
        (λ x.
          is_ok x.0 ≡ true
          → (x.1.connected ≡ true)
            × (events x.1.world ≡ events s.world ++ sent (format_s f idents) true ∷ []))
        (sym (sprintf-query f idents s)) (query_on (format_s f idents) s on)

  -- The statements succeed together: they are all sent, in order, over the connection that was open.
  pub send_all_sent :
      (fs : List Bytes) (idents : Bytes) (s : Sql p.World)
      → s.connected ≡ true
      → is_ok (send_all p str fs idents s).0 ≡ true
      → ((send_all p str fs idents s).1.connected ≡ true)
        × (events (send_all p str fs idents s).1.world ≡ events s.world ++ all_sent fs idents)
  unfolding send_all
  send_all_sent [] idents s on h = (on, sym (append-nil (events s.world)))
  send_all_sent (f ∷ fs) idents s on h =
      let (r, s') = query_sprintf p str f idents s in
      let (good, step) = next_ok r (send_all p str fs idents) s' h in
      let (on', one) = statement_on f idents s on good in
      let rest = send_all_sent fs idents s' on' (subst (λ x. is_ok x.0 ≡ true) step h) in
      (
        ap (λ x. x.1.connected) step ∙ rest.0,
        ap (λ x. events x.1.world) step
            ∙ rest.1
            ∙ ap (λ t. t ++ all_sent fs idents) one
            ∙ append_assoc (events s.world) (sent (format_s f idents) true ∷ [])
                (all_sent fs idents),
      )

  next-Without {ℓ} :
      {A : Type ℓ} (q : Bytes) (r : Result A) (k : Sql p.World → Result (Unit {0}) × Sql p.World)
      {t : List Event} {s : Sql p.World}
      → Without q t (events s.world)
      → Without q (events s.world) (events (k s).1.world)
      → Without q t (events (next p str r k s).1.world)
  next-Without q (ok x) k a b = Without-trans a b
  next-Without q (err e) k a b = a

  pub send_all-Without :
      (q : Bytes) (fs : List Bytes) (idents : Bytes) (s : Sql p.World)
      → NotAmong q fs idents
      → Without q (events s.world) (events (send_all p str fs idents s).1.world)
  unfolding send_all
  send_all-Without q [] idents s h = Without-refl q (events s.world)
  send_all-Without q (f ∷ fs) idents s h =
      next-Without q (query_sprintf p str f idents s).0 (send_all p str fs idents)
        (subst (λ x. Without q (events s.world) (events x.1.world)) (sym (sprintf-query f idents s))
          (Without-query_other p events o (format_s f idents) q s h.0))
        (send_all-Without q fs idents (query_sprintf p str f idents s).1 h.1)
