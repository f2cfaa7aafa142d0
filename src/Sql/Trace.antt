-- ===== src/Sql/Trace.antt =====
-- src/requiemdb-sql.c: what a connection asks of its plugin, in order, over a plugin that also keeps
-- the list of its calls.
use librequiemdb.Base.{
  Bool, true, false, List, [], ◌∷◌, ◌++◌, ◌≡◌, sym, ◌∙◌, ap, refl, subst, Bool-cases, inl, inr,
  arith, if◌then◌else◌, Bytes, Option, All, same, append_assoc, append-nil,
}
use librequiemdb.Error.{is_connection, Error, Result, ok, err}
use librequiemdb.Plugin.{Plugin}
use librequiemdb.Sql.{Sql, query_sql, assert_connected, update_from_error, run_query, lock}

-- Each event has whether the call succeeded.
pub data Event : Type 0 where
  opening : Bool → Event
  sent : Bytes → Bool → Event
  closing : Event

abbrev pub is_ok {ℓ} : {A : Type ℓ} → Result A → Bool
is_ok (ok _) = true
is_ok (err _) = false

-- `events` reads off the world what the plugin was asked so far.
pub record Observes (p : Plugin) (events : p.World → List Event) : Type 0 where
  pub of_open :
      (w : p.World)
      → events (p.open_session w).1 ≡ events w ++ opening (is_ok (p.open_session w).0) ∷ []
  pub of_close : (w : p.World) → events (p.close w) ≡ events w ++ closing ∷ []
  pub of_query :
      (q : Bytes) (w : p.World)
      → events (p.query q w).1 ≡ events w ++ sent q (is_ok (p.query q w).0) ∷ []

-- A successful statement other than `q`, or an event of another kind.
abbrev pub succeeds : Bytes → Event → Bool
succeeds q (sent q' true) = same q q'
succeeds q _ = false

-- The events between two states, none of which is a success of the statement `q`.
pub record Without (q : Bytes) (before after : List Event) : Type 0 where
  pub events : List Event
  pub appended : after ≡ before ++ events
  pub none_is : All (λ e. succeeds q e ≡ false) events

All-append :
    (q : Bytes) (xs ys : List Event)
    → All (λ e. succeeds q e ≡ false) xs
    → All (λ e. succeeds q e ≡ false) ys
    → All (λ e. succeeds q e ≡ false) (xs ++ ys)
All-append q [] ys h k = k
All-append q (x ∷ xs) ys h k = (h.0, All-append q xs ys h.1 k)

pub Without-refl : (q : Bytes) (t : List Event) → Without q t t
Without-refl q t = record { events = []; appended = rw append-nil; none_is = tt }

pub Without-trans : {q : Bytes} {t u v : List Event} → Without q t u → Without q u v → Without q t v
Without-trans {q} {t} a b = record {
  events = a.events ++ b.events;
  appended = b.appended ∙ ap (λ x. x ++ b.events) a.appended ∙ append_assoc t a.events b.events;
  none_is = All-append q a.events b.events a.none_is b.none_is;
}

Without-one :
    (q : Bytes) (e : Event) {t u : List Event}
    → u ≡ t ++ e ∷ []
    → succeeds q e ≡ false
    → Without q t u
Without-one q e h f = record { events = e ∷ []; appended = h; none_is = (f, tt) }

Without-eq : {q : Bytes} {t u v : List Event} → Without q t u → u ≡ v → Without q t v
Without-eq {q} {t} a e = subst (Without q t) e a

module _ (p : Plugin) (events : p.World → List Event) (o : Observes p events) where
  -- Over a plugin whose calls `events` records, a statement that succeeds is sent over a
  -- connection that is open, and stays so; it is opened first if it was not.
  pub events-query_ok :
      (q : Bytes) (s : Sql p.World)
      → is_ok (query_sql p q s).0 ≡ true
      → ((query_sql p q s).1.connected ≡ true)
        × (events (query_sql p q s).1.world
            ≡ (events s.world ++ (if s.connected then [] else opening true ∷ []))
              ++ sent q true ∷ [])
  unfolding query_sql
  events-query_ok q s h = ground (
    arith,
    o.of_query q s.world,
    o.of_query q (p.open_session s.world).1,
    o.of_open s.world,
    append-nil (events s.world),
  )

  Without-open : (q : Bytes) (w : p.World) → Without q (events w) (events (p.open_session w).1)
  Without-open q w = Without-one q _ (o.of_open w) refl

  pub Without-assert_connected :
      (q : Bytes) (s : Sql p.World)
      → Without q (events s.world) (events (assert_connected p s).1.world)
  unfolding assert_connected
  Without-assert_connected q s = elim (Bool-cases s.connected) [
    | inl on ↦ Without-eq (Without-refl q (events s.world)) (ground arith)
    | inr off ↦ Without-eq (Without-open q s.world) (ground arith)
  ]

  pub Without-update :
      (q : Bytes) (e : Error) (s : Sql p.World)
      → Without q (events s.world) (events (update_from_error p e s).world)
  Without-update q e s = elim (Bool-cases (is_connection e)) [
    | inl lost ↦ rw lost (Without-one q closing (o.of_close s.world) refl)
    | inr kept ↦ rw kept (Without-refl q (events s.world))
  ]

  Without-query :
      (q q' : Bytes) (s : Sql p.World) (e : Error)
      → (p.query q s.world).0 ≡ err e
      → Without q' (events s.world) (events (p.query q s.world).1)
  Without-query q q' s e failed =
      Without-one q' (sent q false) (rw failed at (o.of_query q s.world)) refl

  Without-run_query :
      (q q' : Bytes) (a : Result (Unit {0}) × Sql p.World)
      → is_ok (run_query p q a).0 ≡ false
      → Without q' (events a.1.world) (events (run_query p q a).1.world)
  unfolding run_query
  Without-run_query q q' (err e, s) h = Without-refl q' (events s.world)
  Without-run_query q q' (ok u, s) h = go (p.query q s.world).0 refl
    where
      after : Sql p.World
      after = record s { world = (p.query q s.world).1 }

      go :
          (r : Result (Option p.Res))
          → (p.query q s.world).0 ≡ r
          → Without q' (events s.world) (events (run_query p q (ok u, s)).1.world)
      go (ok x) e = absurd (ground arith)
      go (err x) e =
          Without-eq (Without-trans (Without-query q q' s x e) (Without-update q' x after))
            (ground arith)

  -- A statement that fails has no success among its events.
  pub Without-query_sql :
      (q q' : Bytes) (s : Sql p.World)
      → is_ok (query_sql p q s).0 ≡ false
      → Without q' (events s.world) (events (query_sql p q s).1.world)
  unfolding query_sql
  Without-query_sql q q' s h =
      Without-trans (Without-assert_connected q' (lock s))
        (Without-run_query q q' (assert_connected p (lock s)) h)

  pub opened-Without :
      (q : Bytes) (b : Bool) (t : List Event)
      → Without q t (t ++ (if b then [] else opening true ∷ []))
  opened-Without q true t = Without-eq (Without-refl q t) (sym (append-nil t))
  opened-Without q false t = Without-one q (opening true) refl refl

  -- Another statement is no success of this one, whether it succeeds or fails.
  pub Without-query_other :
      (q q' : Bytes) (s : Sql p.World)
      → same q' q ≡ false
      → Without q' (events s.world) (events (query_sql p q s).1.world)
  Without-query_other q q' s ne = elim (Bool-cases (is_ok (query_sql p q s).0)) [
    | inl good ↦
        Without-trans (opened-Without q' s.connected (events s.world))
          (Without-one q' (sent q true) (events-query_ok q s good).1 ne)
    | inr bad ↦ Without-query_sql q q' s bad
  ]
