-- ===== src/Reading/Tables.antt =====
-- Readings over a database that answers every query with the rows of a table.
pub mod Rows
use Prim.Native.Nat.{◌^◌}
use librequiemdb.Base.{
  ℕ, zero, suc, ◌+◌, ◌<◌, Bool, true, false, List, [], ◌∷◌, ◌++◌, ◌≡◌, ◌≢◌, ◌∙◌, refl, sym, subst,
  ap, Option, none, some, Bytes, codes, length, All, arith,
}
use mathlib.Core.List.{map}
use librequiemdb.Error.{Error, Result, ok, err}
use librequiemdb.Plugin.{Plugin}
use librequiemdb.Strings.{Strings, Appends}
use librequiemdb.Sql.{Sql, query_sql, fetch_row, fetch_field, unescape_bytes, found_rows}
use librequiemdb.Delete.{send_text}
use librequiemdb.Reading.{
  Reading, ret, fail, exhausted, ask, fetch, field, unescape, ◌>>=◌, lift, found, kept, one, read,
}

-- The fields of a row; one that is not there is NULL.
abbrev pub Cells : Type 0
Cells = List (Option Bytes)

abbrev pub cell : ℕ → Cells → Option Bytes
cell i [] = none
cell zero (c ∷ cs) = c
cell (suc i) (c ∷ cs) = cell i cs

-- A query without rows has no result, or one that counts none.
abbrev pub CountsNone : (p : Plugin) → Option p.Res → p.World → Type 0
CountsNone p none w = Unit
CountsNone p (some r) w = p.row_count r w ≡ 0

-- A plugin whose queries find the rows that `db` gives for their texts. A result that is open has rows
-- that are left, which no call but the fetch of its rows changes.
pub record Tables (p : Plugin) (db : Bytes → List Cells) : Type 1 where
  pub IsOpen : p.Res → p.World → Type 0
  pub left : p.Res → p.World → List Cells
  pub cells : p.Row → Cells
  -- The rows of a query are fewer than an `int` counts.
  pub few : (q : Bytes) → length (db q) < 2 ^ 31
  pub of_none :
      (q : Bytes) (w : p.World)
      → db q ≡ []
      → (r : Option p.Res) × (w' : p.World) × (p.query q w ≡ (ok r, w'))
        × CountsNone p r w'
        × ((r' : p.Res) → IsOpen r' w → IsOpen r' w' × (left r' w' ≡ left r' w))
  pub of_some :
      (q : Bytes) (w : p.World) (c : Cells) (cs : List Cells)
      → db q ≡ c ∷ cs
      → (r : p.Res) × (w' : p.World) × (p.query q w ≡ (ok (some r), w'))
        × (p.row_count r w' ≡ length (c ∷ cs))
        × IsOpen r w'
        × (left r w' ≡ c ∷ cs)
        × ((r' : p.Res) → IsOpen r' w → IsOpen r' w' × (left r' w' ≡ left r' w) × (r' ≢ r))
  pub of_end : (r : p.Res) (w : p.World) → left r w ≡ [] → p.fetch_row r w ≡ (ok none, w)
  pub of_row :
      (r : p.Res) (w : p.World) (c : Cells) (cs : List Cells)
      → IsOpen r w
      → left r w ≡ c ∷ cs
      → (row : p.Row) × (w' : p.World) × (p.fetch_row r w ≡ (ok (some row), w'))
        × (cells row ≡ c)
        × IsOpen r w'
        × (left r w' ≡ cs)
        × ((r' : p.Res) → IsOpen r' w → r' ≢ r → IsOpen r' w' × (left r' w' ≡ left r' w))
  pub of_field :
      (r : p.Res) (row : p.Row) (i : ℕ) (w : p.World)
      → p.fetch_field r row i w ≡ (ok (cell i (cells row)), w)

module _ (p : Plugin) (str : Strings) (more : Appends str) (db : Bytes → List Cells)
    (tables : Tables p db) where
  open p use {World, Res, Row}
  open tables use {IsOpen, left, cells}

  -- The results that are open are as they were.
  abbrev pub Unmoved : World → World → Type 0
  Unmoved w w' = (r : Res) → IsOpen r w → IsOpen r w' × (left r w' ≡ left r w)

  Unmoved-trans : (u v w : World) → Unmoved u v → Unmoved v w → Unmoved u w
  Unmoved-trans u v w h k r o = let (o', e) = h r o in let (o'', e') = k r o' in (o'', e' ∙ e)

  -- The reading ends with `a` over an open connection, whatever was open before.
  pub record GivesAt {A : Type 0} (m : Reading Res Row A) (a : A) (s : Sql World) : Type 0 where
    pub end : Sql World
    pub gives : read p str m s ≡ (some (ok a), end)
    pub open' : end.connected ≡ true
    pub unmoved : Unmoved s.world end.world

  abbrev pub Gives : {A : Type 0} → Reading Res Row A → A → Type 0
  Gives m a = (s : Sql World) → s.connected ≡ true → GivesAt m a s

  pub ret-Gives : {A : Type 0} (a : A) → Gives (ret a) a
  unfolding read
  ret-Gives a s on = record { end = s; gives = refl; open' = on; unmoved = λ r h. (h, refl) }

  read_on :
      {A B C : Type 0} (x : Result C × Sql World) (f : C → Reading Res Row A)
      (k : A → Reading Res Row B) (a : A) (s' : Sql World)
      → ((c : C)
          → read p str (f c) x.1 ≡ (some (ok a), s')
          → read p str (f c >>= k) x.1 ≡ read p str (k a) s')
      → elim x.0 as (λ _. Option (Result A) × Sql World) [
        | err e ↦ (some (err e), x.1)
        | ok c ↦ read p str (f c) x.1
      ]
        ≡ (some (ok a), s')
      → elim x.0 as (λ _. Option (Result B) × Sql World) [
        | err e ↦ (some (err e), x.1)
        | ok c ↦ read p str (f c >>= k) x.1
      ]
        ≡ read p str (k a) s'
  read_on (err e, t) f k a s' ih h = cc
  read_on (ok c, t) f k a s' ih h = ih c h

  pub read-bind :
      {A B : Type 0} (m : Reading Res Row A) (k : A → Reading Res Row B) (s s' : Sql World) (a : A)
      → read p str m s ≡ (some (ok a), s')
      → read p str (m >>= k) s ≡ read p str (k a) s'
  unfolding read ◌>>=◌
  read-bind (ret x) k s s' a h = cc
  read-bind (fail e) k s s' a h = cc
  read-bind exhausted k s s' a h = cc
  read-bind (ask q f) k s s' a h = read-bind (f _) k _ s' a h
  read-bind (fetch res f) k s s' a h = read-bind (f _) k _ s' a h
  read-bind (field res row i f) k s s' a h =
      read_on (fetch_field p res row i s) f k a s' (λ c. read-bind (f c) k _ s' a) h
  read-bind (unescape v f) k s s' a h =
      read_on (unescape_bytes p v s) f k a s' (λ c. read-bind (f c) k _ s' a) h

  pub bind-Gives :
      {A B : Type 0} (m : Reading Res Row A) (k : A → Reading Res Row B) (a : A) (b : B)
      → Gives m a
      → Gives (k a) b
      → Gives (m >>= k) b
  bind-Gives m k a b h next s on =
      let x = h s on in
      let y = next x.end x.open' in
      record {
        end = y.end;
        gives = read-bind m k s x.end a x.gives ∙ y.gives;
        open' = y.open';
        unmoved = Unmoved-trans s.world x.end.world y.end.world x.unmoved y.unmoved;
      }

  fetch_field-served :
      (res : Res) (row : Row) (i : ℕ) (s : Sql World)
      → fetch_field p res row i s ≡ (ok (cell i (cells row)), s)
  unfolding fetch_field
  fetch_field-served res row i s = rw (tables.of_field res row i s.world) refl

  pub field-Gives :
      {A : Type 0} (res : Res) (row : Row) (i : ℕ) (k : Option Bytes → Reading Res Row A)
      (c : Cells) (a : A)
      → cells row ≡ c
      → Gives (k (cell i c)) a
      → Gives (field res row i k) a
  unfolding read
  field-Gives {A} res row i k c a e h s on =
      let y = h s on in
      record {
        end = y.end;
        gives =
            ap
              (λ (x : Result (Option Bytes) × Sql World).
                elim x.0 as (λ _. Option (Result A) × Sql World) [
                  | err e ↦ (some (err e), x.1)
                  | ok v ↦ read p str (k v) x.1
                ])
              (fetch_field-served res row i s)
            ∙ ap (λ c'. read p str (k (cell i c')) s) e
            ∙ y.gives;
        open' = y.open';
        unmoved = y.unmoved;
      }

  pub fetch_row-end :
      (res : Res) (s : Sql World) → left res s.world ≡ [] → fetch_row p res s ≡ (ok none, s)
  unfolding fetch_row
  fetch_row-end res s h = rw (tables.of_end res s.world h) refl

  pub fetch_row-row :
      (res : Res) (s : Sql World) (row : Row) (w : World)
      → p.fetch_row res s.world ≡ (ok (some row), w)
      → fetch_row p res s ≡ (ok (some row), record s { world = w })
  unfolding fetch_row
  fetch_row-row res s row w h = rw h refl

  -- What a query that is answered gives, over an open connection.
  record Answered (q : Bytes) (s : Sql World) (r : Option Res) (w : World) : Type 0 where
    result : found_rows p (send_text p str (str.cat [] q) s).0 ≡ ok r
    world_of : (send_text p str (str.cat [] q) s).1.world ≡ w
    stays_open : (send_text p str (str.cat [] q) s).1.connected ≡ true

  abbrev counted : Option Res → World → Option (Res × ℕ)
  counted none w = none
  counted (some res) w = some (res, p.row_count res w)

  result_of :
      (q : Bytes) (s : Sql World) (r : Option Res) (w : World)
      → s.connected ≡ true
      → p.query q s.world ≡ (ok r, w)
      → (query_sql p q s).0 ≡ ok (counted r w)
  unfolding query_sql
  result_of q s none w on h = rw on (rw h refl)
  result_of q s (some x) w on h = rw on (rw h (ground arith))

  answered :
      (q : Bytes) (s : Sql World) (x r : Option Res) (w : World)
      → s.connected ≡ true
      → p.query q s.world ≡ (ok x, w)
      → found_rows p (ok (counted x w)) ≡ ok r
      → Answered q s r w
  unfolding query_sql
  answered q s x r w on h n = record {
    result = rw (more.cat_ok [] q) (ap (found_rows p) (result_of q s x w on h) ∙ n);
    world_of = rw (more.cat_ok [] q) (ground arith);
    stays_open = rw (more.cat_ok [] q) (ground arith);
  }

  found_none :
      (r : Option Res) (w : World) → CountsNone p r w → found_rows p (ok (counted r w)) ≡ ok none
  found_none none w h = refl
  found_none (some res) w h = rw h refl

  found_some :
      (res : Res) (w : World) (n : ℕ)
      → p.row_count res w ≡ suc n
      → suc n < 2 ^ 31
      → found_rows p (ok (counted (some res) w)) ≡ ok (some res)
  found_some res w n h small = rw h (ground arith)

  read-ask :
      {A : Type 0} (q : Bytes) (f : Result (Option Res) → Reading Res Row A) (s : Sql World)
      (r : Option Res) (w : World)
      → Answered q s r w
      → read p str (ask q f) s ≡ read p str (f (ok r)) (send_text p str (str.cat [] q) s).1
  unfolding read
  read-ask q f s r w a = ap (λ x. read p str (f x) (send_text p str (str.cat [] q) s).1) a.result

  -- A query that finds nothing.
  pub ask-none-Gives :
      {A : Type 0} (q : Bytes) (f : Result (Option Res) → Reading Res Row A) (x : A)
      → db q ≡ []
      → f (ok none) ≡ ret x
      → Gives (ask q f) x
  unfolding read
  ask-none-Gives q f x e h s on =
      let (r0, w, h1, h2, h3) = tables.of_none q s.world e in
      let a = answered q s r0 none w on h1 (found_none r0 w h2) in
      let t : Sql World = (send_text p str (str.cat [] q) s).1 in
      record {
        end = t;
        gives = read-ask q f s none w a ∙ ap (λ m. read p str m t) h;
        open' = a.stays_open;
        unmoved =
            λ r o. subst (λ w. IsOpen r w × (left r w ≡ left r s.world)) (sym a.world_of) (h3 r o);
      }

  -- All results but one are as they were.
  abbrev pub UnmovedBut : Res → World → World → Type 0
  UnmovedBut res w w' = (r : Res) → IsOpen r w → r ≢ res → IsOpen r w' × (left r w' ≡ left r w)

  -- The reading of the rows of an open result.
  pub record RowsAt {A : Type 0} (res : Res) (m : Reading Res Row A) (a : A) (s : Sql World)
      : Type 0 where
    pub end : Sql World
    pub gives : read p str m s ≡ (some (ok a), end)
    pub open' : end.connected ≡ true
    pub unmoved : UnmovedBut res s.world end.world

  -- A query that finds rows.
  pub ask-some-Gives :
      {A : Type 0} (q : Bytes) (f : Result (Option Res) → Reading Res Row A) (x : A) (c : Cells)
      (cs : List Cells)
      → db q ≡ c ∷ cs
      → ((res : Res) (s : Sql World)
          → s.connected ≡ true
          → IsOpen res s.world
          → left res s.world ≡ c ∷ cs
          → RowsAt res (f (ok (some res))) x s)
      → Gives (ask q f) x
  ask-some-Gives q f x c cs e h s on =
      let (res, w, h1, n, h2, h3, h4) = tables.of_some q s.world c cs e in
      let few = subst (λ t. length t < 2 ^ 31) e (tables.few q) in
      let a = answered q s (some res) (some res) w on h1 (found_some res w (length cs) n few) in
      let t : Sql World = (send_text p str (str.cat [] q) s).1 in
      let y =
        h res t a.stays_open (subst (λ v. IsOpen res v) (sym a.world_of) h2)
          (subst (λ v. left res v ≡ c ∷ cs) (sym a.world_of) h3) in
      record {
        end = y.end;
        gives = read-ask q f s (some res) w a ∙ y.gives;
        open' = y.open';
        unmoved = λ r o.
            let (o', e', ne) = h4 r o in
            let (z, ez) = y.unmoved r (subst (λ v. IsOpen r v) (sym a.world_of) o') ne in
            (z, ez ∙ ap (λ v. left r v) a.world_of ∙ e');
      }

  pub read-fetch :
      {A : Type 0} (res : Res) (f : Result (Option Row) → Reading Res Row A) (s : Sql World)
      (x : Result (Option Row) × Sql World)
      → fetch_row p res s ≡ x
      → read p str (fetch res f) s ≡ read p str (f x.0) x.1
  unfolding read
  read-fetch res f s x e = ap (λ (y : Result (Option Row) × Sql World). read p str (f y.0) y.1) e
