-- ===== src/Reading/Selects.antt =====
-- Readings that send no statement but SELECT: what a database holds stays as it was.
use librequiemdb.Base.{
  ℕ, zero, suc, ◌+◌, List, [], ◌∷◌, ◌++◌, ◌≡◌, ◌∙◌, refl, Option, none, some, Bytes, codes, String,
  append_assoc, arith, sym, subst,
}
use librequiemdb.Error.{Result, ok, err}
use librequiemdb.Plugin.{Plugin}
use librequiemdb.Strings.{Strings, Appends}
use librequiemdb.Sql.{Sql, query_sql, fetch_row, fetch_field, unescape_bytes, found_rows}
use librequiemdb.Delete.{send_text}
use librequiemdb.Reading.{
  Reading, ret, fail, exhausted, ask, fetch, field, unescape, ◌>>=◌, lift, found, kept, one, Rows,
  rows, row_or_end, all_read, asked, many_indexed, many, each, each_read, many_then, select, read,
}

abbrev pub IsSelect : Bytes → Type 0
IsSelect q = (t : Bytes) × (q ≡ codes "SELECT " ++ t)

pub select-IsSelect :
    (fields table : String) (rest : Bytes) → IsSelect (select fields table ++ rest)
select-IsSelect fields table rest = (
  (codes fields ++ (codes " FROM " ++ codes table)) ++ rest,
  append_assoc (codes "SELECT ") _ rest,
)

module _ {Res Row : Type 0} where
  -- Every query of the reading, whatever the answers, is a SELECT.
  unfoldable pub Selects : {A : Type 0} → Reading Res Row A → Type 0
  Selects (ret x) = Unit
  Selects (fail e) = Unit
  Selects exhausted = Unit
  Selects (ask q f) = IsSelect q × ((r : Result (Option Res)) → Selects (f r))
  Selects (fetch res f) = (r : Result (Option Row)) → Selects (f r)
  Selects (field res row i f) = (v : Option Bytes) → Selects (f v)
  Selects (unescape v f) = (t : Bytes) → Selects (f t)

pub lift-Selects :
    (Res Row : Type 0) {A : Type 0} (r : Result A)
    → Selects {Res = Res} {Row = Row} {A = A} (lift r)
unfolding Selects
lift-Selects Res Row (ok x) = tt
lift-Selects Res Row (err e) = tt

all_read-Selects :
    (Res Row : Type 0) {A : Type 0} (r : Rows A)
    → Selects {Res = Res} {Row = Row} {A = List A} (all_read r)
unfolding Selects
all_read-Selects Res Row (xs, none) = tt
all_read-Selects Res Row (xs, some e) = tt

module _ {Res Row : Type 0} where
  pub field-Selects :
      {A : Type 0} (res : Res) (row : Row) (i : ℕ) (k : Option Bytes → Reading Res Row A)
      → ((v : Option Bytes) → Selects (k v))
      → Selects (field res row i k)
  unfolding Selects
  field-Selects res row i k h = h

  pub unescape-Selects :
      {A : Type 0} (v : Bytes) (k : Bytes → Reading Res Row A)
      → ((t : Bytes) → Selects (k t))
      → Selects (unescape v k)
  unfolding Selects
  unescape-Selects v k h = h

  pub bind-Selects :
      {A B : Type 0} (m : Reading Res Row A) (k : A → Reading Res Row B)
      → Selects m
      → ((a : A) → Selects (k a))
      → Selects (m >>= k)
  unfolding Selects ◌>>=◌
  bind-Selects (ret x) k h more = more x
  bind-Selects (fail e) k h more = tt
  bind-Selects exhausted k h more = tt
  bind-Selects (ask q f) k (s, h) more = (s, λ r. bind-Selects (f r) k (h r) more)
  bind-Selects (fetch res f) k h more = λ r. bind-Selects (f r) k (h r) more
  bind-Selects (field res row i f) k h more = λ v. bind-Selects (f v) k (h v) more
  bind-Selects (unescape v f) k h more = λ t. bind-Selects (f t) k (h t) more

  pub found-Selects :
      {A B : Type 0} (k : A → Reading Res Row (Option B)) (r : Result (Option A))
      → ((x : A) → Selects (k x))
      → Selects (found k r)
  unfolding Selects
  found-Selects k (err e) h = tt
  found-Selects k (ok none) h = tt
  found-Selects k (ok (some x)) h = h x

  pub kept-Selects : {A : Type 0} (m : Reading Res Row A) → Selects m → Selects (kept m)
  unfolding Selects
  kept-Selects m h = bind-Selects m _ h (λ a. tt)

  pub first-Selects :
      {A : Type 0} (q : Bytes) (k : Res → Row → Reading Res Row (Option A))
      → IsSelect q
      → ((res : Res) (row : Row) → Selects (k res row))
      → Selects (ask q (found λ res. fetch res (found λ row. k res row)))
  unfolding Selects
  first-Selects q k s h = (s, λ r. found-Selects _ r (λ res r'. found-Selects _ r' (h res)))

  pub one-Selects :
      {A : Type 0} (q : Bytes) (k : Res → Row → Reading Res Row A)
      → IsSelect q
      → ((res : Res) (row : Row) → Selects (k res row))
      → Selects (one q k)
  unfolding one
  one-Selects q k s h =
      first-Selects q (λ res row. kept (k res row)) s (λ res row. kept-Selects _ (h res row))

  row_or_end-Selects :
      {A : Type 0} (k : Row → Reading Res Row A) (rest : Reading Res Row (Rows A))
      (r : Result (Option Row))
      → ((row : Row) → Selects (k row))
      → Selects rest
      → Selects (row_or_end k rest r)
  unfolding Selects
  row_or_end-Selects k rest (err e) h more = tt
  row_or_end-Selects k rest (ok none) h more = tt
  row_or_end-Selects k rest (ok (some row)) h more =
      bind-Selects (k row) _ (h row) (λ a. bind-Selects rest _ more (λ m. tt))

  rows-Selects :
      {A : Type 0} (n i : ℕ) (res : Res) (k : ℕ → Row → Reading Res Row A)
      → ((i : ℕ) (row : Row) → Selects (k i row))
      → Selects (rows n i res k)
  unfolding Selects rows
  rows-Selects zero i res k h = tt
  rows-Selects (suc n) i res k h =
      λ r. row_or_end-Selects (k i) (rows n (i + 1) res k) r (h i) (rows-Selects n (i + 1) res k h)

  pub asked-Selects :
      {A : Type 0} (q : Bytes) (k : Res → Reading Res Row (List A))
      → IsSelect q
      → ((res : Res) → Selects (k res))
      → Selects (ask q (asked k))
  unfolding Selects
  asked-Selects q k s h = (s, answered)
    where
      answered : (r : Result (Option Res)) → Selects (asked k r)
      answered (err e) = tt
      answered (ok none) = tt
      answered (ok (some res)) = h res

  pub many_indexed-Selects :
      {A : Type 0} (n : ℕ) (q : Bytes) (k : Res → ℕ → Row → Reading Res Row A)
      → IsSelect q
      → ((res : Res) (i : ℕ) (row : Row) → Selects (k res i row))
      → Selects (many_indexed n q k)
  unfolding many_indexed
  many_indexed-Selects n q k s h = asked-Selects q _ s λ res.
      bind-Selects (rows n 0 res (k res)) _ (rows-Selects n 0 res (k res) (h res))
        (all_read-Selects Res Row)

  pub many-Selects :
      {A : Type 0} (n : ℕ) (q : Bytes) (k : Res → Row → Reading Res Row A)
      → IsSelect q
      → ((res : Res) (row : Row) → Selects (k res row))
      → Selects (many n q k)
  unfolding many
  many-Selects n q k s h = many_indexed-Selects n q (λ res i row. k res row) s (λ res i. h res)

  each-Selects :
      {A B : Type 0} (i : ℕ) (f : ℕ → A → Reading Res Row B) (xs : List A)
      → ((i : ℕ) (x : A) → Selects (f i x))
      → Selects (each i f xs)
  unfolding each Selects
  each-Selects i f [] h = tt
  each-Selects i f (x ∷ xs) h =
      bind-Selects (f i x) _ (h i x)
        λ y. bind-Selects (each (i + 1) f xs) _ (each-Selects (i + 1) f xs h) λ ys. tt

  each_read-Selects :
      {A B : Type 0} (f : ℕ → A → Reading Res Row B) (r : Rows A)
      → ((i : ℕ) (x : A) → Selects (f i x))
      → Selects (each_read f r)
  unfolding Selects
  each_read-Selects f ([], none) h = tt
  each_read-Selects f ([], some e) h = tt
  each_read-Selects f (x ∷ xs, e) h = each-Selects 0 f (x ∷ xs) h

  pub many_then-Selects :
      {A B : Type 0} (n : ℕ) (q : Bytes) (k : Res → Row → Reading Res Row A)
      (f : ℕ → A → Reading Res Row B)
      → IsSelect q
      → ((res : Res) (row : Row) → Selects (k res row))
      → ((i : ℕ) (x : A) → Selects (f i x))
      → Selects (many_then n q k f)
  unfolding many_then
  many_then-Selects n q k f s h more = asked-Selects q _ s λ res.
      bind-Selects (rows n 0 res (λ i row. k res row)) _
        (rows-Selects n 0 res (λ i row. k res row) (λ i. h res)) λ r. each_read-Selects f r more

-- The calls of a plugin that leave what its database holds as it was.
pub record ReadsOnly (p : Plugin) (D : Type 0) (contents : p.World → D) : Type 0 where
  pub of_open : (w : p.World) → contents (p.open_session w).1 ≡ contents w
  pub of_close : (w : p.World) → contents (p.close w) ≡ contents w
  pub of_select :
      (t : Bytes) (w : p.World) → contents (p.query (codes "SELECT " ++ t) w).1 ≡ contents w
  pub of_unescape : (v : Bytes) (w : p.World) → contents (p.unescape_binary v w).1 ≡ contents w
  pub of_fetch_row : (res : p.Res) (w : p.World) → contents (p.fetch_row res w).1 ≡ contents w
  pub of_fetch_field :
      (res : p.Res) (row : p.Row) (i : ℕ) (w : p.World)
      → contents (p.fetch_field res row i w).1 ≡ contents w

module _ (p : Plugin) (str : Strings) (more : Appends str) (D : Type 0) (contents : p.World → D)
    (only : ReadsOnly p D contents) where
  open p use {World, Res, Row}

  abbrev Same : Sql World → Sql World → Type 0
  Same s s' = contents s'.world ≡ contents s.world

  select_contents : (t : Bytes) (s : Sql World) → Same s (query_sql p (codes "SELECT " ++ t) s).1
  unfolding query_sql
  select_contents t s =
      let w = (p.open_session s.world).1 in
      ground (
        arith,
        only.of_open s.world,
        only.of_select t s.world,
        only.of_select t w,
        only.of_close (p.query (codes "SELECT " ++ t) s.world).1,
        only.of_close (p.query (codes "SELECT " ++ t) w).1,
      )

  fetch_row_contents : (res : Res) (s : Sql World) → Same s (fetch_row p res s).1
  unfolding fetch_row
  fetch_row_contents res s =
      ground (arith, only.of_fetch_row res s.world, only.of_close (p.fetch_row res s.world).1)

  fetch_field_contents :
      (res : Res) (row : Row) (i : ℕ) (s : Sql World) → Same s (fetch_field p res row i s).1
  unfolding fetch_field
  fetch_field_contents res row i s = ground (
    arith,
    only.of_fetch_field res row i s.world,
    only.of_close (p.fetch_field res row i s.world).1,
  )

  unescape_contents : (v : Bytes) (s : Sql World) → Same s (unescape_bytes p v s).1
  unfolding unescape_bytes
  unescape_contents v s = ground (
    arith,
    only.of_open s.world,
    only.of_unescape v s.world,
    only.of_unescape v (p.open_session s.world).1,
  )

  sent_contents :
      (q : Bytes) (s : Sql World) → IsSelect q → Same s (send_text p str (str.cat [] q) s).1
  sent_contents q s (t, e) =
      rw (more.cat_ok [] q)
        (subst (λ q'. Same s (query_sql p q' s).1) (sym e) (select_contents t s))

  after {ℓ κ} :
      {A : Type ℓ} {B : Type κ} (s : Sql World) (a : A × Sql World)
      (k : A → Sql World → B × Sql World)
      → Same s a.1
      → ((x : A) → Same a.1 (k x a.1).1)
      → Same s (k a.0 a.1).1
  after s a k h rest = rest a.0 ∙ h

  after_ok {ℓ} :
      {A : Type 0} {B : Type ℓ} (s : Sql World) (a : Result B × Sql World)
      (k : B → Sql World → Option (Result A) × Sql World)
      → Same s a.1
      → ((x : B) → Same a.1 (k x a.1).1)
      → Same s
          (elim a.0 as (λ _. Option (Result A) × Sql World) [
            | err e ↦ (some (err e), a.1)
            | ok x ↦ k x a.1
          ]).1
  after_ok s (err e, s') k h rest = h
  after_ok s (ok x, s') k h rest = rest x ∙ h

  pub read_contents :
      {A : Type 0} (m : Reading Res Row A) (s : Sql World)
      → Selects m
      → contents (read p str m s).1.world ≡ contents s.world
  unfolding read Selects
  read_contents (ret x) s h = refl
  read_contents (fail e) s h = refl
  read_contents exhausted s h = refl
  read_contents (ask q f) s (sel, h) =
      after s (send_text p str (str.cat [] q) s) (λ r. read p str (f (found_rows p r)))
        (sent_contents q s sel) (λ r. read_contents (f (found_rows p r)) _ (h (found_rows p r)))
  read_contents (fetch res f) s h =
      after s (fetch_row p res s) (λ r. read p str (f r)) (fetch_row_contents res s)
        (λ r. read_contents (f r) _ (h r))
  read_contents (field res row i f) s h =
      after_ok s (fetch_field p res row i s) (λ v. read p str (f v))
        (fetch_field_contents res row i s) (λ v. read_contents (f v) _ (h v))
  read_contents (unescape v f) s h =
      after_ok s (unescape_bytes p v s) (λ x. read p str (f x)) (unescape_contents v s)
        (λ x. read_contents (f x) _ (h x))
