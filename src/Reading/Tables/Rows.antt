-- ===== src/Reading/Tables/Rows.antt =====
-- Readings of rows over a database that answers every query with the rows of a table.
use mathlib.Core.List.{map}
use librequiemdb.Base.{
  ℕ, zero, suc, ◌+◌, ◌<◌, true, List, [], ◌∷◌, ◌≡◌, ◌∙◌, refl, Option, none, some, Bytes, length,
  All, arith,
}
use librequiemdb.Error.{Result, ok}
use librequiemdb.Plugin.{Plugin}
use librequiemdb.Strings.{Strings, Appends}
use librequiemdb.Sql.{Sql}
use librequiemdb.Reading.{
  Reading, ret, ask, fetch, found, kept, one, Rows, rows, row_or_end, and_more, all_read,
  many_indexed, many, read,
}
use librequiemdb.Reading.Tables.{
  Cells, Tables, GivesAt, Gives, ret-Gives, bind-Gives, read-bind, read-fetch, RowsAt,
  fetch_row-end, fetch_row-row, ask-none-Gives, ask-some-Gives,
}

-- An item that may be absent.
abbrev pub rows_of : {A : Type 0} → (A → Cells) → Option A → List Cells
rows_of f none = []
rows_of f (some x) = f x ∷ []

abbrev pub IfSome : {A : Type 0} → (A → Type 0) → Option A → Type 0
IfSome P none = Unit
IfSome P (some x) = P x

module _ (p : Plugin) (str : Strings) (more : Appends str) (db : Bytes → List Cells)
    (tables : Tables p db) where
  open p use {World, Res, Row}
  open tables use {IsOpen, left, cells}

  -- The rows and what is read from them, in order.
  abbrev pub Fits : {A : Type 0} → ℕ → (ℕ → Row → Reading Res Row A) → List Cells → List A → Type 0
  Fits i k [] [] = Unit
  Fits i k (c ∷ cs) (a ∷ xs) =
      ((row : Row) → cells row ≡ c → Gives p str more db tables (k i row) a) × Fits (i + 1) k cs xs
  Fits i k _ _ = ⊥

  pub rows-RowsAt :
      {A : Type 0} (res : Res) (k : ℕ → Row → Reading Res Row A) (n i : ℕ) (cs : List Cells)
      (xs : List A) (s : Sql World)
      → Fits i k cs xs
      → length cs < n
      → s.connected ≡ true
      → IsOpen res s.world
      → left res s.world ≡ cs
      → RowsAt p str more db tables res (rows n i res k) (xs, none) s
  unfolding read rows
  rows-RowsAt res k zero i cs xs s fit small on o e = absurd (omega arith)
  rows-RowsAt res k (suc n) i [] [] s fit small on o e = record {
    end = s;
    gives =
        read-fetch p str more db tables res (row_or_end (k i) (rows n (i + 1) res k)) s (ok none, s)
          (fetch_row-end p str more db tables res s e);
    open' = on;
    unmoved = λ r h ne. (h, refl);
  }
  rows-RowsAt res k (suc n) i [] (a ∷ xs) s fit small on o e = absurd fit
  rows-RowsAt res k (suc n) i (c ∷ cs) [] s fit small on o e = absurd fit
  rows-RowsAt {A = A} res k (suc n) i (c ∷ cs) (a ∷ xs) s (here, later) small on o e =
      let (row, w, h1, h2, h3, h4, h5) = tables.of_row res s.world c cs o e in
      let rest : Reading Res Row (Rows A) = rows n (i + 1) res k in
      let s1 : Sql World = record s { world = w } in
      let x : GivesAt p str more db tables (k i row) a s1 = here row h2 s1 on in
      let (o2, e2) = x.unmoved res h3 in
      let y = rows-RowsAt res k n (i + 1) cs xs x.end later (omega arith) x.open' o2 (e2 ∙ h4) in
      record {
        end = y.end;
        gives =
            read-fetch p str more db tables res (row_or_end (k i) rest) s (ok (some row), s1)
              (fetch_row-row p str more db tables res s row w h1)
            ∙ read-bind p str more db tables (k i row) (and_more rest) s1 x.end a x.gives
            ∙ read-bind p str more db tables rest (λ more. ret (a ∷ more.0, more.1)) x.end y.end
                (xs, none) y.gives;
        open' = y.open';
        unmoved = λ r h ne.
            let (z1, f1) = h5 r h ne in
            let (z2, f2) = x.unmoved r z1 in let (z3, f3) = y.unmoved r z2 ne in (z3, f3 ∙ f2 ∙ f1);
      }

  -- The rows of a query, each with the cells of its item.
  pub many_indexed-Gives :
      {A : Type 0} (n : ℕ) (q : Bytes) (k : Res → ℕ → Row → Reading Res Row A) (f : A → Cells)
      (xs : List A)
      → db q ≡ map f xs
      → length (map f xs) < n
      → ((res : Res) → Fits 0 (k res) (map f xs) xs)
      → Gives p str more db tables (many_indexed n q k) xs
  unfolding many_indexed read
  many_indexed-Gives n q k f [] e small fits = ask-none-Gives p str more db tables q _ [] e refl
  many_indexed-Gives n q k f (x ∷ xs) e small fits =
      ask-some-Gives p str more db tables q _ (x ∷ xs) (f x) (map f xs) e λ res s on o l.
        let y = rows-RowsAt res (k res) n 0 (f x ∷ map f xs) (x ∷ xs) s (fits res) small on o l in
        record {
          end = y.end;
          gives =
              read-bind p str more db tables (rows n 0 res (k res)) all_read s y.end (x ∷ xs, none)
                y.gives;
          open' = y.open';
          unmoved = y.unmoved;
        }

  -- Items that are read in the same way at every index.
  Fits-all :
      {A : Type 0} (k : Row → Reading Res Row A) (f : A → Cells) (P : A → Type 0) (i : ℕ)
      (xs : List A)
      → ((row : Row) (x : A) → P x → cells row ≡ f x → Gives p str more db tables (k row) x)
      → All P xs
      → Fits i (λ i row. k row) (map f xs) xs
  Fits-all k f P i [] h all = tt
  Fits-all k f P i (x ∷ xs) h (px, all) = (λ row e. h row x px e, Fits-all k f P (i + 1) xs h all)

  pub many-Gives :
      {A : Type 0} (n : ℕ) (q : Bytes) (k : Res → Row → Reading Res Row A) (f : A → Cells)
      (P : A → Type 0) (xs : List A)
      → db q ≡ map f xs
      → length (map f xs) < n
      → All P xs
      → ((res : Res) (row : Row) (x : A)
          → P x
          → cells row ≡ f x
          → Gives p str more db tables (k res row) x)
      → Gives p str more db tables (many n q k) xs
  unfolding many
  many-Gives n q k f P xs e small all h =
      many_indexed-Gives n q (λ res i row. k res row) f xs e small
        (λ res. Fits-all (k res) f P 0 xs (h res) all)

  -- The fetch of a row.
  pub fetch-RowsAt :
      {A : Type 0} (res : Res) (g : Result (Option Row) → Reading Res Row A) (c : Cells)
      (cs : List Cells) (x : A) (s : Sql World)
      → s.connected ≡ true
      → IsOpen res s.world
      → left res s.world ≡ c ∷ cs
      → ((row : Row) → cells row ≡ c → Gives p str more db tables (g (ok (some row))) x)
      → RowsAt p str more db tables res (fetch res g) x s
  fetch-RowsAt res g c cs x s on o l h =
      let (row, w, h1, h2, h3, h4, h5) = tables.of_row res s.world c cs o l in
      let s1 : Sql World = record s { world = w } in
      let y : GivesAt p str more db tables (g (ok (some row))) x s1 = h row h2 s1 on in
      record {
        end = y.end;
        gives =
            read-fetch p str more db tables res g s (ok (some row), s1)
              (fetch_row-row p str more db tables res s row w h1)
            ∙ y.gives;
        open' = y.open';
        unmoved =
            λ r i ne. let (z1, f1) = h5 r i ne in let (z2, f2) = y.unmoved r z1 in (z2, f2 ∙ f1);
      }

  -- The first row of a query.
  pub first-Gives :
      {A : Type 0} (q : Bytes) (k : Res → Row → Reading Res Row (Option A)) (c : Cells)
      (x : Option A)
      → db q ≡ c ∷ []
      → ((res : Res) (row : Row) → cells row ≡ c → Gives p str more db tables (k res row) x)
      → Gives p str more db tables (ask q (found λ res. fetch res (found λ row. k res row))) x
  first-Gives q k c x e h =
      ask-some-Gives p str more db tables q _ x c [] e
        (λ res s on o l. fetch-RowsAt res (found (k res)) c [] x s on o l (h res))

  pub one-Gives :
      {A : Type 0} (q : Bytes) (k : Res → Row → Reading Res Row A) (f : A → Cells) (P : A → Type 0)
      (x : Option A)
      → db q ≡ rows_of f x
      → IfSome P x
      → ((res : Res) (row : Row) (y : A)
          → P y
          → cells row ≡ f y
          → Gives p str more db tables (k res row) y)
      → Gives p str more db tables (one q k) x
  unfolding one
  one-Gives q k f P none e px h = ask-none-Gives p str more db tables q _ none e refl
  one-Gives q k f P (some y) e px h =
      first-Gives q (λ res row. kept (k res row)) (f y) (some y) e
        λ res row c.
          bind-Gives p str more db tables (k res row) _ y (some y) (h res row y px c)
            (ret-Gives p str more db tables (some y))
