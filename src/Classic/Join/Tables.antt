-- ===== src/Classic/Join/Tables.antt =====
-- classic-sql-join.c: the tables that `classic_sql_join_new_table` adds, their aliases and the top
-- class.
use Prim.Native.Nat.{◌^◌}
use librequiemdb.Base.{
  length, ◌%◌, ℕ, zero, suc, ◌+◌, ◌≤◌, ◌<◌, true, List, [], ◌∷◌, ◌++◌, some, ◌≡◌, ◌≢◌, subst, ◌-◌,
  refl, sym, ap, ◌∙◌, inl, inr, Bytes, get_elem?, Bool-cases, arith, append-nil, Option, none,
  false,
}
use librequiemdb.Base.Decimal.{decimal, print_d, read_from, read_from-decimal}
use librequiemdb.Error.{Result, ok, err, raw}
use librequiemdb.Strings.{Strings}
use librequiemdb.Idmef.{Class, same_class, Paths, Compares}
use librequiemdb.Classic.Join.{
  Join, JoinedTable, new, alias, set_top_class, new_table, lookup_table, find_table, is_table_of,
  add_table, table_of, resolve_indexes, top_conflicts,
}

tail : Bytes → Bytes
tail [] = []
tail (c ∷ s) = s

print_d-decimal : (n : ℕ) → n < 2 ^ 31 → print_d n ≡ decimal n
print_d-decimal n h = ground arith

-- Two numbers have two aliases.
alias_injective : (m n : ℕ) → m < 2 ^ 31 → n < 2 ^ 31 → alias m ≡ alias n → m ≡ n
unfolding tail
alias_injective m n small_m small_n h =
    let same : decimal m ≡ decimal n =
      sym (print_d-decimal m small_m) ∙ ap tail h ∙ print_d-decimal n small_n in
    ap (λ r. r.0)
      (sym (read_from-decimal m [] tt)
        ∙ ap (read_from 0) (append-nil (decimal m) ∙ same ∙ sym (append-nil (decimal n)))
        ∙ read_from-decimal n [] tt)

-- The tables of a join carry the aliases of numbers that increase, from `low` on and below `high`.
abbrev Numbered : {P : Type 0} → ℕ → List (JoinedTable P) → ℕ → Type 0
Numbered low [] high = low ≤ high
Numbered low (t ∷ ts) high =
    (n : ℕ) × (low ≤ n) × (n < 2 ^ 31) × (t.aliased_table_name ≡ alias n) × Numbered (n + 1) ts high

Numbered-append :
    {P : Type 0} (ts : List (JoinedTable P)) (t : JoinedTable P) (low high : ℕ)
    → high < 2 ^ 31
    → Numbered low ts high
    → t.aliased_table_name ≡ alias high
    → Numbered low (ts ++ t ∷ []) (high + 1)
Numbered-append [] t low high small h e = (high, h, small, e, omega arith)
Numbered-append (s ∷ ts) t low high small h e =
    (h.0, h.1, h.2, h.3, Numbered-append ts t (h.0 + 1) high small h.4 e)

Numbered-wider :
    {P : Type 0} (ts : List (JoinedTable P)) (low high : ℕ)
    → Numbered low ts high
    → Numbered low ts (high + 1)
Numbered-wider [] low high h = omega arith
Numbered-wider (s ∷ ts) low high h = (h.0, h.1, h.2, h.3, Numbered-wider ts (h.0 + 1) high h.4)

-- A table of the list has a number that is not below the first.
Numbered-get :
    {P : Type 0} (ts : List (JoinedTable P)) (low high i : ℕ) (t : JoinedTable P)
    → Numbered low ts high
    → get_elem? ts i ≡ some t
    → (n : ℕ) × (low ≤ n) × (n < 2 ^ 31) × (t.aliased_table_name ≡ alias n)
Numbered-get [] low high i t h e = cc
Numbered-get (s ∷ ts) low high zero t h e =
    let same : s ≡ t = cc in (h.0, h.1, h.2, sym (ap (λ r. r.aliased_table_name) same) ∙ h.3)
Numbered-get (s ∷ ts) low high (suc i) t h e =
    let (n, le, small, named) = Numbered-get ts (h.0 + 1) high i t h.4 e in
    (n, omega arith, small, named)

Numbered-distinct :
    {P : Type 0} (ts : List (JoinedTable P)) (low high i k : ℕ) (s t : JoinedTable P)
    → Numbered low ts high
    → i < k
    → get_elem? ts i ≡ some s
    → get_elem? ts k ≡ some t
    → s.aliased_table_name ≢ t.aliased_table_name
Numbered-distinct [] low high i k s t h lt e f = cc
Numbered-distinct (r ∷ ts) low high i zero s t h lt e f = absurd (omega arith)
Numbered-distinct (r ∷ ts) low high zero (suc k) s t h lt e f =
    let same : r ≡ s = cc in
    let (n, le, small, named) = Numbered-get ts (h.0 + 1) high k t h.4 f in
    λ eq.
      let clash : h.0 ≡ n =
        alias_injective h.0 n h.2 small
          (sym h.3 ∙ ap (λ x. x.aliased_table_name) same ∙ eq ∙ named) in
      omega arith
Numbered-distinct (r ∷ ts) low high (suc i) (suc k) s t h lt e f =
    Numbered-distinct ts (h.0 + 1) high i k s t h.4 (omega arith) e f

module _ (str : Strings) (paths : Paths) where
  open paths use {Path', class_of}

  -- The tables are numbered, by fewer than `k` numbers.
  Named : ℕ → Join Path' → Type 0
  Named k j = Numbered 0 j.tables j.next_id × (j.next_id ≤ k)

  -- The joins after calls of `new_table` whose errors are passed over.
  abbrev pub new_tables : Join Path' → List (Path' × Bytes) → Join Path'
  new_tables j [] = j
  new_tables j (p ∷ ps) = new_tables ((new_table str paths j p.0 p.1).0) ps

  next_id-small : (n k : ℕ) → n ≤ k → k < 2 ^ 31 → (n + 1) % 2 ^ 32 ≡ n + 1
  next_id-small n k le small = omega arith

  add_table-Named :
      (k : ℕ) (j : Join Path') (path : Path') (table_name : Bytes) (r : Result Bytes)
      → k < 2 ^ 31
      → Named k j
      → Named (k + 1) ((add_table str paths j path table_name r).0)
  unfolding Named add_table
  add_table-Named k j path table_name (err e) small h =
      rw (next_id-small j.next_id k h.1 small)
        (Numbered-wider j.tables 0 j.next_id h.0, omega (arith, h.1))
  add_table-Named k j path table_name (ok c) small h = rw (next_id-small j.next_id k h.1 small) (
    Numbered-append j.tables (table_of str paths j path table_name c) 0 j.next_id
        (omega (arith, h.1)) h.0 refl,
    omega (arith, h.1),
  )

  new_table-Named :
      (k : ℕ) (j : Join Path') (path : Path') (table_name : Bytes)
      → k < 2 ^ 31
      → Named k j
      → Named (k + 1) ((new_table str paths j path table_name).0)
  unfolding new_table Named
  new_table-Named k j path table_name small h =
      elim (Bool-cases (top_conflicts str paths j.top_class (class_of path 0))) [
        | inl conflict ↦ rw conflict (h.0, omega (arith, h.1))
        | inr agrees ↦ rw agrees (
            add_table-Named k (set_top_class j (class_of path 0)) path table_name
              (resolve_indexes str paths path (alias j.next_id)) small h)
      ]

  new_tables-Named :
      (ps : List (Path' × Bytes)) (k : ℕ) (j : Join Path')
      → k + length ps < 2 ^ 31
      → Named k j
      → Named (k + length ps) (new_tables j ps)
  unfolding Named
  new_tables-Named [] k j small h = (h.0, omega (arith, h.1))
  new_tables-Named (p ∷ ps) k j small h =
      let t =
        new_tables-Named ps (k + 1) ((new_table str paths j p.0 p.1).0) (omega arith)
          (new_table-Named k j p.0 p.1 (omega arith) h) in
      (t.0, omega (arith, t.1))

  -- After any calls of `new_table` on a new join, fewer than 2 ^ 31 and those that failed
  -- included, two tables at different positions have different aliases.
  pub new_tables-aliases :
      (ps : List (Path' × Bytes)) (i k : ℕ) (s t : JoinedTable Path')
      → length ps < 2 ^ 31
      → i < k
      → get_elem? (new_tables new ps).tables i ≡ some s
      → get_elem? (new_tables new ps).tables k ≡ some t
      → s.aliased_table_name ≢ t.aliased_table_name
  unfolding Named
  new_tables-aliases ps i k s t small =
      Numbered-distinct (new_tables new ps).tables 0 (new_tables new ps).next_id i k s t
        (new_tables-Named ps 0 new (omega arith) (omega arith, omega arith)).0

  find_table-append :
      (path : Path') (t : JoinedTable Path')
      → is_table_of str paths path t ≡ true
      → (ts : List (JoinedTable Path'))
      → (s : JoinedTable Path') × (find_table str paths path (ts ++ t ∷ []) ≡ some s)
        × (is_table_of str paths path s ≡ true)
  unfolding find_table
  find_table-append path t found [] = rw found (t, refl, found)
  find_table-append path t found (r ∷ ts) = elim (Bool-cases (is_table_of str paths path r)) [
    | inl this ↦ rw this (r, refl, this)
    | inr other ↦ rw other (find_table-append path t found ts)
  ]

  -- The top class is unset, or that of the path.
  abbrev pub IsFree : Option Class → Path' → Type 0
  IsFree none path = Unit
  IsFree (some t) path = same_class (class_of path 0) t ≡ true

  free :
      (t : Option Class) (path : Path')
      → top_conflicts str paths t (class_of path 0) ≡ false
      → IsFree t path
  unfolding top_conflicts
  free none path h = tt
  free (some t) path h = ground arith

  module _ (compares : Compares paths) where
    is_table_of_self :
        (path : Path') (t : JoinedTable Path') → t.path ≡ path → is_table_of str paths path t ≡ true
    unfolding is_table_of
    is_table_of_self path t e = rw e (
        ground
          (arith, compares.compare_self path, compares.ncompare_self path (paths.depth path - 1)))

    AddsTable : Join Path' → Join Path' → Path' → Type 0
    AddsTable j k path =
        (k.top_class ≡ j.top_class)
        × (s : JoinedTable Path') × (lookup_table str paths k path ≡ some s)
        × (is_table_of str paths path s ≡ true)

    add_table-AddsTable :
        (j k : Join Path') (path : Path') (table_name : Bytes) (t : JoinedTable Path')
        (r : Result Bytes)
        → add_table str paths j path table_name r ≡ (k, ok t)
        → AddsTable j k path
    unfolding add_table lookup_table AddsTable
    add_table-AddsTable j k path table_name t (err e) h =
        let failed : err e ≡ ok t = ap (λ r. r.1) h in cc
    add_table-AddsTable j k path table_name t (ok c) h =
        let new_one : JoinedTable Path' = table_of str paths j path table_name c in
        let found = find_table-append path new_one (is_table_of_self path new_one refl) j.tables in
        subst (λ x. AddsTable j x path) (ap (λ r. r.0) h) (refl, found.0, found.1, found.2)

    -- Where paths compare equal to themselves: if `new_table` succeeds, the join had no top class
    -- or that of the path, and then has the class of the path; and a lookup of the same path
    -- finds a table, one whose path passes the test of the lookup.
    pub new_table-lookup :
        (j k : Join Path') (path : Path') (table_name : Bytes) (t : JoinedTable Path')
        → new_table str paths j path table_name ≡ (k, ok t)
        → IsFree j.top_class path
          × (k.top_class ≡ some (class_of path 0))
          × (s : JoinedTable Path') × (lookup_table str paths k path ≡ some s)
          × (is_table_of str paths path s ≡ true)
    unfolding new_table AddsTable
    new_table-lookup j k path table_name t h =
        elim (Bool-cases (top_conflicts str paths j.top_class (class_of path 0))) [
          | inl conflict ↦ let failed : err (raw 1) ≡ ok t = ap (λ r. r.1) (rw conflict at h) in cc
          | inr agrees ↦
              let (top, t', found, passes) =
                add_table-AddsTable (set_top_class j (class_of path 0)) k path table_name t
                  (resolve_indexes str paths path (alias j.next_id)) (rw agrees at h) in
              (free j.top_class path agrees, top, t', found, passes)
        ]
