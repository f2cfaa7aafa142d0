-- ===== src/Delete/Idents.antt =====
-- classic-delete.c: the texts of identifiers, read as lists of numbers.
use librequiemdb.Base.{
  ℕ, zero, suc, ◌≤◌, ◌<◌, Bool, true, false, List, [], ◌∷◌, ◌++◌, ◌≡◌, refl, ◌∙◌, arith, Option,
  none, some, ◌==◌, ◌&&◌, if◌then◌else◌, Bytes, codes, length, length-append, append_assoc,
  append-nil,
}
use librequiemdb.Base.Decimal.{
  decimal, read_from, read_from-decimal, StopsDigits, decimal-cons, is_digit,
}
use librequiemdb.Error.{ok}
use librequiemdb.Strings.{Strings, Appends}
use librequiemdb.Delete.{
  item, list_loop, get_string_from_ident_list, result_loop, get_string_from_result_ident,
}

abbrev strip_sep : Bytes → Option Bytes
strip_sep (c ∷ d ∷ s) = if c == b',' && d == b' ' then some s else none
strip_sep _ = none

-- A reader of numbers with a comma and a space between them, with fuel for the numbers.
read_items : ℕ → Bytes → List ℕ
read_items zero s = []
read_items (suc fuel) s =
    let (n, rest) = read_from 0 s in
    n ∷ elim (strip_sep rest) [ none ↦ [] | some s' ↦ read_items fuel s' ]

abbrev body : Bytes → Bytes
body (_ ∷ _ ∷ _ ∷ _ ∷ s) = s
body _ = []

abbrev read_body : ℕ → Bytes → List ℕ
read_body fuel [] = []
read_body fuel (c ∷ s) = if c == b')' then [] else read_items fuel (c ∷ s)

-- The numbers of a text "IN (n, m, ...)".
pub read_idents : Bytes → List ℕ
read_idents s = read_body (length s) (body s)

joined : Bool → List ℕ → Bytes
joined sep [] = []
joined sep (n ∷ ns) = item sep n ++ joined true ns

joined_stops : (ns : List ℕ) → StopsDigits (joined true ns ++ b')' ∷ [])
unfolding joined
joined_stops [] = refl
joined_stops (n ∷ ns) = refl

read_items-joined :
    (n : ℕ) (ns : List ℕ) (fuel : ℕ)
    → length ns < fuel
    → read_items fuel (decimal n ++ (joined true ns ++ b')' ∷ [])) ≡ n ∷ ns
unfolding read_items joined
read_items-joined n ns zero lt = absurd (omega arith)
read_items-joined n [] (suc fuel) lt = rw (read_from-decimal n (b')' ∷ []) refl)
read_items-joined n (m ∷ ns) (suc fuel) lt =
    rw (read_from-decimal n (joined true (m ∷ ns) ++ b')' ∷ []) refl)
      (rw append_assoc (rw (read_items-joined m ns fuel (omega arith))))

abbrev text : List ℕ → Bytes
text ns = codes "IN (" ++ (joined false ns ++ b')' ∷ [])

read_body-digit :
    (fuel : ℕ) (xs rest : Bytes) (c : ℕ) (s : Bytes)
    → xs ≡ c ∷ s
    → is_digit c ≡ true
    → read_body fuel (xs ++ rest) ≡ read_items fuel (xs ++ rest)
read_body-digit fuel xs rest c s e d = rw e (ground arith)

length-joined : (ns : List ℕ) → length ns ≤ length (joined true ns)
unfolding joined
length-joined [] = omega arith
length-joined (n ∷ ns) =
    omega (arith, length-joined ns, length-append (item true n) (joined true ns))

fuel_fits :
    (n : ℕ) (ns : List ℕ)
    → length ns < length (codes "IN (" ++ (decimal n ++ (joined true ns ++ b')' ∷ [])))
fuel_fits n ns = omega (
  arith,
  length-joined ns,
  length-append (decimal n) (joined true ns ++ b')' ∷ []),
  length-append (joined true ns) (b')' ∷ []),
)

read_idents-text : (ns : List ℕ) → read_idents (text ns) ≡ ns
unfolding read_idents joined
read_idents-text [] = refl
read_idents-text (n ∷ ns) =
    let (c, s, e, d) = decimal-cons n in
    rw append_assoc (
      read_body-digit _ (decimal n) (joined true ns ++ b')' ∷ []) c s e d
      ∙ read_items-joined n ns _ (fuel_fits n ns))

-- The identifiers of the rows, where a row that was not read has that of the row before it.
unfoldable pub seen : ℕ → List (Option ℕ) → List ℕ
seen ident [] = []
seen ident (none ∷ rows) = ident ∷ seen ident rows
seen ident (some n ∷ rows) = n ∷ seen n rows

module _ (str : Strings) (more : Appends str) where
  list_loop-joined :
      (sep : Bool) (ns : List ℕ) (out : Bytes)
      → list_loop str sep ns out ≡ ok (out ++ joined sep ns)
  unfolding list_loop joined
  list_loop-joined sep [] out = rw append-nil
  list_loop-joined sep (n ∷ ns) out = simp (more.cat_ok, list_loop-joined true ns, append_assoc)

  -- While memory lasts, the text of a list of identifiers is built, with their number, and its
  -- numbers are these identifiers.
  pub read_idents-list :
      (ns : List ℕ)
      → (t : Bytes) × (get_string_from_ident_list str ns ≡ ok (t, length ns)) × (read_idents t ≡ ns)
  unfolding get_string_from_ident_list
  read_idents-list ns =
      (text ns, simp (more.cat_ok, list_loop-joined, append_assoc), read_idents-text ns)

  result_loop-seen :
      (sep : Bool) (ident : ℕ) (rows : List (Option ℕ)) (out : Bytes)
      → result_loop str sep ident rows out ≡ list_loop str sep (seen ident rows) out
  unfolding result_loop list_loop seen
  result_loop-seen sep ident [] out = refl
  result_loop-seen sep ident (none ∷ rows) out =
      simp (more.cat_ok, result_loop-seen true ident rows)
  result_loop-seen sep ident (some n ∷ rows) out = simp (more.cat_ok, result_loop-seen true n rows)

  -- While memory lasts, a row that could not be read puts the identifier of the row before it
  -- into the text once more: the text of the rows names `seen`, and it is built for every list of
  -- rows but the empty one.
  pub read_idents-results :
      (ident : ℕ) (r : Option ℕ) (rows : List (Option ℕ))
      → (t : Bytes) × (get_string_from_result_ident str ident (r ∷ rows)
          ≡ ok (some (t, length (r ∷ rows))))
        × (read_idents t ≡ seen ident (r ∷ rows))
  unfolding get_string_from_result_ident
  read_idents-results ident r rows = (
    text (seen ident (r ∷ rows)),
    simp (more.cat_ok, result_loop-seen, list_loop-joined, append_assoc),
    read_idents-text (seen ident (r ∷ rows)),
  )
