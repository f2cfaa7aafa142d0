-- ===== src/Classic/Resolve/Names.antt =====
-- classic-path-resolve.c: the names of tables by default, and those of classes.
use librequiemdb.Base.{
  ℕ, ◌+◌, Bool, true, false, not, ◌&&◌, ◌||◌, [], ◌∷◌, ◌++◌, ◌≡◌, inl, inr, Bool-cases, and-true,
  refl, ap, ◌∙◌, arith, ◌==◌, if◌then◌else◌, Bytes, codes, leb, append_assoc, append-nil, sym,
}
use librequiemdb.Error.{ok, ◌>>=◌}
use librequiemdb.Strings.{Strings, Appends}
use librequiemdb.Classic.Resolve.{class_loop, class_table, upper}

abbrev is_lower : ℕ → Bool
is_lower c = leb b'a' c && leb c b'z'

-- Words of lower case letters with one underscore between two of them; a word begins where the
-- test is true.
unfoldable pub is_words : Bool → Bytes → Bool
is_words true [] = false
is_words false [] = true
is_words true (c ∷ s) = is_lower c && is_words false s
is_words false (c ∷ s) =
    let next = is_words true s in
    let same_word = is_words false s in if c == b'_' then next else is_lower c && same_word

-- Each upper case letter begins a word, in lower case; there is an underscore before all words but
-- the first.
unfoldable pub split_words : Bool → Bytes → Bytes
split_words first [] = []
split_words first (c ∷ s) =
    let rest = split_words false s in
    if leb b'A' c && leb c b'Z'
    then (if first then [] else b'_' ∷ []) ++ (c + 32) ∷ rest
    else c ∷ rest

camel : Bool → Bytes → Bytes
camel maj [] = []
camel maj (c ∷ s) =
    let skip = camel true s in
    let keep = (if maj then upper c else c) ∷ camel false s in if c == b'_' then skip else keep

upper-is_lower :
    (c : ℕ)
    → is_lower c ≡ true
    → ((c == b'_') ≡ false)
      × ((leb b'A' (upper c) && leb (upper c) b'Z') ≡ true)
      × (upper c + 32 ≡ c)
upper-is_lower c h = (ground arith, ground arith, ground arith)

not_capital : (c : ℕ) → is_lower c ≡ true → (leb b'A' c && leb c b'Z') ≡ false
not_capital c h = ground arith

is_underscore : (c : ℕ) → (c == b'_') ≡ true → b'_' ≡ c
is_underscore c h = ground arith

prefix :
    (first : Bool) (s : Bytes)
    → (if first then [] else b'_' ∷ []) ++ s ≡ (if not first then b'_' ∷ [] else []) ++ s
prefix true s = refl
prefix false s = refl

split_words-camel :
    (maj first : Bool) (n : Bytes)
    → (maj || not first) ≡ true
    → is_words maj n ≡ true
    → split_words first (camel maj n) ≡ (if maj && not first then b'_' ∷ [] else []) ++ n
unfolding split_words camel is_words
split_words-camel true first [] ok_first h = cc
split_words-camel false true n ok_first h = cc
split_words-camel false false [] ok_first h = refl
split_words-camel true first (c ∷ s) ok_first h =
    let (here, rest) = and-true (is_lower c) (is_words false s) h in
    let (plain, capital, back) = upper-is_lower c here in
    rw plain (
      rw capital (
        rw back (
          ap (λ t. (if first then [] else b'_' ∷ []) ++ c ∷ t)
            (split_words-camel false false s refl rest)
          ∙ prefix first (c ∷ s))))
split_words-camel false false (c ∷ s) ok_first h = elim (Bool-cases (c == b'_')) [
  | inl gap ↦
      rw gap
        (split_words-camel true false s refl (rw gap at h) ∙ ap (λ d. d ∷ s) (is_underscore c gap))
  | inr letter ↦
      let (here, rest) = and-true (is_lower c) (is_words false s) (rw letter at h) in
      rw letter (rw (not_capital c here) (ap (◌∷◌ c) (split_words-camel false false s refl rest)))
]

module _ (str : Strings) (more : Appends str) where
  class_loop-camel :
      (maj : Bool) (n out : Bytes) → class_loop str maj n out ≡ ok (out ++ camel maj n)
  unfolding class_loop camel
  class_loop-camel maj [] out = ap ok (sym (append-nil out))
  class_loop-camel maj (c ∷ s) out = elim (Bool-cases (c == b'_')) [
    | inl gap ↦ rw gap (class_loop-camel true s out)
    | inr letter ↦ rw letter (
        ap (λ r. do out' ← r; class_loop str false s out')
          (more.cat_ok out ((if maj then upper c else c) ∷ []))
        ∙ class_loop-camel false s (out ++ (if maj then upper c else c) ∷ [])
        ∙ ap ok (append_assoc out ((if maj then upper c else c) ∷ []) (camel false s)))
  ]

  -- While memory lasts, the name of the table of a class begins with Requiem_, and the words behind
  -- it are the name of the class, if that has words of lower case letters with one underscore
  -- between two of them.
  pub class_table-split_words :
      (n : Bytes)
      → is_words true n ≡ true
      → (t : Bytes) × (class_table str n ≡ ok (codes "Requiem_" ++ t)) × (split_words true t ≡ n)
  unfolding class_table
  class_table-split_words n h = (
    camel true n,
    ap (λ r. r >>= class_loop str true n) (more.cat_ok [] (codes "Requiem_"))
        ∙ class_loop-camel true n (codes "Requiem_"),
    split_words-camel true true n refl h,
  )
