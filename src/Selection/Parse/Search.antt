-- ===== src/Selection/Parse/Search.antt =====
-- What the searches for one character find in a text that has it once.
use native.Mathlib.Numerals.{add-one}
use librequiemdb.Base.{
  ℕ, suc, ◌+◌, [], ◌∷◌, ◌++◌, ◌≡◌, ◌≢◌, refl, arith, none, some, Bytes, length, All, drop,
}
use librequiemdb.Selection.{parse_function, strchr, strrchr}

abbrev pub Lacks : ℕ → Bytes → Type 0
Lacks c s = All (λ d. d ≢ c) s

pub strchr_first : (c : ℕ) (xs ys : Bytes) → Lacks c xs → strchr c (xs ++ c ∷ ys) ≡ some (length xs)
unfolding strchr
strchr_first c [] ys h = ground arith
strchr_first c (x ∷ xs) ys h = ground (arith, strchr_first c xs ys h.1)

pub strchr_absent : (c : ℕ) (xs : Bytes) → Lacks c xs → strchr c xs ≡ none
unfolding strchr
strchr_absent c [] h = refl
strchr_absent c (x ∷ xs) h = ground (arith, strchr_absent c xs h.1)

strrchr_absent : (c : ℕ) (xs : Bytes) → Lacks c xs → strrchr c xs ≡ none
unfolding strrchr
strrchr_absent c [] h = refl
strrchr_absent c (x ∷ xs) h = ground (arith, strrchr_absent c xs h.1)

pub strrchr_last :
    (c : ℕ) (xs ys : Bytes) → Lacks c ys → strrchr c (xs ++ c ∷ ys) ≡ some (length xs)
unfolding strrchr
strrchr_last c [] ys h = ground (arith, strrchr_absent c ys h)
strrchr_last c (x ∷ xs) ys h = ground (arith, strrchr_last c xs ys h)

pub drop_past : (c : ℕ) (xs ys : Bytes) → drop (length xs + 1) (xs ++ c ∷ ys) ≡ ys
drop_past c xs ys = rw add-one (go xs)
  where
    go : (zs : Bytes) → drop (suc (length zs)) (zs ++ c ∷ ys) ≡ ys
    go [] = refl
    go (z ∷ zs) = go zs

-- Every function's name has a bracket in it.
pub no_function : (s : Bytes) → Lacks b'(' s → parse_function s ≡ 0
unfolding parse_function
no_function [] h = refl
no_function (a ∷ []) h = ground arith
no_function (a ∷ b ∷ []) h = ground arith
no_function (a ∷ b ∷ c ∷ []) h = ground arith
no_function (a ∷ b ∷ c ∷ d ∷ []) h = ground arith
no_function (a ∷ b ∷ c ∷ d ∷ e ∷ []) h = ground arith
no_function (a ∷ b ∷ c ∷ d ∷ e ∷ f ∷ s) h = ground arith
