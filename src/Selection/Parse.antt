-- ===== src/Selection/Parse.antt =====
-- src/requiemdb-path-selection.c: printed selected paths and the parser.
mod Search
pub mod Filters
use Prim.Native.Nat.{◌^◌, bit_or}
use native.Mathlib.Numerals.{add-one}
use librequiemdb.Base.{
  ℕ, zero, suc, ◌+◌, ◌-◌, ◌%◌, ◌<◌, Bool, true, false, not, ◌&&◌, ◌||◌, List, [], ◌∷◌, ◌++◌, ◌≡◌,
  ◌≢◌, ◌⊎◌, inl, inr, refl, ◌∙◌, sym, ap, arith, Option, none, some, ◌==◌, ltb, if◌then◌else◌,
  Bytes, codes, length, length-append, take, drop, All, append_assoc, take-append, append-nil,
}
use librequiemdb.Error.{Result, ok, err, ◌>>=◌}
use librequiemdb.Selection.{
  function_min, function_max, function_avg, function_std, function_count, group_by, order_asc,
  order_desc, strncmp_eq, parse_filter, segments, or_filters, parse_filters, parse_function, strchr,
  strrchr, SelectedPath, parse_path, in_brackets, before_filters, filter_flags, path_of, new_string,
}
use Filters.*
use Search.{Lacks, strchr_first, strchr_absent, strrchr_last, drop_past, no_function}

-- A text of a path, which has no slash and no bracket, and a length that a `size_t` holds.
pub record IsPathText (t : Bytes) : Type 0 where
  pub no_slash : Lacks b'/' t
  pub no_open : Lacks b'(' t
  pub no_close : Lacks b')' t
  pub fits : length t + 1 < 2 ^ 64

or_false : (x : Bool) → (x || false) ≡ x
or_false x = ground arith

-- What follows a path up to the filters, and where the slash is.
slash_part :
    (xs : Bytes) (fs : List Filter)
    → Lacks b'/' xs
    → filter_flags (xs ++ filters_part fs) (strchr b'/' (xs ++ filters_part fs))
      ≡ ok (mask (any is_grouped fs) (any is_ascending fs) (any is_descending fs))
unfolding filter_flags parse_filters
slash_part xs [] h = rw (append-nil xs) (rw (strchr_absent b'/' xs h))
slash_part xs (f ∷ fs) h = rw (strchr_first b'/' xs (filters_text f fs) h) (
    rw (drop_past b'/' xs (filters_text f fs)) (
      or_filters-text false false false f fs
      ∙ cc (
        or_false (any is_grouped (f ∷ fs)),
        or_false (any is_ascending (f ∷ fs)),
        or_false (any is_descending (f ∷ fs)),
      )))

close_index :
    (name t rest : Bytes)
    → Lacks b')' rest
    → strrchr b')' (name ++ b'(' ∷ (t ++ b')' ∷ rest)) ≡ some (length name + suc (length t))
close_index name t rest h =
    ap (strrchr b')') (sym (append_assoc name (b'(' ∷ t) (b')' ∷ rest)))
    ∙ strrchr_last b')' (name ++ b'(' ∷ t) rest h
    ∙ ap some (length-append name (b'(' ∷ t))

inside_length :
    (name t : Bytes)
    → length name < 16
    → IsPathText t
    → (length name + suc (length t) + 2 ^ 64 - (length name + 1)) % 2 ^ 64 ≡ length t
inside_length name t short h = omega arith

module _ {P : Type 0} (new_path : Bytes → Result P) where
  parse_path_fits :
      (s : Bytes) (len : ℕ) → len + 1 < 2 ^ 64 → parse_path new_path s len ≡ new_path (take len s)
  unfolding parse_path
  parse_path_fits s len h = ground arith

  path_plain :
      (t : Bytes) (fs : List Filter)
      → IsPathText t
      → path_of new_path (t ++ filters_part fs) 0 ≡ new_path t
  unfolding path_of before_filters
  path_plain t [] h = rw (append-nil t) (rw (strchr_absent b'/' t h.no_slash))
  path_plain t (f ∷ fs) h = rw (strchr_first b'/' t (filters_text f fs) h.no_slash) (
      parse_path_fits (t ++ filters_part (f ∷ fs)) (length t) h.fits
      ∙ ap new_path (take-append t (filters_part (f ∷ fs))))

  -- The first bracket of the text closes the function's name, and the last one closes the path.
  path_inside :
      (name t rest : Bytes) (function : ℕ)
      → (function == 0) ≡ false
      → Lacks b'(' name
      → Lacks b')' rest
      → length name < 16
      → IsPathText t
      → path_of new_path (name ++ b'(' ∷ (t ++ b')' ∷ rest)) function ≡ new_path t
  unfolding path_of in_brackets
  path_inside name t rest function nz no_open no_close short h =
      let s = name ++ b'(' ∷ (t ++ b')' ∷ rest) in
      rw nz (
        rw (strchr_first b'(' name (t ++ b')' ∷ rest) no_open) (
          rw (close_index name t rest no_close) (
            ap (parse_path new_path (drop (length name + 1) s)) (inside_length name t short h)
            ∙ ap (λ x. parse_path new_path x (length t)) (drop_past b'(' name (t ++ b')' ∷ rest))
            ∙ parse_path_fits (t ++ b')' ∷ rest) (length t) h.fits
            ∙ ap new_path (take-append t (b')' ∷ rest)))))

  new_string_of :
      (s : Bytes) (flags function : ℕ) (path : Result P)
      → filter_flags s (strchr b'/' s) ≡ ok flags
      → parse_function s ≡ function
      → path_of new_path s function ≡ path
      → new_string new_path s
        ≡ (do p ← path; ok (record { path = p; flags = bit_or flags function }))
  unfolding new_string
  new_string_of s flags function path e f g =
      ap
        (λ r. do
          fl ← r
          p ← path_of new_path s (parse_function s)
          ok (record { path = p; flags = bit_or fl (parse_function s) }))
        e
      ∙ ap (λ n. do p ← path_of new_path s n; ok (record { path = p; flags = bit_or flags n })) f
      ∙ ap (λ r. do p ← r; ok (record { path = p; flags = bit_or flags function })) g

  abbrev with_flags : Bytes → ℕ → Result (SelectedPath P)
  with_flags t n = do p ← new_path t; ok (record { path = p; flags = n })

  print_inside :
      (name t : Bytes) (fs : List Filter) (function : ℕ)
      → (function == 0) ≡ false
      → Lacks b'(' name
      → Lacks b'/' name
      → length name < 16
      → IsPathText t
      → parse_function (name ++ b'(' ∷ (t ++ b')' ∷ filters_part fs)) ≡ function
      → new_string new_path (name ++ b'(' ∷ (t ++ b')' ∷ filters_part fs))
        ≡ with_flags t (
            bit_or (mask (any is_grouped fs) (any is_ascending fs) (any is_descending fs)) function)
  print_inside name t fs function nz no_open no_slash short h e =
      let f = filters_part fs in
      let xs = name ++ b'(' ∷ (t ++ b')' ∷ []) in
      let regroup =
        append_assoc name (b'(' ∷ (t ++ b')' ∷ [])) f
        ∙ ap (λ u. name ++ b'(' ∷ u) (append_assoc t (b')' ∷ []) f) in
      let clear : Lacks b'/' xs =
        Lacks-append b'/' name _ no_slash
          (omega arith, Lacks-append b'/' t (b')' ∷ []) h.no_slash (omega arith)) in
      new_string_of (name ++ b'(' ∷ (t ++ b')' ∷ f)) _ function (new_path t)
        (ap (λ u. filter_flags u (strchr b'/' u)) (sym regroup) ∙ slash_part xs fs clear) e
        (path_inside name t f function nz no_open (filters_part-Lacks b')' fs (inr refl)) short h)

  -- A selected path that is printed is parsed back: its path is that of the text in it, and its
  -- flags are those of the function and of the filters, in whatever order and however often these
  -- stand. The text of the path has no slash and no bracket, and a length that a `size_t` holds
  -- with one more.
  pub new_string-print :
      (fn : Option Function) (t : Bytes) (fs : List Filter)
      → IsPathText t
      → new_string new_path (print fn t fs)
        ≡ (do p ← new_path t; ok (record { path = p; flags = flags_of fn fs }))
  unfolding parse_function
  new_string-print none t fs h =
      let f = filters_part fs in
      new_string_of (t ++ f) _ 0 (new_path t) (slash_part t fs h.no_slash)
        (no_function (t ++ f)
          (Lacks-append b'(' t f h.no_open (filters_part-Lacks b'(' fs (inl refl))))
        (path_plain t fs h)
      ∙ ap (with_flags t) (or-function none _ _ _)
  new_string-print (some min) t fs h =
      print_inside (codes "min") t fs function_min refl (omega arith) (omega arith) (omega arith) h
        refl
      ∙ ap (with_flags t) (or-function (some min) _ _ _)
  new_string-print (some max) t fs h =
      print_inside (codes "max") t fs function_max refl (omega arith) (omega arith) (omega arith) h
        refl
      ∙ ap (with_flags t) (or-function (some max) _ _ _)
  new_string-print (some avg) t fs h =
      print_inside (codes "avg") t fs function_avg refl (omega arith) (omega arith) (omega arith) h
        refl
      ∙ ap (with_flags t) (or-function (some avg) _ _ _)
  new_string-print (some std) t fs h =
      print_inside (codes "std") t fs function_std refl (omega arith) (omega arith) (omega arith) h
        refl
      ∙ ap (with_flags t) (or-function (some std) _ _ _)
  new_string-print (some count) t fs h =
      print_inside (codes "count") t fs function_count refl (omega arith) (omega arith)
        (omega arith) h refl
      ∙ ap (with_flags t) (or-function (some count) _ _ _)
