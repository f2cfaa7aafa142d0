-- ===== src/Settings/Print.antt =====
-- src/requiemdb-sql-settings.c: the loop over a settings string, and printed lists of settings.
use native.Mathlib.Numerals.{add-one}
use librequiemdb.Base.{
  ℕ, zero, suc, ◌+◌, ◌≤◌, ◌<◌, true, false, List, [], ◌∷◌, ◌++◌, ◌≡◌, ◌≢◌, ◌⊎◌, inl, inr, refl, ◌∙◌,
  ap, sym, arith, some, none, Option, length-append, Bytes, length, All, is_space,
}
use librequiemdb.Error.{Result, ok, err, db, invalid_settings_string}
use librequiemdb.Settings.{
  Hash, skip_spaces, is_name, scan_name, end_name, name_at, set_next, set_name, set_value, get_name,
  get_value, stop, go, Round, set_loop, set_from_string,
}
use librequiemdb.Settings.Value.{escape, get_value-quoted, get_value-quoted_end, length-get_value}

-- A name is not empty, and has letters, digits and underscores only.
abbrev pub IsName : Bytes → Type 0
IsName n = (n ≢ []) × All (λ c. is_name c ≡ true) n

abbrev pub print : ℕ → List (Bytes × Bytes) → Bytes
print q [] = []
print q ((n, v) ∷ kvs) = n ++ (b'=' ∷ q ∷ (escape q v ++ (q ∷ b' ' ∷ print q kvs)))

scan_name-IsName :
    (n rest : Bytes)
    → All (λ c. is_name c ≡ true) n
    → scan_name (n ++ b'=' ∷ rest) ≡ (n, b'=' ∷ rest)
unfolding scan_name is_name
scan_name-IsName [] rest h = refl
scan_name-IsName (c ∷ n) rest (h, t) = ground (arith, scan_name-IsName n rest t)

space-is_name : (c : ℕ) → is_name c ≡ true → is_space c ≡ false
unfolding is_name is_space
space-is_name c h = ground arith

pub get_name-IsName :
    (n rest : Bytes) → IsName n → get_name (n ++ b'=' ∷ rest) ≡ ok (some (n, rest))
unfolding get_name skip_spaces end_name
get_name-IsName [] rest (ne, h) = absurd (ne refl)
get_name-IsName (c ∷ n) rest (ne, h) =
    ground (arith, scan_name-IsName (c ∷ n) rest h, space-is_name c h.0)

get_name-space : (s : Bytes) → get_name (b' ' ∷ s) ≡ get_name s
unfolding get_name skip_spaces is_space
get_name-space s = refl

length-skip_spaces : (s : Bytes) → length (skip_spaces s) ≤ length s
unfolding skip_spaces
length-skip_spaces [] = omega arith
length-skip_spaces (c ∷ s) = ground (arith, length-skip_spaces s)

length-scan_name : (s : Bytes) → length (scan_name s).0 + length (scan_name s).1 ≡ length s
unfolding scan_name
length-scan_name [] = omega arith
length-scan_name (c ∷ s) = ground (arith, length-scan_name s)

length-end_name :
    (m r : Bytes) {n rest : Bytes}
    → end_name m r ≡ ok (some (n, rest))
    → length rest < length m + length r
unfolding end_name
length-end_name [] r h = cc
length-end_name (c ∷ m) [] h = cc
length-end_name (c ∷ m) (d ∷ r) h = ground arith

length-name_at :
    (s : Bytes) {n rest : Bytes} → name_at s ≡ ok (some (n, rest)) → length rest < length s
unfolding name_at
length-name_at [] h = cc
length-name_at (c ∷ s) h =
    omega (
      arith,
      length-scan_name (c ∷ s),
      length-end_name (scan_name (c ∷ s)).0 (scan_name (c ∷ s)).1 h,
    )

-- A name that is read leaves a shorter text.
length-get_name :
    (s : Bytes) {n rest : Bytes} → get_name s ≡ ok (some (n, rest)) → length rest < length s
unfolding get_name
length-get_name s h = omega (arith, length-name_at (skip_spaces s) h, length-skip_spaces s)

Round-cases :
    {T : Type 0} (r : Round T)
    → ((t : T) × (x : Result (Unit {0})) × (r ≡ stop t x)) ⊎ ((t : T) × (s : Bytes) × (r ≡ go t s))
Round-cases (stop t x) = inl (t, x, refl)
Round-cases (go t s) = inr (t, s, refl)

length-print : (q : ℕ) (kvs : List (Bytes × Bytes)) → length kvs ≤ length (print q kvs)
length-print q [] = omega arith
length-print q ((n, v) ∷ kvs) = omega (
  arith,
  length-print q kvs,
  length-append n (b'=' ∷ q ∷ (escape q v ++ (q ∷ b' ' ∷ print q kvs))),
  length-append (escape q v) (q ∷ b' ' ∷ print q kvs),
)

module _ (h : Hash) where
  abbrev and_then :
      h.Table × Result (Unit {0})
      → (h.Table → h.Table × Result (Unit {0}))
      → h.Table × Result (Unit {0})
  and_then (t, ok _) f = f t
  and_then (t, err e) f = (t, err e)

  -- What the printed settings should do: they are set in order, until the table refuses one.
  pub set_each : h.Table → List (Bytes × Bytes) → h.Table × Result (Unit {0})
  set_each t [] = (t, ok tt)
  set_each t ((n, v) ∷ kvs) = and_then (h.set t n v) (λ t'. set_each t' kvs)

  length-set_next :
      (p : h.Table × Result (Unit {0})) (s : Bytes) {t' : h.Table} {s' : Bytes}
      → set_next h p s ≡ go t' s'
      → s ≡ s'
  length-set_next (t, ok _) s e = ground arith
  length-set_next (t, err _) s e = cc

  length-set_value :
      (t : h.Table) (n s : Bytes) (r : Result (Bytes × Bytes)) {t' : h.Table} {s' : Bytes}
      → get_value s ≡ r
      → set_value h t n r ≡ go t' s'
      → length s' ≤ length s
  unfolding set_value
  length-set_value t n s (err _) g e = cc
  length-set_value t n s (ok (v, rest)) g e =
      omega
        (arith, length-get_value s g, ap (length {A = ℕ}) (length-set_next (h.set t n v) rest e))

  -- A round that goes on has a shorter text left.
  length-set_name :
      (t : h.Table) (s : Bytes) (r : Result (Option (Bytes × Bytes))) {t' : h.Table} {s' : Bytes}
      → get_name s ≡ r
      → set_name h t r ≡ go t' s'
      → length s' < length s
  unfolding set_name
  length-set_name t s (err _) g e = cc
  length-set_name t s (ok none) g e = cc
  length-set_name t s (ok (some (n, rest))) g e =
      omega (arith, length-get_name s g, length-set_value t n rest (get_value rest) refl e)

  set_loop-stop :
      (fuel : ℕ) (t : h.Table) (s : Bytes) {t' : h.Table} {r : Result (Unit {0})}
      → set_name h t (get_name s) ≡ stop t' r
      → set_loop h (suc fuel) t s ≡ some (t', r)
  unfolding set_loop
  set_loop-stop fuel t s e = rw (e, set_loop)

  set_loop-go :
      (fuel : ℕ) (t : h.Table) (s : Bytes) {t' : h.Table} {s' : Bytes}
      → set_name h t (get_name s) ≡ go t' s'
      → set_loop h (suc fuel) t s ≡ set_loop h fuel t' s'
  unfolding set_loop
  set_loop-go fuel t s e = rw (e, set_loop)

  set_loop_total :
      (fuel : ℕ) (t : h.Table) (s : Bytes)
      → length s < fuel
      → (r : h.Table × Result (Unit {0})) × (set_loop h fuel t s ≡ some r)
  set_loop_total zero t s lt = absurd (omega arith)
  set_loop_total (suc fuel) t s lt = elim (Round-cases (set_name h t (get_name s))) [
    | inl (t', r, e) ↦ ((t', r), set_loop-stop fuel t s e)
    | inr (t', s', e) ↦
        let (r, done) =
          set_loop_total fuel t' s' (omega (arith, length-set_name t s (get_name s) refl e)) in
        (r, set_loop-go fuel t s e ∙ done)
  ]

  -- The loop over the settings string ends, whatever the string is: its fuel is never used up.
  pub set_from_string_total :
      (t : h.Table) (s : Bytes)
      → (r : h.Table × Result (Unit {0})) × (set_from_string h t s ≡ some r)
  unfolding set_from_string
  set_from_string_total t s = set_loop_total (length s + 1) t s (omega arith)

  set_name-print :
      (q : ℕ) (n v rest : Bytes) (t : h.Table)
      → (q ≡ b'\'') ⊎ (q ≡ b'"')
      → IsName n
      → set_name h t (get_name (n ++ (b'=' ∷ q ∷ (escape q v ++ (q ∷ b' ' ∷ rest)))))
        ≡ set_next h (h.set t n v) (b' ' ∷ rest)
  unfolding set_name set_value
  set_name-print q n v rest t hq name =
      rw (get_name-IsName n (q ∷ (escape q v ++ (q ∷ b' ' ∷ rest))) name)
        (rw (get_value-quoted q v b' ' rest hq))

  set_loop-space :
      (fuel : ℕ) (t : h.Table) (s : Bytes) → set_loop h fuel t (b' ' ∷ s) ≡ set_loop h fuel t s
  unfolding set_loop
  set_loop-space zero t s = refl
  set_loop-space (suc fuel) t s = rw (get_name-space s, set_loop)

  set_loop-print :
      (q : ℕ) (kvs : List (Bytes × Bytes)) (fuel : ℕ) (t : h.Table)
      → (q ≡ b'\'') ⊎ (q ≡ b'"')
      → All (λ kv. IsName kv.0) kvs
      → length kvs < fuel
      → set_loop h fuel t (print q kvs) ≡ some (set_each t kvs)
  unfolding set_each
  set_loop-print q kvs zero t hq names lt = absurd (omega arith)
  set_loop-print q [] (suc fuel) t hq names lt =
      set_loop-stop fuel t [] (unfold set_name get_name skip_spaces in refl)
  set_loop-print q ((n, v) ∷ kvs) (suc fuel) t hq names lt =
      item (h.set t n v) refl (λ t'. set_loop-print q kvs fuel t' hq names.1 (omega arith))
    where
      item :
          (p : h.Table × Result (Unit {0}))
          → h.set t n v ≡ p
          → ((t' : h.Table) → set_loop h fuel t' (print q kvs) ≡ some (set_each t' kvs))
          → set_loop h (suc fuel) t (print q ((n, v) ∷ kvs)) ≡ some (set_each t ((n, v) ∷ kvs))
      item (t', ok x) e rest =
          set_loop-go fuel t (print q ((n, v) ∷ kvs)) (
            set_name-print q n v (print q kvs) t hq names.0
            ∙ ap (λ p. set_next h p (b' ' ∷ print q kvs)) e)
          ∙ set_loop-space fuel t' (print q kvs)
          ∙ rest t'
          ∙ ap (λ p. some (and_then p (λ t''. set_each t'' kvs))) (sym e)
      item (t', err x) e rest =
          set_loop-stop fuel t (print q ((n, v) ∷ kvs)) (
            set_name-print q n v (print q kvs) t hq names.0
            ∙ ap (λ p. set_next h p (b' ' ∷ print q kvs)) e)
          ∙ ap (λ p. some (and_then p (λ t''. set_each t'' kvs))) (sym e)

  -- Settings that are printed as name='value' pairs, in quotes of either kind and each with a
  -- space behind it, whose names are not empty and have letters, digits and underscores only, are
  -- set one after the other with their values as they were, up to the first that the table
  -- refuses.
  pub set_from_string-print :
      (q : ℕ) (kvs : List (Bytes × Bytes)) (t : h.Table)
      → (q ≡ b'\'') ⊎ (q ≡ b'"')
      → All (λ kv. IsName kv.0) kvs
      → set_from_string h t (print q kvs) ≡ some (set_each t kvs)
  unfolding set_from_string
  set_from_string-print q kvs t hq names =
      set_loop-print q kvs (length (print q kvs) + 1) t hq names (omega (arith, length-print q kvs))

  -- A setting, of a name with letters, digits and underscores only, whose quoted value ends the
  -- string is refused, and the table keeps what it had.
  pub set_from_string-quoted_end :
      (q : ℕ) (n v : Bytes) (t : h.Table)
      → (q ≡ b'\'') ⊎ (q ≡ b'"')
      → IsName n
      → set_from_string h t (n ++ (b'=' ∷ q ∷ (escape q v ++ (q ∷ []))))
        ≡ some (t, err (db invalid_settings_string))
  unfolding set_from_string set_name set_value
  set_from_string-quoted_end q n v t hq name = rw add-one (
      set_loop-stop _ t _ (
        rw (get_name-IsName n (q ∷ (escape q v ++ (q ∷ []))) name)
          (rw (get_value-quoted_end q v hq))))
