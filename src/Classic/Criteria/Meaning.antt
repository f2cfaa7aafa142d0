-- ===== src/Classic/Criteria/Meaning.antt =====
-- classic-path-resolve.c: the text of the criteria as a condition of SQL.
use librequiemdb.Base.{
  Bool, true, false, ◌&&◌, ◌||◌, [], ◌++◌, ◌≡◌, refl, sym, ap, ◌∙◌, subst, append_assoc, append-nil,
  arith, if◌then◌else◌, Bytes, codes,
}
use librequiemdb.Error.{Result, ok, err}
use librequiemdb.Strings.{Strings, Appends}
use librequiemdb.Idmef.{Paths}
use librequiemdb.Classic.Criteria.{
  Criteria, absent, linked, is_present, Builder, Env, and_then, write, resolve_criterion, built,
  when, conjunction, disjunction, resolve_criteria,
}

pub data Level : Type 0 where
  factor term whole : Level

-- The conditions of SQL over the conditions `IsAtom`, with their truth: `factor` is one of these or
-- stands in brackets, `term` is factors with AND between them, `whole` is terms with OR between them.
pub data Condition (IsAtom : Bytes → Bool → Type 0) : Level → Bytes → Bool → Type 0 where
  atom : {t : Bytes} {v : Bool} → IsAtom t v → Condition IsAtom factor t v
  brackets :
      {t : Bytes} {v : Bool}
      → Condition IsAtom whole t v
      → Condition IsAtom factor (codes "(" ++ (t ++ codes ")")) v
  one_factor : {t : Bytes} {v : Bool} → Condition IsAtom factor t v → Condition IsAtom term t v
  both :
      {s t : Bytes} {v w : Bool}
      → Condition IsAtom factor s v
      → Condition IsAtom term t w
      → Condition IsAtom term (s ++ (codes " AND " ++ t)) (v && w)
  one_term : {t : Bytes} {v : Bool} → Condition IsAtom term t v → Condition IsAtom whole t v
  either :
      {s t : Bytes} {v w : Bool}
      → Condition IsAtom term s v
      → Condition IsAtom whole t w
      → Condition IsAtom whole (s ++ (codes " OR " ++ t)) (v || w)

-- A criterion and what is linked by AND hold, or what is linked by OR does; the Boolean is for NULL.
abbrev pub meaning : {C : Type 0} → (C → Bool) → Bool → Criteria C → Bool
meaning truth missing absent = missing
meaning truth missing (linked c x y) = (truth c && meaning truth true x) || meaning truth false y

-- What `requiemdb_sql_build_criterion_string` writes is one condition, which holds where the
-- criterion does.
pub record Writes {P : Type 0} (b : Builder P) (IsAtom : Bytes → Bool → Type 0)
    (truth : b.Criterion → Bool) : Type 0 where
  pub of_build :
      (field : Bytes) (c : b.Criterion) (out out' : Bytes) (st : b.State)
      → (b.build field c out st).0 ≡ ok out'
      → (t : Bytes) × (out' ≡ out ++ t) × IsAtom t (truth c)

regroup_and :
    (out s t : Bytes) → ((out ++ s) ++ codes " AND ") ++ t ≡ out ++ (s ++ (codes " AND " ++ t))
regroup_and out s t = simp append_assoc

regroup_or :
    (out s t : Bytes)
    → (((((out ++ codes "((") ++ s) ++ codes ") OR (") ++ t) ++ codes "))")
      ≡ out
        ++ (codes "("
            ++ (((codes "(" ++ (s ++ codes ")"))
                  ++ (codes " OR " ++ (codes "(" ++ (t ++ codes ")"))))
                ++ codes ")"))
regroup_or out s t = simp append_assoc

module _ (str : Strings) (more : Appends str) (paths : Paths) (b : Builder paths.Path')
    (IsAtom : Bytes → Bool → Type 0) (truth : b.Criterion → Bool)
    (writes : Writes b IsAtom truth) where
  and_then-ok :
      (m : Env str paths b × Result Bytes)
      (k : Bytes → Env str paths b → Env str paths b × Result Bytes) (out : Bytes)
      → (and_then str paths b m k).1 ≡ ok out
      → (o : Bytes) × (m.1 ≡ ok o) × ((k o m.0).1 ≡ ok out)
  and_then-ok (e, err x) k out h = cc
  and_then-ok (e, ok o) k out h = (o, refl, h)

  write-ok :
      (text out : Bytes) (e : Env str paths b) (o : Bytes)
      → (write str paths b text out e).1 ≡ ok o
      → o ≡ out ++ text
  write-ok text out e o h =
      let same : ok (out ++ text) ≡ ok o = sym (more.cat_ok out text) ∙ h in cc

  built-Adds :
      (c : b.Criterion) (out : Bytes) (r : Env str paths b × Result Bytes) (out' : Bytes)
      → (built str paths b c out r).1 ≡ ok out'
      → (t : Bytes) × (out' ≡ out ++ t) × Condition IsAtom factor t (truth c)
  unfolding built
  built-Adds c out (e, err x) out' h = cc
  built-Adds c out ((j, st), ok field) out' h =
      let (t, e, holds) = writes.of_build field c out out' st h in (t, e, atom holds)

  resolve_criterion-Adds :
      (c : b.Criterion) (out : Bytes) (e : Env str paths b) (out' : Bytes)
      → (resolve_criterion str paths b c out e).1 ≡ ok out'
      → (t : Bytes) × (out' ≡ out ++ t) × Condition IsAtom factor t (truth c)
  unfolding resolve_criterion
  resolve_criterion-Adds c out e out' h = built-Adds c out _ out' h

  -- What is added for the criteria, where they are not NULL.
  Text : Criteria b.Criterion → Type 0
  Text x =
      is_present x ≡ true
      → (out : Bytes) (e : Env str paths b) (out' : Bytes)
      → (resolve_criteria str paths b x out e).1 ≡ ok out'
      → (t : Bytes) × (out' ≡ out ++ t) × Condition IsAtom term t (meaning truth true x)

  conjunction-Adds :
      (x : Criteria b.Criterion) (s : Bytes) (a : Bool)
      → Condition IsAtom factor s a
      → Text x
      → (out o : Bytes) (e : Env str paths b) (out' : Bytes) → o ≡ out ++ s
      → (when str paths b
          (is_present x)
          (conjunction str paths b (resolve_criteria str paths b x))
          o
          e).1
        ≡ ok out'
      → (t : Bytes) × (out' ≡ out ++ t) × Condition IsAtom term t (a && meaning truth true x)
  unfolding when conjunction Text
  conjunction-Adds absent s a holds rec out o e out' same h =
      (s, cc, subst (Condition IsAtom term s) (ground arith) (one_factor holds))
  conjunction-Adds (linked c x y) s a holds rec out o e out' same h =
      let (o1, first, rest) =
        and_then-ok (write str paths b (codes " AND ") o e)
          (resolve_criteria str paths b (linked c x y)) out' h in
      let (t, added, means) = rec refl o1 e out' rest in
      (
        s ++ (codes " AND " ++ t),
        added
            ∙ ap (λ z. z ++ t)
                (write-ok (codes " AND ") o e o1 first ∙ ap (λ z. z ++ codes " AND ") same)
            ∙ regroup_and out s t,
        both holds means,
      )

  disjunction-Adds :
      (y : Criteria b.Criterion) (s : Bytes) (a : Bool)
      → Condition IsAtom term s a
      → Text y
      → (out o : Bytes) (e : Env str paths b) (out' : Bytes)
      → o ≡ (out ++ (if is_present y then codes "((" else [])) ++ s
      → (when str paths b
          (is_present y)
          (disjunction str paths b (resolve_criteria str paths b y))
          o
          e).1
        ≡ ok out'
      → (t : Bytes) × (out' ≡ out ++ t) × Condition IsAtom term t (a || meaning truth false y)
  unfolding when disjunction Text
  disjunction-Adds absent s a holds rec out o e out' same h = (
    s,
    (let eq : o ≡ out' = cc in sym eq ∙ same ∙ ap (λ z. z ++ s) (append-nil out)),
    subst (Condition IsAtom term s) (ground arith) holds,
  )
  disjunction-Adds (linked c x y) s a holds rec out o e out' same h =
      let inner =
        and_then str paths b (write str paths b (codes ") OR (") o e)
          (resolve_criteria str paths b (linked c x y)) in
      let (o2, before, close) = and_then-ok inner (write str paths b (codes "))")) out' h in
      let (o1, first, rest) =
        and_then-ok (write str paths b (codes ") OR (") o e)
          (resolve_criteria str paths b (linked c x y)) o2 before in
      let (t, added, means) = rec refl o1 e o2 rest in
      (
        _,
        write-ok (codes "))") o2 inner.0 out' close
            ∙ ap (λ z. z ++ codes "))")
                (added
                  ∙ ap (λ z. z ++ t)
                      (write-ok (codes ") OR (") o e o1 first ∙ ap (λ z. z ++ codes ") OR (") same))
            ∙ regroup_or out s t,
        one_factor (
            brackets (
              either (one_factor (brackets (one_term holds)))
                (one_term (one_factor (brackets (one_term means)))))),
      )

  open-Adds :
      (y : Criteria b.Criterion) (out : Bytes) (e : Env str paths b) (o : Bytes)
      → (when str paths b (is_present y) (write str paths b (codes "((")) out e).1 ≡ ok o
      → o ≡ out ++ (if is_present y then codes "((" else [])
  unfolding when
  open-Adds absent out e o h = let same : out ≡ o = cc in sym same ∙ sym (append-nil out)
  open-Adds (linked c x y) out e o h = write-ok (codes "((") out e o h

  criteria-Text : (x : Criteria b.Criterion) → Text x
  unfolding Text resolve_criteria
  criteria-Text absent present out e out' h = cc
  criteria-Text (linked c x y) present out e out' h =
      let m0 = when str paths b (is_present y) (write str paths b (codes "((")) out e in
      let m1 = and_then str paths b m0 (resolve_criterion str paths b c) in
      let k1 =
        when str paths b (is_present x)
          (conjunction str paths b (resolve_criteria str paths b x)) in
      let k2 =
        when str paths b (is_present y)
          (disjunction str paths b (resolve_criteria str paths b y)) in
      let (o2, h2, hd) = and_then-ok (and_then str paths b m1 k1) k2 out' h in
      let (o1, h1, hc) = and_then-ok m1 k1 o2 h2 in
      let (o0, h0, hk) = and_then-ok m0 (resolve_criterion str paths b c) o1 h1 in
      let (s, es, hs) = resolve_criterion-Adds c o0 _ o1 hk in
      let (t, et, ht) = conjunction-Adds x s (truth c) hs (criteria-Text x) o0 o1 _ o2 es hc in
      disjunction-Adds y t (truth c && meaning truth true x) ht (criteria-Text y) out o2 _ out'
        (et ∙ ap (λ z. z ++ t) (open-Adds y out e o0 h0)) hd

  -- While memory lasts, and where the text of each criterion is a condition that holds where the
  -- criterion does: what `classic_path_resolve_criteria` adds to the output on success is a
  -- condition of SQL, by the precedence of AND over OR, that holds where the criteria do, namely
  -- the first criterion and all that is linked by AND, or what is linked by OR.
  pub resolve_criteria-meaning :
      (c : b.Criterion) (x y : Criteria b.Criterion) (out : Bytes) (e : Env str paths b)
      (out' : Bytes)
      → (resolve_criteria str paths b (linked c x y) out e).1 ≡ ok out'
      → (t : Bytes) × (out' ≡ out ++ t)
        × Condition IsAtom term t ((truth c && meaning truth true x) || meaning truth false y)
  unfolding Text
  resolve_criteria-meaning c x y = criteria-Text (linked c x y) refl
