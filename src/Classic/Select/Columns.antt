-- ===== src/Classic/Select/Columns.antt =====
-- classic-sql-select.c: the columns of a query, and the positions that its modifiers name.
use Prim.Native.Nat.{◌^◌}
use mathlib.Core.Path.{fun_ext}
use librequiemdb.Base.{
  ℕ, suc, ◌+◌, ◌%◌, ◌<◌, Bool, true, false, List, length, All, [], ◌∷◌, ◌++◌, ◌≡◌, ◌≢◌, ◌∙◌, ap,
  refl, arith, Option, none, some, ◌==◌, if◌then◌else◌, Bytes, codes, append_assoc,
}
use librequiemdb.Base.Decimal.{print_d}
use librequiemdb.Error.{Result, ok, ◌>>=◌}
use librequiemdb.Strings.{Strings, Appends}
use librequiemdb.Selection.{group_by, order_asc, order_desc}
use librequiemdb.Classic.Select.{
  Select, empty, has, function_name, field_text, separate, modify, order_text, add_field,
}

unfoldable pub commas : Bytes → ℕ
commas [] = 0
commas (c ∷ s) = (if c == b',' then 1 else 0) + commas s

-- The columns of a list of fields; no function's name has a comma.
unfoldable pub columns : Bytes → ℕ
columns [] = 0
columns (c ∷ s) = suc (commas (c ∷ s))

pub commas-append : (xs ys : Bytes) → commas (xs ++ ys) ≡ commas xs + commas ys
unfolding commas
commas-append [] ys = omega arith
commas-append (x ∷ xs) ys = omega (arith, commas-append xs ys)

pub columns-commas : (s : Bytes) → s ≢ [] → columns s ≡ suc (commas s)
unfolding columns
columns-commas [] ne = absurd (ne refl)
columns-commas (c ∷ s) ne = refl

-- The text behind a separator, if one is needed.
abbrev pub joined : Bytes → Bytes → Bytes
joined [] text = text
joined (c ∷ s) text = (c ∷ s) ++ (codes ", " ++ text)

columns-joined : (s text : Bytes) → text ≢ [] → columns (joined s text) ≡ columns s + columns text
unfolding columns commas
columns-joined [] text ne = omega arith
columns-joined (c ∷ s) text ne =
    omega (arith, columns-commas text ne, commas-append (c ∷ s) (codes ", " ++ text))

abbrev commas_of : Option Bytes → ℕ
commas_of none = 0
commas_of (some f) = commas f

commas-function_name : (flags : ℕ) → commas_of (function_name flags) ≡ 0
unfolding function_name commas
commas-function_name flags = ground arith

field_text-columns :
    (f : Option Bytes) (name : Bytes)
    → name ≢ []
    → commas_of f ≡ 0
    → (columns (field_text f name) ≡ columns name) × (field_text f name ≢ [])
unfolding columns commas
field_text-columns none name ne h = (refl, ne)
field_text-columns (some []) name ne h =
    (omega (arith, columns-commas name ne, commas-append name (b')' ∷ [])), λ e. cc e)
field_text-columns (some (c ∷ f)) name ne h = (
  omega (
    arith,
    columns-commas name ne,
    commas-append f (b'(' ∷ (name ++ b')' ∷ [])),
    commas-append name (b')' ∷ []),
  ),
  λ e. cc e,
)

-- What `modify` makes of an entry.
abbrev pub modified : Bool → Bytes → Bytes → Bytes
modified false s text = s
modified true s text = joined s text

-- The columns of the fields of a query.
pub total : List (Bytes × ℕ) → ℕ
total [] = 0
total ((name, flags) ∷ rest) = columns name + total rest

module _ (str : Strings) (more : Appends str) where
  separate-joined {ℓ} :
      {B : Type ℓ} (s text : Bytes) (k : Bytes → Result B)
      → (do t ← separate str s; t' ← str.cat t text; k t') ≡ k (joined s text)
  unfolding separate
  separate-joined [] text k = ap (λ r. r >>= k) (more.cat_ok [] text)
  separate-joined (c ∷ s) text k =
      ap (λ r. do t ← r; t' ← str.cat t text; k t') (more.cat_ok (c ∷ s) (codes ", "))
      ∙ ap (λ r. r >>= k) (more.cat_ok ((c ∷ s) ++ codes ", ") text)
      ∙ ap k (append_assoc (c ∷ s) (codes ", ") text)

  modify-modified : (b : Bool) (s text : Bytes) → modify str b s text ≡ ok (modified b s text)
  unfolding modify
  modify-modified false s text = refl
  modify-modified true s text =
      ap (λ r. do t ← separate str s; r t) (fun_ext λ t. cat_then t) ∙ separate-joined s text ok
    where
      cat_then : (t : Bytes) → str.cat t text ≡ (do t' ← str.cat t text; ok t')
      cat_then t = simp more.cat_ok

  abbrev added : Select → Bytes → ℕ → Select
  added s name flags =
      let n = (s.field_count + 1) % 2 ^ 32 in
      record {
        fields = joined s.fields (field_text (function_name flags) name);
        field_count = n;
        order_by = modified (has flags (order_asc + order_desc)) s.order_by (order_text flags n);
        group_by = modified (has flags group_by) s.group_by (print_d n);
      }

  add_field-added :
      (s : Select) (name : Bytes) (flags : ℕ) → add_field str s name flags ≡ ok (added s name flags)
  unfolding add_field
  add_field-added s name flags =
      let n = (s.field_count + 1) % 2 ^ 32 in
      let text = field_text (function_name flags) name in
      let finish : Bytes → Bytes → Bytes → Select =
        λ f g o. record { fields = f; field_count = n; order_by = o; group_by = g } in
      separate-joined s.fields text (λ f. do
        g ← modify str (has flags group_by) s.group_by (print_d n)
        o ← modify str (has flags (order_asc + order_desc)) s.order_by (order_text flags n)
        ok (finish f g o))
      ∙ ap
          (λ r. do
            g ← r
            o ← modify str (has flags (order_asc + order_desc)) s.order_by (order_text flags n)
            ok (finish (joined s.fields text) g o))
          (modify-modified (has flags group_by) s.group_by (print_d n))
      ∙ ap
          (λ r. do
            o ← r
            ok (
                finish (joined s.fields text) (modified (has flags group_by) s.group_by (print_d n))
                  o))
          (modify-modified (has flags (order_asc + order_desc)) s.order_by (order_text flags n))

  -- While memory lasts, a field whose text is not empty, of fewer than 2 ^ 32 fields, adds the
  -- columns of its text to the list of fields and one to the field count, and its entries in
  -- GROUP BY and ORDER BY, which its flags ask for, have the new field count, as `%d` prints it,
  -- for their position.
  pub add_field-columns :
      (s : Select) (name : Bytes) (flags : ℕ)
      → name ≢ []
      → s.field_count + 1 < 2 ^ 32
      → (t : Select) × (add_field str s name flags ≡ ok t)
        × (columns t.fields ≡ columns s.fields + columns name)
        × (t.field_count ≡ s.field_count + 1)
        × (t.group_by ≡ modified (has flags group_by) s.group_by (print_d (s.field_count + 1)))
        × (t.order_by
            ≡ modified
                (has flags (order_asc + order_desc))
                s.order_by
                (order_text flags (s.field_count + 1)))
  add_field-columns s name flags ne small =
      let n : ℕ = (s.field_count + 1) % 2 ^ 32 in
      let same_n : n ≡ s.field_count + 1 = omega arith in
      let (same_columns, text_ne) =
        field_text-columns (function_name flags) name ne (commas-function_name flags) in
      (
        added s name flags,
        add_field-added s name flags,
        columns-joined s.fields (field_text (function_name flags) name) text_ne
            ∙ ap (λ m. columns s.fields + m) same_columns,
        same_n,
        ap (λ m. modified (has flags group_by) s.group_by (print_d m)) same_n,
        ap (λ m. modified (has flags (order_asc + order_desc)) s.order_by (order_text flags m))
            same_n,
      )

  -- The fields of a query, added in turn.
  pub add_fields : Select → List (Bytes × ℕ) → Result Select
  add_fields s [] = ok s
  add_fields s ((name, flags) ∷ rest) = do t ← add_field str s name flags; add_fields t rest

  add_fields_counts :
      (s : Select) (fs : List (Bytes × ℕ))
      → All (λ f. f.0 ≢ []) fs
      → s.field_count + length fs < 2 ^ 32
      → (t : Select) × (add_fields s fs ≡ ok t)
        × (columns t.fields ≡ columns s.fields + total fs)
        × (t.field_count ≡ s.field_count + length fs)
  unfolding add_fields total
  add_fields_counts s [] ne small = (s, refl, omega arith, omega arith)
  add_fields_counts s ((name, flags) ∷ fs) ne small =
      let (t, e, c, n, _, _) = add_field-columns s name flags ne.0 (omega arith) in
      let (u, e', c', n') = add_fields_counts t fs ne.1 (omega (arith, n)) in
      (u, ap (λ r. do t' ← r; add_fields t' fs) e ∙ e', omega (arith, c, c'), omega (arith, n, n'))

  -- While memory lasts: behind any fields, fewer than 2 ^ 32 - 1 and none with an empty text, a
  -- field that is sorted by has for its position in ORDER BY, as `%d` prints it, one more than
  -- the number of the fields before it, where the columns before it are those of all these
  -- fields.
  pub order_position :
      (fs : List (Bytes × ℕ)) (name : Bytes) (flags : ℕ)
      → All (λ f. f.0 ≢ []) fs
      → name ≢ []
      → has flags (order_asc + order_desc) ≡ true
      → length fs + 1 < 2 ^ 32
      → (t u : Select) × (add_fields empty fs ≡ ok t)
        × (add_field str t name flags ≡ ok u)
        × (columns t.fields ≡ total fs)
        × (u.order_by ≡ joined t.order_by (order_text flags (length fs + 1)))
  order_position fs name flags all_ne ne sorted small =
      let (t, e, c, n) = add_fields_counts empty fs all_ne (omega arith) in
      let n' : t.field_count ≡ length fs = n ∙ omega arith in
      let (u, e', _, _, _, o) = add_field-columns t name flags ne (omega (arith, n')) in
      (
        t,
        u,
        e,
        e',
        c ∙ unfold columns in omega arith,
        o
            ∙ ap (λ b. modified b t.order_by (order_text flags (t.field_count + 1))) sorted
            ∙ ap (λ m. joined t.order_by (order_text flags (m + 1))) n',
      )
