-- ===== src/Classic/Resolve/Columns.antt =====
-- classic-path-resolve.c: the columns of the text that is made of a path.
use librequiemdb.Base.{
  ℕ, ◌+◌, Bool, true, false, [], ◌∷◌, ◌++◌, ◌≡◌, ◌≢◌, ◌∙◌, refl, sym, Bytes, codes, if◌then◌else◌,
  arith, subst, same,
}
use librequiemdb.Error.{ok}
use librequiemdb.Strings.{Strings, Appends}
use librequiemdb.Idmef.{Paths}
use librequiemdb.Classic.Select.Columns.{commas, columns, commas-append, columns-commas}
use librequiemdb.Classic.Resolve.{
  Context, in_where, in_select, in_function, FieldResolver, default_field, message_field,
  snmp_field, checksum_field, file_field, is_message_time, is_file_time, time_with_usec,
  time_without_usec, field_name, resolve_field_name, dotted, child_name,
}

abbrev pub time_columns : Context → Bool → ℕ
time_columns in_select true = 3
time_columns _ _ = 1

ok_inj : {A : Type 0} (a b : A) → ok a ≡ ok b → a ≡ b
ok_inj a b h = cc h

NonEmpty-left : (s t : Bytes) → s ≢ [] → s ++ t ≢ []
NonEmpty-left [] t ne = absurd (ne refl)
NonEmpty-left (c ∷ s) t ne = λ e. cc e

NonEmpty-right : (s : Bytes) (c : ℕ) (t : Bytes) → s ++ c ∷ t ≢ []
NonEmpty-right [] c t = λ e. cc e
NonEmpty-right (d ∷ s) c t = λ e. cc e

module _ (str : Strings) (paths : Paths) where
  open paths use {Path'}

  -- The fields that a resolver takes for times.
  abbrev pub times : FieldResolver → Bytes → Bool
  times message_field child = is_message_time str paths child
  times file_field child = is_file_time str paths child
  times _ child = false

  commas-dotted :
      (table child : Bytes) → commas (dotted str paths table child) ≡ commas table + commas child
  unfolding commas
  commas-dotted table child = omega (arith, commas-append table (b'.' ∷ child))

  dotted-columns :
      (table child : Bytes)
      → commas table ≡ 0
      → commas child ≡ 0
      → columns (dotted str paths table child) ≡ 1
  dotted-columns table child ht hc = omega (
    arith,
    columns-commas (dotted str paths table child) (NonEmpty-right table b'.' child),
    commas-dotted table child,
  )

  with_usec-columns :
      (context : Context) (table : Bytes)
      → commas table ≡ 0
      → columns (time_with_usec str paths context table) ≡ time_columns context true
  unfolding commas
  with_usec-columns in_select table h =
      let a = dotted str paths table (codes "time, ") in
      let b = dotted str paths table (codes "gmtoff, ") in
      let c = dotted str paths table (codes "usec") in
      omega (
        arith,
        columns-commas (a ++ (b ++ c)) (NonEmpty-left a (b ++ c) (NonEmpty-right table b'.' _)),
        commas-append a (b ++ c),
        commas-append b c,
        commas-dotted table (codes "time, "),
        commas-dotted table (codes "gmtoff, "),
        commas-dotted table (codes "usec"),
      )
  with_usec-columns in_where table h = dotted-columns table (codes "time") h refl
  with_usec-columns in_function table h = dotted-columns table (codes "time") h refl

  without_usec-columns :
      (context : Context) (table child : Bytes)
      → commas table ≡ 0
      → commas child ≡ 0
      → columns (time_without_usec str paths context table child) ≡ time_columns context true
  unfolding commas
  without_usec-columns in_select table child h hc =
      let a = dotted str paths table child in
      let b = codes ", " ++ (a ++ codes "_gmtoff, 0") in
      omega (
        arith,
        columns-commas (a ++ b) (NonEmpty-left a b (NonEmpty-right table b'.' child)),
        commas-append a b,
        commas-append (codes ", ") (a ++ codes "_gmtoff, 0"),
        commas-append a (codes "_gmtoff, 0"),
        commas-dotted table child,
      )
  without_usec-columns in_where table child h hc = dotted-columns table child h hc
  without_usec-columns in_function table child h hc = dotted-columns table child h hc

  if_time :
      (b : Bool) (context : Context) (x y : Bytes)
      → columns x ≡ time_columns context true
      → columns y ≡ 1
      → columns (if b then x else y) ≡ time_columns context b
  if_time true context x y hx hy = hx
  if_time false in_where x y hx hy = hy
  if_time false in_select x y hx hy = hy
  if_time false in_function x y hx hy = hy

  renamed : (b : Bool) (x y : Bytes) → commas x ≡ 0 → commas y ≡ 0 → commas (if b then x else y) ≡ 0
  renamed true x y hx hy = hx
  renamed false x y hx hy = hy

  single : (context : Context) → time_columns context false ≡ 1
  single in_where = refl
  single in_select = refl
  single in_function = refl

  field_name-columns :
      (r : FieldResolver) (context : Context) (table child : Bytes)
      → commas table ≡ 0
      → commas child ≡ 0
      → columns (field_name str paths r context table child) ≡ time_columns context (times r child)
  unfolding field_name commas
  field_name-columns default_field context table child ht hc =
      dotted-columns table child ht hc ∙ sym (single context)
  field_name-columns message_field context table child ht hc =
      if_time (is_message_time str paths child) context _ _ (with_usec-columns context table ht)
        (dotted-columns table child ht hc)
  field_name-columns snmp_field context table child ht hc =
      dotted-columns table _ ht
        (renamed (same child (codes "oid")) (codes "snmp_oid") child refl hc)
      ∙ sym (single context)
  field_name-columns checksum_field context table child ht hc =
      dotted-columns table _ ht
        (renamed (same child (codes "key")) (codes "checksum_key") child refl hc)
      ∙ sym (single context)
  field_name-columns file_field context table child ht hc =
      if_time (is_file_time str paths child) context _ _
        (without_usec-columns context table child ht hc) (dotted-columns table child ht hc)

  pub resolved-columns :
      Appends str
      → (r : FieldResolver) (path : Path') (context : Context) (table text : Bytes)
      → commas table ≡ 0
      → commas (child_name str paths path) ≡ 0
      → resolve_field_name str paths r path context table [] ≡ ok text
      → columns text ≡ time_columns context (times r (child_name str paths path))
  unfolding resolve_field_name
  resolved-columns more r path context table text ht hc e =
      subst (λ t. columns t ≡ time_columns context (times r (child_name str paths path)))
        (ok_inj _ _ (
          sym (more.cat_ok [] (field_name str paths r context table (child_name str paths path)))
          ∙ e))
        (field_name-columns r context table (child_name str paths path) ht hc)
