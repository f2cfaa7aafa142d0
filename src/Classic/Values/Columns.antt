-- ===== src/Classic/Values/Columns.antt =====
-- plugins/format/classic/classic.c: the columns of a row that a value takes.
use librequiemdb.Base.{
  ℕ, ◌+◌, Bool, true, false, not, ◌&&◌, ◌||◌, [], ◌≡◌, ◌≢◌, ◌∙◌, refl, sym, ap, Option, none, some,
  Bytes, if◌then◌else◌, arith, subst, all_below, all_below-lt, ◌<◌,
}
use librequiemdb.Error.{Error, Result, ok, err, ◌>>=◌}
use librequiemdb.Plugin.{Plugin}
use librequiemdb.Strings.{Strings, Appends}
use librequiemdb.Sql.{Sql, fetch_field}
use librequiemdb.Field.{field_to_uint32, field_to_int32}
use librequiemdb.Idmef.{Paths}
use librequiemdb.Time.{Clock}
use librequiemdb.Selection.{SelectedPath, function_count}
use librequiemdb.Classic.Select.{has}
use librequiemdb.Classic.Select.Columns.{commas, columns}
use librequiemdb.Classic.Resolve.{
  in_select, in_function, FieldResolver, resolve_field_name, context_of, child_name,
}
use librequiemdb.Classic.Values.{
  Value, unset, null, count_value, of_path, several, multiple_time_field, get_value, value_of, Read,
  with_usec, usec_of, with_gmtoff, gmtoff_of, time_at,
}
use librequiemdb.Classic.Resolve.Columns.{time_columns, times, resolved-columns}

abbrev same_bool : Bool → Bool → Bool
same_bool true b = b
same_bool false b = not b

same_bool-true : (a b : Bool) → same_bool a b ≡ true → a ≡ b
same_bool-true a b h = ground arith

-- A time is asked for with all its columns exactly if no function is applied to it, for flags of a byte.
functions-test : all_below (λ f. same_bool (has f 31) (has f 15 || has f 16)) 256 ≡ true
functions-test = refl

functions : (f : ℕ) → f < 256 → has f 31 ≡ (has f 15 || has f 16)
functions f small =
    same_bool-true _ _
      (all_below-lt (λ x. same_bool (has x 31) (has x 15 || has x 16)) 256 f small functions-test)

-- The columns of a time: `t` for the path, `f` and `c` for the functions but the count and for it.
abbrev width : Bool → Bool → ℕ
width t all = time_columns (if all then in_function else in_select) t

null-width : (t f c all : Bool) → all ≡ (f || c) → c ≡ false → several (t && not f) ≡ width t all
null-width t f c all h k = ground arith

module _ (p : Plugin) (clock : Clock) (paths : Paths) (V : Type 0)
    (new_from_path : paths.Path' → Bytes → Result V) where
  open p use {World, Res, Row}
  open paths use {Path', is_time}

  -- A result that is a value has the columns `n`.
  abbrev Takes : Read p clock paths V new_from_path → ℕ → Type 0
  Takes r n = (v : Value V) (k : ℕ) → r ≡ ok (v, k) → v ≢ unset → k ≡ n

  err-Takes : (e : Error) (n : ℕ) → Takes (err e) n
  err-Takes e n v k h ne = cc h

  ok-Takes : (u : Value V) (n : ℕ) → Takes (ok (u, n)) n
  ok-Takes u n v k h ne = cc h

  unset-Takes : (m n : ℕ) → Takes (ok (unset, m)) n
  unset-Takes m n v k h ne = absurd (ne (cc h))

  with_usec-Takes :
      (t : Bytes) (gmtoff : ℕ) (r : Result ℕ)
      → Takes (with_usec p clock paths V new_from_path t gmtoff r) 3
  with_usec-Takes t gmtoff (err e) = unset-Takes 1 3
  with_usec-Takes t gmtoff (ok usec) = ok-Takes _ 3

  usec_of-Takes :
      (t : Bytes) (gmtoff : ℕ) (x : Result (Option Bytes) × Sql World)
      → Takes (usec_of p clock paths V new_from_path t gmtoff x).0 3
  usec_of-Takes t gmtoff (err e, s) = err-Takes e 3
  usec_of-Takes t gmtoff (ok none, s) = ok-Takes _ 3
  usec_of-Takes t gmtoff (ok (some u), s) = with_usec-Takes t gmtoff (field_to_uint32 0 u)

  with_gmtoff-Takes :
      (k : ℕ → Sql World → Read p clock paths V new_from_path × Sql World) (s : Sql World)
      (r : Result ℕ)
      → ((n : ℕ) (s' : Sql World) → Takes (k n s').0 3)
      → Takes (with_gmtoff p clock paths V new_from_path k s r).0 3
  with_gmtoff-Takes k s (err e) h = err-Takes e 3
  with_gmtoff-Takes k s (ok n) h = h n s

  gmtoff_of-Takes :
      (k : ℕ → Sql World → Read p clock paths V new_from_path × Sql World)
      (x : Result (Option Bytes) × Sql World)
      → ((n : ℕ) (s' : Sql World) → Takes (k n s').0 3)
      → Takes (gmtoff_of p clock paths V new_from_path k x).0 3
  gmtoff_of-Takes k (err e, s) h = err-Takes e 3
  gmtoff_of-Takes k (ok none, s) h = h 0 s
  gmtoff_of-Takes k (ok (some v), s) h = with_gmtoff-Takes k s (field_to_int32 0 v) h

  time_at-Takes :
      (res : Res) (row : Row) (cnt : ℕ) (t : Bytes) (b : Bool) (s : Sql World)
      → Takes (time_at p clock paths V new_from_path res row cnt t b s).0 (several b)
  time_at-Takes res row cnt t false s = ok-Takes _ 1
  time_at-Takes res row cnt t true s =
      gmtoff_of-Takes
        (λ g s'. usec_of p clock paths V new_from_path t g (fetch_field p res row (cnt + 2) s'))
        (fetch_field p res row (cnt + 1) s)
        λ g s'. usec_of-Takes t g (fetch_field p res row (cnt + 2) s')

  counted-Takes : (r : Result ℕ) → Takes (do n ← r; ok (count_value n, 1)) 1
  counted-Takes (err e) = err-Takes e 1
  counted-Takes (ok n) = ok-Takes _ 1

  from_path-Takes : (r : Result V) → Takes (do x ← r; ok (of_path x, 1)) 1
  from_path-Takes (err e) = err-Takes e 1
  from_path-Takes (ok x) = ok-Takes _ 1

  if-Takes :
      (b : Bool) (x y : Read p clock paths V new_from_path × Sql World) (n : ℕ)
      → (b ≡ true → Takes x.0 n)
      → (b ≡ false → Takes y.0 n)
      → Takes (if b then x else y).0 n
  if-Takes true x y n h k = h refl
  if-Takes false x y n h k = k refl

  count-width : (t f c all : Bool) → all ≡ (f || c) → c ≡ true → width t all ≡ 1
  count-width t f c all h k = ground arith

  other-width : (t f c all : Bool) → all ≡ (f || c) → t ≡ false → width t all ≡ 1
  other-width t f c all h k = ground arith

  resize : (r : Read p clock paths V new_from_path) (m n : ℕ) → m ≡ n → Takes r m → Takes r n
  resize r m n e h = subst (λ k. Takes r k) e h

  value_of-Takes :
      (old : ℕ) (res : Res) (row : Row) (cnt : ℕ) (x : SelectedPath Path')
      (y : Result (Option Bytes) × Sql World)
      → x.flags < 256
      → (y.0 ≡ ok none → has x.flags function_count ≡ false)
      → Takes
          (value_of p clock paths V new_from_path old res row cnt x y).0
          (width (is_time x.path) (has x.flags 31))
  value_of-Takes old res row cnt x (err e, s) small h = err-Takes e _
  value_of-Takes old res row cnt x (ok none, s) small h =
      resize _ _ _
        (null-width (is_time x.path) (has x.flags 15) (has x.flags 16) (has x.flags 31)
          (functions x.flags small) (h refl))
        (ok-Takes null _)
  value_of-Takes old res row cnt x (ok (some v), s) small h =
      let f = functions x.flags small in
      let narrow = has x.flags 15 in
      let count = has x.flags 16 in
      let all = has x.flags 31 in
      if-Takes count _ _ _
        (λ c.
          resize _ _ _ (sym (count-width (is_time x.path) narrow count all f c))
            (counted-Takes (field_to_uint32 old v)))
        (λ c.
          if-Takes (is_time x.path) _ _ _
            (λ t.
              resize _ _ _ (null-width (is_time x.path) narrow count all f c) (
                time_at-Takes res row cnt v (multiple_time_field p clock paths V new_from_path x)
                  s))
            (λ t.
              resize _ _ _ (sym (other-width (is_time x.path) narrow count all f t))
                (from_path-Takes (new_from_path x.path v))))

  -- While memory lasts: a value that is read from a row takes as many columns as the text has
  -- that the resolver of its path made for the query, whatever the fields hold. The flags are a
  -- byte, the resolver takes the path for a time exactly if librequiem does, no name has a comma,
  -- a count is not NULL, and the value is one that was written.
  pub get_value-columns :
      (str : Strings)
      → Appends str
      → (x : SelectedPath Path') (r : FieldResolver) (table text : Bytes) (old : ℕ) (res : Res)
        (row : Row) (cnt : ℕ) (s : Sql World) (v : Value V) (n : ℕ)
      → x.flags < 256
      → times str paths r (child_name str paths x.path) ≡ is_time x.path
      → commas table ≡ 0
      → commas (child_name str paths x.path) ≡ 0
      → ((fetch_field p res row cnt s).0 ≡ ok none → has x.flags function_count ≡ false)
      → resolve_field_name str paths r x.path (context_of str paths x.flags) table [] ≡ ok text
      → (get_value p clock paths V new_from_path old res row cnt x s).0 ≡ ok (v, n)
      → v ≢ unset
      → n ≡ columns text
  unfolding get_value
  get_value-columns str more x r table text old res row cnt s v n small agrees ht hc counts e g ne =
      value_of-Takes old res row cnt x (fetch_field p res row cnt s) small counts v n g ne
      ∙ ap (time_columns (context_of str paths x.flags)) (sym agrees)
      ∙ sym (
          resolved-columns str paths more r x.path (context_of str paths x.flags) table text ht hc
            e)
