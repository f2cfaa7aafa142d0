-- ===== src/Handle/Library.antt =====
-- src/requiemdb.c: the library's reference count and the plugins that it loads.
use Prim.Native.Nat.{◌^◌}
use librequiemdb.Base.{
  ℕ, ◌-◌, Bool, true, false, ◌&&◌, ◌≡◌, refl, arith, ltb, if◌then◌else◌, ap, ◌∙◌,
}
use librequiemdb.Error.{
  Result, ok, err, Error, db, cannot_load_format_plugin, cannot_load_sql_plugin,
}
use librequiemdb.Time.{add32}

-- `librequiemdb_refcount`, an `int` in two's complement, and whether the plugins of the two
-- directories are loaded.
pub record Library : Type 0 where
  pub refcount : ℕ
  pub format_loaded : Bool
  pub sql_loaded : Bool

-- What the calls of `requiemdb_init` on librequiem and on the file system give.
pub record Calls : Type 0 where
  pub requiem_init : Result (Unit {0})
  pub access_format : Bool
  pub load_format : Result (Unit {0})
  pub access_sql : Bool
  pub load_sql : Result (Unit {0})

abbrev pub is_positive : ℕ → Bool
is_positive n = ltb 0 n && ltb n (2 ^ 31)

load_sql_plugins : Calls → Library → Result (Unit {0}) × Library
load_sql_plugins c l =
    if c.access_sql
    then elim c.load_sql [ err e ↦ (err e, l) | ok _ ↦ (ok tt, record l { sql_loaded = true }) ]
    else (err (db cannot_load_sql_plugin), l)

load_plugins : Calls → Library → Result (Unit {0}) × Library
unfolding load_sql_plugins
load_plugins c l =
    if c.access_format
    then elim c.load_format [
      | err e ↦ (err e, l)
      | ok _ ↦ load_sql_plugins c (record l { format_loaded = true })
    ]
    else (err (db cannot_load_format_plugin), l)

-- `requiemdb_init`
unfoldable pub init : Calls → Library → Result (Unit {0}) × Library
unfolding load_plugins
init c l =
    let l' = record l { refcount = add32 l.refcount 1 } in
    if is_positive l.refcount
    then (ok tt, l')
    else elim c.requiem_init [ err e ↦ (err e, l') | ok _ ↦ load_plugins c l' ]

-- `requiemdb_deinit`
unfoldable pub deinit : Library → Library
deinit l =
    let l' = record l { refcount = add32 l.refcount (2 ^ 32 - 1) } in
    if is_positive l'.refcount then l' else record l' { format_loaded = false; sql_loaded = false }

init-refcount : (c : Calls) (l : Library) → (init c l).1.refcount ≡ add32 l.refcount 1
unfolding init
init-refcount c l = ground arith

init_in_use :
    (c : Calls) (l : Library)
    → is_positive l.refcount ≡ true
    → init c l ≡ (ok tt, record l { refcount = add32 l.refcount 1 })
unfolding init
init_in_use c l h = rw h refl

-- An initialisation that fails from a count of 0 is counted: the next one succeeds whatever its
-- calls would give, and loads no plugin; the SQL plugins are then not loaded if they were not
-- before.
pub init_after_failure :
    (c c' : Calls) (l : Library) (e : Error)
    → l.refcount ≡ 0
    → (init c l).0 ≡ err e
    → ((init c' (init c l).1).0 ≡ ok tt)
      × ((init c' (init c l).1).1.format_loaded ≡ (init c l).1.format_loaded)
      × ((init c' (init c l).1).1.sql_loaded ≡ l.sql_loaded)
unfolding init
init_after_failure c c' l e none_used failed =
    let again =
      init_in_use c' (init c l).1
        (ap is_positive (init-refcount c l ∙ ap (λ n. add32 n 1) none_used)) in
    (
      ap (λ a. a.0) again,
      ap (λ a. a.1.format_loaded) again,
      ap (λ a. a.1.sql_loaded) again ∙ ground (arith, failed),
    )
