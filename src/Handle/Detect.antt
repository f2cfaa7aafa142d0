-- ===== src/Handle/Detect.antt =====
-- src/requiemdb.c: the creation of a handle, with the format that the database names. Where C leaves a
-- row or a field undefined that the code uses without a test, the model stops with -1.
use librequiemdb.Base.{◌≡◌, Option, none, some, Bytes, codes}
use librequiemdb.Error.{Result, ok, err, db, raw, cannot_load_format_plugin}
use librequiemdb.Plugin.{Plugin}
use librequiemdb.Sql.{Sql, query_sql, fetch_row, fetch_field, found_rows}
use librequiemdb.Handle.{FormatPlugin}

-- `struct requiemdb`; `find` is the search among the plugins that are loaded.
pub record Handle (p : Plugin) : Type 0 where
  pub plugin : FormatPlugin p
  pub format_version : Option Bytes

module _ (p : Plugin) (find : Bytes → Option (FormatPlugin p)) where
  open p use {World, Res, Row}

  -- `requiemdb_set_format`
  unfoldable pub set_format : Bytes → Result (FormatPlugin p)
  set_format name = elim (find name) [ none ↦ err (db cannot_load_format_plugin) | some f ↦ ok f ]

  abbrev version_checked : FormatPlugin p → Bytes → Result (Unit {0}) → Result (Handle p)
  version_checked f version (err e) = err e
  version_checked f version (ok _) = ok (record { plugin = f; format_version = some version })

  version_fetched :
      FormatPlugin p → Result (Option Bytes) × Sql World → Result (Handle p) × Sql World
  version_fetched f (err e, s) = (err e, s)
  version_fetched f (ok none, s) = (err (raw 1), s)
  version_fetched f (ok (some version), s) =
      (version_checked f version (f.check_schema_version (some version)), s)

  format_set : Res → Row → Result (FormatPlugin p) → Sql World → Result (Handle p) × Sql World
  unfolding version_fetched
  format_set res row (err e) s = (err e, s)
  format_set res row (ok f) s = version_fetched f (fetch_field p res row 1 s)

  name_fetched : Res → Row → Result (Option Bytes) × Sql World → Result (Handle p) × Sql World
  unfolding format_set set_format
  name_fetched res row (err e, s) = (err e, s)
  name_fetched res row (ok none, s) = (err (raw 1), s)
  name_fetched res row (ok (some name), s) = format_set res row (set_format name) s

  row_fetched : Res → Result (Option Row) × Sql World → Result (Handle p) × Sql World
  unfolding name_fetched
  row_fetched res (err e, s) = (err e, s)
  row_fetched res (ok none, s) = (err (raw 1), s)
  row_fetched res (ok (some row), s) = name_fetched res row (fetch_field p res row 0 s)

  -- No rows give -1, before any fetch.
  format_queried : Result (Option Res) → Sql World → Result (Handle p) × Sql World
  unfolding row_fetched
  format_queried (err e) s = (err e, s)
  format_queried (ok none) s = (err (raw 1), s)
  format_queried (ok (some res)) s = row_fetched res (fetch_row p res s)

  -- `requiemdb_autodetect_format`
  unfoldable pub autodetect_format : Sql World → Result (Handle p) × Sql World
  unfolding format_queried
  autodetect_format s =
      let (r, s') = query_sql p (codes "SELECT name, version from _format") s in
      format_queried (found_rows p r) s'

  abbrev named : Result (FormatPlugin p) → Result (Handle p)
  named (err e) = err e
  named (ok f) = ok (record { plugin = f; format_version = none })

  -- `requiemdb_new`
  unfoldable pub new_handle : Option Bytes → Sql World → Result (Handle p) × Sql World
  unfolding autodetect_format set_format
  new_handle none s = autodetect_format s
  new_handle (some name) s = (named (set_format name), s)

  -- The plugin was found, and the version is there and one that it accepts.
  abbrev pub IsDetected : Result (Handle p) → Type 0
  IsDetected (err e) = Unit
  IsDetected (ok h) =
      ((name : Bytes) × (find name ≡ some h.plugin))
      × (version : Bytes) × (h.format_version ≡ some version)
      × (h.plugin.check_schema_version (some version) ≡ ok tt)

  -- The plugin is the one of this name, and no version was read.
  abbrev pub IsNamed : Bytes → Result (Handle p) → Type 0
  IsNamed name (err e) = Unit
  IsNamed name (ok h) = (find name ≡ some h.plugin) × (h.format_version ≡ none)

  abbrev pub IsAccepted : Option Bytes → Result (Handle p) → Type 0
  IsAccepted none r = IsDetected r
  IsAccepted (some name) r = IsNamed name r
