-- ===== src/Error.antt =====
-- src/include/requiemdb-error.h: the error codes, and results of functions that may fail.
use librequiemdb.Base.{ℕ, Bool, true, false}

-- `requiemdb_error_code_t`
pub data Code : Type 0 where
  no_error generic invalid_settings_string connection query invalid_column_num : Code
  invalid_column_name invalid_value invalid_value_type unknown_sql_plugin : Code
  unknown_format_plugin already_in_transaction not_in_transaction invalid_message_ident : Code
  invalid_selected_object_string invalid_object_selection schema_version_too_old : Code
  schema_version_too_recent schema_version_invalid cannot_load_sql_plugin : Code
  cannot_load_format_plugin : Code

-- A negative return value: `requiemdb_error(code)`, or one of another source, with `raw 1` for a
-- plain -1.
pub data Error : Type 0 where
  db : Code → Error
  raw : ℕ → Error

-- An error is passed on, and a result goes to what follows.
pub data Result {ℓ} (A : Type ℓ) : Type ℓ where
  ok : A → Result A
  err : Error → Result A

-- `requiemdb_error_check(error, REQUIEMDB_ERROR_CONNECTION)`
unfoldable pub is_connection : Error → Bool
is_connection (db connection) = true
is_connection _ = false

infixl 5 ◌>>=◌
abbrev pub ◌>>=◌ {ℓ κ} : {A : Type ℓ} {B : Type κ} → Result A → (A → Result B) → Result B
err e >>= next = err e
ok x >>= next = next x
