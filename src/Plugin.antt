-- ===== src/Plugin.antt =====
-- src/requiemdb-plugin-sql.c: what a connection asks of its sql plugin. A plugin is a table of
-- functions over its session and the database server; both are the plugin's `World`.
pub mod Defaults
use librequiemdb.Base.{Bool, Bytes, Option, ℕ}
use librequiemdb.Error.{Result}

pub record Plugin : Type 1 where
  pub World : Type 0
  pub Res : Type 0
  pub Row : Type 0
  -- `plugin->open`, with the settings of the connection
  pub open_session : World → Result (Unit {0}) × World
  pub close : World → World
  -- `none` is the return value 0: the statement has no result.
  pub query : Bytes → World → Result (Option Res) × World
  pub escape : Bytes → World → Result Bytes × World
  pub escape_binary : Bytes → World → Result Bytes × World
  pub unescape_binary : Bytes → World → Result Bytes × World
  pub row_count : Res → World → ℕ
  pub fetch_row : Res → World → Result (Option Row) × World
  pub fetch_field : Res → Row → ℕ → World → Result (Option Bytes) × World
  pub column_num : Res → Bytes → World → Result ℕ
  -- whether `_requiem_thread_get_error()` is set, after what was called last
  pub thread_error : World → Bool
