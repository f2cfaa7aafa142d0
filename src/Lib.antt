-- ===== src/Lib.antt =====
-- librequiemdb, the database of IDMEF messages: settings strings, SQL connections with their
-- transactions, selected paths, and the classic format's SQL.
--
-- A client parses a settings string (src/requiemdb-sql-settings.c) and opens a connection over an
-- SQL plugin (src/requiemdb-sql.c). Selected paths and criteria (src/requiemdb-path-selection.c and
-- the criterion functions of src/requiemdb-sql.c) say what a request is about; the classic format
-- (plugins/format/classic) makes SELECT fields and joins of them, inserts messages and deletes them,
-- each by a list of statements in one transaction of the connection, and reads them by queries. A
-- handle (src/requiemdb.c) is a connection with a format plugin; its user may put several requests
-- into one transaction.
--
-- Base: bytes, texts and decimal numbers, and what the other files share. A C string is the list of
--   its bytes before the terminator.
-- Error: `requiemdb_error_code_t`; a negative return value is `err`, any other is `ok`.
-- Settings: `get_name`, `get_value` and the loop of `requiemdb_sql_settings_set_from_string`, which
--   runs on fuel: the length of the string and one more, since each round consumes a byte.
--   Settings/Value and Settings/Print have the theorems.
-- Plugin: the functions of an SQL plugin, and the server behind them, as a parameter.
-- Plugin/Defaults: what src/requiemdb-plugin-sql.c does for a plugin that lacks an escaping function,
--   with the theorems in Plugin/Defaults/Hex; sizes are a `size_t` of 64 bits.
-- Sql: `requiemdb_sql_t` and its functions pass the connection's state on explicitly. Sql/Lock,
--   Sql/Trace and Sql/Start have the theorems on the lock, on what the plugin is asked, and on the
--   start of a transaction.
-- Strings: the growing strings of librequiem, as a parameter; `Appends` says that memory lasts.
-- Delete: plugins/format/classic/classic-delete.c, with the theorems in Delete/Idents, Delete/Sent,
--   Delete/Atomic and Delete/Commit.
-- Criterion: `build_criterion_fixed_sql_like_value`; Criterion/Like has the theorems. Criterion/Build:
--   `requiemdb_sql_build_criterion_string`, over the texts of an SQL plugin as a parameter;
--   Criterion/Build/Moment has the theorem on broken-down times.
-- Selection: the parser of selected paths; the length of a path is a `size_t` of 64 bits, and the
--   difference of pointers wraps at it. Selection/Parse has the theorems.
-- Idmef: what the program asks of an `idmef_path_t`, as a parameter.
-- Classic/Select and Classic/Join: classic-sql-select.c and classic-sql-join.c; the field count is an
--   `unsigned int` of 32 bits. Classic/Select/Columns and Classic/Join/Tables have the theorems.
-- Classic/Resolve and Classic/Criteria: classic-path-resolve.c, the tables and fields of paths and the
--   text of criteria. Classic/Resolve/Again, Classic/Resolve/Names and Classic/Criteria/Meaning have
--   the theorems. The text of one criterion is an interface,
--   which Classic/Idents fills.
-- Classic/Idents: the request for the identifiers of messages and its rows, of classic.c;
--   Classic/Idents/Keeping has the theorem.
-- Classic/Values: the request for the values of selected paths and the values of its rows, of
--   classic.c; Classic/Values/Columns has the theorem.
-- Message: the messages of librequiem as its getters give them, with NULL as `none`.
-- Time: `requiemdb_sql_time_to_timestamp` and its inverse, on numbers of 32 bits in two's complement;
--   `gmtime_r` and `requiem_timegm` are a parameter. Time/RoundTrip and Time/Bounds have the theorems.
-- Program: the calls of classic-insert.c as trees that stop at the first negative return value, and
--   `run`, which makes them on a connection by `requiemdb_sql_insert`, the escapes and
--   `get_last_insert_ident`. Program/Keeps, Program/Traced, Program/Typed, Program/Served and
--   Program/Outcome have what holds of any program: the lock, the events, the columns of its
--   insertions, and its statements over a server that answers every call.
-- Classic/Insert and its children Common, Node, Service, File, Source and Detail: classic-insert.c,
--   function by function. Classic/Insert/Atomic, Classic/Insert/Commit, Classic/Insert/Columns,
--   Classic/Insert/Live and Classic/Insert/Sent have the theorems.
-- Field: the macros `requiemdb_sql_field_to_...` of src/requiemdb-sql.c; Field/Decimal and Field/Signed
--   read back what was printed. A `sscanf` that finds no number leaves the variable as it was.
-- Reading: the calls of classic-get.c as trees, which ask the next thing by the answer to the last,
--   and `read`, which makes them on a connection. A loop over rows has rounds, the `fuel` of the
--   parameter `Outside`; `exhausted` is no result, and the theorem on a heartbeat that is stored gives
--   one for each list whose rows are fewer. A query whose result has no rows is `none`.
--   Reading/Selects is about the contents of the database; Reading/Tables and Reading/Tables/Rows are
--   about a database that answers each query with the rows of a table, whose results may be open at
--   the same time.
-- Classic/Get and its children Common, Node, Service, File, Source and Detail: classic-get.c, function
--   by function. Classic/Get/Selects has the theorems on all messages. Classic/Get/Stored says which
--   rows hold a heartbeat, and Classic/Get/RoundTrip has the theorem on their reading.
-- Handle: the transactions of a user and the deletion of lists, of src/requiemdb.c and
--   src/requiemdb-plugin-format.c, over an interface that the classic format fills; Handle/Library
--   has the reference count of `requiemdb_init`, and Handle/Detect the creation of a handle.
--   Handle/User and Handle/Lists have the theorems on transactions and on lists.
-- Tests, Tests/Insert and Tests/Get: instances of the parameters, and the theorems at concrete inputs.
--
-- Allocation succeeds, except inside librequiem's strings and hash tables, which are parameters.
-- Where C leaves a value undefined, as after a query for the largest identifier that has no row, the
-- model stops with the error -1, or takes what the variable held for a parameter.
-- The locks of other threads and the freeing of memory are not modelled, nor are the meaning that
-- the SQL statements have to a database, the plugins for MySQL, PostgreSQL and SQLite, the loading of
-- plugins and the command line tool.
mod Base
mod Tests
pub mod Error
pub mod Field
pub mod Settings
pub mod Plugin
pub mod Sql
pub mod Strings
pub mod Delete
pub mod Criterion
pub mod Selection
pub mod Message
pub mod Time
pub mod Program
pub mod Reading
pub mod Handle
pub mod Idmef
pub mod Classic
