-- ===== src/Classic/Resolve/Again.antt =====
-- classic-path-resolve.c: a path that is resolved when the join has tables.
use librequiemdb.Base.{some, ◌≡◌}
use librequiemdb.Strings.{Strings}
use librequiemdb.Idmef.{Paths, Compares}
use librequiemdb.Classic.Join.{Join, JoinedTable, lookup_table}

module _ (str : Strings) (paths : Paths) (compares : Compares paths) where
  open paths use {Path', depth, class_of, is_time}

  -- The path has a table in the join, or needs none.
  IsResolved : Join Path' → Path' → Type 0
  IsResolved j path = (s : JoinedTable Path') × (lookup_table str paths j path ≡ some s)
