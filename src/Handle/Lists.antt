-- ===== src/Handle/Lists.antt =====
-- src/requiemdb.c: the deletion of a list of identifiers from a handle of the classic format, which
-- has functions of its own for it.
use librequiemdb.Base.{ℕ, ◌≡◌, List, length, false, Bytes}
use librequiemdb.Error.{Result, ok}
use librequiemdb.Plugin.{Plugin}
use librequiemdb.Strings.{Strings}
use librequiemdb.Sql.{Sql}

module _ (p : Plugin) (str : Strings) where
  open p use {World}

  -- A success counts to `n`, and the lock and the transaction are as they were in `s`.
  pub record Ends (n : ℕ) (s : Sql World) (a : Result ℕ × Sql World) : Type 0 where
    pub counts : (m : ℕ) → a.0 ≡ ok m → m ≡ n
    pub transaction : a.1.transaction ≡ false
    pub lock : a.1.lock ≡ s.lock

  -- The count of a text of identifiers is that of the list.
  Fits : List ℕ → Result (Bytes × ℕ) → Type 0
  Fits ns r = (t : Bytes) (n : ℕ) → r ≡ ok (t, n) → n ≡ length ns
