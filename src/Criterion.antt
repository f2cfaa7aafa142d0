-- ===== src/Criterion.antt =====
-- src/requiemdb-sql.c: the text of a criterion. `build_criterion_fixed_sql_like_value` turns a
-- pattern with `*` into a pattern of SQL's LIKE.
pub mod Like
pub mod Build
use librequiemdb.Base.{ℕ, Bool, true, false, not, ◌&&◌, [], ◌∷◌, ◌==◌, if◌then◌else◌, Bytes, codes}
use librequiemdb.Error.{Result, ok, err}
use librequiemdb.Strings.{Strings}

-- what one character adds
abbrev pub like_text : Bool → ℕ → Bytes
like_text escape_next c =
    if c == b'%' then codes "\\%" else if c == b'*' && not escape_next then codes "%" else c ∷ []

module _ (str : Strings) where
  -- The results of the `requiem_string_*` calls in the loop are not tested.
  abbrev kept : Bytes → Result Bytes → Bytes
  kept out (ok out') = out'
  kept out (err _) = out

  unfoldable pub like_loop : Bool → Bytes → Bytes → Bytes
  like_loop escape_next [] out = out
  like_loop escape_next (c ∷ input) out =
      like_loop (not escape_next && c == b'\\') input
        (kept out (str.cat out (like_text escape_next c)))

  unfoldable pub like_value : Bytes → Bytes
  unfolding like_loop
  like_value input = like_loop false input []
