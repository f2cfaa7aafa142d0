-- ===== src/Strings.antt =====
-- The growing strings of librequiem, `requiem_string_t`, which the program only calls.
use librequiemdb.Base.{◌≡◌, refl, ◌++◌, Bytes}
use librequiemdb.Error.{Result, ok}

-- `cat b s` is the content of a string with content `b` after `requiem_string_cat`,
-- `requiem_string_ncat` or `requiem_string_sprintf` of the text `s`, or the error of that call.
pub record Strings : Type 0 where
  pub cat : Bytes → Bytes → Result Bytes

-- What the functions do while memory lasts.
pub record Appends (str : Strings) : Type 0 where
  pub cat_ok : (b s : Bytes) → str.cat b s ≡ ok (b ++ s)

abbrev pub plenty : Strings
plenty = record { cat = λ b s. ok (b ++ s) }

abbrev pub plenty-Appends : Appends plenty
plenty-Appends = record { cat_ok = λ b s. refl }
