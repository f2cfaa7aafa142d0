-- ===== src/Criterion/Like.antt =====
-- src/requiemdb-sql.c: what the pattern of `like_value` matches. Both patterns are read as lists of
-- tokens.
use librequiemdb.Base.{
  ℕ, Bool, true, false, not, List, [], ◌∷◌, ◌++◌, ◌≡◌, ◌∙◌, ap, sym, refl, arith, ◌==◌,
  if◌then◌else◌, Bytes, append_assoc, append-nil, ◌&&◌,
}
use librequiemdb.Strings.{Strings, Appends}
use librequiemdb.Criterion.{kept, like_text, like_loop, like_value}

-- A character, any text, or any one character.
pub data Token : Type 0 where
  char : ℕ → Token
  any_text any_char : Token

-- A pattern of the criteria: `*` is any text, and a backslash takes the next character as it is.
unfoldable pub glob_tokens : Bool → Bytes → List Token
glob_tokens escaped [] = []
glob_tokens escaped (c ∷ s) =
    let plain = glob_tokens false s in
    let escape = glob_tokens true s in
    if escaped
    then char c ∷ plain
    else if c == b'\\'
    then escape
    else if c == b'*'
    then any_text ∷ plain
    else char c ∷ plain

-- A pattern of LIKE, with the backslash for its escape character.
unfoldable pub like_tokens : Bool → Bytes → List Token
like_tokens escaped [] = []
like_tokens escaped (c ∷ s) =
    let plain = like_tokens false s in
    let escape = like_tokens true s in
    if escaped
    then char c ∷ plain
    else if c == b'\\'
    then escape
    else if c == b'%'
    then any_text ∷ plain
    else if c == b'_'
    then any_char ∷ plain
    else char c ∷ plain

-- No underscore stands in the pattern without a backslash, and no percent sign behind one.
unfoldable pub is_plain : Bool → Bytes → Bool
is_plain escaped [] = true
is_plain escaped (c ∷ s) =
    not (if escaped then c == b'%' else c == b'_') && is_plain (not escaped && c == b'\\') s

converted : Bool → Bytes → Bytes
converted e [] = []
converted e (c ∷ s) = like_text e c ++ converted (not e && c == b'\\') s

like_tokens-converted :
    (e : Bool) (s : Bytes) → is_plain e s ≡ true → like_tokens e (converted e s) ≡ glob_tokens e s
unfolding glob_tokens like_tokens is_plain converted
like_tokens-converted e [] h = refl
like_tokens-converted true (c ∷ s) h = ground (arith, like_tokens-converted false s)
like_tokens-converted false (c ∷ s) h =
    ground (arith, like_tokens-converted false s, like_tokens-converted true s)

module _ (str : Strings) (more : Appends str) where
  like_loop-converted : (e : Bool) (s out : Bytes) → like_loop str e s out ≡ out ++ converted e s
  unfolding like_loop converted
  like_loop-converted e [] out = rw append-nil
  like_loop-converted e (c ∷ s) out =
      ap (λ r. like_loop str (not e && c == b'\\') s (kept str out r))
        (more.cat_ok out (like_text e c))
      ∙ like_loop-converted (not e && c == b'\\') s (out ++ like_text e c)
      ∙ append_assoc out (like_text e c) (converted (not e && c == b'\\') s)

  like_value-converted : (s : Bytes) → like_value str s ≡ converted false s
  unfolding like_value
  like_value-converted s = like_loop-converted false s []

  -- While memory lasts, the LIKE pattern has the tokens of the criterion's pattern, if no
  -- underscore stands in that without a backslash and no percent sign behind one.
  pub tokens-like_value :
      (s : Bytes)
      → is_plain false s ≡ true
      → like_tokens false (like_value str s) ≡ glob_tokens false s
  tokens-like_value s h =
      ap (like_tokens false) (like_value-converted s) ∙ like_tokens-converted false s h

  -- While memory lasts, a percent sign behind a backslash matches any text behind a literal
  -- backslash, whatever follows it, where the criterion asked for a literal percent sign.
  pub like_value_percent :
      (s : Bytes)
      → (like_tokens false (like_value str (b'\\' ∷ b'%' ∷ s))
          ≡ char b'\\' ∷ any_text ∷ like_tokens false (like_value str s))
        × (glob_tokens false (b'\\' ∷ b'%' ∷ s) ≡ char b'%' ∷ glob_tokens false s)
  unfolding converted like_tokens glob_tokens
  like_value_percent s = (
    ap (like_tokens false) (like_value-converted (b'\\' ∷ b'%' ∷ s))
        ∙ ap (λ t. char b'\\' ∷ any_text ∷ like_tokens false t) (sym (like_value-converted s)),
    refl,
  )
