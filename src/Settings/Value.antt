-- ===== src/Settings/Value.antt =====
-- src/requiemdb-sql-settings.c: what `get_value` reads, quoted or not.
use librequiemdb.Base.{
  ℕ, ◌+◌, ◌≤◌, Bool, true, false, ◌||◌, [], ◌∷◌, ◌++◌, ◌≡◌, ◌≢◌, ◌⊎◌, inl, inr, arith, Bool-cases,
  append-nil, append_assoc, length-append, ◌==◌, if◌then◌else◌, Bytes, length,
}
use librequiemdb.Error.{ok, err, db, invalid_settings_string}
use librequiemdb.Settings.{value_loop, end_value, get_value}

-- A text with a backslash before each backslash and each `q`.
abbrev pub escape : ℕ → Bytes → Bytes
escape q [] = []
escape q (c ∷ v) =
    let rest = escape q v in if c == b'\\' || c == q then b'\\' ∷ c ∷ rest else c ∷ rest

-- What is read and what is left together are no longer than what stood there.
length-value_loop :
    (stop : ℕ) (escaped : Bool) (s out : Bytes)
    → length (value_loop stop escaped s out).0 + length (value_loop stop escaped s out).1
      ≤ length out + length s
unfolding value_loop
length-value_loop stop escaped [] out = omega arith
length-value_loop stop escaped (c ∷ s) out = ground (
  arith,
  length-value_loop stop false s (out ++ c ∷ []),
  length-value_loop stop true s out,
  length-append out (c ∷ []),
)

-- The loop takes an escaped text as it was, up to the end character.
value_loop-escape :
    (q : ℕ) (v rest out : Bytes)
    → q ≢ b'\\'
    → value_loop q false (escape q v ++ q ∷ rest) out ≡ (out ++ v, rest)
unfolding value_loop
value_loop-escape q [] rest out h = rw append-nil (ground arith)
value_loop-escape q (c ∷ v) rest out h =
    ground (arith, value_loop-escape q v rest (out ++ c ∷ []) h, append_assoc out (c ∷ []) v)

end_value-eq :
    (quoted : Bool) (p : Bytes × Bytes) {v rest : Bytes}
    → end_value quoted p ≡ ok (v, rest)
    → (p.0 ≡ v) × (p.1 ≡ rest)
unfolding end_value
end_value-eq true (w, []) h = cc
end_value-eq true (w, d ∷ s) h = ground arith
end_value-eq false (w, s) h = ground arith

-- The value and the text behind it fit into the text that `get_value` was given. So the value and
-- its terminator fit into the buffer of `strlen(*str) + 1` bytes.
pub length-get_value :
    (s : Bytes) {v rest : Bytes} → get_value s ≡ ok (v, rest) → length v + length rest ≤ length s
unfolding get_value
length-get_value [] h = ground arith
length-get_value (c ∷ s) h = elim (Bool-cases (c == b'\'' || c == b'"')) [
  | inl quoted ↦
      let e = end_value-eq true (value_loop c false s []) (rw quoted at h) in
      ground (arith, e, length-value_loop c false s [])
  | inr bare ↦
      let e = end_value-eq false (value_loop b' ' false (c ∷ s) []) (rw bare at h) in
      ground (arith, e, length-value_loop b' ' false (c ∷ s) [])
]

-- A text in quotes, its quotes and backslashes escaped, is read back, if a character follows the
-- closing quote.
pub get_value-quoted :
    (q : ℕ) (v : Bytes) (c : ℕ) (rest : Bytes)
    → (q ≡ b'\'') ⊎ (q ≡ b'"')
    → get_value (q ∷ (escape q v ++ q ∷ c ∷ rest)) ≡ ok (v, c ∷ rest)
unfolding get_value
get_value-quoted q v c rest h = ground (arith, value_loop-escape q v (c ∷ rest) [])

-- The same text is refused where the closing quote ends the string.
pub get_value-quoted_end :
    (q : ℕ) (v : Bytes)
    → (q ≡ b'\'') ⊎ (q ≡ b'"')
    → get_value (q ∷ (escape q v ++ q ∷ [])) ≡ err (db invalid_settings_string)
unfolding get_value
get_value-quoted_end q v h = ground (arith, value_loop-escape q v [] [])
