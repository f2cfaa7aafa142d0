-- ===== src/Plugin/Defaults/Hex.antt =====
-- src/requiemdb-plugin-sql.c: the hexadecimal literals that are written by default.
use Prim.Native.Nat.{◌^◌}
use librequiemdb.Base.{
  ℕ, ◌+◌, ◌-◌, ◌*◌, ◌/◌, ◌%◌, ◌<◌, Bool, true, false, not, ◌&&◌, and-true, [], ◌∷◌, ◌++◌, ◌≡◌, ◌∙◌,
  refl, ap, arith, ◌==◌, ltb, if◌then◌else◌, Bytes, codes, length, length-append, All, all_below-lt,
  eq-true,
}
use librequiemdb.Error.{ok}
use librequiemdb.Plugin.Defaults.{hex_digit, bin2hex, out_size, default_escape_binary}

abbrev pub hex_value : ℕ → ℕ
hex_value d = if ltb d b'A' then d - b'0' else d - b'A' + 10

-- The bytes of a text X'...', up to its first quote behind the X.
pub read_pairs : Bytes → Bytes
read_pairs [] = []
read_pairs (c ∷ []) = []
read_pairs (c ∷ d ∷ s) =
    let rest = read_pairs s in if c == b'\'' then [] else (hex_value c * 16 + hex_value d) ∷ rest

pub read_literal : Bytes → Bytes
read_literal [] = []
read_literal (x ∷ []) = []
read_literal (x ∷ q ∷ s) = read_pairs s

not-true : (a : Bool) → not a ≡ true → a ≡ false
not-true a h = ground arith

abbrev reads_back : ℕ → Bool
reads_back n = (hex_value (hex_digit n) == n) && not (hex_digit n == b'\'')

hex_value-hex_digit :
    (n : ℕ) → n < 16 → (hex_value (hex_digit n) ≡ n) × ((hex_digit n == b'\'') ≡ false)
hex_value-hex_digit n h =
    let (value, plain) =
      and-true (hex_value (hex_digit n) == n) (not (hex_digit n == b'\''))
        (all_below-lt reads_back 16 n h refl) in
    (eq-true (hex_value (hex_digit n)) n value, not-true (hex_digit n == b'\'') plain)

halves : (c : ℕ) → c / 16 * 16 + c % 16 ≡ c
halves c = omega arith

read_pairs-bin2hex :
    (input : Bytes) → All (λ c. c < 256) input → read_pairs (bin2hex input ++ codes "'") ≡ input
unfolding read_pairs bin2hex
read_pairs-bin2hex [] h = refl
read_pairs-bin2hex (c ∷ input) h =
    let (high, plain) = hex_value-hex_digit (c / 16) (omega (arith, h.0)) in
    let (low, _) = hex_value-hex_digit (c % 16) (omega arith) in
    rw plain (
      rw high (
        rw low (
          ap (◌∷◌ (c / 16 * 16 + c % 16)) (read_pairs-bin2hex input h.1)
          ∙ ap (λ d. d ∷ input) (halves c))))

length-bin2hex : (input : Bytes) → length (bin2hex input) ≡ 2 * length input
unfolding bin2hex
length-bin2hex [] = refl
length-bin2hex (c ∷ input) = omega (arith, length-bin2hex input)

-- Bytes whose number is below 2 ^ 63 - 2 are written as a literal that is read back as these bytes,
-- and that fills the buffer up to its terminator.
pub read_literal-default_escape_binary :
    (input : Bytes)
    → All (λ c. c < 256) input
    → length input + 2 < 2 ^ 63
    → (t : Bytes) × (default_escape_binary input ≡ ok t)
      × (read_literal t ≡ input)
      × (length t + 1 ≡ out_size input)
unfolding default_escape_binary read_literal
read_literal-default_escape_binary input bytes small = (
  codes "X'" ++ (bin2hex input ++ codes "'"),
  ground arith,
  read_pairs-bin2hex input bytes,
  omega (arith, length-append (bin2hex input) (codes "'"), length-bin2hex input),
)
