-- ===== src/Tests/Texts.antt =====
-- Hexadecimal text with a scanner of one digit.
use vdht.Base.{
  ℕ, ◌-◌, ◌<◌, ◌≡◌, refl, ltb, if◌then◌else◌, List, [], ◌∷◌, ◌++◌, replicate, some, ok, arith, ℤ,
  pos,
}
use vdht.Hex
use vdht.Hex.RoundTrip.{text, token_strlize-unstrlize}
use vdht.Token.{Token}
use vdht.Token.Metric.{IsBytes}

-- Reads a lower-case digit and stores nothing else.
abbrev scan : ℕ → ℤ × ℕ
scan c =
    if ltb c 48
    then (pos 0, 0)
    else if ltb c 58
    then (pos 1, c - 48)
    else if ltb c 97
    then (pos 0, 0)
    else if ltb c 103
    then (pos 1, c - 87)
    else (pos 0, 0)

scan-hex_char : (d : ℕ) → d < 16 → scan (Hex.hex_char d) ≡ (pos 1, d)
unfolding Hex.hex_char
scan-hex_char d h = ground arith

abbrev id : Token
id = replicate 20 171

id-IsBytes : IsBytes id
id-IsBytes = ground arith

token_strlize_example :
    (Hex.token_strlize id 64 ≡ ok (some (text id)))
    × (Hex.token_unstrlize scan (text id ++ 0 ∷ []) ≡ ok (some id))
token_strlize_example =
    token_strlize-unstrlize scan scan-hex_char id 64 refl id-IsBytes (omega arith)

abbrev nonce : List ℕ
nonce = 1 ∷ 255 ∷ 16 ∷ 0 ∷ []

nonce-IsBytes : IsBytes nonce
nonce-IsBytes = ground arith
