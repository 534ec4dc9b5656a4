-- ===== src/Hex.antt =====
-- vnodeId.c: tokens, service hashes and nonces as hexadecimal text.
-- A character is its code; a string ends with 0, and a read behind its end is a fault.
pub mod RoundTrip
use vdht.Base.{
  ℕ, zero, suc, ◌+◌, ◌-◌, ◌*◌, ◌/◌, ◌%◌, ltb, leb, ◌==◌, if◌then◌else◌, Bool, true, false, List, [],
  ◌∷◌, Option, none, some, ℤ, pos, negsuc, Run, ok, fault, ◌>>=◌, ◌>>◌, vassert,
}
use vdht.Token.{Token, token_len}

-- VNONCE_LEN
abbrev pub nonce_len : ℕ
nonce_len = 4

-- the digit that "%x" prints for a number below 16
unfoldable pub hex_char : ℕ → ℕ
hex_char d = if ltb d 10 then 48 + d else 87 + d

-- the loop of the three `strlize` functions, with `room` for `len - sz`; each call of `snprintf`
-- writes two digits and needs room for a third character
unfoldable pub strlize_from : ℕ → List ℕ → Option (List ℕ)
unfolding hex_char
strlize_from room [] = some []
strlize_from room (x ∷ xs) =
    let rest = strlize_from (room - 2) xs in
    if leb room 2
    then none
    else elim rest [ none ↦ none | some s ↦ some (hex_char (x / 16) ∷ hex_char (x % 16) ∷ s) ]

-- `vtoken_strlize`, `vsrvcHash_strlize`, `vnonce_strlize`, with their `vassert(len > 0)`
unfoldable pub token_strlize : Token → ℕ → Run (Option (List ℕ))
unfolding strlize_from
token_strlize token len = vassert (ltb 0 len) >> ok (strlize_from len token)

unfoldable pub hash_strlize : Token → ℕ → Run (Option (List ℕ))
unfolding strlize_from
hash_strlize hash len = vassert (ltb 0 len) >> ok (strlize_from len hash)

unfoldable pub nonce_strlize : List ℕ → ℕ → Run (Option (List ℕ))
unfolding strlize_from
nonce_strlize nonce len = vassert (ltb 0 len) >> ok (strlize_from len nonce)

-- `(high << 4) | (0x0f & low)` in a byte; the two parts have no bit in common
unfoldable pub join : ℕ → ℕ → ℕ
join high low = (high * 16 + low % 16) % 256

-- `sscanf(data, "%x", &value)` on a string of one character: its result and the number it stores.
module _ (scan : ℕ → ℤ × ℕ) where
  -- One character is read. A result of 0 ends the loop, a negative one keeps the old value.
  unfoldable pub scan_next : List ℕ → ℕ → Run (Option (ℕ × List ℕ))
  scan_next [] old = fault
  scan_next (c ∷ cs) old = elim (scan c).0 [
    | pos n ↦ if n == 0 then ok none else ok (some ((scan c).1, cs))
    | negsuc n ↦ ok (some (old, cs))
  ]

  -- the loop of the `unstrlize` functions, with `n` bytes to go
  unfoldable pub unstrlize_from : ℕ → List ℕ → ℕ → ℕ → Run (Option (List ℕ))
  unfolding scan_next join
  unstrlize_from zero str high low = ok (some [])
  unstrlize_from (suc n) str high low = scan_next str high >>= λ a. elim a [
    | none ↦ ok none
    | some (h, mid) ↦ scan_next mid low >>= λ b. elim b [
      | none ↦ ok none
      | some (l, rest) ↦ unstrlize_from n rest h l >>= λ r. elim r [
        | none ↦ ok none
        | some bytes ↦ ok (some (join h l ∷ bytes))
      ]
    ]
  ]

  -- `vtoken_unstrlize`, `vnonce_unstrlize`
  unfoldable pub token_unstrlize : List ℕ → Run (Option Token)
  unfolding unstrlize_from
  token_unstrlize str = unstrlize_from token_len str 0 0

  unfoldable pub nonce_unstrlize : List ℕ → Run (Option (List ℕ))
  unfolding unstrlize_from
  nonce_unstrlize str = unstrlize_from nonce_len str 0 0
