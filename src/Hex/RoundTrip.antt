-- ===== src/Hex/RoundTrip.antt =====
-- vnodeId.c, strlize and unstrlize: the text between the two.
use vdht.Base.{
  ℕ, ◌-◌, ◌*◌, ◌/◌, ◌%◌, ◌<◌, ◌≡◌, refl, ap, List, [], ◌∷◌, ◌++◌, length, some, arith, ℤ, pos, ok,
  leb, false, leb-false, ◌>>=◌, ◌>>◌, lt→ltb,
}
use vdht.Hex
use vdht.Token.{Token}
use vdht.Token.Metric.{IsBytes}

-- The text of the bytes, two digits each.
abbrev pub text : List ℕ → List ℕ
text [] = []
text (x ∷ xs) = Hex.hex_char (x / 16) ∷ Hex.hex_char (x % 16) ∷ text xs

strlize_from-text :
    (room : ℕ) (xs : List ℕ) → length xs * 2 < room → Hex.strlize_from room xs ≡ some (text xs)
unfolding Hex.strlize_from
strlize_from-text room [] h = refl
strlize_from-text room (x ∷ xs) h =
    let more : 2 < room = omega (arith, h) in
    let wide : leb room 2 ≡ false = leb-false _ _ more in
    let less : length xs * 2 < room - 2 = omega (arith, h) in
    rw (wide, strlize_from-text (room - 2) xs less)

module _ (scan : ℕ → ℤ × ℕ)
    (scan_digit : (d : ℕ) → d < 16 → scan (Hex.hex_char d) ≡ (pos 1, d)) where
  scan_next-digit :
      (d : ℕ) (rest : List ℕ) (old : ℕ)
      → d < 16
      → Hex.scan_next scan (Hex.hex_char d ∷ rest) old ≡ ok (some (d, rest))
  unfolding Hex.scan_next
  scan_next-digit d rest old h =
      rw (Hex.scan_next, scan_digit d h) (ap (λ r. ok (some (r.1, rest))) (scan_digit d h))

  unstrlize_from-text :
      (xs rest : List ℕ) (high low : ℕ)
      → IsBytes xs
      → Hex.unstrlize_from scan (length xs) (text xs ++ rest) high low ≡ ok (some xs)
  unfolding Hex.unstrlize_from
  unstrlize_from-text [] rest high low b = refl
  unstrlize_from-text (x ∷ xs) rest high low b =
      let first =
        scan_next-digit (x / 16) (Hex.hex_char (x % 16) ∷ (text xs ++ rest)) high
          (omega (arith, b.0)) in
      let second = scan_next-digit (x % 16) (text xs ++ rest) low (omega arith) in
      let joined : Hex.join (x / 16) (x % 16) ≡ x = unfold Hex.join in omega (arith, b.0) in
      rw (first, ◌>>=◌, second, unstrlize_from-text xs rest (x / 16) (x % 16) b.1, joined)

  -- Where sscanf with %x reads one lower-case hexadecimal digit as its number and returns 1,
  -- vtoken_strlize of a token of twenty bytes into a buffer of more than forty characters
  -- succeeds, and vtoken_unstrlize of the text, ended by a 0, reads within it and gives the token
  -- back.
  pub token_strlize-unstrlize :
      (token : Token) (len : ℕ)
      → length token ≡ 20
      → IsBytes token
      → 40 < len
      → (Hex.token_strlize token len ≡ ok (some (text token)))
        × (Hex.token_unstrlize scan (text token ++ 0 ∷ []) ≡ ok (some token))
  unfolding Hex.token_strlize Hex.token_unstrlize
  token_strlize-unstrlize token len size bytes room = (
    rw (lt→ltb 0 len (omega (arith, room)), ◌>>◌)
        (ap ok (strlize_from-text len token (omega arith))),
    rw size at (unstrlize_from-text token (0 ∷ []) 0 0 bytes),
  )

  -- Where sscanf with %x reads one lower-case hexadecimal digit as its number and returns 1,
  -- vnonce_strlize of a nonce of four bytes into a buffer of more than eight characters succeeds,
  -- and vnonce_unstrlize of the text, ended by a 0, reads within it and gives the nonce back.
  pub nonce_strlize-unstrlize :
      (nonce : List ℕ) (len : ℕ)
      → length nonce ≡ 4
      → IsBytes nonce
      → 8 < len
      → (Hex.nonce_strlize nonce len ≡ ok (some (text nonce)))
        × (Hex.nonce_unstrlize scan (text nonce ++ 0 ∷ []) ≡ ok (some nonce))
  unfolding Hex.nonce_strlize Hex.nonce_unstrlize
  nonce_strlize-unstrlize nonce len size bytes room = (
    rw (lt→ltb 0 len (omega (arith, room)), ◌>>◌)
        (ap ok (strlize_from-text len nonce (omega arith))),
    rw size at (unstrlize_from-text nonce (0 ∷ []) 0 0 bytes),
  )
