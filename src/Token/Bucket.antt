-- ===== src/Token/Bucket.antt =====
-- vnodeId.c, _aux_distance and vnodeId_bucket: the scan of the bits.
use vdht.Base.{
  ℕ, zero, suc, ◌+◌, ◌-◌, ◌*◌, ◌/◌, ◌%◌, ◌^◌, ◌<◌, ◌≤◌, ◌≡◌, refl, ap, sym, ◌∙◌, ltb, [], ◌∷◌, ◌++◌,
  length, arith, Bool-cases, inl, inr, ◌⊎◌, get_or, append_assoc, ltb→lt, ltb-false→le,
  get_or-append, length-append,
}
use native.Mathlib.Nat.{two-pow-succ, mul-le-mul_right}
use vdht.Token
use vdht.Token.{Token}
use vdht.Token.Bytes.{bit_and_top}
use vdht.Token.Metric.{IsBytes, weight, value, value-lt, dist-IsBytes, length-dist}

-- What the scan of one byte at `p` has found: nothing, or its highest bit.
abbrev Scanned : ℕ → ℕ → Token → ℕ → ℕ → ℕ → Type 0
Scanned k i m n p x =
    (x ≡ 0) × (Token.distance_from k i m ≡ Token.distance_from n (8 * p + 8) m)
    ⊎ ((t : ℕ) × (t < 8)
        × (2 ^ t ≤ x)
        × (x < 2 ^ suc t)
        × (Token.distance_from k i m ≡ t + 8 * (19 - p)))

scan_byte :
    (r k i : ℕ) (m : Token) (n p x : ℕ)
    → k ≡ r + n
    → i + r ≡ 8 * p + 8
    → r ≤ 8
    → p < 20
    → get_or m p 0 ≡ x
    → x < 256
    → x < 2 ^ r
    → Scanned k i m n p x
unfolding Token.distance_from
scan_byte zero k i m n p x hk hi hr hp hx small h =
    let e : k ≡ n = omega arith in
    let f : i ≡ 8 * p + 8 = omega arith in inl (omega arith, rw (e, f))
scan_byte (suc r) zero i m n p x hk hi hr hp hx small h = absurd (omega arith)
scan_byte (suc r) (suc k) i m n p x hk hi hr hp hx small h =
    let byte : i / 8 ≡ p = omega arith in
    let bit : 7 - i % 8 ≡ r = omega arith in
    let test = bit_and_top r x (omega arith) small h in
    elim (Bool-cases (ltb x (2 ^ r))) [
      | inl e ↦
          rw (byte, bit, hx, test, e)
            (scan_byte r k (i + 1) m n p x (omega arith) (omega arith) (omega arith) hp hx small
              (ltb→lt _ _ e))
      | inr e ↦
          inr (r, omega arith, ltb-false→le _ _ e, h, rw (byte, bit, hx, test, e) (omega arith))
    ]

-- `b` is the index of the highest bit of `n`, or 0 if there is none.
pub data HighBit (b n : ℕ) : Type 0 where
  absent : n ≡ 0 → b ≡ 0 → HighBit b n
  present : 2 ^ b ≤ n → n < 2 ^ suc b → HighBit b n

pow_weight : (t n : ℕ) → 2 ^ (t + 8 * n) ≡ 2 ^ t * weight n
pow_weight t zero = let e : t + 8 * 0 ≡ t = omega arith in rw e (omega arith)
pow_weight t (suc n) =
    let e : t + 8 * suc n ≡ suc (suc (suc (suc (suc (suc (suc (suc (t + 8 * n)))))))) =
      omega arith in
    rw e (simp two-pow-succ (grind (arith, pow_weight t n)))

distance_from-zero : (i : ℕ) (m : Token) → Token.distance_from 0 i m ≡ 0
unfolding Token.distance_from
distance_from-zero i m = refl

scan_bytes :
    (rest pre : Token) (m : Token) (k i : ℕ)
    → m ≡ pre ++ rest
    → length pre + length rest ≡ 20
    → k ≡ 8 * length rest
    → i ≡ 8 * length pre
    → IsBytes rest
    → HighBit (Token.distance_from k i m) (value rest) × (Token.distance_from k i m < 160)
scan_bytes [] pre m k i hm hl hk hi b =
    let e : k ≡ 0 = hk in rw (e, distance_from-zero) (absent refl refl, omega arith)
scan_bytes (x ∷ rest) pre m k i hm hl hk hi b =
    let here : get_or m (length pre) 0 ≡ x = rw hm (get_or-append pre x rest 0) in
    let low = value-lt rest b.1 in
    elim (scan_byte 8 k i m (8 * length rest) (length pre) x (omega arith) (omega arith)
      (omega arith) (omega arith) here b.0 b.0) [
        | inl (none_set, run) ↦
            let next =
              scan_bytes rest (pre ++ x ∷ []) m (8 * length rest) (8 * length pre + 8)
                (hm ∙ sym (append_assoc pre (x ∷ []) rest))
                (omega (arith, length-append pre (x ∷ []))) refl
                (omega (arith, length-append pre (x ∷ []))) b.1 in
            let same : 0 * weight (length rest) + value rest ≡ value rest = omega arith in
            rw (run, none_set, same) next
        | inr (t, small, lo, hi_bit, run) ↦
            let index : Token.distance_from k i m ≡ t + 8 * length rest =
              run ∙ ap (λ n. t + 8 * n) (omega arith) in
            let next_bit : suc (t + 8 * length rest) ≡ suc t + 8 * length rest = omega arith in
            rw index (
              present (rw pow_weight (omega (arith, mul-le-mul_right (weight (length rest)) lo))) (
                  rw (next_bit, pow_weight (suc t) (length rest))
                    (omega (arith, mul-le-mul_right (weight (length rest)) hi_bit))),
              omega arith,
            )
      ]

pub distance-HighBit :
    (m : Token)
    → length m ≡ 20
    → IsBytes m
    → HighBit (Token.distance m) (value m) × (Token.distance m < 160)
unfolding Token.distance
distance-HighBit m h b = scan_bytes m [] m 160 0 refl (omega arith) (omega arith) refl b

-- For two node IDs of twenty bytes each, vnodeId_bucket gives the index of the highest bit of
-- their distance, read as a number with its first byte highest, or 0 where the distance is 0; the
-- index is below 160.
pub bucket-HighBit :
    (a b : Token)
    → length a ≡ 20
    → length b ≡ 20
    → IsBytes a
    → IsBytes b
    → HighBit (Token.bucket a b) (value (Token.dist a b)) × (Token.bucket a b < 160)
unfolding Token.bucket
bucket-HighBit a b p q ba bb =
    distance-HighBit (Token.dist a b) (length-dist a b (p ∙ sym q) ∙ p) (dist-IsBytes a b ba bb)
