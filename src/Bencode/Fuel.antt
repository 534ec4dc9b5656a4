-- ===== src/Bencode/Fuel.antt =====
-- vdht_core.c, _be_decode: the decoder ends on every memory.
use vdht.Base.{
  ℕ, zero, suc, ◌+◌, ◌*◌, ◌-◌, ◌^◌, ◌<◌, ◌≤◌, ◌≡◌, ◌≢◌, refl, ◌==◌, ltb, leb, Bool, true, false, [],
  ◌∷◌, length, drop, arith, inl, inr, Bool-cases, ℤ, pos, negsuc,
}
use mathlib.Core.Path.{subst}
use vdht.Bencode
use vdht.Bencode.{
  Bytes, Node, Nodes, Pairs, Read, got, null, crash, starved, and_then, or_crash, Tag, a_list,
  a_dict, an_int, a_str, invalid, tag, is_digit, is_space, magnitude, narrow, letter_e, colon, int,
}

-- It ends, and what it leaves is shorter than `n`.
abbrev Ends : {A : Type 0} → ℕ → Read A → Type 0
Ends n (got a rest) = length rest < n
Ends n null = Unit
Ends n crash = Unit
Ends n starved = ⊥

and_then-Ends :
    {A B : Type 0} (n m : ℕ) (r : Read A) (f : A → Bytes → Read B)
    → Ends n r
    → ((a : A) (rest : Bytes) → length rest < n → Ends m (f a rest))
    → Ends m (and_then r f)
and_then-Ends n m (got a rest) f e g = g a rest e
and_then-Ends n m null f e g = tt
and_then-Ends n m crash f e g = tt
and_then-Ends n m starved f e g = absurd e

or_crash-Ends : {A : Type 0} (n : ℕ) (r : Read A) → Ends n r → Ends n (or_crash r)
or_crash-Ends n (got a rest) e = e
or_crash-Ends n null e = tt
or_crash-Ends n crash e = tt
or_crash-Ends n starved e = e

Ends-le : {A : Type 0} (n m : ℕ) (r : Read A) → n ≤ m → Ends n r → Ends m r
Ends-le n m (got a rest) h e = omega arith
Ends-le n m null h e = tt
Ends-le n m crash h e = tt
Ends-le n m starved h e = e

scan-Ends : (cs : Bytes) (acc : ℕ) → Ends (suc (length cs)) (Bencode.scan cs acc)
unfolding Bencode.scan
scan-Ends [] acc = tt
scan-Ends (c ∷ cs) acc = elim (Bool-cases (is_digit c)) [
  | inl e ↦
      rw (e, Bencode.scan)
        (Ends-le (suc (length cs)) (suc (suc (length cs))) (Bencode.scan cs (acc * 10 + (c - 48)))
          (omega arith) (scan-Ends cs (acc * 10 + (c - 48))))
  | inr e ↦ rw (e, Bencode.scan) (omega arith)
]

skip-Ends : (cs : Bytes) → Ends (suc (length cs)) (Bencode.skip cs)
unfolding Bencode.skip
skip-Ends [] = tt
skip-Ends (c ∷ cs) = elim (Bool-cases (is_space c)) [
  | inl e ↦
      rw (e, Bencode.skip)
        (Ends-le (suc (length cs)) (suc (suc (length cs))) (Bencode.skip cs) (omega arith)
          (skip-Ends cs))
  | inr e ↦ elim (Bool-cases (c == 45)) [
    | inl f ↦ rw (e, Bencode.skip, f) (omega arith)
    | inr f ↦ elim (Bool-cases (c == 43)) [
      | inl g ↦ rw (e, Bencode.skip, f, g) (omega arith)
      | inr g ↦ rw (e, Bencode.skip, f, g) (omega arith)
    ]
  ]
]

magnitude-Ends :
    (from cs : Bytes) → length cs ≤ length from → Ends (suc (length from)) (magnitude from cs)
magnitude-Ends from [] h = tt
magnitude-Ends from (c ∷ cs) h = elim (Bool-cases (is_digit c)) [
  | inl e ↦ rw e (Ends-le _ _ (Bencode.scan (c ∷ cs) 0) (omega arith) (scan-Ends (c ∷ cs) 0))
  | inr e ↦ rw e (omega arith)
]

narrow-Ends :
    (negative : Bool) (n m : ℕ) (rest : Bytes) → length rest < m → Ends m (narrow negative n rest)
narrow-Ends true n m rest h = elim (Bool-cases (ltb (2 ^ 63) n)) [
  | inl e ↦ rw e tt
  | inr e ↦ rw e h
]
narrow-Ends false n m rest h = elim (Bool-cases (leb (2 ^ 63) n)) [
  | inl e ↦ rw e tt
  | inr e ↦ rw e h
]

decode_int-Ends : (src : Bytes) → Ends (suc (length src)) (Bencode.decode_int src)
unfolding Bencode.decode_int
decode_int-Ends src =
    and_then-Ends (suc (length src)) (suc (length src)) (Bencode.skip src) _ (skip-Ends src)
      (λ negative digits short.
        and_then-Ends (suc (length src)) (suc (length src)) (magnitude src digits) _
          (magnitude-Ends src digits (omega arith))
          (λ n rest less. narrow-Ends negative n (suc (length src)) rest less))

length-drop : (n : ℕ) (xs : Bytes) → length (drop n xs) ≤ length xs
length-drop zero xs = omega arith
length-drop (suc n) [] = omega arith
length-drop (suc n) (x ∷ xs) = omega (arith, length-drop n xs)

copy_str-Ends :
    (slack : ℕ) (len : ℤ) (rest : Bytes) (n : ℕ)
    → length rest ≤ n
    → Ends n (Bencode.copy_str slack len rest)
unfolding Bencode.copy_str
copy_str-Ends slack (negsuc k) rest n h = tt
copy_str-Ends slack (pos len) [] n h = tt
copy_str-Ends slack (pos len) (c ∷ rest) n h =
    elim (Bool-cases (ltb (length (c ∷ rest)) (slack + len + 1))) [
      | inl e ↦ rw e tt
      | inr e ↦ elim (Bool-cases (c == colon)) [
        | inr f ↦ rw (e, f) tt
        | inl f ↦ elim (Bool-cases (ltb (length rest) len)) [
          | inl g ↦ rw (e, f, g) tt
          | inr g ↦ rw (e, f, g) (omega (arith, length-drop len rest))
        ]
      ]
    ]

pub decode_str-Ends : (slack : ℕ) (src : Bytes) → Ends (length src) (Bencode.decode_str slack src)
unfolding Bencode.decode_str
decode_str-Ends slack src =
    and_then-Ends (suc (length src)) (length src) (or_crash (Bencode.decode_int src)) _
      (or_crash-Ends (suc (length src)) (Bencode.decode_int src) (decode_int-Ends src))
      (λ len rest short. copy_str-Ends slack len rest (length src) (omega arith))

module _ (slack : ℕ) where
  -- One call of the decoder, for every first byte.
  decode_round :
      (fuel c : ℕ) (cs : Bytes)
      → Ends (length cs) (Bencode.decode_list slack fuel cs)
      → Ends (length cs) (Bencode.decode_dict slack fuel cs)
      → Ends (suc (length cs)) (Bencode.decode slack (suc fuel) (c ∷ cs))
  unfolding Bencode.decode Bencode.ended
  decode_round fuel c cs items pairs = elim (Bool-cases (ltb slack (length (c ∷ cs)))) [
    | inr e ↦ rw (e, Bencode.decode) tt
    | inl e ↦ by_tag (tag c) refl e
  ]
    where
      leave :
          (i : ℤ) (rest : Bytes)
          → length rest ≤ length cs
          → Ends (suc (length cs)) (Bencode.ended i rest)
      leave i [] h = tt
      leave i (d ∷ rest) h = elim (Bool-cases (d == letter_e)) [
        | inl f ↦ rw f (omega arith)
        | inr f ↦ rw f tt
      ]

      by_tag :
          (t : Tag)
          → tag c ≡ t
          → ltb slack (length (c ∷ cs)) ≡ true
          → Ends (suc (length cs)) (Bencode.decode slack (suc fuel) (c ∷ cs))
      by_tag a_list f e =
          rw (e, Bencode.decode, f)
            (and_then-Ends (length cs) (suc (length cs)) (Bencode.decode_list slack fuel cs) _ items
              (λ l rest h. omega arith))
      by_tag a_dict f e =
          rw (e, Bencode.decode, f)
            (and_then-Ends (length cs) (suc (length cs)) (Bencode.decode_dict slack fuel cs) _ pairs
              (λ l rest h. omega arith))
      by_tag an_int f e =
          rw (e, Bencode.decode, f)
            (and_then-Ends (suc (length cs)) (suc (length cs)) (Bencode.decode_int cs) _
              (decode_int-Ends cs) (λ i rest h. leave i rest (omega arith)))
      by_tag a_str f e =
          rw (e, Bencode.decode, f)
            (and_then-Ends (suc (length cs)) (suc (length cs)) (Bencode.decode_str slack (c ∷ cs)) _
              (decode_str-Ends slack (c ∷ cs)) (λ s rest h. h))
      by_tag invalid f e = rw (e, Bencode.decode, f) tt

  mutual
    unfolding Bencode.decode

    decode-Ends :
        (fuel : ℕ) (src : Bytes)
        → 2 * length src < fuel
        → Ends (length src) (Bencode.decode slack fuel src)
    decode-Ends zero src h = absurd (omega arith)
    decode-Ends (suc fuel) [] h = tt
    decode-Ends (suc fuel) (c ∷ cs) h =
        decode_round fuel c cs (decode_list-Ends fuel cs (omega arith))
          (decode_dict-Ends fuel cs (omega arith))

    decode_list-Ends :
        (fuel : ℕ) (src : Bytes)
        → 2 * length src + 1 < fuel
        → Ends (length src) (Bencode.decode_list slack fuel src)
    decode_list-Ends zero src h = absurd (omega arith)
    decode_list-Ends (suc fuel) [] h = tt
    decode_list-Ends (suc fuel) (c ∷ cs) h = elim (Bool-cases (c == letter_e)) [
      | inl e ↦ rw (e, Bencode.decode_list) (omega arith)
      | inr e ↦
          rw (e, Bencode.decode_list)
            (and_then-Ends (suc (length cs)) (suc (length cs)) (Bencode.decode slack fuel (c ∷ cs))
              _ (decode-Ends fuel (c ∷ cs) (omega arith))
              (λ x more less.
                and_then-Ends (length more) (suc (length cs)) (Bencode.decode_list slack fuel more)
                  _ (decode_list-Ends fuel more (omega arith)) (λ xs last shorter. omega arith)))
    ]

    decode_dict-Ends :
        (fuel : ℕ) (src : Bytes)
        → 2 * length src + 1 < fuel
        → Ends (length src) (Bencode.decode_dict slack fuel src)
    decode_dict-Ends zero src h = absurd (omega arith)
    decode_dict-Ends (suc fuel) [] h = tt
    decode_dict-Ends (suc fuel) (c ∷ cs) h = elim (Bool-cases (c == letter_e)) [
      | inl e ↦ rw (e, Bencode.decode_dict) (omega arith)
      | inr e ↦
          rw (e, Bencode.decode_dict)
            (and_then-Ends (suc (length cs)) (suc (length cs)) (Bencode.decode_str slack (c ∷ cs)) _
              (decode_str-Ends slack (c ∷ cs))
              (λ k some_more few.
                and_then-Ends (length some_more) (suc (length cs))
                  (Bencode.decode slack fuel some_more) _ (decode-Ends fuel some_more (omega arith))
                  (λ x more less.
                    and_then-Ends (length more) (suc (length cs))
                      (Bencode.decode_dict slack fuel more) _
                      (decode_dict-Ends fuel more (omega arith)) (λ ps last shorter. omega arith))))
    ]

-- be_decode ends on every memory, as the fuel of two rounds for each byte is enough, and an object
-- that it gives has taken at least one byte.
pub be_decode-ends :
    (memory : Bytes) (len : ℕ)
    → (Bencode.be_decode memory len ≢ starved)
      × ((x : Node) (rest : Bytes)
          → Bencode.be_decode memory len ≡ got x rest
          → length rest < length memory)
unfolding Bencode.be_decode
be_decode-ends memory len =
    let done = decode-Ends (length memory - len) (2 * length memory + 2) memory (omega arith) in
    (λ e. subst (Ends (length memory)) e done, λ x rest e. subst (Ends (length memory)) e done)
