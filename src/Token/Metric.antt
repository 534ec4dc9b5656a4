-- ===== src/Token/Metric.antt =====
-- The distance of node IDs as a number, and the order that `vnodeMetric_cmp` decides.
use vdht.Base.{
  ℕ, zero, suc, ◌+◌, ◌*◌, ◌<◌, ◌≡◌, ◌↔◌, refl, ap, ◌==◌, ltb, true, [], ◌∷◌, length, All, ℤ, pos,
  negsuc, arith, Bool-cases, inl, inr, ==_iff,
}
use mathlib.Core.Path.{ap₂}
use vdht.Token
use vdht.Token.{Token}
use vdht.Token.Bytes.{xor_bytes}

abbrev pub IsBytes : Token → Type 0
IsBytes = All (λ x. x < 256)

-- The number that the bytes spell, first byte highest.
abbrev pub weight : ℕ → ℕ
weight zero = 1
weight (suc n) = 256 * weight n

abbrev pub value : Token → ℕ
value [] = 0
value (x ∷ m) = x * weight (length m) + value m

-- vtoken_equal on two tokens of one length tells whether they are equal.
pub equal_iff : (a b : Token) → length a ≡ length b → (Token.equal a b ≡ true) ↔ (a ≡ b)
unfolding Token.equal
equal_iff [] [] h = (λ _. refl, λ _. refl)
equal_iff [] (y ∷ b) h = absurd (omega arith)
equal_iff (x ∷ a) [] h = absurd (omega arith)
equal_iff (x ∷ a) (y ∷ b) h =
    let (to, from) = equal_iff a b (omega arith) in
    elim (Bool-cases (x == y)) [
      | inl e ↦ (λ eq. ap₂ ◌∷◌ ((==_iff x y).0 e) (to (rw e at eq)), λ eq. rw e (from (tail_eq eq)))
      | inr e ↦ (λ eq. ground arith, λ eq. ground (arith, head_eq eq))
    ]
  where
    tail_eq : x ∷ a ≡ y ∷ b → a ≡ b
    tail_eq e = cc

    head_eq : x ∷ a ≡ y ∷ b → x ≡ y
    head_eq e = cc

pub weight_pos : (n : ℕ) → 0 < weight n
weight_pos zero = omega arith
weight_pos (suc n) = omega (arith, weight_pos n)

pub value-lt : (m : Token) → IsBytes m → value m < weight (length m)
value-lt [] b = omega arith
value-lt (x ∷ m) b = grind (arith, value-lt m b.1)

-- Three laws of the metric: symmetry, and that an ID and a distance determine the other ID.
pub dist_comm : (a b : Token) → IsBytes a → IsBytes b → Token.dist a b ≡ Token.dist b a
unfolding Token.dist
dist_comm [] [] p q = refl
dist_comm [] (y ∷ b) p q = refl
dist_comm (x ∷ a) [] p q = refl
dist_comm (x ∷ a) (y ∷ b) p q = ap₂ ◌∷◌ (xor_bytes x y p.0 q.0).1 (dist_comm a b p.1 q.1)

-- For two IDs of one length in bytes, the distance from an ID to its distance from another ID is
-- the other ID: an ID and a distance determine one ID.
pub dist-dist :
    (a b : Token) → IsBytes a → IsBytes b → length a ≡ length b → Token.dist a (Token.dist a b) ≡ b
unfolding Token.dist
dist-dist [] [] p q h = refl
dist-dist [] (y ∷ b) p q h = absurd (omega arith)
dist-dist (x ∷ a) [] p q h = absurd (omega arith)
dist-dist (x ∷ a) (y ∷ b) p q h =
    ap₂ ◌∷◌ (xor_bytes x y p.0 q.0).0 (dist-dist a b p.1 q.1 (omega arith))

pub dist-IsBytes : (a b : Token) → IsBytes a → IsBytes b → IsBytes (Token.dist a b)
unfolding Token.dist
dist-IsBytes [] b p q = tt
dist-IsBytes (x ∷ a) [] p q = tt
dist-IsBytes (x ∷ a) (y ∷ b) p q = ((xor_bytes x y p.0 q.0).2, dist-IsBytes a b p.1 q.1)

pub length-dist : (a b : Token) → length a ≡ length b → length (Token.dist a b) ≡ length a
unfolding Token.dist
length-dist [] b h = refl
length-dist (x ∷ a) [] h = absurd (omega arith)
length-dist (x ∷ a) (y ∷ b) h = ap suc (length-dist a b (omega arith))

-- The sign that a comparison of two numbers has.
abbrev pub Compares : ℤ → ℕ → ℕ → Type 0
Compares (pos zero) a b = a ≡ b
Compares (pos (suc n)) a b = a < b
Compares (negsuc n) a b = b < a

-- A higher leading byte outweighs all that follow.
apart : (x y w r s : ℕ) → x < y → r < w → x * w + r < y * w + s
apart x y w r s h k = grind arith

Compares-add : (z : ℤ) (k a b : ℕ) → Compares z a b → Compares z (k + a) (k + b)
Compares-add (pos zero) k a b h = ap (λ t. k + t) h
Compares-add (pos (suc n)) k a b h = omega arith
Compares-add (negsuc n) k a b h = omega arith

-- For two distances of one length in bytes, vnodeMetric_cmp gives 0, a positive or a negative
-- result as the first one, read as a number, is equal to, below or above the second.
pub metric_cmp_lem :
    (a b : Token)
    → IsBytes a
    → IsBytes b
    → length a ≡ length b
    → Compares (Token.metric_cmp a b) (value a) (value b)
unfolding Token.metric_cmp
metric_cmp_lem [] [] p q h = refl
metric_cmp_lem [] (y ∷ b) p q h = absurd (omega arith)
metric_cmp_lem (x ∷ a) [] p q h = absurd (omega arith)
metric_cmp_lem (x ∷ a) (y ∷ b) p q h =
    let same : length a ≡ length b = omega arith in
    let rest = metric_cmp_lem a b p.1 q.1 same in
    elim (Bool-cases (ltb x y)) [
      | inl lt ↦
          rw (lt, ← same)
            (apart x y (weight (length a)) (value a) (value b) (ground arith) (value-lt a p.1))
      | inr ge ↦ elim (Bool-cases (ltb y x)) [
        | inl gt ↦
            rw (ge, gt, same)
              (apart y x (weight (length b)) (value b) (value a) (ground arith) (value-lt b q.1))
        | inr le ↦
            let e : x ≡ y = ground arith in
            rw (ge, le, e, same)
              (Compares-add (Token.metric_cmp a b) (y * weight (length b)) _ _ rest)
      ]
    ]
