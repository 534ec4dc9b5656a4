-- ===== src/NodeSpace/Order.antt =====
-- vroute_node.c, find_closest_nodes: which peers it takes and in which order, said without its code.
use vdht.Base.{
  ℕ, zero, suc, ◌<◌, ◌≤◌, ◌≡◌, refl, ap, sym, ◌∙◌, ◌⊎◌, List, [], ◌∷◌, length, All, Bool-cases,
  true, false, pos, negsuc, inl, inr, arith, ltb, ltb_int, ℤ, ℤ-cases,
}
use mathlib.Core.Path.{subst}
use vdht.NodeInfo
use vdht.NodeSpace.{NodeSpace}
use vdht.NodeSpace.Closest
use vdht.NodeSpace.Gathered.{candidates, ordered}
use vdht.Peer.{Peer}
use vdht.Token
use vdht.Token.{Token}
use vdht.Token.Metric.{IsBytes, value, Compares, metric_cmp_lem, dist-IsBytes, length-dist}
use vdht.Varray.Sorted.{place}

-- An ID of twenty bytes.
abbrev pub IsId : Token → Type 0
IsId id = (length id ≡ 20) × IsBytes id

abbrev pub HasId : Peer → Type 0
HasId x = IsId x.nodei.id

pub All-place :
    (P : Peer → Type 0) (t : Token) (new : Peer) (xs : List Peer)
    → P new
    → All P xs
    → All P (place (Closest.weight_cmp_cb t) new xs)
All-place P t new [] p a = (p, tt)
All-place P t new (x ∷ xs) p a = elim (ℤ-cases (Closest.weight_cmp_cb t x new)) [
  | inl (n, c) ↦ rw (c, place) (p, a)
  | inr (n, c) ↦ rw (c, place) (a.0, All-place P t new xs p a.1)
]

module _ (P : Peer → Type 0) (space : NodeSpace) (t : Token) where
  pub All-candidates : (ps : List Peer) → All P ps → All P (candidates space t ps)
  All-candidates [] a = tt
  All-candidates (p ∷ ps) a = elim (Bool-cases (Closest.is_candidate space t p)) [
    | inl e ↦ rw (e, candidates) (a.0, All-candidates ps a.1)
    | inr e ↦ rw (e, candidates) (All-candidates ps a.1)
  ]

  pub All-ordered : (ps acc : List Peer) → All P ps → All P acc → All P (ordered space t ps acc)
  All-ordered [] acc a b = b
  All-ordered (p ∷ ps) acc a b =
      All-ordered ps (place (Closest.weight_cmp_cb t) p acc) a.1 (All-place P t p acc a.0 b)

module _ (space : NodeSpace) (t : Token) where
  -- Not the target, of a known version, and reachable.
  abbrev pub IsCandidate : Peer → Type 0
  IsCandidate p =
      (Token.equal p.nodei.id t ≡ false)
      × (Token.equal p.nodei.ver Token.unknown_ver ≡ false)
      × (p.next_tmo < space.limits.max_next_tmo_unreachable)

  -- A list and its candidates.
  pub data Candidates : List Peer → List Peer → Type 0 where
    no_peer : Candidates [] []
    taken :
        (p : Peer) (ps cs : List Peer)
        → IsCandidate p
        → Candidates ps cs
        → Candidates (p ∷ ps) (p ∷ cs)
    passed :
        (p : Peer) (ps cs : List Peer) → ¬ IsCandidate p → Candidates ps cs → Candidates (p ∷ ps) cs

  is_candidate-true : (p : Peer) → IsCandidate p → Closest.is_candidate space t p ≡ true
  unfolding Closest.is_candidate NodeInfo.is_fake
  is_candidate-true p (other, real, near) = ground (arith, other, real, near)

  is_candidate-IsCandidate : (p : Peer) → Closest.is_candidate space t p ≡ true → IsCandidate p
  unfolding Closest.is_candidate NodeInfo.is_fake
  is_candidate-IsCandidate p e = (ground (arith, e), ground (arith, e), ground (arith, e))

  is_candidate-false : (p : Peer) → ¬ IsCandidate p → Closest.is_candidate space t p ≡ false
  is_candidate-false p refused = elim (Bool-cases (Closest.is_candidate space t p)) [
    | inr e ↦ e
    | inl e ↦ absurd (refused (is_candidate-IsCandidate p e))
  ]

  pub candidates-Candidates : {ps cs : List Peer} → Candidates ps cs → candidates space t ps ≡ cs
  candidates-Candidates no_peer = refl
  candidates-Candidates (taken p ps cs h rest) =
      rw (is_candidate-true p h, candidates) (ap (λ l. p ∷ l) (candidates-Candidates rest))
  candidates-Candidates (passed p ps cs h rest) =
      rw (is_candidate-false p h, candidates) (candidates-Candidates rest)

  -- A new peer stands before an old one if it has no more pings open, the same version, and a
  -- higher weight or no larger distance to the target, read as a number.
  abbrev pub Ahead : Peer → Peer → Type 0
  Ahead new old =
      (new.ntry_pings ≤ old.ntry_pings)
      × (Token.equal new.nodei.ver old.nodei.ver ≡ true)
      × ((ltb_int old.nodei.weight new.nodei.weight ≡ true)
          ⊎ (value (Token.dist new.nodei.id t) ≤ value (Token.dist old.nodei.id t)))

  -- Insertion in front of the first old peer that the new one stands before, or at the end.
  pub data Placed (new : Peer) : List Peer → List Peer → Type 0 where
    at_end : Placed new [] (new ∷ [])
    before : (x : Peer) (xs : List Peer) → Ahead new x → Placed new (x ∷ xs) (new ∷ x ∷ xs)
    behind :
        (x : Peer) (xs ys : List Peer)
        → ¬ Ahead new x
        → Placed new xs ys
        → Placed new (x ∷ xs) (x ∷ ys)

  -- Insertion one after the other.
  pub data Ordered : List Peer → List Peer → List Peer → Type 0 where
    no_more : (acc : List Peer) → Ordered [] acc acc
    next :
        (p : Peer) (ps acc mid last : List Peer)
        → Placed p acc mid
        → Ordered ps mid last
        → Ordered (p ∷ ps) acc last

  abbrev Decides : ℤ → Type 0 → Type 0
  Decides (pos n) P = P
  Decides (negsuc n) P = ¬ P

  nearer : (z : ℤ) (a b : ℕ) → Compares z a b → Decides z (a ≤ b)
  nearer (pos zero) a b h = omega (arith, h)
  nearer (pos (suc n)) a b h = omega (arith, h)
  nearer (negsuc n) a b h = λ le. omega (arith, h, le)

  module _ (id : IsId t) where
    metric_lem :
        (new old : Peer)
        → HasId new
        → HasId old
        → Decides
            (Token.metric_cmp (Token.dist new.nodei.id t) (Token.dist old.nodei.id t))
            (value (Token.dist new.nodei.id t) ≤ value (Token.dist old.nodei.id t))
    metric_lem new old h k =
        let near = length-dist new.nodei.id t (h.0 ∙ sym id.0) ∙ h.0 in
        let far = length-dist old.nodei.id t (k.0 ∙ sym id.0) ∙ k.0 in
        nearer _ _ _ (
          metric_cmp_lem (Token.dist new.nodei.id t) (Token.dist old.nodei.id t)
            (dist-IsBytes new.nodei.id t h.1 id.1) (dist-IsBytes old.nodei.id t k.1 id.1)
            (near ∙ sym far))

    cmp-Ahead :
        (new old : Peer)
        → HasId new
        → HasId old
        → Decides (Closest.weight_cmp_cb t old new) (Ahead new old)
    unfolding Closest.weight_cmp_cb
    cmp-Ahead new old h k = elim (Bool-cases (ltb old.ntry_pings new.ntry_pings)) [
      | inl e ↦
          let sign : Closest.weight_cmp_cb t old new ≡ negsuc 0 = rw e in
          back sign (λ a. ground (arith, e, a.0))
      | inr e ↦ elim (Bool-cases (Token.equal new.nodei.ver old.nodei.ver)) [
        | inr f ↦
            let sign : Closest.weight_cmp_cb t old new ≡ negsuc 0 = rw (e, f) in
            back sign (λ a. cc (a.1, f))
        | inl f ↦ elim (Bool-cases (ltb_int old.nodei.weight new.nodei.weight)) [
          | inl g ↦
              let sign : Closest.weight_cmp_cb t old new ≡ pos 1 = rw (e, f, g) in
              back sign (ground (arith, e), f, inl g)
          | inr g ↦
              let sign : Closest.weight_cmp_cb t old new
                  ≡ Token.metric_cmp (Token.dist new.nodei.id t) (Token.dist old.nodei.id t) =
                rw (e, f, g) in
              back sign (
                decide (Token.metric_cmp (Token.dist new.nodei.id t) (Token.dist old.nodei.id t))
                  (ground (arith, e)) f g (metric_lem new old h k))
        ]
      ]
    ]
      where
        back :
            {z : ℤ}
            → Closest.weight_cmp_cb t old new ≡ z
            → Decides z (Ahead new old)
            → Decides (Closest.weight_cmp_cb t old new) (Ahead new old)
        back sign d = subst (λ z. Decides z (Ahead new old)) (sym sign) d

        decide :
            (z : ℤ)
            → new.ntry_pings ≤ old.ntry_pings
            → Token.equal new.nodei.ver old.nodei.ver ≡ true
            → ltb_int old.nodei.weight new.nodei.weight ≡ false
            → Decides z (value (Token.dist new.nodei.id t) ≤ value (Token.dist old.nodei.id t))
            → Decides z (Ahead new old)
        decide (pos n) few one light d = (few, one, inr d)
        decide (negsuc n) few one light d =
            λ a. elim a.2 [ inl heavy ↦ cc (heavy, light) | inr near ↦ d near ]

    place-Placed :
        (new : Peer) (xs : List Peer)
        → HasId new
        → All HasId xs
        → Placed new xs (place (Closest.weight_cmp_cb t) new xs)
    place-Placed new [] h a = at_end
    place-Placed new (x ∷ xs) h a = elim (ℤ-cases (Closest.weight_cmp_cb t x new)) [
      | inl (n, c) ↦
          rw (c, place)
            (before x xs (subst (λ z. Decides z (Ahead new x)) c (cmp-Ahead new x h a.0)))
      | inr (n, c) ↦
          rw (c, place)
            (behind x xs (place (Closest.weight_cmp_cb t) new xs)
              (subst (λ z. Decides z (Ahead new x)) c (cmp-Ahead new x h a.0))
              (place-Placed new xs h a.1))
    ]

    pub ordered-Ordered :
        (ps acc : List Peer)
        → All HasId ps
        → All HasId acc
        → Ordered ps acc (ordered space t ps acc)
    ordered-Ordered [] acc a b = no_more acc
    ordered-Ordered (p ∷ ps) acc a b =
        next p ps acc (place (Closest.weight_cmp_cb t) p acc) (ordered space t ps _)
          (place-Placed p acc a.0 b)
          (ordered-Ordered ps (place (Closest.weight_cmp_cb t) p acc) a.1
            (All-place HasId t p acc a.0 b))
