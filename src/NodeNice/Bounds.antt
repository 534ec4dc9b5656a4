-- ===== src/NodeNice/Bounds.antt =====
-- vnode_nice.c: the range of the nice index.
use vdht.Base.{
  ℕ, ◌*◌, ◌≤◌, ◌≡◌, refl, ltb, Bool-cases, List, [], ◌∷◌, All, Option, none, some, inl, inr, arith,
  ltb→lt,
}
use native.Mathlib.Nat.{mul-le-mul_right}
use vdht.NodeNice
use vdht.NodeNice.{NodeNice, Status, Sample}

abbrev Rated : ℕ → ℕ → Status → Type 0
Rated c f s = (s.criteria ≡ c) × (s.factor ≡ f)

sampled-Rated :
    {c f : ℕ} (s : Status) (r : Option ℕ) → Rated c f s → Rated c f (NodeNice.sampled s r)
unfolding NodeNice.sampled
sampled-Rated s none h = h
sampled-Rated s (some r) h = h

-- The criteria and factors of vnode_nice_init, and a previous index that is in the range.
pub record IsRated (n : NodeNice) : Type 0 where
  pub cpu : Rated 8 7 n.cpu
  pub mem : Rated 8 6 n.mem
  pub io : Rated 4 3 n.io
  pub net_up : Rated 8 3 n.net_up
  pub net_down : Rated 5 2 n.net_down
  pub prev : n.prev_nice_val ≤ 21

init-IsRated : IsRated NodeNice.init
unfolding NodeNice.init
init-IsRated = record {
  cpu = (refl, refl);
  mem = (refl, refl);
  io = (refl, refl);
  net_up = (refl, refl);
  net_down = (refl, refl);
  prev = omega arith;
}

points_bound : (c f : ℕ) (s : Status) → c ≤ 10 → Rated c f s → NodeNice.points s ≤ 10 * f
unfolding NodeNice.points
points_bound c f s h (rc, rf) = elim (Bool-cases (ltb s.ratio s.criteria)) [
  | inl e ↦
      let below : s.ratio ≤ 10 = omega (arith, ltb→lt s.ratio s.criteria e, rc) in
      rw (e, rf) (mul-le-mul_right f below)
  | inr e ↦ rw (e, rf) (omega arith)
]

nice_of_bound : (n : NodeNice) → IsRated n → NodeNice.nice_of n ≤ 21
unfolding NodeNice.nice_of
nice_of_bound n h = omega (
  arith,
  points_bound 8 7 n.cpu (omega arith) h.cpu,
  points_bound 8 6 n.mem (omega arith) h.mem,
  points_bound 4 3 n.io (omega arith) h.io,
  points_bound 8 3 n.net_up (omega arith) h.net_up,
  points_bound 5 2 n.net_down (omega arith) h.net_down,
)

get_nice_bound :
    (n : NodeNice) (s : Sample)
    → IsRated n
    → IsRated (NodeNice.get_nice n s).0 × ((NodeNice.get_nice n s).1 ≤ 21)
unfolding NodeNice.get_nice NodeNice.take_samples
get_nice_bound n s h =
    let m = NodeNice.take_samples n s in
    let next : IsRated m = record {
      cpu = sampled-Rated n.cpu s.cpu h.cpu;
      mem = sampled-Rated n.mem s.mem h.mem;
      io = sampled-Rated n.io s.io h.io;
      net_up = sampled-Rated n.net_up (NodeNice.up s.net) h.net_up;
      net_down = sampled-Rated n.net_down (NodeNice.down s.net) h.net_down;
      prev = h.prev;
    } in
    elim (Bool-cases (NodeNice.any_failed s)) [
      | inl e ↦ rw e (next, h.prev)
      | inr e ↦ rw e (
        record {
          cpu = next.cpu;
          mem = next.mem;
          io = next.io;
          net_up = next.net_up;
          net_down = next.net_down;
          prev = nice_of_bound m next;
        },
        nice_of_bound m next,
      )
    ]

-- The results of get_nice for one sample after the other.
abbrev pub indices : NodeNice → List Sample → List ℕ
indices n [] = []
indices n (s ∷ ss) = (NodeNice.get_nice n s).1 ∷ indices (NodeNice.get_nice n s).0 ss

indices_within : (n : NodeNice) (ss : List Sample) → IsRated n → All (λ i. i ≤ 21) (indices n ss)
indices_within n [] h = tt
indices_within n (s ∷ ss) h =
    let (next, here) = get_nice_bound n s h in
    (here, indices_within (NodeNice.get_nice n s).0 ss next)

-- From vnode_nice_init on, whatever the samples are and whichever of them fail, every index that
-- get_nice gives is at most 21, the sum of the factors.
pub init-indices : (ss : List Sample) → All (λ i. i ≤ 21) (indices NodeNice.init ss)
init-indices ss = indices_within NodeNice.init ss init-IsRated
