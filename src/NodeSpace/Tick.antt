-- ===== src/NodeSpace/Tick.antt =====
-- vroute_node.c: tick on a routed table.
use vdht.Base.{
  ℕ, zero, suc, ◌+◌, ◌%◌, ◌<◌, ◌≡◌, refl, ap, sym, ◌∙◌, ◌==◌, ltb, false, List, [], ◌∷◌, ◌++◌, map,
  length, length-map, get_elem?, some, arith, inl, inr, Bool-cases, All, IsSorted, ok, ◌>>=◌,
}
use mathlib.Core.Path.{subst}
use native.Mathlib.Nat.{mod-lt}
use vdht.NodeSpace
use vdht.NodeSpace.{NodeSpace, PeerBucket}
use vdht.NodeSpace.Routed.{IsHome, IsRouted, At, records, ids}
use vdht.Peer
use vdht.Peer.{Peer, Limits, Query, find_closest_nodes}
use vdht.Peer.Ping.{ticked, pings, iterate-ticked}
use vdht.Token
use vdht.Token.{Token}
use vdht.Varray.{Varray}
use vdht.Varray.Holds.{Holds, fresh, stored}
use vdht.Varray.Ends.{load-map}

get_elem?-below :
    {A : Type 0} (xs : List A) (i : ℕ) → i < length xs → (x : A) × (get_elem? xs i ≡ some x)
get_elem?-below [] i h = absurd (omega arith)
get_elem?-below (x ∷ xs) zero h = (x, refl)
get_elem?-below (x ∷ xs) (suc i) h = get_elem?-below xs i (omega arith)

-- varray_get_rand of an array that is not empty reads one of its items.
get_rand_lem :
    (rand : ℕ) {v : Varray Peer} {xs : List Peer}
    → Holds v xs
    → (v.used == 0) ≡ false
    → (x : Peer) × (NodeSpace.get_rand rand v ≡ ok (some x))
unfolding NodeSpace.get_rand
get_rand_lem rand (fresh first p) e = absurd (ground arith)
get_rand_lem rand (stored [] junk first p) e = absurd (ground arith)
get_rand_lem rand (stored (y ∷ xs) junk first p) e =
    let i = rand % suc (length xs) in
    let below : i < suc (length xs) = mod-lt rand (omega arith) in
    let (x, at) = get_elem?-below (y ∷ xs) i below in (x, load-map (y ∷ xs) junk i below ∙ ap ok at)

module _ (space : NodeSpace) (rand now later : ℕ) where
  -- A refresh leaves the peers alone.
  refresh_lem :
      (b : PeerBucket) {xs : List Peer} (log : List Query)
      → Holds b.peers xs
      → (c : PeerBucket) × (more : List Query) × (NodeSpace.refresh space rand now later b log
          ≡ ok (c, more))
        × (c.peers ≡ b.peers)
  unfolding NodeSpace.refresh NodeSpace.refresh_from
  refresh_lem b log h = elim (Bool-cases (b.peers.used == 0)) [
    | inl e ↦ (b, log, rw e, refl)
    | inr e ↦ elim (Bool-cases (ltb now (b.ts + space.limits.max_next_tmo))) [
      | inl f ↦ (b, log, rw (e, f), refl)
      | inr f ↦
          let (x, read) = get_rand_lem rand h e in
          elim (Bool-cases (Peer.unfit space.limits x)) [
            | inl g ↦ (b, log, rw (e, f, read, ◌>>=◌, g), refl)
            | inr g ↦ (
              record b { ts = later },
              log ++ find_closest_nodes x.conn space.myid ∷ [],
              rw (e, f, read, ◌>>=◌, g),
              refl,
            )
          ]
    ]
  ]

records-ticked :
    (limits : Limits) (now later : ℕ) (xs : List Peer)
    → records xs ≡ records (map (ticked limits now later) xs)
unfolding Peer.pinged
records-ticked limits now later [] = refl
records-ticked limits now later (x ∷ xs) = elim (Bool-cases (Peer.is_due limits now x)) [
  | inl e ↦ rw e (ap (λ t. x.nodei ∷ t) (records-ticked limits now later xs))
  | inr e ↦ rw e (ap (λ t. x.nodei ∷ t) (records-ticked limits now later xs))
]

-- The buckets from index `j` on are at home.
abbrev Homes : Token → ℕ → ℕ → List PeerBucket → Type 0
Homes myid sz j [] = Unit
Homes myid sz j (b ∷ bs) = IsHome myid sz j b × Homes myid sz (suc j) bs

Homes-of_home :
    (myid : Token) (sz j : ℕ) (bs : List PeerBucket)
    → ((k : ℕ) (b : PeerBucket) → get_elem? bs k ≡ some b → IsHome myid sz (j + k) b)
    → Homes myid sz j bs
Homes-of_home myid sz j [] f = tt
Homes-of_home myid sz j (b ∷ bs) f =
    let here : j + 0 ≡ j = omega arith in
    (
      subst (λ t. IsHome myid sz t b) here (f 0 b refl),
      Homes-of_home myid sz (suc j) bs (λ k c at.
          let next : j + suc k ≡ suc j + k = omega arith in
          subst (λ t. IsHome myid sz t c) next (f (suc k) c at)),
    )

IsHome-of_Homes :
    (myid : Token) (sz j : ℕ) (bs : List PeerBucket)
    → Homes myid sz j bs
    → (k : ℕ) (b : PeerBucket) → get_elem? bs k ≡ some b
    → IsHome myid sz (j + k) b
IsHome-of_Homes myid sz j [] h k b at = cc
IsHome-of_Homes myid sz j (c ∷ bs) h zero b at =
    let here : j ≡ j + 0 = omega arith in
    let same : c ≡ b = cc in
    subst (λ t. IsHome myid sz t b) here (subst (λ d. IsHome myid sz j d) same h.0)
IsHome-of_Homes myid sz j (c ∷ bs) h (suc k) b at =
    let next : suc j + k ≡ j + suc k = omega arith in
    subst (λ t. IsHome myid sz t b) next (IsHome-of_Homes myid sz (suc j) bs h.1 k b at)

module _ (space : NodeSpace) (rand : ℕ → ℕ) (now later : ℕ) where
  -- A bucket with its peers ticked is at home where it was.
  ticked-IsHome :
      {j : ℕ} {b : PeerBucket} (h : IsHome space.myid space.bucket_sz j b) (c : PeerBucket)
      → Holds c.peers (map (ticked space.limits now later) h.xs)
      → IsHome space.myid space.bucket_sz j c
  ticked-IsHome {j} h c held =
      let one = records-ticked space.limits now later h.xs in
      record {
        xs = map (ticked space.limits now later) h.xs;
        held = held;
        bounded = omega (arith, h.bounded, length-map (ticked space.limits now later) h.xs);
        homes = subst (λ t. All (At space.myid j) t) one h.homes;
        unique = subst (λ t. IsSorted (λ a b. Token.equal a b ≡ false) (ids t)) one h.unique;
      }

  tick_from-Homes :
      (j i : ℕ) (bs : List PeerBucket) (log : List Query)
      → Homes space.myid space.bucket_sz j bs
      → (cs : List PeerBucket) × (more : List Query) × (NodeSpace.tick_from space rand now later i
            bs log
          ≡ ok (cs, more))
        × Homes space.myid space.bucket_sz j cs
        × (length cs ≡ length bs)
  unfolding NodeSpace.tick_from
  tick_from-Homes j i [] log h = ([], log, refl, tt, refl)
  tick_from-Homes j i (b ∷ bs) log (h, hs) =
      let (w, ping, held) = iterate-ticked space.limits now later log h.held in
      let (c, mid, renew, kept) =
        refresh_lem space (rand i) now later (record b { peers = w })
          (log ++ pings space.limits now later h.xs) held in
      let (cs, more, rest, homes, size) = tick_from-Homes (suc j) (i + 1) bs mid hs in
      (
        c ∷ cs,
        more,
        rw (ping, ◌>>=◌, renew, NodeSpace.tick_from, rest),
        (
          ticked-IsHome h c
              (subst (λ v. Holds v (map (ticked space.limits now later) h.xs)) (sym kept) held),
          homes,
        ),
        ap suc size,
      )

  pub tick-IsRouted :
      IsRouted space
      → (next : NodeSpace) × (log : List Query) × (NodeSpace.tick space rand now later
          ≡ ok (next, log))
        × IsRouted next
  unfolding NodeSpace.tick
  tick-IsRouted r =
      let homes = Homes-of_home space.myid space.bucket_sz 0 space.buckets (λ k b at.
        let start : k ≡ 0 + k = omega arith in
        subst (λ t. IsHome space.myid space.bucket_sz t b) start (r.home k b at)) in
      let (cs, more, run, after, size) = tick_from-Homes 0 0 space.buckets [] homes in
      (
        record space { buckets = cs },
        more,
        rw run,
        record {
          own = r.own;
          count = size ∙ r.count;
          home = λ k b at.
              let start : 0 + k ≡ k = omega arith in
              subst (λ t. IsHome space.myid space.bucket_sz t b) start
                (IsHome-of_Homes space.myid space.bucket_sz 0 cs after k b at);
        },
      )
