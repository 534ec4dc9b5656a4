-- ===== src/NodeSpace/Routed.antt =====
-- vroute_node.c: the routing invariant of the table, and the operations that keep it.
use vdht.Base.{
  ℕ, zero, suc, ◌+◌, ◌-◌, ◌<◌, ◌≤◌, ◌≡◌, ◌⊎◌, refl, ap, sym, ◌∙◌, ◌==◌, true, false, List, [], ◌∷◌,
  ◌++◌, map, length, length-append, get_elem?, replicate, some, arith, All, All-append, All-split,
  IsSorted, inl, inr, Bool-cases, bit_and, get_or, ◌/◌, ◌%◌, ◌^◌,
}
use mathlib.Core.Path.{subst}
use vdht.Addrs.{SockAddr}
use vdht.NodeInfo.{NodeInfo}
use vdht.NodeInfo.Copy.{copy_token}
use vdht.NodeInfo.Insert.{IsValid}
use vdht.NodeSpace
use vdht.NodeSpace.{NodeSpace, PeerBucket}
use vdht.Peer.{Peer}
use vdht.Token
use vdht.Token.{Token}
use vdht.Varray.Holds.{Holds, init-Holds}

abbrev pub records : List Peer → List NodeInfo
records [] = []
records (x ∷ xs) = x.nodei ∷ records xs

abbrev pub ids : List NodeInfo → List Token
ids [] = []
ids (n ∷ ns) = n.id ∷ ids ns

pub records-append : (xs ys : List Peer) → records (xs ++ ys) ≡ records xs ++ records ys
records-append [] ys = refl
records-append (x ∷ xs) ys = ap (λ t. x.nodei ∷ t) (records-append xs ys)

ids-append : (ns ms : List NodeInfo) → ids (ns ++ ms) ≡ ids ns ++ ids ms
ids-append [] ms = refl
ids-append (n ∷ ns) ms = ap (λ t. n.id ∷ t) (ids-append ns ms)

pub length-records : (xs : List Peer) → length (records xs) ≡ length xs
length-records [] = refl
length-records (x ∷ xs) = ap suc (length-records xs)

abbrev pub At : Token → ℕ → NodeInfo → Type 0
At myid j n = (length n.id ≡ 20) × (Token.bucket myid n.id ≡ j) × IsValid n

-- A bucket holds valid peers, at most the configured number, of IDs of twenty bytes that belong
-- to it, each once.
pub record IsHome (myid : Token) (sz j : ℕ) (b : PeerBucket) : Type 0 where
  pub xs : List Peer
  pub held : Holds b.peers xs
  pub bounded : length xs ≤ sz
  pub homes : All (At myid j) (records xs)
  pub unique : IsSorted (λ a b. Token.equal a b ≡ false) (ids (records xs))

pub record IsRouted (space : NodeSpace) : Type 0 where
  pub own : length space.myid ≡ 20
  pub count : length space.buckets ≡ 160
  pub home :
      (j : ℕ) (b : PeerBucket)
      → get_elem? space.buckets j ≡ some b
      → IsHome space.myid space.bucket_sz j b

distance_from_bound : (n i : ℕ) (m : Token) → Token.distance_from n i m < 160
unfolding Token.distance_from
distance_from_bound zero i m = omega arith
distance_from_bound (suc n) i m =
    elim (Bool-cases (bit_and (2 ^ (7 - i % 8)) (get_or m (i / 8) 0) == 0)) [
      | inl e ↦ rw e (distance_from_bound n (i + 1) m)
      | inr e ↦ rw e (omega arith)
    ]

pub bucket_bound : (a b : Token) → Token.bucket a b < 160
unfolding Token.bucket Token.distance
bucket_bound a b = distance_from_bound 160 0 (Token.dist a b)

pub get_elem?-some :
    (bs : List PeerBucket) (i : ℕ) → i < length bs → (b : PeerBucket) × (get_elem? bs i ≡ some b)
get_elem?-some [] i h = absurd (omega arith)
get_elem?-some (x ∷ bs) zero h = (x, refl)
get_elem?-some (x ∷ bs) (suc i) h = get_elem?-some bs i (omega arith)

get_elem?-replicate : (n j : ℕ) (a b : PeerBucket) → get_elem? (replicate n a) j ≡ some b → a ≡ b
get_elem?-replicate zero j a b e = cc
get_elem?-replicate (suc n) zero a b e = cc
get_elem?-replicate (suc n) (suc j) a b e = get_elem?-replicate n j a b e

copy-length : (t : Token) → length (Token.copy t) ≡ length t
copy-length t = ap length (copy_token t)

-- The empty table is routed.
pub init-IsRouted :
    (zaddr : SockAddr) (bucket_sz max_next_tmo : ℕ) (myver myid : Token)
    → length myid ≡ 20
    → IsRouted (NodeSpace.init zaddr bucket_sz max_next_tmo myver myid)
unfolding NodeSpace.init
init-IsRouted zaddr bucket_sz max_next_tmo myver myid e = record {
  own = copy-length myid ∙ e;
  count = refl;
  home = λ j b at. record {
    xs = [];
    held =
        subst (λ (c : PeerBucket). Holds c.peers []) (get_elem?-replicate 160 j _ b at)
          (init-Holds 8);
    bounded = omega arith;
    homes = tt;
    unique = tt;
  };
}

-- A peer that is put in the place of another one of its ID.
pub replaced-IsHome :
    {myid : Token} {sz j : ℕ} {b : PeerBucket} (h : IsHome myid sz j b) (pre post : List Peer)
    (x y : Peer) (c : PeerBucket)
    → h.xs ≡ pre ++ x ∷ post
    → y.nodei.id ≡ x.nodei.id
    → IsValid y.nodei
    → Holds c.peers (pre ++ y ∷ post)
    → IsHome myid sz j c
replaced-IsHome {myid} {sz} {j} h pre post x y c e same valid held =
    let old : All (At myid j) (records pre ++ x.nodei ∷ records post) =
      rw (e, records-append pre (x ∷ post)) at h.homes in
    let (front, (at, back)) = All-split (At myid j) (records pre) (x.nodei ∷ records post) old in
    let one : ids (records h.xs) ≡ ids (records (pre ++ y ∷ post)) = rw (
      e,
      records-append pre (x ∷ post),
      records-append pre (y ∷ post),
      ids-append (records pre) (x.nodei ∷ records post),
      ids-append (records pre) (y.nodei ∷ records post),
      same,
    ) in
    record {
      xs = pre ++ y ∷ post;
      held = held;
      bounded = omega (
        arith,
        h.bounded,
        ap length e,
        length-append pre (x ∷ post),
        length-append pre (y ∷ post),
      );
      homes = rw (records-append pre (y ∷ post)) (
          All-append (At myid j) (records pre) (y.nodei ∷ records post) front
            ((ap length same ∙ at.0, ap (Token.bucket myid) same ∙ at.1, valid), back));
      unique = subst (λ t. IsSorted (λ a b. Token.equal a b ≡ false) t) one h.unique;
    }

-- The buckets of a table hold the node among others, or not.
pub split-same :
    (id : Token) (xs : List Peer)
    → (All (λ (x : Peer). Token.equal x.nodei.id id ≡ false) xs)
      ⊎ ((pre : List Peer) × (x : Peer) × (post : List Peer) × (xs ≡ pre ++ x ∷ post)
          × (All (λ (y : Peer). Token.equal y.nodei.id id ≡ false) pre)
          × (Token.equal x.nodei.id id ≡ true))
split-same id [] = inl tt
split-same id (y ∷ xs) = elim (Bool-cases (Token.equal y.nodei.id id)) [
  | inl e ↦ inr ([], y, xs, refl, tt, e)
  | inr e ↦ elim (split-same id xs) [
    | inl others ↦ inl (e, others)
    | inr (pre, x, post, split, others, same) ↦
        inr (y ∷ pre, x, post, ap (λ t. y ∷ t) split, (e, others), same)
  ]
]

pub unique-snoc :
    (xs : List Peer) (y : Peer)
    → IsSorted (λ a b. Token.equal a b ≡ false) (ids (records xs))
    → All (λ (x : Peer). Token.equal x.nodei.id y.nodei.id ≡ false) xs
    → IsSorted (λ a b. Token.equal a b ≡ false) (ids (records (xs ++ y ∷ [])))
unique-snoc [] y u others = (tt, tt)
unique-snoc (x ∷ xs) y u others = (last xs u.0, unique-snoc xs y u.1 others.1)
  where
    last :
        (zs : List Peer)
        → All (λ b. Token.equal x.nodei.id b ≡ false) (ids (records zs))
        → All (λ b. Token.equal x.nodei.id b ≡ false) (ids (records (zs ++ y ∷ [])))
    last [] a = (others.0, tt)
    last (z ∷ zs) a = (a.0, last zs a.1)

pub records_of_map :
    (xs ys : List Peer)
    → map (λ (x : Peer). x.nodei) ys ≡ map (λ (x : Peer). x.nodei) xs
    → records xs ≡ records ys
records_of_map xs ys e = sym (to ys ∙ e ∙ sym (to xs))
  where
    to : (zs : List Peer) → records zs ≡ map (λ (x : Peer). x.nodei) zs
    to [] = refl
    to (z ∷ zs) = ap (λ t. z.nodei ∷ t) (to zs)
