-- ===== src/NodeSpace/Keeps.antt =====
-- vroute_node.c: add_node, kick_node and adjust_connectivity on a routed table.
use vdht.Base.{
  All-split, increment, ℤ, ℕ, ◌<◌, ◌≡◌, ◌≢◌, refl, ap, sym, ◌∙◌, ◌==◌, Bool, true, false, List, ◌∷◌,
  ◌++◌, length, get_elem?, some, arith, All, ok, inl, inr, Bool-cases, ◌>>=◌, ==_iff,
}
use mathlib.Core.Path.{subst}
use vdht.NodeInfo
use vdht.NodeInfo.{NodeInfo, NodeConn}
use vdht.NodeInfo.Copy.{IsSource}
use vdht.NodeSpace
use vdht.NodeSpace.{NodeSpace, PeerBucket}
use vdht.NodeSpace.Find.{
  Changed, with_bucket-Changed, bucket_of_lem, kick_node_known, adjust_connectivity_known,
  lookup_absent,
}
use vdht.NodeSpace.Added.{added-IsHome}
use vdht.NodeInfo.Insert.{IsValid}
use vdht.NodeSpace.Routed.{
  IsHome, IsRouted, At, records, bucket_bound, get_elem?-some, replaced-IsHome, split-same,
  records-append,
}
use vdht.Peer.{Peer, AddBy}
use vdht.Token
use vdht.Token.{Token}

-- A table with one bucket replaced by another one at home there is routed.
replaced-IsRouted :
    {space next : NodeSpace} (id : Token) (c : PeerBucket)
    → IsRouted space
    → Changed space next (Token.bucket space.myid id) c
    → IsHome space.myid space.bucket_sz (Token.bucket space.myid id) c
    → IsRouted next
replaced-IsRouted {space} {next} id c r changed h = record {
  own = ap length changed.myid ∙ r.own;
  count = changed.count ∙ r.count;
  home = λ j b at. elim (Bool-cases (Token.bucket space.myid id == j)) [
    | inl e ↦
        let one : Token.bucket space.myid id ≡ j = (==_iff _ _).0 e in
        let hit = subst (λ t. get_elem? next.buckets t ≡ some c) one changed.here in
        let same : some c ≡ some b = sym hit ∙ at in
        let whole : c ≡ b = cc in
        rw (changed.myid, changed.bucket_sz)
          (subst (λ t. IsHome space.myid space.bucket_sz j t) whole
            (subst (λ t. IsHome space.myid space.bucket_sz t c) one h))
    | inr e ↦
        let apart : Token.bucket space.myid id ≢ j = λ one. ground (arith, one, e) in
        rw (changed.myid, changed.bucket_sz) (r.home j b (sym (changed.elsewhere j apart) ∙ at))
  ];
}

IsValid-at :
    {myid : Token} {sz j : ℕ} {b : PeerBucket} (h : IsHome myid sz j b) (pre post : List Peer)
    (x : Peer)
    → h.xs ≡ pre ++ x ∷ post
    → IsValid x.nodei
IsValid-at {myid} {sz} {j} h pre post x e =
    let old : All (At myid j) (records pre ++ x.nodei ∷ records post) =
      rw (e, records-append pre (x ∷ post)) at h.homes in
    (All-split (At myid j) (records pre) (x.nodei ∷ records post) old).1.0.2

home_of :
    (space : NodeSpace) (id : Token)
    → IsRouted space
    → (b : PeerBucket) × (get_elem? space.buckets (Token.bucket space.myid id) ≡ some b)
home_of space id r =
    get_elem?-some space.buckets (Token.bucket space.myid id)
      (omega (arith, r.count, bucket_bound space.myid id))

weighed_lem :
    (space : NodeSpace) (nodei : NodeInfo)
    → (w : ℤ) × (NodeSpace.weighed space nodei ≡ record nodei { weight = w })
unfolding NodeSpace.weighed
weighed_lem space nodei = elim (Bool-cases (Token.equal space.myver nodei.ver)) [
  | inl e ↦ (increment nodei.weight, rw e)
  | inr e ↦ (nodei.weight, rw e)
]

-- On a routed table and with memory, add_node of a node that is not fake, with an ID of twenty
-- bytes and between one and twelve distinct addresses in the order of their kinds, returns, and
-- leaves a routed table.
pub add_node-IsRouted :
    (space : NodeSpace) (nodei : NodeInfo) (flag : AddBy) (now : ℕ)
    → IsRouted space
    → IsSource nodei.addrs
    → 0 < length nodei.addrs
    → length nodei.id ≡ 20
    → NodeInfo.is_fake nodei ≡ false
    → (next : NodeSpace) × (NodeSpace.add_node true true space nodei flag now ≡ ok (some next))
      × IsRouted next
unfolding NodeSpace.add_node NodeInfo.is_fake
add_node-IsRouted space nodei flag now r source some_addr size real =
    let (w, heavy) = weighed_lem space nodei in
    let (b, at) = home_of space nodei.id r in
    let (c, run, home) =
      added-IsHome space (record nodei { weight = w }) flag now source some_addr size real
        (r.home (Token.bucket space.myid nodei.id) b at) in
    elim (Bool-cases (Token.equal space.myid nodei.id)) [
      | inl e ↦ (space, rw e, r)
      | inr e ↦ (
        NodeSpace.with_bucket space nodei.id c,
        rw (e, bucket_of_lem space nodei.id at, ◌>>=◌, heavy, run),
        replaced-IsRouted nodei.id c r (with_bucket-Changed space nodei.id at c) home,
      )
    ]

module _ (space : NodeSpace) (id : Token) (r : IsRouted space) where
  -- On a routed table, kick_node of any ID returns and leaves a routed table.
  pub kick_node-IsRouted :
      (now : ℕ)
      → (next : NodeSpace) × (found : Bool) × (NodeSpace.kick_node space id now ≡ ok (next, found))
        × IsRouted next
  unfolding NodeSpace.kicked
  kick_node-IsRouted now =
      let (b, at) = home_of space id r in
      let h = r.home (Token.bucket space.myid id) b at in
      elim (split-same id h.xs) [
        | inl others ↦ (space, false, (lookup_absent space id at h.xs h.held others).0 now, r)
        | inr (pre, x, post, e, others, same) ↦
            let (next, w, run, changed, held) =
              kick_node_known space id at pre post x (rw e at h.held) others same now in
            let valid = (IsValid-at h pre post x e) in
            (
              next,
              true,
              run,
              replaced-IsRouted id (record b { peers = w }) r changed
                  (replaced-IsHome h pre post x (NodeSpace.kicked space.limits now x)
                    (record b { peers = w }) e refl valid held),
            )
      ]

  pub adjust_connectivity-IsRouted :
      (conn : NodeConn)
      → (next : NodeSpace) × (NodeSpace.adjust_connectivity space id conn ≡ ok next) × IsRouted next
  adjust_connectivity-IsRouted conn =
      let (b, at) = home_of space id r in
      let h = r.home (Token.bucket space.myid id) b at in
      elim (split-same id h.xs) [
        | inl others ↦ (space, (lookup_absent space id at h.xs h.held others).2 conn, r)
        | inr (pre, x, post, e, others, same) ↦
            let (next, w, run, changed, held) =
              adjust_connectivity_known space id at pre post x (rw e at h.held) others same conn in
            let valid = (IsValid-at h pre post x e) in
            (
              next,
              run,
              replaced-IsRouted id (record b { peers = w }) r changed
                  (replaced-IsHome h pre post x
                    (record x { conn = NodeInfo.conn_adjust x.conn conn }) (record b { peers = w })
                    e refl valid held),
            )
      ]
