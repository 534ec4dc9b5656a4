-- ===== src/NodeSpace/Added.antt =====
-- vroute_node.c, add_node: the bucket of a node keeps the routing invariant.
use vdht.Base.{
  ℕ, ◌<◌, ◌≡◌, ap, sym, ◌∙◌, ltb, true, false, [], ◌∷◌, ◌++◌, length, length-append, some, arith,
  All, All-append, All-split, IsSorted, ok, inl, inr, Bool-cases,
}
use mathlib.Core.Path.{subst}
use vdht.NodeInfo
use vdht.NodeInfo.{NodeInfo, NodeConn}
use vdht.NodeInfo.Copy.{IsSource}
use vdht.NodeSpace
use vdht.NodeSpace.{NodeSpace, PeerBucket}
use vdht.NodeSpace.Add.{add_to_known, add_to_room, add_to_crowded}
use vdht.Peer.{AddBy}
use vdht.Token
use vdht.Token.{Token}
use vdht.Token.Metric.{equal_iff}
use vdht.NodeSpace.Routed.{
  IsHome, At, records, ids, records-append, length-records, replaced-IsHome, split-same,
  unique-snoc, records_of_map,
}

-- What add_node does to the bucket of a node, whichever branch it takes.
module _ (space : NodeSpace) (nodei : NodeInfo) (flag : AddBy) (now : ℕ)
    (source : IsSource nodei.addrs) (some_addr : 0 < length nodei.addrs)
    (size : length nodei.id ≡ 20) (real : NodeInfo.is_fake nodei ≡ false) where
  abbrev place : ℕ
  place = Token.bucket space.myid nodei.id

  pub added-IsHome :
      {b : PeerBucket}
      → IsHome space.myid space.bucket_sz place b
      → (c : PeerBucket) × (NodeSpace.add_to true true space b nodei flag now ≡ ok (some c))
        × IsHome space.myid space.bucket_sz place c
  added-IsHome {b} h = elim (split-same nodei.id h.xs) [
    | inr (pre, x, post, e, others, same) ↦
        let old : All (At space.myid place) (records pre ++ x.nodei ∷ records post) =
          rw (e, records-append pre (x ∷ post)) at h.homes in
        let (_, (at, _)) =
          All-split (At space.myid place) (records pre) (x.nodei ∷ records post) old in
        let one = (equal_iff x.nodei.id nodei.id (at.0 ∙ sym size)).0 same in
        let (c, y, run, held, tells, _) =
          add_to_known space b nodei flag now source some_addr pre post x (rw e at h.held) others
            same one at.2 real in
        (c, run, replaced-IsHome h pre post x y c e (tells.id ∙ sym one) tells.valid held)
    | inl others ↦ elim (Bool-cases (ltb (length h.xs) space.bucket_sz)) [
      | inl room ↦
          let (w, y, run, held, tells, _, _) =
            add_to_room space b nodei flag now source some_addr h.held others (ground arith) in
          (
            record { peers = w; ts = now },
            run,
            record {
              xs = h.xs ++ y ∷ [];
              held = held;
              bounded = ground (arith, length-append h.xs (y ∷ []));
              homes = rw (records-append h.xs (y ∷ [])) (
                  All-append (At space.myid place) (records h.xs) (y.nodei ∷ []) h.homes (
                    (ap length tells.id ∙ size, ap (Token.bucket space.myid) tells.id, tells.valid),
                    tt,
                  ));
              unique = unique-snoc h.xs y h.unique (rw tells.id others);
            },
          )
      | inr full ↦
          let (w, ys, run, held, kept) =
            add_to_crowded space b nodei flag now h.held others (ground arith) in
          let one = records_of_map h.xs ys kept in
          (
            record { peers = w; ts = b.ts },
            run,
            record {
              xs = ys;
              held = held;
              bounded =
                  omega (arith, h.bounded, ap length one, length-records h.xs, length-records ys);
              homes = subst (λ t. All (At space.myid place) t) one h.homes;
              unique = subst (λ t. IsSorted (λ a b. Token.equal a b ≡ false) (ids t)) one h.unique;
            },
          )
    ]
  ]
