-- ===== src/NodeSpace/Add.antt =====
-- vroute_node.c, add_node: the branches behind the search, on one bucket.
use vdht.Base.{
  ℕ, ◌+◌, ◌<◌, ◌≤◌, ◌≡◌, refl, ap, ◌∙◌, ltb, leb, Bool, true, false, ◌&&◌, if◌then◌else◌, List, [],
  ◌∷◌, ◌++◌, map, map-append, length, Option, none, some, arith, All, ok, inl, inr, lt→ltb, le→leb,
  leb-false, ltb-false, ◌>>=◌, Run,
}
use vdht.NodeInfo
use vdht.NodeInfo.{NodeInfo}
use vdht.NodeInfo.Copy.{IsSource}
use vdht.NodeInfo.Insert.{IsValid}
use vdht.NodeSpace
use vdht.NodeSpace.{NodeSpace, PeerBucket, start}
use vdht.NodeSpace.Slot.{update_at-Holds}
use vdht.Peer
use vdht.Peer.{Peer, AddBy, Search, blank}
use vdht.Peer.Merged.{Tells, peer_update-other, peer_update-Tells, peer_init-Tells}
use vdht.Peer.Worst.{Other, visit, visit_kept, visit_found, visit-absent}
use vdht.Token
use vdht.Varray.{Varray}
use vdht.Varray.Holds.{Holds, size-Holds}
use vdht.Varray.Ends.{add_tail-Holds}
use vdht.Varray.Walk.{iterate-Holds}

and_false : (b : Bool) → (b && false) ≡ false
and_false true = refl
and_false false = refl

zero_add : (n : ℕ) → 0 + n ≡ n
zero_add n = omega arith

All-at : (P : Peer → Type 0) (pre post : List Peer) (x : Peer) → All P (pre ++ x ∷ post) → P x
All-at P [] post x a = a.0
All-at P (y ∷ pre) post x a = All-at P pre post x a.1

module _ (space : NodeSpace) (b : PeerBucket) (nodei : NodeInfo) (flag : AddBy) (now : ℕ) where
  abbrev result_of : List Peer → Search
  result_of xs = (visit nodei xs (start nodei)).1

  -- What becomes of the bucket behind the branches.
  abbrev finish : Run (Option (Varray Peer × Bool)) → Run (Option PeerBucket)
  finish m = m >>= λ q. elim q [
    | none ↦ ok none
    | some s ↦ ok (some (record { peers = s.0; ts = if s.1 then now else b.ts }))
  ]

  -- After the search the bucket holds what it held.
  searched :
      {xs : List Peer}
      → Holds b.peers xs
      → (v : Varray Peer) × (NodeSpace.add_to true true space b nodei flag now
          ≡ finish (NodeSpace.place true true space v (result_of xs) nodei flag now))
        × Holds v xs
  unfolding NodeSpace.add_to
  searched {xs} h =
      let (v, run, held) = iterate-Holds (Peer.find_worst_cb nodei) (start nodei) h in
      (v, rw run, rw (visit_kept nodei xs (start nodei)) at held)

  module _ (source : IsSource nodei.addrs) (some_addr : 0 < length nodei.addrs) where
    -- With memory, add_to of a node that is not fake, with between one and twelve distinct
    -- addresses in order, whose ID a valid peer of the bucket has and none before it, makes that
    -- peer say what the node says, sets its counters to those of `answered`, and changes no other
    -- peer.
    pub add_to_known :
        (pre post : List Peer) (x : Peer)
        → Holds b.peers (pre ++ x ∷ post)
        → All (Other nodei) pre
        → Token.equal x.nodei.id nodei.id ≡ true
        → x.nodei.id ≡ nodei.id
        → IsValid x.nodei
        → NodeInfo.is_fake nodei ≡ false
        → (c : PeerBucket) × (y : Peer) × (NodeSpace.add_to true true space b nodei flag now
            ≡ ok (some c))
          × Holds c.peers (pre ++ y ∷ post)
          × Tells y.nodei nodei
          × ((y.tick_ts ≡ (Peer.answered space.limits x flag now).tick_ts)
              × (y.next_tmo ≡ (Peer.answered space.limits x flag now).next_tmo)
              × (y.ntry_pings ≡ (Peer.answered space.limits x flag now).ntry_pings))
    add_to_known pre post x h others e one valid real =
        let (v, run, held) = searched h in
        let (want, found) = visit_found nodei pre post x (start nodei) others e in
        let (y, updated, made, tells, counters) =
          peer_update-Tells space.limits nodei now x flag valid source some_addr one e real in
        let (w, put, t) =
          update_at-Holds true space.limits nodei flag now pre post x y (some updated) held refl
            made in
        let branch : NodeSpace.place true true space v (result_of (pre ++ x ∷ post)) nodei flag now
            ≡ ok (some (w, updated)) =
          unfold NodeSpace.place in
          rw (found, want ∙ ap some (zero_add (length pre)), put, ◌>>=◌) in
        (
          record { peers = w; ts = if updated then now else b.ts },
          y,
          run ∙ ap finish branch,
          t,
          tells,
          counters,
        )

    -- When both allocations succeed, add_to of a node with between one and twelve distinct
    -- addresses in order, to a bucket below its size that does not hold it, appends a peer that
    -- says what the node says, with the time, the first delay and no pings, and sets the time of
    -- the bucket.
    pub add_to_room :
        {xs : List Peer}
        → Holds b.peers xs
        → All (Other nodei) xs
        → length xs < space.bucket_sz
        → (w : Varray Peer) × (y : Peer) × (NodeSpace.add_to true true space b nodei flag now
            ≡ ok (some (record { peers = w; ts = now })))
          × Holds w (xs ++ y ∷ [])
          × Tells y.nodei nodei
          × (y.nodei.addrs ≡ nodei.addrs)
          × ((y.tick_ts ≡ now) × (y.next_tmo ≡ space.limits.init_next_tmo) × (y.ntry_pings ≡ 0))
    add_to_room {xs} h others room =
        let (v, run, held) = searched h in
        let (found, _) = visit-absent nodei xs (start nodei) others in
        let used = size-Holds held in
        let not_full : leb space.bucket_sz v.used ≡ false = leb-false _ _ (omega arith) in
        let below : ltb v.used space.bucket_sz ≡ true = lt→ltb _ _ (omega arith) in
        let (y, made, tells, addrs, counters) =
          peer_init-Tells space.limits nodei now source some_addr in
        let (w, put, t) = add_tail-Holds y held in
        let branch : NodeSpace.place true true space v (result_of xs) nodei flag now
            ≡ ok (some (w, true)) =
          unfold NodeSpace.place in
          rw (found, not_full, below, made, put)
            (rw (and_false (NodeSpace.is_some (result_of xs).want))) in
        (w, y, run ∙ ap finish branch, t, tells, addrs, counters)

  -- On a bucket of at least its size that does not hold the node, add_node keeps all records of
  -- the bucket in their order and its time, and so never takes the node in, whatever peer the
  -- search has chosen to be replaced.
  pub add_to_crowded :
      {xs : List Peer}
      → Holds b.peers xs
      → All (Other nodei) xs
      → space.bucket_sz ≤ length xs
      → (w : Varray Peer) × (ys : List Peer) × (NodeSpace.add_to true true space b nodei flag now
          ≡ ok (some (record { peers = w; ts = b.ts })))
        × Holds w ys
        × (map (λ (x : Peer). x.nodei) ys ≡ map (λ (x : Peer). x.nodei) xs)
  add_to_crowded {xs} h others full =
      let (v, run, held) = searched h in
      let (found, want) = visit-absent nodei xs (start nodei) others in
      let used = size-Holds held in
      let is_full : leb space.bucket_sz v.used ≡ true = le→leb _ _ (omega arith) in
      let not_below : ltb v.used space.bucket_sz ≡ false = ltb-false _ _ (omega arith) in
      elim want [
        | inl nothing ↦
            let discarded : NodeSpace.place true true space v (result_of xs) nodei flag now
                ≡ ok (some (v, false)) =
              unfold NodeSpace.place in rw (found, nothing, not_below) in
            (v, xs, run ∙ ap finish discarded, held, refl)
        | inr (pre, x, post, e, at) ↦
            let (y, made, kept) =
              peer_update-other space.limits nodei now true x flag
                (All-at (Other nodei) pre post x (rw e at others)) in
            let (w, put, t) =
              update_at-Holds true space.limits nodei flag now pre post x y (some false) held e
                made in
            let branch : NodeSpace.place true true space v (result_of xs) nodei flag now
                ≡ ok (some (w, false)) =
              unfold NodeSpace.place in
              rw (found, at ∙ ap some (zero_add (length pre)), is_full, put, ◌>>=◌) in
            (w, pre ++ y ∷ post, run ∙ ap finish branch, t, rw (e, map-append, kept, map-append))
      ]
