-- ===== src/NodeSpace/Closest.antt =====
-- vroute_node.c: find_closest_nodes. A peer in the sorted array is its value, which nothing changes
-- meanwhile. `sorting` says whether the sorted array can grow, `alloc` whether a record can be
-- allocated, and `mem` whether a record and the array of the caller can grow.
use vdht.Base.{
  ℕ, zero, suc, ◌+◌, leb, ltb, if◌then◌else◌, Bool, true, false, not, List, [], ◌∷◌, Option, none,
  some, ℤ, pos, negsuc, ltb_int, decrement, Run, ok, fault, vassert, ◌>>=◌, ◌>>◌,
}
use vdht.NodeInfo
use vdht.NodeInfo.{NodeInfo}
use vdht.NodeSpace.{NodeSpace, PeerBucket}
use vdht.Peer.{Peer}
use vdht.Token
use vdht.Token.{Token}
use vdht.Varray
use vdht.Varray.{Varray}

-- `_aux_space_weight_cmp_cb`
unfoldable pub weight_cmp_cb : Token → Peer → Peer → ℤ
unfolding Token.equal Token.dist Token.metric_cmp
weight_cmp_cb target_id peer target =
    if ltb peer.ntry_pings target.ntry_pings
    then negsuc 0
    else if not (Token.equal target.nodei.ver peer.nodei.ver)
    then negsuc 0
    else if ltb_int peer.nodei.weight target.nodei.weight
    then pos 1
    else Token.metric_cmp (Token.dist target.nodei.id target_id)
        (Token.dist peer.nodei.id target_id)

-- the tests before the insertion
unfoldable pub is_candidate : NodeSpace → Token → Peer → Bool
unfolding Token.equal NodeInfo.is_fake
is_candidate space target_id peer =
    if Token.equal peer.nodei.id target_id
    then false
    else if NodeInfo.is_fake peer.nodei
    then false
    else not (leb space.limits.max_next_tmo_unreachable peer.next_tmo)

-- An array after a call that may have failed.
abbrev pub added : Varray Peer → Option (Varray Peer) → Varray Peer
added v none = v
added v (some w) = w

module _ (sorting : Bool) (space : NodeSpace) (target_id : Token) where
  unfoldable pub consider : Peer → Varray Peer → Run (Varray Peer)
  unfolding is_candidate weight_cmp_cb Varray.sorted_add
  consider peer sarray = elim (is_candidate space target_id peer) [
    | true ↦ Varray.sorted_add (weight_cmp_cb target_id) sorting sarray (some peer) >>= λ r.
        ok (added sarray r)
    | false ↦ ok sarray
  ]

  -- the loop over a bucket
  unfoldable pub collect_from : Varray Peer → ℕ → ℕ → Varray Peer → Run (Varray Peer)
  unfolding consider Varray.get
  collect_from peers zero j sarray = ok sarray
  collect_from peers (suc n) j sarray = Varray.get peers (pos j) >>= λ slot. elim slot [
    | none ↦ fault
    | some peer ↦ consider peer sarray >>= λ more. collect_from peers n (j + 1) more
  ]

  -- the loop over the buckets
  unfoldable pub collect : List PeerBucket → Varray Peer → Run (Varray Peer)
  unfolding collect_from
  collect [] sarray = ok sarray
  collect (b ∷ bs) sarray = collect_from b.peers b.peers.used 0 sarray >>= λ more. collect bs more

-- the record for the caller
unfoldable pub copied : Bool → Token → NodeInfo → Run NodeInfo
unfolding NodeInfo.copy Token.equal
copied mem myver src = NodeInfo.copy mem NodeInfo.relax_alloc src >>= λ r.
    ok (if Token.equal r.0.ver myver then record (r.0) { weight = decrement r.0.weight } else r.0)

-- the loop over the sorted array
module _ (alloc mem : Bool) (myver : Token) (num : ℕ) (sarray : Varray Peer) where
  abbrev pub kept : Varray NodeInfo → Option (Varray NodeInfo) → Varray NodeInfo
  kept v none = v
  kept v (some w) = w

  unfoldable pub copy_from : ℕ → ℕ → Varray NodeInfo → Run (Varray NodeInfo × ℕ)
  unfolding copied Varray.get Varray.add_tail
  copy_from zero i closest = ok (closest, i)
  copy_from (suc n) i closest = Varray.get sarray (pos i) >>= λ slot.
      if leb num i then ok (closest, i) else if not alloc then ok (closest, i) else elim slot [
        | none ↦ fault
        | some item ↦ copied mem myver item.nodei >>= λ nodei.
            Varray.add_tail mem closest (some nodei) >>= λ r. copy_from n (i + 1) (kept closest r)
      ]

-- `_vroute_node_space_find_closest_nodes`
unfoldable pub find_closest_nodes :
    Bool → Bool → Bool → NodeSpace → Token → Varray NodeInfo → ℕ → Run (Varray NodeInfo × ℕ)
unfolding collect copy_from Varray.sorted_init
find_closest_nodes sorting alloc mem space target_id closest num =
    vassert (ltb 0 num)
    >> (collect sorting space target_id space.buckets (Varray.sorted_init 0) >>= λ sarray.
        copy_from alloc mem space.myver num sarray sarray.used 0 closest)
