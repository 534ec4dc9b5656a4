-- ===== src/NodeSpace/Find.antt =====
-- vroute_node.c: kick_node, adjust_connectivity and find_node, which look a peer up by its ID.
use vdht.Base.{
  length-set, ℕ, zero, suc, ◌<◌, ◌≡◌, ◌≢◌, refl, ap, ◌∙◌, pos, true, false, Bool, some, List, [],
  ◌∷◌, ◌++◌, length, get_elem?, get_elem?-append, get_elem?-set_self, get_elem?-set_ne, ok, arith,
  All, ◌>>=◌, decrement, ◌≤◌, ltb, ltb-false, lt→ltb, none, if◌then◌else◌,
}
use vdht.NodeInfo
use vdht.NodeInfo.{NodeInfo, NodeConn}
use vdht.NodeInfo.Copy.{IsSource, copy_node_sized}
use vdht.NodeInfo.Insert
use vdht.NodeSpace
use vdht.NodeSpace.{NodeSpace, PeerBucket}
use vdht.NodeSpace.Slot.{Other, modify-Holds, find_peer-found, find_peer-absent}
use vdht.Peer.{Peer}
use vdht.Token
use vdht.Token.{Token}
use vdht.Varray
use vdht.Varray.{Varray}
use vdht.Varray.Holds.{Holds}
use vdht.Varray.Ends.{get_lem}

-- The table with the bucket of an ID replaced by `b`.
pub record Changed (space next : NodeSpace) (bucket : ℕ) (b : PeerBucket) : Type 0 where
  pub myid : next.myid ≡ space.myid
  pub bucket_sz : next.bucket_sz ≡ space.bucket_sz
  pub limits : next.limits ≡ space.limits
  pub count : length next.buckets ≡ length space.buckets
  pub here : get_elem? next.buckets bucket ≡ some b
  pub elsewhere : (j : ℕ) → bucket ≢ j → get_elem? next.buckets j ≡ get_elem? space.buckets j

inside : (bs : List PeerBucket) (i : ℕ) {b : PeerBucket} → get_elem? bs i ≡ some b → i < length bs
inside [] i e = cc
inside (x ∷ bs) zero e = omega arith
inside (x ∷ bs) (suc i) e = omega (arith, inside bs i e)

-- A record that leaves the table.
abbrev pub lower : Bool → NodeInfo → NodeInfo
lower own d = if own then record d { weight = decrement d.weight } else d

pub lower_lem :
    (own : Bool) (d s : NodeInfo)
    → d.addrs ≡ s.addrs
    → (d.id ≡ s.id) × (d.ver ≡ s.ver) × (d.weight ≡ s.weight)
    → ((lower own d).addrs ≡ s.addrs)
      × (((lower own d).id ≡ s.id)
          × ((lower own d).ver ≡ s.ver)
          × ((lower own d).weight ≡ (if own then decrement s.weight else s.weight)))
lower_lem true d s addrs same = (addrs, (same.0, same.1, ap decrement same.2))
lower_lem false d s addrs same = (addrs, same)

lower_capc : (own : Bool) (d : NodeInfo) → (lower own d).capc ≡ d.capc
lower_capc true d = refl
lower_capc false d = refl

module _ (space : NodeSpace) (id : Token) {b : PeerBucket}
    (at : get_elem? space.buckets (Token.bucket space.myid id) ≡ some b) where
  pub bucket_of_lem : NodeSpace.bucket_of space id ≡ ok b
  unfolding NodeSpace.bucket_of
  bucket_of_lem = rw (at, NodeSpace.bucket_of)

  pub with_bucket-Changed :
      (c : PeerBucket)
      → Changed space (NodeSpace.with_bucket space id c) (Token.bucket space.myid id) c
  unfolding NodeSpace.with_bucket
  with_bucket-Changed c = record {
    myid = refl;
    bucket_sz = refl;
    limits = refl;
    count = length-set space.buckets (Token.bucket space.myid id) c;
    here =
        get_elem?-set_self space.buckets (Token.bucket space.myid id) c (inside space.buckets _ at);
    elsewhere = λ j ne. get_elem?-set_ne space.buckets c ne;
  }

  module _ (pre post : List Peer) (x : Peer) (h : Holds b.peers (pre ++ x ∷ post))
      (others : All (Other id) pre) (found : Token.equal x.nodei.id id ≡ true) where
    pub kick_node_known :
        (now : ℕ)
        → (next : NodeSpace) × (w : Varray Peer) × (NodeSpace.kick_node space id now
            ≡ ok (next, true))
          × Changed space next (Token.bucket space.myid id) (record b { peers = w })
          × Holds w (pre ++ NodeSpace.kicked space.limits now x ∷ post)
    unfolding NodeSpace.kick_node
    kick_node_known now =
        let (w, run, held) =
          modify-Holds (λ p. ok (NodeSpace.kicked space.limits now p)) pre post x
            (NodeSpace.kicked space.limits now x) h refl refl in
        (
          NodeSpace.with_bucket space id (record b { peers = w }),
          w,
          rw (bucket_of_lem, ◌>>=◌, find_peer-found id pre post x h others found, run),
          with_bucket-Changed (record b { peers = w }),
          held,
        )

    pub adjust_connectivity_known :
        (conn : NodeConn)
        → (next : NodeSpace) × (w : Varray Peer) × (NodeSpace.adjust_connectivity space id conn
            ≡ ok next)
          × Changed space next (Token.bucket space.myid id) (record b { peers = w })
          × Holds w (pre ++ record x { conn = NodeInfo.conn_adjust x.conn conn } ∷ post)
    unfolding NodeSpace.adjust_connectivity
    adjust_connectivity_known conn =
        let (w, run, held) =
          modify-Holds (λ p. ok (record p { conn = NodeInfo.conn_adjust p.conn conn })) pre post x
            (record x { conn = NodeInfo.conn_adjust x.conn conn }) h refl refl in
        (
          NodeSpace.with_bucket space id (record b { peers = w }),
          w,
          rw (bucket_of_lem, ◌>>=◌, find_peer-found id pre post x h others found, run),
          with_bucket-Changed (record b { peers = w }),
          held,
        )

    -- With memory, find_node of the ID of a peer of its bucket, none before which has that ID,
    -- whose record has at most twelve distinct addresses in order, copies that record into a valid
    -- record of the caller whose capacity is at least the number of addresses, with one less in
    -- weight for a peer of the own version; where the capacity is smaller, it returns 1 as well
    -- but leaves the caller with a pointer to the block that realloc has moved.
    pub find_node_known :
        (nodei : NodeInfo)
        → NodeInfo.Insert.IsValid nodei
        → IsSource x.nodei.addrs
        → (d : NodeInfo) × (length x.nodei.addrs ≤ nodei.capc
            → NodeSpace.find_node true space id nodei ≡ ok (some d, true))
          × (nodei.capc < length x.nodei.addrs
              → NodeSpace.find_node true space id nodei ≡ ok (none, true))
          × (d.addrs ≡ x.nodei.addrs)
          × ((d.id ≡ x.nodei.id)
              × (d.ver ≡ x.nodei.ver)
              × (d.weight ≡ (
                  if Token.equal x.nodei.ver space.myver
                  then decrement x.nodei.weight
                  else x.nodei.weight)))
    unfolding NodeSpace.find_node NodeSpace.copy_found
    find_node_known nodei valid source =
        let (d, run, addrs, same, full, size) = copy_node_sized x.nodei valid source in
        let own = Token.equal x.nodei.ver space.myver in
        let left = lower_lem own d x.nodei addrs same in
        let read : Varray.get b.peers (pos (length pre)) ≡ ok (some x) =
          get_lem (length pre) h ∙ ap ok (get_elem?-append pre x post) in
        let found : NodeSpace.find_node true space id nodei
            ≡ ok (NodeSpace.delivered nodei (lower own d), true) =
          rw (bucket_of_lem, ◌>>=◌, find_peer-found id pre post x h others found, read, run) in
        (
          lower own d,
          λ fits.
              let stays : ltb nodei.capc (lower own d).capc ≡ false =
                ltb-false _ _ (omega (arith, lower_capc own d, size fits)) in
              found ∙ rw (stays, NodeSpace.delivered),
          λ short.
              let moves : ltb nodei.capc (lower own d).capc ≡ true =
                lt→ltb _ _ (omega (arith, lower_capc own d, full.fits, ap length addrs, short)) in
              found ∙ rw (moves, NodeSpace.delivered),
          left.0,
          left.1,
        )

  -- For an ID that its bucket does not hold, kick_node and find_node report that and change nothing
  -- and so does adjust_connectivity.
  pub lookup_absent :
      (xs : List Peer)
      → Holds b.peers xs
      → All (Other id) xs
      → ((now : ℕ) → NodeSpace.kick_node space id now ≡ ok (space, false))
        × ((mem : Bool) (nodei : NodeInfo)
            → NodeSpace.find_node mem space id nodei ≡ ok (some nodei, false))
        × ((conn : NodeConn) → NodeSpace.adjust_connectivity space id conn ≡ ok space)
  unfolding NodeSpace.kick_node NodeSpace.find_node NodeSpace.adjust_connectivity
  lookup_absent xs h others = (
    λ now. rw (bucket_of_lem, ◌>>=◌, find_peer-absent id xs h others),
    λ mem nodei. rw (bucket_of_lem, ◌>>=◌, find_peer-absent id xs h others),
    λ conn. rw (bucket_of_lem, ◌>>=◌, find_peer-absent id xs h others),
  )
