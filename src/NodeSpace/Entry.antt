-- ===== src/NodeSpace/Entry.antt =====
-- vroute_node.c, add_node: the whole operation, with its guard and the weight of the own version.
use vdht.Base.{
  ℕ, ◌+◌, ◌<◌, ◌≤◌, ◌≡◌, refl, ◌∙◌, min, true, false, List, [], ◌∷◌, ◌++◌, map, length, get_elem?,
  some, All, ok, inl, inr, Bool-cases, increment, ◌>>=◌, ℤ,
}
use vdht.Addrs.{VSockAddr}
use vdht.NodeInfo
use vdht.NodeInfo.{NodeInfo}
use vdht.NodeInfo.Copy.{IsSource}
use vdht.NodeInfo.Insert.{IsValid}
use vdht.NodeSpace
use vdht.NodeSpace.{NodeSpace, PeerBucket}
use vdht.NodeSpace.Add.{add_to_room}
use vdht.NodeSpace.Find.{Changed, with_bucket-Changed, bucket_of_lem}
use vdht.Peer
use vdht.Peer.{Peer, AddBy, other, ping_rsp}
use vdht.Peer.Merged.{Tells}
use vdht.Peer.Worst.{Other}
use vdht.Token
use vdht.Varray.{Varray}
use vdht.Varray.Holds.{Holds}

-- A peer that says what a node said, one more than it in weight for a node of the own version.
pub record Knows (space : NodeSpace) (nodei : NodeInfo) (y : Peer) : Type 0 where
  pub id : y.nodei.id ≡ nodei.id
  pub ver : y.nodei.ver ≡ nodei.ver
  pub addrs :
      map (λ (x : VSockAddr). x.addr) y.nodei.addrs ≡ map (λ (x : VSockAddr). x.addr) nodei.addrs
  pub own : Token.equal space.myver nodei.ver ≡ true → y.nodei.weight ≡ increment nodei.weight
  pub foreign : Token.equal space.myver nodei.ver ≡ false → y.nodei.weight ≡ nodei.weight
  pub valid : IsValid y.nodei

-- The counters of a peer before and after: an answer resets them, word from others does not.
abbrev pub Treated : NodeSpace → ℕ → AddBy → Peer → Peer → Type 0
Treated space now other x y =
    (y.tick_ts ≡ x.tick_ts) × (y.next_tmo ≡ x.next_tmo) × (y.ntry_pings ≡ x.ntry_pings)
Treated space now ping_rsp x y =
    (y.tick_ts ≡ now)
    × (y.ntry_pings ≡ 0)
    × (2 < x.ntry_pings → y.next_tmo ≡ space.limits.init_next_tmo)
    × (x.ntry_pings ≤ 2
        → y.next_tmo ≡ min (x.next_tmo + space.limits.next_tmo_step) space.limits.max_next_tmo)

module _ (space : NodeSpace) (nodei : NodeInfo) (flag : AddBy) (now : ℕ) where
  -- The weight that add_node goes on with.
  record Heavy (w : ℤ) : Type 0 where
    pub heavy : NodeSpace.weighed space nodei ≡ record nodei { weight = w }
    pub own : Token.equal space.myver nodei.ver ≡ true → w ≡ increment nodei.weight
    pub foreign : Token.equal space.myver nodei.ver ≡ false → w ≡ nodei.weight

  weighed-Heavy : (w : ℤ) × Heavy w
  unfolding NodeSpace.weighed
  weighed-Heavy = elim (Bool-cases (Token.equal space.myver nodei.ver)) [
    | inl e ↦
        (increment nodei.weight, record { heavy = rw e; own = λ f. refl; foreign = λ f. cc (e, f) })
    | inr e ↦ (nodei.weight, record { heavy = rw e; own = λ f. cc (e, f); foreign = λ f. refl })
  ]

  Tells-Knows :
      (w : ℤ) (y : Peer)
      → Heavy w
      → Tells y.nodei (record nodei { weight = w })
      → Knows space nodei y
  Tells-Knows w y h t = record {
    id = t.id;
    ver = t.ver;
    addrs = t.addrs;
    own = λ e. t.weight ∙ h.own e;
    foreign = λ e. t.weight ∙ h.foreign e;
    valid = t.valid;
  }

  module _ {b : PeerBucket}
      (at : get_elem? space.buckets (Token.bucket space.myid nodei.id) ≡ some b)
      (apart : Token.equal space.myid nodei.id ≡ false) where
    entered :
        (w : ℤ) {c : PeerBucket}
        → NodeSpace.weighed space nodei ≡ record nodei { weight = w }
        → NodeSpace.add_to true true space b (record nodei { weight = w }) flag now ≡ ok (some c)
        → NodeSpace.add_node true true space nodei flag now
          ≡ ok (some (NodeSpace.with_bucket space nodei.id c))
    unfolding NodeSpace.add_node
    entered w heavy run = rw (apart, bucket_of_lem space nodei.id at, ◌>>=◌, heavy, run)

    module _ (source : IsSource nodei.addrs) (some_addr : 0 < length nodei.addrs) where
      -- When both allocations succeed, add_node of a node that is not the own one, with between
      -- one and twelve distinct addresses in order, to a table where its bucket is below its size
      -- and does not hold it, changes no other bucket and appends a peer that says what the node
      -- says, with one more in weight if the node has the own version, with the time, the first
      -- delay and no open pings, and sets the time of the bucket.
      pub add_node_room :
          {xs : List Peer}
          → Holds b.peers xs
          → All (Other nodei) xs
          → length xs < space.bucket_sz
          → (next : NodeSpace) × (v : Varray Peer) × (y : Peer) × (NodeSpace.add_node true true
                space nodei flag now
              ≡ ok (some next))
            × Changed space next (Token.bucket space.myid nodei.id) (record { peers = v; ts = now })
            × Holds v (xs ++ y ∷ [])
            × Knows space nodei y
            × (y.nodei.addrs ≡ nodei.addrs)
            × ((y.tick_ts ≡ now) × (y.next_tmo ≡ space.limits.init_next_tmo) × (y.ntry_pings ≡ 0))
      add_node_room h others room =
          let (w, heavy) = weighed-Heavy in
          let (v, y, run, held, tells, addrs, counters) =
            add_to_room space b (record nodei { weight = w }) flag now source some_addr h others
              room in
          (
            NodeSpace.with_bucket space nodei.id (record { peers = v; ts = now }),
            v,
            y,
            entered w heavy.heavy run,
            with_bucket-Changed space nodei.id at (record { peers = v; ts = now }),
            held,
            Tells-Knows w y heavy tells,
            addrs,
            counters,
          )
