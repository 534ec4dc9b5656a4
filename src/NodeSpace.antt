-- ===== src/NodeSpace.antt =====
-- vroute_node.c: the routing table of nodes, 160 buckets of peers.
-- A pointer to a peer in a bucket is the index of its slot. `alloc` and `mem` say whether the
-- allocations of peers and of their records succeed; the results of `time` are arguments, `later`
-- where the clock is read again.
pub mod Slot
pub mod Find
pub mod Routed
pub mod Add
pub mod Tick
pub mod Added
pub mod Entry
pub mod Keeps
pub mod Runs
pub mod Closest
pub mod Gathered
pub mod Order
pub mod Nearest
use vdht.Base.{
  ℕ, zero, suc, ◌+◌, ◌-◌, ◌*◌, ◌%◌, ◌==◌, ltb, leb, if◌then◌else◌, Bool, true, false, not, ◌&&◌,
  List, [], ◌∷◌, ◌++◌, length, get_elem?, set, replicate, Option, none, some, ℤ, pos, increment,
  decrement, Run, ok, fault, ◌>>=◌,
}
use vdht.Addrs.{SockAddr, VSockAddr}
use vdht.NodeInfo
use vdht.NodeInfo.{NodeInfo, NodeConn}
use vdht.Peer
use vdht.Peer.{Peer, Limits, AddBy, Query, Search, find_closest_nodes}
use vdht.SrvcInfo.{SrvcInfo}
use vdht.Token
use vdht.Token.{Token}
use vdht.Varray
use vdht.Varray.{Varray}

-- `struct vroute_node_space_bucket`
pub record PeerBucket : Type 0 where
  pub peers : Varray Peer
  pub ts : ℕ

-- `struct vroute_node_space`
pub record NodeSpace : Type 0 where
  pub myid : Token
  pub myver : Token
  pub limits : Limits
  pub bucket_sz : ℕ
  pub buckets : List PeerBucket

-- NBUCKETS
abbrev pub num_buckets : ℕ
num_buckets = 160

-- `vroute_node_space_init`, given what the configuration says
unfoldable pub init : SockAddr → ℕ → ℕ → Token → Token → NodeSpace
unfolding Varray.init Token.copy
init zaddr bucket_sz max_next_tmo myver myid = record {
  myid = Token.copy myid;
  myver = myver;
  limits = record {
    zaddr = zaddr;
    init_next_tmo = 2;
    max_next_tmo = max_next_tmo;
    max_next_tmo_unreachable = max_next_tmo * 4;
    next_tmo_step = 5;
    max_probe_tms = 3;
    max_ping_tms = 3;
  };
  bucket_sz = bucket_sz;
  buckets = replicate num_buckets (record { peers = Varray.init 8; ts = 0 });
}

-- the loop over a bucket up to the peer with an ID
unfoldable pub find_peer : Token → Varray Peer → ℕ → ℕ → Run (Option ℕ)
find_peer id peers zero i = ok none
find_peer id peers (suc n) i = Varray.get peers (pos i) >>= λ slot. elim slot [
  | none ↦ fault
  | some peer ↦ elim (Token.equal peer.nodei.id id) [
    | true ↦ ok (some i)
    | false ↦ find_peer id peers n (i + 1)
  ]
]

-- a change of the peer behind the pointer in a slot
modify_items : (Peer → Run Peer) → Varray Peer → Option (List (Option Peer)) → ℕ → Run (Varray Peer)
modify_items change v none k = fault
modify_items change v (some buf) k = Varray.load buf k >>= λ slot. elim slot [
  | none ↦ fault
  | some peer ↦
      change peer >>= λ new. Varray.store buf k (some new) >>= λ b. ok (record v { items = some b })
]

unfoldable pub modify : (Peer → Run Peer) → Varray Peer → ℕ → Run (Varray Peer)
unfolding modify_items
modify change v k = modify_items change v v.items k

-- the bucket of an ID, `&space->bucket[idx]`
unfoldable pub bucket_of : NodeSpace → Token → Run PeerBucket
bucket_of space id = elim (get_elem? space.buckets (Token.bucket space.myid id)) [
  | none ↦ fault
  | some b ↦ ok b
]

unfoldable pub with_bucket : NodeSpace → Token → PeerBucket → NodeSpace
with_bucket space id b = record space { buckets = set space.buckets (Token.bucket space.myid id) b }

-- what `kick_node` does to the peer, and `_vroute_node_space_kick_node`
unfoldable pub kicked : Limits → ℕ → Peer → Peer
kicked space now peer = record peer {
  tick_ts = now;
  next_tmo = if ltb 1 peer.ntry_pings then space.init_next_tmo else peer.next_tmo;
}

unfoldable pub kick_node : NodeSpace → Token → ℕ → Run (NodeSpace × Bool)
kick_node space id now = bucket_of space id >>= λ b.
    find_peer id b.peers b.peers.used 0 >>= λ found. elim found [
      | none ↦ ok (space, false)
      | some k ↦ modify (λ p. ok (kicked space.limits now p)) b.peers k >>= λ v.
          ok (with_bucket space id (record b { peers = v }), true)
    ]

-- `_vroute_node_space_adjust_connectivity`
unfoldable pub adjust_connectivity : NodeSpace → Token → NodeConn → Run NodeSpace
adjust_connectivity space id conn = bucket_of space id >>= λ b.
    find_peer id b.peers b.peers.used 0 >>= λ found. elim found [
      | none ↦ ok space
      | some k ↦
          modify (λ p. ok (record p { conn = NodeInfo.conn_adjust p.conn conn })) b.peers k >>= λ v.
          ok (with_bucket space id (record b { peers = v }))
    ]

-- What the caller's pointer leads to after a copy through the by-value parameter: nothing, where
-- `realloc` has moved the block to a larger one, whose address the caller does not get.
abbrev pub delivered : NodeInfo → NodeInfo → Option NodeInfo
delivered before after = if ltb before.capc after.capc then none else some after

-- `_vroute_node_space_find_node`, which does not look at the result of `vnodeInfo_copy`
copy_found : Bool → Token → NodeInfo → Option Peer → Run (Option NodeInfo × Bool)
copy_found mem myver nodei none = fault
copy_found mem myver nodei (some peer) = NodeInfo.copy mem nodei peer.nodei >>= λ r. ok (
  delivered nodei (
      if Token.equal peer.nodei.ver myver
      then record (r.0) { weight = decrement r.0.weight }
      else r.0),
  true,
)

unfoldable pub find_node : Bool → NodeSpace → Token → NodeInfo → Run (Option NodeInfo × Bool)
unfolding copy_found
find_node mem space id nodei = bucket_of space id >>= λ b.
    find_peer id b.peers b.peers.used 0 >>= λ found. elim found [
      | none ↦ ok (some nodei, false)
      | some k ↦ Varray.get b.peers (pos k) >>= λ slot. copy_found mem space.myver nodei slot
    ]

-- the weight that `add_node` gives the caller's record
unfoldable pub weighed : NodeSpace → NodeInfo → NodeInfo
weighed space nodei =
    if Token.equal space.myver nodei.ver
    then record nodei { weight = increment nodei.weight }
    else nodei

abbrev pub start : NodeInfo → Search
start nodei = record { seen = 0; min_wgt = nodei.weight; max_try = 3; found = false; want = none }

-- `vpeer_update` on the peer at an index, with its result
update_items :
    (Peer → Run (Peer × Option Bool))
    → Varray Peer
    → Option (List (Option Peer))
    → ℕ
    → Run (Varray Peer × Option Bool)
update_items change v none k = fault
update_items change v (some buf) k = Varray.load buf k >>= λ slot. elim slot [
  | none ↦ fault
  | some peer ↦ change peer >>= λ r.
      Varray.store buf k (some r.0) >>= λ b. ok (record v { items = some b }, r.1)
]

unfoldable pub update_at :
    Bool → Limits → Varray Peer → Option ℕ → NodeInfo → AddBy → ℕ → Run (Varray Peer × Option Bool)
unfolding update_items
update_at mem limits v none nodei flag now = fault
update_at mem limits v (some k) nodei flag now =
    update_items (λ p. Peer.peer_update mem limits p nodei flag now) v v.items k

abbrev is_some : Option ℕ → Bool
is_some none = false
is_some (some k) = true

-- `ret > 0`
abbrev positive : Option Bool → Bool
positive none = false
positive (some b) = b

abbrev appended : Varray Peer → Option (Varray Peer) → Varray Peer
appended v none = v
appended v (some w) = w

-- the branches of `add_node` behind the search: the peers and whether the bucket's time is set.
-- `none` is a result of -1.
unfoldable pub place :
    Bool
    → Bool
    → NodeSpace
    → Varray Peer
    → Search
    → NodeInfo
    → AddBy
    → ℕ
    → Run (Option (Varray Peer × Bool))
unfolding update_at
place alloc mem space v c nodei flag now =
    let update =
      update_at mem space.limits v c.want nodei flag now >>= λ r. ok (some (r.0, positive r.1)) in
    if c.found
    then update
    else if is_some c.want && leb space.bucket_sz v.used
    then update
    else if ltb v.used space.bucket_sz
    then (if alloc
        then (Peer.peer_init mem space.limits (Peer.blank space.limits.zaddr) nodei now >>= λ p.
            Varray.add_tail mem v (some p) >>= λ r. ok (some (appended v r, true)))
        else ok none)
    else ok (some (v, false))

-- what `add_node` does to the bucket; its readings of the clock are taken to agree
unfoldable pub add_to :
    Bool → Bool → NodeSpace → PeerBucket → NodeInfo → AddBy → ℕ → Run (Option PeerBucket)
unfolding place
add_to alloc mem space b nodei flag now =
    Varray.iterate (Peer.find_worst_cb nodei) b.peers (start nodei) >>= λ r.
    place alloc mem space r.0 r.1 nodei flag now >>= λ q. elim q [
      | none ↦ ok none
      | some s ↦ ok (some (record { peers = s.0; ts = if s.1 then now else b.ts }))
    ]

-- `_vroute_node_space_add_node`; the caller's record becomes `weighed space nodei`
unfoldable pub add_node : Bool → Bool → NodeSpace → NodeInfo → AddBy → ℕ → Run (Option NodeSpace)
unfolding add_to
add_node alloc mem space nodei flag now =
    if Token.equal space.myid nodei.id
    then ok (some space)
    else (bucket_of space nodei.id >>= λ b.
        add_to alloc mem space b (weighed space nodei) flag now >>= λ r. elim r [
          | none ↦ ok none
          | some c ↦ ok (some (with_bucket space nodei.id c))
        ])

-- the loop over the buckets that iterates over each of them
unfoldable pub visit_buckets :
    (Peer → List Query → Peer × List Query × Bool)
    → List PeerBucket
    → List Query
    → Run (List PeerBucket × List Query)
visit_buckets cb [] log = ok ([], log)
visit_buckets cb (b ∷ bs) log = Varray.iterate cb b.peers log >>= λ r.
    visit_buckets cb bs r.1 >>= λ q. ok (record b { peers = r.0 } ∷ q.0, q.1)

unfoldable pub visit_all :
    (Peer → List Query → Peer × List Query × Bool) → NodeSpace → Run (NodeSpace × List Query)
unfolding visit_buckets
visit_all cb space =
    visit_buckets cb space.buckets [] >>= λ r. ok (record space { buckets = r.0 }, r.1)

-- `_vroute_node_space_probe_node`
unfoldable pub probe_node : NodeSpace → Token → Run (NodeSpace × List Query)
unfolding visit_all
probe_node space target_id = bucket_of space target_id >>= λ b.
    find_peer target_id b.peers b.peers.used 0 >>= λ found. elim found [
      | some k ↦ ok (space, [])
      | none ↦ visit_all (Peer.probe_node_cb space.limits target_id) space
    ]

-- `_vroute_node_space_air_service`, `_vroute_node_space_probe_service`,
-- `_vroute_node_space_reflex_addr`, `_vroute_node_space_probe_connectivity`
unfoldable pub air_service : NodeSpace → SrvcInfo → Run (NodeSpace × List Query)
unfolding visit_all
air_service space srvci = visit_all (Peer.air_service_cb space.limits srvci) space

unfoldable pub probe_service : NodeSpace → Token → Run (NodeSpace × List Query)
unfolding visit_all
probe_service space hash = visit_all (Peer.probe_service_cb space.limits hash) space

unfoldable pub reflex_addr : (SockAddr → Bool) → NodeSpace → SockAddr → Run (NodeSpace × List Query)
unfolding visit_all
reflex_addr is_public space addr = visit_all (Peer.reflex_addr_cb is_public space.limits addr) space

unfoldable pub probe_connectivity : NodeSpace → VSockAddr → Run (NodeSpace × List Query)
unfolding visit_all
probe_connectivity space laddr = visit_all (Peer.probe_connectivity_cb space.limits laddr) space

-- `varray_get_rand`, where `rand` is the number that the generator gives
unfoldable pub get_rand : ℕ → Varray Peer → Run (Option Peer)
get_rand rand v = elim v.items [
  | none ↦ ok none
  | some buf ↦ elim v.used [ zero ↦ fault | suc n ↦ Varray.load buf (rand % suc n) ]
]

-- the refresh of a bucket by `tick`
refresh_from : NodeSpace → ℕ → PeerBucket → Option Peer → List Query → Run (PeerBucket × List Query)
refresh_from space later b none log = fault
refresh_from space later b (some peer) log =
    if Peer.unfit space.limits peer
    then ok (b, log)
    else ok (record b { ts = later }, log ++ find_closest_nodes peer.conn space.myid ∷ [])

unfoldable pub refresh :
    NodeSpace → ℕ → ℕ → ℕ → PeerBucket → List Query → Run (PeerBucket × List Query)
unfolding refresh_from get_rand
refresh space rand now later b log =
    if b.peers.used == 0
    then ok (b, log)
    else if ltb now (b.ts + space.limits.max_next_tmo)
    then ok (b, log)
    else (get_rand rand b.peers >>= λ slot. refresh_from space later b slot log)

-- the loop of `_vroute_node_space_tick`; `rand` gives the number for each bucket
unfoldable pub tick_from :
    NodeSpace
    → (ℕ → ℕ)
    → ℕ
    → ℕ
    → ℕ
    → List PeerBucket
    → List Query
    → Run (List PeerBucket × List Query)
unfolding refresh
tick_from space rand now later i [] log = ok ([], log)
tick_from space rand now later i (b ∷ bs) log =
    Varray.iterate (Peer.ping_nodei_cb space.limits now later) b.peers log >>= λ r.
    refresh space (rand i) now later (record b { peers = r.0 }) r.1 >>= λ q.
    tick_from space rand now later (i + 1) bs q.1 >>= λ s. ok (q.0 ∷ s.0, s.1)

unfoldable pub tick : NodeSpace → (ℕ → ℕ) → ℕ → ℕ → Run (NodeSpace × List Query)
unfolding tick_from
tick space rand now later = tick_from space rand now later 0 space.buckets [] >>= λ r.
    ok (record space { buckets = r.0 }, r.1)

-- the loop of `_vroute_node_space_clear` over the buckets, on fuel for each, with the number of
-- peers that it frees
free_peer : Option Peer → ℕ → Run ℕ
free_peer none freed = fault
free_peer (some p) freed = ok (freed + 1)

clear_buckets : Bool → ℕ → List PeerBucket → ℕ → Run (Option (List PeerBucket × ℕ))
unfolding free_peer
clear_buckets mem fuel [] freed = ok (some ([], freed))
clear_buckets mem fuel (b ∷ bs) freed = Varray.drain free_peer mem fuel b.peers freed >>= λ r.
    elim r [
      | none ↦ ok none
      | some s ↦ clear_buckets mem fuel bs s.1 >>= λ q. elim q [
        | none ↦ ok none
        | some t ↦ ok (some (record b { peers = s.0 } ∷ t.0, t.1))
      ]
    ]

unfoldable pub clear : Bool → ℕ → NodeSpace → Run (Option (NodeSpace × ℕ))
unfolding clear_buckets
clear mem fuel space = clear_buckets mem fuel space.buckets 0 >>= λ r. elim r [
  | none ↦ ok none
  | some s ↦ ok (some (record space { buckets = s.0 }, s.1))
]
