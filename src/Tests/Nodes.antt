-- ===== src/Tests/Nodes.antt =====
-- Tables with one and with two nodes.
use vdht.Base.{
  ◌<◌, ◌≡◌, refl, true, false, ℕ, pos, List, [], ◌∷◌, ◌++◌, map, get_elem?, some, ok, arith, All,
  replicate, if◌then◌else◌, decrement, take, All-append, zero, suc, ◌≤◌, none,
}
use vdht.Addrs
use vdht.Addrs.{SockAddr, VSockAddr}
use vdht.NodeInfo
use vdht.NodeInfo.{NodeInfo}
use vdht.NodeInfo.Copy.{IsSource}
use vdht.NodeNice
use vdht.NodeNice.{Sample}
use vdht.NodeNice.Bounds.{indices, init-indices}
use vdht.NodeSpace
use vdht.NodeSpace.{NodeSpace, PeerBucket}
use vdht.NodeSpace.Add.{add_to_crowded}
use vdht.NodeSpace.Closest
use vdht.NodeSpace.Find.{Changed, find_node_known}
use vdht.NodeSpace.Gathered.{Hold}
use vdht.NodeSpace.Order.{IsId, Candidates, Ordered}
use vdht.NodeSpace.Entry.{Knows, add_node_room}
use vdht.NodeSpace.Nearest.{Copies, find_closest_nodes_lem}
use vdht.NodeSpace.Routed.{IsRouted}
use vdht.NodeSpace.Runs.{Call, IsReal, steps, init-steps}
use vdht.Peer
use vdht.Peer.{Peer, Limits, AddBy, Query, ping_rsp}
use vdht.Peer.Ping.{Ticked, InBounds, iterate-ping, delay_bound}
use vdht.Peer.Worst.{Other}
use vdht.Token
use vdht.Token.Metric.{IsBytes}
use vdht.Token.{Token}
use vdht.Varray
use vdht.Varray.{Varray}
use vdht.Varray.Holds.{Holds, stored, init-Holds}

abbrev addr_of : ℕ → SockAddr
addr_of host = record { sin_family = 2; sin_addr = host; sin_port = 12300 }

abbrev id_of : ℕ → Token
id_of n = replicate 19 0 ++ n ∷ []

-- A node with an ID that ends in `n`, with one address.
abbrev node : ℕ → NodeInfo
node n = record {
  id = id_of n;
  ver = replicate 20 9;
  weight = pos 3;
  capc = 4;
  slots = 4;
  addrs = record { addr = addr_of n; type = 1 } ∷ [];
}

node-IsSource : (n : ℕ) → IsSource (node n).addrs
unfolding Addrs.has
node-IsSource n = record { distinct = (refl, tt); ordered = (tt, tt); limit = omega arith }

node_real : (n : ℕ) → NodeInfo.is_fake (node n) ≡ false
unfolding NodeInfo.is_fake Token.equal Token.unknown_ver
node_real n = refl

abbrev calls : List Call
calls =
    Call.add_node (node 3) ping_rsp 100
    ∷ Call.kick_node (id_of 3) 200
    ∷ Call.add_node (node 5) ping_rsp 200
    ∷ Call.tick (λ i. 7) 300 301
    ∷ []

calls-IsReal : All IsReal calls
calls-IsReal =
    let one : 0 < 1 = omega arith in
    (
      (node-IsSource 3, one, refl, node_real 3),
      (tt, ((node-IsSource 5, one, refl, node_real 5), (tt, tt))),
    )

init-steps_example :
    (next : NodeSpace) × (steps (NodeSpace.init (addr_of 0) 8 100 (replicate 20 9) (id_of 0)) calls
      ≡ ok (some next))
    × IsRouted next
init-steps_example = init-steps (addr_of 0) 8 100 (replicate 20 9) (id_of 0) calls refl calls-IsReal

abbrev limits : Limits
limits = record {
  zaddr = addr_of 0;
  init_next_tmo = 2;
  max_next_tmo = 100;
  max_next_tmo_unreachable = 400;
  next_tmo_step = 5;
  max_probe_tms = 3;
  max_ping_tms = 3;
}

abbrev peer : ℕ → Peer
peer n = record {
  conn = record { priority = 0; laddr = addr_of 0; raddr = addr_of n };
  nodei = node n;
  tick_ts = 50;
  next_tmo = 7;
  ntry_pings = 4;
  ntry_probes = 0;
}

abbrev bucket : PeerBucket
bucket = record {
  peers = record { used = 1; capc = 1; first = 1; items = some (some (peer 3) ∷ []) };
  ts = 0;
}

bucket-Holds : Holds bucket.peers (peer 3 ∷ [])
bucket-Holds = stored (peer 3 ∷ []) [] 1 (omega arith)

-- A table with buckets of at most `sz` peers.
abbrev table : ℕ → NodeSpace
table sz = record {
  myid = id_of 2;
  myver = replicate 20 9;
  limits = limits;
  bucket_sz = sz;
  buckets = bucket ∷ [];
}

others : All (Other (node 5)) (peer 3 ∷ [])
unfolding Token.equal
others = (refl, tt)

add_to_crowded_example :
    (w : Varray Peer) × (ys : List Peer) × (NodeSpace.add_to true true
        (table 1)
        bucket
        (node 5)
        ping_rsp
        90
      ≡ ok (some (record { peers = w; ts = 0 })))
    × Holds w ys
    × (map (λ (x : Peer). x.nodei) ys ≡ map (λ (x : Peer). x.nodei) (peer 3 ∷ []))
add_to_crowded_example =
    add_to_crowded (table 1) bucket (node 5) ping_rsp 90 bucket-Holds others (omega arith)

same_node : Token.equal (id_of 3) (id_of 3) ≡ true
unfolding Token.equal
same_node = refl

at_zero : get_elem? (table 8).buckets (Token.bucket (id_of 2) (id_of 3)) ≡ some bucket
unfolding Token.bucket Token.dist Token.distance Token.distance_from
at_zero = refl

not_own : Token.equal (id_of 2) (id_of 3) ≡ false
unfolding Token.equal
not_own = refl

-- The bucket of the ID that ends in 3 without it.
abbrev vacant : NodeSpace
vacant = record (table 8) {
  buckets =
      record {
        peers = record { used = 1; capc = 1; first = 1; items = some (some (peer 5) ∷ []) };
        ts = 0;
      }
      ∷ [];
}

vacant_at :
    get_elem? vacant.buckets (Token.bucket (id_of 2) (id_of 3))
    ≡ some (record {
      peers = record { used = 1; capc = 1; first = 1; items = some (some (peer 5) ∷ []) };
      ts = 0;
    })
unfolding Token.bucket Token.dist Token.distance Token.distance_from
vacant_at = refl

apart : All (Other (node 3)) (peer 5 ∷ [])
unfolding Token.equal
apart = (refl, tt)

add_node_room_example :
    (next : NodeSpace) × (v : Varray Peer) × (y : Peer) × (NodeSpace.add_node true true vacant
        (node 3)
        ping_rsp
        90
      ≡ ok (some next))
    × Changed vacant next (Token.bucket (id_of 2) (id_of 3)) (record { peers = v; ts = 90 })
    × Holds v (peer 5 ∷ y ∷ [])
    × Knows vacant (node 3) y
    × (y.nodei.addrs ≡ (node 3).addrs)
    × ((y.tick_ts ≡ 90) × (y.next_tmo ≡ 2) × (y.ntry_pings ≡ 0))
add_node_room_example =
    add_node_room vacant (node 3) ping_rsp 90 vacant_at not_own (node-IsSource 3) (omega arith)
      (stored (peer 5 ∷ []) [] 1 (omega arith)) apart (omega arith)

find_node_known_example :
    (d : NodeInfo) × (1 ≤ 12
      → NodeSpace.find_node true (table 8) (id_of 3) NodeInfo.relax_alloc ≡ ok (some d, true))
    × (12 < 1 → NodeSpace.find_node true (table 8) (id_of 3) NodeInfo.relax_alloc ≡ ok (none, true))
    × (d.addrs ≡ (node 3).addrs)
    × ((d.id ≡ id_of 3)
        × (d.ver ≡ replicate 20 9)
        × (d.weight
            ≡ (if Token.equal (node 3).ver (table 8).myver then decrement (pos 3) else pos 3)))
find_node_known_example =
    find_node_known (table 8) (id_of 3) at_zero [] [] (peer 3) bucket-Holds tt same_node
      NodeInfo.relax_alloc
      (record {
        fits = omega arith;
        backed = omega arith;
        step = refl;
        limit = omega arith;
        distinct = tt;
      })
      (node-IsSource 3)

iterate-ping_example :
    (w : Varray Peer) × (ys : List Peer) × (qs : List Query) × (Varray.iterate
        (Peer.ping_nodei_cb limits 90 91)
        bucket.peers
        []
      ≡ ok (w, qs))
    × Holds w ys
    × Ticked limits 90 91 (peer 3 ∷ []) ys qs
iterate-ping_example = iterate-ping limits 90 91 [] bucket-Holds

delay_bound_example :
    InBounds limits (Peer.pinged limits 90 (peer 3))
    × ((flag : AddBy) → InBounds limits (Peer.answered limits (peer 3) flag 90))
    × InBounds limits (NodeSpace.kicked limits 90 (peer 3))
delay_bound_example = delay_bound limits 90 (peer 3) (omega arith) (omega arith) (omega arith)

abbrev far_bucket : PeerBucket
far_bucket = record {
  peers = record { used = 1; capc = 1; first = 1; items = some (some (peer 6) ∷ []) };
  ts = 0;
}

abbrev two_buckets : NodeSpace
two_buckets = record (table 8) { buckets = bucket ∷ far_bucket ∷ [] }

two_buckets-Hold : Hold two_buckets.buckets (peer 3 ∷ peer 6 ∷ [])
two_buckets-Hold = Hold.bucket bucket (far_bucket ∷ []) (peer 3 ∷ []) (peer 6 ∷ []) bucket-Holds (
    Hold.bucket far_bucket [] (peer 6 ∷ []) [] (stored (peer 6 ∷ []) [] 1 (omega arith))
      Hold.no_bucket)

sieve : Candidates two_buckets (id_of 7) (peer 3 ∷ peer 6 ∷ []) (peer 3 ∷ peer 6 ∷ [])
unfolding Token.equal Token.unknown_ver
sieve =
    Candidates.taken (peer 3) (peer 6 ∷ []) (peer 6 ∷ []) (refl, refl, omega arith)
      (Candidates.taken (peer 6) [] [] (refl, refl, omega arith) Candidates.no_peer)

zeros : (k : ℕ) → IsBytes (replicate k 0)
zeros zero = tt
zeros (suc k) = (omega arith, zeros k)

id_of-IsId : (n : ℕ) → n < 256 → IsId (id_of n)
id_of-IsId n h = (refl, All-append (λ x. x < 256) (replicate 19 0) (n ∷ []) (zeros 19) (h, tt))

find_closest_nodes_lem_example :
    (w : Varray NodeInfo) × (ds : List NodeInfo) × (rs : List Peer) × (Closest.find_closest_nodes
        true true true two_buckets
        (id_of 7)
        (Varray.init 8)
        1
      ≡ ok (w, 1))
    × Holds w ds
    × Ordered two_buckets (id_of 7) (peer 3 ∷ peer 6 ∷ []) [] rs
    × Copies (replicate 20 9) (take 1 rs) ds
find_closest_nodes_lem_example =
    find_closest_nodes_lem two_buckets (id_of 7) 1 (omega arith) two_buckets-Hold
      (node-IsSource 3, (node-IsSource 6, tt)) (id_of-IsId 7 (omega arith))
      (id_of-IsId 3 (omega arith), (id_of-IsId 6 (omega arith), tt)) sieve (omega arith)
      (init-Holds 8)

abbrev samples : List Sample
samples =
    record { cpu = some 9; mem = some 3; io = none; net = some (1, 2) }
    ∷ record { cpu = some 10; mem = some 10; io = some 10; net = some (10, 10) }
    ∷ []

init-indices_example : All (λ i. i ≤ 21) (indices NodeNice.init samples)
init-indices_example = init-indices samples
