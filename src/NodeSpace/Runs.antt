-- ===== src/NodeSpace/Runs.antt =====
-- vroute_node.c: the tables that the operations reach from the empty one.
use vdht.Base.{
  ℕ, ◌<◌, ◌≡◌, refl, true, false, List, [], ◌∷◌, length, Option, none, some, All, Run, ok, ◌>>=◌,
}
use vdht.Addrs.{SockAddr}
use vdht.NodeInfo
use vdht.NodeInfo.{NodeInfo, NodeConn}
use vdht.NodeInfo.Copy.{IsSource}
use vdht.NodeSpace
use vdht.NodeSpace.{NodeSpace}
use vdht.NodeSpace.Keeps.{add_node-IsRouted, kick_node-IsRouted, adjust_connectivity-IsRouted}
use vdht.NodeSpace.Routed.{IsRouted, init-IsRouted}
use vdht.NodeSpace.Tick.{tick-IsRouted}
use vdht.Peer.{AddBy}
use vdht.Token.{Token}

-- A call of one of the operations that look a node up by its ID.
pub data Call : Type 0 where
  add_node : (nodei : NodeInfo) → (flag : AddBy) → (now : ℕ) → Call
  kick_node : (id : Token) → (now : ℕ) → Call
  adjust_connectivity : (id : Token) → (conn : NodeConn) → Call
  tick : (rand : ℕ → ℕ) → (now : ℕ) → (later : ℕ) → Call

abbrev pub step : NodeSpace → Call → Run (Option NodeSpace)
step space (add_node nodei flag now) = NodeSpace.add_node true true space nodei flag now
step space (kick_node id now) = NodeSpace.kick_node space id now >>= λ r. ok (some r.0)
step space (adjust_connectivity id conn) =
    NodeSpace.adjust_connectivity space id conn >>= λ next. ok (some next)
step space (tick rand now later) = NodeSpace.tick space rand now later >>= λ r. ok (some r.0)

abbrev pub steps : NodeSpace → List Call → Run (Option NodeSpace)
steps space [] = ok (some space)
steps space (call ∷ calls) =
    step space call >>= λ r. elim r [ none ↦ ok none | some next ↦ steps next calls ]

-- The nodes that are added are not fake and come with their addresses in order.
abbrev pub IsReal : Call → Type 0
IsReal (add_node nodei flag now) =
    IsSource nodei.addrs
    × (0 < length nodei.addrs)
    × (length nodei.id ≡ 20)
    × (NodeInfo.is_fake nodei ≡ false)
IsReal (kick_node id now) = Unit
IsReal (adjust_connectivity id conn) = Unit
IsReal (tick rand now later) = Unit

step-IsRouted :
    (space : NodeSpace) (call : Call)
    → IsRouted space
    → IsReal call
    → (next : NodeSpace) × (step space call ≡ ok (some next)) × IsRouted next
step-IsRouted space (add_node nodei flag now) r (source, some_addr, size, real) =
    add_node-IsRouted space nodei flag now r source some_addr size real
step-IsRouted space (kick_node id now) r real =
    let (next, found, run, routed) = kick_node-IsRouted space id r now in (next, rw run, routed)
step-IsRouted space (adjust_connectivity id conn) r real =
    let (next, run, routed) = adjust_connectivity-IsRouted space id r conn in (next, rw run, routed)
step-IsRouted space (tick rand now later) r real =
    let (next, log, run, routed) = tick-IsRouted space rand now later r in (next, rw run, routed)

steps-IsRouted :
    (space : NodeSpace) (calls : List Call)
    → IsRouted space
    → All IsReal calls
    → (next : NodeSpace) × (steps space calls ≡ ok (some next)) × IsRouted next
steps-IsRouted space [] r real = (space, refl, r)
steps-IsRouted space (call ∷ calls) r real =
    let (mid, run, routed) = step-IsRouted space call r real.0 in
    let (next, rest, done) = steps-IsRouted mid calls routed real.1 in
    (next, rw (run, ◌>>=◌) rest, done)

-- From the empty node table of an ID of twenty bytes, with memory, every sequence of calls of
-- add_node, kick_node, adjust_connectivity and tick, where the nodes that are added are not fake
-- and have IDs of twenty bytes and between one and twelve distinct addresses in the order of their
-- kinds, returns, and leaves a table of 160 buckets that hold valid peers, at most the configured
-- number, each in the bucket of its ID and none twice.
pub init-steps :
    (zaddr : SockAddr) (bucket_sz max_next_tmo : ℕ) (myver myid : Token) (calls : List Call)
    → length myid ≡ 20
    → All IsReal calls
    → (next : NodeSpace) × (steps (NodeSpace.init zaddr bucket_sz max_next_tmo myver myid) calls
        ≡ ok (some next))
      × IsRouted next
init-steps zaddr bucket_sz max_next_tmo myver myid calls size real =
    steps-IsRouted (NodeSpace.init zaddr bucket_sz max_next_tmo myver myid) calls
      (init-IsRouted zaddr bucket_sz max_next_tmo myver myid size) real
