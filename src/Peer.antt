-- ===== src/Peer.antt =====
-- vroute_node.c: a peer of the routing table and what the callbacks over a bucket do to it.
-- `mem` says whether `realloc` succeeds; the results of `time` are arguments. The calls of
-- `dht_ops`, which send a query, are logged; no callback looks at more than their sign, and a
-- negative one does not stop the loop over the bucket.
pub mod Merged
pub mod Worst
pub mod Ping
use vdht.Base.{
  ℕ, zero, suc, ◌+◌, ◌-◌, ◌*◌, ◌==◌, ltb, leb, min, if◌then◌else◌, Bool, true, false, not, ◌&&◌,
  List, [], ◌∷◌, ◌++◌, length, get_elem?, replicate, Option, none, some, ℤ, pos, ltb_int, Run, ok,
  fault, ◌>>=◌,
}
use vdht.Addrs.{SockAddr, VSockAddr}
use vdht.NodeInfo
use vdht.NodeInfo.{NodeInfo, NodeConn}
use vdht.SrvcInfo.{SrvcInfo}
use vdht.Token
use vdht.Token.{Token, token_len}

-- `struct vpeer`
pub record Peer : Type 0 where
  pub conn : NodeConn
  pub nodei : NodeInfo
  pub tick_ts : ℕ
  pub next_tmo : ℕ
  pub ntry_pings : ℕ
  pub ntry_probes : ℕ

-- what the peers use of `struct vroute_node_space`
pub record Limits : Type 0 where
  pub zaddr : SockAddr
  pub init_next_tmo : ℕ
  pub max_next_tmo : ℕ
  pub max_next_tmo_unreachable : ℕ
  pub next_tmo_step : ℕ
  pub max_probe_tms : ℕ
  pub max_ping_tms : ℕ

-- VADD_BY_OTHER, VADD_BY_PING_RSP
pub data AddBy : Type 0 where
  other : AddBy
  ping_rsp : AddBy

-- the calls of `route->dht_ops`
pub data Query : Type 0 where
  ping : (conn : NodeConn) → Query
  find_node : (conn : NodeConn) → (target_id : Token) → Query
  find_closest_nodes : (conn : NodeConn) → (target_id : Token) → Query
  post_service : (conn : NodeConn) → (srvci : SrvcInfo) → Query
  find_service : (conn : NodeConn) → (hash : Token) → Query
  reflex : (conn : NodeConn) → Query
  probe : (conn : NodeConn) → (target_id : Token) → Query

-- `vpeer_alloc`: all zero, the capacity of the record too
abbrev pub blank : SockAddr → Peer
blank zero_addr = record {
  conn = record { priority = 0; laddr = zero_addr; raddr = zero_addr };
  nodei = record (NodeInfo.alloc) { capc = 0 };
  tick_ts = 0;
  next_tmo = 0;
  ntry_pings = 0;
  ntry_probes = 0;
}

-- `vpeer_init`, which does not look at the result of `vnodeInfo_copy`
unfoldable pub peer_init : Bool → Limits → Peer → NodeInfo → ℕ → Run Peer
unfolding NodeInfo.copy NodeInfo.worst_addr NodeInfo.conn_set_raw
peer_init mem space peer nodei now = NodeInfo.copy mem peer.nodei nodei >>= λ r.
    NodeInfo.worst_addr r.0 >>= λ addr. ok (record {
      conn = NodeInfo.conn_set_raw space.zaddr addr;
      nodei = r.0;
      tick_ts = now;
      next_tmo = space.init_next_tmo;
      ntry_pings = 0;
      ntry_probes = 0;
    })

-- the switch of `vpeer_update`
unfoldable pub answered : Limits → Peer → AddBy → ℕ → Peer
answered space peer other now = peer
answered space peer ping_rsp now = record peer {
  next_tmo =
      if ltb 2 peer.ntry_pings
      then space.init_next_tmo
      else min (peer.next_tmo + space.next_tmo_step) space.max_next_tmo;
  ntry_pings = 0;
  tick_ts = now;
}

-- the part behind `vnodeInfo_merge`
unfoldable pub merged : Limits → Peer → NodeInfo × Option Bool → Run (Peer × Option Bool)
unfolding NodeInfo.worst_addr NodeInfo.conn_set_raw
merged space peer (nodei, none) = ok (record peer { nodei = nodei }, none)
merged space peer (nodei, some false) = ok (record peer { nodei = nodei }, some false)
merged space peer (nodei, some true) = NodeInfo.worst_addr nodei >>= λ addr. ok (
  record peer { nodei = nodei; conn = NodeInfo.conn_set_raw space.zaddr addr; ntry_probes = 0 },
  some true,
)

-- `vpeer_update`
unfoldable pub peer_update : Bool → Limits → Peer → NodeInfo → AddBy → ℕ → Run (Peer × Option Bool)
unfolding answered NodeInfo.merge merged
peer_update mem space peer nodei flag now =
    NodeInfo.merge mem peer.nodei nodei >>= λ r. merged space (answered space peer flag now) r

-- the cookie of the search for the worst peer; `seen` counts the peers, so that `want` can be an
-- index
pub record Search : Type 0 where
  pub seen : ℕ
  pub min_wgt : ℤ
  pub max_try : ℕ
  pub found : Bool
  pub want : Option ℕ

-- `_aux_space_find_worst_nodei_cb`
unfoldable pub find_worst_cb : NodeInfo → Peer → Search → Peer × Search × Bool
find_worst_cb nodei peer c =
    if Token.equal peer.nodei.id nodei.id
    then (peer, record c { seen = c.seen + 1; want = some c.seen; found = true }, true)
    else if ltb c.max_try peer.ntry_pings
    then (
      peer,
      record c { seen = c.seen + 1; want = some c.seen; max_try = peer.ntry_pings },
      false,
    )
    else if ltb_int peer.nodei.weight c.min_wgt
    then (
      peer,
      record c { seen = c.seen + 1; want = some c.seen; min_wgt = peer.nodei.weight },
      false,
    )
    else (peer, record c { seen = c.seen + 1 }, false)

-- the guards that the four callbacks below share
unfoldable pub unreachable : Limits → Peer → Bool
unreachable space peer = leb space.max_next_tmo_unreachable peer.next_tmo

unfoldable pub unfit : Limits → Peer → Bool
unfolding unreachable NodeInfo.is_fake
unfit space peer = if unreachable space peer then true else NodeInfo.is_fake peer.nodei

-- `_aux_space_probe_node_cb`, `_aux_space_air_service_cb`, `_aux_space_probe_service_cb`
unfoldable pub probe_node_cb : Limits → Token → Peer → List Query → Peer × List Query × Bool
unfolding unfit
probe_node_cb space target_id peer log =
    if unfit space peer
    then (peer, log, false)
    else (peer, log ++ find_node peer.conn target_id ∷ [], false)

unfoldable pub air_service_cb : Limits → SrvcInfo → Peer → List Query → Peer × List Query × Bool
unfolding unfit
air_service_cb space srvci peer log =
    if unfit space peer
    then (peer, log, false)
    else (peer, log ++ post_service peer.conn srvci ∷ [], false)

unfoldable pub probe_service_cb : Limits → Token → Peer → List Query → Peer × List Query × Bool
unfolding unfit
probe_service_cb space hash peer log =
    if unfit space peer
    then (peer, log, false)
    else (peer, log ++ find_service peer.conn hash ∷ [], false)

-- `_aux_space_reflex_addr_cb`; `is_public` is `vsockaddr_is_public`
unfoldable pub reflex_addr_cb :
    (SockAddr → Bool) → Limits → SockAddr → Peer → List Query → Peer × List Query × Bool
unfolding unreachable NodeInfo.conn_set_raw
reflex_addr_cb is_public space addr peer log =
    if unreachable space peer
    then (peer, log, false)
    else if not (is_public peer.conn.raddr)
    then (peer, log, false)
    else (peer, log ++ reflex (NodeInfo.conn_set_raw addr peer.conn.raddr) ∷ [], false)

-- the loop of `_aux_space_probe_connectivity_cb`, which takes `addrs[0]` in each of its rounds
unfoldable pub probe_addrs : VSockAddr → Option VSockAddr → Token → ℕ → List Query → List Query
unfolding NodeInfo.conn_set
probe_addrs laddr none id n log = log
probe_addrs laddr (some first) id zero log = log
probe_addrs laddr (some first) id (suc n) log =
    probe_addrs laddr (some first) id n (log ++ probe (NodeInfo.conn_set laddr first) id ∷ [])

-- `_aux_space_probe_connectivity_cb`
unfoldable pub probe_connectivity_cb :
    Limits → VSockAddr → Peer → List Query → Peer × List Query × Bool
unfolding unfit probe_addrs
probe_connectivity_cb space laddr peer log =
    if leb space.max_probe_tms peer.ntry_probes
    then (peer, log, false)
    else if unfit space peer
    then (peer, log, false)
    else (
      record peer { ntry_probes = peer.ntry_probes + 1 },
      probe_addrs laddr (get_elem? peer.nodei.addrs 0) peer.nodei.id (length peer.nodei.addrs) log,
      false,
    )

-- the tests before the `ping` of `_aux_space_ping_nodei_cb`
unfoldable pub is_due : Limits → ℕ → Peer → Bool
unfolding NodeInfo.is_fake
is_due space now peer =
    if ltb now (peer.tick_ts + peer.next_tmo)
    then false
    else not (ltb space.max_ping_tms peer.ntry_pings && NodeInfo.is_fake peer.nodei)

-- the changes behind it; `later` is the time then
unfoldable pub pinged : Limits → ℕ → Peer → Peer
pinged space later peer = record peer {
  ntry_pings = peer.ntry_pings + 1;
  tick_ts = later;
  next_tmo =
      if ltb space.max_ping_tms (peer.ntry_pings + 1)
      then min (peer.next_tmo + space.next_tmo_step) space.max_next_tmo_unreachable
      else peer.next_tmo;
}

-- `_aux_space_ping_nodei_cb`
unfoldable pub ping_nodei_cb : Limits → ℕ → ℕ → Peer → List Query → Peer × List Query × Bool
ping_nodei_cb space now later peer log =
    if is_due space now peer
    then (pinged space later peer, log ++ ping peer.conn ∷ [], false)
    else (peer, log, false)
