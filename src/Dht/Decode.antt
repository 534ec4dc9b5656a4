-- ===== src/Dht/Decode.antt =====
-- vdht.c: reading messages.
-- What a decoder fills is an argument, and the result is what it holds then. A value of the wrong
-- kind that is used as a text is an address that is not one: a fault.
use Prim.Native.String.{String}
use vdht.Base.{
  ℕ, zero, suc, ◌++◌, if◌then◌else◌, Bool, true, false, List, [], ◌∷◌, length, drop, Option, none,
  some, Run, ok, fault, ◌>>=◌,
}
use vdht.Bencode
use vdht.Bencode.{Bytes, Node, Nodes, Read, got, null, crash, starved, str, list, nil, cons}
use vdht.Bencode.Dict
use vdht.Bencode.Encode.{c_str}
use vdht.Dht
use vdht.Dht.{DhtId, codes, unknown}

-- `node->val.s`
abbrev pub text_of : Option Node → Run Bytes
text_of none = fault
text_of (some (str s)) = ok s
text_of (some _) = fault

abbrev pub is_dict : Node → Bool
is_dict (Node.dict d) = true
is_dict _ = false

-- `_aux_unpack_dhtId`; `none` is a result of -1
unfoldable pub unpack_dht_id : Node → Run (Option DhtId)
unfolding Dict.find_node Dict.same_text Dht.get_query_id Dht.get_rsp_id
unpack_dht_id msg =
    if is_dict msg
    then (text_of (Dict.find_node msg (codes "y")) >>= λ kind.
        if Dict.same_text (c_str kind) (codes "q")
        then (text_of (Dict.find_node msg (codes "q")) >>= λ name.
            ok (some (Dht.get_query_id name)))
        else if Dict.same_text (c_str kind) (codes "r")
        then (text_of (Dict.find_node msg (codes "r")) >>= λ name. ok (some (Dht.get_rsp_id name)))
        else ok (some unknown))
    else ok none

-- `_vdht_dec_begin`; `none` is a result of -1
abbrev pub known : Node → Option DhtId → Option (DhtId × Node)
known msg none = none
known msg (some unknown) = none
known msg (some id) = some (id, msg)

abbrev pub begun : Read Node → Run (Option (DhtId × Node))
begun (got msg rest) = unpack_dht_id msg >>= λ id. ok (known msg id)
begun null = ok none
begun crash = fault
begun starved = fault

unfoldable pub dec_begin : Bytes → ℕ → Run (Option (DhtId × Node))
dec_begin memory len = begun (Bencode.be_decode memory len)

-- `be_find_node` and `be_unpack_buf`, whose assertions fail on NULL
abbrev pub find_in : Option Node → String → Run (Option Node)
find_in none key = fault
find_in (some node) key = ok (Dict.find_node node (codes key))

abbrev pub copied : Bytes → Option Bytes → Bytes
copied old none = old
copied old (some s) = s ++ drop (length s) old

abbrev pub unpack : Option Node → ℕ → Bytes → Run Bytes
unpack none sz old = fault
unpack (some node) sz old = Dict.unpack_buf node sz >>= λ r. ok (copied old r)

-- sizeof of vnonce and vnodeId
abbrev pub nonce_sz : ℕ
nonce_sz = 4

abbrev pub id_sz : ℕ
id_sz = 20

-- the decoders of nonce and ID, and of a third value
unfoldable pub dec_short : Node → Bytes → Bytes → Run (Bytes × Bytes)
unfolding Dict.find_node Dict.unpack_buf
dec_short msg nonce src_id = unpack (Dict.find_node msg (codes "t")) nonce_sz nonce >>= λ n.
    find_in (Dict.find_node msg (codes "a")) "id" >>= λ node.
    unpack node id_sz src_id >>= λ i. ok (n, i)

unfoldable pub dec_long : String → ℕ → Node → Bytes → Bytes → Bytes → Run (Bytes × Bytes × Bytes)
unfolding Dict.find_node Dict.unpack_buf
dec_long key sz msg nonce src_id value =
    unpack (Dict.find_node msg (codes "t")) nonce_sz nonce >>= λ n.
    find_in (Dict.find_node msg (codes "a")) "id" >>= λ node. unpack node id_sz src_id >>= λ i.
    find_in (Dict.find_node msg (codes "a")) key >>= λ other.
    unpack other sz value >>= λ v. ok (n, i, v)

unfoldable pub dec_ping : Node → Bytes → Bytes → Run (Bytes × Bytes)
dec_ping msg nonce src_id = dec_short msg nonce src_id

unfoldable pub dec_reflex : Node → Bytes → Bytes → Run (Bytes × Bytes)
dec_reflex msg nonce src_id = dec_short msg nonce src_id

unfoldable pub dec_probe_rsp : Node → Bytes → Bytes → Run (Bytes × Bytes)
dec_probe_rsp msg nonce src_id = dec_short msg nonce src_id

unfoldable pub dec_find_node : Node → Bytes → Bytes → Bytes → Run (Bytes × Bytes × Bytes)
dec_find_node msg nonce src_id target_id = dec_long "target" id_sz msg nonce src_id target_id

unfoldable pub dec_find_closest_nodes : Node → Bytes → Bytes → Bytes → Run (Bytes × Bytes × Bytes)
dec_find_closest_nodes msg nonce src_id target_id =
    dec_long "target" id_sz msg nonce src_id target_id

unfoldable pub dec_probe : Node → Bytes → Bytes → Bytes → Run (Bytes × Bytes × Bytes)
dec_probe msg nonce src_id dest_id = dec_long "target" id_sz msg nonce src_id dest_id

unfoldable pub dec_find_service : Node → Bytes → Bytes → Bytes → Run (Bytes × Bytes × Bytes)
dec_find_service msg nonce src_id srvc_hash = dec_long "target" id_sz msg nonce src_id srvc_hash

-- The sizes of vnodeInfo_relax, vsrvcInfo_relax and `struct vsockaddr_in`, and the memory that
-- `vnodeInfo_relax_alloc` gives.
module _ (node_sz srvc_sz addr_sz : ℕ) (relaxed : Bytes) where
  unfoldable pub dec_ping_rsp : Node → Bytes → Bytes → Run (Bytes × Bytes)
  unfolding Dict.find_node Dict.unpack_buf
  dec_ping_rsp msg nonce result = unpack (Dict.find_node msg (codes "t")) nonce_sz nonce >>= λ n.
      find_in (Dict.find_node msg (codes "a")) "node" >>= λ node.
      unpack node node_sz result >>= λ v. ok (n, v)

  unfoldable pub dec_find_node_rsp : Node → Bytes → Bytes → Bytes → Run (Bytes × Bytes × Bytes)
  dec_find_node_rsp msg nonce src_id result = dec_long "node" node_sz msg nonce src_id result

  unfoldable pub dec_reflex_rsp : Node → Bytes → Bytes → Bytes → Run (Bytes × Bytes × Bytes)
  dec_reflex_rsp msg nonce src_id addr = dec_long "m" addr_sz msg nonce src_id addr

  unfoldable pub dec_post_service : Node → Bytes → Bytes → Bytes → Run (Bytes × Bytes × Bytes)
  dec_post_service msg nonce src_id srvci = dec_long "service" srvc_sz msg nonce src_id srvci

  unfoldable pub dec_find_service_rsp : Node → Bytes → Bytes → Bytes → Run (Bytes × Bytes × Bytes)
  dec_find_service_rsp msg nonce src_id result = dec_long "service" srvc_sz msg nonce src_id result

  -- the loop over `tmp->val.l`, where `vnodeInfo_relax_alloc` gives memory for `allocs` records
  unfoldable pub unpack_nodes : ℕ → Nodes → Run (List Bytes)
  unfolding Dict.unpack_buf
  unpack_nodes allocs nil = ok []
  unpack_nodes zero (cons node nodes) = ok []
  unpack_nodes (suc allocs) (cons node nodes) = unpack (some node) node_sz relaxed >>= λ nodei.
      unpack_nodes allocs nodes >>= λ closest. ok (nodei ∷ closest)

  abbrev list_of : Option Node → Run Nodes
  list_of (some (list l)) = ok l
  list_of _ = fault

  -- `closest` is the array of the caller, which is empty; adding to it is taken to succeed
  unfoldable pub dec_find_closest_nodes_rsp :
      ℕ → Node → Bytes → Bytes → Run (Bytes × Bytes × List Bytes)
  unfolding Dict.find_node Dict.unpack_buf unpack_nodes
  dec_find_closest_nodes_rsp allocs msg nonce src_id =
      unpack (Dict.find_node msg (codes "t")) nonce_sz nonce >>= λ n.
      find_in (Dict.find_node msg (codes "a")) "id" >>= λ node. unpack node id_sz src_id >>= λ i.
      find_in (Dict.find_node msg (codes "a")) "nodes" >>= λ nodes.
      list_of nodes >>= λ l. unpack_nodes allocs l >>= λ closest. ok (n, i, closest)
