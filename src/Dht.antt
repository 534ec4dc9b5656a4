-- ===== src/Dht.antt =====
-- vdht.c, vdht.h: the messages of the protocol, as bencoded dictionaries.
-- A nonce, an ID and the records that a message carries are the bytes of their memory. The sizes of
-- the relaxed records and of an address are the compiler's.
pub mod Decode
pub mod Trees
pub mod Reads
pub mod Short
pub mod Long
pub mod Closest
pub mod Missing
use Prim.Native.String.{String}
use Prim.Native.Char.{code}
use vdht.Base.{
  ℕ, zero, suc, ◌++◌, if◌then◌else◌, Bool, true, false, List, [], ◌∷◌, length, drop, Option, none,
  some, Run, ok, fault, ◌>>=◌,
}
use vdht.Bencode
use vdht.Bencode.{Bytes, Node, Read, got}
use vdht.Bencode.Dict
use vdht.Bencode.Encode
use vdht.Bencode.Encode.{c_str}

-- a text of the source
abbrev pub codes : String → Bytes
codes String.[] = []
codes (String.◌∷◌ c s) = code c ∷ codes s

-- VDHT_PING to VDHT_UNKNOWN
pub data DhtId : Type 0 where
  ping ping_r find_node find_node_r find_closest_nodes find_closest_nodes_r reflex reflex_r probe
        probe_r post_service find_service find_service_r unknown :
      DhtId

-- `struct vdhtId_desc`
pub record DhtIdDesc : Type 0 where
  pub id : DhtId
  pub desc : Bytes

-- `dhtId_query_desc`, `dhtId_rsp_desc`
abbrev pub query_desc : List DhtIdDesc
query_desc =
    record { id = ping; desc = codes "ping" }
    ∷ record { id = find_node; desc = codes "find_node" }
    ∷ record { id = find_closest_nodes; desc = codes "find_closest_nodes" }
    ∷ record { id = reflex; desc = codes "reflex" }
    ∷ record { id = probe; desc = codes "probe" }
    ∷ record { id = post_service; desc = codes "post_service" }
    ∷ record { id = find_service; desc = codes "find_service" }
    ∷ []

abbrev pub rsp_desc : List DhtIdDesc
rsp_desc =
    record { id = ping_r; desc = codes "ping" }
    ∷ record { id = find_node_r; desc = codes "find_node" }
    ∷ record { id = find_closest_nodes_r; desc = codes "find_closest_nodes" }
    ∷ record { id = reflex_r; desc = codes "reflex" }
    ∷ record { id = probe_r; desc = codes "probe" }
    ∷ record { id = find_service_r; desc = codes "find_service" }
    ∷ []

-- the loop of `vdht_get_queryId` and of `vdht_get_rspId`
unfoldable pub search_desc : List DhtIdDesc → Bytes → DhtId
unfolding Dict.same_text
search_desc [] desc = unknown
search_desc (d ∷ ds) desc = elim (Dict.same_text d.desc (c_str desc)) [
  | true ↦ d.id
  | false ↦ search_desc ds desc
]

unfoldable pub get_query_id : Bytes → DhtId
unfolding search_desc
get_query_id desc = search_desc query_desc desc

unfoldable pub get_rsp_id : Bytes → DhtId
unfolding search_desc
get_rsp_id desc = search_desc rsp_desc desc

-- The encoder: a new dictionary, and an entry of it.
new_node : Read Node → Run Node
new_node (got node rest) = ok node
new_node _ = fault

unfoldable pub new_dict : Run Node
unfolding Dict.create_dict new_node
new_dict = new_node Dict.create_dict

unfoldable pub new_list : Run Node
unfolding Dict.create_list new_node
new_list = new_node Dict.create_list

unfoldable pub put_buf : Node → String → Bytes → Run Node
unfolding Dict.create_buf Dict.add_keypair
put_buf msg key buf = Dict.create_buf buf >>= λ node. Dict.add_keypair msg (codes key) node

unfoldable pub put_str : Node → String → String → Run Node
unfolding Dict.add_keypair
put_str msg key text = Dict.add_keypair msg (codes key) (Dict.create_str (codes text))

-- the entries `t`, `y` and `q` or `r` of a message
unfoldable pub head : String → String → Bytes → Run Node
head kind name nonce = new_dict >>= λ msg. put_buf msg "t" nonce >>= λ with_nonce.
    put_str with_nonce "y" kind >>= λ with_kind. put_str with_kind kind name

-- the entry `a`, and `be_encode`
unfoldable pub finish : Node → Node → ℕ → Run (Option Bytes)
finish msg args sz = Dict.add_keypair msg (codes "a") args >>= λ whole. Encode.encode sz whole

-- a message that says who sends it, and one that says another thing too
unfoldable pub enc_short : String → String → Bytes → Bytes → ℕ → Run (Option Bytes)
enc_short kind name nonce src_id sz = head kind name nonce >>= λ msg.
    new_dict >>= λ args. put_buf args "id" src_id >>= λ with_id. finish msg with_id sz

unfoldable pub enc_long : String → String → String → Bytes → Bytes → Bytes → ℕ → Run (Option Bytes)
enc_long kind name key nonce src_id value sz = head kind name nonce >>= λ msg. new_dict >>= λ args.
    put_buf args "id" src_id >>= λ with_id.
    put_buf with_id key value >>= λ with_value. finish msg with_value sz

-- the loop over the array of records
unfoldable pub put_nodes : Node → List Bytes → Run Node
put_nodes items [] = ok items
put_nodes items (nodei ∷ closest) =
    Dict.create_buf nodei >>= λ node. Dict.add_list items node >>= λ more. put_nodes more closest

-- `_vdht_enc_ping` to `_vdht_enc_find_service_rsp`
unfoldable pub enc_ping : Bytes → Bytes → ℕ → Run (Option Bytes)
enc_ping nonce src_id sz = enc_short "q" "ping" nonce src_id sz

unfoldable pub enc_ping_rsp : Bytes → Bytes → Bytes → ℕ → Run (Option Bytes)
enc_ping_rsp nonce src_id result sz = enc_long "r" "ping" "node" nonce src_id result sz

unfoldable pub enc_find_node : Bytes → Bytes → Bytes → ℕ → Run (Option Bytes)
enc_find_node nonce src_id target_id sz =
    enc_long "q" "find_node" "target" nonce src_id target_id sz

unfoldable pub enc_find_node_rsp : Bytes → Bytes → Bytes → ℕ → Run (Option Bytes)
enc_find_node_rsp nonce src_id result sz = enc_long "r" "find_node" "node" nonce src_id result sz

unfoldable pub enc_find_closest_nodes : Bytes → Bytes → Bytes → ℕ → Run (Option Bytes)
enc_find_closest_nodes nonce src_id target_id sz =
    enc_long "q" "find_closest_nodes" "target" nonce src_id target_id sz

unfoldable pub enc_find_closest_nodes_rsp : Bytes → Bytes → List Bytes → ℕ → Run (Option Bytes)
enc_find_closest_nodes_rsp nonce src_id closest sz = head "r" "find_closest_nodes" nonce >>= λ msg.
    new_dict >>= λ args. put_buf args "id" src_id >>= λ with_id. new_list >>= λ items.
    put_nodes items closest >>= λ nodes.
    Dict.add_keypair with_id (codes "nodes") nodes >>= λ rslt. finish msg rslt sz

unfoldable pub enc_reflex : Bytes → Bytes → ℕ → Run (Option Bytes)
enc_reflex nonce src_id sz = enc_short "q" "reflex" nonce src_id sz

unfoldable pub enc_reflex_rsp : Bytes → Bytes → Bytes → ℕ → Run (Option Bytes)
enc_reflex_rsp nonce src_id addr sz = enc_long "r" "reflex" "m" nonce src_id addr sz

unfoldable pub enc_probe : Bytes → Bytes → Bytes → ℕ → Run (Option Bytes)
enc_probe nonce src_id dest_id sz = enc_long "q" "probe" "target" nonce src_id dest_id sz

unfoldable pub enc_probe_rsp : Bytes → Bytes → ℕ → Run (Option Bytes)
enc_probe_rsp nonce src_id sz = enc_short "r" "probe" nonce src_id sz

unfoldable pub enc_post_service : Bytes → Bytes → Bytes → ℕ → Run (Option Bytes)
enc_post_service nonce src_id srvci sz = enc_long "q" "post_service" "service" nonce src_id srvci sz

unfoldable pub enc_find_service : Bytes → Bytes → Bytes → ℕ → Run (Option Bytes)
enc_find_service nonce src_id srvc_hash sz =
    enc_long "q" "find_service" "target" nonce src_id srvc_hash sz

unfoldable pub enc_find_service_rsp : Bytes → Bytes → Bytes → ℕ → Run (Option Bytes)
enc_find_service_rsp nonce src_id result sz =
    enc_long "r" "find_service" "service" nonce src_id result sz
