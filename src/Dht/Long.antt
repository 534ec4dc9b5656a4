-- ===== src/Dht/Long.antt =====
-- vdht.c: messages of a nonce, an ID and a value, written and read.
use Prim.Native.String.{String}
use vdht.Base.{
  ℕ, ◌^◌, ◌<◌, ◌≤◌, ◌≡◌, refl, ◌∙◌, [], ◌++◌, length, drop, Option, some, Run, ok, ◌>>=◌, arith,
}
use vdht.Bencode.{Bytes, Node, str}
use vdht.Bencode.Dict
use vdht.Bencode.Encode
use vdht.Bencode.Encode.{c_str}
use vdht.Bencode.Encoded.{be_decode-encode}
use vdht.Bencode.Printed.{print, IsSane}
use vdht.Dht
use vdht.Dht.{DhtId, codes}
use vdht.Dht.Decode
use vdht.Dht.Decode.{unpack, find_in, nonce_sz, id_sz}
use vdht.Dht.Trees.{envelope, sender_with, enc_long_lem}
use vdht.Dht.Reads.{
  unpack_lem, unpack_whole, begun_lem, dec_long_lem, IsText, envelope-IsSane, sender_with-IsSane,
}

-- The messages that carry one value more.
pub data LongKind : Type 0 where
  ping_rsp find_node find_node_rsp find_closest_nodes reflex_rsp probe post_service find_service
        find_service_rsp :
      LongKind

-- The values of `y` and of `q` or `r`, the key of the value, and the identifier.
abbrev pub long_kind : LongKind → String
long_kind find_node = "q"
long_kind find_closest_nodes = "q"
long_kind probe = "q"
long_kind post_service = "q"
long_kind find_service = "q"
long_kind _ = "r"

abbrev pub long_name : LongKind → String
long_name ping_rsp = "ping"
long_name find_node = "find_node"
long_name find_node_rsp = "find_node"
long_name find_closest_nodes = "find_closest_nodes"
long_name reflex_rsp = "reflex"
long_name probe = "probe"
long_name post_service = "post_service"
long_name find_service = "find_service"
long_name find_service_rsp = "find_service"

abbrev pub long_key : LongKind → String
long_key ping_rsp = "node"
long_key find_node_rsp = "node"
long_key reflex_rsp = "m"
long_key post_service = "service"
long_key find_service_rsp = "service"
long_key _ = "target"

abbrev pub long_id : LongKind → DhtId
long_id ping_rsp = DhtId.ping_r
long_id find_node = DhtId.find_node
long_id find_node_rsp = DhtId.find_node_r
long_id find_closest_nodes = DhtId.find_closest_nodes
long_id reflex_rsp = DhtId.reflex_r
long_id probe = DhtId.probe
long_id post_service = DhtId.post_service
long_id find_service = DhtId.find_service
long_id find_service_rsp = DhtId.find_service_r

abbrev pub long_enc : LongKind → Bytes → Bytes → Bytes → ℕ → Run (Option Bytes)
long_enc ping_rsp = Dht.enc_ping_rsp
long_enc find_node = Dht.enc_find_node
long_enc find_node_rsp = Dht.enc_find_node_rsp
long_enc find_closest_nodes = Dht.enc_find_closest_nodes
long_enc reflex_rsp = Dht.enc_reflex_rsp
long_enc probe = Dht.enc_probe
long_enc post_service = Dht.enc_post_service
long_enc find_service = Dht.enc_find_service
long_enc find_service_rsp = Dht.enc_find_service_rsp

abbrev pub long_tree : LongKind → Bytes → Bytes → Bytes → Node
long_tree k nonce src_id value =
    envelope (long_kind k) (long_name k) nonce (sender_with src_id (long_key k) (str value))

long_id-long_tree :
    (k : LongKind) (nonce src_id value : Bytes)
    → (Decode.unpack_dht_id (long_tree k nonce src_id value) ≡ ok (some (long_id k)))
      × (Decode.known (long_tree k nonce src_id value) (some (long_id k))
          ≡ some (long_id k, long_tree k nonce src_id value))
unfolding Decode.unpack_dht_id Dict.find_node Dict.find_pair Dict.same_text Dht.get_query_id
    Dht.get_rsp_id Dht.search_desc
long_id-long_tree ping_rsp nonce src_id value = (refl, refl)
long_id-long_tree find_node nonce src_id value = (refl, refl)
long_id-long_tree find_node_rsp nonce src_id value = (refl, refl)
long_id-long_tree find_closest_nodes nonce src_id value = (refl, refl)
long_id-long_tree reflex_rsp nonce src_id value = (refl, refl)
long_id-long_tree probe nonce src_id value = (refl, refl)
long_id-long_tree post_service nonce src_id value = (refl, refl)
long_id-long_tree find_service nonce src_id value = (refl, refl)
long_id-long_tree find_service_rsp nonce src_id value = (refl, refl)

texts : (k : LongKind) → IsText (long_kind k) × IsText (long_name k) × IsText (long_key k)
texts ping_rsp = ((omega arith, refl), (omega arith, refl), (omega arith, refl))
texts find_node = ((omega arith, refl), (omega arith, refl), (omega arith, refl))
texts find_node_rsp = ((omega arith, refl), (omega arith, refl), (omega arith, refl))
texts find_closest_nodes = ((omega arith, refl), (omega arith, refl), (omega arith, refl))
texts reflex_rsp = ((omega arith, refl), (omega arith, refl), (omega arith, refl))
texts probe = ((omega arith, refl), (omega arith, refl), (omega arith, refl))
texts post_service = ((omega arith, refl), (omega arith, refl), (omega arith, refl))
texts find_service = ((omega arith, refl), (omega arith, refl), (omega arith, refl))
texts find_service_rsp = ((omega arith, refl), (omega arith, refl), (omega arith, refl))

long_tree-IsSane :
    (k : LongKind) (nonce src_id value : Bytes)
    → length nonce ≡ 4
    → length src_id ≡ 20
    → length value < 2 ^ 31
    → IsSane (long_tree k nonce src_id value)
unfolding IsSane
long_tree-IsSane k nonce src_id value h i small =
    let (kind, name, key) = texts k in
    envelope-IsSane (long_kind k) (long_name k) nonce (sender_with src_id (long_key k) (str value))
      kind name h (sender_with-IsSane src_id (long_key k) (str value) i key small)

long_enc-tree :
    (k : LongKind) (nonce src_id value : Bytes) (sz : ℕ)
    → length nonce ≡ 4
    → length src_id ≡ 20
    → 0 < length value
    → long_enc k nonce src_id value sz ≡ Encode.encode sz (long_tree k nonce src_id value)
unfolding Dht.enc_ping_rsp Dht.enc_find_node Dht.enc_find_node_rsp Dht.enc_find_closest_nodes
    Dht.enc_reflex_rsp Dht.enc_probe Dht.enc_post_service Dht.enc_find_service
    Dht.enc_find_service_rsp
long_enc-tree k nonce src_id value sz h i v =
    elim k
      as (λ k.
        long_enc k nonce src_id value sz ≡ Encode.encode sz (long_tree k nonce src_id value)) [
          | ping_rsp ↦
              enc_long_lem "r" "ping" "node" nonce src_id value sz (omega arith) (omega arith) v
          | find_node ↦
              enc_long_lem "q" "find_node" "target" nonce src_id value sz (omega arith)
                (omega arith) v
          | find_node_rsp ↦
              enc_long_lem "r" "find_node" "node" nonce src_id value sz (omega arith) (omega arith)
                v
          | find_closest_nodes ↦
              enc_long_lem "q" "find_closest_nodes" "target" nonce src_id value sz (omega arith)
                (omega arith) v
          | reflex_rsp ↦
              enc_long_lem "r" "reflex" "m" nonce src_id value sz (omega arith) (omega arith) v
          | probe ↦
              enc_long_lem "q" "probe" "target" nonce src_id value sz (omega arith) (omega arith) v
          | post_service ↦
              enc_long_lem "q" "post_service" "service" nonce src_id value sz (omega arith)
                (omega arith) v
          | find_service ↦
              enc_long_lem "q" "find_service" "target" nonce src_id value sz (omega arith)
                (omega arith) v
          | find_service_rsp ↦
              enc_long_lem "r" "find_service" "service" nonce src_id value sz (omega arith)
                (omega arith) v
        ]

-- The sizes of the relaxed records and of an address.
module _ (node_sz srvc_sz addr_sz : ℕ) (relaxed : Bytes) where
  abbrev pub long_sz : LongKind → ℕ
  long_sz ping_rsp = node_sz
  long_sz find_node_rsp = node_sz
  long_sz reflex_rsp = addr_sz
  long_sz post_service = srvc_sz
  long_sz find_service_rsp = srvc_sz
  long_sz _ = id_sz

  -- The decoder of ping_rsp does not read the ID.
  abbrev pub told : LongKind → Bytes → Bytes → Bytes
  told ping_rsp src_id i = i
  told _ src_id i = src_id

  abbrev pub long_dec : LongKind → Node → Bytes → Bytes → Bytes → Run (Bytes × Bytes × Bytes)
  long_dec ping_rsp msg n i old =
      Decode.dec_ping_rsp node_sz srvc_sz addr_sz relaxed msg n old >>= λ r. ok (r.0, i, r.1)
  long_dec find_node msg n i old = Decode.dec_find_node msg n i old
  long_dec find_node_rsp msg n i old =
      Decode.dec_find_node_rsp node_sz srvc_sz addr_sz relaxed msg n i old
  long_dec find_closest_nodes msg n i old = Decode.dec_find_closest_nodes msg n i old
  long_dec reflex_rsp msg n i old =
      Decode.dec_reflex_rsp node_sz srvc_sz addr_sz relaxed msg n i old
  long_dec probe msg n i old = Decode.dec_probe msg n i old
  long_dec post_service msg n i old =
      Decode.dec_post_service node_sz srvc_sz addr_sz relaxed msg n i old
  long_dec find_service msg n i old = Decode.dec_find_service msg n i old
  long_dec find_service_rsp msg n i old =
      Decode.dec_find_service_rsp node_sz srvc_sz addr_sz relaxed msg n i old

  module _ (nonce src_id value : Bytes) (h : length nonce ≡ 4) (i : length src_id ≡ 20)
      (full : 0 < length value) where
    ping_rsp_lem :
        length value ≤ node_sz
        → (n i0 old : Bytes) → length n ≡ 4
        → long_dec ping_rsp (long_tree ping_rsp nonce src_id value) n i0 old
          ≡ ok (nonce, i0, value ++ drop (length value) old)
    unfolding Decode.dec_ping_rsp Dict.find_node Dict.find_pair Dict.same_text
    ping_rsp_lem small n i0 old e =
        rw (unpack_whole nonce n 3 h e, unpack_lem value old node_sz full small)

    long_dec-tree :
        (k : LongKind)
        → length value ≤ long_sz k
        → (n i0 old : Bytes) → length n ≡ 4
        → length i0 ≡ 20
        → long_dec k (long_tree k nonce src_id value) n i0 old
          ≡ ok (nonce, told k src_id i0, value ++ drop (length value) old)
    unfolding Dict.find_node Dict.find_pair Dict.same_text Decode.dec_find_node
        Decode.dec_find_node_rsp Decode.dec_find_closest_nodes Decode.dec_reflex_rsp
        Decode.dec_probe Decode.dec_post_service Decode.dec_find_service Decode.dec_find_service_rsp
    long_dec-tree ping_rsp small n i0 old = λ e f. ping_rsp_lem small n i0 old e
    long_dec-tree find_node small n i0 old =
        dec_long_lem (long_tree find_node nonce src_id value)
          (sender_with src_id (long_key find_node) (str value)) nonce src_id refl refl refl h i
          (long_key find_node) value (long_sz find_node) refl full small n i0 old
    long_dec-tree find_node_rsp small n i0 old =
        dec_long_lem (long_tree find_node_rsp nonce src_id value)
          (sender_with src_id (long_key find_node_rsp) (str value)) nonce src_id refl refl refl h i
          (long_key find_node_rsp) value (long_sz find_node_rsp) refl full small n i0 old
    long_dec-tree find_closest_nodes small n i0 old =
        dec_long_lem (long_tree find_closest_nodes nonce src_id value)
          (sender_with src_id (long_key find_closest_nodes) (str value)) nonce src_id refl refl refl
          h i (long_key find_closest_nodes) value (long_sz find_closest_nodes) refl full small n i0
          old
    long_dec-tree reflex_rsp small n i0 old =
        dec_long_lem (long_tree reflex_rsp nonce src_id value)
          (sender_with src_id (long_key reflex_rsp) (str value)) nonce src_id refl refl refl h i
          (long_key reflex_rsp) value (long_sz reflex_rsp) refl full small n i0 old
    long_dec-tree probe small n i0 old =
        dec_long_lem (long_tree probe nonce src_id value)
          (sender_with src_id (long_key probe) (str value)) nonce src_id refl refl refl h i
          (long_key probe) value (long_sz probe) refl full small n i0 old
    long_dec-tree post_service small n i0 old =
        dec_long_lem (long_tree post_service nonce src_id value)
          (sender_with src_id (long_key post_service) (str value)) nonce src_id refl refl refl h i
          (long_key post_service) value (long_sz post_service) refl full small n i0 old
    long_dec-tree find_service small n i0 old =
        dec_long_lem (long_tree find_service nonce src_id value)
          (sender_with src_id (long_key find_service) (str value)) nonce src_id refl refl refl h i
          (long_key find_service) value (long_sz find_service) refl full small n i0 old
    long_dec-tree find_service_rsp small n i0 old =
        dec_long_lem (long_tree find_service_rsp nonce src_id value)
          (sender_with src_id (long_key find_service_rsp) (str value)) nonce src_id refl refl refl h
          i (long_key find_service_rsp) value (long_sz find_service_rsp) refl full small n i0 old

    -- For the nine messages that carry one value more, with a nonce of four and an ID of twenty
    -- bytes, a value that is not empty, fits an int and is no larger than what it is read into,
    -- and a buffer that is longer than the text: dec_begin of what the encoder writes tells the
    -- message, and its decoder gives the nonce, the ID, except for the response to ping, and puts
    -- the value in front of what it fills.
    pub dec-enc_long :
        (k : LongKind) (sz : ℕ)
        → length value ≤ long_sz k
        → length value < 2 ^ 31
        → length (print (long_tree k nonce src_id value) []) < sz
        → (text : Bytes) × (msg : Node) × (long_enc k nonce src_id value sz ≡ ok (some text))
          × (Decode.dec_begin text (length text) ≡ ok (some (long_id k, msg)))
          × ((n i0 old : Bytes)
              → length n ≡ 4
              → length i0 ≡ 20
              → long_dec k msg n i0 old
                ≡ ok (nonce, told k src_id i0, value ++ drop (length value) old))
    dec-enc_long k sz small fits room =
        let msg = long_tree k nonce src_id value in
        let (text, written, back) =
          be_decode-encode msg sz (long_tree-IsSane k nonce src_id value h i fits) room in
        let (known, kept) = long_id-long_tree k nonce src_id value in
        (
          text,
          msg,
          long_enc-tree k nonce src_id value sz h i full ∙ written,
          begun_lem msg (long_id k) text back known kept,
          long_dec-tree k small,
        )
