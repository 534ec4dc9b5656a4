-- ===== src/Dht/Short.antt =====
-- vdht.c: messages of a nonce and an ID, written and read.
use Prim.Native.String.{String}
use vdht.Base.{ℕ, ◌<◌, ◌≡◌, refl, ◌∙◌, [], length, Option, some, Run, ok, arith}
use vdht.Bencode.{Bytes, Node}
use vdht.Bencode.Dict
use vdht.Bencode.Encode
use vdht.Bencode.Encode.{c_str}
use vdht.Bencode.Encoded.{be_decode-encode}
use vdht.Bencode.Printed.{print, IsSane}
use vdht.Dht
use vdht.Dht.{DhtId, codes}
use vdht.Dht.Decode
use vdht.Dht.Decode.{unpack, find_in, nonce_sz, id_sz}
use vdht.Dht.Trees.{envelope, sender, enc_short_lem}
use vdht.Dht.Reads.{begun_lem, dec_short_lem, envelope-IsSane, sender-IsSane}

-- The messages that carry a nonce and an ID.
pub data ShortKind : Type 0 where
  ping reflex probe_rsp : ShortKind

-- The values of `y` and of `q` or `r`, and the identifier.
abbrev pub short_kind : ShortKind → String
short_kind probe_rsp = "r"
short_kind _ = "q"

abbrev pub short_name : ShortKind → String
short_name ping = "ping"
short_name reflex = "reflex"
short_name probe_rsp = "probe"

abbrev pub short_id : ShortKind → DhtId
short_id ping = DhtId.ping
short_id reflex = DhtId.reflex
short_id probe_rsp = DhtId.probe_r

abbrev pub short_enc : ShortKind → Bytes → Bytes → ℕ → Run (Option Bytes)
short_enc ping = Dht.enc_ping
short_enc reflex = Dht.enc_reflex
short_enc probe_rsp = Dht.enc_probe_rsp

abbrev pub short_dec : ShortKind → Node → Bytes → Bytes → Run (Bytes × Bytes)
short_dec ping = Decode.dec_ping
short_dec reflex = Decode.dec_reflex
short_dec probe_rsp = Decode.dec_probe_rsp

abbrev pub short_tree : ShortKind → Bytes → Bytes → Node
short_tree k nonce src_id = envelope (short_kind k) (short_name k) nonce (sender src_id)

short_id-short_tree :
    (k : ShortKind) (nonce src_id : Bytes)
    → (Decode.unpack_dht_id (short_tree k nonce src_id) ≡ ok (some (short_id k)))
      × (Decode.known (short_tree k nonce src_id) (some (short_id k))
          ≡ some (short_id k, short_tree k nonce src_id))
unfolding Decode.unpack_dht_id Dict.find_node Dict.find_pair Dict.same_text Dht.get_query_id
    Dht.get_rsp_id Dht.search_desc
short_id-short_tree ping nonce src_id = (refl, refl)
short_id-short_tree reflex nonce src_id = (refl, refl)
short_id-short_tree probe_rsp nonce src_id = (refl, refl)

short_tree-IsSane :
    (k : ShortKind) (nonce src_id : Bytes)
    → length nonce ≡ 4
    → length src_id ≡ 20
    → IsSane (short_tree k nonce src_id)
short_tree-IsSane k nonce src_id h i =
    let args = sender-IsSane src_id i in
    elim k as (λ k. IsSane (short_tree k nonce src_id)) [
      | ping ↦
          envelope-IsSane "q" "ping" nonce (sender src_id) (omega arith, refl) (omega arith, refl) h
            args
      | reflex ↦
          envelope-IsSane "q" "reflex" nonce (sender src_id) (omega arith, refl) (omega arith, refl)
            h args
      | probe_rsp ↦
          envelope-IsSane "r" "probe" nonce (sender src_id) (omega arith, refl) (omega arith, refl)
            h args
    ]

short_enc-tree :
    (k : ShortKind) (nonce src_id : Bytes) (sz : ℕ)
    → length nonce ≡ 4
    → length src_id ≡ 20
    → short_enc k nonce src_id sz ≡ Encode.encode sz (short_tree k nonce src_id)
unfolding Dht.enc_ping Dht.enc_reflex Dht.enc_probe_rsp
short_enc-tree ping nonce src_id sz h i =
    enc_short_lem "q" "ping" nonce src_id sz (omega arith) (omega arith)
short_enc-tree reflex nonce src_id sz h i =
    enc_short_lem "q" "reflex" nonce src_id sz (omega arith) (omega arith)
short_enc-tree probe_rsp nonce src_id sz h i =
    enc_short_lem "r" "probe" nonce src_id sz (omega arith) (omega arith)

short_dec-tree :
    (k : ShortKind) (nonce src_id : Bytes)
    → length nonce ≡ 4
    → length src_id ≡ 20
    → (n i : Bytes) → length n ≡ 4
    → length i ≡ 20
    → short_dec k (short_tree k nonce src_id) n i ≡ ok (nonce, src_id)
unfolding Decode.dec_ping Decode.dec_reflex Decode.dec_probe_rsp Dict.find_node Dict.find_pair
    Dict.same_text
short_dec-tree ping nonce src_id h i n0 i0 =
    dec_short_lem (short_tree ping nonce src_id) (sender src_id) nonce src_id refl refl refl h i n0
      i0
short_dec-tree reflex nonce src_id h i n0 i0 =
    dec_short_lem (short_tree reflex nonce src_id) (sender src_id) nonce src_id refl refl refl h i
      n0 i0
short_dec-tree probe_rsp nonce src_id h i n0 i0 =
    dec_short_lem (short_tree probe_rsp nonce src_id) (sender src_id) nonce src_id refl refl refl h
      i n0 i0

-- For the queries ping and reflex and the response to probe, with a nonce of four and an ID of
-- twenty bytes, and a buffer that is longer than the text: dec_begin of what the encoder writes
-- tells the message, and its decoder gives the nonce and the ID.
pub dec-enc_short :
    (k : ShortKind) (nonce src_id : Bytes) (sz : ℕ)
    → length nonce ≡ 4
    → length src_id ≡ 20
    → length (print (short_tree k nonce src_id) []) < sz
    → (text : Bytes) × (msg : Node) × (short_enc k nonce src_id sz ≡ ok (some text))
      × (Decode.dec_begin text (length text) ≡ ok (some (short_id k, msg)))
      × ((n i : Bytes) → length n ≡ 4 → length i ≡ 20 → short_dec k msg n i ≡ ok (nonce, src_id))
dec-enc_short k nonce src_id sz h i room =
    let msg = short_tree k nonce src_id in
    let (text, written, back) =
      be_decode-encode msg sz (short_tree-IsSane k nonce src_id h i) room in
    let (told, kept) = short_id-short_tree k nonce src_id in
    (
      text,
      msg,
      short_enc-tree k nonce src_id sz h i ∙ written,
      begun_lem msg (short_id k) text back told kept,
      short_dec-tree k nonce src_id h i,
    )
