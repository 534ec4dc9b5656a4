-- ===== src/Dht/Trees.antt =====
-- vdht.c: the dictionaries that the encoders build, and the texts of their keys.
use Prim.Native.String.{String}
use vdht.Base.{ℕ, ◌<◌, ◌≡◌, refl, [], ◌∷◌, length, ok, ◌>>=◌, arith}
use vdht.Bencode
use vdht.Bencode.{Bytes, Node, Nodes, Pairs, got, end, pair, str, cons, nil}
use vdht.Bencode.Dict
use vdht.Bencode.Encode
use vdht.Bencode.Encode.{c_str}
use vdht.Dht
use vdht.Dht.{codes}

-- A message with its entry `a`.
abbrev pub envelope : String → String → Bytes → Node → Node
envelope kind name nonce args = Node.dict (
    pair (codes "t") (str nonce) (
      pair (codes "y") (str (codes kind))
        (pair (codes kind) (str (codes name)) (pair (codes "a") args end))))

abbrev pub sender : Bytes → Node
sender src_id = Node.dict (pair (codes "id") (str src_id) end)

abbrev pub sender_with : Bytes → String → Node → Node
sender_with src_id key value =
    Node.dict (pair (codes "id") (str src_id) (pair (codes key) value end))

pub new_dict_lem : Dht.new_dict ≡ ok (Node.dict end)
unfolding Dht.new_dict Dht.new_node Dict.create_dict Bencode.be_decode_str Bencode.be_decode
    Bencode.decode Bencode.tag
new_dict_lem = refl

pub new_list_lem : Dht.new_list ≡ ok (Node.list nil)
unfolding Dht.new_list Dht.new_node Dict.create_list Bencode.be_decode_str Bencode.be_decode
    Bencode.decode Bencode.tag
new_list_lem = refl

pub put_buf_lem :
    (d : Pairs) (key : String) (buf : Bytes)
    → 0 < length buf
    → Dht.put_buf (Node.dict d) key buf ≡ ok (Node.dict (Dict.append_pair d (codes key) (str buf)))
unfolding Dht.put_buf Dict.create_buf Dict.add_keypair
put_buf_lem d key [] h = absurd (omega arith)
put_buf_lem d key (c ∷ buf) h = refl

pub head_lem :
    (kind name : String) (nonce : Bytes)
    → 0 < length nonce
    → Dht.head kind name nonce
      ≡ ok (
          Node.dict (
            pair
              (codes "t")
              (str nonce)
              (pair (codes "y") (str (codes kind)) (pair (codes kind) (str (codes name)) end))))
unfolding Dht.head Dht.put_str Dict.add_keypair Dict.append_pair
head_lem kind name nonce h = rw (new_dict_lem, ◌>>=◌, put_buf_lem end "t" nonce h)

-- Each encoder encodes its dictionary.
pub enc_short_lem :
    (kind name : String) (nonce src_id : Bytes) (sz : ℕ)
    → 0 < length nonce
    → 0 < length src_id
    → Dht.enc_short kind name nonce src_id sz
      ≡ Encode.encode sz (envelope kind name nonce (sender src_id))
unfolding Dht.enc_short Dht.finish Dict.add_keypair Dict.append_pair
enc_short_lem kind name nonce src_id sz h k =
    rw (head_lem kind name nonce h, ◌>>=◌, new_dict_lem, put_buf_lem end "id" src_id k)

pub enc_long_lem :
    (kind name key : String) (nonce src_id value : Bytes) (sz : ℕ)
    → 0 < length nonce
    → 0 < length src_id
    → 0 < length value
    → Dht.enc_long kind name key nonce src_id value sz
      ≡ Encode.encode sz (envelope kind name nonce (sender_with src_id key (str value)))
unfolding Dht.enc_long Dht.finish Dict.add_keypair Dict.append_pair
enc_long_lem kind name key nonce src_id value sz h k l = rw (
  head_lem kind name nonce h,
  ◌>>=◌,
  new_dict_lem,
  put_buf_lem end "id" src_id k,
  put_buf_lem (pair (codes "id") (str src_id) end) key value l,
)
