-- ===== src/Tests/Messages.antt =====
-- Bencoded objects and messages.
use vdht.Base.{
  ◌<◌, ◌≡◌, ◌≢◌, ◌^◌, refl, pos, negsuc, [], ◌∷◌, ◌++◌, length, drop, some, none, ok, fault, arith,
  replicate, map, List, take, ℕ,
}
use vdht.Bencode
use vdht.Bencode.{
  Bytes, Node, Nodes, Pairs, got, crash, starved, str, int, list, dict, nil, cons, end, pair, colon,
}
use vdht.Bencode.Dict
use vdht.Bencode.Encode
use vdht.Bencode.Encode.{print_int}
use vdht.Bencode.Encoded.{be_decode-encode}
use vdht.Bencode.Faults.{be_decode_short, encode_overflow}
use vdht.Bencode.Fuel.{be_decode-ends}
use vdht.Bencode.Lookup.{find_node-add_keypair}
use vdht.Bencode.Printed.{print, IsSane}
use vdht.Dht
use vdht.Dht.{DhtId, codes}
use vdht.Dht.Decode
use vdht.Dht.Closest.{closest_tree, over, dec-enc_closest}
use vdht.Dht.Long.{LongKind, long_tree, dec-enc_long}
use vdht.Dht.Missing.{dec_begin_untyped}
use vdht.Dht.Short.{ShortKind, short_tree, dec-enc_short}

-- d1:ali-12e3:abce1:b0:e
abbrev object : Node
object = dict (
    pair (97 ∷ []) (list (cons (int (negsuc 11)) (cons (str (97 ∷ 98 ∷ 99 ∷ [])) nil)))
      (pair (98 ∷ []) (str []) end))

object-IsSane : IsSane object
unfolding IsSane
object-IsSane =
    let small : 1 < 2 ^ 31 = omega arith in
    let number : 11 < 2 ^ 31 = omega arith in
    let three : 3 < 2 ^ 31 = omega arith in
    let nothing : 0 < 2 ^ 31 = omega arith in
    (small, refl, ((number, (three, tt)), (small, refl, (nothing, tt))))

object_fits : length (print object []) < 64
unfolding print Encode.print_dec
object_fits = omega arith

be_decode-encode_example :
    (text : Bytes) × (Encode.encode 64 object ≡ ok (some text))
    × (Bencode.be_decode text (length text) ≡ got object [])
be_decode-encode_example = be_decode-encode object 64 object-IsSane object_fits

be_decode-ends_example :
    (Bencode.be_decode (108 ∷ 108 ∷ []) 2 ≢ starved)
    × ((x : Node) (rest : Bytes)
        → Bencode.be_decode (108 ∷ 108 ∷ []) 2 ≡ got x rest
        → length rest < 2)
be_decode-ends_example = be_decode-ends (108 ∷ 108 ∷ []) 2

abbrev entry : Pairs
entry = pair (97 ∷ []) (int (pos 1)) end

find_node-add_keypair_example :
    (w : Node) × (Dict.add_keypair (dict entry) (98 ∷ []) (int (pos 2)) ≡ ok w)
    × (Dict.find_node (dict entry) (98 ∷ []) ≡ none
        → Dict.find_node w (98 ∷ []) ≡ some (int (pos 2)))
    × ((other : Bytes) (v : Node)
        → Dict.find_node (dict entry) other ≡ some v
        → Dict.find_node w other ≡ some v)
    × ((other : Bytes)
        → other ≢ 98 ∷ []
        → Dict.find_node w other ≡ Dict.find_node (dict entry) other)
find_node-add_keypair_example =
    find_node-add_keypair entry (98 ∷ []) (int (pos 2)) ((λ e. ground (arith, e)), tt)

be_decode_short_example :
    Bencode.be_decode
      (print_int (pos 5) (colon ∷ 97 ∷ []))
      (length (print_int (pos 5) (colon ∷ 97 ∷ [])))
    ≡ crash
be_decode_short_example = be_decode_short 5 (97 ∷ []) (omega arith) (omega arith)

prefix_size : length (print_int (pos 4) (colon ∷ [])) ≡ 2
unfolding Encode.print_dec
prefix_size = refl

encode_overflow_example : Encode.encode 4 (str (1 ∷ 2 ∷ 3 ∷ 4 ∷ [])) ≡ fault
encode_overflow_example =
    encode_overflow (1 ∷ 2 ∷ 3 ∷ 4 ∷ []) 4 (omega (arith, prefix_size)) (omega (arith, prefix_size))

abbrev nonce : Bytes
nonce = 1 ∷ 2 ∷ 3 ∷ 4 ∷ []

abbrev src_id : Bytes
src_id = replicate 20 7

short_fits : length (print (short_tree ShortKind.ping nonce src_id) []) < 100
unfolding print Encode.print_dec
short_fits = omega arith

dec-enc_short_example :
    (text : Bytes) × (msg : Node) × (Dht.enc_ping nonce src_id 100 ≡ ok (some text))
    × (Decode.dec_begin text (length text) ≡ ok (some (DhtId.ping, msg)))
    × ((n i : Bytes) → length n ≡ 4 → length i ≡ 20 → Decode.dec_ping msg n i ≡ ok (nonce, src_id))
dec-enc_short_example = dec-enc_short ShortKind.ping nonce src_id 100 refl refl short_fits

long_fits : length (print (long_tree LongKind.find_node nonce src_id (replicate 20 8)) []) < 200
unfolding print Encode.print_dec
long_fits = omega arith

dec-enc_long_example :
    (text : Bytes) × (msg : Node) × (Dht.enc_find_node nonce src_id (replicate 20 8) 200
      ≡ ok (some text))
    × (Decode.dec_begin text (length text) ≡ ok (some (DhtId.find_node, msg)))
    × ((n i old : Bytes)
        → length n ≡ 4
        → length i ≡ 20
        → Decode.dec_find_node msg n i old ≡ ok (nonce, src_id, replicate 20 8 ++ drop 20 old))
dec-enc_long_example =
    dec-enc_long 280 200 16 [] nonce src_id (replicate 20 8) refl refl (omega arith)
      LongKind.find_node 200 (omega arith) (omega arith) long_fits

empty-IsSane : IsSane (dict end)
unfolding IsSane
empty-IsSane = tt

no_type : Dict.find_node (dict end) (codes "y") ≡ none
unfolding Dict.find_node Dict.find_pair
no_type = refl

dec_begin_untyped_example :
    Decode.dec_begin (print (dict end) []) (length (print (dict end) [])) ≡ fault
dec_begin_untyped_example = dec_begin_untyped end empty-IsSane no_type

abbrev two_records : List Bytes
two_records = replicate 8 1 ∷ replicate 9 2 ∷ []

closest_fits : length (print (closest_tree nonce src_id two_records) []) < 200
unfolding print Encode.print_dec
closest_fits = omega arith

dec-enc_closest_example :
    (text : Bytes) × (msg : Node) × (Dht.enc_find_closest_nodes_rsp nonce src_id two_records 200
      ≡ ok (some text))
    × (Decode.dec_begin text (length text) ≡ ok (some (DhtId.find_closest_nodes_r, msg)))
    × ((allocs : ℕ) (n i : Bytes)
        → length n ≡ 4
        → length i ≡ 20
        → Decode.dec_find_closest_nodes_rsp 280 200 16 [] allocs msg n i
          ≡ ok (nonce, src_id, map (over []) (take allocs two_records)))
dec-enc_closest_example =
    dec-enc_closest 280 200 16 [] nonce src_id refl refl two_records
      ((omega arith, omega arith, omega arith), ((omega arith, omega arith, omega arith), tt)) 200
      closest_fits
