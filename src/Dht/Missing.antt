-- ===== src/Dht/Missing.antt =====
-- vdht.c: messages without the entries that the decoder takes for granted.
use vdht.Base.{◌-◌, ◌≡◌, [], length, none, fault, arith}
use vdht.Bencode.{Node, Pairs}
use vdht.Bencode.Dict
use vdht.Bencode.Printed.{print, IsSane}
use vdht.Bencode.RoundTrip.{be_decode-print}
use vdht.Dht.{codes}
use vdht.Dht.Decode

-- On the text of a dictionary without the key y, whose numbers and lengths fit 32 bits and whose
-- keys hold no NUL, dec_begin uses a NULL node: a fault.
pub dec_begin_untyped :
    (d : Pairs)
    → IsSane (Node.dict d)
    → Dict.find_node (Node.dict d) (codes "y") ≡ none
    → Decode.dec_begin (print (Node.dict d) []) (length (print (Node.dict d) [])) ≡ fault
unfolding Decode.dec_begin Decode.unpack_dht_id
dec_begin_untyped d sane absent =
    let size : length (print (Node.dict d) []) - 0 ≡ length (print (Node.dict d) []) =
      omega arith in
    let back = rw size at (be_decode-print (Node.dict d) [] sane) in rw (back, absent)
