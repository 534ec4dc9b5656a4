-- ===== src/Dht/Closest.antt =====
-- vdht.c: the response to find_closest_nodes, written and read.
use vdht.Base.{
  ℕ, ◌^◌, ◌<◌, ◌≤◌, ◌≡◌, refl, sym, ap, ◌∙◌, List, [], ◌∷◌, ◌++◌, length, drop, map, take, zero,
  suc, All, some, ok, ◌>>=◌, arith,
}
use vdht.Bencode.{Bytes, Node, Nodes, str, list, nil, cons, end}
use vdht.Bencode.Dict
use vdht.Bencode.Encode
use vdht.Bencode.Encode.{c_str}
use vdht.Bencode.Encoded.{be_decode-encode}
use vdht.Bencode.Printed.{print, IsSane, AreSane}
use vdht.Dht
use vdht.Dht.{DhtId, codes}
use vdht.Dht.Decode
use vdht.Dht.Decode.{unpack}
use vdht.Dht.Trees.{envelope, sender_with, new_dict_lem, new_list_lem, put_buf_lem, head_lem}
use vdht.Dht.Reads.{unpack_lem, unpack_whole, begun_lem, envelope-IsSane, sender_with-IsSane}

-- The list of the records.
abbrev pub strs : List Bytes → Nodes
strs [] = nil
strs (v ∷ vs) = cons (str v) (strs vs)

abbrev pub closest_tree : Bytes → Bytes → List Bytes → Node
closest_tree nonce src_id closest =
    envelope "r" "find_closest_nodes" nonce (sender_with src_id "nodes" (list (strs closest)))

abbrev join : Nodes → Nodes → Nodes
join nil ys = ys
join (cons x xs) ys = cons x (join xs ys)

join-nil : (l : Nodes) → join l nil ≡ l
join-nil nil = refl
join-nil (cons x l) = ap (cons x) (join-nil l)

join-append : (l ys : Nodes) (x : Node) → join (Dict.append_node l x) ys ≡ join l (cons x ys)
unfolding Dict.append_node
join-append nil ys x = refl
join-append (cons y l) ys x = ap (cons y) (join-append l ys x)

-- A record that is not empty, fits an int and is no larger than what it is read into.
abbrev pub Fits : ℕ → Bytes → Type 0
Fits sz v = (0 < length v) × (length v ≤ sz) × (length v < 2 ^ 31)

module _ (node_sz : ℕ) where
  put_nodes_lem :
      (l : Nodes) (closest : List Bytes)
      → All (Fits node_sz) closest
      → Dht.put_nodes (list l) closest ≡ ok (list (join l (strs closest)))
  unfolding Dht.put_nodes Dict.create_buf Dict.add_list
  put_nodes_lem l [] a = ap (λ l. ok (list l)) (sym (join-nil l))
  put_nodes_lem l ([] ∷ closest) ((some_byte, _, _), a) = absurd (omega arith)
  put_nodes_lem l ((c ∷ v) ∷ closest) (_, a) =
      put_nodes_lem (Dict.append_node l (str (c ∷ v))) closest a
      ∙ ap (λ l. ok (list l)) (join-append l (strs closest) (str (c ∷ v)))

  strs-AreSane : (closest : List Bytes) → All (Fits node_sz) closest → AreSane (strs closest)
  unfolding IsSane
  strs-AreSane [] a = tt
  strs-AreSane (v ∷ closest) ((_, _, small), a) = (small, strs-AreSane closest a)

  module _ (nonce src_id : Bytes) (h : length nonce ≡ 4) (i : length src_id ≡ 20)
      (closest : List Bytes) (fit : All (Fits node_sz) closest) where
    closest_enc-tree :
        (sz : ℕ)
        → Dht.enc_find_closest_nodes_rsp nonce src_id closest sz
          ≡ Encode.encode sz (closest_tree nonce src_id closest)
    unfolding Dht.enc_find_closest_nodes_rsp Dht.finish Dict.add_keypair Dict.append_pair
    closest_enc-tree sz = rw (
      head_lem "r" "find_closest_nodes" nonce (omega arith),
      ◌>>=◌,
      new_dict_lem,
      put_buf_lem end "id" src_id (omega arith),
      new_list_lem,
      put_nodes_lem nil closest fit,
    )

    closest_tree-IsSane : IsSane (closest_tree nonce src_id closest)
    unfolding IsSane
    closest_tree-IsSane =
        envelope-IsSane "r" "find_closest_nodes" nonce
          (sender_with src_id "nodes" (list (strs closest))) (omega arith, refl) (omega arith, refl)
          h
          (sender_with-IsSane src_id "nodes" (list (strs closest)) i (omega arith, refl)
            (strs-AreSane closest fit))

    closest_id-tree :
        (Decode.unpack_dht_id (closest_tree nonce src_id closest)
          ≡ ok (some DhtId.find_closest_nodes_r))
        × (Decode.known (closest_tree nonce src_id closest) (some DhtId.find_closest_nodes_r)
            ≡ some (DhtId.find_closest_nodes_r, closest_tree nonce src_id closest))
    unfolding Decode.unpack_dht_id Dict.find_node Dict.find_pair Dict.same_text Dht.get_query_id
        Dht.get_rsp_id Dht.search_desc
    closest_id-tree = (refl, refl)

-- A record in front of the memory that it is read into.
abbrev pub over : Bytes → Bytes → Bytes
over relaxed v = v ++ drop (length v) relaxed

module _ (node_sz srvc_sz addr_sz : ℕ) (relaxed : Bytes) where
  unpack_nodes_lem :
      (allocs : ℕ) (closest : List Bytes)
      → All (Fits node_sz) closest
      → Decode.unpack_nodes node_sz srvc_sz addr_sz relaxed allocs (strs closest)
        ≡ ok (map (over relaxed) (take allocs closest))
  unfolding Decode.unpack_nodes
  unpack_nodes_lem zero [] a = refl
  unpack_nodes_lem (suc allocs) [] a = refl
  unpack_nodes_lem zero (v ∷ closest) a = refl
  unpack_nodes_lem (suc allocs) (v ∷ closest) ((full, small, _), a) =
      rw (unpack_lem v relaxed node_sz full small, unpack_nodes_lem allocs closest a)

  module _ (nonce src_id : Bytes) (h : length nonce ≡ 4) (i : length src_id ≡ 20)
      (closest : List Bytes) (fit : All (Fits node_sz) closest) where
    closest_dec-tree :
        (allocs : ℕ) (n i0 : Bytes)
        → length n ≡ 4
        → length i0 ≡ 20
        → Decode.dec_find_closest_nodes_rsp node_sz srvc_sz addr_sz relaxed allocs
            (closest_tree nonce src_id closest)
            n
            i0
          ≡ ok (nonce, src_id, map (over relaxed) (take allocs closest))
    unfolding Decode.dec_find_closest_nodes_rsp Dict.find_node Dict.find_pair Dict.same_text
    closest_dec-tree allocs n i0 e f = rw (
      unpack_whole nonce n 3 h e,
      unpack_whole src_id i0 19 i f,
      unpack_nodes_lem allocs closest fit,
    )

    -- With a nonce of four and an ID of twenty bytes, records that are not empty, fit an int and
    -- are no larger than what they are read into, and a buffer that is longer than the text:
    -- dec_begin of what the encoder of the response to find_closest_nodes writes tells the
    -- message, and its decoder gives the nonce, the ID and, in their order, as many of the records
    -- as vnodeInfo_relax_alloc gives memory for, each in front of the memory that it is read into.
    pub dec-enc_closest :
        (sz : ℕ)
        → length (print (closest_tree nonce src_id closest) []) < sz
        → (text : Bytes) × (msg : Node) × (Dht.enc_find_closest_nodes_rsp nonce src_id closest sz
            ≡ ok (some text))
          × (Decode.dec_begin text (length text) ≡ ok (some (DhtId.find_closest_nodes_r, msg)))
          × ((allocs : ℕ) (n i0 : Bytes)
              → length n ≡ 4
              → length i0 ≡ 20
              → Decode.dec_find_closest_nodes_rsp node_sz srvc_sz addr_sz relaxed allocs msg n i0
                ≡ ok (nonce, src_id, map (over relaxed) (take allocs closest)))
    dec-enc_closest sz room =
        let msg = closest_tree nonce src_id closest in
        let (text, written, back) =
          be_decode-encode msg sz (closest_tree-IsSane node_sz nonce src_id h i closest fit) room in
        let (known, kept) = closest_id-tree node_sz nonce src_id h i closest fit in
        (
          text,
          msg,
          closest_enc-tree node_sz nonce src_id h i closest fit sz ∙ written,
          begun_lem msg DhtId.find_closest_nodes_r text back known kept,
          closest_dec-tree,
        )
