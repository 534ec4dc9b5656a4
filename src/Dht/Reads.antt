-- ===== src/Dht/Reads.antt =====
-- vdht.c: reading the dictionary of a message.
use Prim.Native.String.{String}
use vdht.Base.{
  zero, ℕ, suc, ◌^◌, ◌<◌, ◌≤◌, ◌≡◌, refl, ap, ◌∙◌, [], ◌∷◌, ◌++◌, length, drop, some, ok, ◌>>=◌,
  arith, ltb-false, append-nil,
}
use vdht.Bencode
use vdht.Bencode.{Bytes, Node, Nodes, Pairs, got, end, pair, str}
use vdht.Bencode.Dict
use vdht.Bencode.Encode.{c_str}
use vdht.Bencode.Printed.{IsSane}
use vdht.Dht.{DhtId, codes}
use vdht.Dht.Decode
use vdht.Dht.Decode.{unpack, find_in, nonce_sz, id_sz}
use vdht.Dht.Trees.{envelope, sender, sender_with}

pub unpack_lem :
    (s old : Bytes) (n : ℕ)
    → 0 < length s
    → length s ≤ n
    → unpack (some (str s)) n old ≡ ok (s ++ drop (length s) old)
unfolding Dict.unpack_buf
unpack_lem s old zero p h = absurd (omega arith)
unpack_lem s old (suc n) p h = rw (ltb-false (suc n) (length s) h)

drop_all : (n : ℕ) (old : Bytes) → length old ≤ n → drop n old ≡ []
drop_all zero [] h = refl
drop_all (suc n) [] h = refl
drop_all zero (x ∷ old) h = absurd (omega arith)
drop_all (suc n) (x ∷ old) h = drop_all n old (omega arith)

-- A value of the size of what it is read into replaces it.
pub unpack_whole :
    (s old : Bytes) (n : ℕ)
    → length s ≡ suc n
    → length old ≡ suc n
    → unpack (some (str s)) (suc n) old ≡ ok s
unpack_whole s old n e f =
    unpack_lem s old (suc n) (omega arith) (omega arith)
    ∙ ap (λ t. ok (s ++ t)) (drop_all (length s) old (omega arith))
    ∙ ap ok (append-nil s)

pub begun_lem :
    (msg : Node) (id : DhtId) (text : Bytes)
    → Bencode.be_decode text (length text) ≡ got msg []
    → Decode.unpack_dht_id msg ≡ ok (some id)
    → Decode.known msg (some id) ≡ some (id, msg)
    → Decode.dec_begin text (length text) ≡ ok (some (id, msg))
unfolding Decode.dec_begin
begun_lem msg id text e f g =
    ap Decode.begun e ∙ ap (λ r. r >>= λ o. ok (Decode.known msg o)) f ∙ ap ok g

-- What the decoders look for.
module _ (msg args : Node) (nonce src_id : Bytes)
    (t : Dict.find_node msg (codes "t") ≡ some (str nonce))
    (a : Dict.find_node msg (codes "a") ≡ some args)
    (i : Dict.find_node args (codes "id") ≡ some (str src_id)) (nonce_size : length nonce ≡ 4)
    (id_size : length src_id ≡ 20) where
  pub dec_short_lem :
      (n i : Bytes) → length n ≡ 4 → length i ≡ 20 → Decode.dec_short msg n i ≡ ok (nonce, src_id)
  unfolding Decode.dec_short
  dec_short_lem n0 i0 h k =
      rw (t, unpack_whole nonce n0 3 nonce_size h, a, i, unpack_whole src_id i0 19 id_size k)

  pub dec_long_lem :
      (key : String) (value : Bytes) (sz : ℕ)
      → Dict.find_node args (codes key) ≡ some (str value)
      → 0 < length value
      → length value ≤ sz
      → (n i old : Bytes) → length n ≡ 4
      → length i ≡ 20
      → Decode.dec_long key sz msg n i old ≡ ok (nonce, src_id, value ++ drop (length value) old)
  unfolding Decode.dec_long
  dec_long_lem key value sz v full small n0 i0 old h k = rw (
    t,
    unpack_whole nonce n0 3 nonce_size h,
    a,
    i,
    unpack_whole src_id i0 19 id_size k,
    v,
    unpack_lem value old sz full small,
  )

abbrev pub IsText : String → Type 0
IsText t = (length (codes t) < 2 ^ 31) × (c_str (codes t) ≡ codes t)

pub envelope-IsSane :
    (kind name : String) (nonce : Bytes) (args : Node)
    → IsText kind
    → IsText name
    → length nonce ≡ 4
    → IsSane args
    → IsSane (envelope kind name nonce args)
unfolding IsSane
envelope-IsSane kind name nonce args (short, plain) (fits, _) h sane =
    let small : length nonce < 2 ^ 31 = omega arith in
    let one : 1 < 2 ^ 31 = omega arith in
    (one, refl, (small, (one, refl, (short, (short, plain, (fits, (one, refl, (sane, tt))))))))

pub sender-IsSane : (src_id : Bytes) → length src_id ≡ 20 → IsSane (sender src_id)
unfolding IsSane
sender-IsSane src_id h =
    let two : 2 < 2 ^ 31 = omega arith in
    let small : length src_id < 2 ^ 31 = omega arith in (two, refl, (small, tt))

pub sender_with-IsSane :
    (src_id : Bytes) (key : String) (value : Node)
    → length src_id ≡ 20
    → IsText key
    → IsSane value
    → IsSane (sender_with src_id key value)
unfolding IsSane
sender_with-IsSane src_id key value h (short, plain) sane =
    let two : 2 < 2 ^ 31 = omega arith in
    let small : length src_id < 2 ^ 31 = omega arith in
    (two, refl, (small, (short, plain, (sane, tt))))
