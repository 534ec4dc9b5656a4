-- ===== src/Bencode/Encode.antt =====
-- vdht_core.c, be_encode: the encoder of bencoded objects.
-- `room` is `len - off`, and the memory of the buffer ends there. A result is the bytes that are
-- written, `none` for a result of -1. The length prefix of a string counts its bytes.
use vdht.Base.{
  ℕ, zero, suc, ◌+◌, ◌-◌, ◌/◌, ◌%◌, ◌==◌, ltb, leb, if◌then◌else◌, true, false, [], ◌∷◌, ◌++◌,
  length, Option, none, some, ℤ, pos, negsuc, Run, ok, fault, ◌>>=◌,
}
use vdht.Bencode.{
  Bytes, Node, Nodes, Pairs, str, int, list, dict, nil, cons, end, pair, colon, letter_e,
}

-- `%i`; ten digits are enough for 32 bits
unfoldable pub print_dec : ℕ → ℕ → Bytes → Bytes
print_dec zero n tail = tail
print_dec (suc fuel) n tail = elim (ltb n 10) [
  | true ↦ (48 + n) ∷ tail
  | false ↦ print_dec fuel (n / 10) ((48 + n % 10) ∷ tail)
]

abbrev pub print_int : ℤ → Bytes → Bytes
print_int (pos n) tail = print_dec 10 n tail
print_int (negsuc n) tail = 45 ∷ print_dec 10 (suc n) tail

-- `%s`: the bytes before a NUL
abbrev pub c_str : Bytes → Bytes
c_str [] = []
c_str (c ∷ cs) = if c == 0 then [] else c ∷ c_str cs

-- `snprintf(buf + off, len - off, …)` with the test of its result, and what comes behind it
abbrev pub behind : Bytes → Option Bytes → Option Bytes
behind text none = none
behind text (some more) = some (text ++ more)

abbrev pub emit : ℕ → Bytes → (ℕ → Run (Option Bytes)) → Run (Option Bytes)
emit room text next =
    if leb room (length text)
    then ok none
    else (next (room - length text) >>= λ r. ok (behind text r))

-- `memcpy(buf + off, node->val.s, _len)`, which does not look at the room
unfoldable pub copy_bytes : Bytes → ℕ → Run (Option Bytes)
copy_bytes s room = if ltb room (length s) then fault else ok (some s)

-- `be_encode` and its two loops; `vassert(len > 0)`
unfoldable mutual
  unfolding print_dec copy_bytes

  pub encode : ℕ → Node → Run (Option Bytes)
  encode zero x = fault
  encode (suc n) (str s) = emit (suc n) (print_int (pos (length s)) (colon ∷ [])) (copy_bytes s)
  encode (suc n) (int i) = emit (suc n) (105 ∷ print_int i (letter_e ∷ [])) (λ room. ok (some []))
  encode (suc n) (list l) = emit (suc n) (108 ∷ []) (λ room. encode_list room l)
  encode (suc n) (dict d) = emit (suc n) (100 ∷ []) (λ room. encode_dict room d)

  pub encode_list : ℕ → Nodes → Run (Option Bytes)
  encode_list room nil = emit room (letter_e ∷ []) (λ left. ok (some []))
  encode_list room (cons x xs) = encode room x >>= λ r. elim r [
    | none ↦ ok none
    | some out ↦ encode_list (room - length out) xs >>= λ q. ok (behind out q)
  ]

  pub encode_dict : ℕ → Pairs → Run (Option Bytes)
  encode_dict room end = emit room (letter_e ∷ []) (λ left. ok (some []))
  encode_dict room (pair key x ps) =
      emit room (print_int (pos (length key)) (colon ∷ c_str key)) (λ left. encode left x >>= λ r.
      elim r [
        | none ↦ ok none
        | some out ↦ encode_dict (left - length out) ps >>= λ q. ok (behind out q)
      ])
