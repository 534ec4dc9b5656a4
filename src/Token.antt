-- ===== src/Token.antt =====
-- vnodeId.c, vnodeId.h: tokens, and the metric and the bucket of two node IDs.
-- `data` is the list of its bytes, first byte first; a loop over the array is a recursion on it.
mod Bytes
pub mod Metric
pub mod Bucket
use vdht.Base.{
  ℕ, zero, suc, ◌+◌, ◌-◌, ◌*◌, ◌/◌, ◌%◌, ◌^◌, ◌==◌, ltb, if◌then◌else◌, Bool, true, false, List, [],
  ◌∷◌, get_elem?, Option, none, some, ℤ, pos, negsuc, bit_and, bit_xor, get_or, replicate,
}

-- `struct vtoken`, and so vnodeId, vnodeMetric, vnodeVer
abbrev pub Token : Type 0
Token = List ℕ

-- VTOKEN_LEN, VTOKEN_BITLEN
abbrev pub token_len : ℕ
token_len = 20

abbrev pub token_bitlen : ℕ
token_bitlen = 160

-- `vtoken_equal`
unfoldable pub equal : Token → Token → Bool
equal [] b = true
equal (x ∷ a) [] = false
equal (x ∷ a) (y ∷ b) = if x == y then equal a b else false

-- `vsrvcHash_equal` and `vsrvcHash_copy`
unfoldable pub hash_equal : Token → Token → Bool
hash_equal [] b = true
hash_equal (x ∷ a) [] = false
hash_equal (x ∷ a) (y ∷ b) = if x == y then hash_equal a b else false

unfoldable pub hash_copy : Token → Token
hash_copy [] = []
hash_copy (x ∷ src) = x ∷ hash_copy src

-- `vtoken_copy`: the bytes that the loop has written
unfoldable pub copy : Token → Token
copy [] = []
copy (x ∷ src) = x ∷ copy src

-- `vnodeId_dist`
unfoldable pub dist : Token → Token → Token
dist [] b = []
dist (x ∷ a) [] = []
dist (x ∷ a) (y ∷ b) = bit_xor x y ∷ dist a b

-- the loop of `_aux_distance` at `i` with `n` rounds to go
unfoldable pub distance_from : ℕ → ℕ → Token → ℕ
distance_from zero i m = 0
distance_from (suc n) i m =
    let rest = distance_from n (i + 1) m in
    if bit_and (2 ^ (7 - i % 8)) (get_or m (i / 8) 0) == 0 then rest else token_bitlen - i - 1

unfoldable pub distance : Token → ℕ
unfolding distance_from
distance m = distance_from token_bitlen 0 m

-- `vnodeId_bucket`
unfoldable pub bucket : Token → Token → ℕ
unfolding dist distance
bucket a b = distance (dist a b)

-- `vnodeMetric_cmp`: 1 if `a` is nearer, -1 if `b` is
unfoldable pub metric_cmp : Token → Token → ℤ
metric_cmp [] b = pos 0
metric_cmp (x ∷ a) [] = pos 0
metric_cmp (x ∷ a) (y ∷ b) = if ltb x y then pos 1 else if ltb y x then negsuc 0 else metric_cmp a b

-- `vnodeVer_unknown`
unfoldable pub unknown_ver : Token
unknown_ver = replicate token_len 0
