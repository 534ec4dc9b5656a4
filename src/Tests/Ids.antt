-- ===== src/Tests/Ids.antt =====
-- The metric and the buckets on two node IDs that differ in one byte.
use vdht.Base.{◌++◌, ◌∷◌, arith, ◌≡◌, ◌<◌, refl, replicate, []}
use vdht.Token
use vdht.Token.{Token}
use vdht.Token.Metric.{IsBytes, Compares, value, dist_comm, metric_cmp_lem}
use vdht.Token.Bucket.{HighBit, bucket-HighBit}

abbrev near : Token
near = replicate 19 7 ++ 5 ∷ []

abbrev far : Token
far = 7 ∷ 7 ∷ 135 ∷ replicate 17 7

near-IsBytes : IsBytes near
near-IsBytes = ground arith

far-IsBytes : IsBytes far
far-IsBytes = ground arith

dist_comm_example : Token.dist near far ≡ Token.dist far near
dist_comm_example = dist_comm near far near-IsBytes far-IsBytes

metric_cmp_example : Compares (Token.metric_cmp near far) (value near) (value far)
metric_cmp_example = metric_cmp_lem near far near-IsBytes far-IsBytes refl

bucket-HighBit_example :
    HighBit (Token.bucket near far) (value (Token.dist near far)) × (Token.bucket near far < 160)
bucket-HighBit_example = bucket-HighBit near far refl refl near-IsBytes far-IsBytes

far-bucket : Token.bucket near far ≡ 143
unfolding Token.bucket
far-bucket = refl
