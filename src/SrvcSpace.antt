-- ===== src/SrvcSpace.antt =====
-- vroute_srvc.c: the routing table of services, 160 buckets of services each with the time of its
-- last announcement.
-- The pointer `to` into a bucket is the index of its item; `alloc` and `mem` say whether the
-- allocation of an item and the calls of `realloc` succeed. The calls of `time` are arguments.
pub mod Find
pub mod Ages
pub mod Bucket
pub mod Space
use vdht.Base.{
  ℕ, zero, suc, ◌+◌, ◌-◌, ◌%◌, ◌^◌, ◌==◌, ltb, leb, if◌then◌else◌, Bool, true, false, ◌&&◌, List,
  [], ◌∷◌, length, get_elem?, set, replicate, Option, none, some, ℤ, pos, negsuc, ltb_int, Run, ok,
  fault, ◌>>=◌,
}
use vdht.SrvcInfo
use vdht.SrvcInfo.{SrvcInfo}
use vdht.TcktSpace.{to_int}
use vdht.Token
use vdht.Token.{Token}
use vdht.Varray
use vdht.Varray.{Varray}

-- `struct vservice`
pub record Service : Type 0 where
  pub srvci : SrvcInfo
  pub rcv_ts : ℕ

-- `struct vroute_srvc_space`
pub record SrvcSpace : Type 0 where
  pub bucket_sz : ℕ
  pub buckets : List (Varray Service)

-- NBUCKETS
abbrev pub num_buckets : ℕ
num_buckets = 160

-- `vroute_srvc_space_init`; `bucket_sz` is what the configuration says
unfoldable pub init : ℕ → SrvcSpace
unfolding Varray.init
init bucket_sz = record { bucket_sz = bucket_sz; buckets = replicate num_buckets (Varray.init 8) }

-- `vservice_alloc`: all zero but for the capacity
abbrev pub blank : Service
blank = record { srvci = SrvcInfo.alloc; rcv_ts = 0 }

-- `vservice_init`, which does not look at the result of `vsrvcInfo_copy`
unfoldable pub service_init : Bool → Service → SrvcInfo → ℕ → Run Service
unfolding SrvcInfo.copy
service_init mem item srvci ts =
    SrvcInfo.copy mem item.srvci srvci >>= λ r. ok (record { srvci = r.0; rcv_ts = ts })

-- the cookie of the search; `seen` counts the items, so that `to` can be an index
pub record Search : Type 0 where
  pub seen : ℕ
  pub to : Option ℕ
  pub max_period : ℕ
  pub found : Bool

-- `(int)(*now - srvc_item->rcv_ts)`, where it is positive. It is compared with `max_period`, which
-- starts at 0 and only grows, so a negative value and 0 are the same.
unfoldable pub period : ℕ → ℕ → ℕ
unfolding to_int
period now ts = elim (to_int (now + (2 ^ 32 - ts % 2 ^ 32))) [ pos n ↦ n | negsuc n ↦ 0 ]

unfoldable pub same : SrvcInfo → Service → Bool
unfolding Token.equal Token.hash_equal
same srvci item =
    Token.equal item.srvci.hostid srvci.hostid && Token.hash_equal item.srvci.hash srvci.hash

-- `_aux_srvc_add_service_cb`
unfoldable pub add_service_cb : SrvcInfo → ℕ → Service → Search → Service × Search × Bool
add_service_cb srvci now item c =
    if same srvci item
    then (item, record c { seen = c.seen + 1; to = some c.seen; found = true }, true)
    else if ltb c.max_period (period now item.rcv_ts)
    then (
      item,
      record c { seen = c.seen + 1; to = some c.seen; max_period = period now item.rcv_ts },
      false,
    )
    else (item, record c { seen = c.seen + 1 }, false)

abbrev pub start : Search
start = record { seen = 0; to = none; max_period = 0; found = false }

-- `vservice_init(to, srvci, now)` on the item at an index
init_into :
    Bool → Varray Service → Option (List (Option Service)) → ℕ → SrvcInfo → ℕ → Run (Varray Service)
unfolding Varray.load Varray.store service_init
init_into mem v none k srvci now = fault
init_into mem v (some buf) k srvci now = Varray.load buf k >>= λ slot. elim slot [
  | none ↦ fault
  | some item ↦ service_init mem item srvci now >>= λ new.
      Varray.store buf k (some new) >>= λ b. ok (record v { items = some b })
]

unfoldable pub init_at : Bool → Varray Service → Option ℕ → SrvcInfo → ℕ → Run (Varray Service)
unfolding init_into
init_at mem v none srvci now = fault
init_at mem v (some k) srvci now = init_into mem v v.items k srvci now

abbrev is_some : Option ℕ → Bool
is_some none = false
is_some (some k) = true

abbrev appended : Varray Service → Option (Varray Service) → Varray Service
appended v none = v
appended v (some w) = w

-- the branches of `add_service` behind the search; `none` is a result of -1
unfoldable pub place :
    Bool → Bool → ℕ → Varray Service → Search → SrvcInfo → ℕ → Run (Option (Varray Service))
unfolding init_at service_init Varray.add_tail
place alloc mem bucket_sz v c srvci now =
    if c.found
    then (init_at mem v c.to srvci now >>= λ w. ok (some w))
    else if is_some c.to && leb bucket_sz v.used
    then (init_at mem v c.to srvci now >>= λ w. ok (some w))
    else if ltb v.used bucket_sz
    then (if alloc
        then (service_init mem blank srvci now >>= λ s.
            Varray.add_tail mem v (some s) >>= λ r. ok (some (appended v r)))
        else ok none)
    else ok (some v)

-- what `add_service` does to the bucket
unfoldable pub add_to :
    Bool → Bool → ℕ → Varray Service → SrvcInfo → ℕ → Run (Option (Varray Service))
unfolding Varray.iterate add_service_cb place
add_to alloc mem bucket_sz v srvci now = Varray.iterate (add_service_cb srvci now) v start >>= λ r.
    place alloc mem bucket_sz r.0 r.1 srvci now

-- `_vroute_srvc_space_add_service`
unfoldable pub add_service : Bool → Bool → SrvcSpace → SrvcInfo → ℕ → Run (Option SrvcSpace)
unfolding add_to SrvcInfo.bucket
add_service alloc mem space srvci now =
    elim (get_elem? space.buckets (SrvcInfo.bucket srvci.hostid)) [
      | none ↦ fault
      | some v ↦ add_to alloc mem space.bucket_sz v srvci now >>= λ r. elim r [
        | none ↦ ok none
        | some w ↦
            ok
              (some (record space { buckets = set space.buckets (SrvcInfo.bucket srvci.hostid) w }))
      ]
    ]

-- the cookie of `get_service`; what `to` points to is not changed by the search
pub record Best : Type 0 where
  pub to : Option SrvcInfo
  pub min_nice : ℤ

-- `_aux_srvc_get_service_cb`
unfoldable pub get_service_cb : Token → Service → Best → Service × Best × Bool
unfolding Token.hash_equal
get_service_cb hash item c =
    if Token.hash_equal item.srvci.hash hash && ltb_int item.srvci.nice c.min_nice
    then (item, record { to = some item.srvci; min_nice = item.srvci.nice }, false)
    else (item, c, false)

-- the loop of `get_service` over the buckets, with the record that it fills and its result
copy_best : Bool → Option SrvcInfo → SrvcInfo → Bool → Run (SrvcInfo × Bool)
unfolding SrvcInfo.copy
copy_best mem none srvci found = ok (srvci, found)
copy_best mem (some best) srvci found = SrvcInfo.copy mem srvci best >>= λ r. ok (r.0, true)

unfoldable pub get_from :
    Bool → Token → List (Varray Service) → Best → SrvcInfo → Bool → Run (SrvcInfo × Bool)
unfolding Varray.iterate get_service_cb copy_best
get_from mem hash [] c srvci found = ok (srvci, found)
get_from mem hash (v ∷ vs) c srvci found = Varray.iterate (get_service_cb hash) v c >>= λ r.
    copy_best mem r.1.to srvci found >>= λ q. get_from mem hash vs r.1 q.0 q.1

-- `_vroute_srvc_space_get_service`. The copies go through the by-value parameter: where `realloc`
-- has moved the block to a larger one, the caller's pointer leads to nothing.
unfoldable pub get_service : Bool → SrvcSpace → Token → SrvcInfo → Run (Option SrvcInfo × Bool)
unfolding get_from
get_service mem space hash srvci =
    get_from mem hash space.buckets (record { to = none; min_nice = pos 100 }) srvci false >>= λ r.
    ok (if ltb srvci.capc r.0.capc then none else some r.0, r.1)

-- the loop of `clear` over one bucket, on fuel; a NULL from `varray_del` fails a `vassert`
unfoldable pub clear_bucket : Bool → ℕ → Varray Service → Run (Option (Varray Service))
unfolding Varray.del
clear_bucket mem zero v = ok none
clear_bucket mem (suc fuel) v = elim (ltb 0 v.used) [
  | false ↦ ok (some v)
  | true ↦ Varray.del mem v (pos 0) >>= λ r. elim r.0 [
    | none ↦ fault
    | some item ↦ clear_bucket mem fuel r.1
  ]
]

clear_from : Bool → ℕ → List (Varray Service) → Run (Option (List (Varray Service)))
unfolding clear_bucket
clear_from mem fuel [] = ok (some [])
clear_from mem fuel (v ∷ vs) = clear_bucket mem fuel v >>= λ r. elim r [
  | none ↦ ok none
  | some w ↦
      clear_from mem fuel vs >>= λ q. elim q [ none ↦ ok none | some ws ↦ ok (some (w ∷ ws)) ]
]

-- `_vroute_srvc_space_clear`, with so much fuel for each bucket
unfoldable pub clear : Bool → ℕ → SrvcSpace → Run (Option SrvcSpace)
unfolding clear_from
clear mem fuel space = clear_from mem fuel space.buckets >>= λ r. elim r [
  | none ↦ ok none
  | some vs ↦ ok (some (record space { buckets = vs }))
]
