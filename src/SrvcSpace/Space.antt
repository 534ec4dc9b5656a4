-- ===== src/SrvcSpace/Space.antt =====
-- vroute_srvc.c, add_service and clear on the whole table.
use vdht.Base.{
  ℕ, zero, suc, ◌<◌, ◌≡◌, ◌≢◌, refl, ltb, true, List, [], ◌∷◌, length, get_elem?, set, some, arith,
  ok, fault, get_elem?-set_self, get_elem?-set_ne, lt→ltb, ◌>>=◌,
}
use vdht.SrvcInfo
use vdht.SrvcInfo.{SrvcInfo}
use vdht.SrvcInfo.Insert
use vdht.SrvcInfo.Copy.{IsSource}
use vdht.SrvcSpace
use vdht.SrvcSpace.{SrvcSpace, Service}
use vdht.SrvcSpace.Bucket.{Carries, add_to_known}
use vdht.SrvcSpace.Find.{Other}
use vdht.Base.{◌++◌, All}
use vdht.Varray.{Varray}
use vdht.Varray.Holds.{Holds, size-Holds}
use vdht.Varray.Middle.{del_full}

-- What `add_service` makes of the table when it changes one bucket to `w`.
pub record Changed (space next : SrvcSpace) (bucket : ℕ) (w : Varray Service) : Type 0 where
  pub size : next.bucket_sz ≡ space.bucket_sz
  pub here : get_elem? next.buckets bucket ≡ some w
  pub elsewhere : (j : ℕ) → bucket ≢ j → get_elem? next.buckets j ≡ get_elem? space.buckets j

inside :
    (vs : List (Varray Service)) (i : ℕ) {v : Varray Service}
    → get_elem? vs i ≡ some v
    → i < length vs
inside [] i e = cc
inside (x ∷ vs) zero e = omega arith
inside (x ∷ vs) (suc i) e = omega (arith, inside vs i e)

add_service-Changed :
    (space : SrvcSpace) (srvci : SrvcInfo) (now : ℕ) {v w : Varray Service}
    → get_elem? space.buckets (SrvcInfo.bucket srvci.hostid) ≡ some v
    → SrvcSpace.add_to true true space.bucket_sz v srvci now ≡ ok (some w)
    → (next : SrvcSpace) × (SrvcSpace.add_service true true space srvci now ≡ ok (some next))
      × Changed space next (SrvcInfo.bucket srvci.hostid) w
unfolding SrvcSpace.add_service
add_service-Changed space srvci now {v} {w} at run = (
  record space { buckets = set space.buckets (SrvcInfo.bucket srvci.hostid) w },
  rw (at, SrvcSpace.add_service, ◌>>=◌, run),
  record {
    size = refl;
    here =
        get_elem?-set_self space.buckets (SrvcInfo.bucket srvci.hostid) w
          (inside space.buckets _ at);
    elsewhere = λ j ne. get_elem?-set_ne space.buckets w ne;
  },
)

-- With memory to grow, in a table where the bucket of the host of a service holds items of which
-- one, with a valid record, is of the same service and none before it is, add_service of an
-- announcement with at most twelve distinct addresses of known types in their order overwrites
-- that item with what the announcement says and the time, changes no other item of the bucket, and
-- no other bucket.
pub add_service_known :
    (space : SrvcSpace) (srvci : SrvcInfo) (now : ℕ) (pre post : List Service) (x : Service)
    {v : Varray Service}
    → get_elem? space.buckets (SrvcInfo.bucket srvci.hostid) ≡ some v
    → Holds v (pre ++ x ∷ post)
    → All (Other srvci now) pre
    → SrvcSpace.same srvci x ≡ true
    → SrvcInfo.Insert.IsValid x.srvci
    → IsSource srvci.addrs
    → (next : SrvcSpace) × (w : Varray Service) × (y : Service) × (SrvcSpace.add_service true true
          space srvci now
        ≡ ok (some next))
      × Changed space next (SrvcInfo.bucket srvci.hostid) w
      × Holds w (pre ++ y ∷ post)
      × Carries y srvci now
add_service_known space srvci now pre post x at h others e valid source =
    let (w, y, run, held, carries) =
      add_to_known srvci now space.bucket_sz source pre post x h others e valid in
    let (next, whole, changed) = add_service-Changed space srvci now at run in
    (next, w, y, whole, changed, held, carries)

-- clear on a table whose first bucket holds a service and has no slot free reaches the loop of
-- varray_del that writes behind the block: a fault.
pub clear_full :
    (fuel : ℕ) (space : SrvcSpace) (v : Varray Service) (vs : List (Varray Service)) (x : Service)
    (xs : List Service)
    → space.buckets ≡ v ∷ vs
    → Holds v (x ∷ xs)
    → v.used ≡ v.capc
    → SrvcSpace.clear true (suc fuel) space ≡ fault
unfolding SrvcSpace.clear SrvcSpace.clear_from SrvcSpace.clear_bucket
clear_full fuel space v vs x xs e h full =
    let some_used : ltb 0 v.used ≡ true = lt→ltb _ _ (omega (arith, size-Holds h)) in
    let gone = del_full 0 h (omega arith) full in rw (e, some_used, SrvcSpace.clear_bucket, gone)
