-- ===== src/Tests/Services.antt =====
-- Buckets of the service table with one and with two services.
use vdht.Base.{◌≡◌, refl, true, List, [], ◌∷◌, get_elem?, some, none, ok, fault, arith, pos, ℕ, All}
use vdht.Addrs
use vdht.Addrs.{SockAddr, VSockAddr}
use vdht.SrvcInfo
use vdht.SrvcInfo.{SrvcInfo}
use vdht.SrvcInfo.Insert
use vdht.SrvcInfo.Copy.{IsSource}
use vdht.SrvcSpace
use vdht.SrvcSpace.{SrvcSpace, Service}
use vdht.SrvcSpace.Bucket.{Carries, add_to_new, add_to_full}
use vdht.SrvcSpace.Find.{Other}
use vdht.SrvcSpace.Space.{Changed, add_service_known, clear_full}
use vdht.Varray.{Varray}
use vdht.Varray.Holds.{Holds, stored}

-- A service of the host with ID `id`, with one address.
abbrev at_host : ℕ → SrvcInfo
at_host id = record {
  hash = 3 ∷ [];
  hostid = id ∷ [];
  nice = pos 5;
  proto = 1;
  capc = 2;
  slots = 2;
  addrs = record { addr = record { sin_family = 2; sin_addr = 9; sin_port = 80 }; type = 1 } ∷ [];
}

at_host-IsValid : (id : ℕ) → SrvcInfo.Insert.IsValid (at_host id)
unfolding Addrs.has
at_host-IsValid id = record {
  fits = omega arith;
  backed = omega arith;
  step = refl;
  limit = omega arith;
  distinct = (refl, tt);
}

at_host-IsSource : (id : ℕ) → IsSource (at_host id).addrs
at_host-IsSource id = record {
  distinct = (at_host-IsValid id).distinct;
  ordered = (tt, tt);
  limit = omega arith;
  known = (omega arith, tt);
}

abbrev seen_at : ℕ → ℕ → Service
seen_at id ts = record { srvci = at_host id; rcv_ts = ts }

abbrev pair : List Service
pair = seen_at 1 100 ∷ seen_at 2 50 ∷ []

abbrev bucket : Varray Service
bucket = record {
  used = 2;
  capc = 2;
  first = 2;
  items = some (some (seen_at 1 100) ∷ some (seen_at 2 50) ∷ []);
}

bucket-Holds : Holds bucket pair
bucket-Holds = stored pair [] 2 (omega arith)

others : All (Other (at_host 7) 200) pair
unfolding SrvcSpace.same
others = (refl, (refl, tt))

add_to_new_example :
    (w : Varray Service) × (y : Service) × (SrvcSpace.add_to true true 8 bucket (at_host 7) 200
      ≡ ok (some w))
    × Holds w (seen_at 1 100 ∷ seen_at 2 50 ∷ y ∷ [])
    × Carries y (at_host 7) 200
add_to_new_example =
    add_to_new (at_host 7) 200 8 (at_host-IsSource 7) bucket-Holds others (omega arith)

add_to_full_example :
    (w : Varray Service) × (y : Service) × (SrvcSpace.add_to true true 2 bucket (at_host 7) 200
      ≡ ok (some w))
    × Holds w (seen_at 1 100 ∷ y ∷ [])
    × Carries y (at_host 7) 200
add_to_full_example =
    add_to_full (at_host 7) 200 2 (at_host-IsSource 7) (seen_at 1 100 ∷ []) [] (seen_at 2 50)
      bucket-Holds others (omega arith)
      ((omega arith, omega arith), ((omega arith, omega arith), tt)) (omega arith) (omega arith, tt)
      tt (at_host-IsValid 2)

abbrev table : SrvcSpace
table = record { bucket_sz = 8; buckets = bucket ∷ [] }

known : SrvcSpace.same (at_host 160) (seen_at 160 50) ≡ true
unfolding SrvcSpace.same
known = refl

abbrev zeroth : Varray Service
zeroth = record { used = 1; capc = 2; first = 2; items = some (some (seen_at 160 50) ∷ none ∷ []) }

abbrev small_table : SrvcSpace
small_table = record { bucket_sz = 8; buckets = zeroth ∷ bucket ∷ [] }

at_zero : get_elem? small_table.buckets (SrvcInfo.bucket (at_host 160).hostid) ≡ some zeroth
unfolding SrvcInfo.bucket
at_zero = refl

add_service_known_example :
    (next : SrvcSpace) × (w : Varray Service) × (y : Service) × (SrvcSpace.add_service true true
        small_table
        (at_host 160)
        200
      ≡ ok (some next))
    × Changed small_table next (SrvcInfo.bucket (at_host 160).hostid) w
    × Holds w (y ∷ [])
    × Carries y (at_host 160) 200
add_service_known_example =
    add_service_known small_table (at_host 160) 200 [] [] (seen_at 160 50) at_zero
      (stored (seen_at 160 50 ∷ []) (none ∷ []) 2 (omega arith)) tt known (at_host-IsValid 160)
      (at_host-IsSource 160)

clear_full_example : SrvcSpace.clear true 3 table ≡ fault
clear_full_example =
    clear_full 2 table bucket [] (seen_at 1 100) (seen_at 2 50 ∷ []) refl bucket-Holds refl
