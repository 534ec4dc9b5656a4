-- ===== src/Tests/Infos.antt =====
-- The address records of nodes and services, on two addresses and more.
use vdht.Base.{
  ◌≡◌, refl, Bool, true, false, replicate, List, [], ◌∷◌, some, ok, fault, arith, pos, ℕ,
  if◌then◌else◌,
}
use vdht.Addrs
use vdht.Addrs.{SockAddr, VSockAddr}
use vdht.Addrs.Insert.{IsDistinct, InOrder}
use vdht.Token
use vdht.NodeInfo
use vdht.NodeInfo.{NodeInfo}
use vdht.NodeInfo.Insert.{NodeAdded, add_addr-NodeAdded, add_addr-InOrder}
use vdht.NodeInfo.Copy.{copy_node_lem}
use vdht.NodeInfo.Merge.{merge_replaces, merge_stale}
use vdht.SrvcInfo
use vdht.SrvcInfo.{SrvcInfo}
use vdht.SrvcInfo.Insert.{SrvcAdded, add_addr-SrvcAdded, has-del_addr}
use vdht.SrvcInfo.Copy.{copy_srvc_lem}

abbrev host : ℕ → SockAddr
host n = record { sin_family = 2; sin_addr = n; sin_port = 12300 }

abbrev entry : ℕ → ℕ → VSockAddr
entry n type = record { addr = host n; type = type }

abbrev node_of : List VSockAddr → NodeInfo
node_of addrs = record {
  id = replicate 20 7;
  ver = replicate 20 1;
  weight = pos 2;
  capc = 4;
  slots = 4;
  addrs = addrs;
}

abbrev two : List VSockAddr
two = entry 1 0 ∷ entry 2 2 ∷ []

abbrev three : List VSockAddr
three = entry 3 1 ∷ entry 4 1 ∷ entry 5 2 ∷ []

abbrev four : List VSockAddr
four = entry 9 0 ∷ three

two-IsDistinct : IsDistinct two
unfolding Addrs.has
two-IsDistinct = (refl, (refl, tt))

four-IsDistinct : IsDistinct four
unfolding Addrs.has
four-IsDistinct = (refl, (refl, (refl, (refl, tt))))

two-IsValid : NodeInfo.Insert.IsValid (node_of two)
two-IsValid = record {
  fits = omega arith;
  backed = omega arith;
  step = refl;
  limit = omega arith;
  distinct = two-IsDistinct;
}

four-IsValid : NodeInfo.Insert.IsValid (node_of four)
four-IsValid = record {
  fits = omega arith;
  backed = omega arith;
  step = refl;
  limit = omega arith;
  distinct = four-IsDistinct;
}

three-IsSource : NodeInfo.Copy.IsSource three
unfolding Addrs.sockaddr_type
three-IsSource = record {
  distinct = four-IsDistinct.1;
  ordered = ground arith;
  limit = omega arith;
}

add_addr-NodeAdded_example :
    (m : NodeInfo) × (new : Bool) × (NodeInfo.add_addr true (node_of two) (host 8) 1
      ≡ ok (some (m, new)))
    × NodeAdded (node_of two) (host 8) m new
add_addr-NodeAdded_example = add_addr-NodeAdded (host 8) 1 two-IsValid (omega arith)

two-InOrder : InOrder Addrs.sockaddr_type two
unfolding Addrs.sockaddr_type
two-InOrder = ground arith

eight_absent : Addrs.has two (host 8) ≡ false
unfolding Addrs.has
eight_absent = refl

add_addr-InOrder_example :
    (m : NodeInfo) × (NodeInfo.add_addr true (node_of two) (host 8) 1 ≡ ok (some (m, true)))
    × InOrder Addrs.sockaddr_type m.addrs
add_addr-InOrder_example =
    add_addr-InOrder (host 8) 1 two-IsValid (omega arith) eight_absent two-InOrder

-- The new address stands between the two kinds.
insert_between :
    NodeInfo.add_addr true (node_of two) (host 8) 1
    ≡ ok (some (node_of (entry 1 0 ∷ entry 8 1 ∷ entry 2 2 ∷ []), true))
unfolding NodeInfo.add_addr Addrs.sockaddr_type
insert_between = refl

copy_node_example :
    (d : NodeInfo) × (NodeInfo.copy true (node_of two) (node_of three) ≡ ok (d, some true))
    × (d.addrs ≡ three)
    × ((d.id ≡ replicate 20 7) × (d.ver ≡ replicate 20 1) × (d.weight ≡ pos 2))
    × NodeInfo.Insert.IsValid d
copy_node_example = copy_node_lem (node_of three) two-IsValid three-IsSource

same_id : Token.equal (node_of two).id (node_of two).id ≡ true
unfolding Token.equal
same_id = refl

real_three : NodeInfo.is_fake (node_of three) ≡ false
unfolding NodeInfo.is_fake
real_three = refl

merge_replaces_example :
    (d : NodeInfo) × (NodeInfo.merge true (node_of two) (node_of three) ≡ ok (d, some true))
    × (d.addrs ≡ three)
    × ((d.id ≡ replicate 20 7) × (d.ver ≡ replicate 20 1) × (d.weight ≡ pos 2))
    × NodeInfo.Insert.IsValid d
merge_replaces_example =
    merge_replaces (node_of two) (node_of three) same_id real_three two-IsValid three-IsSource
      (ground arith)

abbrev other_two : List VSockAddr
other_two = entry 1 0 ∷ entry 6 2 ∷ []

real_two : NodeInfo.is_fake (node_of other_two) ≡ false
unfolding NodeInfo.is_fake
real_two = refl

abbrev fake : NodeInfo
fake = record (node_of two) { ver = replicate 20 0 }

fake-is_fake : NodeInfo.is_fake fake ≡ true
unfolding NodeInfo.is_fake
fake-is_fake = refl

not_there : NodeInfo.has_addr (node_of four) (host 1) ≡ false
unfolding NodeInfo.has_addr Addrs.has
not_there = refl

merge_stale_example : NodeInfo.merge true (node_of four) fake ≡ fault
merge_stale_example =
    merge_stale (node_of four) fake same_id (entry 1 0) (entry 2 2) [] fake-is_fake four-IsValid
      refl (omega arith) refl not_there

abbrev srvc_of : List VSockAddr → SrvcInfo
srvc_of addrs = record {
  hash = replicate 20 3;
  hostid = replicate 20 7;
  nice = pos 5;
  proto = 1;
  capc = 4;
  slots = 4;
  addrs = addrs;
}

srvc-IsValid : SrvcInfo.Insert.IsValid (srvc_of two)
srvc-IsValid = record {
  fits = omega arith;
  backed = omega arith;
  step = refl;
  limit = omega arith;
  distinct = two-IsDistinct;
}

add_addr-SrvcAdded_example :
    (m : SrvcInfo) × (SrvcInfo.add_addr true (srvc_of two) (host 8) 1 ≡ ok (some m))
    × SrvcAdded (srvc_of two) (host 8) m
add_addr-SrvcAdded_example = add_addr-SrvcAdded (host 8) 1 (omega arith) srvc-IsValid (omega arith)

has-del_addr_example :
    Addrs.has (SrvcInfo.del_addr (srvc_of two) (host 1)).addrs (host 2)
    ≡ (if Addrs.equal (host 1) (host 2) then false else Addrs.has two (host 2))
has-del_addr_example = has-del_addr (host 1) (host 2) srvc-IsValid

srvc-IsSource : SrvcInfo.Copy.IsSource three
srvc-IsSource = record {
  distinct = four-IsDistinct.1;
  ordered = ground arith;
  limit = omega arith;
  known = ground arith;
}

copy_srvc_example :
    (d : SrvcInfo) × (SrvcInfo.copy true (srvc_of two) (srvc_of three) ≡ ok (d, true))
    × (d.addrs ≡ three)
    × ((d.hash ≡ replicate 20 3) × (d.hostid ≡ replicate 20 7) × (d.nice ≡ pos 5) × (d.proto ≡ 1))
    × SrvcInfo.Insert.IsValid d
copy_srvc_example = copy_srvc_lem (srvc_of three) srvc-IsValid srvc-IsSource
