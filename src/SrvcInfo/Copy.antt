-- ===== src/SrvcInfo/Copy.antt =====
-- vnodeId.c, vsrvcInfo_copy: its source, and the loop over the addresses.
use vdht.Base.{
  ap, All, All-split, ◌<◌, ◌≤◌, ◌≡◌, refl, sym, ◌∙◌, true, List, [], ◌∷◌, ◌++◌, length, arith, ok,
  append_assoc, append-nil, length-append,
}
use vdht.Addrs.{VSockAddr}
use vdht.Addrs.Insert.{IsDistinct, InOrder}
use vdht.Addrs.Front.{IsDistinct-new, InOrder-new}
use vdht.SrvcInfo
use vdht.SrvcInfo.{SrvcInfo}
use vdht.SrvcInfo.Insert.{IsValid, add_addr-Inserted}
use vdht.NodeInfo.Copy.{copy_token}
use vdht.Token
use vdht.Token.{Token}

copy_hash : (t : Token) → Token.hash_copy t ≡ t
unfolding Token.hash_copy
copy_hash [] = refl
copy_hash (x ∷ t) = ap (λ r. x ∷ r) (copy_hash t)

-- An address array as `vsrvcInfo_add_addr` builds it from distinct addresses, each of a known type.
pub record IsSource (xs : List VSockAddr) : Type 0 where
  pub distinct : IsDistinct xs
  pub ordered : InOrder (λ t. t) xs
  pub limit : length xs ≤ 12
  pub known : All (λ x. x.type < 5) xs

copy_addrs_lem :
    (xs : List VSockAddr) {dest : SrvcInfo}
    → IsValid dest
    → IsSource (dest.addrs ++ xs)
    → (d : SrvcInfo) × (SrvcInfo.copy_addrs true dest xs ≡ ok (d, true))
      × (d.addrs ≡ dest.addrs ++ xs)
      × ((d.hash ≡ dest.hash)
          × (d.hostid ≡ dest.hostid)
          × (d.nice ≡ dest.nice)
          × (d.proto ≡ dest.proto))
      × IsValid d
unfolding SrvcInfo.copy_addrs
copy_addrs_lem [] {dest} v s =
    (dest, refl, sym (append-nil dest.addrs), (refl, refl, refl, refl), v)
copy_addrs_lem (x ∷ xs) {dest} v s =
    let room : length dest.addrs < 12 = omega (arith, s.limit, length-append dest.addrs (x ∷ xs)) in
    let known = (All-split (λ y. y.type < 5) dest.addrs (x ∷ xs) s.known).1.0 in
    let (m, run, added) = add_addr-Inserted x.addr x.type known v room in
    let absent = IsDistinct-new dest.addrs xs x s.distinct in
    let longer = added.last absent (InOrder-new (λ t. t) dest.addrs xs x s.ordered) in
    let whole : m.addrs ++ xs ≡ dest.addrs ++ x ∷ xs =
      rw longer (append_assoc dest.addrs (x ∷ []) xs) in
    let (d, more, addrs, node, valid) = copy_addrs_lem xs added.valid (rw whole s) in
    (
      d,
      rw run more,
      addrs ∙ whole,
      (
        node.0 ∙ added.same_node.0,
        node.1 ∙ added.same_node.1,
        node.2 ∙ added.same_node.2,
        node.3 ∙ added.same_node.3,
      ),
      valid,
    )

-- Into a valid vsrvcInfo, with memory to grow, vsrvcInfo_copy of a record of at most twelve
-- distinct addresses of known types in their order succeeds: the destination has the hash, host
-- ID, nice value, protocol and address array of the source and is valid.
pub copy_srvc_lem :
    {dest : SrvcInfo} (src : SrvcInfo)
    → IsValid dest
    → IsSource src.addrs
    → (d : SrvcInfo) × (SrvcInfo.copy true dest src ≡ ok (d, true))
      × (d.addrs ≡ src.addrs)
      × ((d.hash ≡ src.hash)
          × (d.hostid ≡ src.hostid)
          × (d.nice ≡ src.nice)
          × (d.proto ≡ src.proto))
      × IsValid d
unfolding SrvcInfo.copy
copy_srvc_lem {dest} src v s =
    let start : SrvcInfo = record dest {
      hash = Token.hash_copy src.hash;
      hostid = Token.copy src.hostid;
      nice = src.nice;
      proto = src.proto;
      addrs = [];
    } in
    let valid : IsValid start = record {
      fits = omega arith;
      backed = v.backed;
      step = v.step;
      limit = v.limit;
      distinct = tt;
    } in
    let (d, run, addrs, node, done) = copy_addrs_lem src.addrs valid s in
    (
      d,
      run,
      addrs,
      (node.0 ∙ copy_hash src.hash, node.1 ∙ copy_token src.hostid, node.2, node.3),
      done,
    )
