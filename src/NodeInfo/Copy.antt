-- ===== src/NodeInfo/Copy.antt =====
-- vnodeId.c, vnodeInfo_copy: its source, and the loop over the addresses.
use vdht.Base.{
  ◌<◌, ◌≤◌, ◌≡◌, refl, ap, sym, ◌∙◌, ltb, true, not, List, [], ◌∷◌, ◌++◌, length, some, arith, ok,
  ltb-false, leb, leb-false, false, append_assoc, append-nil, length-append,
}
use vdht.Addrs.{VSockAddr, sockaddr_type}
use vdht.Addrs.Insert.{IsDistinct, InOrder}
use vdht.Addrs.Front.{IsDistinct-new, InOrder-new}
use vdht.NodeInfo
use vdht.NodeInfo.{NodeInfo}
use vdht.NodeInfo.Insert.{IsValid, add_addr-Inserted}
use vdht.Token
use vdht.Token.{Token}

pub copy_token : (t : Token) → Token.copy t ≡ t
unfolding Token.copy
copy_token [] = refl
copy_token (x ∷ t) = ap (λ r. x ∷ r) (copy_token t)

-- An address array as `vnodeInfo_add_addr` builds it from distinct addresses.
pub record IsSource (xs : List VSockAddr) : Type 0 where
  pub distinct : IsDistinct xs
  pub ordered : InOrder sockaddr_type xs
  pub limit : length xs ≤ 12

copy_addrs_lem :
    (xs : List VSockAddr) {dest : NodeInfo}
    → IsValid dest
    → IsSource (dest.addrs ++ xs)
    → (d : NodeInfo) × (NodeInfo.copy_addrs true dest xs ≡ ok (d, true))
      × (d.addrs ≡ dest.addrs ++ xs)
      × ((d.id ≡ dest.id) × (d.ver ≡ dest.ver) × (d.weight ≡ dest.weight))
      × IsValid d
      × (length (dest.addrs ++ xs) ≤ dest.capc → d.capc ≡ dest.capc)
unfolding NodeInfo.copy_addrs
copy_addrs_lem [] {dest} v s =
    (dest, refl, sym (append-nil dest.addrs), (refl, refl, refl), v, λ h. refl)
copy_addrs_lem (x ∷ xs) {dest} v s =
    let room : length dest.addrs < 12 = omega (arith, s.limit, length-append dest.addrs (x ∷ xs)) in
    let (m, new, run, added) = add_addr-Inserted x.addr x.type v room in
    let absent = IsDistinct-new dest.addrs xs x s.distinct in
    let is_new : new ≡ true = added.fresh ∙ ap not absent in
    let longer = added.last is_new (InOrder-new sockaddr_type dest.addrs xs x s.ordered) in
    let whole : m.addrs ++ xs ≡ dest.addrs ++ x ∷ xs =
      rw longer (append_assoc dest.addrs (x ∷ []) xs) in
    let (d, more, addrs, node, valid, size) = copy_addrs_lem xs added.valid (rw whole s) in
    (
      d,
      rw run more,
      addrs ∙ whole,
      (node.0 ∙ added.same_node.0, node.1 ∙ added.same_node.1, node.2 ∙ added.same_node.2),
      valid,
      λ h.
          let not_full : leb dest.capc (length dest.addrs) ≡ false =
            leb-false _ _ (omega (arith, h, length-append dest.addrs (x ∷ xs))) in
          let kept : m.capc ≡ dest.capc = rw not_full at added.capacity in
          size (omega (arith, h, kept, ap length whole)) ∙ kept,
    )

-- A copy that also says when the block has not been moved.
pub copy_node_sized :
    {dest : NodeInfo} (src : NodeInfo)
    → IsValid dest
    → IsSource src.addrs
    → (d : NodeInfo) × (NodeInfo.copy true dest src ≡ ok (d, some (ltb 0 (length src.addrs))))
      × (d.addrs ≡ src.addrs)
      × ((d.id ≡ src.id) × (d.ver ≡ src.ver) × (d.weight ≡ src.weight))
      × IsValid d
      × (length src.addrs ≤ dest.capc → d.capc ≡ dest.capc)
unfolding NodeInfo.copy
copy_node_sized {dest} src v s =
    let start : NodeInfo = record dest {
      id = Token.copy src.id;
      ver = Token.copy src.ver;
      weight = src.weight;
      addrs = [];
    } in
    let valid : IsValid start = record {
      fits = omega arith;
      backed = v.backed;
      step = v.step;
      limit = v.limit;
      distinct = tt;
    } in
    let (d, run, addrs, node, done, size) = copy_addrs_lem src.addrs valid s in
    (
      d,
      rw (ltb-false dest.slots dest.capc v.backed, run),
      addrs,
      (node.0 ∙ copy_token src.id, node.1 ∙ copy_token src.ver, node.2),
      done,
      size,
    )

-- Into a valid vnodeInfo, with memory to grow, vnodeInfo_copy of a record of at most twelve
-- distinct addresses in the order of their kinds succeeds: the destination has the ID, version,
-- weight and address array of the source and is valid; the result says whether there was an
-- address.
pub copy_node_lem :
    {dest : NodeInfo} (src : NodeInfo)
    → IsValid dest
    → IsSource src.addrs
    → (d : NodeInfo) × (NodeInfo.copy true dest src ≡ ok (d, some (ltb 0 (length src.addrs))))
      × (d.addrs ≡ src.addrs)
      × ((d.id ≡ src.id) × (d.ver ≡ src.ver) × (d.weight ≡ src.weight))
      × IsValid d
copy_node_lem src v s =
    let (d, run, addrs, node, valid, _) = copy_node_sized src v s in (d, run, addrs, node, valid)
