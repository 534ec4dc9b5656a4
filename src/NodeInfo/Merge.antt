-- ===== src/NodeInfo/Merge.antt =====
-- vnodeId.c, vnodeInfo_merge: its branches.
use vdht.Base.{
  ◌⊎◌, ◌<◌, ◌≡◌, ◌≢◌, refl, ap, ◌==◌, Bool, true, false, List, [], ◌∷◌, length, map, some, arith,
  Bool-cases, inl, inr, ok, fault, le→leb,
}
use mathlib.Core.Path.{ap₂}
use vdht.Addrs
use vdht.Addrs.{SockAddr, VSockAddr, sockaddr_type}
use vdht.Addrs.Insert.{equal_iff}
use vdht.NodeInfo
use vdht.NodeInfo.{NodeInfo}
use vdht.NodeInfo.Copy.{IsSource, copy_node_lem, copy_token}
use vdht.NodeInfo.Insert.{IsValid, add_addr-Inserted}
use vdht.Token
use vdht.Token.{Token}

-- A source with another ID changes nothing.
pub merge_other :
    (mem : Bool) (dest src : NodeInfo)
    → Token.equal dest.id src.id ≡ false
    → NodeInfo.merge mem dest src ≡ ok (dest, some false)
unfolding NodeInfo.merge
merge_other mem dest src h = rw h

pub merge_addrs_lem :
    (ds ss : List VSockAddr)
    → length ds ≡ length ss
    → (map (λ (x : VSockAddr). x.addr) (NodeInfo.merge_addrs ds ss).0
        ≡ map (λ (x : VSockAddr). x.addr) ss)
      × ((NodeInfo.merge_addrs ds ss).1 ≡ false → (NodeInfo.merge_addrs ds ss).0 ≡ ds)
unfolding NodeInfo.merge_addrs
merge_addrs_lem [] [] e = (refl, λ _. refl)
merge_addrs_lem [] (s ∷ ss) e = absurd (omega arith)
merge_addrs_lem (d ∷ ds) [] e = absurd (omega arith)
merge_addrs_lem (d ∷ ds) (s ∷ ss) e =
    let (same, kept) = merge_addrs_lem ds ss (omega arith) in
    elim (Bool-cases (Addrs.equal d.addr s.addr)) [
      | inl f ↦ (
        rw f (ap₂ ◌∷◌ ((equal_iff d.addr s.addr).0 f) same),
        rw f (λ h. ap (λ t. d ∷ t) (kept h)),
      )
      | inr f ↦ (rw f (ap (λ t. s.addr ∷ t) same), rw f (λ h. cc))
    ]

module _ (dest src : NodeInfo) (same : Token.equal dest.id src.id ≡ true) where
  module _ (real : NodeInfo.is_fake src ≡ false) where
    -- With memory to grow, vnodeInfo_merge into a valid record with the same ID, from a source
    -- that is not fake, has another number of addresses, at most twelve, distinct and in the order
    -- of their kinds, returns 1 and makes the destination a valid copy of the source.
    pub merge_replaces :
        IsValid dest
        → IsSource src.addrs
        → length dest.addrs ≢ length src.addrs
        → (d : NodeInfo) × (NodeInfo.merge true dest src ≡ ok (d, some true))
          × (d.addrs ≡ src.addrs)
          × ((d.id ≡ src.id) × (d.ver ≡ src.ver) × (d.weight ≡ src.weight))
          × IsValid d
    unfolding NodeInfo.merge
    merge_replaces v s ne =
        let apart : (length dest.addrs == length src.addrs) ≡ false = ground arith in
        let (d, run, addrs, node, valid) = copy_node_lem src v s in
        (d, rw (same, real, apart, run), addrs, node, valid)

    -- vnodeInfo_merge from a source with the same ID that is not fake and has as many addresses
    -- returns whether an address was overwritten; the addresses of the destination are those of
    -- the source, version and weight are taken over, and unless it reports a change the array is
    -- as it was.
    pub merge_overwrites :
        length dest.addrs ≡ length src.addrs
        → (d : NodeInfo) × (updated : Bool) × (NodeInfo.merge true dest src ≡ ok (d, some updated))
          × (map (λ (x : VSockAddr). x.addr) d.addrs ≡ map (λ (x : VSockAddr). x.addr) src.addrs)
          × ((updated ≡ true) ⊎ (d.addrs ≡ dest.addrs))
          × ((d.id ≡ dest.id) × (d.ver ≡ src.ver) × (d.weight ≡ src.weight))
    unfolding NodeInfo.merge
    merge_overwrites e =
        let level : (length dest.addrs == length src.addrs) ≡ true = ground arith in
        let (addrs, kept) = merge_addrs_lem dest.addrs src.addrs e in
        (
          record dest {
            ver = Token.copy src.ver;
            weight = src.weight;
            addrs = (NodeInfo.merge_addrs dest.addrs src.addrs).0;
          },
          (NodeInfo.merge_addrs dest.addrs src.addrs).1,
          rw (same, real, level),
          addrs,
          told (NodeInfo.merge_addrs dest.addrs src.addrs).1 kept,
          (refl, copy_token src.ver, refl),
        )
      where
        told :
            (updated : Bool)
            → (updated ≡ false → (NodeInfo.merge_addrs dest.addrs src.addrs).0 ≡ dest.addrs)
            → (updated ≡ true) ⊎ ((NodeInfo.merge_addrs dest.addrs src.addrs).0 ≡ dest.addrs)
        told true h = inl refl
        told false h = inr (h refl)

  -- vnodeInfo_merge from a fake source with the same ID and two addresses or more, whose first one
  -- the destination does not have, into a valid destination that is full and has fewer than twelve
  -- addresses, goes on with the block that realloc has moved: a fault.
  pub merge_stale :
      (x y : VSockAddr) (xs : List VSockAddr)
      → NodeInfo.is_fake src ≡ true
      → IsValid dest
      → length dest.addrs ≡ dest.capc
      → length dest.addrs < 12
      → src.addrs ≡ x ∷ y ∷ xs
      → NodeInfo.has_addr dest x.addr ≡ false
      → NodeInfo.merge true dest src ≡ fault
  unfolding NodeInfo.merge
  merge_stale x y xs fake v full below e new =
      let (m, fresh, run, added) = add_addr-Inserted x.addr x.type v below in
      let moved : (m.capc == dest.capc) ≡ false =
        ground (arith, added.capacity, le→leb dest.capc (length dest.addrs)) in
      rw (same, fake, e, new, run, moved)
