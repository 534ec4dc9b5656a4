-- ===== src/NodeInfo/Insert.antt =====
-- vnodeId.c, vnodeInfo_add_addr: valid records, and an insertion into one.
use vdht.Base.{
  ℕ, ◌+◌, ◌%◌, ◌<◌, ◌≤◌, ◌≡◌, refl, ap, ◌∙◌, ltb, leb, Bool, true, false, not, List, [], ◌∷◌, ◌++◌,
  length, some, arith, if◌then◌else◌, Bool-cases, inl, inr, ok, leb-false, lt→ltb, All,
}
use mathlib.Core.Path.{subst}
use vdht.Addrs
use vdht.Addrs.{SockAddr, VSockAddr, sockaddr_type}
use vdht.Addrs.Insert.{
  IsDistinct, InOrder, insert_back-Placed, length-Placed, has-Placed, Placed-IsDistinct,
  Placed-InOrder, Placed_last, has-retype, retype-IsDistinct, length-retype, equal_iff,
}
use vdht.NodeInfo
use vdht.NodeInfo.{NodeInfo, changes}

pub record IsValid (n : NodeInfo) : Type 0 where
  pub fits : length n.addrs ≤ n.capc
  pub backed : n.capc ≤ n.slots
  pub step : n.capc % 4 ≡ 0
  pub limit : n.capc ≤ 12
  pub distinct : IsDistinct n.addrs

-- What `vnodeInfo_add_addr` makes of the record.
pub record NodeAdded (n : NodeInfo) (addr : SockAddr) (m : NodeInfo) (new : Bool) : Type 0 where
  pub valid : IsValid m
  pub fresh : new ≡ not (Addrs.has n.addrs addr)
  pub count : length m.addrs ≡ length n.addrs + (if new then 1 else 0)
  pub reads :
      (a : SockAddr)
      → Addrs.has m.addrs a ≡ (if Addrs.equal addr a then true else Addrs.has n.addrs a)
  pub capacity : m.capc ≡ (if leb n.capc (length n.addrs) then n.capc + 4 else n.capc)
  pub same_node : (m.id ≡ n.id) × (m.ver ≡ n.ver) × (m.weight ≡ n.weight)

-- What an insertion of `addr` makes of the record.
pub record Inserted (n : NodeInfo) (addr : SockAddr) (type : ℕ) (m : NodeInfo) (new : Bool)
    : Type 0 where
  pub valid : IsValid m
  pub fresh : new ≡ not (Addrs.has n.addrs addr)
  pub count : length m.addrs ≡ length n.addrs + (if new then 1 else 0)
  pub reads :
      (a : SockAddr)
      → Addrs.has m.addrs a ≡ (if Addrs.equal addr a then true else Addrs.has n.addrs a)
  pub ordered : new ≡ true → InOrder sockaddr_type n.addrs → InOrder sockaddr_type m.addrs
  pub last :
      new ≡ true
      → All (λ x. sockaddr_type x.type ≤ sockaddr_type type) n.addrs
      → m.addrs ≡ n.addrs ++ record { addr = addr; type = type } ∷ []
  pub capacity : m.capc ≡ (if leb n.capc (length n.addrs) then n.capc + 4 else n.capc)
  pub same_node : (m.id ≡ n.id) × (m.ver ≡ n.ver) × (m.weight ≡ n.weight)

module _ (addr : SockAddr) (type : ℕ) where
  abbrev entry : VSockAddr
  entry = record { addr = addr; type = type }

  reserved :
      {n : NodeInfo}
      → IsValid n
      → length n.addrs < 12
      → (m : NodeInfo) × (NodeInfo.reserve true n ≡ some m)
        × IsValid m
        × (length m.addrs < m.capc)
        × (m.addrs ≡ n.addrs)
        × (m.id ≡ n.id)
        × (m.ver ≡ n.ver)
        × (m.weight ≡ n.weight)
        × (m.capc ≡ (if leb n.capc (length n.addrs) then n.capc + 4 else n.capc))
  unfolding NodeInfo.reserve
  reserved {n} v h = elim (Bool-cases (leb n.capc (length n.addrs))) [
    | inr e ↦ (n, rw e, v, ground arith, refl, refl, refl, refl, rw e)
    | inl e ↦
        let full : n.capc ≤ length n.addrs = ground arith in
        (
          record n { slots = 4 + n.capc; capc = n.capc + 4 },
          rw e,
          record {
            fits = omega (arith, v.fits);
            backed = omega arith;
            step = omega (arith, v.step);
            limit = omega (arith, v.step);
            distinct = v.distinct;
          },
          omega arith,
          refl,
          refl,
          refl,
          refl,
          rw e,
        )
  ]

  Added_of_same :
      {n m k : NodeInfo} {new : Bool}
      → m.addrs ≡ n.addrs
      → (m.id ≡ n.id) × (m.ver ≡ n.ver) × (m.weight ≡ n.weight)
      → k.capc ≡ (if leb n.capc (length n.addrs) then n.capc + 4 else n.capc)
      → Inserted m addr type k new
      → Inserted n addr type k new
  Added_of_same same node grown d = record {
    capacity = grown;
    valid = d.valid;
    fresh = rw (← same) d.fresh;
    count = rw (← same) d.count;
    reads = λ a. rw (← same) (d.reads a);
    ordered = λ e o. d.ordered e (rw (← same) at o);
    last = λ e o. rw (← same) (d.last e (rw (← same) at o));
    same_node = (d.same_node.0 ∙ node.0, d.same_node.1 ∙ node.1, d.same_node.2 ∙ node.2);
  }

  add_reserved-Inserted :
      {n : NodeInfo}
      → IsValid n
      → length n.addrs < n.capc
      → (m : NodeInfo) × (new : Bool) × (NodeInfo.add_reserved (some n) addr type
          ≡ ok (some (m, new)))
        × Inserted n addr type m new
  unfolding NodeInfo.add_reserved
  add_reserved-Inserted {n} v room = elim (Bool-cases (Addrs.has n.addrs addr)) [
    | inl e ↦ (
      record n { addrs = Addrs.retype (changes type) n.addrs addr type },
      false,
      rw e,
      record {
        valid = record {
          fits = omega (arith, v.fits, length-retype (changes type) n.addrs addr type);
          backed = v.backed;
          step = v.step;
          limit = v.limit;
          distinct = retype-IsDistinct (changes type) n.addrs addr type v.distinct;
        };
        fresh = rw e;
        count = omega (arith, length-retype (changes type) n.addrs addr type);
        reads = λ a. rw has-retype (ground (arith, e, (equal_iff addr a).0, has_same n.addrs e a));
        capacity = rw (leb-false n.capc (length n.addrs) room);
        ordered = λ f. cc;
        last = λ f. cc;
        same_node = (refl, refl, refl);
      },
    )
    | inr e ↦
        let placed = insert_back-Placed sockaddr_type entry n.addrs in
        let inside : ltb (length n.addrs) n.slots ≡ true = lt→ltb _ _ (omega (arith, v.backed)) in
        let longer = length-Placed sockaddr_type entry placed in
        (
          record n { addrs = Addrs.insert_back sockaddr_type entry (length n.addrs) n.addrs },
          true,
          rw (e, inside),
          record {
            valid = record {
              fits = omega arith;
              backed = v.backed;
              step = v.step;
              limit = v.limit;
              distinct = Placed-IsDistinct sockaddr_type entry placed e v.distinct;
            };
            fresh = rw e;
            count = longer;
            reads = has-Placed sockaddr_type entry placed;
            capacity = rw (leb-false n.capc (length n.addrs) room);
            ordered = λ f. Placed-InOrder sockaddr_type entry placed;
            last = λ f. Placed_last sockaddr_type entry placed;
            same_node = (refl, refl, refl);
          },
        )
  ]
    where
      has_same :
          (xs : List VSockAddr)
          → Addrs.has xs addr ≡ true
          → (a : SockAddr) → Addrs.equal addr a ≡ true
          → Addrs.has xs a ≡ true
      has_same xs e a f = subst (λ b. Addrs.has xs b ≡ true) ((equal_iff addr a).0 f) e

  -- `vnodeInfo_add_addr` on fewer than twelve addresses.
  pub add_addr-Inserted :
      {n : NodeInfo}
      → IsValid n
      → length n.addrs < 12
      → (m : NodeInfo) × (new : Bool) × (NodeInfo.add_addr true n addr type ≡ ok (some (m, new)))
        × Inserted n addr type m new
  unfolding NodeInfo.add_addr
  add_addr-Inserted {n} v h =
      let below : leb 12 (length n.addrs) ≡ false = leb-false _ _ h in
      let (m, run, valid, room, same, id, ver, weight, grown) = reserved v h in
      let (k, new, put, added) = add_reserved-Inserted valid room in
      let kept : k.capc ≡ m.capc = added.capacity ∙ rw (leb-false m.capc (length m.addrs) room) in
      (k, new, rw (below, run) put, Added_of_same same (id, ver, weight) (kept ∙ grown) added)

  -- On a valid vnodeInfo with fewer than twelve addresses, and with memory to grow,
  -- vnodeInfo_add_addr writes inside the block and returns whether the address is new; the record
  -- is valid again, has one address more if it is new, contains exactly the old addresses and the
  -- given one, grows by four slots exactly when it was full, and keeps ID, version and weight.
  pub add_addr-NodeAdded :
      {n : NodeInfo}
      → IsValid n
      → length n.addrs < 12
      → (m : NodeInfo) × (new : Bool) × (NodeInfo.add_addr true n addr type ≡ ok (some (m, new)))
        × NodeAdded n addr m new
  add_addr-NodeAdded v h =
      let (m, new, run, put) = add_addr-Inserted v h in
      (
        m,
        new,
        run,
        record {
          valid = put.valid;
          fresh = put.fresh;
          count = put.count;
          reads = put.reads;
          capacity = put.capacity;
          same_node = put.same_node;
        },
      )

  -- On a valid vnodeInfo with fewer than twelve addresses whose kinds do not fall along the array,
  -- and with memory to grow, the insertion by vnodeInfo_add_addr of an address that is not there
  -- leaves the kinds in order.
  pub add_addr-InOrder :
      {n : NodeInfo}
      → IsValid n
      → length n.addrs < 12
      → Addrs.has n.addrs addr ≡ false
      → InOrder sockaddr_type n.addrs
      → (m : NodeInfo) × (NodeInfo.add_addr true n addr type ≡ ok (some (m, true)))
        × InOrder sockaddr_type m.addrs
  add_addr-InOrder v h absent sorted =
      let (m, new, run, put) = add_addr-Inserted v h in
      let is_new : new ≡ true = put.fresh ∙ ap not absent in
      (m, run ∙ ap (λ b. ok (some (m, b))) is_new, put.ordered is_new sorted)
