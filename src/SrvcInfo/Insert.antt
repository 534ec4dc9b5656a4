-- ===== src/SrvcInfo/Insert.antt =====
-- vnodeId.c, vsrvcInfo_add_addr and vsrvcInfo_del_addr: valid records, insertion and removal.
use vdht.Base.{
  ℕ, ◌+◌, ◌%◌, ◌<◌, ◌≤◌, ◌≡◌, refl, ◌∙◌, ltb, leb, true, false, List, [], ◌∷◌, ◌++◌, length, some,
  arith, if◌then◌else◌, Bool-cases, inl, inr, ok, leb-false, lt→ltb, All,
}
use mathlib.Core.Path.{subst}
use vdht.Addrs
use vdht.Addrs.{SockAddr, VSockAddr, sockaddr_type}
use vdht.Addrs.Insert.{
  IsDistinct, InOrder, insert_back-Placed, length-Placed, has-Placed, Placed-IsDistinct,
  Placed-InOrder, Placed_last, has-retype, retype-IsDistinct, length-retype, equal_iff, has-cons,
}
use vdht.SrvcInfo
use vdht.SrvcInfo.{SrvcInfo, changes}

pub record IsValid (n : SrvcInfo) : Type 0 where
  pub fits : length n.addrs ≤ n.capc
  pub backed : n.capc ≤ n.slots
  pub step : n.capc % 2 ≡ 0
  pub limit : n.capc ≤ 12
  pub distinct : IsDistinct n.addrs

-- What `vsrvcInfo_add_addr` makes of the record.
pub record SrvcAdded (n : SrvcInfo) (addr : SockAddr) (m : SrvcInfo) : Type 0 where
  pub valid : IsValid m
  pub count : length m.addrs ≡ length n.addrs + (if Addrs.has n.addrs addr then 0 else 1)
  pub reads :
      (a : SockAddr)
      → Addrs.has m.addrs a ≡ (if Addrs.equal addr a then true else Addrs.has n.addrs a)
  pub capacity : m.capc ≡ (if leb n.capc (length n.addrs) then n.capc + 2 else n.capc)
  pub same_service :
      (m.hash ≡ n.hash) × (m.hostid ≡ n.hostid) × (m.nice ≡ n.nice) × (m.proto ≡ n.proto)

-- What an insertion of `addr` makes of the record.
pub record Inserted (n : SrvcInfo) (addr : SockAddr) (type : ℕ) (m : SrvcInfo) : Type 0 where
  pub valid : IsValid m
  pub count : length m.addrs ≡ length n.addrs + (if Addrs.has n.addrs addr then 0 else 1)
  pub reads :
      (a : SockAddr)
      → Addrs.has m.addrs a ≡ (if Addrs.equal addr a then true else Addrs.has n.addrs a)
  pub ordered : Addrs.has n.addrs addr ≡ false → InOrder (λ t. t) n.addrs → InOrder (λ t. t) m.addrs
  pub last :
      Addrs.has n.addrs addr ≡ false
      → All (λ x. x.type ≤ type) n.addrs
      → m.addrs ≡ n.addrs ++ record { addr = addr; type = type } ∷ []
  pub capacity : m.capc ≡ (if leb n.capc (length n.addrs) then n.capc + 2 else n.capc)
  pub same_node :
      (m.hash ≡ n.hash) × (m.hostid ≡ n.hostid) × (m.nice ≡ n.nice) × (m.proto ≡ n.proto)

module _ (addr : SockAddr) (type : ℕ) where
  abbrev entry : VSockAddr
  entry = record { addr = addr; type = type }

  reserved :
      {n : SrvcInfo}
      → IsValid n
      → length n.addrs < 12
      → (m : SrvcInfo) × (SrvcInfo.reserve true n ≡ some m)
        × IsValid m
        × (length m.addrs < m.capc)
        × (m.addrs ≡ n.addrs)
        × (m.hash ≡ n.hash)
        × (m.hostid ≡ n.hostid)
        × (m.nice ≡ n.nice)
        × (m.proto ≡ n.proto)
        × (m.capc ≡ (if leb n.capc (length n.addrs) then n.capc + 2 else n.capc))
  unfolding SrvcInfo.reserve
  reserved {n} v h = elim (Bool-cases (leb n.capc (length n.addrs))) [
    | inr e ↦ (n, rw e, v, ground arith, refl, refl, refl, refl, refl, rw e)
    | inl e ↦
        let full : n.capc ≤ length n.addrs = ground arith in
        (
          record n { slots = 2 + n.capc; capc = n.capc + 2 },
          rw e,
          record {
            fits = omega (arith, v.fits);
            backed = omega arith;
            step = omega (arith, v.step);
            limit = omega (arith, v.step);
            distinct = v.distinct;
          },
          omega arith,
          refl,
          refl,
          refl,
          refl,
          refl,
          rw e,
        )
  ]

  Added_of_same :
      {n m k : SrvcInfo}
      → m.addrs ≡ n.addrs
      → (m.hash ≡ n.hash) × (m.hostid ≡ n.hostid) × (m.nice ≡ n.nice) × (m.proto ≡ n.proto)
      → k.capc ≡ (if leb n.capc (length n.addrs) then n.capc + 2 else n.capc)
      → Inserted m addr type k
      → Inserted n addr type k
  Added_of_same same node grown d = record {
    capacity = grown;
    valid = d.valid;
    count = rw (← same) d.count;
    reads = λ a. rw (← same) (d.reads a);
    ordered = λ e o. d.ordered (rw same e) (rw (← same) at o);
    last = λ e o. rw (← same) (d.last (rw same e) (rw (← same) at o));
    same_node = (
      d.same_node.0 ∙ node.0,
      d.same_node.1 ∙ node.1,
      d.same_node.2 ∙ node.2,
      d.same_node.3 ∙ node.3,
    );
  }

  add_reserved-Inserted :
      {n : SrvcInfo}
      → IsValid n
      → length n.addrs < n.capc
      → (m : SrvcInfo) × (SrvcInfo.add_reserved (some n) addr type ≡ ok (some m))
        × Inserted n addr type m
  unfolding SrvcInfo.add_reserved
  add_reserved-Inserted {n} v room = elim (Bool-cases (Addrs.has n.addrs addr)) [
    | inl e ↦ (
      record n { addrs = Addrs.retype (changes type) n.addrs addr type },
      rw e,
      record {
        valid = record {
          fits = omega (arith, v.fits, length-retype (changes type) n.addrs addr type);
          backed = v.backed;
          step = v.step;
          limit = v.limit;
          distinct = retype-IsDistinct (changes type) n.addrs addr type v.distinct;
        };
        count = rw e (omega (arith, length-retype (changes type) n.addrs addr type));
        reads = λ a. rw has-retype (ground (arith, e, (equal_iff addr a).0, has_same n.addrs e a));
        capacity = rw (leb-false n.capc (length n.addrs) room);
        ordered = λ f. cc (e, f);
        last = λ f. cc (e, f);
        same_node = (refl, refl, refl, refl);
      },
    )
    | inr e ↦
        let placed = insert_back-Placed (λ t. t) entry n.addrs in
        let inside : ltb (length n.addrs) n.slots ≡ true = lt→ltb _ _ (omega (arith, v.backed)) in
        let longer = length-Placed (λ t. t) entry placed in
        (
          record n { addrs = Addrs.insert_back (λ t. t) entry (length n.addrs) n.addrs },
          rw (e, inside),
          record {
            valid = record {
              fits = omega arith;
              backed = v.backed;
              step = v.step;
              limit = v.limit;
              distinct = Placed-IsDistinct (λ t. t) entry placed e v.distinct;
            };
            count = rw e longer;
            reads = has-Placed (λ t. t) entry placed;
            capacity = rw (leb-false n.capc (length n.addrs) room);
            ordered = λ f. Placed-InOrder (λ t. t) entry placed;
            last = λ f. Placed_last (λ t. t) entry placed;
            same_node = (refl, refl, refl, refl);
          },
        )
  ]
    where
      has_same :
          (xs : List VSockAddr)
          → Addrs.has xs addr ≡ true
          → (a : SockAddr) → Addrs.equal addr a ≡ true
          → Addrs.has xs a ≡ true
      has_same xs e a f = subst (λ b. Addrs.has xs b ≡ true) ((equal_iff addr a).0 f) e

  -- `vsrvcInfo_add_addr` on fewer than twelve addresses.
  pub add_addr-Inserted :
      {n : SrvcInfo}
      → type < 5
      → IsValid n
      → length n.addrs < 12
      → (m : SrvcInfo) × (SrvcInfo.add_addr true n addr type ≡ ok (some m)) × Inserted n addr type m
  unfolding SrvcInfo.add_addr
  add_addr-Inserted {n} known v h =
      let below : leb 12 (length n.addrs) ≡ false = leb-false _ _ h in
      let kind : ltb type 5 ≡ true = lt→ltb _ _ known in
      let (m, run, valid, room, same, hash, hostid, nice, proto, grown) = reserved v h in
      let (k, put, added) = add_reserved-Inserted valid room in
      let kept : k.capc ≡ m.capc = added.capacity ∙ rw (leb-false m.capc (length m.addrs) room) in
      (
        k,
        rw (kind, below, run) put,
        Added_of_same same (hash, hostid, nice, proto) (kept ∙ grown) added,
      )

  -- On a valid vsrvcInfo with fewer than twelve addresses, for a known address type, and with
  -- memory to grow, vsrvcInfo_add_addr passes its assertion and writes inside the block; the
  -- record is valid again, has one address more if the address is new, contains exactly the old
  -- addresses and the given one, grows by two slots exactly when it was full, and keeps hash, host
  -- ID, nice value and protocol.
  pub add_addr-SrvcAdded :
      {n : SrvcInfo}
      → type < 5
      → IsValid n
      → length n.addrs < 12
      → (m : SrvcInfo) × (SrvcInfo.add_addr true n addr type ≡ ok (some m)) × SrvcAdded n addr m
  add_addr-SrvcAdded known v h =
      let (m, run, put) = add_addr-Inserted known v h in
      (
        m,
        run,
        record {
          valid = put.valid;
          count = put.count;
          reads = put.reads;
          capacity = put.capacity;
          same_service = put.same_node;
        },
      )

has-nil : (b : SockAddr) → Addrs.has [] b ≡ false
unfolding Addrs.has
has-nil b = refl

has-remove :
    (xs : List VSockAddr) (addr a : SockAddr)
    → IsDistinct xs
    → Addrs.has (SrvcInfo.remove_addr xs addr) a
      ≡ (if Addrs.equal addr a then false else Addrs.has xs a)
unfolding SrvcInfo.remove_addr
has-remove [] addr a d = ground (arith, has-nil a)
has-remove (x ∷ xs) addr a d = elim (Bool-cases (Addrs.equal x.addr addr)) [
  | inl e ↦
      let same = (equal_iff x.addr addr).0 e in
      let gone : Addrs.has xs addr ≡ false = subst (λ b. Addrs.has xs b ≡ false) same d.0 in
      rw e (
        ground (
          arith,
          has-cons x xs a,
          subst (λ b. Addrs.has (x ∷ xs) a ≡ (if Addrs.equal b a then true else Addrs.has xs a))
              same (has-cons x xs a),
          absent xs addr a gone,
        ))
  | inr e ↦ rw e (
      ground (
        arith,
        has-cons x xs a,
        has-cons x (SrvcInfo.remove_addr xs addr) a,
        has-remove xs addr a d.1,
        apart e,
      ))
]
  where
    absent :
        (ys : List VSockAddr) (b c : SockAddr)
        → Addrs.has ys b ≡ false
        → Addrs.equal b c ≡ true
        → Addrs.has ys c ≡ false
    absent ys b c h e = subst (λ t. Addrs.has ys t ≡ false) ((equal_iff b c).0 e) h

    apart :
        Addrs.equal x.addr addr ≡ false → Addrs.equal addr a ≡ true → Addrs.equal x.addr a ≡ false
    apart e f = subst (λ t. Addrs.equal x.addr t ≡ false) ((equal_iff addr a).0 f) e

-- On a valid vsrvcInfo, after vsrvcInfo_del_addr the deleted address is not there and every other
-- address is there exactly if it was before.
pub has-del_addr :
    {s : SrvcInfo} (addr a : SockAddr)
    → IsValid s
    → Addrs.has (SrvcInfo.del_addr s addr).addrs a
      ≡ (if Addrs.equal addr a then false else Addrs.has s.addrs a)
unfolding SrvcInfo.del_addr
has-del_addr {s} addr a v = has-remove s.addrs addr a v.distinct
