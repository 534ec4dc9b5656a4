-- ===== src/Peer/Merged.antt =====
-- vroute_node.c, vpeer_init and vpeer_update: what a peer takes over from a node record.
use vdht.Base.{
  ℕ, suc, ◌<◌, ◌≡◌, refl, ap, sym, ◌∙◌, ◌==◌, Bool, true, false, List, [], ◌∷◌, length, length-map,
  map, some, arith, inl, inr, Bool-cases, ok, ◌>>=◌, ==_iff,
}
use mathlib.Core.Path.{subst}
use vdht.Addrs
use vdht.Addrs.{SockAddr, VSockAddr}
use vdht.Addrs.Insert.{IsDistinct, equal_iff}
use vdht.NodeInfo
use vdht.NodeInfo.{NodeInfo}
use vdht.NodeInfo.Copy.{IsSource, copy_node_lem, copy_token}
use vdht.NodeInfo.Insert.{IsValid}
use vdht.NodeInfo.Merge.{merge_other, merge_replaces, merge_addrs_lem}
use vdht.Peer
use vdht.Peer.{Peer, Limits, AddBy, other, ping_rsp, blank}
use vdht.Token
use vdht.Token.{Token}

has-merge_addrs :
    (ds ss : List VSockAddr) (a : SockAddr)
    → length ds ≡ length ss
    → Addrs.has (NodeInfo.merge_addrs ds ss).0 a ≡ Addrs.has ss a
unfolding NodeInfo.merge_addrs Addrs.has
has-merge_addrs [] [] a e = refl
has-merge_addrs [] (s ∷ ss) a e = absurd (omega arith)
has-merge_addrs (d ∷ ds) [] a e = absurd (omega arith)
has-merge_addrs (d ∷ ds) (s ∷ ss) a e =
    let rest = has-merge_addrs ds ss a (omega arith) in
    elim (Bool-cases (Addrs.equal d.addr s.addr)) [
      | inl f ↦ rw (f, (equal_iff d.addr s.addr).0 f, rest)
      | inr f ↦ rw (f, rest)
    ]

merge_addrs-IsDistinct :
    (ds ss : List VSockAddr)
    → length ds ≡ length ss
    → IsDistinct ss
    → IsDistinct (NodeInfo.merge_addrs ds ss).0
unfolding NodeInfo.merge_addrs
merge_addrs-IsDistinct [] [] e u = tt
merge_addrs-IsDistinct [] (s ∷ ss) e u = absurd (omega arith)
merge_addrs-IsDistinct (d ∷ ds) [] e u = absurd (omega arith)
merge_addrs-IsDistinct (d ∷ ds) (s ∷ ss) e u =
    let apart = has-merge_addrs ds ss s.addr (omega arith) ∙ u.0 in
    let rest = merge_addrs-IsDistinct ds ss (omega arith) u.1 in
    elim (Bool-cases (Addrs.equal d.addr s.addr)) [
      | inl f ↦ rw (f, (equal_iff d.addr s.addr).0 f) (apart, rest)
      | inr f ↦ rw f (apart, rest)
    ]

length-merge_addrs :
    (ds ss : List VSockAddr)
    → length ds ≡ length ss
    → length (NodeInfo.merge_addrs ds ss).0 ≡ length ds
unfolding NodeInfo.merge_addrs
length-merge_addrs [] ss e = refl
length-merge_addrs (d ∷ ds) [] e = refl
length-merge_addrs (d ∷ ds) (s ∷ ss) e = ap suc (length-merge_addrs ds ss (omega arith))

-- A record that says what `src` says.
pub record Tells (d src : NodeInfo) : Type 0 where
  pub id : d.id ≡ src.id
  pub ver : d.ver ≡ src.ver
  pub weight : d.weight ≡ src.weight
  pub addrs : map (λ (x : VSockAddr). x.addr) d.addrs ≡ map (λ (x : VSockAddr). x.addr) src.addrs
  pub valid : IsValid d

pub merge-Tells :
    (dest src : NodeInfo)
    → IsValid dest
    → IsSource src.addrs
    → dest.id ≡ src.id
    → Token.equal dest.id src.id ≡ true
    → NodeInfo.is_fake src ≡ false
    → (d : NodeInfo) × (updated : Bool) × (NodeInfo.merge true dest src ≡ ok (d, some updated))
      × Tells d src
unfolding NodeInfo.merge
merge-Tells dest src v s one same real = elim (Bool-cases (length dest.addrs == length src.addrs)) [
  | inr apart ↦
      let (d, run, addrs, node, valid) =
        merge_replaces dest src same real v s (λ e. ground (arith, e, apart)) in
      (
        d,
        true,
        run,
        record {
          id = node.0;
          ver = node.1;
          weight = node.2;
          addrs = ap (λ t. map (λ (x : VSockAddr). x.addr) t) addrs;
          valid = valid;
        },
      )
  | inl level ↦
      let e = (==_iff _ _).0 level in
      let size = length-merge_addrs dest.addrs src.addrs e in
      (
        record dest {
          ver = Token.copy src.ver;
          weight = src.weight;
          addrs = (NodeInfo.merge_addrs dest.addrs src.addrs).0;
        },
        (NodeInfo.merge_addrs dest.addrs src.addrs).1,
        rw (same, real, level),
        record {
          id = one;
          ver = copy_token src.ver;
          weight = refl;
          addrs = (merge_addrs_lem dest.addrs src.addrs e).0;
          valid = record {
            fits = omega (arith, size, v.fits);
            backed = v.backed;
            step = v.step;
            limit = v.limit;
            distinct = merge_addrs-IsDistinct dest.addrs src.addrs e s.distinct;
          };
        },
      )
]

last_addr_lem :
    (xs : List VSockAddr) → 0 < length xs → (a : SockAddr) × (NodeInfo.last_addr xs ≡ ok a)
unfolding NodeInfo.last_addr
last_addr_lem [] h = absurd (omega arith)
last_addr_lem (x ∷ []) h = (x.addr, refl)
last_addr_lem (x ∷ y ∷ xs) h = last_addr_lem (y ∷ xs) (omega arith)

pub worst_addr-nonempty :
    (n : NodeInfo) → 0 < length n.addrs → (a : SockAddr) × (NodeInfo.worst_addr n ≡ ok a)
unfolding NodeInfo.worst_addr
worst_addr-nonempty n h = last_addr_lem n.addrs h

Tells-length : {d src : NodeInfo} → Tells d src → length d.addrs ≡ length src.addrs
Tells-length {d} {src} t =
    sym (length-map (λ (x : VSockAddr). x.addr) d.addrs)
    ∙ ap length t.addrs
    ∙ length-map (λ (x : VSockAddr). x.addr) src.addrs

module _ (limits : Limits) (nodei : NodeInfo) (now : ℕ) where
  -- A node with another ID leaves the record of the peer as it is.
  pub peer_update-other :
      (mem : Bool) (x : Peer) (flag : AddBy)
      → Token.equal x.nodei.id nodei.id ≡ false
      → (y : Peer) × (Peer.peer_update mem limits x nodei flag now ≡ ok (y, some false))
        × (y.nodei ≡ x.nodei)
  unfolding Peer.peer_update Peer.merged Peer.answered
  peer_update-other mem x other e =
      (Peer.answered limits x other now, rw (merge_other mem x.nodei nodei e), refl)
  peer_update-other mem x ping_rsp e =
      (Peer.answered limits x ping_rsp now, rw (merge_other mem x.nodei nodei e), refl)

  -- The part behind the merge.
  merged-Tells :
      (x : Peer) (d : NodeInfo) (updated : Bool)
      → 0 < length d.addrs
      → (y : Peer) × (Peer.merged limits x (d, some updated) ≡ ok (y, some updated))
        × (y.nodei ≡ d)
        × ((y.tick_ts ≡ x.tick_ts) × (y.next_tmo ≡ x.next_tmo) × (y.ntry_pings ≡ x.ntry_pings))
  unfolding Peer.merged
  merged-Tells x d false h = (_, refl, refl, (refl, refl, refl))
  merged-Tells x d true h =
      let (a, last) = worst_addr-nonempty d h in
      (
        record x { nodei = d; conn = NodeInfo.conn_set_raw limits.zaddr a; ntry_probes = 0 },
        rw last,
        refl,
        (refl, refl, refl),
      )

  -- The record of the same node, not fake, is taken over.
  pub peer_update-Tells :
      (x : Peer) (flag : AddBy)
      → IsValid x.nodei
      → IsSource nodei.addrs
      → 0 < length nodei.addrs
      → x.nodei.id ≡ nodei.id
      → Token.equal x.nodei.id nodei.id ≡ true
      → NodeInfo.is_fake nodei ≡ false
      → (y : Peer) × (updated : Bool) × (Peer.peer_update true limits x nodei flag now
          ≡ ok (y, some updated))
        × Tells y.nodei nodei
        × ((y.tick_ts ≡ (Peer.answered limits x flag now).tick_ts)
            × (y.next_tmo ≡ (Peer.answered limits x flag now).next_tmo)
            × (y.ntry_pings ≡ (Peer.answered limits x flag now).ntry_pings))
  unfolding Peer.peer_update
  peer_update-Tells x flag v s some_addr one same real =
      let (d, updated, run, tells) = merge-Tells x.nodei nodei v s one same real in
      let (y, rest, told, counters) =
        merged-Tells (Peer.answered limits x flag now) d updated
          (omega (arith, Tells-length tells)) in
      (y, updated, rw (run, ◌>>=◌, rest), subst (λ n. Tells n nodei) (sym told) tells, counters)

  blank-IsValid : IsValid (blank limits.zaddr).nodei
  blank-IsValid = record {
    fits = omega arith;
    backed = omega arith;
    step = refl;
    limit = omega arith;
    distinct = tt;
  }

  -- A new peer carries what the node says.
  pub peer_init-Tells :
      IsSource nodei.addrs
      → 0 < length nodei.addrs
      → (y : Peer) × (Peer.peer_init true limits (blank limits.zaddr) nodei now ≡ ok y)
        × Tells y.nodei nodei
        × (y.nodei.addrs ≡ nodei.addrs)
        × ((y.tick_ts ≡ now) × (y.next_tmo ≡ limits.init_next_tmo) × (y.ntry_pings ≡ 0))
  unfolding Peer.peer_init
  peer_init-Tells s some_addr =
      let (d, run, addrs, node, valid) = copy_node_lem nodei blank-IsValid s in
      let (a, last) = worst_addr-nonempty d (omega (arith, ap length addrs)) in
      (
        record {
          conn = NodeInfo.conn_set_raw limits.zaddr a;
          nodei = d;
          tick_ts = now;
          next_tmo = limits.init_next_tmo;
          ntry_pings = 0;
          ntry_probes = 0;
        },
        rw (run, ◌>>=◌, last),
        record {
          id = node.0;
          ver = node.1;
          weight = node.2;
          addrs = ap (λ t. map (λ (x : VSockAddr). x.addr) t) addrs;
          valid = valid;
        },
        addrs,
        (refl, refl, refl),
      )
