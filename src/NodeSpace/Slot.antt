-- ===== src/NodeSpace/Slot.antt =====
-- vroute_node.c: the peer behind a pointer into a bucket, and the loop that looks for it.
use vdht.Base.{
  ℕ, zero, suc, ◌+◌, ◌<◌, ◌≡◌, refl, ap, sym, ◌∙◌, pos, true, false, Bool, Option, none, some, List,
  [], ◌∷◌, ◌++◌, map, length, length-append, length-map, append_assoc, map-append, ok, arith,
  get_elem?-append, All, ◌>>=◌, Run,
}
use vdht.NodeInfo.{NodeInfo}
use vdht.NodeSpace
use vdht.Peer
use vdht.Peer.{Peer, Limits, AddBy}
use vdht.Token
use vdht.Token.{Token}
use vdht.Varray
use vdht.Varray.{Varray}
use vdht.Varray.Holds.{Holds, fresh, stored, hold, load-append, store-append, size-Holds}
use vdht.Varray.Ends.{get_lem}

abbrev pub Other : Token → Peer → Type 0
Other id x = Token.equal x.nodei.id id ≡ false

-- The array with the item at the end of a front part overwritten.
module _ (pre post : List Peer) (x y : Peer) (junk : List (Option Peer)) (first : ℕ) where
  abbrev front : List (Option Peer)
  front = map some pre

  abbrev back : List (Option Peer)
  back = map some post ++ junk

  here : length pre ≡ length front
  here = sym (length-map some pre)

  block : map some (pre ++ x ∷ post) ++ junk ≡ front ++ some x ∷ back
  block = rw map-append (append_assoc front (some x ∷ map some post) junk)

  pub read_at : Varray.load (map some (pre ++ x ∷ post) ++ junk) (length pre) ≡ ok (some x)
  read_at = rw block (load-append front (some x) back (length pre) here)

  pub write_at :
      Varray.store (map some (pre ++ x ∷ post) ++ junk) (length pre) (some y)
      ≡ ok (map some (pre ++ y ∷ post) ++ junk)
  write_at =
      let whole : front ++ some y ∷ back ≡ map some (pre ++ y ∷ post) ++ junk =
        rw map-append (sym (append_assoc front (some y ∷ map some post) junk)) in
      rw block (store-append front (some x) (some y) back (length pre) here) ∙ ap ok whole

  -- The array with the changed block holds the changed list.
  pub changed-Holds :
      0 < first
      → Holds
          (record {
            used = length (pre ++ x ∷ post);
            capc = length (pre ++ x ∷ post) + length junk;
            first = first;
            items = some (map some (pre ++ y ∷ post) ++ junk);
          })
          (pre ++ y ∷ post)
  changed-Holds p =
      let same : length (pre ++ x ∷ post) ≡ length (pre ++ y ∷ post) =
        omega (arith, length-append pre (x ∷ post), length-append pre (y ∷ post)) in
      hold _ (pre ++ y ∷ post) junk p same (omega arith) refl

-- A change of the peer at its index changes no other one.
pub modify-Holds :
    (change : Peer → Run Peer) (pre post : List Peer) (x y : Peer) {v : Varray Peer}
    {xs : List Peer}
    → Holds v xs
    → xs ≡ pre ++ x ∷ post
    → change x ≡ ok y
    → (w : Varray Peer) × (NodeSpace.modify change v (length pre) ≡ ok w)
      × Holds w (pre ++ y ∷ post)
unfolding NodeSpace.modify NodeSpace.modify_items
modify-Holds change pre post x y (fresh first p) e made =
    absurd (omega (arith, ap length e, length-append pre (x ∷ post)))
modify-Holds change pre post x y (stored xs junk first p) e made = (
  _,
  rw (e, read_at pre post x y junk first, ◌>>=◌, made, e, write_at pre post x y junk first),
  changed-Holds pre post x y junk first p,
)

pub update_at-Holds :
    (mem : Bool) (limits : Limits) (nodei : NodeInfo) (flag : AddBy) (now : ℕ)
    (pre post : List Peer) (x y : Peer) (ret : Option Bool) {v : Varray Peer} {xs : List Peer}
    → Holds v xs
    → xs ≡ pre ++ x ∷ post
    → Peer.peer_update mem limits x nodei flag now ≡ ok (y, ret)
    → (w : Varray Peer) × (NodeSpace.update_at mem limits v (some (length pre)) nodei flag now
        ≡ ok (w, ret))
      × Holds w (pre ++ y ∷ post)
unfolding NodeSpace.update_at NodeSpace.update_items
update_at-Holds mem limits nodei flag now pre post x y ret (fresh first p) e made =
    absurd (omega (arith, ap length e, length-append pre (x ∷ post)))
update_at-Holds mem limits nodei flag now pre post x y ret (stored xs junk first p) e made = (
  _,
  rw (e, read_at pre post x y junk first, ◌>>=◌, made, e, write_at pre post x y junk first),
  changed-Holds pre post x y junk first p,
)

module _ (id : Token) where
  find_from :
      (done pre post : List Peer) (x : Peer) {v : Varray Peer} (i n : ℕ)
      → i ≡ length done
      → n ≡ length (pre ++ x ∷ post)
      → Holds v (done ++ (pre ++ x ∷ post))
      → All (Other id) pre
      → Token.equal x.nodei.id id ≡ true
      → NodeSpace.find_peer id v n i ≡ ok (some (i + length pre))
  unfolding NodeSpace.find_peer
  find_from done [] post x i zero e size h others found = absurd (omega arith)
  find_from done (y ∷ pre) post x i zero e size h others found = absurd (omega arith)
  find_from done [] post x {v} i (suc n) e size h others found =
      let read : Varray.get v (pos i) ≡ ok (some x) =
        get_lem i h ∙ ap ok (rw e (get_elem?-append done x post)) in
      let here : i ≡ i + 0 = omega arith in rw (read, ◌>>=◌, found) (ap (λ t. ok (some t)) here)
  find_from done (y ∷ pre) post x {v} i (suc n) e size h others found =
      let read : Varray.get v (pos i) ≡ ok (some y) =
        get_lem i h ∙ ap ok (rw e (get_elem?-append done y (pre ++ x ∷ post))) in
      let step : i + 1 + length pre ≡ i + suc (length pre) = omega arith in
      let next : i + 1 ≡ length (done ++ y ∷ []) = omega (arith, length-append done (y ∷ [])) in
      let rest =
        find_from (done ++ y ∷ []) pre post x {v = v} (i + 1) n next (omega arith)
          (rw (append_assoc done (y ∷ []) (pre ++ x ∷ post)) h) others.1 found in
      rw (read, ◌>>=◌, others.0) (rest ∙ ap (λ t. ok (some t)) step)

  -- The first peer with the ID is found.
  pub find_peer-found :
      (pre post : List Peer) (x : Peer) {v : Varray Peer}
      → Holds v (pre ++ x ∷ post)
      → All (Other id) pre
      → Token.equal x.nodei.id id ≡ true
      → NodeSpace.find_peer id v v.used 0 ≡ ok (some (length pre))
  find_peer-found pre post x {v} h others found =
      let start : 0 + length pre ≡ length pre = omega arith in
      find_from [] pre post x 0 v.used refl (size-Holds h) h others found
      ∙ ap (λ t. ok (some t)) start

  absent_from :
      (done xs : List Peer) {v : Varray Peer} (i n : ℕ)
      → i ≡ length done
      → n ≡ length xs
      → Holds v (done ++ xs)
      → All (Other id) xs
      → NodeSpace.find_peer id v n i ≡ ok none
  unfolding NodeSpace.find_peer
  absent_from done xs i zero e size h others = refl
  absent_from done [] i (suc n) e size h others = absurd (omega arith)
  absent_from done (y ∷ xs) {v} i (suc n) e size h others =
      let read : Varray.get v (pos i) ≡ ok (some y) =
        get_lem i h ∙ ap ok (rw e (get_elem?-append done y xs)) in
      let next : i + 1 ≡ length (done ++ y ∷ []) = omega (arith, length-append done (y ∷ [])) in
      let rest =
        absent_from (done ++ y ∷ []) xs {v = v} (i + 1) n next (omega arith)
          (rw (append_assoc done (y ∷ []) xs) h) others.1 in
      rw (read, ◌>>=◌, others.0) rest

  -- A bucket without the ID is searched to its end.
  pub find_peer-absent :
      (xs : List Peer) {v : Varray Peer}
      → Holds v xs
      → All (Other id) xs
      → NodeSpace.find_peer id v v.used 0 ≡ ok none
  find_peer-absent xs {v} h others = absent_from [] xs 0 v.used refl (size-Holds h) h others
