-- ===== src/NodeSpace/Gathered.antt =====
-- vroute_node.c, find_closest_nodes: what the loops over the table put into the sorted array.
use vdht.Base.{
  suc, ◌+◌, ◌<◌, ◌≡◌, refl, ap, sym, ◌∙◌, List, [], ◌∷◌, ◌++◌, length, get_elem?, get_elem?-append,
  append_assoc, length-append, replicate, Bool-cases, true, false, none, some, pos, inl, inr, ok,
  arith, ℤ-cases, ◌>>=◌,
}
use mathlib.Core.Path.{subst}
use vdht.NodeSpace.{NodeSpace, PeerBucket}
use vdht.NodeSpace.Closest
use vdht.Peer.{Peer}
use vdht.Token.{Token}
use vdht.Varray
use vdht.Varray.{Varray}
use vdht.Varray.Ends.{get_lem}
use vdht.Varray.Holds.{Holds, stored, size-Holds}
use vdht.Varray.Sized.{sorted_add-capc}
use vdht.Varray.Sorted.{place, sorted_add-Holds}

-- The buckets hold the peers of a list, one bucket after the other.
pub data Hold : List PeerBucket → List Peer → Type 0 where
  no_bucket : Hold [] []
  bucket :
      (b : PeerBucket) (bs : List PeerBucket) (xs ys : List Peer)
      → Holds b.peers xs
      → Hold bs ys
      → Hold (b ∷ bs) (xs ++ ys)

-- The sorted array of find_closest_nodes: before and after its first insertion.
pub data Gathered : Varray Peer → List Peer → Type 0 where
  empty : Gathered (record { used = 0; capc = 0; first = 32; items = none }) []
  filled : {v : Varray Peer} {xs : List Peer} → Holds v xs → v.capc ≡ 32 → Gathered v xs

module _ (space : NodeSpace) (target_id : Token) where
  -- The peers that pass the tests, in their order.
  abbrev pub candidates : List Peer → List Peer
  candidates [] = []
  candidates (p ∷ ps) = elim (Closest.is_candidate space target_id p) [
    | true ↦ p ∷ candidates ps
    | false ↦ candidates ps
  ]

  -- Insertion one after the other.
  abbrev pub ordered : List Peer → List Peer → List Peer
  ordered [] acc = acc
  ordered (p ∷ ps) acc = ordered ps (place (Closest.weight_cmp_cb target_id) p acc)

  candidates-passed :
      (x : Peer) (xs : List Peer)
      → Closest.is_candidate space target_id x ≡ true
      → candidates (x ∷ xs) ≡ x ∷ candidates xs
  candidates-passed x xs e = rw (e, candidates) refl

  candidates-refused :
      (x : Peer) (xs : List Peer)
      → Closest.is_candidate space target_id x ≡ false
      → candidates (x ∷ xs) ≡ candidates xs
  candidates-refused x xs e = rw (e, candidates) refl

  candidates-append : (xs ys : List Peer) → candidates (xs ++ ys) ≡ candidates xs ++ candidates ys
  candidates-append [] ys = refl
  candidates-append (x ∷ xs) ys = elim (Bool-cases (Closest.is_candidate space target_id x)) [
    | inl e ↦
        candidates-passed x (xs ++ ys) e
        ∙ ap (λ t. x ∷ t) (candidates-append xs ys)
        ∙ ap (λ t. t ++ candidates ys) (sym (candidates-passed x xs e))
    | inr e ↦
        candidates-refused x (xs ++ ys) e
        ∙ candidates-append xs ys
        ∙ ap (λ t. t ++ candidates ys) (sym (candidates-refused x xs e))
  ]

  ordered-append : (xs ys acc : List Peer) → ordered (xs ++ ys) acc ≡ ordered ys (ordered xs acc)
  ordered-append [] ys acc = refl
  ordered-append (x ∷ xs) ys acc =
      ordered-append xs ys (place (Closest.weight_cmp_cb target_id) x acc)

  pub length-place :
      (new : Peer) (xs : List Peer)
      → length (place (Closest.weight_cmp_cb target_id) new xs) ≡ suc (length xs)
  length-place new [] = refl
  length-place new (x ∷ xs) = elim (ℤ-cases (Closest.weight_cmp_cb target_id x new)) [
    | inl (n, c) ↦ rw (c, place) refl
    | inr (n, c) ↦ rw (c, place) (ap suc (length-place new xs))
  ]

  pub length-ordered : (ps acc : List Peer) → length (ordered ps acc) ≡ length acc + length ps
  length-ordered [] acc = omega arith
  length-ordered (p ∷ ps) acc =
      omega (
        arith,
        length-ordered ps (place (Closest.weight_cmp_cb target_id) p acc),
        length-place p acc,
      )

  insert-Gathered :
      {v : Varray Peer} {acc : List Peer} (p : Peer)
      → Gathered v acc
      → length acc < 31
      → (w : Varray Peer) × (Varray.sorted_add (Closest.weight_cmp_cb target_id) true v (some p)
          ≡ ok (some w))
        × Gathered w (place (Closest.weight_cmp_cb target_id) p acc)
  unfolding Varray.sorted_add Varray.add_tail Varray.reserve Varray.realloc
  insert-Gathered p empty room = (
    record { used = 1; capc = 32; first = 32; items = some (some p ∷ replicate 31 none) },
    refl,
    filled (stored (p ∷ []) (replicate 31 none) 32 (omega arith)) refl,
  )
  insert-Gathered {v} {acc} p (filled h c) room =
      let free : v.used + 1 < v.capc = omega (arith, size-Holds h, c) in
      let (w, run, t) = sorted_add-Holds (Closest.weight_cmp_cb target_id) p h free in
      (
        w,
        run,
        filled t
            (sorted_add-capc (Closest.weight_cmp_cb target_id) v p (omega (arith, free)) run ∙ c),
      )

  -- The loop over a bucket.
  collect_from_lem :
      {peers : Varray Peer} {all : List Peer}
      → Holds peers all
      → (pre xs : List Peer) {v : Varray Peer} {acc : List Peer} → all ≡ pre ++ xs
      → Gathered v acc
      → length acc + length (candidates xs) < 32
      → (w : Varray Peer) × (Closest.collect_from true space target_id peers
            (length xs)
            (length pre)
            v
          ≡ ok w)
        × Gathered w (ordered (candidates xs) acc)
  unfolding Closest.collect_from
  collect_from_lem h pre [] {v} split g room = (v, refl, g)
  collect_from_lem {peers} h pre (x ∷ xs) {v} {acc} split g room =
      let read : Varray.get peers (pos (length pre)) ≡ ok (some x) =
        get_lem (length pre) h
        ∙ ap (λ t. ok (get_elem? t (length pre))) split
        ∙ ap ok (get_elem?-append pre x xs) in
      let shifted : length pre + 1 ≡ length (pre ++ x ∷ []) =
        omega (arith, length-append pre (x ∷ [])) in
      let split_next = split ∙ sym (append_assoc pre (x ∷ []) xs) in
      elim (Bool-cases (Closest.is_candidate space target_id x)) [
        | inl e ↦
            let one = candidates-passed x xs e in
            let fewer : length acc + suc (length (candidates xs)) < 32 =
              omega (arith, room, ap length one) in
            let (u, added, t) = insert-Gathered x g (omega (arith, fewer)) in
            let (w, run, s) =
              collect_from_lem h (pre ++ x ∷ []) xs split_next t
                (omega (arith, fewer, length-place x acc)) in
            (
              w,
              rw (read, ◌>>=◌, Closest.consider, e, added, shifted, run),
              subst (λ cs. Gathered w (ordered cs acc)) (sym one) s,
            )
        | inr e ↦
            let skipped = candidates-refused x xs e in
            let same : length acc + length (candidates xs) < 32 =
              omega (arith, room, ap length skipped) in
            let (w, run, s) = collect_from_lem h (pre ++ x ∷ []) xs split_next g same in
            (
              w,
              rw (read, ◌>>=◌, Closest.consider, e, shifted, run),
              subst (λ cs. Gathered w (ordered cs acc)) (sym skipped) s,
            )
      ]

  -- The loop over the table.
  pub collect_lem :
      {bs : List PeerBucket} {xs : List Peer}
      → Hold bs xs
      → {v : Varray Peer} {acc : List Peer} → Gathered v acc
      → length acc + length (candidates xs) < 32
      → (w : Varray Peer) × (Closest.collect true space target_id bs v ≡ ok w)
        × Gathered w (ordered (candidates xs) acc)
  unfolding Closest.collect
  collect_lem no_bucket {v} g room = (v, refl, g)
  collect_lem (bucket b bs xs ys h rest) {v} {acc} g room =
      let size : length (candidates (xs ++ ys)) ≡ length (candidates xs) + length (candidates ys) =
        ap length (candidates-append xs ys) ∙ length-append (candidates xs) (candidates ys) in
      let (u, run, t) = collect_from_lem h [] xs refl g (omega (arith, room, size)) in
      let (w, more, s) =
        collect_lem rest t (omega (arith, room, size, length-ordered (candidates xs) acc)) in
      let here : Closest.collect_from true space target_id b.peers b.peers.used 0 v ≡ ok u =
        ap (λ n. Closest.collect_from true space target_id b.peers n 0 v) (size-Holds h) ∙ run in
      let list =
        ap (λ cs. ordered cs acc) (candidates-append xs ys)
        ∙ ordered-append (candidates xs) (candidates ys) acc in
      (
        w,
        ap (λ r. r >>= λ m. Closest.collect true space target_id bs m) here ∙ more,
        subst (Gathered w) (sym list) s,
      )
