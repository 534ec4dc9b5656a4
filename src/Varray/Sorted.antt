-- ===== src/Varray/Sorted.antt =====
-- The sorted array: where `vsorted_array_add` puts an item.
use vdht.Base.{
  IsSorted, ℕ, ◌+◌, ◌<◌, ◌≡◌, refl, ap, sym, ◌∙◌, ltb, ℤ, pos, negsuc, true, false, some, List, [],
  ◌∷◌, ◌++◌, length, get_elem?-append, ℤ-cases, All, length-append, append_assoc, append-nil, ok,
  arith, inl, inr, ltb-false, lt→ltb,
}
use vdht.Varray
use vdht.Varray.{Varray}
use vdht.Varray.Ends.{add_tail-Holds, get_lem}
use vdht.Varray.Holds.{Holds, size-Holds}
use vdht.Varray.Middle.{add-Holds}

module _ {ℓ} {A : Type ℓ} (cmp_cb : A → A → ℤ) where
  -- The sorted insertion on lists.
  abbrev pub place : A → List A → List A
  place new [] = new ∷ []
  place new (x ∷ xs) = elim (cmp_cb x new) [ pos _ ↦ new ∷ x ∷ xs | negsuc _ ↦ x ∷ place new xs ]

  -- Where the search stops: at an item, or behind the last one.
  abbrev Stops : A → List A → List A → List A → Type ℓ
  Stops new pre post xs = (xs ≡ pre ++ post) × (place new xs ≡ pre ++ new ∷ post)

  find_place_lem :
      (new : A) {v : Varray A} {all : List A}
      → Holds v all
      → (pre xs : List A) → all ≡ pre ++ xs
      → (before after : List A) × (Varray.find_place cmp_cb new v (length xs) (length pre)
          ≡ ok (length (pre ++ before)))
        × Stops new before after xs
  unfolding Varray.find_place
  find_place_lem new held pre [] e = ([], [], rw append-nil, (refl, refl))
  find_place_lem new {v} held pre (x ∷ xs) e =
      let item : Varray.get v (pos (length pre)) ≡ ok (some x) =
        get_lem (length pre) held ∙ ap ok (rw e (get_elem?-append pre x xs)) in
      elim (ℤ-cases (cmp_cb x new)) [
        | inl (n, c) ↦ ([], x ∷ xs, rw (item, c, append-nil), (refl, rw (c, place)))
        | inr (n, c) ↦
            let (before, after, run, stops) =
              find_place_lem new held (pre ++ x ∷ []) xs (e ∙ sym (append_assoc pre (x ∷ []) xs)) in
            let next : length (pre ++ x ∷ []) ≡ length pre + 1 =
              omega (arith, length-append pre (x ∷ [])) in
            (
              x ∷ before,
              after,
              rw (item, c) (rw (next, append_assoc pre (x ∷ []) before) at run),
              (ap (λ t. x ∷ t) stops.0, rw (c, place) (ap (λ t. x ∷ t) stops.1)),
            )
      ]

  -- On an array that holds a list and has two slots free, with memory to grow, vsorted_array_add
  -- succeeds, and the array holds the list with the new item before the first item that the
  -- comparison does not place before it, or at the end.
  pub sorted_add-Holds :
      {v : Varray A} {xs : List A} (new : A)
      → Holds v xs
      → v.used + 1 < v.capc
      → (w : Varray A) × (Varray.sorted_add cmp_cb true v (some new) ≡ ok (some w))
        × Holds w (place new xs)
  unfolding Varray.sorted_add
  sorted_add-Holds {v} {xs} new h room =
      let (before, after, run, stops) = find_place_lem new h [] xs refl in
      let start : Varray.find_place cmp_cb new v v.used 0 ≡ ok (length before) =
        ap (λ n. Varray.find_place cmp_cb new v n 0) (size-Holds h) ∙ run in
      insert before after start stops.0 stops.1
    where
      insert :
          (before after : List A)
          → Varray.find_place cmp_cb new v v.used 0 ≡ ok (length before)
          → xs ≡ before ++ after
          → place new xs ≡ before ++ new ∷ after
          → (w : Varray A) × (Varray.sorted_add cmp_cb true v (some new) ≡ ok (some w))
            × Holds w (place new xs)
      insert before [] start split result =
          let (w, e, t) = add_tail-Holds new h in
          let behind : ltb (length before) v.used ≡ false =
            ltb-false _ _ (omega (arith, size-Holds h, ap length split, length-append before [])) in
          (
            w,
            rw (start, behind) e,
            rw (result ∙ ap (λ t. t ++ new ∷ []) (sym (split ∙ append-nil before))) t,
          )
      insert before (y ∷ after) start split result =
          let (w, e, t) = add-Holds true before after y new (rw split at h) room in
          let inside : ltb (length before) v.used ≡ true =
            lt→ltb _ _
              (omega (arith, size-Holds h, ap length split, length-append before (y ∷ after))) in
          (w, rw (start, inside) e, rw result t)

module _ {ℓ κ} {A : Type ℓ} (cmp_cb : A → A → ℤ) (Before : A → A → Type κ)
    (trans : (x y z : A) → Before x y → Before y z → Before x z)
    (before : (x y : A) (n : ℕ) → cmp_cb x y ≡ negsuc n → Before x y)
    (behind : (x y : A) (n : ℕ) → cmp_cb x y ≡ pos n → Before y x) where
  All-place :
      (x new : A) (xs : List A)
      → Before x new
      → All (Before x) xs
      → All (Before x) (place cmp_cb new xs)
  All-place x new [] h a = (h, tt)
  All-place x new (y ∷ xs) h a = elim (ℤ-cases (cmp_cb y new)) [
    | inl (n, c) ↦ rw (c, place) (h, a)
    | inr (n, c) ↦ rw (c, place) (a.0, All-place x new xs h a.1)
  ]

  All-Before : (x y : A) (xs : List A) → Before x y → All (Before y) xs → All (Before x) xs
  All-Before x y [] h a = tt
  All-Before x y (z ∷ xs) h a = (trans x y z h a.0, All-Before x y xs h a.1)

  -- An insertion keeps the order that the comparison stands for.
  pub place-IsSorted :
      (new : A) (xs : List A) → IsSorted Before xs → IsSorted Before (place cmp_cb new xs)
  place-IsSorted new [] s = (tt, tt)
  place-IsSorted new (x ∷ xs) s = elim (ℤ-cases (cmp_cb x new)) [
    | inl (n, c) ↦
        let first = behind x new n c in rw (c, place) ((first, All-Before new x xs first s.0), s)
    | inr (n, c) ↦
        rw (c, place) (All-place x new xs (before x new n c) s.0, place-IsSorted new xs s.1)
  ]
