-- ===== src/Varray/Ends.antt =====
-- Reading, and adding and removing at the tail.
use vdht.Base.{
  ◌⊎◌, get_elem?-none, ℕ, zero, suc, ◌+◌, ◌-◌, ◌*◌, ◌/◌, ◌<◌, ◌≤◌, ◌≡◌, ◌≢◌, refl, ap, sym, ◌==◌,
  ltb, leb, pos, true, false, Option, none, some, List, [], ◌∷◌, ◌++◌, map, length, get_elem?,
  replicate, length-append, length-map, append_assoc, length-replicate, ok, arith, inl, inr,
  Bool-cases, map-append, leb-false, ltb-false, take-append, ◌&&◌, leb→le,
}
use vdht.Varray
use vdht.Varray.{Varray}
use vdht.Varray.Holds.{
  Holds, fresh, stored, Roomy, roomy, hold, load-append, store-append, reserve-Roomy,
}

module _ {ℓ} {A : Type ℓ} where
  pub load-map :
      (xs : List A) (junk : List (Option A)) (i : ℕ)
      → i < length xs
      → Varray.load (map some xs ++ junk) i ≡ ok (get_elem? xs i)
  unfolding Varray.load
  load-map [] junk i h = absurd (omega arith)
  load-map (x ∷ xs) junk zero h = refl
  load-map (x ∷ xs) junk (suc i) h = load-map xs junk i (omega arith)

  -- On an array that holds a list, varray_get reads the item at every index of the list, and gives
  -- NULL at every index behind it.
  pub get_lem :
      {v : Varray A} {xs : List A} (i : ℕ) → Holds v xs → Varray.get v (pos i) ≡ ok (get_elem? xs i)
  unfolding Varray.get
  get_lem i (fresh first p) = refl
  get_lem i (stored xs junk first p) = elim (Bool-cases (leb (length xs) i)) [
    | inl e ↦ rw (e, get_elem?-none xs i (leb→le _ _ e))
    | inr e ↦ rw (e, load-map xs junk i (ground arith))
  ]

  tail_reserved-Roomy :
      {v : Varray A} {xs : List A} (x : A)
      → Roomy v xs
      → (w : Varray A) × (Varray.tail_reserved (some v) (some x) ≡ ok (some w))
        × Holds w (xs ++ x ∷ [])
  unfolding Varray.tail_reserved
  tail_reserved-Roomy x (roomy xs s junk first p) = (
    record {
      used = length xs + 1;
      capc = length xs + suc (length junk);
      first = first;
      items = some (map some xs ++ some x ∷ junk);
    },
    rw (store-append (map some xs) s (some x) junk (length xs) (sym (length-map some xs))),
    hold _ (xs ++ x ∷ []) junk p (omega (arith, length-append xs (x ∷ [])))
        (omega (arith, length-append xs (x ∷ [])))
        (ap some (rw map-append (sym (append_assoc (map some xs) (some x ∷ []) junk)))),
  )

  -- On an array that holds a list, with memory to grow, varray_add_tail of an item succeeds, and
  -- the array holds the list with the item at its end.
  pub add_tail-Holds :
      {v : Varray A} {xs : List A} (x : A)
      → Holds v xs
      → (w : Varray A) × (Varray.add_tail true v (some x) ≡ ok (some w)) × Holds w (xs ++ x ∷ [])
  unfolding Varray.add_tail
  add_tail-Holds x h =
      let (v, e, r) = reserve-Roomy h in let (w, f, t) = tail_reserved-Roomy x r in (w, rw e f, t)

  shrunk :
      (xs : List A) (junk : List (Option A)) (n first : ℕ)
      → 0 < first
      → length xs ≤ n
      → n ≤ length xs + length junk
      → Holds
          (record {
            used = length xs;
            capc = n;
            first = first;
            items = some (Varray.realloc (some (map some xs ++ junk)) n);
          })
          xs
  unfolding Varray.realloc
  shrunk xs junk n first p h k =
      let old = map some xs ++ junk in
      let items = length-map {B = Option A} some xs in
      let (zs, e, l) = take-append n (map some xs) junk (omega arith) in
      let tail = replicate (n - length old) none in
      hold _ xs (zs ++ tail) p refl
        (omega (
          arith,
          length-append zs tail,
          length-append (map some xs) junk,
          length-replicate {A = Option A} (n - length old) none,
        ))
        (ap some (rw e (append_assoc (map some xs) zs tail)))

  -- What the guarded call of `_aux_shrink` may do to the capacity.
  abbrev pub Released : Varray A → Varray A → Type 0
  Released v w =
      (w.first ≡ v.first)
      × ((w.capc ≡ v.capc) ⊎ ((w.capc ≡ v.capc / 2) × (v.used * 2 < v.capc) × (v.capc ≢ v.first)))

  release_stored :
      (xs : List A) (junk : List (Option A)) (v : Varray A)
      → 0 < v.first
      → v.used ≡ length xs
      → v.capc ≡ length xs + length junk
      → v.items ≡ some (map some xs ++ junk)
      → (w : Varray A) × (Varray.release true v ≡ ok (some w)) × Holds w xs × Released v w
  unfolding Varray.release
  release_stored xs junk v p used capc items =
      let kept = hold v xs junk p used capc items in
      elim (Bool-cases (leb v.first v.capc && ltb (v.used * 2) v.capc)) [
        | inr e ↦ (v, rw e, kept, (refl, inl refl))
        | inl e ↦
            let apart : (v.capc == v.first) ≡ false → v.capc ≢ v.first = λ f. ground arith in
            let half : v.used * 2 < v.capc = ground arith in
            let fits : ltb v.capc (v.used * 2) ≡ false = ltb-false _ _ (omega arith) in
            elim (Bool-cases (v.capc == v.first)) [
              | inl f ↦ (v, rw (e, items, fits, f), kept, (refl, inl refl))
              | inr f ↦ (
                record v {
                  capc = v.capc / 2;
                  items = some (Varray.realloc (some (map some xs ++ junk)) (v.capc / 2));
                },
                rw (e, items, fits, f),
                rw used (shrunk xs junk (v.capc / 2) v.first p (omega arith) (omega arith)),
                (refl, inr (refl, half, apart f)),
              )
            ]
      ]

  -- Shrinking keeps every item.
  pub release-Holds :
      {v : Varray A} {xs : List A}
      → Holds v xs
      → (w : Varray A) × (Varray.release true v ≡ ok (some w)) × Holds w xs × Released v w
  unfolding Varray.release
  release-Holds (fresh first p) = (_, rw (leb-false first 0 p), fresh first p, (refl, inl refl))
  release-Holds (stored xs junk first p) = release_stored xs junk _ p refl refl refl

  pop_stored :
      (ys : List A) (x : A) (v : Varray A) {w : Varray A} {xs : List A}
      → Holds w xs
      → xs ≡ ys ++ x ∷ []
      → (u : Varray A) × (Varray.pop_released v (some w) ≡ ok (some x, u)) × Holds u ys
  unfolding Varray.pop_released
  pop_stored ys x v (fresh first p) e =
      absurd (omega (arith, ap length e, length-append ys (x ∷ [])))
  pop_stored ys x v (stored xs junk first p) e =
      let count : length xs ≡ suc (length ys) =
        omega (arith, ap length e, length-append ys (x ∷ [])) in
      let block : map some xs ++ junk ≡ map some ys ++ some x ∷ junk =
        rw (e, map-append) (append_assoc (map some ys) (some x ∷ []) junk) in
      let at : length ys ≡ length (map {B = Option A} some ys) = sym (length-map some ys) in
      (
        record {
          used = length ys;
          capc = suc (length ys) + length junk;
          first = first;
          items = some (map some ys ++ none ∷ junk);
        },
        rw (
          block,
          count,
          load-append (map some ys) (some x) junk (length ys) at,
          store-append (map some ys) (some x) none junk (length ys) at,
        ),
        hold _ ys (none ∷ junk) p refl (omega arith) refl,
      )

  -- On an array that holds a list with a last item, with memory to shrink, varray_pop_tail returns
  -- that item, and the array holds the rest of the list.
  pub pop_tail-Holds :
      {v : Varray A} (ys : List A) (x : A)
      → Holds v (ys ++ x ∷ [])
      → (w : Varray A) × (Varray.pop_tail true v ≡ ok (some x, w)) × Holds w ys
  unfolding Varray.pop_tail
  pop_tail-Holds {v} ys x h =
      let (w, e, r, _) = release-Holds h in
      let (u, f, t) = pop_stored ys x v r refl in (u, rw e f, t)
