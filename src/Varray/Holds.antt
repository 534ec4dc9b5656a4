-- ===== src/Varray/Holds.antt =====
-- What an array holds, and the laws of its operations on that view.
use vdht.Base.{
  ℕ, suc, ◌+◌, ◌-◌, ◌*◌, ◌<◌, ◌≡◌, refl, ap, sym, ◌==◌, ltb, true, false, Option, none, some, List,
  [], ◌∷◌, ◌++◌, map, length, set, replicate, length-append, length-map, append_assoc,
  length-replicate, ok, arith, inl, inr, Bool-cases, lt→ltb, leb-false, le→leb, ltb-false, take_all,
}
use mathlib.Core.Path.{subst}
use vdht.Varray
use vdht.Varray.{Varray}

-- The first `used` slots are the items, in order; the block has `capc` slots.
pub data Holds {ℓ} {A : Type ℓ} : Varray A → List A → Type ℓ where
  fresh :
      (first : ℕ)
      → 0 < first
      → Holds (record { used = 0; capc = 0; first = first; items = none }) []
  stored :
      (xs : List A) (junk : List (Option A)) (first : ℕ)
      → 0 < first
      → Holds
          (record {
            used = length xs;
            capc = length xs + length junk;
            first = first;
            items = some (map some xs ++ junk);
          })
          xs

-- The same with at least one slot free.
pub data Roomy {ℓ} {A : Type ℓ} : Varray A → List A → Type ℓ where
  roomy :
      (xs : List A) (s : Option A) (junk : List (Option A)) (first : ℕ)
      → 0 < first
      → Roomy
          (record {
            used = length xs;
            capc = length xs + suc (length junk);
            first = first;
            items = some (map some xs ++ s ∷ junk);
          })
          xs

module _ {ℓ} {A : Type ℓ} where
  pub init-Holds : (first_capc : ℕ) → Holds {A = A} (Varray.init first_capc) []
  unfolding Varray.init
  init-Holds first_capc = elim (Bool-cases (first_capc == 0)) [
    | inl e ↦ rw e (fresh 32 (omega arith))
    | inr e ↦ rw e (fresh first_capc (ground arith))
  ]

  pub size-Holds : {v : Varray A} {xs : List A} → Holds v xs → v.used ≡ length xs
  size-Holds (fresh first p) = refl
  size-Holds (stored xs junk first p) = refl

  pub Roomy-Holds : {v : Varray A} {xs : List A} → Roomy v xs → Holds v xs
  Roomy-Holds (roomy xs s junk first p) = stored xs (s ∷ junk) first p

  -- One access at the end of a known front part.
  pub load-append :
      (front : List (Option A)) (s : Option A) (back : List (Option A)) (i : ℕ)
      → i ≡ length front
      → Varray.load (front ++ s ∷ back) i ≡ ok s
  unfolding Varray.load
  load-append [] s back i e = rw e
  load-append (f ∷ front) s back i e = rw e (load-append front s back (length front) refl)

  set-append :
      (front : List (Option A)) (s t : Option A) (back : List (Option A))
      → set (front ++ s ∷ back) (length front) t ≡ front ++ t ∷ back
  set-append [] s t back = refl
  set-append (f ∷ front) s t back = ap (λ r. f ∷ r) (set-append front s t back)

  pub store-append :
      (front : List (Option A)) (s t : Option A) (back : List (Option A)) (i : ℕ)
      → i ≡ length front
      → Varray.store (front ++ s ∷ back) i t ≡ ok (front ++ t ∷ back)
  unfolding Varray.store
  store-append front s t back i e =
      let inside : ltb (length front) (length (front ++ s ∷ back)) ≡ true =
        lt→ltb _ _ (omega (arith, length-append front (s ∷ back))) in
      rw (e, inside, set-append front s t back)

  pub hold :
      (v : Varray A) (xs : List A) (junk : List (Option A))
      → 0 < v.first
      → v.used ≡ length xs
      → v.capc ≡ length xs + length junk
      → v.items ≡ some (map some xs ++ junk)
      → Holds v xs
  hold v xs junk p used capc items =
      subst (λ w. Holds w xs)
        (λ i. record { used = sym used i; capc = sym capc i; first = v.first; items = sym items i })
        (stored xs junk v.first p)

  pub Roomy-of_lt : {v : Varray A} {xs : List A} → Holds v xs → v.used < v.capc → Roomy v xs
  Roomy-of_lt (fresh first p) h = absurd (omega arith)
  Roomy-of_lt (stored xs [] first p) h = absurd (omega arith)
  Roomy-of_lt (stored xs (s ∷ junk) first p) h = roomy xs s junk first p

  -- A block that is made larger keeps the items.
  grown :
      (xs : List A) (junk : List (Option A)) (n first : ℕ)
      → 0 < first
      → length xs + length junk < n
      → Roomy
          (record {
            used = length xs;
            capc = n;
            first = first;
            items = some (Varray.realloc (some (map some xs ++ junk)) n);
          })
          xs
  unfolding Varray.realloc
  grown xs junk n first p h =
      let old = map some xs ++ junk in
      let size : length old ≡ length xs + length junk =
        omega (arith, length-append (map some xs) junk, length-map {B = Option A} some xs) in
      let tail = replicate (n - length old) none in
      Roomy-of_lt
        (hold _ xs (junk ++ tail) p refl
          (omega
            (arith, length-append junk tail, length-replicate {A = Option A} (n - length old) none))
          (ap some (rw (take_all n old (omega arith)) (append_assoc (map some xs) junk tail))))
        (omega arith)

  -- The first block.
  started :
      (n first : ℕ)
      → 0 < first
      → 0 < n
      → Roomy {A = A}
          (record { used = 0; capc = n; first = first; items = some (Varray.realloc none n) })
          []
  unfolding Varray.realloc
  started n first p h =
      Roomy-of_lt
        (hold _ [] (replicate n none) p refl (omega (arith, length-replicate {A = Option A} n none))
          refl)
        (omega arith)

  full_extends :
      (xs : List A) (first : ℕ)
      → 0 < length xs
      → Varray.reserve true (record {
        used = length xs;
        capc = length xs + 0;
        first = first;
        items = some (map some xs ++ []);
      })
        ≡ ok (
            some (record {
              used = length xs;
              capc = (length xs + 0) * 2;
              first = first;
              items = some (Varray.realloc (some (map some xs ++ [])) ((length xs + 0) * 2));
            }))
  unfolding Varray.reserve
  full_extends xs first h =
      let zero_free : ((length xs + 0) == 0) ≡ false = ground arith in
      rw (
        le→leb (length xs + 0) (length xs) (omega arith),
        ltb-false (length xs) (length xs + 0) (omega arith),
        zero_free,
      )

  -- Before an insertion there is a free slot, or `realloc` has failed and nothing has changed.
  pub reserve-Roomy :
      {v : Varray A} {xs : List A}
      → Holds v xs
      → (w : Varray A) × (Varray.reserve true v ≡ ok (some w)) × Roomy w xs
  unfolding Varray.reserve
  reserve-Roomy (fresh first p) = (_, refl, started first first p p)
  reserve-Roomy (stored [] [] first p) = (_, refl, grown [] [] first first p p)
  reserve-Roomy (stored (x ∷ xs) [] first p) = (
    _,
    full_extends (x ∷ xs) first (omega arith),
    grown (x ∷ xs) [] ((length (x ∷ xs) + 0) * 2) first p (omega arith),
  )
  reserve-Roomy (stored xs (s ∷ junk) first p) = (
    _,
    rw (leb-false (length xs + suc (length junk)) (length xs) (omega arith)),
    roomy xs s junk first p,
  )
