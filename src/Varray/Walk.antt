-- ===== src/Varray/Walk.antt =====
-- Visiting the items: the callback loop, and emptying the array.
use vdht.Base.{
  ℕ, zero, suc, ◌+◌, ◌<◌, ◌≡◌, refl, ap, sym, Bool, true, false, Option, some, List, [], ◌∷◌, ◌++◌,
  map, length, length-append, append_assoc, ok, arith, inl, inr, Bool-cases, ltb-false, lt→ltb,
  snoc-cases, Run, fault, ◌>>=◌, ◌∙◌,
}
use vdht.Varray
use vdht.Varray.{Varray}
use vdht.Varray.Ends.{pop_tail-Holds}
use vdht.Varray.Holds.{Holds, fresh, stored, hold, size-Holds, load-append, store-append}

module _ {ℓ κ} {A : Type ℓ} {S : Type κ} (cb : A → S → A × S × Bool) where
  -- The loop on a list: items changed in place and the cookie, up to the first stop.
  abbrev pub walk : List A → S → List A × S
  walk [] s = ([], s)
  walk (x ∷ xs) s =
      let (x', s', stop) = cb x s in
      let rest = walk xs s' in elim stop [ true ↦ (x' ∷ xs, s') | false ↦ (x' ∷ rest.0, rest.1) ]

  pub length-walk : (xs : List A) (s : S) → length (walk xs s).0 ≡ length xs
  length-walk [] s = refl
  length-walk (x ∷ xs) s = elim (Bool-cases (cb x s).2) [
    | inl e ↦ rw (e, walk)
    | inr e ↦ rw (e, walk) (ap suc (length-walk xs (cb x s).1))
  ]

  iterate_from-walk :
      (front : List (Option A)) (xs : List A) (junk : List (Option A)) (i : ℕ) (s : S)
      → i ≡ length front
      → Varray.iterate_from cb (length xs) i (front ++ (map some xs ++ junk)) s
        ≡ ok (front ++ (map some (walk xs s).0 ++ junk), (walk xs s).1)
  unfolding Varray.iterate_from
  iterate_from-walk front [] junk i s e = refl
  iterate_from-walk front (x ∷ xs) junk i s e =
      let (x', s', stop) = cb x s in
      let rest = map some xs ++ junk in
      let longer : i + 1 ≡ length (front ++ some x' ∷ []) =
        omega (arith, length-append front (some x' ∷ [])) in
      let next = iterate_from-walk (front ++ some x' ∷ []) xs junk (i + 1) s' longer in
      rw (load-append front (some x) rest i e, store-append front (some x) (some x') rest i e)
        (elim (Bool-cases (cb x s).2) [
          | inl stop ↦ rw (stop, walk)
          | inr more ↦
              rw (more, walk)
                (rw
                  (
                    append_assoc front (some x' ∷ []) rest,
                    append_assoc front (some x' ∷ []) (map some (walk xs s').0 ++ junk),
                  )
                  at next)
        ])

  -- On an array that holds a list, varray_iterate gives the callback each item in order until it
  -- asks to stop; the cookie is the one that the walk of the list gives, and the array holds the
  -- items as the callback has changed them.
  pub iterate-Holds :
      {v : Varray A} {xs : List A} (s : S)
      → Holds v xs
      → (w : Varray A) × (Varray.iterate cb v s ≡ ok (w, (walk xs s).1)) × Holds w (walk xs s).0
  unfolding Varray.iterate
  iterate-Holds s (fresh first p) = (_, refl, fresh first p)
  iterate-Holds s (stored xs junk first p) = (
    record {
      used = length xs;
      capc = length xs + length junk;
      first = first;
      items = some (map some (walk xs s).0 ++ junk);
    },
    rw (iterate_from-walk [] xs junk 0 s refl),
    hold _ (walk xs s).0 junk p (sym (length-walk xs s)) (omega (arith, length-walk xs s)) refl,
  )

module _ {ℓ κ} {A : Type ℓ} {S : Type κ} (zero_cb : Option A → S → Run S) where
  abbrev pub visit_back : List A → S → Run S
  visit_back [] s = ok s
  visit_back (x ∷ xs) s = visit_back xs s >>= λ t. zero_cb (some x) t

  bind_assoc : (m : Run S) (f g : S → Run S) → (m >>= λ x. f x >>= g) ≡ ((m >>= f) >>= g)
  bind_assoc (ok x) f g = refl
  bind_assoc fault f g = refl

  bind_ok : (m : Run S) → (m >>= λ x. ok x) ≡ m
  bind_ok (ok x) = refl
  bind_ok fault = refl

  visit_back-append :
      (xs : List A) (x : A) (s : S)
      → visit_back (xs ++ x ∷ []) s ≡ (zero_cb (some x) s >>= λ t. visit_back xs t)
  visit_back-append [] x s = sym (bind_ok (zero_cb (some x) s))
  visit_back-append (y ∷ xs) x s =
      ap (λ m. m >>= λ t. zero_cb (some y) t) (visit_back-append xs x s)
      ∙ sym (bind_assoc (zero_cb (some x) s) (visit_back xs) (zero_cb (some y)))

  -- A chain that succeeds has succeeded first.
  first_ok :
      (m : Run S) (f : S → Run S) (t : S) → (m >>= f) ≡ ok t → (u : S) × (m ≡ ok u) × (f u ≡ ok t)
  first_ok (ok u) f t e = (u, refl, e)
  first_ok fault f t e = absurd (fault-not_ok e)
    where
      fault-not_ok : fault ≡ ok t → ⊥
      fault-not_ok h = cc h

  -- On an array that holds a list, with memory to shrink and one more round of fuel than items,
  -- varray_zero ends with an empty array and has given the callback each item once, the last one
  -- first, where the callback succeeds on them.
  pub drain-Holds :
      (fuel : ℕ) {v : Varray A} (xs : List A) (s t : S)
      → length xs < fuel
      → visit_back xs s ≡ ok t
      → Holds v xs
      → (w : Varray A) × (Varray.drain zero_cb true fuel v s ≡ ok (some (w, t))) × Holds w []
  unfolding Varray.drain
  drain-Holds zero xs s t h e v = absurd (omega arith)
  drain-Holds (suc fuel) {v} xs s t h visited held = elim (snoc-cases xs) [
    | inl e ↦
        let same : ok s ≡ ok t = ap (λ l. visit_back l s) (sym e) ∙ visited in
        (
          v,
          rw (ltb-false 0 v.used (omega (arith, size-Holds held, ap length e)), Varray.drain)
              (ap (λ m. m >>= λ x. ok (some (v, x))) same),
          rw e at held,
        )
    | inr (ys, y, e) ↦
        let (w, run, rest) = pop_tail-Holds ys y (rw e at held) in
        let shorter : length xs ≡ suc (length ys) =
          omega (arith, ap length e, length-append ys (y ∷ [])) in
        let (u, freed, left) =
          first_ok (zero_cb (some y) s) (visit_back ys) t
            (sym (visit_back-append ys y s) ∙ ap (λ l. visit_back l s) (sym e) ∙ visited) in
        let (z, more, done) = drain-Holds fuel ys u t (omega arith) left rest in
        (
          z,
          rw (
            lt→ltb 0 v.used (omega (arith, size-Holds held, shorter)),
            Varray.drain,
            run,
            ◌>>=◌,
            freed,
            more,
          ),
          done,
        )
  ]
