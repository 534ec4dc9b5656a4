-- ===== src/Varray/Middle.antt =====
-- Insertion and removal at an index, and when they leave the block.
use vdht.Base.{
  ℕ, zero, suc, ◌+◌, ◌-◌, ◌*◌, ◌%◌, ◌<◌, ◌≤◌, ◌≡◌, refl, ap, sym, ◌∙◌, ltb, leb, pos, Bool, true,
  false, Option, none, some, List, [], ◌∷◌, ◌++◌, map, length, get_elem?, set, length-append,
  length-map, length-set, append_assoc, ok, fault, arith, inl, inr, Bool-cases, Option-cases,
  map-append, leb-false, ltb-false, get_elem?-none, snoc-cases,
}
use vdht.Varray
use vdht.Varray.{Varray}
use vdht.Varray.Ends.{release-Holds, Released}
use vdht.Varray.Holds.{
  Holds, fresh, stored, Roomy, roomy, hold, load-append, store-append, Roomy-of_lt, size-Holds,
}

module _ {ℓ} {A : Type ℓ} where
  -- One round of the upward loop: the slot at `idx + n` is copied to the next one.
  shift_up_round :
      (n idx : ℕ) (front mid : List (Option A)) (s t : Option A) (back : List (Option A))
      → idx ≡ length front
      → length mid ≡ n
      → Varray.shift_up idx (suc n) (front ++ (mid ++ s ∷ t ∷ back))
        ≡ Varray.shift_up idx n (front ++ (mid ++ s ∷ s ∷ back))
  unfolding Varray.shift_up
  shift_up_round n idx front mid s t back e size =
      let low = front ++ mid in
      let high = low ++ s ∷ [] in
      let split : (r : Option A) → high ++ r ∷ back ≡ front ++ (mid ++ s ∷ r ∷ back) =
        λ r. append_assoc low (s ∷ []) (r ∷ back) ∙ append_assoc front mid (s ∷ r ∷ back) in
      let at : idx + n ≡ length low = omega (arith, length-append front mid) in
      let next : idx + n + 1 ≡ length high = omega (arith, length-append low (s ∷ []), at) in
      rw (
        rw (append_assoc front mid (s ∷ t ∷ back)) at (load-append low s (t ∷ back) (idx + n) at),
        rw (split t, split s) at (store-append high t s back (idx + n + 1) next),
      )

  -- The upward loop duplicates the slot at `idx` and keeps all that follows it.
  shift_up_lem :
      (n idx : ℕ) (front mid : List (Option A)) (s t : Option A) (back : List (Option A))
      → idx ≡ length front
      → length mid ≡ n
      → (h : Option A) × (Varray.shift_up idx (suc n) (front ++ (mid ++ s ∷ t ∷ back))
          ≡ ok (front ++ h ∷ (mid ++ s ∷ back)))
  shift_up_lem zero idx front (m ∷ mid) s t back e size = absurd (omega arith)
  shift_up_lem zero idx front [] s t back e size =
      (s, shift_up_round zero idx front [] s t back e size ∙ unfold Varray.shift_up in refl)
  shift_up_lem (suc n) idx front mid s t back e size = elim (snoc-cases mid) [
    | inl f ↦ absurd (omega (arith, ap length f))
    | inr (pre, m, f) ↦
        let short : length pre ≡ n = omega (arith, ap length f, length-append pre (m ∷ [])) in
        let (h, run) = shift_up_lem n idx front pre m s (s ∷ back) e short in
        let joined : (r : List (Option A)) → mid ++ r ≡ pre ++ m ∷ r =
          λ r. rw f (append_assoc pre (m ∷ []) r) in
        (
          h,
          rw
              (
                shift_up_round (suc n) idx front mid s t back e size,
                joined (s ∷ s ∷ back),
                joined (s ∷ back),
              )
              run,
        )
  ]

  shift_up_fault :
      (n idx : ℕ) (buf : List (Option A))
      → length buf ≤ idx + n + 1
      → Varray.shift_up idx (suc n) buf ≡ fault
  unfolding Varray.shift_up Varray.load Varray.store
  shift_up_fault n idx buf h =
      let outside : ltb (idx + n + 1) (length buf) ≡ false = ltb-false _ _ h in
      elim (Option-cases (get_elem? buf (idx + n))) [
        | inl e ↦ rw (e, Varray.load)
        | inr (s, e) ↦ rw (e, Varray.load, outside)
      ]

  shift_down_lem :
      (i : ℕ) (front : List (Option A)) (d : Option A) (mid back : List (Option A))
      → i ≡ length front
      → (l : Option A) × (Varray.shift_down i (length mid) (front ++ d ∷ (mid ++ back))
          ≡ ok (front ++ (mid ++ l ∷ back)))
  unfolding Varray.shift_down
  shift_down_lem i front d [] back e = (d, refl)
  shift_down_lem i front d (m ∷ mid) back e =
      let next : i + 1 ≡ length (front ++ m ∷ []) = omega (arith, length-append front (m ∷ [])) in
      let ahead : i + 1 ≡ length (front ++ d ∷ []) = omega (arith, length-append front (d ∷ [])) in
      let read = load-append (front ++ d ∷ []) m (mid ++ back) (i + 1) ahead in
      let (l, run) = shift_down_lem (i + 1) (front ++ m ∷ []) m mid back next in
      (
        l,
        rw
            (
              rw (append_assoc front (d ∷ []) (m ∷ (mid ++ back))) at read,
              store-append front d m (m ∷ (mid ++ back)) i e,
            )
            (rw
              (
                append_assoc front (m ∷ []) (m ∷ (mid ++ back)),
                append_assoc front (m ∷ []) (mid ++ l ∷ back),
              )
              at run),
      )

  shift_down_fault :
      (n i : ℕ) (buf : List (Option A))
      → length buf ≤ i + suc n
      → Varray.shift_down i (suc n) buf ≡ fault
  unfolding Varray.shift_down Varray.load Varray.store
  shift_down_fault zero i buf h = rw (get_elem?-none buf (i + 1) (omega arith), Varray.load)
  shift_down_fault (suc n) i buf h = elim (Bool-cases (ltb i (length buf))) [
    | inr e ↦ rw (get_elem?-none buf (i + 1) (ground arith), Varray.load)
    | inl e ↦ elim (Option-cases (get_elem? buf (i + 1))) [
      | inl f ↦ rw (f, Varray.load)
      | inr (s, f) ↦
          rw (f, Varray.load, e)
            (shift_down_fault n (i + 1) (set buf i s) (omega (arith, length-set buf i s)))
    ]
  ]

  del_from-Roomy :
      (pre post : List A) (x : A) {w : Varray A} {xs : List A}
      → Roomy w xs
      → xs ≡ pre ++ x ∷ post
      → (u : Varray A) × (Varray.del_from w w.items (length pre) ≡ ok (some x, u))
        × Holds u (pre ++ post)
        × (u.first ≡ w.first)
        × (u.capc ≡ w.capc)
  unfolding Varray.del_from
  del_from-Roomy pre post x (roomy xs s junk first p) e =
      let front = map some pre in
      let mid = map some post ++ s ∷ [] in
      let total : length xs ≡ length pre + suc (length post) =
        ap length e ∙ length-append pre (x ∷ post) in
      let moved : length xs - length pre ≡ length mid =
        omega
          (arith, length-append (map some post) (s ∷ []), length-map {B = Option A} some post) in
      let here : length pre ≡ length front = sym (length-map some pre) in
      let block : map some xs ++ s ∷ junk ≡ front ++ some x ∷ (mid ++ junk) =
        rw (e, map-append, append_assoc (map some post) (s ∷ []) junk)
          (append_assoc front (some x ∷ map some post) (s ∷ junk)) in
      let last : length xs ≡ length (front ++ mid) = omega (arith, length-append front mid) in
      let (l, run) = shift_down_lem (length pre) front (some x) mid junk here in
      let done =
        rw (append_assoc front mid (l ∷ junk), append_assoc front mid (none ∷ junk)) at
          (store-append (front ++ mid) l none junk (length xs) last) in
      let result : Varray A = record {
        used = length xs - 1;
        capc = length xs + suc (length junk);
        first = first;
        items = some (front ++ (mid ++ none ∷ junk));
      } in
      (
        result,
        rw (block, load-append front (some x) (mid ++ junk) (length pre) here, moved, run, done),
        hold result (pre ++ post) (s ∷ none ∷ junk) p (omega (arith, length-append pre post))
            (omega (arith, length-append pre post))
            (ap some (
              rw (map-append, append_assoc (map some post) (s ∷ []) (none ∷ junk))
                (sym (append_assoc front (map some post) (s ∷ none ∷ junk))))),
        refl,
        refl,
      )

  -- On an array that holds a list, with a slot free, an even capacity and memory to shrink,
  -- varray_del at the index of an item returns the item, the array holds the list without it, and
  -- its capacity is the old one, or half of it where less than half was in use and it was not the
  -- first capacity.
  pub del-Holds :
      {v : Varray A} (pre post : List A) (x : A)
      → Holds v (pre ++ x ∷ post)
      → v.used < v.capc
      → v.capc % 2 ≡ 0
      → (w : Varray A) × (Varray.del true v (pos (length pre)) ≡ ok (some x, w))
        × Holds w (pre ++ post)
        × Released v w
  unfolding Varray.del
  del-Holds {v} pre post x h room even =
      let inside : leb v.used (length pre) ≡ false =
        leb-false _ _ (omega (arith, size-Holds h, length-append pre (x ∷ post))) in
      let (w, e, held, (base, capc)) = release-Holds h in
      let free : w.used < w.capc = ground (arith, size-Holds h, size-Holds held) in
      let (u, f, t, first, same) = del_from-Roomy pre post x (Roomy-of_lt held free) refl in
      (u, rw (inside, e, f), t, rw (first, same) (base, capc))

  kept : (v : Varray A) → v.capc ≤ v.used * 2 → Varray.release true v ≡ ok (some v)
  unfolding Varray.release
  kept v h =
      let small : ltb (v.used * 2) v.capc ≡ false = ltb-false _ _ h in
      elim (Bool-cases (leb v.first v.capc)) [ inl e ↦ rw (e, small) | inr e ↦ rw e ]

  del_from_full :
      (idx : ℕ) {v : Varray A} {xs : List A}
      → Holds v xs
      → idx < length xs
      → v.used ≡ v.capc
      → Varray.del_from v v.items idx ≡ fault
  unfolding Varray.del_from
  del_from_full idx (fresh first p) lt full = absurd (omega arith)
  del_from_full idx (stored xs junk first p) lt full =
      let block = map some xs ++ junk in
      let rounds : length xs - idx ≡ suc (length xs - idx - 1) = omega arith in
      let short : length block ≤ idx + suc (length xs - idx - 1) =
        omega (arith, length-append (map some xs) junk, length-map {B = Option A} some xs) in
      elim (Option-cases (get_elem? block idx)) [
        | inl e ↦ rw (e, Varray.load)
        | inr (s, e) ↦
            rw (e, Varray.load, rounds, shift_down_fault (length xs - idx - 1) idx block short)
      ]

  -- On an array that holds a list and has no slot free, varray_del at the index of any item reads
  -- and writes behind the block: a fault.
  pub del_full :
      {v : Varray A} {xs : List A} (idx : ℕ)
      → Holds v xs
      → idx < length xs
      → v.used ≡ v.capc
      → Varray.del true v (pos idx) ≡ fault
  unfolding Varray.del
  del_full {v} idx h lt full =
      let inside : leb v.used idx ≡ false = leb-false _ _ (omega (arith, size-Holds h)) in
      rw (inside, kept v (omega arith), del_from_full idx h lt full)

  add_into-Holds :
      (pre post : List A) (y new : A) {w : Varray A} {xs : List A}
      → Holds w xs
      → w.used + 1 < w.capc
      → xs ≡ pre ++ y ∷ post
      → (u : Varray A) × (Varray.add_into w w.items (length pre) (some new) ≡ ok u)
        × Holds u (pre ++ new ∷ y ∷ post)
  unfolding Varray.add_into
  add_into-Holds pre post y new (fresh first p) room e = absurd (omega arith)
  add_into-Holds pre post y new (stored xs [] first p) room e = absurd (omega arith)
  add_into-Holds pre post y new (stored xs (s ∷ []) first p) room e = absurd (omega arith)
  add_into-Holds pre post y new (stored xs (s ∷ t ∷ junk) first p) room e =
      let front = map some pre in
      let mid = map some (y ∷ post) in
      let total : length xs ≡ length pre + suc (length post) =
        ap length e ∙ length-append pre (y ∷ post) in
      let size : length mid ≡ suc (length post) = length-map {B = Option A} some (y ∷ post) in
      let rounds : length xs + 1 - length pre ≡ suc (suc (length post)) = omega arith in
      let here : length pre ≡ length front = sym (length-map some pre) in
      let block : map some xs ++ s ∷ t ∷ junk ≡ front ++ (mid ++ s ∷ t ∷ junk) =
        rw (e, map-append) (append_assoc front mid (s ∷ t ∷ junk)) in
      let (h, run) = shift_up_lem (suc (length post)) (length pre) front mid s t junk here size in
      let result : Varray A = record {
        used = length xs + 1;
        capc = length xs + suc (suc (length junk));
        first = first;
        items = some (front ++ some new ∷ (mid ++ s ∷ junk));
      } in
      (
        result,
        rw (
          block,
          rounds,
          run,
          store-append front h (some new) (mid ++ s ∷ junk) (length pre) here,
        ),
        hold result (pre ++ new ∷ y ∷ post) (s ∷ junk) p
            (omega (arith, length-append pre (new ∷ y ∷ post)))
            (omega (arith, length-append pre (new ∷ y ∷ post)))
            (ap some (rw map-append (sym (append_assoc front (some new ∷ mid) (s ∷ junk))))),
      )

  module _ (mem : Bool) where
    roomy_reserve : (v : Varray A) → v.used < v.capc → Varray.reserve mem v ≡ ok (some v)
    unfolding Varray.reserve
    roomy_reserve v h = rw (leb-false v.capc v.used h)

    -- On an array that holds a list and has two slots free, varray_add at the index of an item
    -- succeeds, and the array holds the list with the new item before that one.
    pub add-Holds :
        {v : Varray A} (pre post : List A) (y new : A)
        → Holds v (pre ++ y ∷ post)
        → v.used + 1 < v.capc
        → (w : Varray A) × (Varray.add mem v (pos (length pre)) (some new) ≡ ok (some w))
          × Holds w (pre ++ new ∷ y ∷ post)
    unfolding Varray.add Varray.add_reserved
    add-Holds {v} pre post y new h room =
        let inside : leb v.used (length pre) ≡ false =
          leb-false _ _ (omega (arith, size-Holds h, length-append pre (y ∷ post))) in
        let (w, e, t) = add_into-Holds pre post y new h room refl in
        (w, rw (inside, roomy_reserve v (omega arith), e), t)

    add_into_full :
        (idx : ℕ) (new : Option A) {v : Varray A} {xs : List A}
        → Holds v xs
        → idx < length xs
        → v.used + 1 ≡ v.capc
        → Varray.add_into v v.items idx new ≡ fault
    unfolding Varray.add_into
    add_into_full idx new (fresh first p) lt full = absurd (omega arith)
    add_into_full idx new (stored xs junk first p) lt full =
        let rounds : length xs + 1 - idx ≡ suc (length xs - idx) = omega arith in
        rw (
          rounds,
          shift_up_fault (length xs - idx) idx (map some xs ++ junk)
              (omega (arith, length-append (map some xs) junk, length-map {B = Option A} some xs)),
        )

    -- On an array that holds a list and has exactly one slot free, varray_add at the index of any
    -- item writes behind the block: a fault.
    pub add_overflow :
        {v : Varray A} {xs : List A} (idx : ℕ) (new : A)
        → Holds v xs
        → idx < length xs
        → v.used + 1 ≡ v.capc
        → Varray.add mem v (pos idx) (some new) ≡ fault
    unfolding Varray.add Varray.add_reserved
    add_overflow {v} idx new h lt full =
        let inside : leb v.used idx ≡ false = leb-false _ _ (omega (arith, size-Holds h)) in
        rw (inside, roomy_reserve v (omega arith), add_into_full idx (some new) h lt full)
