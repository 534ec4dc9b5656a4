-- ===== src/Varray/Remove.antt =====
-- Removal of an item that a comparison finds.
use vdht.Base.{
  ℕ, zero, suc, ◌+◌, ◌%◌, ◌<◌, ◌≡◌, ◌>>=◌, refl, ap, ◌∙◌, leb, pos, ℤ, true, false, some, List, [],
  ◌∷◌, ◌++◌, length, length-append, append_assoc, ok, arith, get_elem?-append, leb-false, All,
}
use vdht.Varray
use vdht.Varray.{Varray, is_zero}
use vdht.Varray.Holds.{Holds, size-Holds}
use vdht.Varray.Ends.{get_lem}
use vdht.Varray.Middle.{del-Holds}

module _ {ℓ} {A : Type ℓ} (cmp_ref : A → A → ℤ) (todel : A) where
  find_equal_lem :
      (done pre post : List A) (x : A) {v : Varray A} (i n : ℕ)
      → i ≡ length done
      → n ≡ length (pre ++ x ∷ post)
      → Holds v (done ++ (pre ++ x ∷ post))
      → All (λ y. is_zero (cmp_ref todel y) ≡ false) pre
      → is_zero (cmp_ref todel x) ≡ true
      → Varray.find_equal cmp_ref todel v n i ≡ ok (i + length pre)
  unfolding Varray.find_equal
  find_equal_lem done [] post x i zero e size h others found = absurd (omega arith)
  find_equal_lem done (y ∷ pre) post x i zero e size h others found = absurd (omega arith)
  find_equal_lem done [] post x {v} i (suc n) e size h others found =
      let read : Varray.get v (pos i) ≡ ok (some x) =
        get_lem i h ∙ ap ok (rw e (get_elem?-append done x post)) in
      let here : i ≡ i + 0 = omega arith in rw (read, ◌>>=◌, found) (ap ok here)
  find_equal_lem done (y ∷ pre) post x {v} i (suc n) e size h others found =
      let read : Varray.get v (pos i) ≡ ok (some y) =
        get_lem i h ∙ ap ok (rw e (get_elem?-append done y (pre ++ x ∷ post))) in
      let step : i + 1 + length pre ≡ i + suc (length pre) = omega arith in
      let next : i + 1 ≡ length (done ++ y ∷ []) = omega (arith, length-append done (y ∷ [])) in
      let rest =
        find_equal_lem (done ++ y ∷ []) pre post x {v = v} (i + 1) n next (omega arith)
          (rw (append_assoc done (y ∷ []) (pre ++ x ∷ post)) h) others.1 found in
      rw (read, ◌>>=◌, others.0) (rest ∙ ap ok step)

  -- On an array that holds a list, with a slot free, an even capacity and memory to shrink,
  -- vsorted_array_del takes out and returns the first item on which the comparison, with the
  -- cookie that this function gives it, is 0.
  pub sorted_del-Holds :
      {v : Varray A} (pre post : List A) (x : A)
      → Holds v (pre ++ x ∷ post)
      → v.used < v.capc
      → v.capc % 2 ≡ 0
      → All (λ y. is_zero (cmp_ref todel y) ≡ false) pre
      → is_zero (cmp_ref todel x) ≡ true
      → (w : Varray A) × (Varray.sorted_del cmp_ref true v (some todel) ≡ ok (some x, w))
        × Holds w (pre ++ post)
  unfolding Varray.sorted_del
  sorted_del-Holds {v} pre post x h room even others found =
      let search : Varray.find_equal cmp_ref todel v v.used 0 ≡ ok (0 + length pre) =
        find_equal_lem [] pre post x 0 v.used refl (size-Holds h) h others found in
      let start : 0 + length pre ≡ length pre = omega arith in
      let inside : leb v.used (length pre) ≡ false =
        leb-false _ _ (omega (arith, size-Holds h, length-append pre (x ∷ post))) in
      let (w, run, held, _) = del-Holds pre post x h room even in
      (w, rw (search ∙ ap ok start, ◌>>=◌, inside, run), held)
