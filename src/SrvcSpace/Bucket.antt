-- ===== src/SrvcSpace/Bucket.antt =====
-- vroute_srvc.c, add_service: the branches behind the search, on one bucket.
use vdht.Base.{
  ℕ, suc, ◌+◌, ◌<◌, ◌≤◌, ◌≡◌, refl, ap, sym, ◌∙◌, ltb, leb, Bool, true, false, ◌&&◌, List, [], ◌∷◌,
  ◌++◌, map, length, length-append, length-map, append_assoc, Option, none, some, arith, All, ok,
  map-append, lt→ltb, le→leb, leb-false, ◌>>=◌, All-split,
}
use vdht.SrvcInfo
use vdht.SrvcInfo.{SrvcInfo}
use vdht.SrvcInfo.Insert
use vdht.SrvcInfo.Copy.{IsSource, copy_srvc_lem}
use vdht.SrvcSpace
use vdht.SrvcSpace.{Service, Search, start, blank}
use vdht.SrvcSpace.Ages.{Recent, period_lem, ages_below, ages_within}
use vdht.SrvcSpace.Find
use vdht.SrvcSpace.Find.{Other, oldest, visit_kept, visit_found, visit-oldest}
use vdht.Varray
use vdht.Varray.{Varray}
use vdht.Varray.Holds.{Holds, fresh, stored, hold, load-append, store-append, size-Holds}
use vdht.Varray.Ends.{add_tail-Holds}
use vdht.Varray.Walk.{iterate-Holds}

-- A service that carries what `srvci` says, received at `now`.
pub record Carries (x : Service) (srvci : SrvcInfo) (now : ℕ) : Type 0 where
  pub hash : x.srvci.hash ≡ srvci.hash
  pub hostid : x.srvci.hostid ≡ srvci.hostid
  pub nice : x.srvci.nice ≡ srvci.nice
  pub proto : x.srvci.proto ≡ srvci.proto
  pub addrs : x.srvci.addrs ≡ srvci.addrs
  pub rcv_ts : x.rcv_ts ≡ now
  pub valid : SrvcInfo.Insert.IsValid x.srvci

service_init-Carries :
    (x : Service) (srvci : SrvcInfo) (now : ℕ)
    → SrvcInfo.Insert.IsValid x.srvci
    → IsSource srvci.addrs
    → (y : Service) × (SrvcSpace.service_init true x srvci now ≡ ok y) × Carries y srvci now
unfolding SrvcSpace.service_init
service_init-Carries x srvci now v s =
    let (d, run, addrs, same, valid) = copy_srvc_lem srvci v s in
    (
      record { srvci = d; rcv_ts = now },
      rw run,
      record {
        hash = same.0;
        hostid = same.1;
        nice = same.2;
        proto = same.3;
        addrs = addrs;
        rcv_ts = refl;
        valid = valid;
      },
    )

blank-IsValid : SrvcInfo.Insert.IsValid blank.srvci
blank-IsValid = record {
  fits = omega arith;
  backed = omega arith;
  step = refl;
  limit = omega arith;
  distinct = tt;
}

-- The item at the index of `x` is overwritten.
init_at-Holds :
    (srvci : SrvcInfo) (now : ℕ) (pre post : List Service) (x : Service) {v : Varray Service}
    {xs : List Service}
    → Holds v xs
    → xs ≡ pre ++ x ∷ post
    → SrvcInfo.Insert.IsValid x.srvci
    → IsSource srvci.addrs
    → (w : Varray Service) × (y : Service) × (SrvcSpace.init_at true v (some (length pre)) srvci now
        ≡ ok w)
      × Holds w (pre ++ y ∷ post)
      × Carries y srvci now
unfolding SrvcSpace.init_at
init_at-Holds srvci now pre post x (fresh first p) e valid source =
    absurd (omega (arith, ap length e, length-append pre (x ∷ post)))
init_at-Holds srvci now pre post x (stored xs junk first p) e valid source =
    let (y, run, carries) = service_init-Carries x srvci now valid source in
    let front = map some pre in
    let back = map some post ++ junk in
    let here : length pre ≡ length {A = Option Service} front = sym (length-map some pre) in
    let count : length xs ≡ length pre + suc (length post) =
      ap length e ∙ length-append pre (x ∷ post) in
    let count_new = length-append pre (y ∷ post) in
    let block : map some xs ++ junk ≡ front ++ some x ∷ back =
      rw (e, map-append) (append_assoc front (some x ∷ map some post) junk) in
    let read : Varray.load (map some xs ++ junk) (length pre) ≡ ok (some x) =
      rw block (load-append front (some x) back (length pre) here) in
    let write : Varray.store (map some xs ++ junk) (length pre) (some y)
        ≡ ok (front ++ some y ∷ back) =
      rw block (store-append front (some x) (some y) back (length pre) here) in
    let result : Varray Service = record {
      used = length xs;
      capc = length xs + length junk;
      first = first;
      items = some (front ++ some y ∷ back);
    } in
    (
      result,
      y,
      rw (read, ◌>>=◌, run, write),
      hold result (pre ++ y ∷ post) junk p (omega arith) (omega arith)
          (ap some (rw map-append (sym (append_assoc front (some y ∷ map some post) junk)))),
      carries,
    )

and_false : (b : Bool) → (b && false) ≡ false
and_false true = refl
and_false false = refl

zero_add : (n : ℕ) → 0 + n ≡ n
zero_add n = omega arith

module _ (srvci : SrvcInfo) (now sz : ℕ) where
  abbrev result_of : List Service → Search
  result_of xs = (Find.visit srvci now xs start).1

  -- After the search the bucket holds what it held.
  searched :
      {v : Varray Service} {xs : List Service}
      → Holds v xs
      → (w : Varray Service) × (SrvcSpace.add_to true true sz v srvci now
          ≡ SrvcSpace.place true true sz w (result_of xs) srvci now)
        × Holds w xs
  unfolding SrvcSpace.add_to
  searched {v} {xs} h =
      let (w, run, held) = iterate-Holds (SrvcSpace.add_service_cb srvci now) start h in
      (w, rw run, rw (visit_kept srvci now xs start) at held)

  module _ (source : IsSource srvci.addrs) where
    pub add_to_known :
        (pre post : List Service) (x : Service) {v : Varray Service}
        → Holds v (pre ++ x ∷ post)
        → All (Other srvci now) pre
        → SrvcSpace.same srvci x ≡ true
        → SrvcInfo.Insert.IsValid x.srvci
        → (w : Varray Service) × (y : Service) × (SrvcSpace.add_to true true sz v srvci now
            ≡ ok (some w))
          × Holds w (pre ++ y ∷ post)
          × Carries y srvci now
    add_to_known pre post x h others e valid =
        let (v, run, held) = searched h in
        let (to, found) = visit_found srvci now pre post x start others e in
        let (w, y, put, t, carries) = init_at-Holds srvci now pre post x held refl valid source in
        (
          w,
          y,
          run ∙ unfold SrvcSpace.place in rw (found, to ∙ ap some (zero_add (length pre)), put),
          t,
          carries,
        )

    -- When both allocations succeed, an announcement with at most twelve distinct addresses of
    -- known types in their order, of a service that a bucket does not hold, is appended with the
    -- time to a bucket below its size, whatever the ages of the other items.
    pub add_to_new :
        {v : Varray Service} {xs : List Service}
        → Holds v xs
        → All (Other srvci now) xs
        → length xs < sz
        → (w : Varray Service) × (y : Service) × (SrvcSpace.add_to true true sz v srvci now
            ≡ ok (some w))
          × Holds w (xs ++ y ∷ [])
          × Carries y srvci now
    add_to_new {v} {xs} h others room =
        let (v, run, held) = searched h in
        let (to, found) = visit-oldest srvci now xs start others in
        let used = size-Holds held in
        let not_full : leb sz v.used ≡ false = leb-false _ _ (omega arith) in
        let below : ltb v.used sz ≡ true = lt→ltb _ _ (omega arith) in
        let (y, made, carries) = service_init-Carries blank srvci now blank-IsValid source in
        let (w, put, t) = add_tail-Holds y held in
        (
          w,
          y,
          run
              ∙ unfold SrvcSpace.place in
                rw (found, not_full, below, made, put)
                  (rw (and_false (SrvcSpace.is_some (result_of xs).to))),
          t,
          carries,
        )

    -- The same with the ages as add_service computes them.
    add_to_longest :
        (pre post : List Service) (x : Service) {v : Varray Service}
        → Holds v (pre ++ x ∷ post)
        → All (Other srvci now) (pre ++ x ∷ post)
        → sz ≤ length (pre ++ x ∷ post)
        → 0 < SrvcSpace.period now x.rcv_ts
        → All (λ y. SrvcSpace.period now y.rcv_ts < SrvcSpace.period now x.rcv_ts) pre
        → All (λ y. SrvcSpace.period now y.rcv_ts ≤ SrvcSpace.period now x.rcv_ts) post
        → SrvcInfo.Insert.IsValid x.srvci
        → (w : Varray Service) × (y : Service) × (SrvcSpace.add_to true true sz v srvci now
            ≡ ok (some w))
          × Holds w (pre ++ y ∷ post)
          × Carries y srvci now
    add_to_longest pre post x {v} h others full old before after valid =
        let (v, run, held) = searched h in
        let (to, found) = visit-oldest srvci now (pre ++ x ∷ post) start others in
        let which = Find.oldest_lem srvci now pre post x 0 none 0 old before after in
        let used = size-Holds held in
        let is_full : leb sz v.used ≡ true = le→leb _ _ (omega arith) in
        let (w, y, put, t, carries) = init_at-Holds srvci now pre post x held refl valid source in
        (
          w,
          y,
          run
              ∙ unfold SrvcSpace.place in
                rw (found, to ∙ which ∙ ap some (zero_add (length pre)), is_full, put),
          t,
          carries,
        )

    -- With memory to grow, in a bucket of at least its size that does not hold the announced
    -- service, and whose items were announced not in the future and less than 2 to the 31 seconds
    -- ago, the announcement, with at most twelve distinct addresses of known types in their order,
    -- overwrites the item that was announced the longest ago, the first one of these, if that was
    -- before now and its record is valid; no other item changes.
    pub add_to_full :
        (pre post : List Service) (x : Service) {v : Varray Service}
        → Holds v (pre ++ x ∷ post)
        → All (Other srvci now) (pre ++ x ∷ post)
        → sz ≤ length (pre ++ x ∷ post)
        → All (Recent now) (pre ++ x ∷ post)
        → x.rcv_ts < now
        → All (λ y. x.rcv_ts < y.rcv_ts) pre
        → All (λ y. x.rcv_ts ≤ y.rcv_ts) post
        → SrvcInfo.Insert.IsValid x.srvci
        → (w : Varray Service) × (y : Service) × (SrvcSpace.add_to true true sz v srvci now
            ≡ ok (some w))
          × Holds w (pre ++ y ∷ post)
          × Carries y srvci now
    add_to_full pre post x h others full recent old before after valid =
        let (front, (here, back)) = All-split (Recent now) pre (x ∷ post) recent in
        add_to_longest pre post x h others full (omega (arith, period_lem now x.rcv_ts here, old))
          (ages_below now x pre here front before) (ages_within now x post here back after) valid
