-- ===== src/SrvcSpace/Find.antt =====
-- vroute_srvc.c, _aux_srvc_add_service_cb: the search of a bucket.
use vdht.Base.{
  ℕ, suc, ◌+◌, ◌<◌, ◌≤◌, ◌≡◌, refl, ap, sym, ◌∙◌, ltb, if◌then◌else◌, Bool, true, false, List, [],
  ◌∷◌, ◌++◌, length, Option, some, arith, inl, inr, Bool-cases, All, ltb-false, lt→ltb,
}
use vdht.SrvcInfo.{SrvcInfo}
use vdht.SrvcSpace
use vdht.SrvcSpace.{Service, Search}
use vdht.Varray.Walk.{walk}

module _ (srvci : SrvcInfo) (now : ℕ) where
  abbrev pub Other : Service → Type 0
  Other x = SrvcSpace.same srvci x ≡ false

  -- The index of the item that was announced the longest ago, after `seen` items before.
  abbrev pub oldest : List Service → ℕ → Option ℕ → ℕ → Option ℕ × ℕ
  oldest [] seen to max_period = (to, max_period)
  oldest (x ∷ xs) seen to max_period =
      if ltb max_period (SrvcSpace.period now x.rcv_ts)
      then oldest xs (seen + 1) (some seen) (SrvcSpace.period now x.rcv_ts)
      else oldest xs (seen + 1) to max_period

  -- The cookie behind an item: of the same service, older than all before, and any other.
  abbrev at_same : Search → Search
  at_same c = record c { seen = c.seen + 1; to = some c.seen; found = true }

  abbrev at_older : Search → Service → Search
  at_older c x = record c {
    seen = c.seen + 1;
    to = some c.seen;
    max_period = SrvcSpace.period now x.rcv_ts;
  }

  abbrev behind : Search → Search
  behind c = record c { seen = c.seen + 1 }

  module _ (x : Service) (c : Search) where
    cb_same :
        SrvcSpace.same srvci x ≡ true
        → SrvcSpace.add_service_cb srvci now x c ≡ (x, at_same c, true)
    unfolding SrvcSpace.add_service_cb
    cb_same e = rw e

    cb_older :
        SrvcSpace.same srvci x ≡ false
        → ltb c.max_period (SrvcSpace.period now x.rcv_ts) ≡ true
        → SrvcSpace.add_service_cb srvci now x c ≡ (x, at_older c x, false)
    unfolding SrvcSpace.add_service_cb
    cb_older e f = rw (e, f)

    cb_behind :
        SrvcSpace.same srvci x ≡ false
        → ltb c.max_period (SrvcSpace.period now x.rcv_ts) ≡ false
        → SrvcSpace.add_service_cb srvci now x c ≡ (x, behind c, false)
    unfolding SrvcSpace.add_service_cb
    cb_behind e f = rw (e, f)

  abbrev pub visit : List Service → Search → List Service × Search
  visit xs c = walk (SrvcSpace.add_service_cb srvci now) xs c

  -- What the walk makes of the result of one callback.
  abbrev onward : List Service → Service × Search × Bool → List Service × Search
  onward xs r = elim r.2 [
    | true ↦ (r.0 ∷ xs, r.1)
    | false ↦ (r.0 ∷ (visit xs r.1).0, (visit xs r.1).1)
  ]

  visit-same :
      (x : Service) (xs : List Service) (c : Search)
      → SrvcSpace.same srvci x ≡ true
      → visit (x ∷ xs) c ≡ (x ∷ xs, at_same c)
  visit-same x xs c e = ap (onward xs) (cb_same x c e)

  visit_older :
      (x : Service) (xs : List Service) (c : Search)
      → SrvcSpace.same srvci x ≡ false
      → ltb c.max_period (SrvcSpace.period now x.rcv_ts) ≡ true
      → visit (x ∷ xs) c ≡ (x ∷ (visit xs (at_older c x)).0, (visit xs (at_older c x)).1)
  visit_older x xs c e f = ap (onward xs) (cb_older x c e f)

  visit-behind :
      (x : Service) (xs : List Service) (c : Search)
      → SrvcSpace.same srvci x ≡ false
      → ltb c.max_period (SrvcSpace.period now x.rcv_ts) ≡ false
      → visit (x ∷ xs) c ≡ (x ∷ (visit xs (behind c)).0, (visit xs (behind c)).1)
  visit-behind x xs c e f = ap (onward xs) (cb_behind x c e f)

  -- The search leaves the items alone.
  pub visit_kept : (xs : List Service) (c : Search) → (visit xs c).0 ≡ xs
  visit_kept [] c = refl
  visit_kept (x ∷ xs) c = elim (Bool-cases (SrvcSpace.same srvci x)) [
    | inl e ↦ ap (λ r. r.0) (visit-same x xs c e)
    | inr e ↦ elim (Bool-cases (ltb c.max_period (SrvcSpace.period now x.rcv_ts))) [
      | inl f ↦
          ap (λ r. r.0) (visit_older x xs c e f) ∙ ap (λ r. x ∷ r) (visit_kept xs (at_older c x))
      | inr f ↦ ap (λ r. r.0) (visit-behind x xs c e f) ∙ ap (λ r. x ∷ r) (visit_kept xs (behind c))
    ]
  ]

  -- It stops at the first item of the same service.
  pub visit_found :
      (pre post : List Service) (x : Service) (c : Search)
      → All Other pre
      → SrvcSpace.same srvci x ≡ true
      → ((visit (pre ++ x ∷ post) c).1.to ≡ some (c.seen + length pre))
        × ((visit (pre ++ x ∷ post) c).1.found ≡ true)
  visit_found [] post x c others e =
      let stop = ap (λ r. r.1) (visit-same x post c e) in
      let zero_more : c.seen ≡ c.seen + 0 = omega arith in
      (ap (λ s. s.to) stop ∙ ap some zero_more, ap (λ s. s.found) stop)
  visit_found (y ∷ pre) post x c others e =
      let step : c.seen + 1 + length pre ≡ c.seen + suc (length pre) = omega arith in
      elim (Bool-cases (ltb c.max_period (SrvcSpace.period now y.rcv_ts))) [
        | inl f ↦
            let on = ap (λ r. r.1) (visit_older y (pre ++ x ∷ post) c others.0 f) in
            let (to, found) = visit_found pre post x (at_older c y) others.1 e in
            (ap (λ s. s.to) on ∙ to ∙ ap some step, ap (λ s. s.found) on ∙ found)
        | inr f ↦
            let on = ap (λ r. r.1) (visit-behind y (pre ++ x ∷ post) c others.0 f) in
            let (to, found) = visit_found pre post x (behind c) others.1 e in
            (ap (λ s. s.to) on ∙ to ∙ ap some step, ap (λ s. s.found) on ∙ found)
      ]

  oldest_cons :
      (x : Service) (xs : List Service) (seen : ℕ) (to : Option ℕ) (max_period : ℕ) (b : Bool)
      → ltb max_period (SrvcSpace.period now x.rcv_ts) ≡ b
      → oldest (x ∷ xs) seen to max_period ≡ (
          if b
          then oldest xs (seen + 1) (some seen) (SrvcSpace.period now x.rcv_ts)
          else oldest xs (seen + 1) to max_period)
  oldest_cons x xs seen to max_period b e = rw (e, oldest)

  -- Without such an item it passes all and keeps the oldest one.
  pub visit-oldest :
      (xs : List Service) (c : Search)
      → All Other xs
      → ((visit xs c).1.to ≡ (oldest xs c.seen c.to c.max_period).0)
        × ((visit xs c).1.found ≡ c.found)
  visit-oldest [] c others = (refl, refl)
  visit-oldest (y ∷ xs) c others =
      elim (Bool-cases (ltb c.max_period (SrvcSpace.period now y.rcv_ts))) [
        | inl f ↦
            let on = ap (λ r. r.1) (visit_older y xs c others.0 f) in
            let spec = oldest_cons y xs c.seen c.to c.max_period true f in
            let (to, found) = visit-oldest xs (at_older c y) others.1 in
            (ap (λ s. s.to) on ∙ to ∙ sym (ap (λ r. r.0) spec), ap (λ s. s.found) on ∙ found)
        | inr f ↦
            let on = ap (λ r. r.1) (visit-behind y xs c others.0 f) in
            let spec = oldest_cons y xs c.seen c.to c.max_period false f in
            let (to, found) = visit-oldest xs (behind c) others.1 in
            (ap (λ s. s.to) on ∙ to ∙ sym (ap (λ r. r.0) spec), ap (λ s. s.found) on ∙ found)
      ]

  oldest_kept :
      (xs : List Service) (seen : ℕ) (to : Option ℕ) (max_period : ℕ)
      → All (λ y. SrvcSpace.period now y.rcv_ts ≤ max_period) xs
      → (oldest xs seen to max_period).0 ≡ to
  oldest_kept [] seen to max_period below = refl
  oldest_kept (y ∷ xs) seen to max_period below =
      ap (λ r. r.0) (oldest_cons y xs seen to max_period false (ltb-false _ _ below.0))
      ∙ oldest_kept xs (seen + 1) to max_period below.1

  -- It is the first item with the longest period.
  pub oldest_lem :
      (pre post : List Service) (x : Service) (seen : ℕ) (to : Option ℕ) (max_period : ℕ)
      → max_period < SrvcSpace.period now x.rcv_ts
      → All (λ y. SrvcSpace.period now y.rcv_ts < SrvcSpace.period now x.rcv_ts) pre
      → All (λ y. SrvcSpace.period now y.rcv_ts ≤ SrvcSpace.period now x.rcv_ts) post
      → (oldest (pre ++ x ∷ post) seen to max_period).0 ≡ some (seen + length pre)
  oldest_lem [] post x seen to max_period old before after =
      let here : seen ≡ seen + 0 = omega arith in
      ap (λ r. r.0) (oldest_cons x post seen to max_period true (lt→ltb _ _ old))
      ∙ oldest_kept post (seen + 1) (some seen) (SrvcSpace.period now x.rcv_ts) after
      ∙ ap some here
  oldest_lem (y ∷ pre) post x seen to max_period old before after =
      let step : seen + 1 + length pre ≡ seen + suc (length pre) = omega arith in
      elim (Bool-cases (ltb max_period (SrvcSpace.period now y.rcv_ts))) [
        | inl f ↦
            ap (λ r. r.0) (oldest_cons y (pre ++ x ∷ post) seen to max_period true f)
            ∙ oldest_lem pre post x (seen + 1) (some seen) (SrvcSpace.period now y.rcv_ts) before.0
                before.1 after
            ∙ ap some step
        | inr f ↦
            ap (λ r. r.0) (oldest_cons y (pre ++ x ∷ post) seen to max_period false f)
            ∙ oldest_lem pre post x (seen + 1) to max_period old before.1 after
            ∙ ap some step
      ]
