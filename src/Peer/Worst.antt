-- ===== src/Peer/Worst.antt =====
-- vroute_node.c, _aux_space_find_worst_nodei_cb: the search of a bucket.
use vdht.Base.{
  suc, ◌+◌, ◌≡◌, ◌⊎◌, refl, ap, ◌∙◌, ltb, ltb_int, if◌then◌else◌, Bool, true, false, List, [], ◌∷◌,
  ◌++◌, length, some, arith, inl, inr, Bool-cases, All,
}
use vdht.NodeInfo.{NodeInfo}
use vdht.Peer
use vdht.Peer.{Peer, Search}
use vdht.Token
use vdht.Varray.Walk.{walk}

module _ (nodei : NodeInfo) where
  abbrev pub Other : Peer → Type 0
  Other x = Token.equal x.nodei.id nodei.id ≡ false

  -- The cookie behind a peer: the node itself, a worse one, and any other.
  abbrev at_same : Search → Search
  at_same c = record c { seen = c.seen + 1; want = some c.seen; found = true }

  abbrev at_worse : Search → Peer → Search
  at_worse c x =
      if ltb c.max_try x.ntry_pings
      then record c { seen = c.seen + 1; want = some c.seen; max_try = x.ntry_pings }
      else if ltb_int x.nodei.weight c.min_wgt
      then record c { seen = c.seen + 1; want = some c.seen; min_wgt = x.nodei.weight }
      else record c { seen = c.seen + 1 }

  abbrev pub visit : List Peer → Search → List Peer × Search
  visit xs c = walk (Peer.find_worst_cb nodei) xs c

  -- What the walk makes of the result of one callback.
  abbrev onward : List Peer → Peer × Search × Bool → List Peer × Search
  onward xs r = elim r.2 [
    | true ↦ (r.0 ∷ xs, r.1)
    | false ↦ (r.0 ∷ (visit xs r.1).0, (visit xs r.1).1)
  ]

  module _ (x : Peer) (c : Search) where
    cb_same :
        Token.equal x.nodei.id nodei.id ≡ true → Peer.find_worst_cb nodei x c ≡ (x, at_same c, true)
    unfolding Peer.find_worst_cb
    cb_same e = rw e

    cb-Other : Other x → Peer.find_worst_cb nodei x c ≡ (x, at_worse c x, false)
    unfolding Peer.find_worst_cb
    cb-Other e = elim (Bool-cases (ltb c.max_try x.ntry_pings)) [
      | inl f ↦ rw (e, f)
      | inr f ↦ elim (Bool-cases (ltb_int x.nodei.weight c.min_wgt)) [
        | inl g ↦ rw (e, f, g)
        | inr g ↦ rw (e, f, g)
      ]
    ]

    -- Another node does not end the search, and is the worst one so far or leaves it as it was.
    at_worse_lem :
        ((at_worse c x).seen ≡ c.seen + 1)
        × ((at_worse c x).found ≡ c.found)
        × (((at_worse c x).want ≡ c.want) ⊎ ((at_worse c x).want ≡ some c.seen))
    at_worse_lem = elim (Bool-cases (ltb c.max_try x.ntry_pings)) [
      | inl f ↦ rw f (refl, refl, inr refl)
      | inr f ↦ elim (Bool-cases (ltb_int x.nodei.weight c.min_wgt)) [
        | inl g ↦ rw (f, g) (refl, refl, inr refl)
        | inr g ↦ rw (f, g) (refl, refl, inl refl)
      ]
    ]

  visit-same :
      (x : Peer) (xs : List Peer) (c : Search)
      → Token.equal x.nodei.id nodei.id ≡ true
      → visit (x ∷ xs) c ≡ (x ∷ xs, at_same c)
  visit-same x xs c e = ap (onward xs) (cb_same x c e)

  visit-Other :
      (x : Peer) (xs : List Peer) (c : Search)
      → Other x
      → visit (x ∷ xs) c ≡ (x ∷ (visit xs (at_worse c x)).0, (visit xs (at_worse c x)).1)
  visit-Other x xs c e = ap (onward xs) (cb-Other x c e)

  -- The search leaves the peers alone.
  pub visit_kept : (xs : List Peer) (c : Search) → (visit xs c).0 ≡ xs
  visit_kept [] c = refl
  visit_kept (x ∷ xs) c = elim (Bool-cases (Token.equal x.nodei.id nodei.id)) [
    | inl e ↦ ap (λ r. r.0) (visit-same x xs c e)
    | inr e ↦ ap (λ r. r.0) (visit-Other x xs c e) ∙ ap (λ r. x ∷ r) (visit_kept xs (at_worse c x))
  ]

  -- It stops at the node itself.
  pub visit_found :
      (pre post : List Peer) (x : Peer) (c : Search)
      → All Other pre
      → Token.equal x.nodei.id nodei.id ≡ true
      → ((visit (pre ++ x ∷ post) c).1.want ≡ some (c.seen + length pre))
        × ((visit (pre ++ x ∷ post) c).1.found ≡ true)
  visit_found [] post x c others e =
      let stop = ap (λ r. r.1) (visit-same x post c e) in
      let zero_more : c.seen ≡ c.seen + 0 = omega arith in
      (ap (λ s. s.want) stop ∙ ap some zero_more, ap (λ s. s.found) stop)
  visit_found (y ∷ pre) post x c others e =
      let (seen, _, _) = at_worse_lem y c in
      let step : (at_worse c y).seen + length pre ≡ c.seen + suc (length pre) =
        omega (arith, seen) in
      let on = ap (λ r. r.1) (visit-Other y (pre ++ x ∷ post) c others.0) in
      let (want, found) = visit_found pre post x (at_worse c y) others.1 e in
      (ap (λ s. s.want) on ∙ want ∙ ap some step, ap (λ s. s.found) on ∙ found)

  -- Without it, the search ends with the index of a peer, or with what it started with.
  pub visit-absent :
      (xs : List Peer) (c : Search)
      → All Other xs
      → ((visit xs c).1.found ≡ c.found)
        × (((visit xs c).1.want ≡ c.want)
            ⊎ ((pre : List Peer) × (x : Peer) × (post : List Peer) × (xs ≡ pre ++ x ∷ post)
                × ((visit xs c).1.want ≡ some (c.seen + length pre))))
  visit-absent [] c others = (refl, inl refl)
  visit-absent (y ∷ xs) c others =
      let (seen, found, want) = at_worse_lem y c in
      let on = ap (λ r. r.1) (visit-Other y xs c others.0) in
      let (found', want') = visit-absent xs (at_worse c y) others.1 in
      let zero_more : c.seen ≡ c.seen + 0 = omega arith in
      (
        ap (λ s. s.found) on ∙ found' ∙ found,
        elim want' [
          | inl same ↦ elim want [
            | inl e ↦ inl (ap (λ s. s.want) on ∙ same ∙ e)
            | inr e ↦ inr ([], y, xs, refl, ap (λ s. s.want) on ∙ same ∙ e ∙ ap some zero_more)
          ]
          | inr (pre, x, post, e, w) ↦
              let step : (at_worse c y).seen + length pre ≡ c.seen + suc (length pre) =
                omega (arith, seen) in
              inr (y ∷ pre, x, post, ap (λ t. y ∷ t) e, ap (λ s. s.want) on ∙ w ∙ ap some step)
        ],
      )
