-- ===== src/Peer/Ping.antt =====
-- vroute_node.c, _aux_space_ping_nodei_cb: which peers are pinged, and the bound of their delay.
use vdht.Base.{
  ℕ, suc, ◌+◌, ◌<◌, ◌≤◌, ◌≡◌, refl, ◌⊎◌, min, ltb, ap, ◌∙◌, sym, if◌then◌else◌, Bool, true, false,
  List, [], ◌∷◌, ◌++◌, map, append-nil, append_assoc, arith, inl, inr, Bool-cases, ok,
}
use vdht.NodeInfo
use vdht.Token
use vdht.Peer
use vdht.Peer.{Peer, Limits, AddBy, other, ping_rsp, Query, ping}
use vdht.NodeSpace
use vdht.Varray
use vdht.Varray.{Varray}
use vdht.Varray.Holds.{Holds}
use vdht.Varray.Walk.{walk, iterate-Holds}

module _ (space : Limits) (now later : ℕ) where
  -- What the tick makes of a peer, and the query that it sends it.
  abbrev pub ticked : Peer → Peer
  ticked x = if Peer.is_due space now x then Peer.pinged space later x else x

  abbrev pub pings : List Peer → List Query
  pings [] = []
  pings (x ∷ xs) = if Peer.is_due space now x then ping x.conn ∷ pings xs else pings xs

  abbrev cb : Peer → List Query → Peer × List Query × Bool
  cb x log = Peer.ping_nodei_cb space now later x log

  -- What the walk makes of the result of one callback.
  abbrev onward : List Peer → Peer × List Query × Bool → List Peer × List Query
  onward xs r = elim r.2 [
    | true ↦ (r.0 ∷ xs, r.1)
    | false ↦ (r.0 ∷ (walk cb xs r.1).0, (walk cb xs r.1).1)
  ]

  cb_due :
      (x : Peer) (log : List Query)
      → Peer.is_due space now x ≡ true
      → cb x log ≡ (Peer.pinged space later x, log ++ ping x.conn ∷ [], false)
  unfolding Peer.ping_nodei_cb
  cb_due x log e = rw e

  cb_idle :
      (x : Peer) (log : List Query) → Peer.is_due space now x ≡ false → cb x log ≡ (x, log, false)
  unfolding Peer.ping_nodei_cb
  cb_idle x log e = rw e

  ping_walk :
      (xs : List Peer) (log : List Query) → walk cb xs log ≡ (map ticked xs, log ++ pings xs)
  ping_walk [] log = ap (λ t. ([], t)) (sym (append-nil log))
  ping_walk (x ∷ xs) log = elim (Bool-cases (Peer.is_due space now x)) [
    | inl e ↦
        let rest = ping_walk xs (log ++ ping x.conn ∷ []) in
        let whole = append_assoc log (ping x.conn ∷ []) (pings xs) in
        ap (onward xs) (cb_due x log e)
        ∙ ap (λ r. (Peer.pinged space later x ∷ r.0, r.1)) rest
        ∙ rw (e, whole)
    | inr e ↦ ap (onward xs) (cb_idle x log e) ∙ ap (λ r. (x ∷ r.0, r.1)) (ping_walk xs log) ∙ rw e
  ]

  pub iterate-ticked :
      {v : Varray Peer} {xs : List Peer} (log : List Query)
      → Holds v xs
      → (w : Varray Peer) × (Varray.iterate (Peer.ping_nodei_cb space now later) v log
          ≡ ok (w, log ++ pings xs))
        × Holds w (map ticked xs)
  iterate-ticked {v} {xs} log h =
      let (w, run, held) = iterate-Holds (Peer.ping_nodei_cb space now later) log h in
      (w, run ∙ ap (λ r. ok (w, r.1)) (ping_walk xs log), rw (ping_walk xs log) at held)

  -- The time of the last ping or answer and the delay have passed, and the peer has not both
  -- passed the number of pings and no version that is known.
  abbrev pub Due : Peer → Type 0
  Due x =
      (x.tick_ts + x.next_tmo ≤ now)
      × ((x.ntry_pings ≤ space.max_ping_tms) ⊎ (Token.equal x.nodei.ver Token.unknown_ver ≡ false))

  -- The other field is as it was; the delay grows from the largest number of pings on.
  pub record Pinged (x y : Peer) : Type 0 where
    pub conn : y.conn ≡ x.conn
    pub nodei : y.nodei ≡ x.nodei
    pub ntry_probes : y.ntry_probes ≡ x.ntry_probes
    pub ntry_pings : y.ntry_pings ≡ suc x.ntry_pings
    pub tick_ts : y.tick_ts ≡ later
    pub early : x.ntry_pings < space.max_ping_tms → y.next_tmo ≡ x.next_tmo
    pub late :
        space.max_ping_tms ≤ x.ntry_pings
        → y.next_tmo ≡ min (x.next_tmo + space.next_tmo_step) space.max_next_tmo_unreachable

  -- The peers before and after the tick, and the pings.
  pub data Ticked : List Peer → List Peer → List Query → Type 0 where
    no_peer : Ticked [] [] []
    sent :
        (x y : Peer) (xs ys : List Peer) (qs : List Query)
        → Due x
        → Pinged x y
        → Ticked xs ys qs
        → Ticked (x ∷ xs) (y ∷ ys) (ping x.conn ∷ qs)
    skipped :
        (x : Peer) (xs ys : List Peer) (qs : List Query)
        → ¬ Due x
        → Ticked xs ys qs
        → Ticked (x ∷ xs) (x ∷ ys) qs

  is_due-Due : (x : Peer) → Peer.is_due space now x ≡ true → Due x
  unfolding Peer.is_due NodeInfo.is_fake
  is_due-Due x e = (
    ground (arith, e),
    elim (Bool-cases (ltb space.max_ping_tms x.ntry_pings)) [
      | inl f ↦ inr (ground (arith, e, f))
      | inr f ↦ inl (ground (arith, f))
    ],
  )

  is_due-not : (x : Peer) → Peer.is_due space now x ≡ false → ¬ Due x
  unfolding Peer.is_due NodeInfo.is_fake
  is_due-not x e (passed, inl few) = ground (arith, e)
  is_due-not x e (passed, inr real) = ground (arith, e)

  pinged-Pinged : (x : Peer) → Pinged x (Peer.pinged space later x)
  unfolding Peer.pinged
  pinged-Pinged x = record {
    conn = refl;
    nodei = refl;
    ntry_probes = refl;
    ntry_pings = omega arith;
    tick_ts = refl;
    early = λ h. ground arith;
    late = λ h. ground arith;
  }

  ticked-Ticked : (xs : List Peer) → Ticked xs (map ticked xs) (pings xs)
  ticked-Ticked [] = no_peer
  ticked-Ticked (x ∷ xs) = elim (Bool-cases (Peer.is_due space now x)) [
    | inl e ↦ rw e (
        sent x (Peer.pinged space later x) xs (map ticked xs) (pings xs) (is_due-Due x e)
          (pinged-Pinged x) (ticked-Ticked xs))
    | inr e ↦ rw e (skipped x xs (map ticked xs) (pings xs) (is_due-not x e) (ticked-Ticked xs))
  ]

  -- On a bucket that holds peers, the iteration of tick sends a ping, in the order of the bucket,
  -- to exactly the peers whose time of the last ping or answer lies back by their delay or more
  -- and which do not both have more open pings than the limit and the unknown version. Such a peer
  -- has one more open ping and the later time; its delay stays while it had fewer open pings than
  -- the limit, and else grows by one step up to that of an unreachable peer. Every other field and
  -- every other peer stay as they were.
  pub iterate-ping :
      {v : Varray Peer} {xs : List Peer} (log : List Query)
      → Holds v xs
      → (w : Varray Peer) × (ys : List Peer) × (qs : List Query) × (Varray.iterate
            (Peer.ping_nodei_cb space now later)
            v
            log
          ≡ ok (w, log ++ qs))
        × Holds w ys
        × Ticked xs ys qs
  iterate-ping {v} {xs} log h =
      let (w, run, held) = iterate-ticked log h in
      (w, map ticked xs, pings xs, run, held, ticked-Ticked xs)

-- A delay that does not pass the limit.
abbrev pub InBounds : Limits → Peer → Type 0
InBounds space x = x.next_tmo ≤ space.max_next_tmo_unreachable

-- Where neither the first delay nor the largest one passes the delay of an unreachable peer, a
-- delay that does not pass it does not after a ping, after an answer or after kick_node either.
pub delay_bound :
    (space : Limits) (now : ℕ) (x : Peer)
    → space.init_next_tmo ≤ space.max_next_tmo_unreachable
    → space.max_next_tmo ≤ space.max_next_tmo_unreachable
    → InBounds space x
    → InBounds space (Peer.pinged space now x)
      × ((flag : AddBy) → InBounds space (Peer.answered space x flag now))
      × InBounds space (NodeSpace.kicked space now x)
unfolding Peer.pinged Peer.answered NodeSpace.kicked
delay_bound space now x first top h = (ground arith, λ flag. answered_bound flag, ground arith)
  where
    answered_bound : (flag : AddBy) → InBounds space (Peer.answered space x flag now)
    answered_bound other = h
    answered_bound ping_rsp = ground arith
