-- ===== src/TcktSpace/Reap.antt =====
-- vroute_tckt.c, timed_reap, clear and add_ticket.
use vdht.Base.{
  ℕ, zero, suc, ◌+◌, ◌<◌, ◌≤◌, ◌≡◌, ap, ℤ, pos, negsuc, ◌>>=◌, refl, ◌∙◌, if◌then◌else◌, ltb, true,
  false, List, [], ◌∷◌, ◌++◌, length, length-append, append_assoc, append-nil, some, arith, ok, inl,
  inr, Bool-cases, ltb-false,
}
use vdht.TcktSpace
use vdht.TcktSpace.{TcktSpace, Ticket, Info, Event, check, srvc, conn, number_addr}
use vdht.NodeInfo.{NodeConn}
use vdht.Token.{Token}
use vdht.TcktSpace.Settle.{Tidy, remove-Tidy}
use vdht.TcktSpace.Check.{read_next}
use vdht.Varray.{Varray}
use vdht.Varray.Holds.{Holds, size-Holds}
use vdht.Varray.Ends.{add_tail-Holds}
use vdht.Varray.Walk.{drain-Holds, visit_back}

module _ (now tmo : ℕ) where
  abbrev pub alive : List Ticket → List Ticket
  alive [] = []
  alive (t ∷ ts) = if TcktSpace.expired now tmo t.ts then alive ts else t ∷ alive ts

  -- What the expired tickets tell their owners.
  abbrev pub farewells : List Ticket → List Event
  farewells [] = []
  farewells (t ∷ ts) =
      if TcktSpace.expired now tmo t.ts
      then TcktSpace.timedout_punch t.info ++ farewells ts
      else farewells ts

  reap_from-alive :
      (fuel : ℕ) (pre ts : List Ticket) (v : Varray Ticket) (i : ℕ) (log : List Event)
      → i ≡ length pre
      → length ts < fuel
      → Tidy v (pre ++ ts)
      → (w : Varray Ticket) × (TcktSpace.reap_from true now tmo fuel v i log
          ≡ ok (some (w, log ++ farewells ts)))
        × Tidy w (pre ++ alive ts)
  unfolding TcktSpace.reap_from
  reap_from-alive zero pre ts v i log e h t = absurd (omega arith)
  reap_from-alive (suc fuel) pre [] v i log e h t =
      let stop : ltb i v.used ≡ false =
        ltb-false i v.used (omega (arith, size-Holds t.holds, length-append pre [])) in
      (v, rw (stop, TcktSpace.reap_from, append-nil log), t)
  reap_from-alive (suc fuel) pre (x ∷ ts) v i log e h t =
      let (more, read) = read_next pre ts x i e t.holds in
      let next : i + 1 ≡ length (pre ++ x ∷ []) = omega (arith, length-append pre (x ∷ [])) in
      elim (Bool-cases (TcktSpace.expired now tmo x.ts)) [
        | inr alive_still ↦
            let (w, run, tidy) =
              reap_from-alive fuel (pre ++ x ∷ []) ts v (i + 1) log next (omega arith)
                (rw (append_assoc pre (x ∷ []) ts) t) in
            (
              w,
              rw (more, TcktSpace.reap_from, read, ◌>>=◌, alive_still, farewells) run,
              rw (alive_still, alive) (rw (append_assoc pre (x ∷ []) (alive ts)) at tidy),
            )
        | inl late ↦
            let (u, gone, rest) = remove-Tidy pre ts x i e t in
            let (w, run, tidy) =
              reap_from-alive fuel pre ts u i (log ++ TcktSpace.timedout_punch x.info) e
                (omega arith) rest in
            (
              w,
              rw (more, TcktSpace.reap_from, read, ◌>>=◌, late, gone, farewells)
                  (run ∙ rw (append_assoc log (TcktSpace.timedout_punch x.info) (farewells ts))),
              rw (late, alive) tidy,
            )
      ]

-- The time since the ticket was stamped has reached the limit.
abbrev pub Overdue : ℕ → ℕ → ℤ → Type 0
Overdue now tmo (pos ts) = ts + tmo ≤ now
Overdue now tmo (negsuc ts) = tmo ≤ now + suc ts

-- What the owner of a ticket is told: for a service query that there are 0 addresses, of no known
-- protocol.
pub data Farewell : Info → List Event → Type 0 where
  of_check : (nonce : ℕ) → Farewell (check nonce) []
  of_conn :
      (nonce : ℕ) (target_id : Token) (link : NodeConn) (cookie : ℕ)
      → Farewell (conn nonce target_id link cookie) []
  of_srvc :
      (hash : Token) (ncb icb cookie : ℕ)
      → Farewell (srvc hash ncb icb cookie) (number_addr ncb hash 0 5 cookie ∷ [])

-- The tickets before and after, and what was told.
pub data Reaped (now tmo : ℕ) : List Ticket → List Ticket → List Event → Type 0 where
  no_ticket : Reaped now tmo [] [] []
  kept :
      (t : Ticket) (ts ks : List Ticket) (es : List Event)
      → ¬ Overdue now tmo t.ts
      → Reaped now tmo ts ks es
      → Reaped now tmo (t ∷ ts) (t ∷ ks) es
  gone :
      (t : Ticket) (ts ks : List Ticket) (told es : List Event)
      → Overdue now tmo t.ts
      → Farewell t.info told
      → Reaped now tmo ts ks es
      → Reaped now tmo (t ∷ ts) ks (told ++ es)

expired-Overdue : (now tmo : ℕ) (ts : ℤ) → TcktSpace.expired now tmo ts ≡ true → Overdue now tmo ts
unfolding TcktSpace.expired
expired-Overdue now tmo (pos ts) e = ground (arith, e)
expired-Overdue now tmo (negsuc ts) e = ground (arith, e)

expired-not : (now tmo : ℕ) (ts : ℤ) → TcktSpace.expired now tmo ts ≡ false → ¬ Overdue now tmo ts
unfolding TcktSpace.expired
expired-not now tmo (pos ts) e = λ h. ground (arith, e, h)
expired-not now tmo (negsuc ts) e = λ h. ground (arith, e, h)

punch-Farewell : (info : Info) → Farewell info (TcktSpace.timedout_punch info)
unfolding TcktSpace.timedout_punch
punch-Farewell (check nonce) = of_check nonce
punch-Farewell (srvc hash ncb icb cookie) = of_srvc hash ncb icb cookie
punch-Farewell (conn nonce target_id link cookie) = of_conn nonce target_id link cookie

alive-Reaped :
    (now tmo : ℕ) (ts : List Ticket) → Reaped now tmo ts (alive now tmo ts) (farewells now tmo ts)
alive-Reaped now tmo [] = no_ticket
alive-Reaped now tmo (t ∷ ts) = elim (Bool-cases (TcktSpace.expired now tmo t.ts)) [
  | inl e ↦ rw e (
      gone t ts (alive now tmo ts) (TcktSpace.timedout_punch t.info) (farewells now tmo ts)
        (expired-Overdue now tmo t.ts e) (punch-Farewell t.info) (alive-Reaped now tmo ts))
  | inr e ↦ rw e (
      kept t ts (alive now tmo ts) (farewells now tmo ts) (expired-not now tmo t.ts e)
        (alive-Reaped now tmo ts))
]

-- With memory to shrink, on a ticket table with a slot free, of an even first capacity that was
-- only ever doubled, and on one more round of fuel than there are tickets, timed_reap ends, takes
-- out exactly the tickets whose time stamp lies back by the limit or more, has told the owner of
-- each service query among them, in the order of the table, that there are 0 addresses, and
-- nothing for the others, and leaves a table with a slot free.
pub timed_reap-alive :
    (fuel : ℕ) (space : TcktSpace) (now : ℕ) (ts : List Ticket)
    → length ts < fuel
    → Tidy space.tickets ts
    → (w : Varray Ticket) × (ks : List Ticket) × (es : List Event) × (TcktSpace.timed_reap true fuel
          space now
        ≡ ok (some (record space { tickets = w }, es)))
      × Tidy w ks
      × Reaped now space.overdue_tmo ts ks es
unfolding TcktSpace.timed_reap
timed_reap-alive fuel space now ts h t =
    let (w, run, tidy) =
      reap_from-alive now space.overdue_tmo fuel [] ts space.tickets 0 [] refl h t in
    (
      w,
      alive now space.overdue_tmo ts,
      farewells now space.overdue_tmo ts,
      rw run,
      tidy,
      alive-Reaped now space.overdue_tmo ts,
    )

-- When both allocations succeed, add_ticket appends the ticket, stamped with the time and with its
-- information copied, to the tickets that the table holds, and returns 0.
pub add_ticket-Holds :
    (space : TcktSpace) (now : ℕ) (info : Info) (ts : List Ticket)
    → Holds space.tickets ts
    → (w : Varray Ticket) × (TcktSpace.add_ticket true true space now info
        ≡ ok (record space { tickets = w }, true))
      × Holds w (ts ++ TcktSpace.ticket_init now info ∷ [])
unfolding TcktSpace.add_ticket
add_ticket-Holds space now info ts h =
    let (w, run, held) = add_tail-Holds (TcktSpace.ticket_init now info) h in (w, rw run, held)

-- The items in the order in which they are freed.
abbrev pub backwards : List Ticket → List Ticket
backwards [] = []
backwards (t ∷ ts) = backwards ts ++ t ∷ []

freed : (ts : List Ticket) → visit_back TcktSpace.free_ticket ts [] ≡ ok (backwards ts)
unfolding TcktSpace.free_ticket
freed [] = refl
freed (t ∷ ts) = ap (λ m. m >>= λ r. TcktSpace.free_ticket (some t) r) (freed ts)

-- With memory to shrink and on one more round of fuel than there are tickets, clear ends with an
-- empty table and has freed each ticket of the table once, the last one first.
pub clear-Holds :
    (fuel : ℕ) (space : TcktSpace) (ts : List Ticket)
    → length ts < fuel
    → Holds space.tickets ts
    → (w : Varray Ticket) × (TcktSpace.clear true fuel space
        ≡ ok (some (record space { tickets = w }, backwards ts)))
      × Holds w []
unfolding TcktSpace.clear
clear-Holds fuel space ts h t =
    let (w, run, empty) =
      drain-Holds TcktSpace.free_ticket fuel ts [] (backwards ts) h (freed ts) t in
    (w, rw run, empty)
