-- ===== src/TcktSpace/Check.antt =====
-- vroute_tckt.c, check_ticket: the loop over the tickets.
use vdht.Base.{
  ℕ, suc, ◌≡◌, ◌>>=◌, refl, ap, sym, ◌∙◌, if◌then◌else◌, ltb, pos, Bool, true, List, [], ◌∷◌, ◌++◌,
  length, length-append, none, some, arith, ok, fault, lt→ltb, get_elem?-append,
}
use vdht.TcktSpace
use vdht.TcktSpace.{TcktSpace, Ticket, Args, Event, token_check, is_kind}
use vdht.TcktSpace.Settle.{answer, other, missed, done, punch-Punched, Tidy}
use vdht.Varray
use vdht.Varray.{Varray}
use vdht.Varray.Holds.{Holds, size-Holds}
use vdht.Varray.Ends.{get_lem}
use vdht.Varray.Middle.{del_full}

-- The ticket at the loop's index is read.
pub read_next :
    {v : Varray Ticket} (pre post : List Ticket) (t : Ticket) (i : ℕ)
    → i ≡ length pre
    → Holds v (pre ++ t ∷ post)
    → (ltb i v.used ≡ true) × (Varray.get v (pos i) ≡ ok (some t))
read_next pre post t i e h = (
  lt→ltb _ _ (omega (arith, size-Holds h, length-append pre (t ∷ post))),
  get_lem i h ∙ ap ok (rw e (get_elem?-append pre t post)),
)

-- What the loop gives when it has passed `pre` and stands before `ts`.
abbrev Settled :
    (args : Args) (fuel : ℕ) (pre ts : List Ticket) (v : Varray Ticket) (i : ℕ) (found : Bool)
    (log : List Event)
    → List Ticket × Bool × List Event
    → Type 0
Settled args fuel pre ts v i found log s =
    (w : Varray Ticket) × (TcktSpace.check_from true args fuel v i found log
      ≡ ok (some (w, (if s.1 then true else found), log ++ s.2)))
    × Tidy w (pre ++ s.0)

-- On a ticket table without a free slot, an answer that fits the first ticket makes check_ticket
-- reach the loop of varray_del that writes behind the block: a fault.
pub check_ticket_full :
    (fuel : ℕ) (space : TcktSpace) (args : Args) (x : Ticket) (ts : List Ticket)
    (events : List Event)
    → Holds space.tickets (x ∷ ts)
    → space.tickets.used ≡ space.tickets.capc
    → answer args x.info ≡ some events
    → TcktSpace.check_ticket true (suc fuel) space args ≡ fault
unfolding TcktSpace.check_ticket TcktSpace.check_from TcktSpace.remove
check_ticket_full fuel space args x ts events h full a =
    let (more, read) = read_next [] ts x 0 refl h in
    let gone = del_full 0 h (omega arith) full in
    elim (punch-Punched args x.info) [
      | other b k ↦ absurd (none-not_some (sym b ∙ a))
      | missed b k p ↦ absurd (none-not_some (sym b ∙ a))
      | done produced b k p ↦ rw (more, TcktSpace.check_from, read, ◌>>=◌, k, p, gone)
    ]
  where
    none-not_some : {e : List Event} → none ≡ some e → ⊥
    none-not_some h = cc h
