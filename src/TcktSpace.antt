-- ===== src/TcktSpace.antt =====
-- vroute_tckt.c: the table of outstanding queries, each with what to do when its answer arrives.
-- A ticket that is freed while it stays in the array is a `fault`. The calls that leave the table
-- (the callbacks of a service query, `adjust_connectivity`) are logged as events in their order.
-- `mem` says whether `realloc` succeeds.
pub mod Settle
pub mod Check
pub mod Reap
use vdht.Base.{
  ℕ, zero, suc, ◌+◌, ◌-◌, ◌%◌, ◌^◌, ◌==◌, ltb, leb, if◌then◌else◌, Bool, true, false, not, List, [],
  ◌∷◌, ◌++◌, length, Option, none, some, ℤ, pos, negsuc, Run, ok, fault, ◌>>=◌,
}
use vdht.Addrs.{SockAddr, VSockAddr}
use vdht.NodeInfo.{NodeConn}
use vdht.SrvcInfo.{SrvcInfo}
use vdht.Token
use vdht.Token.{Token}
use vdht.Varray
use vdht.Varray.{Varray}

-- VTICKET_TOKEN_CHECK, VTICKET_SRVC_PROBE, VTICKET_CONN_PROBE
pub data Kind : Type 0 where
  token_check : Kind
  srvc_probe : Kind
  conn_probe : Kind

unfoldable pub is_kind : Kind → Kind → Bool
is_kind token_check token_check = true
is_kind token_check srvc_probe = false
is_kind token_check conn_probe = false
is_kind srvc_probe token_check = false
is_kind srvc_probe srvc_probe = true
is_kind srvc_probe conn_probe = false
is_kind conn_probe token_check = false
is_kind conn_probe srvc_probe = false
is_kind conn_probe conn_probe = true

-- `union ticket_info`; a callback or a cookie is known by a number. A nonce is its 32-bit word.
pub data Info : Type 0 where
  check : (nonce : ℕ) → Info
  srvc : (hash : Token) → (ncb icb cookie : ℕ) → Info
  conn : (nonce : ℕ) → (target_id : Token) → (conn : NodeConn) → (cookie : ℕ) → Info

-- `struct vticket_item`; its `type` is the union's constructor.
pub record Ticket : Type 0 where
  pub ts : ℤ
  pub info : Info

unfoldable pub kind_of : Info → Kind
kind_of (check nonce) = token_check
kind_of (srvc hash ncb icb cookie) = srvc_probe
kind_of (conn nonce target_id link cookie) = conn_probe

-- what `check_ticket` is given: `type` and the `argv` that belongs to it
pub data Args : Type 0 where
  nonce_args : (nonce : ℕ) → Args
  srvc_args : (srvci : SrvcInfo) → Args
  conn_args : (nonce : ℕ) → Args

unfoldable pub type_of : Args → Kind
type_of (nonce_args nonce) = token_check
type_of (srvc_args srvci) = srvc_probe
type_of (conn_args nonce) = conn_probe

pub data Event : Type 0 where
  number_addr : (ncb : ℕ) → (hash : Token) → (naddrs proto cookie : ℕ) → Event
  iterate_addr :
      (icb : ℕ)
      → (hash : Token) → (addr : SockAddr) → (type : ℕ) → (last : Bool) → (cookie : ℕ) → Event
  adjust_connectivity : (cookie : ℕ) → (target_id : Token) → (conn : NodeConn) → Event

-- VPROTO_UNKNOWN
abbrev pub proto_unknown : ℕ
proto_unknown = 5

-- the conversion of a `time_t` to a 32-bit `int`
unfoldable pub to_int : ℕ → ℤ
to_int t = if ltb (t % 2 ^ 32) (2 ^ 31) then pos (t % 2 ^ 32) else negsuc (2 ^ 32 - 1 - t % 2 ^ 32)

-- `vticket_init` at time `now`
unfoldable pub copy_info : Info → Info
unfolding Token.copy Token.hash_copy
copy_info (check nonce) = check nonce
copy_info (srvc hash ncb icb cookie) = srvc (Token.hash_copy hash) ncb icb cookie
copy_info (conn nonce target_id link cookie) = conn nonce (Token.copy target_id) link cookie

unfoldable pub ticket_init : ℕ → Info → Ticket
unfolding to_int copy_info
ticket_init now info = record { ts = to_int now; info = copy_info info }

-- the loop of `vticket_punch` over the addresses of a service
unfoldable pub send_addrs : ℕ → Token → ℕ → ℕ → ℕ → List VSockAddr → List Event
send_addrs icb hash naddrs cookie i [] = []
send_addrs icb hash naddrs cookie i (x ∷ xs) =
    iterate_addr icb hash x.addr x.type (i + 1 == naddrs) cookie
    ∷ send_addrs icb hash naddrs cookie (i + 1) xs

-- `vticket_punch`; arguments of another type are misread.
unfoldable pub punch : Info → Args → Run (Bool × List Event)
unfolding Token.hash_equal send_addrs
punch (check n) (nonce_args nonce) = ok (n == nonce, [])
punch (check n) (srvc_args srvci) = fault
punch (check n) (conn_args nonce) = fault
punch (srvc hash ncb icb cookie) (nonce_args nonce) = fault
punch (srvc hash ncb icb cookie) (conn_args nonce) = fault
punch (srvc hash ncb icb cookie) (srvc_args srvci) =
    if Token.hash_equal hash srvci.hash
    then ok (
      true,
      number_addr ncb srvci.hash (length srvci.addrs) srvci.proto cookie
          ∷ send_addrs icb srvci.hash (length srvci.addrs) cookie 0 srvci.addrs,
    )
    else ok (false, [])
punch (conn n target_id link cookie) (nonce_args nonce) = fault
punch (conn n target_id link cookie) (srvc_args srvci) = fault
punch (conn n target_id link cookie) (conn_args nonce) =
    if n == nonce then ok (true, adjust_connectivity cookie target_id link ∷ []) else ok (false, [])

-- `vticket_timedout_punch`
unfoldable pub timedout_punch : Info → List Event
timedout_punch (check nonce) = []
timedout_punch (srvc hash ncb icb cookie) = number_addr ncb hash 0 proto_unknown cookie ∷ []
timedout_punch (conn nonce target_id link cookie) = []

-- `struct vroute_tckt_space`
pub record TcktSpace : Type 0 where
  pub overdue_tmo : ℕ
  pub tickets : Varray Ticket

-- `vroute_tckt_space_init`
unfoldable pub init : TcktSpace
unfolding Varray.init
init = record { overdue_tmo = 3; tickets = Varray.init 8 }

-- `add_ticket`; the result of `varray_add_tail` is not looked at, `false` is -1.
put : TcktSpace → Option (Varray Ticket) → TcktSpace
put space none = space
put space (some v) = record space { tickets = v }

unfoldable pub add_ticket : Bool → Bool → TcktSpace → ℕ → Info → Run (TcktSpace × Bool)
unfolding Varray.add_tail ticket_init put
add_ticket alloc mem space now info =
    if alloc
    then (Varray.add_tail mem space.tickets (some (ticket_init now info)) >>= λ r.
        ok (put space r, true))
    else ok (space, false)

-- `varray_del` and `vticket_free` on the ticket at `i`
unfoldable pub remove : Bool → Varray Ticket → ℕ → Run (Varray Ticket)
unfolding Varray.del
remove mem v i = Varray.del mem v (pos i) >>= λ r. elim r.0 [ none ↦ fault | some t ↦ ok r.1 ]

-- the loop of `check_ticket` on fuel; `none` is fuel that ran out
unfoldable pub check_from :
    Bool
    → Args
    → ℕ
    → Varray Ticket
    → ℕ
    → Bool
    → List Event
    → Run (Option (Varray Ticket × Bool × List Event))
unfolding Varray.get is_kind kind_of type_of punch remove
check_from mem args zero v i found log = ok none
check_from mem args (suc fuel) v i found log = elim (ltb i v.used) [
  | false ↦ ok (some (v, found, log))
  | true ↦ Varray.get v (pos i) >>= λ slot. elim slot [
    | none ↦ fault
    | some t ↦ elim (is_kind (kind_of t.info) (type_of args)) [
      | false ↦ check_from mem args fuel v (i + 1) found log
      | true ↦ punch t.info args >>= λ r. elim r.0 [
        | false ↦ check_from mem args fuel v (i + 1) found (log ++ r.1)
        | true ↦ remove mem v i >>= λ w. elim (is_kind (type_of args) token_check) [
          | true ↦ ok (some (w, true, log ++ r.1))
          | false ↦ check_from mem args fuel w i true (log ++ r.1)
        ]
      ]
    ]
  ]
]

-- `check_ticket`: the space, whether a ticket was found, and what was called
unfoldable pub check_ticket :
    Bool → ℕ → TcktSpace → Args → Run (Option (TcktSpace × Bool × List Event))
unfolding check_from
check_ticket mem fuel space args = check_from mem args fuel space.tickets 0 false [] >>= λ r.
    elim r [ none ↦ ok none | some s ↦ ok (some (record space { tickets = s.0 }, s.1, s.2)) ]

-- `now - ticket->ts >= space->overdue_tmo`
unfoldable pub expired : ℕ → ℕ → ℤ → Bool
expired now tmo (pos ts) = leb (ts + tmo) now
expired now tmo (negsuc ts) = leb tmo (now + ts + 1)

-- the loop of `timed_reap` on fuel
unfoldable pub reap_from :
    Bool → ℕ → ℕ → ℕ → Varray Ticket → ℕ → List Event → Run (Option (Varray Ticket × List Event))
unfolding Varray.get expired timedout_punch remove
reap_from mem now tmo zero v i log = ok none
reap_from mem now tmo (suc fuel) v i log = elim (ltb i v.used) [
  | false ↦ ok (some (v, log))
  | true ↦ Varray.get v (pos i) >>= λ slot. elim slot [
    | none ↦ fault
    | some t ↦ elim (expired now tmo t.ts) [
      | false ↦ reap_from mem now tmo fuel v (i + 1) log
      | true ↦ remove mem v i >>= λ w. reap_from mem now tmo fuel w i (log ++ timedout_punch t.info)
    ]
  ]
]

-- `timed_reap` at time `now`
unfoldable pub timed_reap : Bool → ℕ → TcktSpace → ℕ → Run (Option (TcktSpace × List Event))
unfolding reap_from
timed_reap mem fuel space now = reap_from mem now space.overdue_tmo fuel space.tickets 0 [] >>= λ r.
    elim r [ none ↦ ok none | some s ↦ ok (some (record space { tickets = s.0 }, s.1)) ]

-- `vticket_free`, and `clear` on fuel, with the tickets that it has freed so far
free_ticket : Option Ticket → List Ticket → Run (List Ticket)
free_ticket none freed = fault
free_ticket (some t) freed = ok (freed ++ t ∷ [])

unfoldable pub clear : Bool → ℕ → TcktSpace → Run (Option (TcktSpace × List Ticket))
unfolding Varray.drain free_ticket
clear mem fuel space = Varray.drain free_ticket mem fuel space.tickets [] >>= λ r. elim r [
  | none ↦ ok none
  | some s ↦ ok (some (record space { tickets = s.0 }, s.1))
]
