-- ===== src/TcktSpace/Settle.antt =====
-- vroute_tckt.c: which answer fits which ticket, and the removal of a ticket.
use vdht.Base.{
  ℕ, ◌+◌, ◌*◌, ◌/◌, ◌%◌, ◌<◌, ◌==◌, ◌≡◌, ◌≢◌, refl, if◌then◌else◌, Bool, true, false, List, [], ◌∷◌,
  ◌++◌, length, length-append, Option, none, some, arith, ok, inl, inr, ◌⊎◌, Bool-cases,
}
use vdht.TcktSpace
use vdht.TcktSpace.{
  Kind, token_check, is_kind, Info, check, srvc, conn, Ticket, Args, nonce_args, srvc_args,
  conn_args, Event, number_addr, adjust_connectivity,
}
use vdht.SrvcInfo.{SrvcInfo}
use vdht.Token
use vdht.Varray.{Varray}
use vdht.Varray.Holds.{Holds, size-Holds}
use vdht.Varray.Middle.{del-Holds}

abbrev served : SrvcInfo → ℕ → ℕ → ℕ → List Event
served s ncb icb cookie =
    number_addr ncb s.hash (length s.addrs) s.proto cookie
    ∷ TcktSpace.send_addrs icb s.hash (length s.addrs) cookie 0 s.addrs

-- What a ticket does with an answer; `none` where the answer is not its own.
abbrev pub answer : Args → Info → Option (List Event)
answer (nonce_args m) (check n) = if n == m then some [] else none
answer (nonce_args m) (srvc hash ncb icb cookie) = none
answer (nonce_args m) (conn n target_id link cookie) = none
answer (srvc_args s) (check n) = none
answer (srvc_args s) (srvc hash ncb icb cookie) =
    if Token.hash_equal hash s.hash then some (served s ncb icb cookie) else none
answer (srvc_args s) (conn n target_id link cookie) = none
answer (conn_args m) (check n) = none
answer (conn_args m) (srvc hash ncb icb cookie) = none
answer (conn_args m) (conn n target_id link cookie) =
    if n == m then some (adjust_connectivity cookie target_id link ∷ []) else none

-- A token check settles one ticket; the other kinds settle every ticket that the answer fits.
abbrev pub only_one : Args → Bool
only_one (nonce_args m) = true
only_one (srvc_args s) = false
only_one (conn_args m) = false

-- The tickets that stay, whether one was settled, and what was called.
abbrev pub settle : Args → List Ticket → List Ticket × Bool × List Event
settle args [] = ([], false, [])
settle args (t ∷ ts) =
    let rest = settle args ts in
    elim (answer args t.info) [
      | none ↦ (t ∷ rest.0, rest.1, rest.2)
      | some log ↦ if only_one args then (ts, true, log) else (rest.0, true, log ++ rest.2)
    ]

-- The kind test and `vticket_punch` together give the answer of a ticket.
pub data Punched (args : Args) (info : Info) : Type 0 where
  other :
      answer args info ≡ none
      → is_kind (TcktSpace.kind_of info) (TcktSpace.type_of args) ≡ false
      → Punched args info
  missed :
      answer args info ≡ none
      → is_kind (TcktSpace.kind_of info) (TcktSpace.type_of args) ≡ true
      → TcktSpace.punch info args ≡ ok (false, [])
      → Punched args info
  done :
      (log : List Event)
      → answer args info ≡ some log
      → is_kind (TcktSpace.kind_of info) (TcktSpace.type_of args) ≡ true
      → TcktSpace.punch info args ≡ ok (true, log)
      → Punched args info

pub punch-Punched : (args : Args) (info : Info) → Punched args info
unfolding TcktSpace.is_kind TcktSpace.kind_of TcktSpace.type_of TcktSpace.punch
punch-Punched (nonce_args m) (check n) = elim (Bool-cases (n == m)) [
  | inl e ↦ done [] (rw e) refl (rw e)
  | inr e ↦ missed (rw e) refl (rw e)
]
punch-Punched (nonce_args m) (srvc hash ncb icb cookie) = other refl refl
punch-Punched (nonce_args m) (conn n target_id link cookie) = other refl refl
punch-Punched (srvc_args s) (check n) = other refl refl
punch-Punched (srvc_args s) (srvc hash ncb icb cookie) =
    elim (Bool-cases (Token.hash_equal hash s.hash)) [
      | inl e ↦ done (served s ncb icb cookie) (rw e) refl (rw e)
      | inr e ↦ missed (rw e) refl (rw e)
    ]
punch-Punched (srvc_args s) (conn n target_id link cookie) = other refl refl
punch-Punched (conn_args m) (check n) = other refl refl
punch-Punched (conn_args m) (srvc hash ncb icb cookie) = other refl refl
punch-Punched (conn_args m) (conn n target_id link cookie) = elim (Bool-cases (n == m)) [
  | inl e ↦ done (adjust_connectivity cookie target_id link ∷ []) (rw e) refl (rw e)
  | inr e ↦ missed (rw e) refl (rw e)
]

pub only_one_lem : (args : Args) → is_kind (TcktSpace.type_of args) token_check ≡ only_one args
unfolding TcktSpace.is_kind TcktSpace.type_of
only_one_lem (nonce_args m) = refl
only_one_lem (srvc_args s) = refl
only_one_lem (conn_args m) = refl

-- The capacities that doubling makes of the first one.
pub data Doubled (first : ℕ) : ℕ → Type 0 where
  once : Doubled first first
  twice : (c : ℕ) → Doubled first c → Doubled first (c * 2)

-- A table with a slot free, of a capacity that removals keep even.
pub record Tidy (v : Varray Ticket) (ts : List Ticket) : Type 0 where
  pub holds : Holds v ts
  pub free : v.used < v.capc
  pub even : v.first % 2 ≡ 0
  pub capacity : Doubled v.first v.capc

even_of : (first : ℕ) {c : ℕ} → first % 2 ≡ 0 → Doubled first c → c % 2 ≡ 0
even_of first h once = h
even_of first h (twice c d) = omega arith

halved : (first : ℕ) {c : ℕ} → c ≢ first → Doubled first c → Doubled first (c / 2)
halved first h once = absurd (h refl)
halved first h (twice c d) = let back : c * 2 / 2 ≡ c = omega arith in rw back d

-- `varray_del` and `vticket_free` take one ticket out of the table and leave it tidy.
pub remove-Tidy :
    {v : Varray Ticket} (pre post : List Ticket) (t : Ticket) (i : ℕ)
    → i ≡ length pre
    → Tidy v (pre ++ t ∷ post)
    → (w : Varray Ticket) × (TcktSpace.remove true v i ≡ ok w) × Tidy w (pre ++ post)
unfolding TcktSpace.remove
remove-Tidy {v} pre post t i e table =
    let (w, run, held, (base, capc)) =
      del-Holds pre post t table.holds table.free (even_of v.first table.even table.capacity) in
    let fewer : w.used + 1 ≡ v.used = omega (
      arith,
      size-Holds held,
      size-Holds table.holds,
      length-append pre post,
      length-append pre (t ∷ post),
    ) in
    (
      w,
      rw (e, run),
      record {
        holds = held;
        free = room w fewer capc;
        even = rw base table.even;
        capacity = elim capc [
          | inl same ↦ rw (base, same) table.capacity
          | inr half ↦ rw (base, half.0) (halved v.first half.2 table.capacity)
        ];
      },
    )
  where
    room :
        (w : Varray Ticket)
        → w.used + 1 ≡ v.used
        → (w.capc ≡ v.capc) ⊎ ((w.capc ≡ v.capc / 2) × (v.used * 2 < v.capc) × (v.capc ≢ v.first))
        → w.used < w.capc
    room w fewer (inl same) = omega (arith, table.free)
    room w fewer (inr half) = omega (arith, half.0, half.1)
