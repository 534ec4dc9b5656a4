-- ===== src/SrvcSpace/Ages.antt =====
-- vroute_srvc.c, add_service: how long ago a service was announced, and the int that it is held in.
use vdht.Base.{ℕ, ◌+◌, ◌-◌, ◌%◌, ◌^◌, ◌<◌, ◌≤◌, ◌≡◌, ltb, true, List, [], ◌∷◌, All, arith, lt→ltb}
use vdht.TcktSpace.{to_int}
use vdht.SrvcSpace
use vdht.SrvcSpace.{Service}

-- Announced neither in the future nor more than an int of seconds ago.
abbrev pub Recent : ℕ → Service → Type 0
Recent now y = (y.rcv_ts ≤ now) × (now < y.rcv_ts + 2 ^ 31)

pub period_lem :
    (now ts : ℕ) → (ts ≤ now) × (now < ts + 2 ^ 31) → SrvcSpace.period now ts + ts ≡ now
unfolding SrvcSpace.period to_int
period_lem now ts (past, near) =
    let age : (now + (2 ^ 32 - ts % 2 ^ 32)) % 2 ^ 32 + ts ≡ now = omega arith in
    let small : ltb ((now + (2 ^ 32 - ts % 2 ^ 32)) % 2 ^ 32) (2 ^ 31) ≡ true =
      lt→ltb _ _ (omega (arith, age)) in
    rw (small, SrvcSpace.period) age

pub ages_below :
    (now : ℕ) (x : Service) (ys : List Service)
    → Recent now x
    → All (Recent now) ys
    → All (λ y. x.rcv_ts < y.rcv_ts) ys
    → All (λ y. SrvcSpace.period now y.rcv_ts < SrvcSpace.period now x.rcv_ts) ys
ages_below now x [] here recent later = tt
ages_below now x (y ∷ ys) here recent later = (
  omega (arith, period_lem now x.rcv_ts here, period_lem now y.rcv_ts recent.0, later.0),
  ages_below now x ys here recent.1 later.1,
)

pub ages_within :
    (now : ℕ) (x : Service) (ys : List Service)
    → Recent now x
    → All (Recent now) ys
    → All (λ y. x.rcv_ts ≤ y.rcv_ts) ys
    → All (λ y. SrvcSpace.period now y.rcv_ts ≤ SrvcSpace.period now x.rcv_ts) ys
ages_within now x [] here recent later = tt
ages_within now x (y ∷ ys) here recent later = (
  omega (arith, period_lem now x.rcv_ts here, period_lem now y.rcv_ts recent.0, later.0),
  ages_within now x ys here recent.1 later.1,
)
