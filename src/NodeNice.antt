-- ===== src/NodeNice.antt =====
-- vnode_nice.c, vnode.h: the nice index of a node, from how busy its resources are.
-- What a call of vsys_get_cpu_ratio and its like puts into a field is an argument; `none` is a
-- result of -1, which leaves the field. A ratio is not negative.
pub mod Bounds
use vdht.Base.{ℕ, ◌+◌, ◌*◌, ◌/◌, ltb, if◌then◌else◌, Bool, true, false, ◌||◌, Option, none, some}

-- `struct vnice_res_status`
pub record Status : Type 0 where
  pub ratio : ℕ
  pub criteria : ℕ
  pub factor : ℕ

-- `struct vnode_nice`
pub record NodeNice : Type 0 where
  pub cpu : Status
  pub mem : Status
  pub io : Status
  pub net_up : Status
  pub net_down : Status
  pub prev_nice_val : ℕ

-- what the four calls that take samples give
pub record Sample : Type 0 where
  pub cpu : Option ℕ
  pub mem : Option ℕ
  pub io : Option ℕ
  pub net : Option (ℕ × ℕ)

-- `vnode_nice_init`
unfoldable pub init : NodeNice
init = record {
  cpu = record { ratio = 2; criteria = 8; factor = 7 };
  mem = record { ratio = 2; criteria = 8; factor = 6 };
  io = record { ratio = 2; criteria = 4; factor = 3 };
  net_up = record { ratio = 2; criteria = 8; factor = 3 };
  net_down = record { ratio = 2; criteria = 5; factor = 2 };
  prev_nice_val = 2;
}

-- a field after a call that samples it
unfoldable pub sampled : Status → Option ℕ → Status
sampled s none = s
sampled s (some r) = record s { ratio = r }

abbrev pub up : Option (ℕ × ℕ) → Option ℕ
up none = none
up (some n) = some n.0

abbrev pub down : Option (ℕ × ℕ) → Option ℕ
down none = none
down (some n) = some n.1

abbrev pub failed : {A : Type 0} → Option A → Bool
failed none = true
failed (some x) = false

-- the calls
unfoldable pub take_samples : NodeNice → Sample → NodeNice
unfolding sampled
take_samples n s = record n {
  cpu = sampled n.cpu s.cpu;
  mem = sampled n.mem s.mem;
  io = sampled n.io s.io;
  net_up = sampled n.net_up (up s.net);
  net_down = sampled n.net_down (down s.net);
}

-- `ret < 0`
abbrev pub any_failed : Sample → Bool
any_failed s = failed s.cpu || (failed s.mem || (failed s.io || failed s.net))

-- a round of the loop
unfoldable pub points : Status → ℕ
points s = if ltb s.ratio s.criteria then s.ratio * s.factor else 10 * s.factor

unfoldable pub nice_of : NodeNice → ℕ
unfolding points
nice_of n = (points n.cpu + points n.mem + points n.io + points n.net_up + points n.net_down) / 10

-- `_vnode_nice_get_nice`
unfoldable pub get_nice : NodeNice → Sample → NodeNice × ℕ
unfolding take_samples nice_of
get_nice n s =
    let m = take_samples n s in
    if any_failed s
    then (m, m.prev_nice_val)
    else (record m { prev_nice_val = nice_of m }, nice_of m)
