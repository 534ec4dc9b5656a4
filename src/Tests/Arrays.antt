-- ===== src/Tests/Arrays.antt =====
-- Arrays with one or two items, and a slab of one zone.
use vdht.Base.{
  ◌/◌, ◌==◌, ◌+◌, ◌-◌, ◌%◌, ◌≡◌, ◌≢◌, ◌⊎◌, ◌<◌, refl, Bool, true, false, List, [], ◌∷◌, Option,
  some, none, ok, fault, arith, ℤ, pos, negsuc, ℕ, zero, ltb, if◌then◌else◌, get_elem?, All,
}
use vdht.Varray
use vdht.Varray.{Varray}
use vdht.Varray.Holds.{Holds, stored}
use vdht.Varray.Walk.{iterate-Holds}
use vdht.Mem
use vdht.Mem.{MemAux, Chunk, chunk_magic, free_chunk, chunk_at}
use vdht.Mem.Valid.{count}
use vdht.Mem.Alloc.{Allocated, alloc-Allocated, free_taken}

-- two items in a block of `n + 2` slots
abbrev block : ℕ → Varray ℕ
block n = record {
  used = 2;
  capc = 2 + n;
  first = 2;
  items = some (some 10 ∷ some 20 ∷ vdht.Base.replicate n none);
}

one_free : Holds (block 1) (10 ∷ 20 ∷ [])
one_free = stored (10 ∷ 20 ∷ []) (none ∷ []) 2 (omega arith)

full : Holds (block 0) (10 ∷ 20 ∷ [])
full = stored (10 ∷ 20 ∷ []) [] 2 (omega arith)

-- Doubles an item, adds it to the sum, and stops when the sum is large.
abbrev double_and_sum : ℕ → ℕ → ℕ × ℕ × Bool
double_and_sum x s = (x + x, s + x, ltb 25 (s + x))

iterate-Holds_example :
    (w : Varray ℕ) × (Varray.iterate double_and_sum (block 0) 0 ≡ ok (w, 30))
    × Holds w (20 ∷ 40 ∷ [])
iterate-Holds_example = iterate-Holds double_and_sum 0 full

abbrev collect : Option ℕ → List ℕ → List ℕ
collect none log = log
collect (some x) log = x ∷ log

-- Smaller numbers stand first.
-- A slab of one zone with two chunks, the first in use.
abbrev taken_chunk : Chunk
taken_chunk = record { magic = chunk_magic; taken = 1 }

abbrev slab : MemAux
slab = record {
  obj_sz = 64;
  used = 1;
  capc = 2;
  first = 2;
  zones = (taken_chunk ∷ free_chunk ∷ []) ∷ [];
}

slab-IsValid : Mem.Valid.IsValid slab
slab-IsValid = record {
  some_first = omega arith;
  zones_full = ((refl, (refl, (refl, tt))), tt);
  capacity = refl;
  bounded = omega arith;
  counted = refl;
}

alloc-Allocated_example :
    (z : ℕ) × (i : ℕ) × (next : MemAux) × (Mem.alloc true slab ≡ ok (some (z, i), next))
    × Allocated slab next z i
alloc-Allocated_example = alloc-Allocated slab-IsValid

free_taken_example :
    (next : MemAux) × (Mem.free slab 0 0 ≡ ok next)
    × (next.used + 1 ≡ 1)
    × (chunk_at next.zones 0 0 ≡ some (record taken_chunk { taken = 0 }))
    × ((y j : ℕ) → (0 ≢ y) ⊎ (0 ≢ j) → chunk_at next.zones y j ≡ chunk_at slab.zones y j)
    × Mem.Valid.IsValid next
free_taken_example = free_taken 0 0 slab-IsValid refl (omega arith)
