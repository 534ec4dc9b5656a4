-- ===== src/Mem.antt =====
-- utils/vmem.c, utils/vmem.h: the slab allocator of fixed-size objects.
-- An object is named by its zone and its index there. `mem` says whether the three `malloc` calls
-- of `_aux_extend` succeed. The lock is held during the whole of `alloc` and `free`.
pub mod Valid
pub mod Alloc
use vdht.Base.{
  ℕ, zero, suc, ◌+◌, ◌-◌, ◌==◌, ltb, leb, if◌then◌else◌, Bool, Option, none, some, List, [], ◌∷◌,
  ◌++◌, length, get_elem?, set, replicate, Run, ok, fault, ◌>>=◌,
}

-- `struct vmem_chunk` without its payload
pub record Chunk : Type 0 where
  pub magic : ℕ
  pub taken : ℕ

-- `struct vmem_aux`; a zone is its array of chunks
pub record MemAux : Type 0 where
  pub obj_sz : ℕ
  pub used : ℕ
  pub capc : ℕ
  pub first : ℕ
  pub zones : List (List Chunk)

abbrev pub chunk_magic : ℕ
chunk_magic = 0x87654312

abbrev pub free_chunk : Chunk
free_chunk = record { magic = chunk_magic; taken = 0 }

-- `vmem_aux_init` at sizes that are not negative
unfoldable pub init : ℕ → ℕ → MemAux
init obj_sz first_capc = record {
  obj_sz = obj_sz;
  used = 0;
  capc = 0;
  first = if ltb 0 first_capc then first_capc else 4;
  zones = [];
}

-- `_aux_extend`, with its `vassert`; `none` is the return of -1
unfoldable pub extend : Bool → MemAux → Run (Option MemAux)
extend mem aux =
    if ltb aux.used aux.capc
    then fault
    else if mem
    then ok (
        some (record aux {
          zones = aux.zones ++ replicate aux.first free_chunk ∷ [];
          capc = aux.capc + aux.first;
        }))
    else ok none

-- the inner loop of `vmem_aux_alloc`, over `first` chunks
unfoldable pub first_free : ℕ → List Chunk → Run (Option ℕ)
first_free zero zone = ok none
first_free (suc n) [] = fault
first_free (suc n) (c ∷ zone) =
    if c.taken == 0
    then ok (some 0)
    else (first_free n zone >>= λ r. elim r [ none ↦ ok none | some i ↦ ok (some (suc i)) ])

-- the outer loop, over the zones
unfoldable pub search_zones : ℕ → List (List Chunk) → Run (Option (ℕ × ℕ))
unfolding first_free
search_zones first [] = ok none
search_zones first (zone ∷ zones) = first_free first zone >>= λ r. elim r [
  | some i ↦ ok (some (0, i))
  | none ↦ search_zones first zones >>= λ q. elim q [
    | none ↦ ok none
    | some (z, i) ↦ ok (some (suc z, i))
  ]
]

abbrev pub zone_at : List (List Chunk) → ℕ → List Chunk
zone_at [] z = []
zone_at (zone ∷ zones) zero = zone
zone_at (zone ∷ zones) (suc z) = zone_at zones z

-- `zone->chunks[i]`
abbrev pub chunk_at : List (List Chunk) → ℕ → ℕ → Option Chunk
chunk_at zones z i = get_elem? (zone_at zones z) i

-- `zone->chunks[i]->taken = t`
unfoldable pub mark : List (List Chunk) → ℕ → ℕ → ℕ → List (List Chunk)
mark zones z i t = elim (chunk_at zones z i) [
  | none ↦ zones
  | some c ↦ set zones z (set (zone_at zones z) i (record c { taken = t }))
]

-- the part of `vmem_aux_alloc` behind the call of `_aux_extend`, with `vassert(found)`
take_chunk : MemAux → Option (ℕ × ℕ) → Run (Option (ℕ × ℕ) × MemAux)
unfolding mark
take_chunk aux none = fault
take_chunk aux (some (z, i)) =
    ok (some (z, i), record aux { used = aux.used + 1; zones = mark aux.zones z i 1 })

alloc_extended : MemAux → Option MemAux → Run (Option (ℕ × ℕ) × MemAux)
unfolding search_zones take_chunk
alloc_extended aux none = ok (none, aux)
alloc_extended aux (some grown) = search_zones grown.first grown.zones >>= λ r. take_chunk grown r

-- `vmem_aux_alloc`; the result NULL is `none`
unfoldable pub alloc : Bool → MemAux → Run (Option (ℕ × ℕ) × MemAux)
unfolding extend alloc_extended
alloc mem aux =
    (if leb aux.capc aux.used then extend mem aux else ok (some aux)) >>= λ r. alloc_extended aux r

-- `vmem_aux_free` of an object. The second `vassert` is an assignment, `taken = 1`, and never fails.
free_chunk_at : MemAux → ℕ → ℕ → Option Chunk → Run MemAux
unfolding mark
free_chunk_at aux z i none = fault
free_chunk_at aux z i (some c) =
    if c.magic == chunk_magic
    then ok (record aux { used = aux.used - 1; zones = mark aux.zones z i 0 })
    else fault

unfoldable pub free : MemAux → ℕ → ℕ → Run MemAux
unfolding free_chunk_at
free aux z i = free_chunk_at aux z i (chunk_at aux.zones z i)
