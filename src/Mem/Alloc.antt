-- ===== src/Mem/Alloc.antt =====
-- utils/vmem.c: vmem_aux_alloc and vmem_aux_free on a valid slab.
use vdht.Base.{
  ℕ, zero, suc, ◌+◌, ◌-◌, ◌<◌, ◌≤◌, ◌≡◌, ◌≢◌, refl, ap, ◌∙◌, ltb, leb, true, some, List, [], ◌∷◌,
  ◌++◌, replicate, length-append, ok, arith, inl, inr, ◌⊎◌, Bool-cases, if◌then◌else◌, All-append,
  leb→le,
}
use vdht.Mem
use vdht.Mem.{Chunk, MemAux, chunk_magic, free_chunk, chunk_at, zone_at}
use vdht.Mem.Valid.{
  IsValid, IsZone, count, count_zone, is_taken, search_zones_lem, chunk_at-mark, chunk_at-mark_ne,
  count-mark, IsZone-mark, length-mark, magic_at,
}

-- Every chunk that is there stays as it is.
abbrev pub Keeps : List (List Chunk) → List (List Chunk) → Type 0
Keeps before after =
    (y j : ℕ) (d : Chunk) → chunk_at before y j ≡ some d → chunk_at after y j ≡ some d

chunk_at-append : (zones : List (List Chunk)) (new : List Chunk) → Keeps zones (zones ++ new ∷ [])
chunk_at-append [] new y j d e = cc
chunk_at-append (zone ∷ zones) new zero j d e = e
chunk_at-append (zone ∷ zones) new (suc y) j d e = chunk_at-append zones new y j d e

IsZone-replicate :
    (n : ℕ) → IsZone n (replicate n free_chunk) × (count_zone (replicate n free_chunk) ≡ 0)
IsZone-replicate zero = ((refl, tt), refl)
IsZone-replicate (suc n) =
    let rest = IsZone-replicate n in ((ap suc rest.0.0, (refl, rest.0.1)), omega (arith, rest.1))

count-append : (zones more : List (List Chunk)) → count (zones ++ more) ≡ count zones + count more
count-append [] more = omega arith
count-append (zone ∷ zones) more = omega (arith, count-append zones more)

abbrev extended : MemAux → MemAux
extended aux = record aux {
  zones = aux.zones ++ replicate aux.first free_chunk ∷ [];
  capc = aux.capc + aux.first;
}

extended-IsValid : (aux : MemAux) → IsValid aux → IsValid (extended aux)
extended-IsValid aux v =
    let new = IsZone-replicate aux.first in
    record {
      some_first = v.some_first;
      zones_full =
          All-append (IsZone aux.first) aux.zones (replicate aux.first free_chunk ∷ []) v.zones_full
            (new.0, tt);
      capacity =
          rw (length-append aux.zones (replicate aux.first free_chunk ∷ []), v.capacity)
            (omega arith);
      bounded = omega (arith, v.bounded);
      counted =
          omega
            (arith, v.counted, new.1, count-append aux.zones (replicate aux.first free_chunk ∷ []));
    }

-- After the guarded call of `_aux_extend` a chunk is free.
roomy :
    (aux : MemAux)
    → IsValid aux
    → (g : MemAux) × ((if leb aux.capc aux.used then Mem.extend true aux else ok (some aux))
        ≡ ok (some g))
      × IsValid g
      × (g.used < g.capc)
      × (g.used ≡ aux.used)
      × Keeps aux.zones g.zones
unfolding Mem.extend
roomy aux v = elim (Bool-cases (leb aux.capc aux.used)) [
  | inr e ↦ (aux, rw e, v, ground arith, refl, λ y j d at. at)
  | inl e ↦
      let full : aux.capc ≤ aux.used = leb→le _ _ e in
      elim (Bool-cases (ltb aux.used aux.capc)) [
        | inl f ↦ absurd (ground arith)
        | inr f ↦ (
          extended aux,
          rw (e, f),
          extended-IsValid aux v,
          omega (arith, v.some_first, v.bounded),
          refl,
          chunk_at-append aux.zones _,
        )
      ]
]

-- An allocation hands out a chunk that was not in use.
pub record Allocated (aux next : MemAux) (z i : ℕ) : Type 0 where
  pub was_free : (d : Chunk) → chunk_at aux.zones z i ≡ some d → d.taken ≡ 0
  pub now_taken : chunk_at next.zones z i ≡ some (record { magic = chunk_magic; taken = 1 })
  pub others_kept :
      (y j : ℕ) (d : Chunk)
      → (z ≢ y) ⊎ (i ≢ j)
      → chunk_at aux.zones y j ≡ some d
      → chunk_at next.zones y j ≡ some d
  pub one_more : next.used ≡ aux.used + 1
  pub valid : IsValid next

-- On a valid slab, with memory to grow, vmem_aux_alloc passes its assertions and hands out a chunk
-- that was not in use; that chunk is in use afterwards, every other chunk is as it was, one more
-- object is counted, and the slab is valid again.
pub alloc-Allocated :
    {aux : MemAux}
    → IsValid aux
    → (z : ℕ) × (i : ℕ) × (next : MemAux) × (Mem.alloc true aux ≡ ok (some (z, i), next))
      × Allocated aux next z i
unfolding Mem.alloc Mem.alloc_extended Mem.take_chunk
alloc-Allocated {aux} v =
    let (g, run, valid, room, same, keeps) = roomy aux v in
    elim (search_zones_lem g.first g.zones valid.zones_full) [
      | inl (none_free, all) ↦ absurd (omega (arith, valid.capacity, valid.counted))
      | inr (z, i, c, search, at, free) ↦
          let magic = magic_at g.first g.zones z i valid.zones_full at in
          let marked = count-mark g.zones z i 1 at in
          (
            z,
            i,
            record g { used = g.used + 1; zones = Mem.mark g.zones z i 1 },
            rw (run, search),
            record {
              was_free = λ d e. ground (arith, keeps z i d e);
              now_taken =
                  chunk_at-mark g.zones z i 1 at
                  ∙ ap (λ m. some (record { magic = m; taken = 1 })) magic;
              others_kept = λ y j d ne e. chunk_at-mark_ne g.zones z i 1 at y j ne ∙ keeps y j d e;
              one_more = omega arith;
              valid = record {
                some_first = valid.some_first;
                zones_full = IsZone-mark g.zones z i 1 at g.first valid.zones_full;
                capacity = rw (length-mark g.zones z i 1 at) valid.capacity;
                bounded = omega arith;
                counted = ground (arith, marked, valid.counted);
              };
            },
          )
    ]

-- On a valid slab, vmem_aux_free of an object in use passes its assertion, marks that chunk free
-- and no other, counts one object less, and leaves a valid slab.
pub free_taken :
    {aux : MemAux} (z i : ℕ) {c : Chunk}
    → IsValid aux
    → chunk_at aux.zones z i ≡ some c
    → c.taken ≢ 0
    → (next : MemAux) × (Mem.free aux z i ≡ ok next)
      × (next.used + 1 ≡ aux.used)
      × (chunk_at next.zones z i ≡ some (record c { taken = 0 }))
      × ((y j : ℕ) → (z ≢ y) ⊎ (i ≢ j) → chunk_at next.zones y j ≡ chunk_at aux.zones y j)
      × IsValid next
unfolding Mem.free
free_taken {aux} z i {c} v at taken =
    let magic = magic_at aux.first aux.zones z i v.zones_full at in
    let marked = count-mark aux.zones z i 0 at in
    let busy : is_taken c ≡ 1 = ground arith in
    (
      record aux { used = aux.used - 1; zones = Mem.mark aux.zones z i 0 },
      rw (at, magic),
      ground (arith, marked, v.counted),
      chunk_at-mark aux.zones z i 0 at,
      chunk_at-mark_ne aux.zones z i 0 at,
      record {
        some_first = v.some_first;
        zones_full = IsZone-mark aux.zones z i 0 at aux.first v.zones_full;
        capacity = rw (length-mark aux.zones z i 0 at) v.capacity;
        bounded = omega (arith, v.bounded);
        counted = ground (arith, marked, v.counted);
      },
    )

-- On a valid slab with an object in use, vmem_aux_free of a chunk that is not in use passes its
-- assertion and counts one object less than there are in use.
pub free_twice :
    {aux : MemAux} (z i : ℕ) {c : Chunk}
    → IsValid aux
    → chunk_at aux.zones z i ≡ some c
    → c.taken ≡ 0
    → 0 < aux.used
    → (next : MemAux) × (Mem.free aux z i ≡ ok next) × (next.used + 1 ≡ count next.zones)
unfolding Mem.free
free_twice {aux} z i {c} v at idle some_used =
    let magic = magic_at aux.first aux.zones z i v.zones_full at in
    let marked = count-mark aux.zones z i 0 at in
    (
      record aux { used = aux.used - 1; zones = Mem.mark aux.zones z i 0 },
      rw (at, magic),
      ground (arith, marked, v.counted),
    )
