-- ===== src/Mem/Valid.antt =====
-- What a slab holds, and the laws of allocation and release.
use vdht.Base.{
  ℕ, zero, suc, ◌+◌, ◌*◌, ◌<◌, ◌≤◌, ◌≡◌, ◌≢◌, refl, ◌==◌, none, some, List, [], ◌∷◌, length,
  get_elem?, set, length-set, ok, arith, inl, inr, ◌⊎◌, Bool-cases, if◌then◌else◌, All,
  get_elem?-set_self, get_elem?-set_ne,
}
use mathlib.Core.Path.{subst}
use mathlib.Core.Option.{some-injective}
use vdht.Mem
use vdht.Mem.{Chunk, MemAux, chunk_magic, free_chunk, chunk_at, zone_at}

-- chunks in use
abbrev pub is_taken : Chunk → ℕ
is_taken c = if c.taken == 0 then 0 else 1

abbrev pub count_zone : List Chunk → ℕ
count_zone [] = 0
count_zone (c ∷ zone) = is_taken c + count_zone zone

abbrev pub count : List (List Chunk) → ℕ
count [] = 0
count (zone ∷ zones) = count_zone zone + count zones

abbrev pub IsZone : ℕ → List Chunk → Type 0
IsZone first zone = (length zone ≡ first) × All (λ c. c.magic ≡ chunk_magic) zone

pub record IsValid (aux : MemAux) : Type 0 where
  pub some_first : 0 < aux.first
  pub zones_full : All (IsZone aux.first) aux.zones
  pub capacity : aux.capc ≡ length aux.zones * aux.first
  pub bounded : aux.used ≤ aux.capc
  pub counted : aux.used ≡ count aux.zones

pub init-IsValid : (obj_sz first_capc : ℕ) → IsValid (Mem.init obj_sz first_capc)
unfolding Mem.init
init-IsValid obj_sz first_capc = ground arith

first_free_lem :
    (n : ℕ) (zone : List Chunk)
    → length zone ≡ n
    → (Mem.first_free n zone ≡ ok none) × (count_zone zone ≡ n)
      ⊎ ((i : ℕ) × (c : Chunk) × (Mem.first_free n zone ≡ ok (some i))
          × (get_elem? zone i ≡ some c)
          × (c.taken ≡ 0))
unfolding Mem.first_free
first_free_lem zero [] e = inl (refl, refl)
first_free_lem zero (c ∷ zone) e = absurd (omega arith)
first_free_lem (suc n) [] e = absurd (omega arith)
first_free_lem (suc n) (c ∷ zone) e = elim (Bool-cases (c.taken == 0)) [
  | inl f ↦ inr (0, c, rw f, refl, ground arith)
  | inr f ↦ elim (first_free_lem n zone (omega arith)) [
    | inl (run, full) ↦ inl (rw (f, run), rw f (omega arith))
    | inr (i, d, run, at, free) ↦ inr (suc i, d, rw (f, run), at, free)
  ]
]

pub search_zones_lem :
    (first : ℕ) (zones : List (List Chunk))
    → All (IsZone first) zones
    → (Mem.search_zones first zones ≡ ok none) × (count zones ≡ length zones * first)
      ⊎ ((z : ℕ) × (i : ℕ) × (c : Chunk) × (Mem.search_zones first zones ≡ ok (some (z, i)))
          × (chunk_at zones z i ≡ some c)
          × (c.taken ≡ 0))
unfolding Mem.search_zones
search_zones_lem first [] a = inl (refl, omega arith)
search_zones_lem first (zone ∷ zones) a = elim (first_free_lem first zone a.0.0) [
  | inr (i, c, run, at, free) ↦ inr (0, i, c, rw run, at, free)
  | inl (run, full) ↦ elim (search_zones_lem first zones a.1) [
    | inl (more, all) ↦ inl (rw (run, more), grind arith)
    | inr (z, i, c, more, at, free) ↦ inr (suc z, i, c, rw (run, more), at, free)
  ]
]

-- One chunk of one zone replaced.
count_zone-set :
    (zone : List Chunk) (i : ℕ) (c d : Chunk)
    → get_elem? zone i ≡ some c
    → count_zone (set zone i d) + is_taken c ≡ count_zone zone + is_taken d
count_zone-set [] i c d e = cc
count_zone-set (x ∷ zone) zero c d e = ground arith
count_zone-set (x ∷ zone) (suc i) c d e = omega (arith, count_zone-set zone i c d e)

count-set :
    (zones : List (List Chunk)) (z i : ℕ) (c d : Chunk)
    → chunk_at zones z i ≡ some c
    → count (set zones z (set (zone_at zones z) i d)) + is_taken c ≡ count zones + is_taken d
count-set [] z i c d e = cc
count-set (zone ∷ zones) zero i c d e = omega (arith, count_zone-set zone i c d e)
count-set (zone ∷ zones) (suc z) i c d e = omega (arith, count-set zones z i c d e)

All-set {ℓ κ} :
    {A : Type ℓ} (P : A → Type κ) (xs : List A) (i : ℕ) (v : A)
    → All P xs
    → P v
    → All P (set xs i v)
All-set P [] i v a p = a
All-set P (x ∷ xs) zero v a p = (p, a.1)
All-set P (x ∷ xs) (suc i) v a p = (a.0, All-set P xs i v a.1 p)

All-get {ℓ κ} :
    {A : Type ℓ} (P : A → Type κ) (xs : List A) (i : ℕ) {v : A}
    → All P xs
    → get_elem? xs i ≡ some v
    → P v
All-get P [] i a e = cc
All-get P (x ∷ xs) zero a e = subst P (some-injective _ _ e) a.0
All-get P (x ∷ xs) (suc i) a e = All-get P xs i a.1 e

IsZone-set :
    (first : ℕ) (zones : List (List Chunk)) (z i t : ℕ) {c : Chunk}
    → All (IsZone first) zones
    → chunk_at zones z i ≡ some c
    → All (IsZone first) (set zones z (set (zone_at zones z) i (record c { taken = t })))
IsZone-set first [] z i t a e = a
IsZone-set first (zone ∷ zones) zero i t {c} a e =
    let magic = All-get (λ (d : Chunk). d.magic ≡ chunk_magic) zone i a.0.1 e in
    (
      (
        rw length-set a.0.0,
        All-set (λ d. d.magic ≡ chunk_magic) zone i (record c { taken = t }) a.0.1 magic,
      ),
      a.1,
    )
IsZone-set first (zone ∷ zones) (suc z) i t a e = (a.0, IsZone-set first zones z i t a.1 e)

pub magic_at :
    (first : ℕ) (zones : List (List Chunk)) (z i : ℕ) {c : Chunk}
    → All (IsZone first) zones
    → chunk_at zones z i ≡ some c
    → c.magic ≡ chunk_magic
magic_at first [] z i a e = cc
magic_at first (zone ∷ zones) zero i a e =
    All-get (λ (d : Chunk). d.magic ≡ chunk_magic) zone i a.0.1 e
magic_at first (zone ∷ zones) (suc z) i a e = magic_at first zones z i a.1 e

get_elem?-lt {ℓ} :
    {A : Type ℓ} (xs : List A) (i : ℕ) {v : A} → get_elem? xs i ≡ some v → i < length xs
get_elem?-lt [] i e = cc
get_elem?-lt (x ∷ xs) zero e = omega arith
get_elem?-lt (x ∷ xs) (suc i) e = omega (arith, get_elem?-lt xs i e)

chunk_at-set :
    (zones : List (List Chunk)) (z i : ℕ) (c d : Chunk)
    → chunk_at zones z i ≡ some c
    → chunk_at (set zones z (set (zone_at zones z) i d)) z i ≡ some d
chunk_at-set [] z i c d e = cc
chunk_at-set (zone ∷ zones) zero i c d e = get_elem?-set_self zone i d (get_elem?-lt zone i e)
chunk_at-set (zone ∷ zones) (suc z) i c d e = chunk_at-set zones z i c d e

chunk_at-set_ne :
    (zones : List (List Chunk)) (z i y j : ℕ) (d : Chunk)
    → (z ≢ y) ⊎ (i ≢ j)
    → chunk_at (set zones z (set (zone_at zones z) i d)) y j ≡ chunk_at zones y j
chunk_at-set_ne [] z i y j d h = refl
chunk_at-set_ne (zone ∷ zones) zero i zero j d h = get_elem?-set_ne zone d (ground arith)
chunk_at-set_ne (zone ∷ zones) zero i (suc y) j d h = refl
chunk_at-set_ne (zone ∷ zones) (suc z) i zero j d h = refl
chunk_at-set_ne (zone ∷ zones) (suc z) i (suc y) j d h =
    chunk_at-set_ne zones z i y j d (ground arith)

module _ (zones : List (List Chunk)) (z i t : ℕ) {c : Chunk}
    (at : chunk_at zones z i ≡ some c) where
  mark_lem : Mem.mark zones z i t ≡ set zones z (set (zone_at zones z) i (record c { taken = t }))
  unfolding Mem.mark
  mark_lem = rw (at, Mem.mark)

  pub chunk_at-mark : chunk_at (Mem.mark zones z i t) z i ≡ some (record c { taken = t })
  chunk_at-mark = rw mark_lem (chunk_at-set zones z i c (record c { taken = t }) at)

  pub chunk_at-mark_ne :
      (y j : ℕ) → (z ≢ y) ⊎ (i ≢ j) → chunk_at (Mem.mark zones z i t) y j ≡ chunk_at zones y j
  chunk_at-mark_ne y j h = rw mark_lem (chunk_at-set_ne zones z i y j (record c { taken = t }) h)

  pub count-mark :
      count (Mem.mark zones z i t) + is_taken c ≡ count zones + is_taken (record c { taken = t })
  count-mark = rw mark_lem (count-set zones z i c (record c { taken = t }) at)

  pub IsZone-mark :
      (first : ℕ) → All (IsZone first) zones → All (IsZone first) (Mem.mark zones z i t)
  IsZone-mark first a = rw mark_lem (IsZone-set first zones z i t a at)

  pub length-mark : length (Mem.mark zones z i t) ≡ length zones
  length-mark = rw mark_lem (length-set zones z _)
