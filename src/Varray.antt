-- ===== src/Varray.antt =====
-- utils/varray.c, utils/varray.h: the growable array of pointers and its sorted variant.
-- A slot holds a pointer, or `none` for NULL or for memory that nothing has written.
-- An access outside the allocated block is a `fault`. `mem` says whether `realloc` succeeds.
-- An operation that returns -1 leaves the array as it is and is modelled by `none`.
pub mod Holds
pub mod Ends
pub mod Walk
pub mod Middle
pub mod Sorted
pub mod Sized
pub mod Remove
use vdht.Base.{
  ℕ, zero, suc, ◌+◌, ◌-◌, ◌*◌, ◌/◌, ◌==◌, ltb, leb, if◌then◌else◌, ◌&&◌, ℤ, pos, negsuc, Bool, true,
  false, Option, none, some, List, [], ◌∷◌, ◌++◌, length, get_elem?, set, take, replicate, Run, ok,
  fault, ◌>>=◌,
}

-- `struct varray`
pub record Varray {ℓ} (A : Type ℓ) : Type ℓ where
  pub used : ℕ
  pub capc : ℕ
  pub first : ℕ
  pub items : Option (List (Option A))

module _ {ℓ} {A : Type ℓ} where
  -- a read and a write through `items`
  unfoldable pub load : List (Option A) → ℕ → Run (Option A)
  load buf i = elim (get_elem? buf i) [ none ↦ fault | some s ↦ ok s ]

  unfoldable pub store : List (Option A) → ℕ → Option A → Run (List (Option A))
  store buf i s = if ltb i (length buf) then ok (set buf i s) else fault

  -- `realloc` keeps what fits and leaves the rest unwritten.
  unfoldable pub realloc : Option (List (Option A)) → ℕ → List (Option A)
  realloc none n = replicate n none
  realloc (some buf) n = take n buf ++ replicate (n - length buf) none

  unfoldable pub init : ℕ → Varray A
  init first_capc = record {
    used = 0;
    capc = 0;
    first = if first_capc == 0 then 32 else first_capc;
    items = none;
  }

  abbrev pub size : Varray A → ℕ
  size v = v.used

  get_from : Option (List (Option A)) → ℕ → ℕ → Run (Option A)
  unfolding load
  get_from none used idx = ok none
  get_from (some buf) used idx = if leb used idx then ok none else load buf idx

  unfoldable pub get : Varray A → ℤ → Run (Option A)
  unfolding get_from
  get v (negsuc n) = ok none
  get v (pos idx) = get_from v.items v.used idx

  set_from : Varray A → Option (List (Option A)) → ℕ → Option A → Run (Option (Varray A))
  unfolding store
  set_from v none idx item = ok none
  set_from v (some buf) idx item =
      if leb v.used idx
      then ok none
      else (store buf idx item >>= λ b. ok (some (record v { items = some b })))

  -- `varray_set`
  unfoldable pub assign : Varray A → ℤ → Option A → Run (Option (Varray A))
  unfolding set_from
  assign v idx none = ok none
  assign v (negsuc n) (some x) = ok none
  assign v (pos idx) (some x) = set_from v v.items idx (some x)

  -- `_aux_extend`, with its `vassert`
  unfoldable pub extend : Bool → Varray A → Run (Option (Varray A))
  unfolding realloc
  extend mem v =
      let capc = if v.capc == 0 then v.first else v.capc * 2 in
      if ltb v.used v.capc
      then fault
      else if mem
      then ok (some (record v { capc = capc; items = some (realloc v.items capc) }))
      else ok none

  -- the call of `_aux_extend` that guards both insertions
  unfoldable pub reserve : Bool → Varray A → Run (Option (Varray A))
  unfolding extend
  reserve mem v = if leb v.capc v.used then extend mem v else ok (some v)

  -- `for (i = idx + n - 1; i >= idx; i--) items[i + 1] = items[i]`
  unfoldable pub shift_up : ℕ → ℕ → List (Option A) → Run (List (Option A))
  unfolding load store
  shift_up idx zero buf = ok buf
  shift_up idx (suc n) buf =
      load buf (idx + n) >>= λ s. store buf (idx + n + 1) s >>= λ b. shift_up idx n b

  add_into : Varray A → Option (List (Option A)) → ℕ → Option A → Run (Varray A)
  unfolding shift_up store
  add_into v none idx new = fault
  add_into v (some buf) idx new = shift_up idx (v.used + 1 - idx) buf >>= λ b.
      store b idx new >>= λ c. ok (record v { used = v.used + 1; items = some c })

  add_reserved : Option (Varray A) → ℕ → Option A → Run (Option (Varray A))
  unfolding add_into
  add_reserved none idx new = ok none
  add_reserved (some v) idx new = add_into v v.items idx new >>= λ w. ok (some w)

  unfoldable pub add : Bool → Varray A → ℤ → Option A → Run (Option (Varray A))
  unfolding reserve add_reserved
  add mem v (negsuc n) new = ok none
  add mem v (pos idx) none = ok none
  add mem v (pos idx) (some x) =
      if leb v.used idx then ok none else (reserve mem v >>= λ r. add_reserved r idx (some x))

  tail_into : Varray A → Option (List (Option A)) → Option A → Run (Varray A)
  unfolding store
  tail_into v none item = fault
  tail_into v (some buf) item =
      store buf v.used item >>= λ b. ok (record v { used = v.used + 1; items = some b })

  tail_reserved : Option (Varray A) → Option A → Run (Option (Varray A))
  unfolding tail_into
  tail_reserved none item = ok none
  tail_reserved (some v) item = tail_into v v.items item >>= λ w. ok (some w)

  unfoldable pub add_tail : Bool → Varray A → Option A → Run (Option (Varray A))
  unfolding reserve tail_reserved
  add_tail mem v none = ok none
  add_tail mem v (some x) = reserve mem v >>= λ r. tail_reserved r (some x)

  -- `_aux_shrink`, with its `vassert`s
  shrink_from : Bool → Varray A → Option (List (Option A)) → Run (Option (Varray A))
  unfolding realloc
  shrink_from mem v none = fault
  shrink_from mem v (some buf) =
      if ltb v.capc (v.used * 2)
      then fault
      else if v.capc == v.first
      then ok (some v)
      else if mem
      then ok
          (some (record v { capc = v.capc / 2; items = some (realloc (some buf) (v.capc / 2)) }))
      else ok none

  unfoldable pub shrink : Bool → Varray A → Run (Option (Varray A))
  unfolding shrink_from
  shrink mem v = shrink_from mem v v.items

  -- the call of `_aux_shrink` that guards both removals
  unfoldable pub release : Bool → Varray A → Run (Option (Varray A))
  unfolding shrink
  release mem v =
      if leb v.first v.capc && ltb (v.used * 2) v.capc then shrink mem v else ok (some v)

  -- `for (i = idx; i < idx + n; i++) items[i] = items[i + 1]`
  unfoldable pub shift_down : ℕ → ℕ → List (Option A) → Run (List (Option A))
  unfolding load store
  shift_down i zero buf = ok buf
  shift_down i (suc n) buf = load buf (i + 1) >>= λ s. store buf i s >>= λ b. shift_down (i + 1) n b

  del_from : Varray A → Option (List (Option A)) → ℕ → Run (Option A × Varray A)
  unfolding load shift_down store
  del_from v none idx = fault
  del_from v (some buf) idx = load buf idx >>= λ item. shift_down idx (v.used - idx) buf >>= λ b.
      store b v.used none >>= λ c. ok (item, record v { used = v.used - 1; items = some c })

  del_released : Varray A → Option (Varray A) → ℕ → Run (Option A × Varray A)
  unfolding del_from
  del_released v none idx = ok (none, v)
  del_released v (some w) idx = del_from w w.items idx

  unfoldable pub del : Bool → Varray A → ℤ → Run (Option A × Varray A)
  unfolding release del_released
  del mem v (negsuc n) = ok (none, v)
  del mem v (pos idx) =
      if leb v.used idx then ok (none, v) else (release mem v >>= λ r. del_released v r idx)

  -- `items[--used]`; index -1 is a fault
  pop_from : Varray A → Option (List (Option A)) → ℕ → Run (Option A × Varray A)
  unfolding load store
  pop_from v none n = fault
  pop_from v (some buf) zero = fault
  pop_from v (some buf) (suc n) = load buf n >>= λ item.
      store buf n none >>= λ b. ok (item, record v { used = n; items = some b })

  pop_released : Varray A → Option (Varray A) → Run (Option A × Varray A)
  unfolding pop_from
  pop_released v none = ok (none, v)
  pop_released v (some w) = pop_from w w.items w.used

  unfoldable pub pop_tail : Bool → Varray A → Run (Option A × Varray A)
  unfolding release pop_released
  pop_tail mem v = release mem v >>= λ r. pop_released v r

-- `varray_iterate`: `cb` gets the item and its cookie, may change the item behind the pointer, and
-- stops the loop by `true`. A NULL item is dereferenced by every callback of the program.
module _ {ℓ κ} {A : Type ℓ} {S : Type κ} (cb : A → S → A × S × Bool) where
  unfoldable pub iterate_from : ℕ → ℕ → List (Option A) → S → Run (List (Option A) × S)
  unfolding load store
  iterate_from zero i buf s = ok (buf, s)
  iterate_from (suc n) i buf s = load buf i >>= λ slot. elim slot [
    | none ↦ fault
    | some a ↦
        let (a', s', stop) = cb a s in
        (store buf i (some a') >>= λ b. elim stop [
          | true ↦ ok (b, s')
          | false ↦ iterate_from n (i + 1) b s'
        ])
  ]

  iterate_items : Varray A → Option (List (Option A)) → S → Run (Varray A × S)
  unfolding iterate_from
  iterate_items v none s = if v.used == 0 then ok (v, s) else fault
  iterate_items v (some buf) s =
      iterate_from v.used 0 buf s >>= λ r. ok (record v { items = some r.0 }, r.1)

  unfoldable pub iterate : Varray A → S → Run (Varray A × S)
  unfolding iterate_items
  iterate v s = iterate_items v v.items s

-- `varray_zero` on fuel; `none` is fuel that ran out.
module _ {ℓ κ} {A : Type ℓ} {S : Type κ} (zero_cb : Option A → S → Run S) (mem : Bool) where
  unfoldable pub drain : ℕ → Varray A → S → Run (Option (Varray A × S))
  unfolding pop_tail
  drain zero v s = ok none
  drain (suc fuel) v s = elim (ltb 0 v.used) [
    | false ↦ ok (some (v, s))
    | true ↦ pop_tail mem v >>= λ r. zero_cb r.0 s >>= λ t. drain fuel r.1 t
  ]

-- `vsorted_array_add`: the first index whose item does not stand before `new`.
module _ {ℓ} {A : Type ℓ} (cmp_cb : A → A → ℤ) where
  unfoldable pub find_place : A → Varray A → ℕ → ℕ → Run ℕ
  unfolding get
  find_place new v zero i = ok i
  find_place new v (suc n) i = get v (pos i) >>= λ slot. elim slot [
    | none ↦ fault
    | some item ↦ elim (cmp_cb item new) [ pos _ ↦ ok i | negsuc _ ↦ find_place new v n (i + 1) ]
  ]

  unfoldable pub sorted_add : Bool → Varray A → Option A → Run (Option (Varray A))
  unfolding find_place add add_tail
  sorted_add mem v none = ok none
  sorted_add mem v (some new) = find_place new v v.used 0 >>= λ i.
      if ltb i v.used then add mem v (pos i) (some new) else add_tail mem v (some new)

abbrev is_zero : ℤ → Bool
is_zero (pos n) = n == 0
is_zero (negsuc n) = false

-- `vsorted_array_del`. `cmp_ref` is the comparison with the cookie that this function gives it,
-- which is the address of the field and not what the field holds.
module _ {ℓ} {A : Type ℓ} (cmp_ref : A → A → ℤ) where
  unfoldable pub find_equal : A → Varray A → ℕ → ℕ → Run ℕ
  unfolding get
  find_equal todel v zero i = ok i
  find_equal todel v (suc n) i = get v (pos i) >>= λ slot. elim slot [
    | none ↦ fault
    | some item ↦ elim (is_zero (cmp_ref todel item)) [
      | true ↦ ok i
      | false ↦ find_equal todel v n (i + 1)
    ]
  ]

  unfoldable pub sorted_del : Bool → Varray A → Option A → Run (Option A × Varray A)
  unfolding find_equal
  sorted_del mem v none = ok (none, v)
  sorted_del mem v (some todel) =
      find_equal todel v v.used 0 >>= λ i. if leb v.used i then ok (none, v) else del mem v (pos i)

-- `vsorted_array_init`, and the operations of a sorted array that pass on to its array
module _ {ℓ} {A : Type ℓ} where
  unfoldable pub sorted_init : ℕ → Varray A
  unfolding init
  sorted_init first_capc = init first_capc

  abbrev pub sorted_size : Varray A → ℕ
  sorted_size v = size v

  unfoldable pub sorted_get : Varray A → ℤ → Run (Option A)
  unfolding get
  sorted_get v idx = get v idx

module _ {ℓ κ} {A : Type ℓ} {S : Type κ} where
  unfoldable pub sorted_iterate : (A → S → A × S × Bool) → Varray A → S → Run (Varray A × S)
  unfolding iterate
  sorted_iterate cb v s = iterate cb v s

  unfoldable pub sorted_zero :
      (Option A → S → Run S) → Bool → ℕ → Varray A → S → Run (Option (Varray A × S))
  unfolding drain
  sorted_zero zero_cb mem fuel v s = drain zero_cb mem fuel v s
