-- ===== src/Varray/Sized.antt =====
-- Insertions below the capacity do not change it.
use vdht.Base.{
  ℕ, ◌+◌, ◌-◌, ◌<◌, ◌≡◌, refl, ltb, leb, pos, true, Bool-cases, Option, none, some, List, inl, inr,
  ok, fault, Run, leb-false, ℤ, ◌>>=◌,
}
use mathlib.Core.Path.{subst}
use vdht.Varray
use vdht.Varray.{Varray}

-- What holds of the result of code that does not fault.
abbrev Given {ℓ κ} : {A : Type ℓ} → (A → Type κ) → Run A → Type κ
Given P fault = Unit
Given P (ok x) = P x

bind-Given {ℓ κ μ} :
    {A : Type ℓ} {B : Type κ} (P : B → Type μ) (m : Run A) (f : A → Run B)
    → ((x : A) → Given P (f x))
    → Given P (m >>= f)
bind-Given P fault f h = tt
bind-Given P (ok x) f h = h x

then-Given {ℓ κ μ ν} :
    {A : Type ℓ} {B : Type κ} (P : A → Type μ) (Q : B → Type ν) (m : Run A) (f : A → Run B)
    → Given P m
    → ((x : A) → P x → Given Q (f x))
    → Given Q (m >>= f)
then-Given P Q fault f p h = tt
then-Given P Q (ok x) f p h = h x p

module _ {ℓ} {A : Type ℓ} where
  abbrev Sized : ℕ → Varray A → Type 0
  Sized c w = w.capc ≡ c

  abbrev Keeps : ℕ → Option (Varray A) → Type 0
  Keeps c none = Unit
  Keeps c (some w) = Sized c w

  add_into-Sized :
      (v : Varray A) (items : Option (List (Option A))) (idx : ℕ) (new : A)
      → Given (Sized v.capc) (Varray.add_into v items idx (some new))
  unfolding Varray.add_into
  add_into-Sized v none idx new = tt
  add_into-Sized v (some buf) idx new =
      bind-Given (Sized v.capc) (Varray.shift_up idx (v.used + 1 - idx) buf) _
        (λ b. bind-Given (Sized v.capc) (Varray.store b idx (some new)) _ (λ c. refl))

  tail_into-Sized :
      (v : Varray A) (items : Option (List (Option A))) (new : A)
      → Given (Sized v.capc) (Varray.tail_into v items (some new))
  unfolding Varray.tail_into
  tail_into-Sized v none new = tt
  tail_into-Sized v (some buf) new =
      bind-Given (Sized v.capc) (Varray.store buf v.used (some new)) _ (λ b. refl)

  reserve_lem : (v : Varray A) → v.used < v.capc → Varray.reserve true v ≡ ok (some v)
  unfolding Varray.reserve
  reserve_lem v room = rw (leb-false v.capc v.used room)

  add-Keeps :
      (v : Varray A) (idx : ℕ) (new : A)
      → v.used < v.capc
      → Given (Keeps v.capc) (Varray.add true v (pos idx) (some new))
  unfolding Varray.add Varray.add_reserved
  add-Keeps v idx new room = elim (Bool-cases (leb v.used idx)) [
    | inl e ↦ rw e tt
    | inr e ↦
        rw (e, reserve_lem v room)
          (then-Given (Sized v.capc) (Keeps v.capc) (Varray.add_into v v.items idx (some new)) _
            (add_into-Sized v v.items idx new) (λ w p. p))
  ]

  add_tail-Keeps :
      (v : Varray A) (new : A)
      → v.used < v.capc
      → Given (Keeps v.capc) (Varray.add_tail true v (some new))
  unfolding Varray.add_tail Varray.tail_reserved
  add_tail-Keeps v new room = rw (reserve_lem v room) (
      then-Given (Sized v.capc) (Keeps v.capc) (Varray.tail_into v v.items (some new)) _
        (tail_into-Sized v v.items new) (λ w p. p))

  sorted_add-Keeps :
      (cmp_cb : A → A → ℤ) (v : Varray A) (new : A)
      → v.used < v.capc
      → Given (Keeps v.capc) (Varray.sorted_add cmp_cb true v (some new))
  unfolding Varray.sorted_add
  sorted_add-Keeps cmp_cb v new room =
      bind-Given (Keeps v.capc) (Varray.find_place cmp_cb new v v.used 0) _ (λ i.
        elim (Bool-cases (ltb i v.used)) [
          | inl e ↦ rw e (add-Keeps v i new room)
          | inr e ↦ rw e (add_tail-Keeps v new room)
        ])

  -- vsorted_array_add to an array with a slot free keeps the capacity.
  pub sorted_add-capc :
      (cmp_cb : A → A → ℤ) (v : Varray A) (new : A) {w : Varray A}
      → v.used < v.capc
      → Varray.sorted_add cmp_cb true v (some new) ≡ ok (some w)
      → w.capc ≡ v.capc
  sorted_add-capc cmp_cb v new room e =
      subst (Given (Keeps v.capc)) e (sorted_add-Keeps cmp_cb v new room)
