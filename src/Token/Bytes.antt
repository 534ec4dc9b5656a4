-- ===== src/Token/Bytes.antt =====
-- Facts about bytes, each checked for every value.
use vdht.Base.{
  ℕ, zero, suc, ◌<◌, ◌≡◌, refl, ◌==◌, ltb, Bool, true, false, ◌&&◌, ◌||◌, if◌then◌else◌, not, ◌^◌,
  bit_and, bit_xor, arith,
}

-- Whether a test passes on all numbers below a bound.
every : (ℕ → Bool) → ℕ → Bool
every test zero = true
every test (suc bound) = if test bound then every test bound else false

every-lt : (test : ℕ → Bool) (bound v : ℕ) → v < bound → every test bound ≡ true → test v ≡ true
unfolding every
every-lt test zero v lt passed = absurd (omega arith)
every-lt test (suc bound) v lt passed = ground (arith, every-lt test bound v)

abbrev xor_laws : ℕ → ℕ → Bool
xor_laws x y =
    (bit_xor x (bit_xor x y) == y) && ((bit_xor x y == bit_xor y x) && ltb (bit_xor x y) 256)

xor_table : every (λ x. every (xor_laws x) 256) 256 ≡ true
unfolding every
xor_table = refl

module _ (x y : ℕ) (small : x < 256) (less : y < 256) where
  pub xor_bytes : (bit_xor x (bit_xor x y) ≡ y) × (bit_xor x y ≡ bit_xor y x) × (bit_xor x y < 256)
  xor_bytes =
      let with_x = every-lt (λ v. every (xor_laws v) 256) 256 x small xor_table in
      let laws = every-lt (xor_laws x) 256 y less with_x in ground arith

abbrev iff : Bool → Bool → Bool
iff true b = b
iff false b = not b

-- The test of bit `r` of a byte below `2 ^ (r + 1)`.
abbrev top_bit : ℕ → ℕ → Bool
top_bit r x = not (ltb x (2 ^ suc r)) || iff (bit_and (2 ^ r) x == 0) (ltb x (2 ^ r))

top_bit_table : every (λ r. every (top_bit r) 256) 8 ≡ true
unfolding every
top_bit_table = refl

pub bit_and_top :
    (r x : ℕ) → r < 8 → x < 256 → x < 2 ^ suc r → (bit_and (2 ^ r) x == 0) ≡ ltb x (2 ^ r)
bit_and_top r x hr hx h =
    let with_r = every-lt (λ v. every (top_bit v) 256) 8 r hr top_bit_table in
    let fits = every-lt (top_bit r) 256 x hx with_r in ground arith
