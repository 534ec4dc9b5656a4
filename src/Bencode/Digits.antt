-- ===== src/Bencode/Digits.antt =====
-- vdht_core.c: a printed number read again.
use mathlib.Core.Path.{subst}
use vdht.Base.{
  ltb-false, ltb→lt, lt→ltb, append_assoc, ℕ, zero, suc, ◌+◌, ◌-◌, ◌*◌, ◌/◌, ◌%◌, ◌^◌, ◌<◌, ◌≡◌,
  refl, ap, sym, ◌∙◌, ◌==◌, ltb, leb, true, false, [], ◌∷◌, ◌++◌, ℤ, pos, negsuc, arith, inl, inr,
  Bool-cases, leb-false,
}
use vdht.Bencode
use vdht.Bencode.{Bytes, got, is_digit, is_space, magnitude, narrow, Read, and_then}
use vdht.Bencode.Encode.{print_dec, print_int}
use vdht.TcktSpace
use vdht.TcktSpace.{to_int}

digit_lem : (d : ℕ) → d < 10 → is_digit (48 + d) ≡ true
digit_lem d h = ground arith

abbrev ten : ℕ → ℕ
ten zero = 1
ten (suc n) = 10 * ten n

scan_step :
    (c acc : ℕ) (cs : Bytes)
    → is_digit c ≡ true
    → Bencode.scan (c ∷ cs) acc ≡ Bencode.scan cs (acc * 10 + (c - 48))
unfolding Bencode.scan
scan_step c acc cs e = rw (e, Bencode.scan)

scan_stop :
    (c acc : ℕ) (cs : Bytes) → is_digit c ≡ false → Bencode.scan (c ∷ cs) acc ≡ got acc (c ∷ cs)
unfolding Bencode.scan
scan_stop c acc cs e = rw (e, Bencode.scan)

scan_digit :
    (d acc : ℕ) (tail : Bytes)
    → d < 10
    → Bencode.scan ((48 + d) ∷ tail) acc ≡ Bencode.scan tail (acc * 10 + d)
scan_digit d acc tail h =
    let back : acc * 10 + (48 + d - 48) ≡ acc * 10 + d = omega arith in
    scan_step (48 + d) acc tail (digit_lem d h) ∙ ap (Bencode.scan tail) back

print_last :
    (fuel n : ℕ) (tail : Bytes) → ltb n 10 ≡ true → print_dec (suc fuel) n tail ≡ (48 + n) ∷ tail
unfolding print_dec
print_last fuel n tail e = rw (e, print_dec)

print_more :
    (fuel n : ℕ) (tail : Bytes)
    → ltb n 10 ≡ false
    → print_dec (suc fuel) n tail ≡ print_dec fuel (n / 10) ((48 + n % 10) ∷ tail)
unfolding print_dec
print_more fuel n tail e = rw (e, print_dec)

scan-print_last :
    (fuel n : ℕ) (tail : Bytes)
    → n < 10
    → Bencode.scan (print_dec (suc fuel) n tail) 0 ≡ Bencode.scan tail n
scan-print_last fuel n tail h =
    let start : 0 * 10 + n ≡ n = omega arith in
    ap (λ t. Bencode.scan t 0) (print_last fuel n tail (lt→ltb n 10 h))
    ∙ scan_digit n 0 tail h
    ∙ ap (Bencode.scan tail) start

-- The digits of a number are read as that number.
scan-print_dec :
    (fuel n : ℕ) (tail : Bytes)
    → n < ten (suc fuel)
    → Bencode.scan (print_dec (suc fuel) n tail) 0 ≡ Bencode.scan tail n
scan-print_dec zero n tail h = scan-print_last zero n tail (omega arith)
scan-print_dec (suc fuel) n tail h = elim (Bool-cases (ltb n 10)) [
  | inl e ↦ scan-print_last (suc fuel) n tail (ltb→lt n 10 e)
  | inr e ↦
      let digit : n % 10 < 10 = omega arith in
      let joined : n / 10 * 10 + n % 10 ≡ n = omega arith in
      ap (λ t. Bencode.scan t 0) (print_more (suc fuel) n tail e)
      ∙ scan-print_dec fuel (n / 10) ((48 + n % 10) ∷ tail) (omega arith)
      ∙ scan_digit (n % 10) (n / 10) tail digit
      ∙ ap (Bencode.scan tail) joined
]

-- A printed number starts with a digit.
pub print_dec-head :
    (fuel n : ℕ) (tail : Bytes)
    → n < ten (suc fuel)
    → (d : ℕ) × (more : Bytes) × (d < 10) × (print_dec (suc fuel) n tail ≡ (48 + d) ∷ more)
print_dec-head zero n tail h =
    (n, tail, omega arith, print_last zero n tail (lt→ltb n 10 (omega arith)))
print_dec-head (suc fuel) n tail h = elim (Bool-cases (ltb n 10)) [
  | inl e ↦ (n, tail, ltb→lt n 10 e, print_last (suc fuel) n tail e)
  | inr e ↦
      let (d, more, small, head) =
        print_dec-head fuel (n / 10) ((48 + n % 10) ∷ tail) (omega arith) in
      (d, more, small, print_more (suc fuel) n tail e ∙ head)
]

-- What is printed before a tail does not depend on it.
pub print_dec-tail :
    (fuel n : ℕ) (tail : Bytes) → print_dec fuel n tail ≡ print_dec fuel n [] ++ tail
unfolding print_dec
print_dec-tail zero n tail = refl
print_dec-tail (suc fuel) n tail = elim (Bool-cases (ltb n 10)) [
  | inl e ↦ print_last fuel n tail e ∙ ap (λ t. t ++ tail) (sym (print_last fuel n [] e))
  | inr e ↦
      print_more fuel n tail e
      ∙ print_dec-tail fuel (n / 10) ((48 + n % 10) ∷ tail)
      ∙ sym (append_assoc (print_dec fuel (n / 10) []) ((48 + n % 10) ∷ []) tail)
      ∙ ap (λ t. t ++ tail)
          (sym (print_more fuel n [] e ∙ print_dec-tail fuel (n / 10) ((48 + n % 10) ∷ [])))
]

-- The range of an `int32_t`.
abbrev pub IsInt32 : ℤ → Type 0
IsInt32 (pos n) = n < 2 ^ 31
IsInt32 (negsuc n) = n < 2 ^ 31

skip_plain :
    (c : ℕ) (cs : Bytes)
    → is_space c ≡ false
    → (c == 45) ≡ false
    → (c == 43) ≡ false
    → Bencode.skip (c ∷ cs) ≡ got false (c ∷ cs)
unfolding Bencode.skip
skip_plain c cs solid plain unsigned = rw (solid, plain, unsigned, Bencode.skip)

magnitude_digit :
    (from : Bytes) (c : ℕ) (cs : Bytes)
    → is_digit c ≡ true
    → magnitude from (c ∷ cs) ≡ Bencode.scan (c ∷ cs) 0
magnitude_digit from c cs e = rw e

-- A printed number, with anything but a digit behind it, has no sign and its own magnitude.
module _ (n c : ℕ) (rest : Bytes) (h : n < ten 10) (e : is_digit c ≡ false) where
  abbrev printed : Bytes
  printed = print_dec 10 n (c ∷ rest)

  skip-printed : Bencode.skip printed ≡ got false printed
  skip-printed =
      let (d, more, small, head) = print_dec-head 9 n (c ∷ rest) h in
      let solid : is_space (48 + d) ≡ false = ground arith in
      let plain : ((48 + d) == 45) ≡ false = ground arith in
      let unsigned : ((48 + d) == 43) ≡ false = ground arith in
      subst (λ t. Bencode.skip t ≡ got false t) (sym head)
        (skip_plain (48 + d) more solid plain unsigned)

  magnitude-printed : (from : Bytes) → magnitude from printed ≡ got n (c ∷ rest)
  magnitude-printed from =
      let (d, more, small, head) = print_dec-head 9 n (c ∷ rest) h in
      subst (λ t. magnitude from t ≡ Bencode.scan t 0) (sym head)
        (magnitude_digit from (48 + d) more (digit_lem d small))
      ∙ scan-print_dec 9 n (c ∷ rest) h
      ∙ scan_stop c n rest e

narrow_pos : (n : ℕ) (rest : Bytes) → n < 2 ^ 31 → narrow false n rest ≡ got (pos n) rest
unfolding TcktSpace.to_int
narrow_pos n rest h =
    let fits : leb (2 ^ 63) n ≡ false = leb-false _ _ (omega arith) in
    let same : n % 2 ^ 32 ≡ n = omega arith in
    let small : ltb n (2 ^ 31) ≡ true = lt→ltb _ _ h in rw (fits, same, small)

narrow_neg : (n : ℕ) (rest : Bytes) → n < 2 ^ 31 → narrow true (suc n) rest ≡ got (negsuc n) rest
unfolding TcktSpace.to_int
narrow_neg n rest h =
    let fits : ltb (2 ^ 63) (suc n) ≡ false = ltb-false _ _ (omega arith) in
    let same : (2 ^ 32 - suc n % 2 ^ 32) % 2 ^ 32 ≡ 2 ^ 32 - suc n = omega arith in
    let large : ltb (2 ^ 32 - suc n) (2 ^ 31) ≡ false = ltb-false _ _ (omega arith) in
    let back : 2 ^ 32 - 1 - (2 ^ 32 - suc n) ≡ n = omega arith in rw (fits, same, large, back)

-- A printed `int`, with anything but a digit behind it, is read as that `int`.
pub decode_int-print_int :
    (i : ℤ) (c : ℕ) (rest : Bytes)
    → IsInt32 i
    → is_digit c ≡ false
    → Bencode.decode_int (print_int i (c ∷ rest)) ≡ got i (c ∷ rest)
unfolding Bencode.decode_int
decode_int-print_int (pos n) c rest h e = rw (
  skip-printed n c rest (omega arith) e,
  magnitude-printed n c rest (omega arith) e (print_dec 10 n (c ∷ rest)),
  narrow_pos n (c ∷ rest) h,
)
decode_int-print_int (negsuc n) c rest h e = rw (
  magnitude-printed (suc n) c rest (omega arith) e (45 ∷ print_dec 10 (suc n) (c ∷ rest)),
  narrow_neg n (c ∷ rest) h,
)
