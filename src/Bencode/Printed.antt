-- ===== src/Bencode/Printed.antt =====
-- vdht_core.c: the text of a bencoded object, with a given text behind it, and its measures.
use vdht.Base.{
  ℕ, suc, ◌+◌, ◌*◌, ◌^◌, ◌<◌, ◌≤◌, ◌≡◌, refl, ap, sym, ◌∙◌, [], ◌∷◌, ◌++◌, length, length-append,
  append_assoc, pos, negsuc, ℤ, arith,
}
use vdht.Bencode.{
  Bytes, Node, Nodes, Pairs, str, int, list, dict, nil, cons, end, pair, colon, letter_e,
}
use vdht.Bencode.Digits.{IsInt32, print_dec-tail}
use vdht.Bencode.Encode.{print_int, c_str}

-- A string is its length, a colon and its bytes; an `int` stands between `i` and `e`; the items of
-- a list stand between `l` and `e`, the keys and values of a dictionary between `d` and `e`.
unfoldable mutual
  pub print : Node → Bytes → Bytes
  print (str s) t = print_int (pos (length s)) (colon ∷ (s ++ t))
  print (int i) t = 105 ∷ print_int i (letter_e ∷ t)
  print (list l) t = 108 ∷ print_list l t
  print (dict d) t = 100 ∷ print_dict d t

  pub print_list : Nodes → Bytes → Bytes
  print_list nil t = letter_e ∷ t
  print_list (cons x xs) t = print x (print_list xs t)

  pub print_dict : Pairs → Bytes → Bytes
  print_dict end t = letter_e ∷ t
  print_dict (pair k x ps) t = print_int (pos (length k)) (colon ∷ (k ++ print x (print_dict ps t)))

-- Numbers and lengths fit an `int32_t`, and no key holds a NUL.
unfoldable mutual
  pub IsSane : Node → Type 0
  IsSane (str s) = length s < 2 ^ 31
  IsSane (int i) = IsInt32 i
  IsSane (list l) = AreSane l
  IsSane (dict d) = HasSane d

  pub AreSane : Nodes → Type 0
  AreSane nil = Unit
  AreSane (cons x xs) = IsSane x × AreSane xs

  pub HasSane : Pairs → Type 0
  HasSane end = Unit
  HasSane (pair k x ps) = (length k < 2 ^ 31) × (c_str k ≡ k) × (IsSane x × HasSane ps)

-- The fuel that the decoder needs.
unfoldable mutual
  pub need : Node → ℕ
  need (str s) = 1
  need (int i) = 1
  need (list l) = suc (need_list l)
  need (dict d) = suc (need_dict d)

  pub need_list : Nodes → ℕ
  need_list nil = 1
  need_list (cons x xs) = suc (need x + need_list xs)

  pub need_dict : Pairs → ℕ
  need_dict end = 1
  need_dict (pair k x ps) = suc (need x + need_dict ps)

pub print_int-tail : (i : ℤ) (t : Bytes) → print_int i t ≡ print_int i [] ++ t
print_int-tail (pos n) t = print_dec-tail 10 n t
print_int-tail (negsuc n) t = ap (λ r. 45 ∷ r) (print_dec-tail 10 (suc n) t)

pub length-print_int : (i : ℤ) (t : Bytes) → length t ≤ length (print_int i t)
length-print_int i t =
    omega (arith, ap length (print_int-tail i t), length-append (print_int i []) t)

pub print_int-split : (i : ℤ) (r t : Bytes) → print_int i (r ++ t) ≡ print_int i r ++ t
print_int-split i r t =
    print_int-tail i (r ++ t)
    ∙ sym (append_assoc (print_int i []) r t)
    ∙ ap (λ q. q ++ t) (sym (print_int-tail i r))

-- Two units of fuel for each byte are enough.
mutual
  unfolding print need

  pub need-print : (x : Node) (t : Bytes) → suc (need x) + 2 * length t ≤ 2 * length (print x t)
  need-print (str s) t =
      omega (arith, length-append s t, length-print_int (pos (length s)) (colon ∷ (s ++ t)))
  need-print (int i) t = omega (arith, length-print_int i (letter_e ∷ t))
  need-print (list l) t = omega (arith, need_list-print l t)
  need-print (dict d) t = omega (arith, need_dict-print d t)

  pub need_list-print :
      (l : Nodes) (t : Bytes) → need_list l + 2 * length t ≤ 2 * length (print_list l t)
  need_list-print nil t = omega arith
  need_list-print (cons x xs) t =
      omega (arith, need_list-print xs t, need-print x (print_list xs t))

  pub need_dict-print :
      (d : Pairs) (t : Bytes) → need_dict d + 2 * length t ≤ 2 * length (print_dict d t)
  need_dict-print end t = omega arith
  need_dict-print (pair k x ps) t =
      let rest = print x (print_dict ps t) in
      omega (
        arith,
        need_dict-print ps t,
        need-print x (print_dict ps t),
        length-append k rest,
        length-print_int (pos (length k)) (colon ∷ (k ++ rest)),
      )

-- The text of an object does not depend on what stands behind it.
mutual
  unfolding print

  pub print-tail : (x : Node) (t : Bytes) → print x t ≡ print x [] ++ t
  print-tail (str s) t =
      ap (λ r. print_int (pos (length s)) (colon ∷ r)) (sym (append_assoc s [] t))
      ∙ print_int-split (pos (length s)) (colon ∷ (s ++ [])) t
  print-tail (int i) t = ap (λ r. 105 ∷ r) (print_int-split i (letter_e ∷ []) t)
  print-tail (list l) t = ap (λ r. 108 ∷ r) (print_list-tail l t)
  print-tail (dict d) t = ap (λ r. 100 ∷ r) (print_dict-tail d t)

  pub print_list-tail : (l : Nodes) (t : Bytes) → print_list l t ≡ print_list l [] ++ t
  print_list-tail nil t = refl
  print_list-tail (cons x xs) t =
      print-tail x (print_list xs t)
      ∙ ap (λ r. print x [] ++ r) (print_list-tail xs t)
      ∙ sym (append_assoc (print x []) (print_list xs []) t)
      ∙ ap (λ r. r ++ t) (sym (print-tail x (print_list xs [])))

  pub print_dict-tail : (d : Pairs) (t : Bytes) → print_dict d t ≡ print_dict d [] ++ t
  print_dict-tail end t = refl
  print_dict-tail (pair k x ps) t =
      let inner : print x (print_dict ps t) ≡ print x (print_dict ps []) ++ t =
        print-tail x (print_dict ps t)
        ∙ ap (λ r. print x [] ++ r) (print_dict-tail ps t)
        ∙ sym (append_assoc (print x []) (print_dict ps []) t)
        ∙ ap (λ r. r ++ t) (sym (print-tail x (print_dict ps []))) in
      let whole : k ++ print x (print_dict ps t) ≡ (k ++ print x (print_dict ps [])) ++ t =
        ap (λ r. k ++ r) inner ∙ sym (append_assoc k (print x (print_dict ps [])) t) in
      ap (λ r. print_int (pos (length k)) (colon ∷ r)) whole
      ∙ print_int-split (pos (length k)) (colon ∷ (k ++ print x (print_dict ps []))) t
