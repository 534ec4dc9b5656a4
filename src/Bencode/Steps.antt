-- ===== src/Bencode/Steps.antt =====
-- vdht_core.c: one step of the decoder on the text of an object.
use vdht.Base.{
  ℕ, suc, ◌+◌, ◌^◌, ◌<◌, ◌≤◌, ◌≡◌, refl, ap, sym, ◌∙◌, ◌==◌, ltb, true, false, ◌∷◌, ◌++◌, length,
  length-append, take-append_length, drop-append_length, pos, ℤ, arith, lt→ltb, ltb-false,
}
use mathlib.Core.Path.{subst}
use vdht.Bencode
use vdht.Bencode.{
  Bytes, Node, Nodes, Pairs, Read, got, and_then, str, int, list, dict, nil, cons, end, pair, colon,
  letter_e, Tag, a_str, tag, is_digit,
}
use vdht.Bencode.Digits.{IsInt32, print_dec-head, decode_int-print_int}
use vdht.Bencode.Encode.{print_int}
use vdht.Bencode.Printed.{
  print, print_list, print_dict, IsSane, need, need_list, need_dict, length-print_int,
}

pub need_list-positive : (l : Nodes) → 1 ≤ need_list l
unfolding need
need_list-positive nil = omega arith
need_list-positive (cons x xs) = omega arith

pub need_dict-positive : (d : Pairs) → 1 ≤ need_dict d
unfolding need
need_dict-positive end = omega arith
need_dict-positive (pair k x ps) = omega arith

abbrev pub to_str : Bytes → Bytes → Read Node
to_str s more = got (str s) more

abbrev pub to_list : Nodes → Bytes → Read Node
to_list l more = got (list l) more

abbrev pub to_dict : Pairs → Bytes → Read Node
to_dict d more = got (dict d) more

pub tag_digit : (d : ℕ) → d < 10 → tag (48 + d) ≡ a_str
unfolding tag
tag_digit d h =
    let one : ((48 + d) == 108) ≡ false = ground arith in
    let two : ((48 + d) == 100) ≡ false = ground arith in
    let three : ((48 + d) == 105) ≡ false = ground arith in
    let four : is_digit (48 + d) ≡ true = ground arith in rw (one, two, three, four)

module _ (slack : ℕ) where
  -- The text of a string is read as its bytes.
  pub decode_str-print :
      (s t : Bytes)
      → length s < 2 ^ 31
      → slack ≤ length t
      → Bencode.decode_str slack (print_int (pos (length s)) (colon ∷ (s ++ t))) ≡ got s t
  unfolding Bencode.decode_str Bencode.copy_str
  decode_str-print s t small room =
      let number = decode_int-print_int (pos (length s)) colon (s ++ t) small refl in
      let fits : ltb (length (colon ∷ (s ++ t))) (slack + length s + 1) ≡ false =
        ltb-false _ _ (omega (arith, length-append s t)) in
      let there : ltb (length (s ++ t)) (length s) ≡ false =
        ltb-false _ _ (omega (arith, length-append s t)) in
      rw (number, fits, there, take-append_length s t, drop-append_length s t)

  pub decode-str_case :
      (fuel c : ℕ) (cs : Bytes)
      → slack < length (c ∷ cs)
      → tag c ≡ a_str
      → Bencode.decode slack (suc fuel) (c ∷ cs)
        ≡ and_then (Bencode.decode_str slack (c ∷ cs)) to_str
  unfolding Bencode.decode
  decode-str_case fuel c cs room e = rw (lt→ltb slack (length (c ∷ cs)) room, Bencode.decode, e)

  pub decode-list_case :
      (fuel : ℕ) (cs : Bytes)
      → slack < length (108 ∷ cs)
      → Bencode.decode slack (suc fuel) (108 ∷ cs)
        ≡ and_then (Bencode.decode_list slack fuel cs) to_list
  unfolding Bencode.decode
  decode-list_case fuel cs room = rw (lt→ltb slack (length (108 ∷ cs)) room, Bencode.decode)

  pub decode-dict_case :
      (fuel : ℕ) (cs : Bytes)
      → slack < length (100 ∷ cs)
      → Bencode.decode slack (suc fuel) (100 ∷ cs)
        ≡ and_then (Bencode.decode_dict slack fuel cs) to_dict
  unfolding Bencode.decode
  decode-dict_case fuel cs room = rw (lt→ltb slack (length (100 ∷ cs)) room, Bencode.decode)

  pub decode-int_case :
      (fuel : ℕ) (i : ℤ) (t : Bytes)
      → slack ≤ length t
      → IsInt32 i
      → Bencode.decode slack (suc fuel) (print (int i) t) ≡ got (int i) t
  unfolding Bencode.decode print Bencode.ended
  decode-int_case fuel i t room fits =
      let number = decode_int-print_int i letter_e t fits refl in
      let inside =
        lt→ltb slack (length (105 ∷ print_int i (letter_e ∷ t)))
          (omega (arith, length-print_int i (letter_e ∷ t))) in
      rw (inside, Bencode.decode, number)

  pub decode-print_str :
      (fuel : ℕ) (s t : Bytes)
      → length s < 2 ^ 31
      → slack ≤ length t
      → Bencode.decode slack (suc fuel) (print (str s) t) ≡ got (str s) t
  unfolding print
  decode-print_str fuel s t small room =
      let text = print_int (pos (length s)) (colon ∷ (s ++ t)) in
      let (d, more, digit, head) = print_dec-head 9 (length s) (colon ∷ (s ++ t)) (omega arith) in
      let inside : slack < length ((48 + d) ∷ more) = omega (
        arith,
        ap length head,
        length-append s t,
        length-print_int (pos (length s)) (colon ∷ (s ++ t)),
      ) in
      subst (λ r. Bencode.decode slack (suc fuel) r ≡ and_then (Bencode.decode_str slack r) to_str)
        (sym head) (decode-str_case fuel (48 + d) more inside (tag_digit d digit))
      ∙ ap (λ r. and_then r to_str) (decode_str-print s t small room)

  abbrev pub to_cons : Node → Nodes → Bytes → Read Nodes
  to_cons x xs last = got (cons x xs) last

  abbrev pub to_items : ℕ → Node → Bytes → Read Nodes
  to_items fuel x more = and_then (Bencode.decode_list slack fuel more) (to_cons x)

  abbrev pub to_pair : Bytes → Node → Pairs → Bytes → Read Pairs
  to_pair k x ps last = got (pair k x ps) last

  abbrev pub to_pairs : ℕ → Bytes → Node → Bytes → Read Pairs
  to_pairs fuel k x more = and_then (Bencode.decode_dict slack fuel more) (to_pair k x)

  abbrev pub to_value : ℕ → Bytes → Bytes → Read Pairs
  to_value fuel k more = and_then (Bencode.decode slack fuel more) (to_pairs fuel k)

  -- One round of each loop, on a text that does not start with `e`.
  pub decode_list-more :
      (fuel c : ℕ) (cs : Bytes)
      → (c == letter_e) ≡ false
      → Bencode.decode_list slack (suc fuel) (c ∷ cs)
        ≡ and_then (Bencode.decode slack fuel (c ∷ cs)) (to_items fuel)
  unfolding Bencode.decode
  decode_list-more fuel c cs e = rw (e, Bencode.decode_list)

  pub decode_dict-more :
      (fuel c : ℕ) (cs : Bytes)
      → (c == letter_e) ≡ false
      → Bencode.decode_dict slack (suc fuel) (c ∷ cs)
        ≡ and_then (Bencode.decode_str slack (c ∷ cs)) (to_value fuel)
  unfolding Bencode.decode
  decode_dict-more fuel c cs e = rw (e, Bencode.decode_dict)

  pub decode_list-end :
      (fuel : ℕ) (t : Bytes) → Bencode.decode_list slack (suc fuel) (letter_e ∷ t) ≡ got nil t
  unfolding Bencode.decode
  decode_list-end fuel t = refl

  pub decode_dict-end :
      (fuel : ℕ) (t : Bytes) → Bencode.decode_dict slack (suc fuel) (letter_e ∷ t) ≡ got end t
  unfolding Bencode.decode
  decode_dict-end fuel t = refl

  abbrev pub Starts : Bytes → Type 0
  Starts r = (c : ℕ) × (cs : Bytes) × (r ≡ c ∷ cs) × ((c == letter_e) ≡ false)

  pub print_int-Starts : (n : ℕ) (t : Bytes) → n < 2 ^ 31 → Starts (print_int (pos n) t)
  print_int-Starts n t small =
      let (d, more, digit, head) = print_dec-head 9 n t (omega arith) in
      let other : ((48 + d) == letter_e) ≡ false = ground arith in (48 + d, more, head, other)

  pub print-Starts : (x : Node) (t : Bytes) → IsSane x → Starts (print x t)
  unfolding print IsSane
  print-Starts (str s) t sane = print_int-Starts (length s) (colon ∷ (s ++ t)) sane
  print-Starts (int i) t sane = (105, print_int i (letter_e ∷ t), refl, refl)
  print-Starts (list l) t sane = (108, print_list l t, refl, refl)
  print-Starts (dict d) t sane = (100, print_dict d t, refl, refl)
