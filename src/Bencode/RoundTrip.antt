-- ===== src/Bencode/RoundTrip.antt =====
-- vdht_core.c: the decoder reads the text of an object as that object.
use vdht.Base.{ℕ, zero, suc, ◌+◌, ◌*◌, ◌-◌, ◌≤◌, ◌≡◌, ap, sym, ◌∙◌, ◌∷◌, ◌++◌, length, arith}
use mathlib.Core.Path.{subst}
use vdht.Bencode
use vdht.Bencode.{
  Bytes, Node, Nodes, Pairs, Read, got, and_then, str, int, list, dict, nil, cons, end, pair, colon,
  letter_e, Tag, a_str, tag, is_digit,
}
use vdht.Bencode.Printed.{
  print, print_list, print_dict, IsSane, AreSane, HasSane, need, need_list, need_dict, need-print,
  need_list-print, need_dict-print,
}
use vdht.Bencode.Steps.{
  need_list-positive, need_dict-positive, to_list, to_dict, decode_str-print, decode-list_case,
  decode-dict_case, decode-int_case, decode-print_str, to_cons, to_items, to_pair, to_pairs,
  to_value, decode_list-more, decode_dict-more, decode_list-end, decode_dict-end, print_int-Starts,
  print-Starts,
}

module _ (slack : ℕ) where
  -- The decoder of each kind of text gives the object, and the memory behind it.
  mutual
    unfolding print IsSane need

    pub decode-print :
        (x : Node) (t : Bytes) (fuel : ℕ)
        → IsSane x
        → slack ≤ length t
        → need x ≤ suc fuel
        → Bencode.decode slack (suc fuel) (print x t) ≡ got x t
    decode-print (str s) t fuel sane room enough = decode-print_str slack fuel s t sane room
    decode-print (int i) t fuel sane room enough = decode-int_case slack fuel i t room sane
    decode-print (list l) t fuel sane room enough =
        decode-list_case slack fuel (print_list l t) (omega (arith, need_list-print l t))
        ∙ ap (λ r. and_then r to_list) (decode_list-print l t fuel sane room (omega arith))
    decode-print (dict d) t fuel sane room enough =
        decode-dict_case slack fuel (print_dict d t) (omega (arith, need_dict-print d t))
        ∙ ap (λ r. and_then r to_dict) (decode_dict-print d t fuel sane room (omega arith))

    pub decode_list-print :
        (l : Nodes) (t : Bytes) (fuel : ℕ)
        → AreSane l
        → slack ≤ length t
        → need_list l ≤ fuel
        → Bencode.decode_list slack fuel (print_list l t) ≡ got l t
    decode_list-print nil t zero sane room enough = absurd (omega arith)
    decode_list-print nil t (suc fuel) sane room enough = decode_list-end slack fuel t
    decode_list-print (cons x xs) t zero sane room enough = absurd (omega arith)
    decode_list-print (cons x xs) t (suc zero) sane room enough =
        absurd (omega (arith, need_list-positive xs))
    decode_list-print (cons x xs) t (suc (suc fuel)) sane room enough =
        let (c, cs, head, other) = print-Starts slack x (print_list xs t) sane.0 in
        let behind : slack ≤ length (print_list xs t) = omega (arith, need_list-print xs t) in
        subst
          (λ r.
            Bencode.decode_list slack (suc (suc fuel)) r
            ≡ and_then (Bencode.decode slack (suc fuel) r) (to_items slack (suc fuel)))
          (sym head) (decode_list-more slack (suc fuel) c cs other)
        ∙ ap (λ r. and_then r (to_items slack (suc fuel)))
            (decode-print x (print_list xs t) fuel sane.0 behind (omega arith))
        ∙ ap (λ r. and_then r (to_cons slack x))
            (decode_list-print xs t (suc fuel) sane.1 room (omega arith))

    pub decode_dict-print :
        (d : Pairs) (t : Bytes) (fuel : ℕ)
        → HasSane d
        → slack ≤ length t
        → need_dict d ≤ fuel
        → Bencode.decode_dict slack fuel (print_dict d t) ≡ got d t
    decode_dict-print end t zero sane room enough = absurd (omega arith)
    decode_dict-print end t (suc fuel) sane room enough = decode_dict-end slack fuel t
    decode_dict-print (pair k x ps) t zero sane room enough = absurd (omega arith)
    decode_dict-print (pair k x ps) t (suc zero) sane room enough =
        absurd (omega (arith, need_dict-positive ps))
    decode_dict-print (pair k x ps) t (suc (suc fuel)) (small, text, (sane, sanes)) room enough =
        let rest = print x (print_dict ps t) in
        let (c, cs, head, other) = print_int-Starts slack (length k) (colon ∷ (k ++ rest)) small in
        let behind : slack ≤ length (print_dict ps t) = omega (arith, need_dict-print ps t) in
        let there : slack ≤ length rest = omega (arith, need-print x (print_dict ps t)) in
        subst
          (λ r.
            Bencode.decode_dict slack (suc (suc fuel)) r
            ≡ and_then (Bencode.decode_str slack r) ((to_value slack) (suc fuel)))
          (sym head) (decode_dict-more slack (suc fuel) c cs other)
        ∙ ap (λ r. and_then r ((to_value slack) (suc fuel)))
            (decode_str-print slack k rest small there)
        ∙ ap (λ r. and_then r ((to_pairs slack) (suc fuel) k))
            (decode-print x (print_dict ps t) fuel sane behind (omega arith))
        ∙ ap (λ r. and_then r ((to_pair slack) k x))
            (decode_dict-print ps t (suc fuel) sanes room (omega arith))

-- be_decode of the text of an object whose numbers and lengths fit 32 bits, in memory that holds
-- anything behind it, gives the object.
pub be_decode-print :
    (x : Node) (t : Bytes)
    → IsSane x
    → Bencode.be_decode (print x t) (length (print x t) - length t) ≡ got x t
unfolding Bencode.be_decode
be_decode-print x t sane =
    let fits = need-print x t in
    let slack : length (print x t) - (length (print x t) - length t) ≡ length t = omega arith in
    let fuel : 2 * length (print x t) + 2 ≡ suc (2 * length (print x t) + 1) = omega arith in
    rw (slack, fuel)
      (decode-print (length t) x t (2 * length (print x t) + 1) sane (omega arith) (omega arith))
