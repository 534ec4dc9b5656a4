-- ===== src/Bencode/Encoded.antt =====
-- vdht_core.c, be_encode: the encoder prints the text of an object.
use vdht.Base.{
  ℕ, zero, suc, ◌-◌, ◌<◌, ◌≤◌, ◌≡◌, refl, ap, sym, ◌∙◌, leb, false, [], ◌∷◌, ◌++◌, length,
  length-append, append-nil, pos, ℤ, arith, some, Option, none, Run, ok, ◌>>=◌, ltb-false,
  leb-false,
}
use vdht.Bencode
use vdht.Bencode.{
  Bytes, Node, Nodes, Pairs, got, str, int, list, dict, nil, cons, end, pair, colon, letter_e,
}
use vdht.Bencode.Encode
use vdht.Bencode.Encode.{print_int, c_str, emit, behind}
use vdht.Bencode.Printed.{
  print, print_list, print_dict, IsSane, AreSane, HasSane, print-tail, print_int-split,
}
use vdht.Bencode.RoundTrip.{be_decode-print}

emit_lem :
    (room : ℕ) (text more : Bytes) (next : ℕ → Run (Option Bytes))
    → length text < room
    → next (room - length text) ≡ ok (some more)
    → emit room text next ≡ ok (some (text ++ more))
emit_lem room text more next h e =
    let fits : leb room (length text) ≡ false = leb-false _ _ h in rw (fits, e)

copy_bytes_lem : (s : Bytes) (room : ℕ) → length s ≤ room → Encode.copy_bytes s room ≡ ok (some s)
unfolding Encode.copy_bytes
copy_bytes_lem s room h = rw (ltb-false room (length s) h)

print-str : (s : Bytes) → print (str s) [] ≡ print_int (pos (length s)) (colon ∷ []) ++ s
unfolding print
print-str s =
    ap (λ r. print_int (pos (length s)) (colon ∷ r)) (append-nil s)
    ∙ print_int-split (pos (length s)) (colon ∷ []) s

print_dict-pair :
    (k : Bytes) (x : Node) (ps : Pairs)
    → print_dict (pair k x ps) []
      ≡ print_int (pos (length k)) (colon ∷ k) ++ (print x [] ++ print_dict ps [])
unfolding print
print_dict-pair k x ps =
    ap (λ r. print_int (pos (length k)) (colon ∷ (k ++ r))) (print-tail x (print_dict ps []))
    ∙ print_int-split (pos (length k)) (colon ∷ k) (print x [] ++ print_dict ps [])

print_list-cons :
    (x : Node) (xs : Nodes) → print_list (cons x xs) [] ≡ print x [] ++ print_list xs []
unfolding print
print_list-cons x xs = print-tail x (print_list xs [])

print-int : (i : ℤ) → print (int i) [] ≡ 105 ∷ print_int i (letter_e ∷ [])
unfolding print
print-int i = refl

print-list : (l : Nodes) → print (list l) [] ≡ 108 ∷ print_list l []
unfolding print
print-list l = refl

print-dict : (d : Pairs) → print (dict d) [] ≡ 100 ∷ print_dict d []
unfolding print
print-dict d = refl

print_nil : print_list nil [] ≡ letter_e ∷ []
unfolding print
print_nil = refl

print_end : print_dict end [] ≡ letter_e ∷ []
unfolding print
print_end = refl

-- What stands behind the text that each case prints first.
abbrev after_value : Pairs → ℕ → Option Bytes → Run (Option Bytes)
after_value ps left none = ok none
after_value ps left (some out) =
    Encode.encode_dict (left - length out) ps >>= λ q. ok (behind out q)

abbrev after_key : Node → Pairs → ℕ → Run (Option Bytes)
after_key x ps left = Encode.encode left x >>= after_value ps left

abbrev after_item : Nodes → ℕ → Option Bytes → Run (Option Bytes)
after_item xs room none = ok none
after_item xs room (some out) = Encode.encode_list (room - length out) xs >>= λ q. ok (behind out q)

encode_shapes :
    (n : ℕ)
    → ((s : Bytes)
        → Encode.encode (suc n) (str s)
          ≡ emit (suc n) (print_int (pos (length s)) (colon ∷ [])) (Encode.copy_bytes s))
      × ((i : ℤ)
          → Encode.encode (suc n) (int i)
            ≡ emit (suc n) (105 ∷ print_int i (letter_e ∷ [])) (λ room. ok (some [])))
      × ((l : Nodes)
          → Encode.encode (suc n) (list l)
            ≡ emit (suc n) (108 ∷ []) (λ room. Encode.encode_list room l))
      × ((d : Pairs)
          → Encode.encode (suc n) (dict d)
            ≡ emit (suc n) (100 ∷ []) (λ room. Encode.encode_dict room d))
unfolding Encode.encode
encode_shapes n = (λ s. refl, λ i. refl, λ l. refl, λ d. refl)

loop_shapes :
    (room : ℕ)
    → (Encode.encode_list room nil ≡ emit room (letter_e ∷ []) (λ left. ok (some [])))
      × ((x : Node) (xs : Nodes)
          → Encode.encode_list room (cons x xs) ≡ (Encode.encode room x >>= after_item xs room))
      × (Encode.encode_dict room end ≡ emit room (letter_e ∷ []) (λ left. ok (some [])))
      × ((k : Bytes) (x : Node) (ps : Pairs)
          → Encode.encode_dict room (pair k x ps)
            ≡ emit room (print_int (pos (length k)) (colon ∷ c_str k)) (after_key x ps))
unfolding Encode.encode
loop_shapes room = (refl, λ x xs. refl, refl, λ k x ps. refl)

mutual
  unfolding IsSane

  pub encode-print :
      (x : Node) (room : ℕ)
      → IsSane x
      → length (print x []) < room
      → Encode.encode room x ≡ ok (some (print x []))
  encode-print x zero sane h = absurd (omega arith)
  encode-print (str s) (suc n) sane h =
      let head = print_int (pos (length s)) (colon ∷ []) in
      let size = length-append head s in
      let whole = print-str s in
      let total = ap length whole in
      (encode_shapes n).0 s
      ∙ emit_lem (suc n) head s (Encode.copy_bytes s) (omega arith)
          (copy_bytes_lem s (suc n - length head) (omega arith))
      ∙ ap (λ r. ok (some r)) (sym whole)
  encode-print (int i) (suc n) sane h =
      (encode_shapes n).1 i
      ∙ emit_lem (suc n) (105 ∷ print_int i (letter_e ∷ [])) [] (λ room. ok (some []))
          (omega (arith, ap length (print-int i))) refl
      ∙ ap (λ r. ok (some r)) (append-nil (105 ∷ print_int i (letter_e ∷ [])) ∙ sym (print-int i))
  encode-print (list l) (suc n) sane h =
      let size = ap length (print-list l) in
      (encode_shapes n).2 l
      ∙ emit_lem (suc n) (108 ∷ []) (print_list l []) (λ room. Encode.encode_list room l)
          (omega arith) (encode_list-print l (suc n - 1) sane (omega arith))
      ∙ ap (λ r. ok (some r)) (sym (print-list l))
  encode-print (dict d) (suc n) sane h =
      let size = ap length (print-dict d) in
      (encode_shapes n).3 d
      ∙ emit_lem (suc n) (100 ∷ []) (print_dict d []) (λ room. Encode.encode_dict room d)
          (omega arith) (encode_dict-print d (suc n - 1) sane (omega arith))
      ∙ ap (λ r. ok (some r)) (sym (print-dict d))

  pub encode_list-print :
      (l : Nodes) (room : ℕ)
      → AreSane l
      → length (print_list l []) < room
      → Encode.encode_list room l ≡ ok (some (print_list l []))
  encode_list-print nil room sane h =
      (loop_shapes room).0
      ∙ emit_lem room (letter_e ∷ []) [] (λ left. ok (some [])) (omega (arith, ap length print_nil))
          refl
      ∙ ap (λ r. ok (some r)) (sym print_nil)
  encode_list-print (cons x xs) zero sane h = absurd (omega arith)
  encode_list-print (cons x xs) (suc n) sane h =
      let whole = print_list-cons x xs in
      let size = length-append (print x []) (print_list xs []) in
      let total = ap length whole in
      (loop_shapes (suc n)).1 x xs
      ∙ ap (λ r. r >>= after_item xs (suc n)) (encode-print x (suc n) sane.0 (omega arith))
      ∙ ap (λ r. r >>= λ q. ok (behind (print x []) q))
          (encode_list-print xs (suc n - length (print x [])) sane.1 (omega arith))
      ∙ ap (λ r. ok (some r)) (sym whole)

  pub encode_dict-print :
      (d : Pairs) (room : ℕ)
      → HasSane d
      → length (print_dict d []) < room
      → Encode.encode_dict room d ≡ ok (some (print_dict d []))
  encode_dict-print end room sane h =
      (loop_shapes room).2
      ∙ emit_lem room (letter_e ∷ []) [] (λ left. ok (some [])) (omega (arith, ap length print_end))
          refl
      ∙ ap (λ r. ok (some r)) (sym print_end)
  encode_dict-print (pair k x ps) room (small, text, (sane, sanes)) h =
      let whole = print_dict-pair k x ps in
      let head = print_int (pos (length k)) (colon ∷ k) in
      let size = length-append head (print x [] ++ print_dict ps []) in
      let inner = length-append (print x []) (print_dict ps []) in
      let total = ap length whole in
      let left = room - length head in
      let value = encode-print x left sane (omega arith) in
      let others = encode_dict-print ps (left - length (print x [])) sanes (omega arith) in
      (loop_shapes room).3 k x ps
      ∙ ap (λ r. emit room (print_int (pos (length k)) (colon ∷ r)) (after_key x ps)) text
      ∙ emit_lem room head (print x [] ++ print_dict ps []) (after_key x ps) (omega arith) (
          ap (λ r. r >>= after_value ps left) value
          ∙ ap (λ r. r >>= λ q. ok (behind (print x []) q)) others)
      ∙ ap (λ r. ok (some r)) (sym whole)

-- For an object whose numbers and lengths fit 32 bits and whose keys hold no NUL, and a buffer
-- that is longer than its text, be_encode prints the text and be_decode of the text gives the
-- object back.
pub be_decode-encode :
    (x : Node) (room : ℕ)
    → IsSane x
    → length (print x []) < room
    → (text : Bytes) × (Encode.encode room x ≡ ok (some text))
      × (Bencode.be_decode text (length text) ≡ got x [])
be_decode-encode x room sane h =
    let size : length (print x []) - 0 ≡ length (print x []) = omega arith in
    (print x [], encode-print x room sane h, rw size at (be_decode-print x [] sane))
