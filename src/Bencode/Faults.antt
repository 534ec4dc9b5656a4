-- ===== src/Bencode/Faults.antt =====
-- vdht_core.c: inputs on which the decoder and the encoder leave their memory.
use vdht.Base.{
  ℕ, zero, suc, ◌+◌, ◌*◌, ◌-◌, ◌^◌, ◌<◌, ◌≡◌, refl, ap, sym, ◌∙◌, ltb, leb, true, false, [], ◌∷◌,
  length, pos, arith, fault, lt→ltb, leb-false,
}
use mathlib.Core.Path.{subst}
use vdht.Bencode
use vdht.Bencode.{Bytes, Node, got, crash, and_then, str, colon}
use vdht.Bencode.Digits.{print_dec-head, decode_int-print_int}
use vdht.Bencode.Encode
use vdht.Bencode.Encode.{print_int}
use vdht.Bencode.Steps.{decode-str_case, tag_digit, to_str}

short_str :
    (slack n : ℕ) (rest : Bytes)
    → n < 2 ^ 31
    → length rest < slack + n
    → Bencode.decode_str slack (print_int (pos n) (colon ∷ rest)) ≡ crash
unfolding Bencode.decode_str Bencode.copy_str
short_str slack n rest small short =
    let number = decode_int-print_int (pos n) colon rest small refl in
    let over : ltb (length (colon ∷ rest)) (slack + n + 1) ≡ true = lt→ltb _ _ (omega arith) in
    rw (number, over)

-- On a message that consists of the length of a string, below 2 to the 31, a colon and fewer bytes
-- than that, be_decode frees a string node that holds NULL: a use of memory that is not there.
pub be_decode_short :
    (n : ℕ) (rest : Bytes)
    → n < 2 ^ 31
    → length rest < n
    → Bencode.be_decode
        (print_int (pos n) (colon ∷ rest))
        (length (print_int (pos n) (colon ∷ rest)))
      ≡ crash
unfolding Bencode.be_decode
be_decode_short n rest small short =
    let text = print_int (pos n) (colon ∷ rest) in
    let none_behind : length text - length text ≡ 0 = omega arith in
    let (d, more, digit, head) = print_dec-head 9 n (colon ∷ rest) (omega arith) in
    let fuel = 2 * length text + 1 in
    let first : Bencode.decode 0 (suc fuel) text ≡ and_then (Bencode.decode_str 0 text) to_str =
      subst (λ r. Bencode.decode 0 (suc fuel) r ≡ and_then (Bencode.decode_str 0 r) to_str)
        (sym head) (decode-str_case 0 fuel (48 + d) more (omega arith) (tag_digit d digit)) in
    let same : 2 * length text + 2 ≡ suc fuel = omega arith in
    rw (none_behind, same)
      (first ∙ ap (λ r. and_then r to_str) (short_str 0 n rest small (omega arith)))

-- Into a buffer with room for the length prefix of a string but not for its bytes, be_encode
-- copies the bytes over the end of the buffer.
pub encode_overflow :
    (s : Bytes) (room : ℕ)
    → length (print_int (pos (length s)) (colon ∷ [])) < room
    → room < length (print_int (pos (length s)) (colon ∷ [])) + length s
    → Encode.encode room (str s) ≡ fault
unfolding Encode.encode Encode.copy_bytes
encode_overflow s zero fits short = absurd (omega arith)
encode_overflow s (suc n) fits short =
    let head = print_int (pos (length s)) (colon ∷ []) in
    let prefix : leb (suc n) (length head) ≡ false = leb-false _ _ fits in
    let over : ltb (suc n - length head) (length s) ≡ true = lt→ltb _ _ (omega arith) in
    rw (prefix, over)
