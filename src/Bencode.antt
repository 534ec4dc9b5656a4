-- ===== src/Bencode.antt =====
-- vdht_core.c, vdht_core.h: bencoded objects, their encoder and their decoder.
-- Memory is a list of bytes from the pointer on, and a read behind its end is a `crash`. In the
-- decoder `data` and `data_len` always move together, so that `data_len` is what is left of the
-- memory less the `slack` bytes that lie behind the data. Allocations are taken to succeed, and
-- `long` has 64 bits.
pub mod Encode
pub mod Dict
pub mod Digits
pub mod Printed
pub mod Steps
pub mod RoundTrip
pub mod Encoded
pub mod Lookup
pub mod Faults
pub mod Fuel
use vdht.Base.{
  ℕ, zero, suc, ◌+◌, ◌-◌, ◌*◌, ◌/◌, ◌%◌, ◌^◌, ◌==◌, ltb, leb, if◌then◌else◌, Bool, true, false, not,
  ◌&&◌, ◌||◌, List, [], ◌∷◌, ◌++◌, length, take, drop, Option, none, some, ℤ, pos, negsuc, Run, ok,
  fault, ◌>>=◌,
}
use vdht.TcktSpace.{to_int}

abbrev pub Bytes : Type 0
Bytes = List ℕ

-- `struct be_node`; the bytes of a string are those that its length prefix counts
mutual
  pub data Node : Type 0 where
    str : (s : Bytes) → Node
    int : (i : ℤ) → Node
    list : (l : Nodes) → Node
    dict : (d : Pairs) → Node

  pub data Nodes : Type 0 where
    nil : Nodes
    cons : Node → Nodes → Nodes

  -- `struct be_dict`
  pub data Pairs : Type 0 where
    end : Pairs
    pair : (key : Bytes) → (val : Node) → Pairs → Pairs

-- What a step of the decoder gives: a result and the memory behind it, NULL, a use of memory that
-- is not there or that nothing has written, or no answer on the fuel that it has.
pub data Read (A : Type 0) : Type 0 where
  got : A → Bytes → Read A
  null : Read A
  crash : Read A
  starved : Read A

abbrev pub and_then : {A B : Type 0} → Read A → (A → Bytes → Read B) → Read B
and_then (got a rest) f = f a rest
and_then null f = null
and_then crash f = crash
and_then starved f = starved

-- the characters
abbrev pub is_digit : ℕ → Bool
is_digit c = leb 48 c && leb c 57

abbrev pub is_space : ℕ → Bool
is_space c = (c == 32) || (leb 9 c && leb c 13)

abbrev pub colon : ℕ
colon = 58

abbrev pub letter_e : ℕ
letter_e = 101

-- `strtol(data, &endp, 10)`
unfoldable pub scan : Bytes → ℕ → Read ℕ
scan [] acc = crash
scan (c ∷ cs) acc = elim (is_digit c) [
  | true ↦ scan cs (acc * 10 + (c - 48))
  | false ↦ got acc (c ∷ cs)
]

unfoldable pub skip : Bytes → Read Bool
skip [] = crash
skip (c ∷ cs) = elim (is_space c) [
  | true ↦ skip cs
  | false ↦ if c == 45 then got true cs else if c == 43 then got false cs else got false (c ∷ cs)
]

-- the number of the digits behind a sign; without a digit, 0 and the memory `from`
abbrev pub magnitude : Bytes → Bytes → Read ℕ
magnitude from [] = crash
magnitude from (c ∷ cs) = if is_digit c then scan (c ∷ cs) 0 else got 0 from

-- `(int32_t)` of the result; `null` where `errno` is ERANGE
abbrev pub narrow : Bool → ℕ → Bytes → Read ℤ
narrow false n rest = if leb (2 ^ 63) n then null else got (to_int n) rest
narrow true n rest = if ltb (2 ^ 63) n then null else got (to_int (2 ^ 32 - n % 2 ^ 32)) rest

-- `_be_decode_int`
unfoldable pub decode_int : Bytes → Read ℤ
unfolding skip scan
decode_int src =
    and_then (skip src)
      (λ negative digits. and_then (magnitude src digits) (λ n rest. narrow negative n rest))

-- `_be_decode_str`. Its callers hand a NULL to `be_free`, in a node that does not hold it: that of
-- a string, which frees the address -4, or that of a dictionary, which reads a value that nothing
-- has written. A negative length reaches `malloc` and `memcpy` as a huge one.
copy_str : ℕ → ℤ → Bytes → Read Bytes
copy_str slack (negsuc n) rest = crash
copy_str slack (pos len) [] = crash
copy_str slack (pos len) (c ∷ rest) =
    if ltb (length (c ∷ rest)) (slack + len + 1)
    then crash
    else if c == colon
    then (if ltb (length rest) len then crash else got (take len rest) (drop len rest))
    else crash

abbrev or_crash : {A : Type 0} → Read A → Read A
or_crash null = crash
or_crash r = r

unfoldable pub decode_str : ℕ → Bytes → Read Bytes
unfolding decode_int copy_str
decode_str slack src = and_then (or_crash (decode_int src)) (copy_str slack)

-- the cases of the switch
pub data Tag : Type 0 where
  a_list a_dict an_int a_str invalid : Tag

unfoldable pub tag : ℕ → Tag
tag c =
    if c == 108
    then a_list
    else if c == 100
    then a_dict
    else if c == 105
    then an_int
    else if is_digit c
    then a_str
    else invalid

-- the case of an integer behind its `i`
ended : ℤ → Bytes → Read Node
ended i [] = crash
ended i (c ∷ rest) = if c == letter_e then got (int i) rest else null

-- `_be_decode` and its two loops, on fuel
unfoldable mutual
  unfolding decode_int decode_str tag ended

  pub decode : ℕ → ℕ → Bytes → Read Node
  decode slack zero src = starved
  decode slack (suc fuel) [] = crash
  decode slack (suc fuel) (c ∷ rest) = elim (ltb slack (length (c ∷ rest))) [
    | false ↦ crash
    | true ↦ elim (tag c) [
      | a_list ↦ and_then (decode_list slack fuel rest) (λ l more. got (list l) more)
      | a_dict ↦ and_then (decode_dict slack fuel rest) (λ d more. got (dict d) more)
      | an_int ↦ and_then (decode_int rest) ended
      | a_str ↦ and_then (decode_str slack (c ∷ rest)) (λ s more. got (str s) more)
      | invalid ↦ null
    ]
  ]

  pub decode_list : ℕ → ℕ → Bytes → Read Nodes
  decode_list slack zero src = starved
  decode_list slack (suc fuel) [] = crash
  decode_list slack (suc fuel) (c ∷ rest) = elim (c == letter_e) [
    | true ↦ got nil rest
    | false ↦
        and_then (decode slack fuel (c ∷ rest))
          (λ x more. and_then (decode_list slack fuel more) (λ xs last. got (cons x xs) last))
  ]

  pub decode_dict : ℕ → ℕ → Bytes → Read Pairs
  decode_dict slack zero src = starved
  decode_dict slack (suc fuel) [] = crash
  decode_dict slack (suc fuel) (c ∷ rest) = elim (c == letter_e) [
    | true ↦ got end rest
    | false ↦ and_then (decode_str slack (c ∷ rest)) (λ k some_more.
        and_then (decode slack fuel some_more)
          (λ x more. and_then (decode_dict slack fuel more) (λ ps last. got (pair k x ps) last)))
  ]

-- `be_decode` on memory of which `len` bytes are the data, with fuel for each of its bytes
unfoldable pub be_decode : Bytes → ℕ → Read Node
unfolding decode
be_decode memory len = decode (length memory - len) (2 * length memory + 2) memory

-- `be_decode_str` of a text, which a NUL ends
unfoldable pub be_decode_str : Bytes → Read Node
unfolding be_decode
be_decode_str text = be_decode (text ++ 0 ∷ []) (length text)
