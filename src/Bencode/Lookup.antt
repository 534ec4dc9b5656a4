-- ===== src/Bencode/Lookup.antt =====
-- vdht_core.c: what is found in a dictionary that be_add_keypair has extended.
use vdht.Base.{
  ◌≡◌, ◌∙◌, refl, ap, sym, ◌==◌, ==_refl, ==_iff, true, false, [], ◌∷◌, none, some, ok, inl, inr,
  Bool-cases, All, ◌≢◌, arith,
}
use mathlib.Core.Path.{ap₂}
use vdht.Bencode.{Bytes, Node, Pairs, dict, end, pair}
use vdht.Bencode.Dict
use vdht.Bencode.Encode.{c_str}

c_str-text : (key : Bytes) → All (λ c. c ≢ 0) key → c_str key ≡ key
c_str-text [] h = refl
c_str-text (c ∷ key) (h, hs) =
    let free : (c == 0) ≡ false = ground arith in rw free (ap (λ t. c ∷ t) (c_str-text key hs))

pub same_text_refl : (key : Bytes) → Dict.same_text key key ≡ true
unfolding Dict.same_text
same_text_refl [] = refl
same_text_refl (c ∷ key) = rw (==_refl c, same_text_refl key)

pub same_text→≡ : (a b : Bytes) → Dict.same_text a b ≡ true → a ≡ b
unfolding Dict.same_text
same_text→≡ [] [] h = refl
same_text→≡ [] (y ∷ b) h = cc
same_text→≡ (x ∷ a) [] h = cc
same_text→≡ (x ∷ a) (y ∷ b) h = elim (Bool-cases (x == y)) [
  | inl e ↦
      let tails = same_text→≡ a b (rw (e, Dict.same_text) at h) in ap₂ ◌∷◌ ((==_iff x y).0 e) tails
  | inr e ↦ absurd (ground (arith, h, e))
]

find-this :
    (key k : Bytes) (v : Node) (ps : Pairs)
    → Dict.same_text key (c_str k) ≡ true
    → Dict.find_pair key (pair k v ps) ≡ some v
unfolding Dict.find_pair
find-this key k v ps e = rw (e, Dict.find_pair)

find-next :
    (key k : Bytes) (v : Node) (ps : Pairs)
    → Dict.same_text key (c_str k) ≡ false
    → Dict.find_pair key (pair k v ps) ≡ Dict.find_pair key ps
unfolding Dict.find_pair
find-next key k v ps e = rw (e, Dict.find_pair)

append_pair-cons :
    (k : Bytes) (v : Node) (ps : Pairs) (key : Bytes) (node : Node)
    → Dict.append_pair (pair k v ps) key node ≡ pair k v (Dict.append_pair ps key node)
unfolding Dict.append_pair
append_pair-cons k v ps key node = refl

find_pair-end : (key : Bytes) → Dict.find_pair key end ≡ none
unfolding Dict.find_pair
find_pair-end key = refl

-- A pair behind the others is found where they do not have its key, and changes nothing for the
-- keys that they have and for other keys.
found_new :
    (ps : Pairs) (key : Bytes) (node : Node)
    → All (λ c. c ≢ 0) key
    → Dict.find_pair key ps ≡ none
    → Dict.find_pair key (Dict.append_pair ps key node) ≡ some node
unfolding Dict.append_pair
found_new end key node text absent =
    find-this key key node end (ap (Dict.same_text key) (c_str-text key text) ∙ same_text_refl key)
found_new (pair k v ps) key node text absent = elim (Bool-cases (Dict.same_text key (c_str k))) [
  | inl e ↦ let both : some v ≡ none = sym (find-this key k v ps e) ∙ absent in cc
  | inr e ↦
      find-next key k v (Dict.append_pair ps key node) e
      ∙ found_new ps key node text (sym (find-next key k v ps e) ∙ absent)
]

found_old :
    (ps : Pairs) (key other : Bytes) (node v : Node)
    → Dict.find_pair other ps ≡ some v
    → Dict.find_pair other (Dict.append_pair ps key node) ≡ some v
unfolding Dict.append_pair
found_old end key other node v there =
    let both : none ≡ some v = sym (find_pair-end other) ∙ there in cc
found_old (pair k w ps) key other node v there =
    elim (Bool-cases (Dict.same_text other (c_str k))) [
      | inl e ↦
          find-this other k w (Dict.append_pair ps key node) e
          ∙ sym (find-this other k w ps e)
          ∙ there
      | inr e ↦
          find-next other k w (Dict.append_pair ps key node) e
          ∙ found_old ps key other node v (sym (find-next other k w ps e) ∙ there)
    ]

found_other :
    (ps : Pairs) (key other : Bytes) (node : Node)
    → All (λ c. c ≢ 0) key
    → other ≢ key
    → Dict.find_pair other (Dict.append_pair ps key node) ≡ Dict.find_pair other ps
unfolding Dict.append_pair
found_other end key other node text apart = elim (Bool-cases (Dict.same_text other (c_str key))) [
  | inl e ↦ absurd (apart (same_text→≡ other (c_str key) e ∙ c_str-text key text))
  | inr e ↦ find-next other key node end e
]
found_other (pair k w ps) key other node text apart =
    elim (Bool-cases (Dict.same_text other (c_str k))) [
      | inl e ↦
          find-this other k w (Dict.append_pair ps key node) e ∙ sym (find-this other k w ps e)
      | inr e ↦
          find-next other k w (Dict.append_pair ps key node) e
          ∙ found_other ps key other node text apart
          ∙ sym (find-next other k w ps e)
    ]

-- After be_add_keypair of a key without a NUL to a dictionary, be_find_node finds the new node
-- under that key if the dictionary did not have the key, every node that it found before, and
-- under every other key what it found before.
pub find_node-add_keypair :
    (d : Pairs) (key : Bytes) (node : Node)
    → All (λ c. c ≢ 0) key
    → (w : Node) × (Dict.add_keypair (dict d) key node ≡ ok w)
      × (Dict.find_node (dict d) key ≡ none → Dict.find_node w key ≡ some node)
      × ((other : Bytes) (v : Node)
          → Dict.find_node (dict d) other ≡ some v
          → Dict.find_node w other ≡ some v)
      × ((other : Bytes) → other ≢ key → Dict.find_node w other ≡ Dict.find_node (dict d) other)
unfolding Dict.add_keypair Dict.find_node
find_node-add_keypair d key node text = (
  dict (Dict.append_pair d key node),
  refl,
  λ absent. found_new d key node text absent,
  λ other v there. found_old d key other node v there,
  λ other apart. found_other d key other node text apart,
)
