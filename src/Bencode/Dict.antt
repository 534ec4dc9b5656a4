-- ===== src/Bencode/Dict.antt =====
-- vdht_core.c: making, extending, searching and reading bencoded objects.
-- A text that is an argument is the list of its bytes before the NUL. A result of -1 is `none`.
use vdht.Base.{
  ℕ, zero, suc, ◌==◌, ltb, if◌then◌else◌, Bool, true, false, [], ◌∷◌, length, Option, none, some, ℤ,
  Run, ok, fault,
}
use vdht.Bencode
use vdht.Bencode.{Bytes, Node, Nodes, Pairs, Read, str, int, list, dict, nil, cons, end, pair}
use vdht.Bencode.Encode.{c_str}

-- `be_create_dict`, `be_create_list`, `be_create_str`, `be_create_buf`, `be_create_int`
unfoldable pub create_dict : Read Node
unfolding Bencode.be_decode_str
create_dict = Bencode.be_decode_str (100 ∷ 101 ∷ [])

unfoldable pub create_list : Read Node
unfolding Bencode.be_decode_str
create_list = Bencode.be_decode_str (108 ∷ 101 ∷ [])

abbrev pub create_str : Bytes → Node
create_str text = str text

unfoldable pub create_buf : Bytes → Run Node
create_buf [] = fault
create_buf (c ∷ buf) = ok (str (c ∷ buf))

abbrev pub create_int : ℤ → Node
create_int num = int num

-- `be_add_keypair`: the loop to the end of the array, and the entry there
unfoldable pub append_pair : Pairs → Bytes → Node → Pairs
append_pair end key node = pair key node end
append_pair (pair k v ps) key node = pair k v (append_pair ps key node)

unfoldable pub add_keypair : Node → Bytes → Node → Run Node
unfolding append_pair
add_keypair (dict d) key node = ok (dict (append_pair d key node))
add_keypair _ key node = fault

-- `be_add_list`
unfoldable pub append_node : Nodes → Node → Nodes
append_node nil node = cons node nil
append_node (cons x xs) node = cons x (append_node xs node)

unfoldable pub add_list : Node → Node → Run Node
unfolding append_node
add_list (list l) node = ok (list (append_node l node))
add_list _ node = fault

-- `be_unpack_int`, `be_unpack_buf`
unfoldable pub unpack_int : Node → Option ℤ
unpack_int (int i) = some i
unpack_int _ = none

unfoldable pub unpack_buf : Node → ℕ → Run (Option Bytes)
unpack_buf node zero = fault
unpack_buf (str s) (suc n) = if ltb (suc n) (length s) then ok none else ok (some s)
unpack_buf _ (suc n) = ok none

-- `!strcmp(a, b)`
unfoldable pub same_text : Bytes → Bytes → Bool
same_text [] [] = true
same_text [] (y ∷ b) = false
same_text (x ∷ a) [] = false
same_text (x ∷ a) (y ∷ b) = if x == y then same_text a b else false

-- `be_find_node`
unfoldable pub find_pair : Bytes → Pairs → Option Node
unfolding same_text
find_pair key end = none
find_pair key (pair k v ps) = elim (same_text key (c_str k)) [
  | true ↦ some v
  | false ↦ find_pair key ps
]

unfoldable pub find_node : Node → Bytes → Option Node
unfolding find_pair
find_node (dict d) key = find_pair key d
find_node _ key = none
