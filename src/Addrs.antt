-- ===== src/Addrs.antt =====
-- Socket addresses and the address arrays of vnodeInfo and vsrvcInfo (vnodeId.h; utils/vmisc.c,
-- vsockaddr_equal; the loops of vnodeInfo_add_addr and vsrvcInfo_add_addr in vnodeId.c).
-- The array is the list of its first `naddrs` entries.
pub mod Insert
pub mod Front
use vdht.Base.{
  ℕ, zero, suc, ◌+◌, ◌==◌, ltb, if◌then◌else◌, Bool, true, false, ◌&&◌, List, [], ◌∷◌, ◌++◌, length,
  get_elem?, Option, none, some, take, drop, bit_and,
}

-- `struct sockaddr_in`
pub record SockAddr : Type 0 where
  pub sin_family : ℕ
  pub sin_addr : ℕ
  pub sin_port : ℕ

-- `struct vsockaddr_in`
pub record VSockAddr : Type 0 where
  pub addr : SockAddr
  pub type : ℕ

-- `VSOCKADDR_TYPE`
unfoldable pub sockaddr_type : ℕ → ℕ
sockaddr_type type = bit_and 0xff type

-- `VSOCKADDR_UNKNOWN`, `VSOCKADDR_BUTT`
abbrev pub unknown : ℕ
unknown = 4

abbrev pub butt : ℕ
butt = 5

-- `vsockaddr_equal`
unfoldable pub equal : SockAddr → SockAddr → Bool
equal a b = a.sin_family == b.sin_family && (a.sin_addr == b.sin_addr && a.sin_port == b.sin_port)

-- The search for an address: whether it is there.
unfoldable pub has : List VSockAddr → SockAddr → Bool
unfolding equal
has [] addr = false
has (x ∷ xs) addr = if equal x.addr addr then true else has xs addr

-- The same search, which gives the first entry with the address a new type if `changes` its old one.
unfoldable pub retype : (ℕ → Bool) → List VSockAddr → SockAddr → ℕ → List VSockAddr
unfolding equal
retype changes [] addr type = []
retype changes (x ∷ xs) addr type =
    if equal x.addr addr
    then (if changes x.type then record x { type = type } else x) ∷ xs
    else x ∷ retype changes xs addr type

-- `for (i = naddrs; i > 0; i--)`: entries of a larger kind move up by one; `new` goes to the slot
-- that is left. `kind` is VSOCKADDR_TYPE or the plain type.
abbrev moves : (ℕ → ℕ) → VSockAddr → Option VSockAddr → Bool
moves kind new none = false
moves kind new (some x) = ltb (kind new.type) (kind x.type)

unfoldable pub insert_back : (ℕ → ℕ) → VSockAddr → ℕ → List VSockAddr → List VSockAddr
insert_back kind new zero xs = new ∷ xs
insert_back kind new (suc i) xs = elim (moves kind new (get_elem? xs i)) [
  | true ↦ insert_back kind new i xs
  | false ↦ take (suc i) xs ++ new ∷ drop (suc i) xs
]
