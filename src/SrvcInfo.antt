-- ===== src/SrvcInfo.antt =====
-- vnodeId.c: vsrvcInfo, the record of a service with its addresses, and its bucket.
-- `naddrs` is the length of `addrs`; `slots` is the number of entries that the block has memory
-- for. `mem` says whether `realloc` succeeds. A result of -1 is `none`.
pub mod Insert
pub mod Copy
use vdht.Base.{
  ℕ, zero, suc, ◌+◌, ◌%◌, ◌==◌, ltb, leb, if◌then◌else◌, Bool, true, false, not, List, [], ◌∷◌,
  length, Option, none, some, ℤ, pos, replicate, Run, ok, fault, ◌>>=◌, vassert, ◌>>◌, ltb_int,
}
use vdht.Addrs
use vdht.Addrs.{SockAddr, VSockAddr, butt}
use vdht.Token
use vdht.Token.{Token, token_len, token_bitlen}

-- `struct vsrvcInfo`
pub record SrvcInfo : Type 0 where
  pub hash : Token
  pub hostid : Token
  pub nice : ℤ
  pub proto : ℕ
  pub capc : ℕ
  pub slots : ℕ
  pub addrs : List VSockAddr

-- VSRVCINFO_MAX_ADDRS, VSRVCINFO_MIN_ADDRS
abbrev pub max_addrs : ℕ
max_addrs = 12

abbrev pub min_addrs : ℕ
min_addrs = 2

-- `vsrvcInfo_alloc` when `malloc` succeeds: a record of zeros
abbrev pub alloc : SrvcInfo
alloc = record {
  hash = replicate token_len 0;
  hostid = replicate token_len 0;
  nice = pos 0;
  proto = 0;
  capc = min_addrs;
  slots = min_addrs;
  addrs = [];
}

-- `vsrvcInfo_relax_init` on a `vsrvcInfo_relax`
unfoldable pub relax_init : Token → Token → ℤ → ℕ → SrvcInfo
unfolding Token.copy Token.hash_copy
relax_init hash hostid nice proto = record {
  hash = Token.hash_copy hash;
  hostid = Token.copy hostid;
  nice = nice;
  proto = proto;
  capc = max_addrs;
  slots = max_addrs;
  addrs = [];
}

-- `vsrvcInfo_init` on a block of `vsrvcInfo_alloc`, with its `vassert(nice >= 0)`
unfoldable pub init : Token → Token → ℤ → ℕ → Run SrvcInfo
unfolding Token.copy Token.hash_copy
init hash hostid nice proto =
    vassert (not (ltb_int nice (pos 0)))
    >> ok (record {
      hash = Token.hash_copy hash;
      hostid = Token.copy hostid;
      nice = nice;
      proto = proto;
      capc = min_addrs;
      slots = min_addrs;
      addrs = [];
    })

-- the growth of the block in `vsrvcInfo_add_addr`
reserve : Bool → SrvcInfo → Option SrvcInfo
reserve mem s =
    if leb s.capc (length s.addrs)
    then (if mem
        then some (record s { slots = min_addrs + s.capc; capc = s.capc + min_addrs })
        else none)
    else some s

abbrev pub changes : ℕ → ℕ → Bool
changes type old = not (old == type)

-- the search and the insertion; the write at index `naddrs` must lie in the block
add_reserved : Option SrvcInfo → SockAddr → ℕ → Run (Option SrvcInfo)
unfolding Addrs.has Addrs.retype Addrs.insert_back
add_reserved none addr type = ok none
add_reserved (some s) addr type =
    if Addrs.has s.addrs addr
    then ok (some (record s { addrs = Addrs.retype (changes type) s.addrs addr type }))
    else if ltb (length s.addrs) s.slots
    then ok (
        some (record s {
          addrs =
              Addrs.insert_back (λ t. t) (record { addr = addr; type = type }) (length s.addrs)
                s.addrs;
        }))
    else fault

-- `vsrvcInfo_add_addr`
unfoldable pub add_addr : Bool → SrvcInfo → SockAddr → ℕ → Run (Option SrvcInfo)
unfolding reserve add_reserved
add_addr mem s addr type =
    vassert (ltb type butt)
    >> (if leb max_addrs (length s.addrs) then ok none else add_reserved (reserve mem s) addr type)

-- the search and the downward loop of `vsrvcInfo_del_addr`
unfoldable pub remove_addr : List VSockAddr → SockAddr → List VSockAddr
unfolding Addrs.equal
remove_addr [] addr = []
remove_addr (x ∷ xs) addr = if Addrs.equal x.addr addr then xs else x ∷ remove_addr xs addr

-- `vsrvcInfo_del_addr`
unfoldable pub del_addr : SrvcInfo → SockAddr → SrvcInfo
unfolding remove_addr
del_addr s addr = record s { addrs = remove_addr s.addrs addr }

-- `vsrvcInfo_is_empty`
unfoldable pub is_empty : SrvcInfo → Bool
is_empty s = length s.addrs == 0

-- the loop of `vsrvcInfo_copy`; it gives `false` where an insertion fails
copy_addrs : Bool → SrvcInfo → List VSockAddr → Run (SrvcInfo × Bool)
unfolding add_addr
copy_addrs mem dest [] = ok (dest, true)
copy_addrs mem dest (x ∷ xs) = add_addr mem dest x.addr x.type >>= λ r. elim r [
  | none ↦ ok (dest, false)
  | some d ↦ copy_addrs mem d xs
]

-- `vsrvcInfo_copy`; the flag is `false` where it returns -1
unfoldable pub copy : Bool → SrvcInfo → SrvcInfo → Run (SrvcInfo × Bool)
unfolding copy_addrs Token.copy Token.hash_copy
copy mem dest src =
    copy_addrs mem
      (record dest {
        hash = Token.hash_copy src.hash;
        hostid = Token.copy src.hostid;
        nice = src.nice;
        proto = src.proto;
        addrs = [];
      })
      src.addrs

-- `vsrvcId_bucket`
unfoldable pub hash_sum : Token → ℕ → ℕ
hash_sum [] hash = hash
hash_sum (x ∷ id) hash = hash_sum id (hash + x % token_bitlen)

unfoldable pub bucket : Token → ℕ
unfolding hash_sum
bucket id = hash_sum id 0 % token_bitlen
