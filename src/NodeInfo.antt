-- ===== src/NodeInfo.antt =====
-- vnodeId.c: vnodeInfo, the record of a DHT node with its addresses, and vnodeConn.
-- `naddrs` is the length of `addrs`; `slots` is the number of entries that the block has memory
-- for. `mem` says whether `realloc` succeeds. A result of -1 is `none`.
pub mod Insert
pub mod Copy
pub mod Merge
use vdht.Base.{
  ℕ, zero, suc, ◌+◌, ◌-◌, ◌*◌, ◌==◌, ltb, leb, if◌then◌else◌, Bool, true, false, not, ◌&&◌, ◌||◌,
  List, [], ◌∷◌, length, get_elem?, Option, none, some, ℤ, pos, replicate, Run, ok, fault, ◌>>=◌,
  ◌>>◌, vassert, ltb_int,
}
use vdht.Addrs
use vdht.Addrs.{SockAddr, VSockAddr, sockaddr_type, unknown}
use vdht.Token
use vdht.Token.{Token, token_len}

-- `struct vnodeInfo`
pub record NodeInfo : Type 0 where
  pub id : Token
  pub ver : Token
  pub weight : ℤ
  pub capc : ℕ
  pub slots : ℕ
  pub addrs : List VSockAddr

-- VNODEINFO_MAX_ADDRS, VNODEINFO_MIN_ADDRS
abbrev pub max_addrs : ℕ
max_addrs = 12

abbrev pub min_addrs : ℕ
min_addrs = 4

-- `vnodeInfo_relax_alloc` and `vnodeInfo_alloc` when its allocation succeeds: a record of zeros
abbrev pub relax_alloc : NodeInfo
relax_alloc = record {
  id = replicate token_len 0;
  ver = replicate token_len 0;
  weight = pos 0;
  capc = max_addrs;
  slots = max_addrs;
  addrs = [];
}

abbrev pub alloc : NodeInfo
alloc = record {
  id = replicate token_len 0;
  ver = replicate token_len 0;
  weight = pos 0;
  capc = min_addrs;
  slots = min_addrs;
  addrs = [];
}

-- `vnodeInfo_relax_init` on a `vnodeInfo_relax`, with its `vassert(weight >= 0)`
unfoldable pub relax_init : Token → Token → ℤ → Run NodeInfo
unfolding Token.copy
relax_init id ver weight =
    vassert (not (ltb_int weight (pos 0)))
    >> ok (record {
      id = Token.copy id;
      ver = Token.copy ver;
      weight = weight;
      capc = max_addrs;
      slots = max_addrs;
      addrs = [];
    })

-- `vnodeInfo_init` on a block of `vnodeInfo_alloc`, with the same `vassert`
unfoldable pub init : Token → Token → ℤ → Run NodeInfo
unfolding Token.copy
init id ver weight =
    vassert (not (ltb_int weight (pos 0)))
    >> ok (record {
      id = Token.copy id;
      ver = Token.copy ver;
      weight = weight;
      capc = min_addrs;
      slots = min_addrs;
      addrs = [];
    })

-- the growth of the block in `vnodeInfo_add_addr`
reserve : Bool → NodeInfo → Option NodeInfo
reserve mem n =
    if leb n.capc (length n.addrs)
    then (if mem
        then some (record n { slots = min_addrs + n.capc; capc = n.capc + min_addrs })
        else none)
    else some n

-- whether a known address takes the new type
abbrev pub changes : ℕ → ℕ → Bool
changes type old =
    not (sockaddr_type type == unknown) && not (sockaddr_type old == sockaddr_type type)

-- the search and the insertion; the write at index `naddrs` must lie in the block
add_reserved : Option NodeInfo → SockAddr → ℕ → Run (Option (NodeInfo × Bool))
unfolding Addrs.has Addrs.retype Addrs.insert_back
add_reserved none addr type = ok none
add_reserved (some n) addr type =
    if Addrs.has n.addrs addr
    then ok (some (record n { addrs = Addrs.retype (changes type) n.addrs addr type }, false))
    else if ltb (length n.addrs) n.slots
    then ok (
        some (
          record n {
            addrs =
                Addrs.insert_back sockaddr_type (record { addr = addr; type = type })
                  (length n.addrs) n.addrs;
          },
          true,
        ))
    else fault

-- `vnodeInfo_add_addr`; the flag is its result `!found`
unfoldable pub add_addr : Bool → NodeInfo → SockAddr → ℕ → Run (Option (NodeInfo × Bool))
unfolding reserve add_reserved
add_addr mem n addr type =
    if leb max_addrs (length n.addrs) then ok none else add_reserved (reserve mem n) addr type

-- `vnodeInfo_has_addr`
unfoldable pub has_addr : NodeInfo → SockAddr → Bool
unfolding Addrs.has
has_addr n addr = Addrs.has n.addrs addr

-- the loop of `vnodeInfo_copy`; it gives `false` where an insertion fails
copy_addrs : Bool → NodeInfo → List VSockAddr → Run (NodeInfo × Bool)
unfolding add_addr
copy_addrs mem dest [] = ok (dest, true)
copy_addrs mem dest (x ∷ xs) = add_addr mem dest x.addr x.type >>= λ r. elim r [
  | none ↦ ok (dest, false)
  | some (d, _) ↦ copy_addrs mem d xs
]

-- `vnodeInfo_copy`, with the bound of its `memset`
unfoldable pub copy : Bool → NodeInfo → NodeInfo → Run (NodeInfo × Option Bool)
unfolding copy_addrs Token.copy
copy mem dest src =
    if ltb dest.slots dest.capc
    then fault
    else (copy_addrs mem
          (record dest {
            id = Token.copy src.id;
            ver = Token.copy src.ver;
            weight = src.weight;
            addrs = [];
          })
          src.addrs
        >>= λ r. ok (r.0, if r.1 then some (ltb 0 (length src.addrs)) else none))

-- `vnodeInfo_is_fake`
unfoldable pub is_fake : NodeInfo → Bool
unfolding Token.equal Token.unknown_ver
is_fake n = Token.equal n.ver Token.unknown_ver

-- the loop of `vnodeInfo_merge` over a fake source. It searches through the pointer `dest` from
-- before the loop; `stale` says that `realloc` has freed that block since.
merge_fake : Bool → Bool → NodeInfo → List VSockAddr → Bool → Run (NodeInfo × Option Bool)
unfolding add_addr has_addr
merge_fake mem stale dest [] updated = ok (dest, some updated)
merge_fake mem stale dest (x ∷ xs) updated =
    let skipped = merge_fake mem stale dest xs updated in
    let added = add_addr mem dest x.addr x.type >>= λ r. elim r [
      | none ↦ ok (dest, none)
      | some (d, _) ↦ merge_fake mem (stale || not (d.capc == dest.capc)) d xs true
    ] in
    if stale then fault else if has_addr dest x.addr then skipped else added

-- the loop of `vnodeInfo_merge` over arrays of one length
abbrev pub merge_entry : VSockAddr → VSockAddr → VSockAddr
merge_entry d s =
    if Addrs.equal d.addr s.addr then d else record { addr = s.addr; type = sockaddr_type d.type }

unfoldable pub merge_addrs : List VSockAddr → List VSockAddr → List VSockAddr × Bool
unfolding Addrs.equal
merge_addrs [] ss = ([], false)
merge_addrs (d ∷ ds) [] = (d ∷ ds, false)
merge_addrs (d ∷ ds) (s ∷ ss) =
    let (rest, updated) = merge_addrs ds ss in
    (merge_entry d s ∷ rest, not (Addrs.equal d.addr s.addr) || updated)

-- `vnodeInfo_merge`
unfoldable pub merge : Bool → NodeInfo → NodeInfo → Run (NodeInfo × Option Bool)
unfolding Token.equal Token.copy is_fake merge_fake copy merge_addrs
merge mem dest src =
    if not (Token.equal dest.id src.id)
    then ok (dest, some false)
    else if is_fake src
    then merge_fake mem false dest src.addrs false
    else if not (length dest.addrs == length src.addrs)
    then (copy mem dest src >>= λ r. ok (r.0, elim r.1 [ none ↦ none | some _ ↦ some true ]))
    else let (addrs, updated) = merge_addrs dest.addrs src.addrs in
      ok
        (record dest { ver = Token.copy src.ver; weight = src.weight; addrs = addrs }, some updated)

-- `vnodeInfo_worst_addr`; an empty array is read at index -1
unfoldable pub last_addr : List VSockAddr → Run SockAddr
last_addr [] = fault
last_addr (x ∷ []) = ok x.addr
last_addr (x ∷ y ∷ xs) = last_addr (y ∷ xs)

unfoldable pub worst_addr : NodeInfo → Run SockAddr
unfolding last_addr
worst_addr n = last_addr n.addrs

-- `struct vnodeConn`
pub record NodeConn : Type 0 where
  pub priority : ℕ
  pub laddr : SockAddr
  pub raddr : SockAddr

-- `vnodeConn_set`, `vnodeConn_set_raw`, `vnodeConn_adjust`
unfoldable pub conn_set : VSockAddr → VSockAddr → NodeConn
unfolding sockaddr_type
conn_set local remote = record {
  priority = sockaddr_type local.type + sockaddr_type remote.type;
  laddr = local.addr;
  raddr = remote.addr;
}

unfoldable pub conn_set_raw : SockAddr → SockAddr → NodeConn
conn_set_raw laddr raddr = record { priority = unknown + unknown; laddr = laddr; raddr = raddr }

unfoldable pub conn_adjust : NodeConn → NodeConn → NodeConn
conn_adjust old neo =
    if ltb old.priority neo.priority
    then old
    else record old { priority = neo.priority; laddr = neo.laddr; raddr = neo.raddr }
