-- ===== src/Lib.antt =====
-- A verification library for vdht, a distributed hash table node in C.
--
-- The program. A node keeps three tables: of peer nodes (vroute_node.c), of services
-- (vroute_srvc.c) and of tickets, the queries that wait for an answer (vroute_tckt.c). vroute.c
-- dispatches messages to them, vdht.c and vdht_core.c encode and decode the messages, vrpc.c and
-- vmsger.c send and receive them. Below these stand the records of vnodeId.c (IDs, nodes,
-- services, connections) and the containers of utils: growable arrays (varray.c), a slab
-- allocator (vmem.c), lists and maps. The tables keep their entries in arrays of pointers, the
-- entries and their IDs, addresses and services are the records, and the objects come from slabs.
--
-- The files.
--   Base       shared names, Boolean tests, lists, and results of code that may fault
--   Varray     utils/varray.c: the array (struct varray), its operations and the sorted insertion
--   Mem        utils/vmem.c: the slab allocator (struct vmem_aux)
--   Token      vnodeId.c: vtoken_equal, vnodeId_dist, vnodeId_bucket, vnodeMetric_cmp
--   Hex        vnodeId.c: vtoken_strlize, vtoken_unstrlize and the same of nonces and hashes
--   Addrs      vnodeId.c, utils/vmisc.c: socket addresses, search and ordered insertion
--   NodeInfo   vnodeId.c: vnodeInfo and vnodeConn
--   SrvcInfo   vnodeId.c: vsrvcInfo and vsrvcId_bucket
--   TcktSpace  vroute_tckt.c: tickets and their table
--   SrvcSpace  vroute_srvc.c: the buckets of services
--   Peer       vroute_node.c: a peer, vpeer_update and the callbacks over a bucket
--   NodeSpace  vroute_node.c: the buckets of peers; Closest is find_closest_nodes
--   Bencode    vdht_core.c: bencoded objects; Encode is be_encode, Dict the rest of the interface
--   Dht        vdht.c: the messages; Decode is the half that reads
--   NodeNice   vnode_nice.c: the nice index of the node
--   Tests      runs on concrete inputs
-- An operation has the name of its C function without the prefix of its type (`add_tail` for
-- varray_add_tail, `check_ticket` for _vroute_tckt_space_check_ticket); `assign` is varray_set,
-- `drain` is varray_zero. A name in the singular with `_from`, `_into`, `_reserved` or `_released`
-- is the part of its function that follows a branch.
--
-- Conventions. State is passed and returned. `Run` is the result of code that may read or write
-- outside a block, follow NULL or a moved pointer, or fail a vassert (which writes through NULL);
-- all of these are `fault`. A result of -1 or NULL is `none`, or the state as it was. A Boolean
-- `mem` says whether the allocations of a call succeed. A slot of a block is an `Option`, `none`
-- for NULL or unwritten. An address array is the list of its first naddrs entries, with the size
-- of its block beside it. Bytes and counters are natural numbers; the conversion of the time to an
-- int is written out with its wrap-around. Callbacks and calls into other parts are logged as events.
--
-- Fuel. The loops of varray_zero, check_ticket, timed_reap and clear end by the state that they
-- change and are run on fuel; one round more than items is enough, and their theorems say so
-- (but for clear of the services, of which only its fault on a full bucket is shown).
-- be_decode runs on two rounds of fuel for each byte of its memory, which its theorem shows to be
-- enough. All other loops are recursions on a list or on a count of rounds.
--
-- Not modelled: threads and locks, sockets, logging, printing, the overflow of int counters, the
-- sqlite store of vroute_node.c, vroute.c, the configuration, the hash map,
-- and the third-party UPnP client.
pub mod Base
pub mod Varray
pub mod Mem
pub mod Token
pub mod Hex
pub mod Addrs
pub mod NodeInfo
pub mod NodeNice
pub mod SrvcInfo
pub mod TcktSpace
pub mod SrvcSpace
pub mod Peer
pub mod NodeSpace
pub mod Bencode
pub mod Dht
mod Tests
