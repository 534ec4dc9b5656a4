-- ===== src/NodeSpace/Nearest.antt =====
-- vroute_node.c, find_closest_nodes: what the caller gets.
use vdht.Base.{
  ℕ, zero, suc, ◌+◌, ◌<◌, ◌≤◌, ◌≡◌, refl, ap, sym, ◌∙◌, List, [], ◌∷◌, ◌++◌, length, take, min,
  get_elem?-append, append_assoc, append-nil, length-append, All, Bool-cases, Bool, true, false,
  some, pos, inl, inr, ok, arith, leb, leb-false, le→leb, ℤ-cases, decrement, if◌then◌else◌, ◌>>=◌,
  ◌>>◌, lt→ltb,
}
use vdht.NodeInfo
use vdht.NodeInfo.{NodeInfo}
use vdht.NodeInfo.Copy.{IsSource, copy_node_lem}
use vdht.NodeInfo.Insert.{IsValid}
use vdht.NodeSpace.{NodeSpace}
use vdht.NodeSpace.Closest
use vdht.NodeSpace.Find.{lower, lower_lem}
use mathlib.Core.Path.{subst}
use vdht.NodeSpace.Order.{
  IsId, HasId, Candidates, Ordered, All-candidates, All-ordered, candidates-Candidates,
  ordered-Ordered,
}
use vdht.NodeSpace.Gathered.{Hold, Gathered, empty, filled, ordered, collect_lem, length-ordered}
use vdht.Peer.{Peer}
use vdht.Token
use vdht.Token.{Token}
use vdht.Varray
use vdht.Varray.{Varray}
use vdht.Varray.Ends.{get_lem, add_tail-Holds}
use vdht.Varray.Holds.{Holds, size-Holds}

-- A record says what a peer says, but that the weight of the own version is one less.
pub record IsCopy (myver : Token) (x : Peer) (d : NodeInfo) : Type 0 where
  pub addrs : d.addrs ≡ x.nodei.addrs
  pub id : d.id ≡ x.nodei.id
  pub ver : d.ver ≡ x.nodei.ver
  pub weight :
      d.weight
      ≡ (if Token.equal x.nodei.ver myver then decrement x.nodei.weight else x.nodei.weight)

-- Records for peers, one for one.
pub data Copies (myver : Token) : List Peer → List NodeInfo → Type 0 where
  done : Copies myver [] []
  next :
      (x : Peer) (d : NodeInfo) (xs : List Peer) (ds : List NodeInfo)
      → IsCopy myver x d
      → Copies myver xs ds
      → Copies myver (x ∷ xs) (d ∷ ds)

abbrev pub Source : Peer → Type 0
Source x = IsSource x.nodei.addrs

relax_alloc-IsValid : IsValid NodeInfo.relax_alloc
relax_alloc-IsValid = record {
  fits = omega arith;
  backed = omega arith;
  step = refl;
  limit = omega arith;
  distinct = tt;
}

copied_lem :
    (myver : Token) (x : Peer)
    → Source x
    → (d : NodeInfo) × (Closest.copied true myver x.nodei ≡ ok d) × IsCopy myver x d
unfolding Closest.copied
copied_lem myver x source =
    let (d, run, addrs, same, _) = copy_node_lem x.nodei relax_alloc-IsValid source in
    let left = lower_lem (Token.equal x.nodei.ver myver) d x.nodei addrs same in
    (
      lower (Token.equal x.nodei.ver myver) d,
      rw (run, ◌>>=◌, same.1),
      record { addrs = left.0; id = left.1.0; ver = left.1.1; weight = left.1.2 },
    )

module _ (myver : Token) (num : ℕ) {sarray : Varray Peer} {all : List Peer}
    (h : Holds sarray all) where
  copy_from_lem :
      (pre xs : List Peer) (m : ℕ) {closest : Varray NodeInfo} {ys : List NodeInfo}
      → all ≡ pre ++ xs
      → num ≡ length pre + m
      → All Source xs
      → Holds closest ys
      → (w : Varray NodeInfo) × (ds : List NodeInfo) × (Closest.copy_from true true myver num sarray
            (length xs)
            (length pre)
            closest
          ≡ ok (w, length pre + min m (length xs)))
        × Holds w (ys ++ ds)
        × Copies myver (take m xs) ds
  unfolding Closest.copy_from
  copy_from_lem pre [] zero {closest} {ys} split count a c =
      (closest, [], ap (λ n. ok (closest, n)) (omega arith), rw (append-nil ys) c, done)
  copy_from_lem pre [] (suc m) {closest} {ys} split count a c =
      (closest, [], ap (λ n. ok (closest, n)) (omega arith), rw (append-nil ys) c, done)
  copy_from_lem pre (x ∷ xs) m {closest} {ys} split count a c =
      let read : Varray.get sarray (pos (length pre)) ≡ ok (some x) =
        get_lem (length pre) h
        ∙ ap (λ t. ok (vdht.Base.get_elem? t (length pre))) split
        ∙ ap ok (get_elem?-append pre x xs) in
      elim m
          as (λ m.
            num ≡ length pre + m
            → (w : Varray NodeInfo) × (ds : List NodeInfo) × (Closest.copy_from true true myver num
                  sarray (suc (length xs)) (length pre) closest
                ≡ ok (w, length pre + min m (suc (length xs))))
              × Holds w (ys ++ ds)
              × Copies myver (take m (x ∷ xs)) ds) [
                | zero ↦ λ e. (
                  closest,
                  [],
                  rw (read, ◌>>=◌, le→leb num (length pre) (omega (arith, e)))
                      (ap (λ n. ok (closest, n)) (omega arith)),
                  rw (append-nil ys) c,
                  done,
                )
                | suc k ↦ λ e.
                    let (d, run, copy) = copied_lem myver x a.0 in
                    let (v, put, t) = add_tail-Holds d c in
                    let shifted : length pre + 1 ≡ length (pre ++ x ∷ []) =
                      omega (arith, length-append pre (x ∷ [])) in
                    let (w, ds, more, s, copies) =
                      copy_from_lem (pre ++ x ∷ []) xs k
                        (split ∙ sym (append_assoc pre (x ∷ []) xs)) (omega (arith, e, shifted)) a.1
                        t in
                    (
                      w,
                      d ∷ ds,
                      rw
                          (
                            read,
                            ◌>>=◌,
                            leb-false num (length pre) (omega (arith, e)),
                            run,
                            put,
                            shifted,
                            more,
                          )
                          (ap (λ n. ok (w, n)) (omega (arith, sym shifted))),
                      rw (append_assoc ys (d ∷ []) ds) at s,
                      next x d (take k xs) ds copy copies,
                    )
              ]
        count

module _ (space : NodeSpace) (t : Token) where
  finish :
      {sarray : Varray Peer} {sorted : List Peer} (num : ℕ) {closest : Varray NodeInfo}
      {ys : List NodeInfo}
      → Gathered sarray sorted
      → All Source sorted
      → Holds closest ys
      → (w : Varray NodeInfo) × (ds : List NodeInfo) × (Closest.copy_from true true space.myver num
            sarray sarray.used 0 closest
          ≡ ok (w, min num (length sorted)))
        × Holds w (ys ++ ds)
        × Copies space.myver (take num sorted) ds
  unfolding Closest.copy_from
  finish zero {closest} {ys} empty a c = (closest, [], refl, rw (append-nil ys) c, done)
  finish (suc num) {closest} {ys} empty a c =
      (closest, [], ap (λ n. ok (closest, n)) (omega arith), rw (append-nil ys) c, done)
  finish {sarray} {sorted} num {closest} (filled h e) a c =
      let (w, ds, run, s, copies) =
        copy_from_lem space.myver num h [] sorted num refl (omega arith) a c in
      (
        w,
        ds,
        ap (λ n. Closest.copy_from true true space.myver num sarray n 0 closest) (size-Holds h)
            ∙ run
            ∙ ap (λ n. ok (w, n)) (omega arith),
        s,
        copies,
      )

  -- When all allocations succeed, on a table whose buckets hold peers with IDs of twenty bytes and
  -- at most twelve distinct addresses in order, of which at most 31 are candidates, that is not
  -- the target, of a version that is not the unknown one, and with a delay below that of an
  -- unreachable peer: find_closest_nodes gives the smaller of the number asked for, which is not
  -- 0, and that of the candidates, and appends that many records to the array of the caller. They
  -- are copies, with one less in weight for the own version, of the first candidates after each
  -- has been inserted, in the order of the table, before the first one that has at least as many
  -- open pings, the same version, and a lower weight or no smaller distance to the target, read as
  -- a number.
  pub find_closest_nodes_lem :
      {ps cs : List Peer} (num : ℕ) {closest : Varray NodeInfo} {ys : List NodeInfo}
      → 0 < num
      → Hold space.buckets ps
      → All Source ps
      → IsId t
      → All HasId ps
      → Candidates space t ps cs
      → length cs < 32
      → Holds closest ys
      → (w : Varray NodeInfo) × (ds : List NodeInfo) × (rs : List Peer)
        × (Closest.find_closest_nodes true true true space t closest num
            ≡ ok (w, min num (length cs)))
        × Holds w (ys ++ ds)
        × Ordered space t cs [] rs
        × Copies space.myver (take num rs) ds
  unfolding Closest.find_closest_nodes Varray.sorted_init Varray.init
  find_closest_nodes_lem {ps} {cs} num {closest} p h a i ids sieve few c =
      let one = candidates-Candidates space t sieve in
      let chosen : All Source cs = subst (All Source) one (All-candidates Source space t ps a) in
      let named : All HasId cs = subst (All HasId) one (All-candidates HasId space t ps ids) in
      let (sarray, gathered, g) = collect_lem space t h empty (omega (arith, few, ap length one)) in
      let (w, ds, run, s, copies) =
        finish num (subst (λ l. Gathered sarray (ordered space t l [])) one g)
          (All-ordered Source space t cs [] chosen tt) c in
      (
        w,
        ds,
        ordered space t cs [],
        rw (lt→ltb 0 num p, ◌>>◌, gathered, ◌>>=◌) run
            ∙ ap (λ n. ok (w, min num n)) (length-ordered space t cs [] ∙ omega arith),
        s,
        ordered-Ordered space t i cs [] named tt,
        copies,
      )
