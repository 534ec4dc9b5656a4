-- ===== src/Addrs/Front.antt =====
-- What a well-formed address array says of the entries before a given one.
use vdht.Base.{ℕ, ◌≤◌, ◌≡◌, refl, List, [], ◌∷◌, ◌++◌, false, arith, All, All-split}
use vdht.Addrs
use vdht.Addrs.Insert.{IsDistinct, InOrder, has-append, has-cons, equal_iff}
use vdht.Addrs.{VSockAddr}

pub IsDistinct-new :
    (pre post : List VSockAddr) (x : VSockAddr)
    → IsDistinct (pre ++ x ∷ post)
    → Addrs.has pre x.addr ≡ false
IsDistinct-new [] post x d = unfold Addrs.has in refl
IsDistinct-new (y ∷ pre) post x d =
    let later = has-append pre (x ∷ post) y.addr in
    let first = has-cons x post y.addr in
    let here = has-cons y pre x.addr in
    ground (
      arith,
      here,
      later,
      first,
      d.0,
      IsDistinct-new pre post x d.1,
      equal_iff x.addr y.addr,
      equal_iff y.addr x.addr,
    )

pub InOrder-new :
    (kind : ℕ → ℕ) (pre post : List VSockAddr) (x : VSockAddr)
    → InOrder kind (pre ++ x ∷ post)
    → All (λ y. kind y.type ≤ kind x.type) pre
InOrder-new kind [] post x o = tt
InOrder-new kind (y ∷ pre) post x o = (
  (All-split (λ z. kind y.type ≤ kind z.type) pre (x ∷ post) o.0).1.0,
  InOrder-new kind pre post x o.1,
)
