-- ===== src/Addrs/Insert.antt =====
-- What the search and the insertion do to an address array.
use vdht.Base.{
  ℕ, zero, suc, ◌+◌, ◌<◌, ◌≤◌, ◌≡◌, ◌↔◌, refl, ap, sym, ◌∙◌, ltb, Bool, true, false, List, [], ◌∷◌,
  ◌++◌, length, All, IsSorted, All-split, All-map, All-append, get_elem?, some, arith,
  if◌then◌else◌, Bool-cases, inl, inr, ◌⊎◌, snoc-cases, ltb→lt, ltb-false→le, append_assoc,
  append-nil, length-append, take-append_length, drop-append_length, get_elem?-append,
}
use vdht.Addrs
use vdht.Addrs.{SockAddr, VSockAddr}

pub equal_iff : (a b : SockAddr) → (Addrs.equal a b ≡ true) ↔ (a ≡ b)
unfolding Addrs.equal
equal_iff a b = ground arith

pub equal_refl : (a : SockAddr) → Addrs.equal a a ≡ true
equal_refl a = (equal_iff a a).1 refl

-- No address stands in the array twice.
abbrev pub IsDistinct : List VSockAddr → Type 0
IsDistinct [] = Unit
IsDistinct (x ∷ xs) = (Addrs.has xs x.addr ≡ false) × IsDistinct xs

-- The kinds do not fall along the array.
abbrev pub InOrder : (ℕ → ℕ) → List VSockAddr → Type 0
InOrder kind = IsSorted (λ x y. kind x.type ≤ kind y.type)

pub has-append :
    (xs ys : List VSockAddr) (a : SockAddr)
    → Addrs.has (xs ++ ys) a ≡ (if Addrs.has xs a then true else Addrs.has ys a)
unfolding Addrs.has
has-append [] ys a = refl
has-append (x ∷ xs) ys a = ground (arith, has-append xs ys a)

-- The type of an entry plays no part in a search.
pub has-retype :
    (changes : ℕ → Bool) (xs : List VSockAddr) (addr a : SockAddr) (type : ℕ)
    → Addrs.has (Addrs.retype changes xs addr type) a ≡ Addrs.has xs a
unfolding Addrs.has Addrs.retype
has-retype changes [] addr a type = refl
has-retype changes (x ∷ xs) addr a type = ground (arith, has-retype changes xs addr a type)

pub retype-IsDistinct :
    (changes : ℕ → Bool) (xs : List VSockAddr) (addr : SockAddr) (type : ℕ)
    → IsDistinct xs
    → IsDistinct (Addrs.retype changes xs addr type)
unfolding Addrs.retype
retype-IsDistinct changes [] addr type d = d
retype-IsDistinct changes (x ∷ xs) addr type d = elim (Bool-cases (Addrs.equal x.addr addr)) [
  | inl e ↦ rw e (ground arith)
  | inr e ↦
      rw e
        (has-retype changes xs addr x.addr type ∙ d.0, retype-IsDistinct changes xs addr type d.1)
]

pub length-retype :
    (changes : ℕ → Bool) (xs : List VSockAddr) (addr : SockAddr) (type : ℕ)
    → length (Addrs.retype changes xs addr type) ≡ length xs
unfolding Addrs.retype
length-retype changes [] addr type = refl
length-retype changes (x ∷ xs) addr type = ground (arith, length-retype changes xs addr type)

pub has-cons :
    (x : VSockAddr) (ys : List VSockAddr) (b : SockAddr)
    → Addrs.has (x ∷ ys) b ≡ (if Addrs.equal x.addr b then true else Addrs.has ys b)
unfolding Addrs.has
has-cons x ys b = refl

insert_IsDistinct :
    (pre post : List VSockAddr) (new : VSockAddr)
    → Addrs.has (pre ++ post) new.addr ≡ false
    → IsDistinct (pre ++ post)
    → IsDistinct (pre ++ new ∷ post)
insert_IsDistinct [] post new h d = (h, d)
insert_IsDistinct (x ∷ pre) post new h d =
    let here = has-cons x (pre ++ post) new.addr in
    let before = has-append pre post x.addr in
    let after = has-append pre (new ∷ post) x.addr in
    let first = has-cons new post x.addr in
    let swap : Addrs.equal new.addr x.addr ≡ true → Addrs.equal x.addr new.addr ≡ true =
      λ e. (equal_iff x.addr new.addr).1 (sym ((equal_iff new.addr x.addr).0 e)) in
    (
      ground (arith, here, before, after, first, swap, d.0),
      insert_IsDistinct pre post new (ground (arith, here)) d.1,
    )

insert_InOrder :
    (kind : ℕ → ℕ) (pre post : List VSockAddr) (new : VSockAddr)
    → InOrder kind (pre ++ post)
    → All (λ x. kind x.type ≤ kind new.type) pre
    → All (λ y. kind new.type < kind y.type) post
    → InOrder kind (pre ++ new ∷ post)
insert_InOrder kind [] post new s low high = (
  All-map (λ y. kind new.type < kind y.type) (λ y. kind new.type ≤ kind y.type) (λ y h. omega arith)
      post high,
  s,
)
insert_InOrder kind (x ∷ pre) post new s low high =
    let (front, back) = All-split (λ y. kind x.type ≤ kind y.type) pre post s.0 in
    (
      All-append (λ y. kind x.type ≤ kind y.type) pre (new ∷ post) front (low.0, back),
      insert_InOrder kind pre post new s.1 low.1 high,
    )

InOrder-front :
    (kind : ℕ → ℕ) (pre post : List VSockAddr) → InOrder kind (pre ++ post) → InOrder kind pre
InOrder-front kind [] post s = tt
InOrder-front kind (x ∷ pre) post s =
    ((All-split (λ y. kind x.type ≤ kind y.type) pre post s.0).0, InOrder-front kind pre post s.1)

-- In an ordered array all entries are at most the last one.
All-below_last :
    (kind : ℕ → ℕ) (q : List VSockAddr) (y : VSockAddr) (k : ℕ)
    → InOrder kind (q ++ y ∷ [])
    → kind y.type ≤ k
    → All (λ x. kind x.type ≤ k) (q ++ y ∷ [])
All-below_last kind [] y k s h = (h, tt)
All-below_last kind (x ∷ q) y k s h =
    let (_, last) = All-split (λ z. kind x.type ≤ kind z.type) q (y ∷ []) s.0 in
    (omega arith, All-below_last kind q y k s.1 h)

module _ (kind : ℕ → ℕ) (new : VSockAddr) where
  abbrev LastBelow : List VSockAddr → Type 0
  LastBelow pre =
      (pre ≡ [])
      ⊎ ((q : List VSockAddr) × (y : VSockAddr) × (pre ≡ q ++ y ∷ [])
          × (kind y.type ≤ kind new.type))

  -- Where the insertion puts the entry.
  pub record Placed (xs out : List VSockAddr) : Type 0 where
    pub pre : List VSockAddr
    pub post : List VSockAddr
    pub split : xs ≡ pre ++ post
    pub result : out ≡ pre ++ new ∷ post
    pub above : All (λ y. kind new.type < kind y.type) post
    pub below : LastBelow pre

  insert_split :
      (i : ℕ) (pre post : List VSockAddr)
      → length pre ≡ i
      → All (λ y. kind new.type < kind y.type) post
      → Placed (pre ++ post) (Addrs.insert_back kind new i (pre ++ post))
  unfolding Addrs.insert_back
  insert_split zero [] post h a = record {
    pre = [];
    post = post;
    split = refl;
    result = refl;
    above = a;
    below = inl refl;
  }
  insert_split zero (x ∷ pre) post h a = absurd (omega arith)
  insert_split (suc i) pre post h a = elim (snoc-cases pre) [
    | inl e ↦ absurd (omega (arith, ap length e))
    | inr (q, y, e) ↦
        let size : length q ≡ i = omega (arith, ap length e, length-append q (y ∷ [])) in
        let whole : pre ++ post ≡ q ++ y ∷ post = rw e (append_assoc q (y ∷ []) post) in
        let item : get_elem? (pre ++ post) i ≡ some y =
          rw (whole, ← size) (get_elem?-append q y post) in
        elim (Bool-cases (ltb (kind new.type) (kind y.type))) [
          | inl up ↦
              rw (item, Addrs.insert_back, up, whole)
                (insert_split i q (y ∷ post) size (ltb→lt _ _ up, a))
          | inr stay ↦
              rw (item, Addrs.insert_back, stay, ← h, take-append_length, drop-append_length)
                (record {
                  pre = pre;
                  post = post;
                  split = refl;
                  result = refl;
                  above = a;
                  below = inr (q, y, e, ltb-false→le _ _ stay);
                })
        ]
  ]

  pub insert_back-Placed :
      (xs : List VSockAddr) → Placed xs (Addrs.insert_back kind new (length xs) xs)
  insert_back-Placed xs = rw append-nil at (insert_split (length xs) xs [] refl tt)

  -- What an insertion means for searches, for distinctness and for the order.
  module _ {xs out : List VSockAddr} (placed : Placed xs out) where
    pub length-Placed : length out ≡ length xs + 1
    length-Placed = omega (
      arith,
      ap length placed.split,
      ap length placed.result,
      length-append placed.pre placed.post,
      length-append placed.pre (new ∷ placed.post),
    )

    pub has-Placed :
        (a : SockAddr) → Addrs.has out a ≡ (if Addrs.equal new.addr a then true else Addrs.has xs a)
    has-Placed a =
        let before = has-append placed.pre placed.post a in
        let after = has-append placed.pre (new ∷ placed.post) a in
        let first = has-cons new placed.post a in
        rw (placed.split, placed.result) (ground (arith, before, after, first))

    pub Placed-IsDistinct : Addrs.has xs new.addr ≡ false → IsDistinct xs → IsDistinct out
    Placed-IsDistinct h d =
        rw placed.result (
          insert_IsDistinct placed.pre placed.post new (rw placed.split at h)
            (rw placed.split at d))

    pub Placed-InOrder : InOrder kind xs → InOrder kind out
    Placed-InOrder s =
        let whole = rw placed.split at s in
        rw placed.result (insert_InOrder kind placed.pre placed.post new whole low placed.above)
      where
        front : InOrder kind placed.pre
        front = InOrder-front kind placed.pre placed.post (rw placed.split at s)

        low : All (λ x. kind x.type ≤ kind new.type) placed.pre
        low = elim placed.below [
          | inl e ↦ rw e tt
          | inr (q, y, e, h) ↦ rw e (All-below_last kind q y (kind new.type) (rw e at front) h)
        ]

    -- An entry of the largest kind goes to the end.
    pub Placed_last : All (λ x. kind x.type ≤ kind new.type) xs → out ≡ xs ++ new ∷ []
    Placed_last a = elim (snoc-cases placed.post) [
      | inl e ↦ rw (placed.result, placed.split, e, append-nil)
      | inr (q, y, e) ↦ absurd (clash q y e)
    ]
      where
        clash : (q : List VSockAddr) (y : VSockAddr) → placed.post ≡ q ++ y ∷ [] → ⊥
        clash q y e =
            let back =
              (All-split (λ x. kind x.type ≤ kind new.type) placed.pre placed.post
                (rw placed.split at a)).1 in
            let le = (All-split (λ x. kind x.type ≤ kind new.type) q (y ∷ []) (rw e at back)).1 in
            let lt =
              (All-split (λ x. kind new.type < kind x.type) q (y ∷ []) (rw e at placed.above)).1 in
            omega arith
