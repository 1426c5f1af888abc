-- ===== src/Sim/Heap/Sift.antt =====
-- internal/sim/heap.go: `up` and `down` of container/heap restore the heap order.
use election_go.Base.{
  ℕ, zero, suc, ◌+◌, ◌*◌, ◌≡◌, ◌≢◌, ◌<◌, ◌≤◌, refl, sym, ltb, ◌==◌, true, arith, if_elim, length,
  Bool-cases, inl, inr, ◌⊎◌, subst,
}
use election_go.Sim.Heap.{TimerHeap, less, swap, parent, up, least_child, down, sift}
use election_go.Sim.Heap.Order.{
  Key, kle, key, Le, kle_trans, less-Le, not-less-Le, key-swap, size-swap, IsHeapTo, UpInv,
  swap-UpInv,
}

pub up-IsHeapTo : (k n : ℕ) (h : TimerHeap) (i : ℕ) → i ≤ k → UpInv n h i → IsHeapTo n (up k h i)
unfolding up
up-IsHeapTo zero n h i f v = λ c z l. v.edges c z l (omega arith)
up-IsHeapTo (suc k) n h i f v =
    let hi : i < length h.items = omega (arith, v.inside, v.sized) in
    let hp : parent i < length h.items = omega arith in
    elim (Bool-cases (parent i == i)) [
      | inl top ↦ rw (top, up) (λ c z l. v.edges c z l (ground arith))
      | inr more ↦ elim (Bool-cases (less h i (parent i))) [
        | inl below ↦
            let le = less-Le h i (parent i) hi hp below in
            rw (more, below, up)
              (up-IsHeapTo k n (swap h (parent i) i) (parent i) (ground arith)
                (swap-UpInv n h i v (ground arith) le))
        | inr stop ↦
            let le = not-less-Le h i (parent i) hi hp stop in
            rw (more, stop, up) (λ c z l. ground (arith, v.edges c, le))
      ]
    ]

-- Below `n` only the edges at `i` may be out of order.
pub record LooseInv (n : ℕ) (h : TimerHeap) (i : ℕ) : Type 0 where
  pub inside : i < n
  pub sized : n ≤ length h.items
  pub edges : (c : ℕ) → 0 < c → c < n → c ≢ i → parent c ≢ i → Le h (parent c) c
  pub bridged : (c : ℕ) → 0 < c → c < n → parent c ≡ i → 0 < i → Le h (parent i) c

-- Of these, only the edges to the children of `i`.
pub record DownInv (n : ℕ) (h : TimerHeap) (i : ℕ) : Type 0 where
  pub loose : LooseInv n h i
  pub above : 0 < i → Le h (parent i) i

-- The child that `down` chooses is the first of the children.
record IsLeast (n : ℕ) (h : TimerHeap) (i j : ℕ) : Type 0 where
  inside : j < n
  child : parent j ≡ i
  lower : i < j
  least : (c : ℕ) → 0 < c → c < n → parent c ≡ i → Le h j c

kle_refl : (a : Key) → kle a a ≡ true
kle_refl a = ground arith

-- A child that comes before both children of `i`.
IsLeast-of :
    (n : ℕ) (h : TimerHeap) (i j : ℕ)
    → j < n
    → parent j ≡ i
    → i < j
    → Le h j (2 * i + 1)
    → (2 * i + 1 + 1 < n → Le h j (2 * i + 1 + 1))
    → IsLeast n h i j
IsLeast-of n h i j inside child lower left right = record {
  inside = inside;
  child = child;
  lower = lower;
  least = λ c z b e. elim (Bool-cases (c == 2 * i + 1)) [
    | inl f ↦ let same : 2 * i + 1 ≡ c = ground arith in subst (λ x. Le h j x) same left
    | inr f ↦
        let same : 2 * i + 1 + 1 ≡ c = ground arith in
        subst (λ x. Le h j x) same (right (omega arith))
  ];
}

least_child-IsLeast :
    (n : ℕ) (h : TimerHeap) (i : ℕ)
    → 2 * i + 1 < n
    → n ≤ length h.items
    → IsLeast n h i (least_child h n i)
unfolding least_child
least_child-IsLeast n h i lt le =
    let l = 2 * i + 1 in
    elim (Bool-cases (ltb (l + 1) n)) [
      | inr one ↦
          rw (one, least_child)
            (IsLeast-of n h i l lt (omega arith) (omega arith) (kle_refl (key h l))
              (λ b. absurd (ground arith)))
      | inl two ↦
          let lt' : l + 1 < n = ground arith in
          let hl : l < length h.items = omega arith in
          let hr : l + 1 < length h.items = omega arith in
          elim (Bool-cases (less h (l + 1) l)) [
            | inl r ↦
                rw (two, r, least_child)
                  (IsLeast-of n h i (l + 1) lt' (omega arith) (omega arith)
                    (less-Le h (l + 1) l hr hl r) (λ b. kle_refl (key h (l + 1))))
            | inr r ↦
                rw (two, r, least_child)
                  (IsLeast-of n h i l lt (omega arith) (omega arith) (kle_refl (key h l))
                    (λ b. not-less-Le h (l + 1) l hr hl r))
          ]
    ]

swap-DownInv :
    (n : ℕ) (h : TimerHeap) (i j : ℕ)
    → LooseInv n h i
    → IsLeast n h i j
    → Le h j i
    → DownInv n (swap h i j) j
swap-DownInv n h i j v m le =
    let hi : i < length h.items = omega (arith, v.inside, v.sized) in
    let hj : j < length h.items = omega (arith, m.inside, v.sized) in
    let k = key-swap h i j hi hj in
    let child = m.child in
    let lower = m.lower in
    record {
      loose = record {
        inside = m.inside;
        sized = omega (arith, v.sized, size-swap h i j hi hj);
        edges = λ c z l ne np.
            ground (arith, k c, k (parent c), v.edges c, v.bridged j, m.least c, m.inside);
        bridged = λ c z l e q. ground (arith, k c, k i, v.edges c, child, lower);
      };
      above = λ q. ground (arith, k j, k i, child, lower, le);
    }

-- Where `down` stops at once, the edges to the children are in order.
settled :
    (n : ℕ) (h : TimerHeap) (i : ℕ)
    → LooseInv n h i
    → ((c : ℕ) → 0 < c → c < n → parent c ≡ i → Le h i c)
    → UpInv n h i
settled n h i v ok = record {
  inside = v.inside;
  sized = v.sized;
  edges = λ c z l ne. elim (Bool-cases (parent c == i)) [
    | inl e ↦
        let same : i ≡ parent c = ground arith in subst (λ x. Le h x c) same (ok c z l (sym same))
    | inr e ↦ v.edges c z l ne (λ q. ground arith)
  ];
  bridged = v.bridged;
}

settled-leaf : (n : ℕ) (h : TimerHeap) (i : ℕ) → LooseInv n h i → n ≤ 2 * i + 1 → UpInv n h i
settled-leaf n h i v leaf = settled n h i v (λ c z l e. absurd (omega arith))

settled-least :
    (n : ℕ) (h : TimerHeap) (i j : ℕ) → LooseInv n h i → IsLeast n h i j → Le h i j → UpInv n h i
settled-least n h i j v m le =
    settled n h i v (λ c z l e. kle_trans (key h i) (key h j) (key h c) le (m.least c z l e))

UpInv-IsHeapTo :
    (n : ℕ) (h : TimerHeap) (i : ℕ) → UpInv n h i → (0 < i → Le h (parent i) i) → IsHeapTo n h
UpInv-IsHeapTo n h i v above = λ c z l. elim (Bool-cases (c == i)) [
  | inl e ↦
      let same : i ≡ c = ground arith in subst (λ x. Le h (parent x) x) same (above (omega arith))
  | inr e ↦ v.edges c z l (λ q. ground arith)
]

-- What `down` from `i` does: nothing, or it moves the item and the order is restored.
pub Settles : ℕ → TimerHeap → ℕ → TimerHeap × ℕ → Type 0
Settles n h i r = ((r ≡ (h, i)) × UpInv n h i) ⊎ ((i < r.1) × IsHeapTo n r.0)

Settles-IsHeapTo :
    (n : ℕ) (h : TimerHeap) (i : ℕ) (r : TimerHeap × ℕ)
    → DownInv n h i
    → Settles n h i r
    → IsHeapTo n r.0 × (i ≤ r.1)
unfolding Settles
Settles-IsHeapTo n h i r v (inl (e, u)) = rw e (UpInv-IsHeapTo n h i u v.above, omega arith)
Settles-IsHeapTo n h i r v (inr (l, o)) = (o, omega arith)

-- With `n - i` rounds or more.
pub down-Settles :
    (k n : ℕ) (h : TimerHeap) (i : ℕ) → n ≤ i + k → LooseInv n h i → Settles n h i (down k h n i)
unfolding down Settles
down-Settles zero n h i f v = absurd (omega (arith, v.inside))
down-Settles (suc k) n h i f v =
    let j = least_child h n i in
    elim (Bool-cases (ltb (2 * i + 1) n)) [
      | inr leaf ↦ rw (leaf, down) (inl (refl, settled-leaf n h i v (ground arith)))
      | inl more ↦
          let m = least_child-IsLeast n h i (ground arith) v.sized in
          let hi : i < length h.items = omega (arith, v.inside, v.sized) in
          let hj : j < length h.items = omega (arith, m.inside, v.sized) in
          elim (Bool-cases (less h j i)) [
            | inr stop ↦
                rw (more, stop, down)
                  (inl (refl, settled-least n h i j v m (not-less-Le h j i hj hi stop)))
            | inl go ↦
                let d = swap-DownInv n h i j v m (less-Le h j i hj hi go) in
                let r =
                  Settles-IsHeapTo n (swap h i j) j (down k (swap h i j) n j) d
                    (down-Settles k n (swap h i j) j (omega (arith, m.lower)) d.loose) in
                rw (more, go, down) (inr (omega (arith, r.1, m.lower), r.0))
          ]
    ]

pub sift-IsHeapTo : (n : ℕ) (h : TimerHeap) (i : ℕ) → LooseInv n h i → IsHeapTo n (sift n h i)
unfolding sift Settles
sift-IsHeapTo n h i v = elim (down-Settles n n h i (omega arith) v) [
  | inl stay ↦
      rw (stay.0, sift)
        (if_elim (IsHeapTo n) (ltb i i) (λ e. absurd (ground arith))
          (λ _. up-IsHeapTo i n h i (omega arith) stay.1))
  | inr moved ↦
      if_elim (IsHeapTo n) (ltb i (down n h n i).1) (λ _. moved.1)
        (λ e. absurd (ground (arith, moved.0)))
]

pub down-IsHeapTo : (n : ℕ) (h : TimerHeap) → LooseInv n h 0 → IsHeapTo n (down n h n 0).0
unfolding Settles
down-IsHeapTo n h v =
    (Settles-IsHeapTo n h 0 (down n h n 0) (record { loose = v; above = λ q. absurd (omega arith) })
      (down-Settles n n h 0 (omega arith) v)).0
