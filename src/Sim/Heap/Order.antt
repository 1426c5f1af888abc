-- ===== src/Sim/Heap/Order.antt =====
-- internal/sim/heap.go: the heap order. A timer comes before another if it fires earlier, or at the
-- same time with an id that is not higher.
use election_go.Base.{
  ℕ, ◌≡◌, ◌≢◌, ◌<◌, ◌≤◌, ltb, leb, ◌==◌, not, Bool, true, false, none, some, get_elem?, arith,
  if◌then◌else◌, length, get_elem?-total,
}
use election_go.Sim.Heap.{PendingTimer, TimerHeap, less, swap, parent}
use election_go.Sim.Heap.Index.{swapped, swap-swapped, get_elem?-swapped, swapped-Rearranged}

pub record Key : Type 0 where
  pub fire : ℕ
  pub id : ℕ

abbrev pub kle : Key → Key → Bool
kle a b = if a.fire == b.fire then leb a.id b.id else ltb a.fire b.fire

abbrev pub key_of : PendingTimer → Key
key_of t = record { fire = t.fire_at; id = t.timer_id }

unfoldable pub key : TimerHeap → ℕ → Key
key h i = elim (get_elem? h.items i) [
  | none ↦ record { fire = 0; id = 0 }
  | some t ↦ key_of (h.objects t)
]

abbrev pub Le : TimerHeap → ℕ → ℕ → Type 0
Le h i j = kle (key h i) (key h j) ≡ true

pub kle_trans : (a b c : Key) → kle a b ≡ true → kle b c ≡ true → kle a c ≡ true
kle_trans a b c p q = ground arith

pub less-kle :
    (h : TimerHeap) (i j : ℕ)
    → i < length h.items
    → j < length h.items
    → less h i j ≡ not (kle (key h j) (key h i))
unfolding less key
less-kle h i j hi hj =
    let (a, ea) = get_elem?-total h.items i hi in
    let (b, eb) = get_elem?-total h.items j hj in ground (arith, ea, eb)

pub less-Le :
    (h : TimerHeap) (i j : ℕ)
    → i < length h.items
    → j < length h.items
    → less h i j ≡ true
    → Le h i j
less-Le h i j hi hj e = ground (arith, less-kle h i j hi hj)

pub not-less-Le :
    (h : TimerHeap) (i j : ℕ)
    → i < length h.items
    → j < length h.items
    → less h i j ≡ false
    → Le h j i
not-less-Le h i j hi hj e = ground (arith, less-kle h i j hi hj)

module _ (h : TimerHeap) (i j : ℕ) (hi : i < length h.items) (hj : j < length h.items) where
  pub key-swap :
      (c : ℕ)
      → key (swap h i j) c ≡ (if j == c then key h i else if i == c then key h j else key h c)
  unfolding key swapped
  key-swap c =
      let (a, ea) = get_elem?-total h.items i hi in
      let (b, eb) = get_elem?-total h.items j hj in
      let g = get_elem?-swapped h i j a b ea eb c in
      rw (swap-swapped h i j a b ea eb) (ground (arith, g, ea, eb))

  pub size-swap : length (swap h i j).items ≡ length h.items
  size-swap =
      let (a, ea) = get_elem?-total h.items i hi in
      let (b, eb) = get_elem?-total h.items j hj in
      rw (swap-swapped h i j a b ea eb) (swapped-Rearranged h i j a b ea eb).size

-- Every edge below `n` is in order.
abbrev pub IsHeapTo : ℕ → TimerHeap → Type 0
IsHeapTo n h = (c : ℕ) → 0 < c → c < n → Le h (parent c) c

abbrev pub IsHeap : TimerHeap → Type 0
IsHeap h = IsHeapTo (length h.items) h

-- Below `n` only the edge above `i` may be out of order.
pub record UpInv (n : ℕ) (h : TimerHeap) (i : ℕ) : Type 0 where
  pub inside : i < n
  pub sized : n ≤ length h.items
  pub edges : (c : ℕ) → 0 < c → c < n → c ≢ i → Le h (parent c) c
  pub bridged : (c : ℕ) → 0 < c → c < n → parent c ≡ i → 0 < i → Le h (parent i) c

pub swap-UpInv :
    (n : ℕ) (h : TimerHeap) (i : ℕ)
    → UpInv n h i
    → 0 < i
    → Le h i (parent i)
    → UpInv n (swap h (parent i) i) (parent i)
swap-UpInv n h i v pos below =
    let p = parent i in
    let hi : i < length h.items = omega (arith, v.inside, v.sized) in
    let hp : p < length h.items = omega arith in
    let k = key-swap h p i hp hi in
    record {
      inside = omega (arith, v.inside);
      sized = omega (arith, v.sized, size-swap h p i hp hi);
      edges = λ c z l ne. ground (
        arith,
        k c,
        k (parent c),
        v.edges c,
        v.bridged c,
        kle_trans (key h i) (key h p) (key h c),
      );
      bridged = λ c z l e q. ground (
        arith,
        k c,
        k (parent p),
        v.edges c,
        v.edges p,
        kle_trans (key h (parent p)) (key h p) (key h c),
      );
    }
