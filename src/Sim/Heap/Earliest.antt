-- ===== src/Sim/Heap/Earliest.antt =====
-- internal/sim/heap.go: Push, Pop and Remove of container/heap keep the heap order.
use election_go.Base.{
  ℕ, zero, suc, ◌-◌, ◌≡◌, ◌<◌, ◌≤◌, ◌∙◌, ◌==◌, some, get_elem?, take, ◌∷◌, [], arith, if_elim,
  length, get_elem?-append, get_elem?-take, get_elem?-lt, get_elem?-total, length-append,
  length-take,
}
use election_go.Sim.Heap.{TimerHeap, swap, parent, down, push_last, push, pop_last, pop, remove_at}
use election_go.Sim.Heap.Index.{IsPlaced, Sifted, swap-Sifted, sift-keeps}
use election_go.Sim.Heap.Moves.{cut, pop_last-cut, swap-last-Sifted, down-Sifted}
use election_go.Sim.Heap.Order.{key, kle_trans, key-swap, size-swap, IsHeapTo, IsHeap}
use election_go.Sim.Heap.Sift.{up-IsHeapTo, LooseInv, down-IsHeapTo, sift-IsHeapTo}

-- The order depends on the keys only.
pub IsHeapTo-same :
    (n : ℕ) (h g : TimerHeap) → ((c : ℕ) → c < n → key g c ≡ key h c) → IsHeapTo n h → IsHeapTo n g
IsHeapTo-same n h g same o = λ c z l. rw (same c l, same (parent c) (omega arith)) (o c z l)

key-push_last :
    (t : ℕ) (h : TimerHeap) (c : ℕ) → c < length h.items → key (push_last t h) c ≡ key h c
unfolding key push_last
key-push_last t h c l =
    let (a, ea) = get_elem?-total h.items c l in ground (arith, get_elem?-append h.items t c, ea)

size-push_last : (t : ℕ) (h : TimerHeap) → length (push_last t h).items ≡ suc (length h.items)
unfolding push_last
size-push_last t h = omega (arith, length-append h.items (t ∷ []))

pub push-IsHeapTo : (t : ℕ) (h : TimerHeap) → IsHeap h → IsHeapTo (suc (length h.items)) (push t h)
unfolding push
push-IsHeapTo t h o =
    let n = length h.items in
    let same = key-push_last t h in
    up-IsHeapTo n (suc n) (push_last t h) n (omega arith) (record {
      inside = omega arith;
      sized = omega (arith, size-push_last t h);
      edges = λ c z l ne.
          rw (same c (omega arith), same (parent c) (omega arith)) (o c z (omega arith));
      bridged = λ c z l e q. absurd (omega arith);
    })

key-cut :
    (t n : ℕ) (h : TimerHeap) (c : ℕ) → c < n → n ≤ length h.items → key (cut t n h).1 c ≡ key h c
unfolding key
key-cut t n h c l le =
    let (a, ea) = get_elem?-total h.items c (omega arith) in
    ground (arith, get_elem?-take n h.items c, ea)

pop_last-IsHeap :
    (t n : ℕ) (h : TimerHeap)
    → length h.items ≡ suc n
    → get_elem? h.items n ≡ some t
    → IsHeapTo n h
    → IsHeap (pop_last h).1
pop_last-IsHeap t n h l e o =
    let size : length (take n h.items) ≡ n = length-take n h.items (omega arith) in
    rw (pop_last-cut t n h l e)
      (rw size (IsHeapTo-same n h (cut t n h).1 (λ c b. key-cut t n h c b (omega arith)) o))

Sifted-IsHeap :
    (h : TimerHeap) (n t : ℕ) (g : TimerHeap)
    → length h.items ≡ suc n
    → Sifted h n t g
    → IsHeapTo n g
    → IsHeap (pop_last g).1
Sifted-IsHeap h n t g l s o = pop_last-IsHeap t n g (s.same.size ∙ l) s.last o

-- The item at `n` in the place of another is out of order there only.
swap-LooseInv :
    (h : TimerHeap) (i n : ℕ)
    → IsHeap h
    → length h.items ≡ suc n
    → i < n
    → LooseInv n (swap h i n) i
swap-LooseInv h i n o l lt =
    let hi : i < length h.items = omega arith in
    let hn : n < length h.items = omega arith in
    let k = key-swap h i n hi hn in
    record {
      inside = lt;
      sized = omega (arith, size-swap h i n hi hn);
      edges = λ c z b ne np. ground (arith, k c, k (parent c), o c);
      bridged = λ c z b e q.
          ground
            (arith, k c, k (parent i), o c, o i, kle_trans (key h (parent i)) (key h i) (key h c));
    }

down-swapped :
    (h : TimerHeap) (n : ℕ)
    → IsHeap h
    → length h.items ≡ suc n
    → IsHeapTo n (down n (swap h 0 n) n 0).0
down-swapped h zero o l = λ c z b. absurd (omega arith)
down-swapped h (suc n) o l =
    down-IsHeapTo (suc n) (swap h 0 (suc n)) (swap-LooseInv h 0 (suc n) o l (omega arith))

pub pop-IsHeap :
    (h : TimerHeap) (t : ℕ)
    → IsPlaced h
    → IsHeap h
    → get_elem? h.items 0 ≡ some t
    → IsHeap (pop h).1
unfolding pop
pop-IsHeap h t v o e =
    let n = length h.items - 1 in
    let l : length h.items ≡ suc n = omega (arith, get_elem?-lt h.items 0 t e) in
    Sifted-IsHeap h n t _ l (down-Sifted h n t (swap h 0 n) (swap-last-Sifted h 0 n t v l e))
      (down-swapped h n o l)

pub remove_at-IsHeap :
    (h : TimerHeap) (i t : ℕ)
    → IsPlaced h
    → IsHeap h
    → get_elem? h.items i ≡ some t
    → IsHeap (remove_at i h).1
unfolding remove_at
remove_at-IsHeap h i t v o e =
    let n = length h.items - 1 in
    let b = get_elem?-lt h.items i t e in
    let l : length h.items ≡ suc n = omega arith in
    if_elim (λ (x : TimerHeap). IsHeap (pop_last x).1) (n == i)
      (λ q. pop_last-IsHeap t n h l (ground arith) (λ c z m. o c z (omega arith)))
      (λ q.
        let lt : i < n = ground arith in
        Sifted-IsHeap h n t _ l
          (sift-keeps (Sifted h n t) n (swap-Sifted h n t) n (swap h i n) i
            (swap-last-Sifted h i n t v l e) (omega arith) lt)
          (sift-IsHeapTo n (swap h i n) i (swap-LooseInv h i n o l lt)))
