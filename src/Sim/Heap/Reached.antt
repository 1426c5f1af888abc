-- ===== src/Sim/Heap/Reached.antt =====
-- internal/sim/heap.go: in every heap that Add, PopTimer and Remove can make, Peek shows the timer
-- that fires first.
use election_go.Base.{
  ℕ, zero, suc, ◌≡◌, ◌<◌, ◌≤◌, refl, false, some, arith, length, inl, inr, Option-cases,
  get_elem?-lt, get_elem?-total,
}
use election_go.Sim.Heap.{
  PendingTimer, TimerHeap, update, parent, peek, add, pop_timer, remove, earlier, delete_id, pop,
}
use election_go.Sim.Heap.Index.{Holds}
use election_go.Sim.Heap.Order.{key, Le, kle_trans, IsHeapTo, IsHeap}
use election_go.Sim.Heap.Earliest.{IsHeapTo-same, push-IsHeapTo, pop-IsHeap, remove_at-IsHeap}
use election_go.Sim.Heap.Moves.{pop-Popped}
use election_go.Sim.Heap.Registry.{
  IsIndexed, IsAbsent, stored-IsIndexed, add-Pushed, Made, empty, added, popped, removed,
  Made-IsIndexed, pop_timer-empty, pop_timer_lem, remove-unknown, remove-removed,
}

-- What the registrations and a timer outside of the heap are does not matter.
key-stored :
    (h : TimerHeap) (t : ℕ) (x : PendingTimer)
    → IsAbsent t h
    → (c : ℕ) → c < length h.items
    → key (record h { objects = update h.objects t x }) c ≡ key h c
unfolding key
key-stored h t x out c l = let (a, ea) = get_elem?-total h.items c l in ground (arith, ea, out c)

add-IsHeap : (t : ℕ) (h : TimerHeap) → IsIndexed h → IsAbsent t h → IsHeap h → IsHeap (add t h)
unfolding add key
add-IsHeap t h v out o =
    let g : TimerHeap = record h { by_id = update h.by_id (h.objects t).timer_id (some t) } in
    let p = add-Pushed t h v.placed out in
    let q : IsHeapTo (suc (length h.items)) (add t h) =
      push-IsHeapTo t g (IsHeapTo-same (length h.items) h g (λ c l. refl) o) in
    rw p.size q

pop_timer-IsHeap : (h : TimerHeap) → IsIndexed h → IsHeap h → IsHeap (pop_timer h).1
unfolding peek key
pop_timer-IsHeap h v o = elim (Option-cases (peek h)) [
  | inl n ↦ rw (pop_timer-empty h n) o
  | inr (t, e) ↦
      let p = pop-Popped h t v.placed e in
      rw (pop_timer_lem h t e p) (
        IsHeapTo-same (length (pop h).1.items) (pop h).1
          (delete_id (h.objects t).timer_id (pop h).1) (λ c l. refl) (pop-IsHeap h t v.placed o e))
]

remove-IsHeap : (id : ℕ) (h : TimerHeap) → IsIndexed h → IsHeap h → IsHeap (remove id h).1
unfolding key
remove-IsHeap id h v o = elim (Option-cases (h.by_id id)) [
  | inl n ↦ rw (remove-unknown id h n) o
  | inr (t, e) ↦
      let (i, ei) = v.listed id t e in
      rw (remove-removed id h t i e (v.placed.placed i t ei)) (
        remove_at-IsHeap (delete_id id h) i t
          (record { safe = v.placed.safe; placed = v.placed.placed })
          (IsHeapTo-same (length h.items) h (delete_id id h) (λ c l. refl) o) ei)
]

pub Made-IsHeap : (h : TimerHeap) → Made h → IsHeap h
Made-IsHeap _ empty = λ c z l. absurd (omega arith)
Made-IsHeap _ (added h t x m out) =
    add-IsHeap t (record h { objects = update h.objects t x })
      (stored-IsIndexed h t x (Made-IsIndexed h m) out) out
      (IsHeapTo-same (length h.items) h (record h { objects = update h.objects t x })
        (key-stored h t x out) (Made-IsHeap h m))
Made-IsHeap _ (popped h m) = pop_timer-IsHeap h (Made-IsIndexed h m) (Made-IsHeap h m)
Made-IsHeap _ (removed h id m) = remove-IsHeap id h (Made-IsIndexed h m) (Made-IsHeap h m)

root_least : (k : ℕ) (h : TimerHeap) (i : ℕ) → IsHeap h → i ≤ k → i < length h.items → Le h 0 i
root_least k h zero o f l = ground arith
root_least zero h (suc i) o f l = absurd (omega arith)
root_least (suc k) h (suc i) o f l =
    kle_trans (key h 0) (key h (parent (suc i))) (key h (suc i))
      (root_least k h (parent (suc i)) o (omega arith) (omega arith)) (o (suc i) (omega arith) l)

-- In every heap that Add, PopTimer and Remove can make, no timer comes before the one that `Peek`
-- shows: none fires earlier, and none at the same time has a lower id.
pub peek-earliest :
    (h : TimerHeap) (t s : ℕ)
    → Made h
    → peek h ≡ some t
    → Holds h s
    → earlier (h.objects s) (h.objects t) ≡ false
unfolding peek key
peek-earliest h t s m e here =
    let (i, ei) = here in
    let le = root_least i h i (Made-IsHeap h m) (omega arith) (get_elem?-lt h.items i s ei) in
    ground (arith, le, e, ei)
