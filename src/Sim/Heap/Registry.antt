-- ===== src/Sim/Heap/Registry.antt =====
-- internal/sim/heap.go: Add, PopTimer and Remove, and the index by timer id, which the timers of all
-- nodes share.
use election_go.Base.{
  ℕ, suc, ◌≡◌, ◌≢◌, refl, true, false, Option, none, some, get_elem?, arith, if◌then◌else◌, length,
  ◌==◌, inl, inr, get_elem?-lt, Bool-cases, subst, Option-cases, get_elem?-total,
}
use election_go.Sim.Heap.{
  PendingTimer, TimerHeap, new_timer_heap, update, peek, add, pop_timer, remove, delete_id, pop,
  remove_at,
}
use election_go.Sim.Heap.Index.{Holds, IsPlaced}
use election_go.Sim.Heap.Moves.{Pushed, push-Pushed, Popped, pop-Popped, remove_at-Popped}

-- Every timer knows its place, a registered timer is in the heap under its own id, and no index was
-- out of range.
pub record IsIndexed (h : TimerHeap) : Type 0 where
  pub placed : IsPlaced h
  pub listed : (id t : ℕ) → h.by_id id ≡ some t → Holds h t
  pub named : (id t : ℕ) → h.by_id id ≡ some t → (h.objects t).timer_id ≡ id

abbrev pub IsAbsent : ℕ → TimerHeap → Type 0
IsAbsent t h = (i : ℕ) → get_elem? h.items i ≢ some t

abbrev registered : ℕ → TimerHeap → TimerHeap
registered t h = record h { by_id = update h.by_id (h.objects t).timer_id (some t) }

pub add-Pushed :
    (t : ℕ) (h : TimerHeap) → IsPlaced h → IsAbsent t h → Pushed t (registered t h) (add t h)
unfolding add
add-Pushed t h v out =
    push-Pushed t (registered t h) (record { safe = v.safe; placed = v.placed }) out

pub add-IsIndexed : (t : ℕ) (h : TimerHeap) → IsIndexed h → IsAbsent t h → IsIndexed (add t h)
add-IsIndexed t h v out =
    let p = add-Pushed t h v.placed out in
    let at : (id : ℕ) → (add t h).by_id id ≡ (registered t h).by_id id = λ id i. p.by_id i id in
    record {
      placed = p.placed;
      listed = λ id s e. elim (Bool-cases ((h.objects t).timer_id == id)) [
        | inl y ↦
            let same : t ≡ s = ground (arith, at id) in
            subst (λ x. Holds (add t h) x) same p.entered
        | inr n ↦ p.kept s (v.listed id s (ground (arith, at id)))
      ];
      named = λ id s e. ground (arith, at id, p.timer_id s, v.named id s);
    }

-- `h'` is `h` without the timer `t` and without the registration of its id.
pub record Dropped (t : ℕ) (h h' : TimerHeap) : Type 0 where
  pub indexed : IsIndexed h'
  pub size : suc (length h'.items) ≡ length h.items
  pub gone : IsAbsent t h'
  pub kept : (s : ℕ) → s ≢ t → Holds h s → Holds h' s
  pub back : (s : ℕ) → Holds h' s → Holds h s
  pub by_id : (k : ℕ) → h'.by_id k ≡ (if (h.objects t).timer_id == k then none else h.by_id k)
  pub fire_at : (s : ℕ) → (h'.objects s).fire_at ≡ (h.objects s).fire_at
  pub timer_id : (s : ℕ) → (h'.objects s).timer_id ≡ (h.objects s).timer_id
  pub node_id : (s : ℕ) → (h'.objects s).node_id ≡ (h.objects s).node_id

Popped-Dropped :
    (t : ℕ) (h : TimerHeap) (b f : ℕ → Option ℕ) (r : Option ℕ × TimerHeap)
    → IsIndexed h
    → Popped t (record h { by_id = b }) r
    → ((k : ℕ) → f k ≡ (if (h.objects t).timer_id == k then none else h.by_id k))
    → Dropped t h (record r.1 { by_id = f })
Popped-Dropped t h b f r v p regs = record {
  indexed = record {
    placed = record { safe = p.placed.safe; placed = p.placed.placed };
    listed = λ id s e.
        p.kept s (λ q. ground (arith, regs id, v.named id s, v.named id t, e, q))
          (v.listed id s (ground (arith, regs id)));
    named = λ id s e. ground (arith, regs id, p.timer_id s, v.named id s);
  };
  size = p.size;
  gone = λ i e. ground (arith, p.placed.placed i t, p.index);
  kept = p.kept;
  back = p.back;
  by_id = regs;
  fire_at = p.fire_at;
  timer_id = p.timer_id;
  node_id = p.node_id;
}

pub pop_timer_lem :
    (h : TimerHeap) (t : ℕ)
    → get_elem? h.items 0 ≡ some t
    → Popped t h (pop h)
    → pop_timer h ≡ (some t, delete_id (h.objects t).timer_id (pop h).1)
unfolding pop_timer
pop_timer_lem h t e p = ground (arith, get_elem?-lt h.items 0 t e, p.result, p.timer_id t)

-- `PopTimer` hands out the timer that `Peek` shows, which leaves the heap with its registration.
pub pop_timer-Dropped :
    (h : TimerHeap) (t : ℕ)
    → IsIndexed h
    → peek h ≡ some t
    → ((pop_timer h).0 ≡ some t) × Dropped t h (pop_timer h).1
unfolding peek
pop_timer-Dropped h t v e =
    let p = pop-Popped h t v.placed e in
    let r = pop h in
    rw (pop_timer_lem h t e p) (
      refl,
      Popped-Dropped t h h.by_id (update r.1.by_id (h.objects t).timer_id none) r v p
          (λ k. ground (arith, p.by_id)),
    )

pub remove-removed :
    (id : ℕ) (h : TimerHeap) (t i : ℕ)
    → h.by_id id ≡ some t
    → (h.objects t).index ≡ some i
    → remove id h ≡ (true, (remove_at i (delete_id id h)).1)
unfolding remove
remove-removed id h t i e x = ground arith

-- `Remove` of an id that is registered takes the timer of the last `Add` under that id off the heap
-- and no other.
pub remove-Dropped :
    (id : ℕ) (h : TimerHeap) (t : ℕ)
    → IsIndexed h
    → h.by_id id ≡ some t
    → ((remove id h).0 ≡ true) × Dropped t h (remove id h).1
remove-Dropped id h t v e =
    let (i, ei) = v.listed id t e in
    let g : TimerHeap = delete_id id h in
    let p = remove_at-Popped g i t (record { safe = v.placed.safe; placed = v.placed.placed }) ei in
    let r = remove_at i g in
    rw (remove-removed id h t i e (v.placed.placed i t ei)) (
      refl,
      Popped-Dropped t h g.by_id r.1.by_id r v p (λ k. ground (arith, p.by_id, v.named id t)),
    )

pub remove-unknown : (id : ℕ) (h : TimerHeap) → h.by_id id ≡ none → remove id h ≡ (false, h)
unfolding remove
remove-unknown id h e = ground arith

-- The heaps that the simulation can make: `Add` gets a timer that is not in the heap yet.
pub data Made : TimerHeap → Type 0 where
  empty : Made new_timer_heap
  added :
      (h : TimerHeap) (t : ℕ) (x : PendingTimer)
      → Made h
      → IsAbsent t h
      → Made (add t (record h { objects = update h.objects t x }))
  popped : (h : TimerHeap) → Made h → Made (pop_timer h).1
  removed : (h : TimerHeap) (id : ℕ) → Made h → Made (remove id h).1

pub stored-IsIndexed :
    (h : TimerHeap) (t : ℕ) (x : PendingTimer)
    → IsIndexed h
    → IsAbsent t h
    → IsIndexed (record h { objects = update h.objects t x })
stored-IsIndexed h t x v out = record {
  placed = record {
    safe = v.placed.safe;
    placed = λ i s e. ground (arith, v.placed.placed i s, out i);
  };
  listed = v.listed;
  named = λ id s e. let (i, ei) = v.listed id s e in ground (arith, v.named id s, out i);
}

pub pop_timer-empty : (h : TimerHeap) → peek h ≡ none → pop_timer h ≡ (none, h)
unfolding pop_timer peek
pop_timer-empty h e = ground (arith, get_elem?-total h.items 0)

-- In every heap that Add, PopTimer and Remove can make, a timer's index is its place, a registered
-- timer is in the heap under its own id, and no operation indexed out of range.
pub Made-IsIndexed : (h : TimerHeap) → Made h → IsIndexed h
Made-IsIndexed _ empty = record {
  placed = record { safe = refl; placed = λ i t e. cc };
  listed = λ id t e. absurd (cc);
  named = λ id t e. cc;
}
Made-IsIndexed _ (added h t x m out) =
    add-IsIndexed t (record h { objects = update h.objects t x })
      (stored-IsIndexed h t x (Made-IsIndexed h m) out) out
Made-IsIndexed _ (popped h m) = elim (Option-cases (peek h)) [
  | inl n ↦ rw (pop_timer-empty h n) (Made-IsIndexed h m)
  | inr y ↦ (pop_timer-Dropped h y.0 (Made-IsIndexed h m) y.1).1.indexed
]
Made-IsIndexed _ (removed h id m) = elim (Option-cases (h.by_id id)) [
  | inl n ↦ rw (remove-unknown id h n) (Made-IsIndexed h m)
  | inr y ↦ (remove-Dropped id h y.0 (Made-IsIndexed h m) y.1).1.indexed
]
