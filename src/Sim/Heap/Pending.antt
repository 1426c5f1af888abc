-- ===== src/Sim/Heap/Pending.antt =====
-- internal/sim/heap.go: the heap as a set of pending timers with their registrations, and the runs of
-- Add, PopTimer and Remove that this set allows.
use election_go.Base.{
  ℕ, ◌+◌, ◌≡◌, ◌<◌, ◌≤◌, ◌⊎◌, refl, true, false, Bool, List, [], ◌∷◌, Option, none, some, arith,
  ◌==◌, get_elem?, get_elem?-lt, get_elem?-total, ◌∙◌, inl, inr, Option-cases, Bool-cases, sym,
  subst,
}
use election_go.Sim.Heap.{
  PendingTimer, TimerHeap, new_timer_heap, update, peek, add, pop_timer, remove,
}
use election_go.Sim.Heap.Index.{Holds}
use election_go.Sim.Heap.Registry.{
  IsAbsent, Made, empty, added, popped, removed, Made-IsIndexed, stored-IsIndexed, add-Pushed,
  Dropped, pop_timer-Dropped, pop_timer-empty, remove-Dropped, remove-unknown,
}
use election_go.Sim.Heap.Reached.{peek-earliest}

-- The timers that are pending, which timer is registered under an id, and what the timers are.
pub record Pending : Type 0 where
  pub pending : ℕ → Bool
  pub registered : ℕ → Option ℕ
  pub fire_at : ℕ → ℕ
  pub timer_id : ℕ → ℕ

abbrev pub no_timers : Pending
no_timers = record {
  pending = λ _. false;
  registered = λ _. none;
  fire_at = λ _. 0;
  timer_id = λ _. 0;
}

abbrev pub insert : ℕ → PendingTimer → Pending → Pending
insert t x p = record {
  pending = update p.pending t true;
  registered = update p.registered x.timer_id (some t);
  fire_at = update p.fire_at t x.fire_at;
  timer_id = update p.timer_id t x.timer_id;
}

-- The timer goes, with what is registered under its id.
abbrev pub drop : ℕ → Pending → Pending
drop t p = record p {
  pending = update p.pending t false;
  registered = update p.registered (p.timer_id t) none;
}

abbrev pub IsFirst : ℕ → Pending → Type 0
IsFirst t p =
    (s : ℕ)
    → p.pending s ≡ true
    → (p.fire_at t < p.fire_at s) ⊎ ((p.fire_at t ≡ p.fire_at s) × (p.timer_id t ≤ p.timer_id s))

pub data Op : Type 0 where
  adds : PendingTimer → Op
  pops : Op
  removes : ℕ → Op

-- Results of a run that the set allows, where the added timers are numbered from `n` on: the timer
-- that each `PopTimer` hands out is a first one.
pub data Allowed : ℕ → Pending → List Op → List (Option ℕ) → Type 0 where
  no_more : (n : ℕ) (p : Pending) → Allowed n p [] []
  adding :
      (n : ℕ) (p : Pending) (x : PendingTimer) (ops : List Op) (rs : List (Option ℕ))
      → Allowed (n + 1) (insert n x p) ops rs
      → Allowed n p (adds x ∷ ops) rs
  popping :
      (n : ℕ) (p : Pending) (t : ℕ) (ops : List Op) (rs : List (Option ℕ))
      → p.pending t ≡ true
      → IsFirst t p
      → Allowed n (drop t p) ops rs
      → Allowed n p (pops ∷ ops) (some t ∷ rs)
  popping_none :
      (n : ℕ) (p : Pending) (ops : List Op) (rs : List (Option ℕ))
      → ((s : ℕ) → p.pending s ≡ false)
      → Allowed n p ops rs
      → Allowed n p (pops ∷ ops) (none ∷ rs)
  removing :
      (n : ℕ) (p : Pending) (id t : ℕ) (ops : List Op) (rs : List (Option ℕ))
      → p.registered id ≡ some t
      → Allowed n (drop t p) ops rs
      → Allowed n p (removes id ∷ ops) rs
  removing_none :
      (n : ℕ) (p : Pending) (id : ℕ) (ops : List Op) (rs : List (Option ℕ))
      → p.registered id ≡ none
      → Allowed n p ops rs
      → Allowed n p (removes id ∷ ops) rs

abbrev pub store : ℕ → PendingTimer → TimerHeap → TimerHeap
store n x h = record h { objects = update h.objects n x }

-- The same run on the heap, with what each `PopTimer` returns.
unfoldable pub run : ℕ → List Op → TimerHeap → List (Option ℕ)
run n [] h = []
run n (adds x ∷ ops) h = run (n + 1) ops (add n (store n x h))
run n (pops ∷ ops) h = (pop_timer h).0 ∷ run n ops (pop_timer h).1
run n (removes id ∷ ops) h = run n ops (remove id h).1

-- The heap holds the pending timers, and its pointers to come are free.
pub record Shows (n : ℕ) (p : Pending) (h : TimerHeap) : Type 0 where
  pub made : Made h
  pub there : (s : ℕ) → p.pending s ≡ true → Holds h s
  pub only : (s : ℕ) → Holds h s → p.pending s ≡ true
  pub fresh : (s : ℕ) → n ≤ s → p.pending s ≡ false
  pub registered : (id : ℕ) → h.by_id id ≡ p.registered id
  pub fire_at : (s : ℕ) → (h.objects s).fire_at ≡ p.fire_at s
  pub timer_id : (s : ℕ) → (h.objects s).timer_id ≡ p.timer_id s

free : (n : ℕ) (p : Pending) (h : TimerHeap) → Shows n p h → IsAbsent n h
free n p h v i e = let there = v.only n (i, e) in ground (arith, there, v.fresh n)

insert-Shows :
    (n : ℕ) (p : Pending) (h : TimerHeap) (x : PendingTimer)
    → Shows n p h
    → Shows (n + 1) (insert n x p) (add n (store n x h))
insert-Shows n p h x v =
    let out = free n p h v in
    let d =
      add-Pushed n (store n x h) (stored-IsIndexed h n x (Made-IsIndexed h v.made) out).placed
        out in
    record {
      made = added h n x v.made out;
      there = λ s e. elim (Bool-cases (n == s)) [
        | inl y ↦
            let same : n ≡ s = ground (arith, y) in
            subst (Holds (add n (store n x h))) same d.entered
        | inr y ↦ d.kept s (v.there s (ground (arith, y, e)))
      ];
      only = λ s e. elim (d.back s e) [
        | inl y ↦ ground (arith, v.only s y)
        | inr y ↦ ground (arith, y)
      ];
      fresh = λ s l. ground (arith, v.fresh s);
      registered = λ id. ground (arith, d.by_id, v.registered id);
      fire_at = λ s. ground (arith, d.fire_at s, v.fire_at s);
      timer_id = λ s. ground (arith, d.timer_id s, v.timer_id s);
    }

drop-Shows :
    (n t : ℕ) (p : Pending) (h h' : TimerHeap)
    → Shows n p h
    → Made h'
    → Dropped t h h'
    → Shows n (drop t p) h'
drop-Shows n t p h h' v m d = record {
  made = m;
  there = λ s e. d.kept s (λ q. ground (arith, q, e)) (v.there s (ground (arith, e)));
  only = λ s e. elim (Bool-cases (t == s)) [
    | inl y ↦
        let same : s ≡ t = ground (arith, y) in
        absurd (d.gone e.0 (subst (λ x. get_elem? h'.items e.0 ≡ some x) same e.1))
    | inr y ↦ ground (arith, y, v.only s (d.back s e))
  ];
  fresh = λ s l. ground (arith, v.fresh s);
  registered = λ id. ground (arith, d.by_id id, v.registered id, v.timer_id t);
  fire_at = λ s. ground (arith, d.fire_at s, v.fire_at s);
  timer_id = λ s. ground (arith, d.timer_id s, v.timer_id s);
}

peek-IsFirst : (n t : ℕ) (p : Pending) (h : TimerHeap) → Shows n p h → peek h ≡ some t → IsFirst t p
peek-IsFirst n t p h v e s w =
    let l = peek-earliest h t s v.made e (v.there s w) in
    ground (arith, l, v.fire_at s, v.fire_at t, v.timer_id s, v.timer_id t)

none_pending :
    (n : ℕ) (p : Pending) (h : TimerHeap)
    → Shows n p h
    → peek h ≡ none
    → (s : ℕ) → p.pending s ≡ false
unfolding peek
none_pending n p h v e s = elim (Bool-cases (p.pending s)) [
  | inl y ↦
      let (i, ei) = v.there s y in
      let l = get_elem?-lt h.items i s ei in
      let (t, et) = get_elem?-total h.items 0 (omega (arith, l)) in absurd (ground (arith, e, et))
  | inr y ↦ y
]

peek_lem : (h : TimerHeap) (t : ℕ) → peek h ≡ some t → get_elem? h.items 0 ≡ some t
unfolding peek
peek_lem h t e = e

run-from :
    (n : ℕ) (p : Pending) (ops : List Op) (h : TimerHeap)
    → Shows n p h
    → Allowed n p ops (run n ops h)
unfolding run
run-from n p [] h v = no_more n p
run-from n p (adds x ∷ ops) h v =
    adding n p x ops _
      (run-from (n + 1) (insert n x p) ops (add n (store n x h)) (insert-Shows n p h x v))
run-from n p (pops ∷ ops) h v = elim (Option-cases (peek h)) [
  | inl e ↦
      rw (pop_timer-empty h e)
        (popping_none n p ops _ (none_pending n p h v e) (run-from n p ops h v))
  | inr (t, e) ↦
      let (r, d) = pop_timer-Dropped h t (Made-IsIndexed h v.made) e in
      let w = drop-Shows n t p h (pop_timer h).1 v (popped h v.made) d in
      rw r (
        popping n p t ops _ (v.only t (0, peek_lem h t e)) (peek-IsFirst n t p h v e)
          (run-from n (drop t p) ops (pop_timer h).1 w))
]
run-from n p (removes id ∷ ops) h v = elim (Option-cases (h.by_id id)) [
  | inl e ↦
      rw (remove-unknown id h e)
        (removing_none n p id ops _ (sym (v.registered id) ∙ e) (run-from n p ops h v))
  | inr (t, e) ↦
      let d = (remove-Dropped id h t (Made-IsIndexed h v.made) e).1 in
      let w = drop-Shows n t p h (remove id h).1 v (removed h id v.made) d in
      removing n p id t ops _ (sym (v.registered id) ∙ e)
        (run-from n (drop t p) ops (remove id h).1 w)
]

-- Any run of Add, PopTimer and Remove from an empty heap is one that the set of pending timers allows:
-- `PopTimer` hands out a pending timer that fires first, which leaves the set with what is registered
-- under its id, or nothing where none is pending; `Remove` takes off the timer that is registered under
-- the id, if one is; nothing else leaves the set.
pub run-Allowed : (ops : List Op) → Allowed 0 no_timers ops (run 0 ops new_timer_heap)
run-Allowed ops = run-from 0 no_timers ops new_timer_heap (record {
  made = empty;
  there = λ s e. absurd (ground arith);
  only = λ s e. absurd (ground (arith, e.1));
  fresh = λ s l. refl;
  registered = λ id. refl;
  fire_at = λ s. refl;
  timer_id = λ s. refl;
})
