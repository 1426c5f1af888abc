-- ===== src/Sim/Tests/Heaps.antt =====
-- Sample timer heaps, and the theorems on them.
use election_go.Base.{
  ℕ, zero, suc, ◌≡◌, ◌≢◌, refl, true, false, ◌==◌, List, [], ◌∷◌, some, none, get_elem?, arith,
  String,
}
use election_go.Sim.Heap.{
  PendingTimer, TimerHeap, new_timer_heap, update, add, push, push_last, up, down, sift, swap, less,
  least_child, peek, pop_timer, pop, pop_last, remove, remove_at,
}
use election_go.Sim.Heap.Index.{Holds}
use election_go.Sim.Heap.Registry.{
  IsAbsent, IsIndexed, Made, empty, added, Made-IsIndexed, stored-IsIndexed,
}
use election_go.Sim.Heap.Shared.{remove-other}
use election_go.Sim.Heap.Pending.{Op, adds, pops, removes, Allowed, no_timers, run, run-Allowed}

abbrev timer : ℕ → ℕ → String → PendingTimer
timer at id node = record { fire_at = at; timer_id = id; node_id = node; index = some 0 }

abbrev store : ℕ → PendingTimer → TimerHeap → TimerHeap
store t x h = record h { objects = update h.objects t x }

-- The first timer of "n0" at 9, its second at 4, and then the first of "n1" at 6.
abbrev late : TimerHeap
late = store 0 (timer 9 1 "n0") new_timer_heap

abbrev one : TimerHeap
one = add 0 late

abbrev two : TimerHeap
two = add 1 (store 1 (timer 4 2 "n0") one)

abbrev mixed : TimerHeap
mixed = store 2 (timer 6 1 "n1") two

-- Opens the operations of the heap.
heap_code : ℕ
unfolding add push push_last up down sift swap less least_child peek pop_timer pop pop_last remove
    remove_at
heap_code = 0

two-items : two.items ≡ 1 ∷ 0 ∷ []
unfolding heap_code
two-items = refl

one-items : one.items ≡ 0 ∷ []
unfolding heap_code
one-items = refl

absent_of_one : (t i : ℕ) → (t == 0) ≡ false → get_elem? (0 ∷ []) i ≢ some t
absent_of_one t zero n e = ground arith
absent_of_one t (suc i) n e = cc

absent_of_two : (t i : ℕ) → (t == 0) ≡ false → (t == 1) ≡ false → get_elem? (1 ∷ 0 ∷ []) i ≢ some t
absent_of_two t zero n m e = ground arith
absent_of_two t (suc zero) n m e = ground arith
absent_of_two t (suc (suc i)) n m e = cc

one-Made : Made one
one-Made = added new_timer_heap 0 (timer 9 1 "n0") empty (λ i e. cc)

two-Made : Made two
two-Made = added one 1 (timer 4 2 "n0") one-Made (λ i. rw one-items (absent_of_one 1 i refl))

-- The second timer fires, the first is cancelled, and none is left.
abbrev calls : List Op
calls = adds (timer 9 1 "n0") ∷ adds (timer 4 2 "n0") ∷ pops ∷ removes 1 ∷ pops ∷ []

run-Allowed_example : Allowed 0 no_timers calls (some 1 ∷ none ∷ [])
unfolding heap_code run
run-Allowed_example = run-Allowed calls

mixed-IsIndexed : IsIndexed mixed
mixed-IsIndexed =
    stored-IsIndexed two 2 (timer 6 1 "n1") (Made-IsIndexed two two-Made)
      (λ i. rw two-items (absent_of_two 2 i refl refl))

remove-other_example :
    let r = remove 1 (add 2 mixed) in
    (r.0 ≡ true) × IsAbsent 2 r.1 × Holds r.1 0 × ((remove 1 r.1).0 ≡ false)
unfolding heap_code
remove-other_example =
    remove-other mixed 0 2 1 mixed-IsIndexed (1, refl) (λ i. absent_of_two 2 i refl refl) refl refl
