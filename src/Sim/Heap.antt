-- ===== src/Sim/Heap.antt =====
-- internal/sim/heap.go: the timers of all nodes, in a binary heap, and an index by timer id; with
-- the functions of container/heap that work on it.
pub mod Index
pub mod Moves
pub mod Registry
pub mod Shared
pub mod Order
pub mod Sift
pub mod Earliest
pub mod Reached
pub mod Pending
use election_go.Base.{
  ℕ, zero, suc, ◌+◌, ◌-◌, ◌*◌, ◌/◌, ltb, ◌==◌, String, Bool, true, false, not, ◌||◌, List, [], ◌∷◌,
  ◌++◌, Option, none, some, if◌then◌else◌, length, get_elem?, set, take,
}

-- `index` is `none` for -1.
pub record PendingTimer : Type 0 where
  pub fire_at : ℕ
  pub timer_id : ℕ
  pub node_id : String
  pub index : Option ℕ

-- `items` and `by_id` hold pointers, and `objects` is what they point to. `panicked` says that an
-- index was out of range.
pub record TimerHeap : Type 0 where
  pub objects : ℕ → PendingTimer
  pub items : List ℕ
  pub by_id : ℕ → Option ℕ
  pub panicked : Bool

abbrev pub update {ℓ} : {A : Type ℓ} → (ℕ → A) → ℕ → A → ℕ → A
update f p v q = if p == q then v else f q

-- `t.index = i` through the pointer `t`.
abbrev pub set_index : ℕ → Option ℕ → TimerHeap → TimerHeap
set_index t i h = record h { objects = update h.objects t (record (h.objects t) { index = i }) }

abbrev no_timer : PendingTimer
no_timer = record { fire_at = 0; timer_id = 0; node_id = ""; index = none }

abbrev pub new_timer_heap : TimerHeap
new_timer_heap = record { objects = λ _. no_timer; items = []; by_id = λ _. none; panicked = false }

abbrev pub panic : TimerHeap → TimerHeap
panic h = record h { panicked = true }

-- `a` fires before `b`.
abbrev pub earlier : PendingTimer → PendingTimer → Bool
earlier a b = if a.fire_at == b.fire_at then ltb a.timer_id b.timer_id else ltb a.fire_at b.fire_at

-- The method `Less`, false where it would panic.
unfoldable pub less : TimerHeap → ℕ → ℕ → Bool
less h i j = elim (get_elem? h.items i) [
  | none ↦ false
  | some a ↦ elim (get_elem? h.items j) [
    | none ↦ false
    | some b ↦ earlier (h.objects a) (h.objects b)
  ]
]

-- The method `Swap`.
unfoldable pub swap : TimerHeap → ℕ → ℕ → TimerHeap
swap h i j = elim (get_elem? h.items i) [
  | none ↦ panic h
  | some a ↦ elim (get_elem? h.items j) [
    | none ↦ panic h
    | some b ↦
        set_index a (some j) (set_index b (some i) (record h { items = set (set h.items i b) j a }))
  ]
]

-- The method `Push`.
unfoldable pub push_last : ℕ → TimerHeap → TimerHeap
push_last t h = set_index t (some (length h.items)) (record h { items = h.items ++ t ∷ [] })

-- The method `Pop`: the last item, which leaves the heap.
unfoldable pub pop_last : TimerHeap → Option ℕ × TimerHeap
pop_last h = elim (get_elem? h.items (length h.items - 1)) [
  | none ↦ (none, panic h)
  | some t ↦ (some t, set_index t none (record h { items = take (length h.items - 1) h.items }))
]

-- container/heap: `up` from `j`, `down` from `i` below `n`, which says where it stopped. The first
-- argument bounds the rounds: `j` and `n` rounds are enough.
abbrev pub parent : ℕ → ℕ
parent j = (j - 1) / 2

unfoldable pub up : ℕ → TimerHeap → ℕ → TimerHeap
up zero h j = h
up (suc k) h j =
    let i = parent j in
    let rest = up k (swap h i j) i in if (i == j) || not (less h j i) then h else rest

-- The child of `i` that `down` compares with it.
unfoldable pub least_child : TimerHeap → ℕ → ℕ → ℕ
least_child h n i =
    let j = 2 * i + 1 in if ltb (j + 1) n then (if less h (j + 1) j then j + 1 else j) else j

unfoldable pub down : ℕ → TimerHeap → ℕ → ℕ → TimerHeap × ℕ
down zero h n i = (h, i)
down (suc k) h n i =
    let j = least_child h n i in
    let rest = down k (swap h i j) n j in
    if ltb (2 * i + 1) n then (if less h j i then rest else (h, i)) else (h, i)

-- `heap.Push`
unfoldable pub push : ℕ → TimerHeap → TimerHeap
push t h = let h' = push_last t h in up (length h.items) h' (length h.items)

-- `heap.Pop`
unfoldable pub pop : TimerHeap → Option ℕ × TimerHeap
pop h = let n = length h.items - 1 in pop_last (down n (swap h 0 n) n 0).0

-- `down` from `i`, and `up` if that moved nothing.
unfoldable pub sift : ℕ → TimerHeap → ℕ → TimerHeap
sift n h i = let (h', j) = down n h n i in if ltb i j then h' else up i h' i

-- `heap.Remove`
unfoldable pub remove_at : ℕ → TimerHeap → Option ℕ × TimerHeap
remove_at i h = let n = length h.items - 1 in pop_last (if n == i then h else sift n (swap h i n) i)

unfoldable pub add : ℕ → TimerHeap → TimerHeap
add t h = push t (record h { by_id = update h.by_id (h.objects t).timer_id (some t) })

unfoldable pub peek : TimerHeap → Option ℕ
peek h = get_elem? h.items 0

abbrev pub delete_id : ℕ → TimerHeap → TimerHeap
delete_id id h = record h { by_id = update h.by_id id none }

-- The registration goes by the id alone.
abbrev pub unregister : Option ℕ × TimerHeap → Option ℕ × TimerHeap
unregister (none, h) = (none, h)
unregister (some t, h) = (some t, delete_id (h.objects t).timer_id h)

unfoldable pub pop_timer : TimerHeap → Option ℕ × TimerHeap
pop_timer h = if length h.items == 0 then (none, h) else unregister (pop h)

-- `heap.Remove(h, t.index)`, which panics at -1.
abbrev pub remove_object : ℕ → TimerHeap → TimerHeap
remove_object t h = elim ((h.objects t).index) [ none ↦ panic h | some i ↦ (remove_at i h).1 ]

unfoldable pub remove : ℕ → TimerHeap → Bool × TimerHeap
remove id h = elim (h.by_id id) [
  | none ↦ (false, h)
  | some t ↦ (true, remove_object t (delete_id id h))
]
