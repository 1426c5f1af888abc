-- ===== src/Sim/Heap/Moves.antt =====
-- internal/sim/heap.go: Push, Pop and Remove of container/heap, on a heap in which every timer knows
-- its place.
use election_go.Base.{
  ◌⊎◌, inl, inr, Bool-cases, ℕ, zero, suc, ◌-◌, ◌≡◌, ◌≢◌, ◌∙◌, refl, Option, none, some, get_elem?,
  take, arith, if_elim, length, ◌==◌, ◌∷◌, [], get_elem?-append, get_elem?-take, get_elem?-lt,
  get_elem?-total, length-append, length-take,
}
use election_go.Sim.Heap.{
  TimerHeap, set_index, swap, down, push_last, push, pop_last, pop, remove_at,
}
use election_go.Sim.Heap.Index.{
  Holds, IsPlaced, Rearranged, Rearranged-refl, Shuffled, swap-Shuffled, Sifted, swap-Sifted,
  swap-swapped, swapped-IsPlaced, swapped-Rearranged, get_elem?-swapped, up-keeps, down-keeps,
  sift-keeps,
}

-- `h'` is `h` with `t` added.
pub record Pushed (t : ℕ) (h h' : TimerHeap) : Type 0 where
  pub placed : IsPlaced h'
  pub size : length h'.items ≡ suc (length h.items)
  pub by_id : h'.by_id ≡ h.by_id
  pub fire_at : (s : ℕ) → (h'.objects s).fire_at ≡ (h.objects s).fire_at
  pub timer_id : (s : ℕ) → (h'.objects s).timer_id ≡ (h.objects s).timer_id
  pub node_id : (s : ℕ) → (h'.objects s).node_id ≡ (h.objects s).node_id
  pub kept : (s : ℕ) → Holds h s → Holds h' s
  pub entered : Holds h' t
  pub back : (s : ℕ) → Holds h' s → Holds h s ⊎ (t ≡ s)

pushed_back : (t : ℕ) (h : TimerHeap) (s : ℕ) → Holds (push_last t h) s → Holds h s ⊎ (t ≡ s)
unfolding push_last
pushed_back t h s (c, e) = elim (Bool-cases (c == length h.items)) [
  | inl q ↦ inr (ground (arith, get_elem?-append h.items t c))
  | inr q ↦ inl (c, ground (arith, get_elem?-append h.items t c))
]

pub push_last-Pushed :
    (t : ℕ) (h : TimerHeap)
    → IsPlaced h
    → ((i : ℕ) → get_elem? h.items i ≢ some t)
    → Pushed t h (push_last t h)
unfolding push_last
push_last-Pushed t h v out = record {
  placed = record {
    safe = v.safe;
    placed = λ i s e. ground (arith, get_elem?-append h.items t i, v.placed i s, out i);
  };
  size = omega (arith, length-append h.items (t ∷ []));
  by_id = refl;
  fire_at = λ s. ground arith;
  timer_id = λ s. ground arith;
  node_id = λ s. ground arith;
  kept =
      λ s e. (e.0, ground (arith, get_elem?-append h.items t e.0, get_elem?-lt h.items e.0 s e.1));
  entered = (length h.items, ground (arith, get_elem?-append h.items t (length h.items)));
  back = λ s e. pushed_back t h s e;
}

pub push-Pushed :
    (t : ℕ) (h : TimerHeap)
    → IsPlaced h
    → ((i : ℕ) → get_elem? h.items i ≢ some t)
    → Pushed t h (push t h)
unfolding push
push-Pushed t h v out =
    let p = push_last-Pushed t h v out in
    let g = push_last t h in
    let s =
      up-keeps (Shuffled g) (length g.items) (swap-Shuffled g) (length h.items) g (length h.items)
        (record { placed = p.placed; same = Rearranged-refl g }) (omega (arith, p.size)) in
    record {
      placed = s.placed;
      size = s.same.size ∙ p.size;
      by_id = s.same.by_id ∙ p.by_id;
      fire_at = λ x. s.same.fire_at x ∙ p.fire_at x;
      timer_id = λ x. s.same.timer_id x ∙ p.timer_id x;
      node_id = λ x. s.same.node_id x ∙ p.node_id x;
      kept = λ x e. s.same.kept x (p.kept x e);
      entered = s.same.kept t p.entered;
      back = λ x e. p.back x (s.same.back x e);
    }

-- `r` hands out `t` and a heap that is `h` without it.
pub record Popped (t : ℕ) (h : TimerHeap) (r : Option ℕ × TimerHeap) : Type 0 where
  pub result : r.0 ≡ some t
  pub placed : IsPlaced r.1
  pub size : suc (length r.1.items) ≡ length h.items
  pub by_id : r.1.by_id ≡ h.by_id
  pub fire_at : (s : ℕ) → (r.1.objects s).fire_at ≡ (h.objects s).fire_at
  pub timer_id : (s : ℕ) → (r.1.objects s).timer_id ≡ (h.objects s).timer_id
  pub node_id : (s : ℕ) → (r.1.objects s).node_id ≡ (h.objects s).node_id
  pub kept : (s : ℕ) → s ≢ t → Holds h s → Holds r.1 s
  pub index : (r.1.objects t).index ≡ none
  pub back : (s : ℕ) → Holds r.1 s → Holds h s

abbrev pub cut : ℕ → ℕ → TimerHeap → Option ℕ × TimerHeap
cut t n h = (some t, set_index t none (record h { items = take n h.items }))

pub pop_last-cut :
    (t n : ℕ) (h : TimerHeap)
    → length h.items ≡ suc n
    → get_elem? h.items n ≡ some t
    → pop_last h ≡ cut t n h
unfolding pop_last
pop_last-cut t n h l e = let d : length h.items - 1 ≡ n = omega arith in ground (arith, d)

pop_last-Popped :
    (t n : ℕ) (h : TimerHeap)
    → IsPlaced h
    → length h.items ≡ suc n
    → get_elem? h.items n ≡ some t
    → Popped t h (pop_last h)
pop_last-Popped t n h v l e = rw (pop_last-cut t n h l e) (record {
  result = refl;
  placed = record {
    safe = v.safe;
    placed = λ i s f.
        ground (arith, get_elem?-take n h.items i, v.placed i s, v.placed n t, v.placed i t);
  };
  size = omega (arith, length-take n h.items);
  by_id = refl;
  fire_at = λ s. ground arith;
  timer_id = λ s. ground arith;
  node_id = λ s. ground arith;
  kept =
      λ s ne f. (f.0, ground (arith, get_elem?-take n h.items f.0, get_elem?-lt h.items f.0 s f.1));
  index = ground arith;
  back = λ s f. (f.0, ground (arith, get_elem?-take n h.items f.0));
})

Popped-after :
    (t : ℕ) (h h' : TimerHeap) (r : Option ℕ × TimerHeap)
    → Rearranged h h'
    → Popped t h' r
    → Popped t h r
Popped-after t h h' r q p = record {
  result = p.result;
  placed = p.placed;
  size = p.size ∙ q.size;
  by_id = p.by_id ∙ q.by_id;
  fire_at = λ s. p.fire_at s ∙ q.fire_at s;
  timer_id = λ s. p.timer_id s ∙ q.timer_id s;
  node_id = λ s. p.node_id s ∙ q.node_id s;
  kept = λ s ne e. p.kept s ne (q.kept s e);
  index = p.index;
  back = λ s e. q.back s (p.back s e);
}

Sifted-Popped :
    (h : TimerHeap) (n t : ℕ) (h' : TimerHeap)
    → length h.items ≡ suc n
    → Sifted h n t h'
    → Popped t h (pop_last h')
Sifted-Popped h n t h' l s =
    Popped-after t h h' _ s.same (pop_last-Popped t n h' s.placed (s.same.size ∙ l) s.last)

-- The swap that brings the timer to go to the end.
pub swap-last-Sifted :
    (h : TimerHeap) (i n t : ℕ)
    → IsPlaced h
    → length h.items ≡ suc n
    → get_elem? h.items i ≡ some t
    → Sifted h n t (swap h i n)
swap-last-Sifted h i n t v l e =
    let (b, eb) = get_elem?-total h.items n (omega arith) in
    rw (swap-swapped h i n t b e eb) (record {
      placed = swapped-IsPlaced h i n t b e eb v;
      same = swapped-Rearranged h i n t b e eb;
      last = ground (arith, get_elem?-swapped h i n t b e eb n);
    })

pub down-Sifted :
    (h₀ : TimerHeap) (n t : ℕ) (h : TimerHeap) → Sifted h₀ n t h → Sifted h₀ n t (down n h n 0).0
unfolding down
down-Sifted h₀ zero t h s = s
down-Sifted h₀ (suc n) t h s =
    (down-keeps (Sifted h₀ (suc n) t) (suc n) (swap-Sifted h₀ (suc n) t) (suc n) h (suc n) 0 s
      (omega arith) (omega arith)).0

pub pop-Popped :
    (h : TimerHeap) (t : ℕ) → IsPlaced h → get_elem? h.items 0 ≡ some t → Popped t h (pop h)
unfolding pop
pop-Popped h t v e =
    let n = length h.items - 1 in
    let l : length h.items ≡ suc n = omega (arith, get_elem?-lt h.items 0 t e) in
    Sifted-Popped h n t _ l (down-Sifted h n t (swap h 0 n) (swap-last-Sifted h 0 n t v l e))

pub remove_at-Popped :
    (h : TimerHeap) (i t : ℕ)
    → IsPlaced h
    → get_elem? h.items i ≡ some t
    → Popped t h (remove_at i h)
unfolding remove_at
remove_at-Popped h i t v e =
    let n = length h.items - 1 in
    let b = get_elem?-lt h.items i t e in
    let l : length h.items ≡ suc n = omega arith in
    if_elim (λ (x : TimerHeap). Popped t h (pop_last x)) (n == i)
      (λ q. pop_last-Popped t n h v l (ground arith))
      (λ q. Sifted-Popped h n t _ l (
        sift-keeps (Sifted h n t) n (swap-Sifted h n t) n (swap h i n) i
          (swap-last-Sifted h i n t v l e) (omega arith) (ground arith)))
