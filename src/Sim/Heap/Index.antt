-- ===== src/Sim/Heap/Index.antt =====
-- internal/sim/heap.go: every timer knows its place in the heap, and the registered ones are in it,
-- through the swaps of container/heap.
use election_go.Base.{
  ℕ, zero, suc, ◌+◌, ◌*◌, ◌≡◌, ◌<◌, ◌≤◌, ◌∙◌, refl, some, get_elem?, set, arith, if◌then◌else◌,
  false, length, ltb, ◌==◌, ◌||◌, not, Bool-cases, if_elim, inl, inr, get_elem?-set, length-set,
  get_elem?-lt, get_elem?-total,
}
use election_go.Sim.Heap.{TimerHeap, set_index, less, swap, parent, up, least_child, down, sift}

-- The timer is one of the heap's items.
abbrev pub Holds : TimerHeap → ℕ → Type 0
Holds h t = (i : ℕ) × (get_elem? h.items i ≡ some t)

pub record IsPlaced (h : TimerHeap) : Type 0 where
  pub safe : h.panicked ≡ false
  pub placed : (i t : ℕ) → get_elem? h.items i ≡ some t → (h.objects t).index ≡ some i

-- `h'` has the items of `h` in some order, and the same registrations.
pub record Rearranged (h h' : TimerHeap) : Type 0 where
  pub size : length h'.items ≡ length h.items
  pub by_id : h'.by_id ≡ h.by_id
  pub fire_at : (t : ℕ) → (h'.objects t).fire_at ≡ (h.objects t).fire_at
  pub timer_id : (t : ℕ) → (h'.objects t).timer_id ≡ (h.objects t).timer_id
  pub node_id : (t : ℕ) → (h'.objects t).node_id ≡ (h.objects t).node_id
  pub kept : (t : ℕ) → Holds h t → Holds h' t
  pub back : (t : ℕ) → Holds h' t → Holds h t

module _ (h : TimerHeap) (i j a b : ℕ) (ea : get_elem? h.items i ≡ some a)
    (eb : get_elem? h.items j ≡ some b) where
  unfoldable pub swapped : TimerHeap
  swapped =
      set_index a (some j) (set_index b (some i) (record h { items = set (set h.items i b) j a }))

  pub swap-swapped : swap h i j ≡ swapped
  unfolding swap swapped
  swap-swapped = ground arith

  pub get_elem?-swapped :
      (c : ℕ)
      → get_elem? swapped.items c
        ≡ (if j == c then some a else if i == c then some b else get_elem? h.items c)
  unfolding swapped
  get_elem?-swapped c =
      let hi = get_elem?-lt h.items i a ea in
      let hj = get_elem?-lt h.items j b eb in
      ground (
        arith,
        get_elem?-set (set h.items i b) j c a,
        get_elem?-set h.items i c b,
        length-set h.items i b,
      )

  swapped-kept : (t : ℕ) → Holds h t → Holds swapped t
  swapped-kept t (c, e) = (
    if c == i then j else if c == j then i else c,
    ground (arith, get_elem?-swapped c, get_elem?-swapped i, get_elem?-swapped j),
  )

  swapped-back : (t : ℕ) → Holds swapped t → Holds h t
  swapped-back t (c, e) =
      (if j == c then i else if i == c then j else c, ground (arith, get_elem?-swapped c, ea, eb))

  pub swapped-IsPlaced : IsPlaced h → IsPlaced swapped
  unfolding swapped
  swapped-IsPlaced v = record {
    safe = v.safe;
    placed = λ c t e. ground (
      arith,
      get_elem?-swapped c,
      v.placed c t,
      v.placed i t,
      v.placed j t,
      v.placed i a,
      v.placed j b,
      v.placed c a,
      v.placed c b,
    );
  }

  pub swapped-Rearranged : Rearranged h swapped
  unfolding swapped
  swapped-Rearranged = record {
    size = length-set (set h.items i b) j a ∙ length-set h.items i b;
    by_id = refl;
    fire_at = λ t. ground arith;
    timer_id = λ t. ground arith;
    node_id = λ t. ground arith;
    kept = swapped-kept;
    back = swapped-back;
  }

pub Rearranged-refl : (h : TimerHeap) → Rearranged h h
Rearranged-refl h = record {
  size = refl;
  by_id = refl;
  fire_at = λ _. refl;
  timer_id = λ _. refl;
  node_id = λ _. refl;
  kept = λ _ e. e;
  back = λ _ e. e;
}

pub Rearranged-trans :
    {h h' h'' : TimerHeap} → Rearranged h h' → Rearranged h' h'' → Rearranged h h''
Rearranged-trans p q = record {
  size = q.size ∙ p.size;
  by_id = q.by_id ∙ p.by_id;
  fire_at = λ t. q.fire_at t ∙ p.fire_at t;
  timer_id = λ t. q.timer_id t ∙ p.timer_id t;
  node_id = λ t. q.node_id t ∙ p.node_id t;
  kept = λ t e. q.kept t (p.kept t e);
  back = λ t e. p.back t (q.back t e);
}

-- A placed heap with the items of `h₀`.
pub record Shuffled (h₀ : TimerHeap) (h : TimerHeap) : Type 0 where
  pub placed : IsPlaced h
  pub same : Rearranged h₀ h

pub swap-Shuffled :
    (h₀ h : TimerHeap) (i j : ℕ)
    → Shuffled h₀ h
    → i < length h₀.items
    → j < length h₀.items
    → Shuffled h₀ (swap h i j)
swap-Shuffled h₀ h i j s hi hj =
    let (a, ea) = get_elem?-total h.items i (omega (arith, s.same.size)) in
    let (b, eb) = get_elem?-total h.items j (omega (arith, s.same.size)) in
    rw (swap-swapped h i j a b ea eb) (record {
      placed = swapped-IsPlaced h i j a b ea eb s.placed;
      same = Rearranged-trans s.same (swapped-Rearranged h i j a b ea eb);
    })

-- A placed heap with the items of `h₀`, of which `t` stands at `n`.
pub record Sifted (h₀ : TimerHeap) (n t : ℕ) (h : TimerHeap) : Type 0 where
  pub placed : IsPlaced h
  pub same : Rearranged h₀ h
  pub last : get_elem? h.items n ≡ some t

pub swap-Sifted :
    (h₀ : TimerHeap) (n t : ℕ) (h : TimerHeap) (i j : ℕ)
    → Sifted h₀ n t h
    → i < n
    → j < n
    → Sifted h₀ n t (swap h i j)
swap-Sifted h₀ n t h i j s hi hj =
    let l = get_elem?-lt h.items n t s.last in
    let (a, ea) = get_elem?-total h.items i (omega arith) in
    let (b, eb) = get_elem?-total h.items j (omega arith) in
    rw (swap-swapped h i j a b ea eb) (record {
      placed = swapped-IsPlaced h i j a b ea eb s.placed;
      same = Rearranged-trans s.same (swapped-Rearranged h i j a b ea eb);
      last = ground (arith, get_elem?-swapped h i j a b ea eb n, s.last);
    })

-- What every swap below a bound keeps, the loops keep.
module _ {κ} (P : TimerHeap → Type κ) (len : ℕ)
    (swaps : (h : TimerHeap) (i j : ℕ) → P h → i < len → j < len → P (swap h i j)) where
  pub up-keeps : (k : ℕ) (h : TimerHeap) (j : ℕ) → P h → j < len → P (up k h j)
  unfolding up
  up-keeps zero h j p l = p
  up-keeps (suc k) h j p l =
      let i = parent j in
      let q = up-keeps k (swap h i j) i (swaps h i j p (omega arith) l) (omega arith) in
      if_elim P ((i == j) || not (less h j i)) (λ _. p) (λ _. q)

  least_child_bound : (h : TimerHeap) (n i : ℕ) → 2 * i + 1 < n → least_child h n i < n
  unfolding least_child
  least_child_bound h n i l = ground arith

  pub down-keeps :
      (k : ℕ) (h : TimerHeap) (n i : ℕ)
      → P h
      → n ≤ len
      → i < len
      → P (down k h n i).0 × ((down k h n i).1 < len)
  unfolding down
  down-keeps zero h n i p m l = (p, l)
  down-keeps (suc k) h n i p m l = elim (Bool-cases (ltb (2 * i + 1) n)) [
    | inl e ↦
        let j = least_child h n i in
        let b = least_child_bound h n i (ground arith) in
        let q = down-keeps k (swap h i j) n j (swaps h i j p l (omega arith)) m (omega arith) in
        rw e
          (if_elim (λ (r : TimerHeap × ℕ). P r.0 × (r.1 < len)) (less h j i) (λ _. q) (λ _. (p, l)))
    | inr e ↦ rw e (p, l)
  ]

  pub sift-keeps : (n : ℕ) (h : TimerHeap) (i : ℕ) → P h → n ≤ len → i < len → P (sift n h i)
  unfolding sift
  sift-keeps n h i p m l =
      let d = down-keeps n h n i p m l in
      if_elim P (ltb i (down n h n i).1) (λ _. d.0) (λ _. up-keeps i (down n h n i).0 i d.0 l)
