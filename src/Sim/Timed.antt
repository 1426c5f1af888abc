-- ===== src/Sim/Timed.antt =====
-- internal/sim/sim.go, heap.go: the timer heap in the states that a simulation reaches.
use election_go.Base.{
  ℕ, zero, suc, ◌==◌, [], ◌∷◌, Bool-cases, subst, sym, ◌≡◌, ◌≤◌, refl, Bool, Option, some,
  Option-cases, inl, inr, arith, String, List,
}
use election_go.Sim.Heap.{PendingTimer, TimerHeap, update, peek, pop_timer, remove}
use election_go.Sim.Heap.Index.{Holds}
use election_go.Sim.Heap.Registry.{
  IsIndexed, IsAbsent, Made, empty, added, popped, removed, Made-IsIndexed, stored-IsIndexed,
  add-Pushed, pop_timer-Dropped, pop_timer-empty, remove-Dropped, remove-unknown,
}
use election_go.Sim.Cluster.{Runtime, Simulation, leader_count}
use election_go.Sim.Network.{set_partition, partition_one, partition}
use election_go.Sim.Steps.{arm_timer, deliver_event, run_node, step}
use election_go.Sim.Runs.{
  SimConfig, is_over, next_event_time, make_nodes, run_all, initial_state, new, run_to, Election,
  elect, send_event,
}
use election_go.Engine.{Event}
use election_go.Sim.Rule.{Closed, same, run_node-keeps, run_node-from}
use election_go.Sim.Rule.Steps.{StepLeads, step-StepLeads}

pub pop_timer-back : (h : TimerHeap) (s : ℕ) → IsIndexed h → Holds (pop_timer h).1 s → Holds h s
pop_timer-back h s v e = elim (Option-cases (peek h)) [
  | inl n ↦ subst (λ (r : Option ℕ × TimerHeap). Holds r.1 s) (pop_timer-empty h n) e
  | inr y ↦ (pop_timer-Dropped h y.0 v y.1).1.back s e
]

pub remove-back :
    (id : ℕ) (h : TimerHeap) (s : ℕ) → IsIndexed h → Holds (remove id h).1 s → Holds h s
remove-back id h s v e = elim (Option-cases (h.by_id id)) [
  | inl n ↦ subst (λ (r : Bool × TimerHeap). Holds r.1 s) (remove-unknown id h n) e
  | inr y ↦ (remove-Dropped id h y.0 v y.1).1.back s e
]

module _ (rt : Runtime) where
  -- The heap was made by its operations, and the pointers to come are not in it.
  pub record IsTimed (s : Simulation rt) : Type 0 where
    pub made : Made s.timer_heap
    pub fresh : (t : ℕ) → s.next_object ≤ t → IsAbsent t s.timer_heap

  abbrev pub Keeps : Simulation rt → Simulation rt → Type 0
  Keeps s s' = IsTimed s → IsTimed s'

  arm_timer-IsTimed : (s : Simulation rt) (x : PendingTimer) → Keeps s (arm_timer rt x s)
  arm_timer-IsTimed s x v =
      let t = s.next_object in
      let h : TimerHeap = record s.timer_heap { objects = update s.timer_heap.objects t x } in
      let out = v.fresh t (omega arith) in
      let p =
        add-Pushed t h (stored-IsIndexed s.timer_heap t x (Made-IsIndexed _ v.made) out).placed
          out in
      record {
        made = added s.timer_heap t x v.made out;
        fresh = λ u l i e. elim (p.back u (i, e)) [
          | inl (j, ej) ↦ v.fresh u (omega arith) j ej
          | inr q ↦ omega (arith, l, q)
        ];
      }

  IsTimed-Closed : Closed rt Keeps
  IsTimed-Closed = record {
    quiet = λ s s' e v. record {
      made = subst Made (sym e.timer_heap) v.made;
      fresh = λ t l.
          subst (IsAbsent t) (sym e.timer_heap) (v.fresh t (omega (arith, e.next_object, l)));
    };
    trans = λ s s' s'' p q v. q (p v);
    enqueues = λ s r v. record { made = v.made; fresh = v.fresh };
    dequeues = λ s r rest e v. record { made = v.made; fresh = v.fresh };
    arms = λ s x. arm_timer-IsTimed s x;
    cancels = λ s id v. record {
      made = removed s.timer_heap id v.made;
      fresh = λ t l i e.
          let (j, ej) = remove-back id s.timer_heap t (Made-IsIndexed _ v.made) (i, e) in
          v.fresh t l j ej;
    };
    pops = λ s v. record {
      made = popped s.timer_heap v.made;
      fresh = λ t l i e.
          let (j, ej) = pop_timer-back s.timer_heap t (Made-IsIndexed _ v.made) (i, e) in
          v.fresh t l j ej;
    };
    advances = λ s t l v. record { made = v.made; fresh = v.fresh };
  }

  run_all-IsTimed : (ids : List String) (s : Simulation rt) → Keeps s (run_all rt ids s)
  unfolding run_all
  run_all-IsTimed [] s v = v
  run_all-IsTimed (id ∷ ids) s v =
      run_all-IsTimed ids (run_node rt id s) (run_node-keeps rt Keeps IsTimed-Closed id s v)

  pub new-IsTimed :
      (ids : List String) (start : ℕ) (random : ℕ → ℕ) (conf : SimConfig rt) (s : Simulation rt)
      → new rt ids start random conf ≡ some s
      → IsTimed s
  unfolding new
  new-IsTimed ids start random conf s e = elim (Option-cases (make_nodes rt ids conf 0 ids)) [
    | inl n ↦ absurd (ground (arith, n, e))
    | inr y ↦
        let s' = initial_state rt y.0 start random conf in
        let made : run_all rt ids s' ≡ s = ground (arith, y.1, e) in
        subst IsTimed made (run_all-IsTimed ids s' (record { made = empty; fresh = λ t l i q. cc }))
  ]

  step-IsTimed :
      (k : ℕ) (s : Simulation rt) (r : Bool × Simulation rt) → step rt k s ≡ some r → Keeps s r.1
  step-IsTimed k s r e = subst (StepLeads Keeps s) e (step-StepLeads rt Keeps IsTimed-Closed k s)

  pub run_to-IsTimed : (k d : ℕ) (s s' : Simulation rt) → run_to rt k d s ≡ some s' → Keeps s s'
  unfolding run_to
  run_to-IsTimed zero d s s' e v = absurd (ground (arith, e))
  run_to-IsTimed (suc k) d s s' e v = elim (Bool-cases (is_over rt d (next_event_time rt s))) [
    | inl o ↦
        let over : record s { clock = d } ≡ s' = ground (arith, o, e) in
        subst IsTimed over (record { made = v.made; fresh = v.fresh })
    | inr o ↦ elim (Option-cases (step rt k s)) [
      | inl n ↦ absurd (ground (arith, o, n, e))
      | inr y ↦ run_to-IsTimed k d y.0.1 s' (ground (arith, o, y.1, e)) (step-IsTimed k s y.0 y.1 v)
    ]
  ]

  pub send_event-IsTimed :
      (id : String) (e : Event) (s : Simulation rt) → Keeps s (send_event rt id e s)
  unfolding send_event deliver_event
  send_event-IsTimed id e s =
      run_node-from rt Keeps IsTimed-Closed id s _ (same refl refl refl refl)

  partition_one-IsTimed :
      (a : String) (bs : List String) (s : Simulation rt) → Keeps s (partition_one rt a bs s)
  unfolding partition_one set_partition
  partition_one-IsTimed a [] s v = v
  partition_one-IsTimed a (b ∷ bs) s v =
      partition_one-IsTimed a bs _ (record { made = v.made; fresh = v.fresh })

  pub partition-IsTimed :
      (as' bs : List String) (s : Simulation rt) → Keeps s (partition rt as' bs s)
  unfolding partition
  partition-IsTimed [] bs s v = v
  partition-IsTimed (a ∷ as') bs s v = partition-IsTimed as' bs _ (partition_one-IsTimed a bs s v)

  pub elect-IsTimed :
      (n k : ℕ) (s : Simulation rt) (r : Election × Simulation rt)
      → elect rt n k s ≡ some r
      → Keeps s r.1
  unfolding elect
  elect-IsTimed zero k s r e v =
      let same_state : s ≡ r.1 = ground (arith, e) in subst IsTimed same_state v
  elect-IsTimed (suc n) k s r e v = elim (Bool-cases (leader_count rt s == 1)) [
    | inl o ↦ let same_state : s ≡ r.1 = ground (arith, o, e) in subst IsTimed same_state v
    | inr o ↦ elim (Option-cases (step rt k s)) [
      | inl n' ↦ absurd (ground (arith, o, n', e))
      | inr y ↦ elim (Bool-cases y.0.0) [
        | inl b ↦
            elect-IsTimed n k y.0.1 r (ground (arith, o, y.1, b, e)) (step-IsTimed k s y.0 y.1 v)
        | inr b ↦
            let same_state : y.0.1 ≡ r.1 = ground (arith, o, y.1, b, e) in
            subst IsTimed same_state (step-IsTimed k s y.0 y.1 v)
      ]
    ]
  ]
