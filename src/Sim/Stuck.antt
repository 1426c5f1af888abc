-- ===== src/Sim/Stuck.antt =====
-- internal/sim/sim.go: RunFor with only delayed RPCs left.
use election_go.Base.{
  ℕ, zero, suc, ◌+◌, ◌≡◌, ◌≤◌, refl, ◌∙◌, Bool, false, Bool-cases, Option-cases, List, [], ◌∷◌,
  Option, none, some, inl, inr, arith, All,
}
use election_go.Sim.Heap.{peek}
use election_go.Sim.Cluster.{Runtime, PendingRpc, Simulation}
use election_go.Sim.Network.{
  is_zero, take_ready, has_ready_rpc, next_delayed_rpc, dequeue_ready_rpc,
}
use election_go.Sim.Steps.{step_timer, step_rpc, step_due, step, advance_clock}
use election_go.Sim.Runs.{any_zero, next_event_time, is_over, run_to, run_for}

abbrev pub IsDelayed : PendingRpc → Type 0
IsDelayed r = is_zero r.deliver_at ≡ false

take_ready-none : (rs : List PendingRpc) → All IsDelayed rs → take_ready rs ≡ none
unfolding take_ready
take_ready-none [] d = refl
take_ready-none (r ∷ rs) d = ground (arith, take_ready-none rs d.1)

any_zero-false : (rs : List PendingRpc) → All IsDelayed rs → any_zero rs ≡ false
unfolding any_zero
any_zero-false [] d = refl
any_zero-false (r ∷ rs) d = ground (arith, any_zero-false rs d.1)

module _ (rt : Runtime) where
  -- No timer is pending, and all RPCs are delayed, the first until `at`.
  pub record IsStuck (at : ℕ) (s : Simulation rt) : Type 0 where
    pub no_timer : peek s.timer_heap ≡ none
    pub waiting : All IsDelayed s.rpc_queue
    pub first : PendingRpc
    pub next : next_delayed_rpc rt s ≡ some first
    pub due : first.deliver_at ≡ some at

  dequeue-none : (at : ℕ) (s : Simulation rt) → IsStuck at s → dequeue_ready_rpc rt s ≡ none
  unfolding dequeue_ready_rpc
  dequeue-none at s v = rw (take_ready-none s.rpc_queue v.waiting, dequeue_ready_rpc)

  step_due-stuck : (k at : ℕ) (s : Simulation rt) → IsStuck at s → step_due rt k s ≡ some (false, s)
  unfolding step_due step_rpc step_timer
  step_due-stuck k at s v = ground (arith, v.no_timer, dequeue-none at s v)

  advance-next :
      (r : PendingRpc) (s : Simulation rt)
      → next_delayed_rpc rt (advance_clock rt r s) ≡ next_delayed_rpc rt s
  unfolding next_delayed_rpc
  advance-next r s = refl

  StaysStuck : ℕ → Option (Bool × Simulation rt) → Type 0
  StaysStuck at none = Unit
  StaysStuck at (some r) = IsStuck at r.1

  step-stuck : (k at : ℕ) (s : Simulation rt) → IsStuck at s → StaysStuck at (step rt k s)
  unfolding step StaysStuck
  step-stuck zero at s v = tt
  step-stuck (suc k) at s v = elim (Bool-cases (has_ready_rpc rt s)) [
    | inl e ↦ rw (e, step, step_due-stuck k at s v) v
    | inr e ↦
        let s' : Simulation rt = advance_clock rt v.first s in
        rw (e, step, v.no_timer, v.next, step)
          (step-stuck k at s' (record {
            no_timer = v.no_timer;
            waiting = v.waiting;
            first = v.first;
            next = advance-next v.first s ∙ v.next;
            due = v.due;
          }))
  ]

  next_event_time-stuck :
      (at : ℕ) (s : Simulation rt) → IsStuck at s → next_event_time rt s ≡ some at
  unfolding next_event_time
  next_event_time-stuck at s v =
      ground (arith, any_zero-false s.rpc_queue v.waiting, v.no_timer, v.next, v.due)

  run_to-stuck :
      (k deadline at : ℕ) (s : Simulation rt)
      → IsStuck at s
      → at ≤ deadline
      → run_to rt k deadline s ≡ none
  unfolding run_to StaysStuck
  run_to-stuck zero deadline at s v l = refl
  run_to-stuck (suc k) deadline at s v l =
      let more : is_over rt deadline (next_event_time rt s) ≡ false =
        rw (next_event_time-stuck at s v) (ground arith) in
      elim (Option-cases (step rt k s)) [
        | inl e ↦ rw (more, run_to, e, run_to)
        | inr y ↦
            let v' : IsStuck at y.0.1 = rw y.1 at (step-stuck k at s v) in
            rw (more, run_to, y.1, run_to) (run_to-stuck k deadline at y.0.1 v' l)
      ]

  -- With no timer left and only delayed RPCs, the first of which is due within the time that `RunFor`
  -- is to run, no fuel is enough: the loop does not end.
  pub run_for-stuck :
      (fuel d at : ℕ) (s : Simulation rt)
      → IsStuck at s
      → at ≤ s.clock + d
      → run_for rt fuel d s ≡ none
  unfolding run_for
  run_for-stuck fuel d at s v l = run_to-stuck fuel (s.clock + d) at s v l
