-- ===== src/Sim/Rule/Steps.antt =====
-- internal/sim/sim.go: a relation between states that allows every change holds across every step.
use election_go.Base.{
  ℕ, zero, suc, ◌≡◌, ◌≤◌, List, [], ◌∷◌, false, refl, Bool, Bool-cases, Option-cases, Option, none,
  some, inl, inr, arith, if_elim, ltb, subst,
}
use election_go.Sim.Heap.{peek}
use election_go.Sim.Clock.{advance-sub}
use election_go.Sim.Cluster.{Runtime, PendingRpc, Simulation, find_node}
use election_go.Sim.Network.{
  any_due, first_delayed, take_ready, has_ready_rpc, next_delayed_rpc, dequeue_ready_rpc,
}
use election_go.Sim.Steps.{
  deliver_event, deliver_rpc, drain_immediate_rpcs, fire_timer, fired, step_timer, step_rpc,
  step_due, step, is_past, advance_to, advance_clock, deliver_time, pop_first,
}
use election_go.Sim.Rule.{Closed, same, run_node-from}

module _ {rt : Runtime} (R : Simulation rt → Simulation rt → Type 0) where
  -- The result, if the fuel was enough, is related to `s`.
  abbrev pub Leads : Simulation rt → Option (Simulation rt) → Type 0
  Leads s none = Unit
  Leads s (some s') = R s s'

  abbrev pub StepLeads : Simulation rt → Option (Bool × Simulation rt) → Type 0
  StepLeads s none = Unit
  StepLeads s (some r) = R s r.1

module _ (rt : Runtime) (R : Simulation rt → Simulation rt → Type 0) (closed : Closed rt R) where
  idle : (s : Simulation rt) → R s s
  idle s = closed.quiet s s (same refl refl refl refl)

  deliver_rpc-keeps : (r : PendingRpc) (s : Simulation rt) → R s (deliver_rpc rt r s)
  unfolding deliver_rpc deliver_event
  deliver_rpc-keeps r s = elim (Option-cases (find_node rt r.to s.nodes)) [
    | inl e ↦ rw (e, deliver_rpc) (closed.quiet s _ (same refl refl refl refl))
    | inr y ↦
        rw (y.1, deliver_rpc)
          (closed.trans s _ _ (run_node-from rt R closed r.to s _ (same refl refl refl refl))
            (run_node-from rt R closed r.from _ _ (same refl refl refl refl)))
  ]

  dequeue-keeps :
      (s : Simulation rt) (r : PendingRpc) (s' : Simulation rt)
      → dequeue_ready_rpc rt s ≡ some (r, s')
      → R s s'
  unfolding dequeue_ready_rpc
  dequeue-keeps s r s' e = elim (Option-cases (take_ready s.rpc_queue)) [
    | inl n ↦ absurd (ground (arith, n))
    | inr y ↦
        let s'' : Simulation rt = record s { rpc_queue = y.0.1 } in
        let same_state : s'' ≡ s' = ground (arith, y.1) in
        subst (R s) same_state (closed.dequeues s y.0.0 y.0.1 y.1)
  ]

  Leads-trans :
      (s s' : Simulation rt) (o : Option (Simulation rt)) → R s s' → Leads R s' o → Leads R s o
  Leads-trans s s' none f l = tt
  Leads-trans s s' (some x) f l = closed.trans s s' x f l

  StepLeads-trans :
      (s s' : Simulation rt) (o : Option (Bool × Simulation rt))
      → R s s'
      → StepLeads R s' o
      → StepLeads R s o
  StepLeads-trans s s' none f l = tt
  StepLeads-trans s s' (some x) f l = closed.trans s s' x.1 f l

  drain-Leads : (k : ℕ) (s : Simulation rt) → Leads R s (drain_immediate_rpcs rt k s)
  unfolding drain_immediate_rpcs
  drain-Leads zero s = tt
  drain-Leads (suc k) s = elim (Option-cases (dequeue_ready_rpc rt s)) [
    | inl e ↦ rw (e, drain_immediate_rpcs) (idle s)
    | inr y ↦
        let (r, s') = y.0 in
        let f = closed.trans s s' _ (dequeue-keeps s r s' y.1) (deliver_rpc-keeps r s') in
        rw (y.1, drain_immediate_rpcs) (Leads-trans s (deliver_rpc rt r s') _ f (drain-Leads k _))
  ]

  advance_to-keeps : (t : ℕ) (s : Simulation rt) → R s (advance_to rt t s)
  advance_to-keeps t s =
      if_elim (R s) (ltb s.clock t) (λ e. closed.advances s t (ground (arith, e))) (λ _. idle s)

  fire_timer-Leads : (k t : ℕ) (s : Simulation rt) → Leads R s (fire_timer rt k t s)
  unfolding fire_timer deliver_event
  fire_timer-Leads k t s =
      let x = s.timer_heap.objects t in
      let s1 : Simulation rt = advance_to rt x.fire_at s in
      let s' : Simulation rt = pop_first rt s1 in
      let f = closed.trans s s1 s' (advance_to-keeps x.fire_at s) (closed.pops s1) in
      elim (Option-cases (find_node rt x.node_id s'.nodes)) [
        | inl e ↦ rw (e, fire_timer) f
        | inr y ↦
            rw (y.1, fire_timer)
              (Leads-trans s _ _
                (closed.trans s s' _ f
                  (run_node-from rt R closed x.node_id s' _ (same refl refl refl refl)))
                (drain-Leads k _))
      ]

  fired-StepLeads :
      (s : Simulation rt) (o : Option (Simulation rt)) → Leads R s o → StepLeads R s (fired rt o)
  fired-StepLeads s none l = tt
  fired-StepLeads s (some x) l = l

  step_timer-StepLeads : (k : ℕ) (s : Simulation rt) → StepLeads R s (step_timer rt k s)
  unfolding step_timer
  step_timer-StepLeads k s = elim (Option-cases (peek s.timer_heap)) [
    | inl e ↦ rw (e, step_timer) (idle s)
    | inr y ↦ rw (y.1, step_timer) (fired-StepLeads s _ (fire_timer-Leads k y.0 s))
  ]

  step_rpc-StepLeads : (k : ℕ) (s : Simulation rt) → StepLeads R s (step_rpc rt k s)
  unfolding step_rpc
  step_rpc-StepLeads k s = elim (Option-cases (dequeue_ready_rpc rt s)) [
    | inl e ↦ rw (e, step_rpc) (step_timer-StepLeads k s)
    | inr y ↦
        let (r, s') = y.0 in
        rw (y.1, step_rpc) (closed.trans s s' _ (dequeue-keeps s r s' y.1) (deliver_rpc-keeps r s'))
  ]

  step_due-StepLeads : (k : ℕ) (s : Simulation rt) → StepLeads R s (step_due rt k s)
  unfolding step_due
  step_due-StepLeads k s = elim (Option-cases (peek s.timer_heap)) [
    | inl e ↦ rw (e, step_due) (step_rpc-StepLeads k s)
    | inr y ↦
        rw (y.1, step_due)
          (if_elim (StepLeads R s) (is_past rt y.0 s)
            (λ _. fired-StepLeads s _ (fire_timer-Leads k y.0 s)) (λ _. step_rpc-StepLeads k s))
  ]

  -- Where no RPC is due, the first delayed one is not due before now.
  first_delayed-ahead :
      (now : ℕ) (rs : List PendingRpc) (r : PendingRpc)
      → any_due now rs ≡ false
      → first_delayed rs ≡ some r
      → now ≤ deliver_time rt r now
  unfolding any_due first_delayed
  first_delayed-ahead now [] r e f = cc
  first_delayed-ahead now (x ∷ rs) r e f =
      let none_due : any_due now rs ≡ false = ground (arith, e) in
      elim (Option-cases x.deliver_at) [
        | inl z ↦
            let next : first_delayed rs ≡ some r = ground (arith, f, z) in
            first_delayed-ahead now rs r none_due next
        | inr y ↦
            let first : x ≡ r = ground (arith, f, y.1) in
            subst (λ q. now ≤ deliver_time rt q now) first (ground (arith, e, y.1))
      ]

  next_delayed-ahead :
      (s : Simulation rt) (r : PendingRpc)
      → has_ready_rpc rt s ≡ false
      → next_delayed_rpc rt s ≡ some r
      → s.clock ≤ (advance_clock rt r s).clock
  unfolding has_ready_rpc next_delayed_rpc
  next_delayed-ahead s r e f =
      rw (advance-sub (deliver_time rt r s.clock) s.clock)
        (first_delayed-ahead s.clock s.rpc_queue r e f)

  pub step-StepLeads : (k : ℕ) (s : Simulation rt) → StepLeads R s (step rt k s)
  unfolding step
  step-StepLeads zero s = tt
  step-StepLeads (suc k) s = elim (Bool-cases (has_ready_rpc rt s)) [
    | inl e ↦ rw (e, step) (step_due-StepLeads k s)
    | inr e ↦ elim (Option-cases (peek s.timer_heap)) [
      | inr y ↦ rw (e, step, y.1, step) (step_timer-StepLeads k s)
      | inl n ↦ elim (Option-cases (next_delayed_rpc rt s)) [
        | inl d ↦ rw (e, step, n, d, step) (idle s)
        | inr r ↦
            let s' : Simulation rt = advance_clock rt r.0 s in
            rw (e, step, n, r.1, step)
              (StepLeads-trans s s' _ (closed.advances s s'.clock (next_delayed-ahead s r.0 e r.1))
                (step-StepLeads k s'))
      ]
    ]
  ]
