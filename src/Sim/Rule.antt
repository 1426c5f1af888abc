-- ===== src/Sim/Rule.antt =====
-- internal/sim/sim.go, simio.go: the ways in which the simulation changes its clock, queue and heap,
-- and the rule that a relation between states that allows them all holds across any step.
pub mod Steps
use election_go.Base.{
  ℕ, suc, ◌+◌, ◌≡◌, ◌≤◌, refl, Bool, List, ◌∷◌, ◌++◌, [], Option, none, some, Option-cases, inl,
  inr, if◌then◌else◌, if_elim, String, arith,
}
use election_go.Engine.{RpcRequest, Req, send_rpc, recv, after, cancel, now, Resp}
use election_go.Sim.Heap.{PendingTimer, remove}
use election_go.Sim.Cluster.{
  Turn, blocked, dispatches, responds, finishes, Runtime, PendingRpc, Simulation, find_node,
}
use election_go.Sim.Network.{
  is_partitioned, check_drops, enqueue, queue_rpc, take_ready, dequeue_ready_rpc,
}
use election_go.Sim.Steps.{
  dispatch_recv, dispatch_after, dispatch, arm_timer, new_timer, with_io, pop_first, run_turn,
  run_node,
}

module _ (rt : Runtime) where
  -- The parts that matter are the same.
  pub record Same (s s' : Simulation rt) : Type 0 where
    pub clock : s'.clock ≡ s.clock
    pub rpc_queue : s'.rpc_queue ≡ s.rpc_queue
    pub timer_heap : s'.timer_heap ≡ s.timer_heap
    pub next_object : s'.next_object ≡ s.next_object

  pub record Closed (R : Simulation rt → Simulation rt → Type 0) : Type 0 where
    pub quiet : (s s' : Simulation rt) → Same s s' → R s s'
    pub trans : (s s' s'' : Simulation rt) → R s s' → R s' s'' → R s s''
    pub enqueues :
        (s : Simulation rt) (r : PendingRpc) → R s (record s { rpc_queue = s.rpc_queue ++ r ∷ [] })
    pub dequeues :
        (s : Simulation rt) (r : PendingRpc) (rest : List PendingRpc)
        → take_ready s.rpc_queue ≡ some (r, rest)
        → R s (record s { rpc_queue = rest })
    pub arms : (s : Simulation rt) (x : PendingTimer) → R s (arm_timer rt x s)
    pub cancels :
        (s : Simulation rt) (id : ℕ) → R s (record s { timer_heap = (remove id s.timer_heap).1 })
    pub pops : (s : Simulation rt) → R s (pop_first rt s)
    pub advances : (s : Simulation rt) (t : ℕ) → s.clock ≤ t → R s (record s { clock = t })

-- A state that differs from `s` only in its nodes, its faults or its results.
abbrev pub same :
    {rt : Runtime} {s s' : Simulation rt}
    → s'.clock ≡ s.clock
    → s'.rpc_queue ≡ s.rpc_queue
    → s'.timer_heap ≡ s.timer_heap
    → s'.next_object ≡ s.next_object
    → Same rt s s'
same c q h n = record { clock = c; rpc_queue = q; timer_heap = h; next_object = n }

module _ (rt : Runtime) (R : Simulation rt → Simulation rt → Type 0) (closed : Closed rt R) where
  check_drops-Same : (from : String) (s : Simulation rt) → Same rt s (check_drops rt from s).1
  unfolding check_drops
  check_drops-Same from s = ground arith

  queue_rpc-keeps :
      (from to : String) (req : RpcRequest) (cb : ℕ) (s : Simulation rt)
      → R s (queue_rpc rt from to req cb s).1
  unfolding queue_rpc
  queue_rpc-keeps from to req cb s =
      let c = check_drops-Same from s in
      let s' = (check_drops rt from s).1 in
      if_elim (λ (r : Option Resp × Simulation rt). R s r.1) (is_partitioned rt from to s)
        (λ _. closed.quiet s s (same refl refl refl refl))
        (λ _.
          if_elim (λ (r : Option Resp × Simulation rt). R s r.1) (check_drops rt from s).0
            (λ _. closed.quiet s s' c)
            (λ _. closed.trans s s' _ (closed.quiet s s' c) (closed.enqueues s' _)))

  dispatch_recv-Same :
      (id : String) (cb : ℕ) (s : Simulation rt) → Same rt s (dispatch_recv rt id cb s).1
  unfolding dispatch_recv
  dispatch_recv-Same id cb s = ground arith

  dispatch_after-keeps :
      (id : String) (d : ℕ) (s : Simulation rt) → R s (dispatch_after rt id d s).1
  unfolding dispatch_after
  dispatch_after-keeps id d s = elim (Option-cases (find_node rt id s.nodes)) [
    | inl e ↦ rw (e, dispatch_after) (closed.quiet s s (same refl refl refl refl))
    | inr y ↦
        let timer = y.0.io.next_timer_id + 1 in
        let s' : Simulation rt = with_io rt id (λ io. record io { next_timer_id = timer }) s in
        rw (y.1, dispatch_after)
          (closed.trans s s' _ (closed.quiet s s' (same refl refl refl refl))
            (closed.arms s' (new_timer rt id timer d s)))
  ]

  dispatch-keeps :
      (id : String) (req : Req) (cb : ℕ) (s : Simulation rt) → R s (dispatch rt id req cb s).1
  unfolding dispatch
  dispatch-keeps id (send_rpc peer req) cb s = queue_rpc-keeps id peer req cb s
  dispatch-keeps id recv cb s =
      closed.quiet s (dispatch_recv rt id cb s).1 (dispatch_recv-Same id cb s)
  dispatch-keeps id (after d) cb s = dispatch_after-keeps id d s
  dispatch-keeps id (cancel timer) cb s = closed.cancels s timer
  dispatch-keeps id now cb s = closed.quiet s s (same refl refl refl refl)

  pub run_turn-keeps :
      (id : String) (t : Turn rt.Sched) (s : Simulation rt) → R s (run_turn rt id t s)
  unfolding run_turn
  run_turn-keeps id (blocked x) s =
      closed.quiet s (run_turn rt id (blocked x) s) (same refl refl refl refl)
  run_turn-keeps id (dispatches req cb k) s =
      let r = dispatch rt id req cb s in
      closed.trans s r.1 _ (dispatch-keeps id req cb s) (run_turn-keeps id (k r.0) r.1)
  run_turn-keeps id (responds call resp t) s =
      let s' : Simulation rt = record s { responses = (call, resp) ∷ s.responses } in
      closed.trans s s' _ (closed.quiet s s' (same refl refl refl refl)) (run_turn-keeps id t s')
  run_turn-keeps id (finishes call err t) s =
      let s' : Simulation rt = record s { results = (call, err) ∷ s.results } in
      closed.trans s s' _ (closed.quiet s s' (same refl refl refl refl)) (run_turn-keeps id t s')

  pub run_node-keeps : (id : String) (s : Simulation rt) → R s (run_node rt id s)
  unfolding run_node
  run_node-keeps id s = elim (Option-cases (find_node rt id s.nodes)) [
    | inl e ↦ rw (e, run_node) (closed.quiet s s (same refl refl refl refl))
    | inr y ↦ rw (y.1, run_node) (run_turn-keeps id (rt.run_until_blocked s.clock y.0.sched) s)
  ]

  -- The run of a node from a state that differs from `s` in other parts.
  pub run_node-from : (id : String) (s s' : Simulation rt) → Same rt s s' → R s (run_node rt id s')
  run_node-from id s s' e =
      closed.trans s s' (run_node rt id s') (closed.quiet s s' e) (run_node-keeps id s')
