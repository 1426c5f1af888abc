-- ===== src/Sim/Steps.antt =====
-- internal/sim/sim.go and simio.go: Dispatch of a node's requests, delivery of events, and the steps
-- of the simulation.
use election_go.Base.{
  ℕ, zero, suc, ◌+◌, ltb, String, Bool, true, false, [], ◌∷◌, ◌++◌, Option, none, some,
  if◌then◌else◌,
}
use election_go.Engine.{
  Event, event_rpc, event_timer, Req, send_rpc, recv, after, cancel, now, Resp, sent, received,
  armed_as, cancel_done, time, SendResult, failed, replied,
}
use election_go.Node.Lifecycle.{plain}
use election_go.Sim.Clock.{sub, advance}
use election_go.Sim.Heap.{PendingTimer, update, add, remove, peek, pop_timer}
use election_go.Sim.Cluster.{
  Turn, blocked, dispatches, responds, finishes, Runtime, SimIo, SimNode, PendingRpc, Simulation,
  find_node, with_node, lookup_call,
}
use election_go.Sim.Network.{queue_rpc, has_ready_rpc, next_delayed_rpc, dequeue_ready_rpc}

module _ (rt : Runtime) where
  abbrev pub with_io : String → (SimIo → SimIo) → Simulation rt → Simulation rt
  with_io id f s = with_node rt id (λ n. record n { io = f n.io }) s

  abbrev with_sched : String → (rt.Sched → rt.Sched) → Simulation rt → Simulation rt
  with_sched id f s = with_node rt id (λ n. record n { sched = f n.sched }) s

  -- The case `Recv` of `Dispatch`.
  unfoldable pub dispatch_recv : String → ℕ → Simulation rt → Option Resp × Simulation rt
  dispatch_recv id cb s = elim (find_node rt id s.nodes) [
    | none ↦ (none, s)
    | some n ↦ elim n.io.events [
      | e ∷ rest ↦ (some (received e), with_io id (λ io. record io { events = rest }) s)
      | [] ↦ (none, with_io id (λ io. record io { pending_recv = some cb }) s)
    ]
  ]

  abbrev pub new_timer : String → ℕ → ℕ → Simulation rt → PendingTimer
  new_timer id timer d s = record {
    fire_at = s.clock + d;
    timer_id = timer;
    node_id = id;
    index = some 0;
  }

  -- A timer object is allocated and added to the heap that all nodes share.
  abbrev pub arm_timer : PendingTimer → Simulation rt → Simulation rt
  arm_timer x s = record s {
    timer_heap =
        add s.next_object
          (record s.timer_heap { objects = update s.timer_heap.objects s.next_object x });
    next_object = s.next_object + 1;
  }

  -- The case `After` of `Dispatch`.
  unfoldable pub dispatch_after : String → ℕ → Simulation rt → Option Resp × Simulation rt
  dispatch_after id d s = elim (find_node rt id s.nodes) [
    | none ↦ (none, s)
    | some n ↦
        let timer = n.io.next_timer_id + 1 in
        (
          some (armed_as timer),
          arm_timer (new_timer id timer d s)
              (with_io id (λ io. record io { next_timer_id = timer }) s),
        )
  ]

  unfoldable pub dispatch : String → Req → ℕ → Simulation rt → Option Resp × Simulation rt
  dispatch id (send_rpc peer req) cb s = queue_rpc rt id peer req cb s
  dispatch id recv cb s = dispatch_recv id cb s
  dispatch id (after d) cb s = dispatch_after id d s
  dispatch id (cancel timer) cb s =
      (some cancel_done, record s { timer_heap = (remove timer s.timer_heap).1 })
  dispatch id now cb s = (some (time s.clock), s)

  -- `sched.RunUntilBlocked` of a node.
  unfoldable pub run_turn : String → Turn rt.Sched → Simulation rt → Simulation rt
  run_turn id (blocked x) s = with_sched id (λ _. x) s
  run_turn id (dispatches req cb k) s =
      let (answer, s') = dispatch id req cb s in run_turn id (k answer) s'
  run_turn id (responds call resp t) s =
      run_turn id t (record s { responses = (call, resp) ∷ s.responses })
  run_turn id (finishes call err t) s =
      run_turn id t (record s { results = (call, err) ∷ s.results })

  unfoldable pub run_node : String → Simulation rt → Simulation rt
  run_node id s = elim (find_node rt id s.nodes) [
    | none ↦ s
    | some n ↦ run_turn id (rt.run_until_blocked s.clock n.sched) s
  ]

  abbrev pub receive_event : Event → SimNode rt → SimNode rt
  receive_event e n = elim n.io.pending_recv [
    | some cb ↦ record {
      sched = rt.resolve cb (received e) n.sched;
      io = record n.io { pending_recv = none };
    }
    | none ↦ record n { io = record n.io { events = n.io.events ++ e ∷ [] } }
  ]

  unfoldable pub deliver_event : String → Event → Simulation rt → Simulation rt
  deliver_event id e s = with_node rt id (receive_event e) s

  -- The callback of a `SendRPC` of the node `from`.
  abbrev pub resolve_sender : PendingRpc → SendResult → Simulation rt → Simulation rt
  resolve_sender r x s = with_sched r.from (rt.resolve r.callback (sent x)) s

  abbrev pub answer_of : ℕ → Simulation rt → SendResult
  answer_of call s = elim (lookup_call call s.responses) [
    | none ↦ failed
    | some resp ↦ replied resp
  ]

  abbrev rpc_event : PendingRpc → ℕ → Event
  rpc_event r call = record (plain event_rpc) { rpc_req = r.req; respond = some call }

  unfoldable pub deliver_rpc : PendingRpc → Simulation rt → Simulation rt
  deliver_rpc r s = elim (find_node rt r.to s.nodes) [
    | none ↦ resolve_sender r failed s
    | some _ ↦
        let call = s.next_call in
        let s' =
          run_node r.to
            (deliver_event r.to (rpc_event r call) (record s { next_call = call + 1 })) in
        run_node r.from (resolve_sender r (answer_of call s') s')
  ]

  -- The fuel bounds the RPCs that nodes send while RPCs are delivered; `none` means that it ran out.
  unfoldable pub drain_immediate_rpcs : ℕ → Simulation rt → Option (Simulation rt)
  drain_immediate_rpcs zero s = none
  drain_immediate_rpcs (suc k) s = elim (dequeue_ready_rpc rt s) [
    | none ↦ some s
    | some (r, s') ↦ drain_immediate_rpcs k (deliver_rpc r s')
  ]

  abbrev pub advance_to : ℕ → Simulation rt → Simulation rt
  advance_to t s = if ltb s.clock t then record s { clock = t } else s

  abbrev pub pop_first : Simulation rt → Simulation rt
  pop_first s = record s { timer_heap = (pop_timer s.timer_heap).1 }

  abbrev timer_event : PendingTimer → Event
  timer_event x = record (plain event_timer) { timer_id = x.timer_id }

  unfoldable pub fire_timer : ℕ → ℕ → Simulation rt → Option (Simulation rt)
  fire_timer fuel t s =
      let x = s.timer_heap.objects t in
      let s' = pop_first (advance_to x.fire_at s) in
      elim (find_node rt x.node_id s'.nodes) [
        | none ↦ some s'
        | some _ ↦
            drain_immediate_rpcs fuel
              (run_node x.node_id (deliver_event x.node_id (timer_event x) s'))
      ]

  abbrev pub fired : Option (Simulation rt) → Option (Bool × Simulation rt)
  fired none = none
  fired (some s) = some (true, s)

  -- The part of `step` where a timer or a due RPC is there.
  abbrev pub is_past : ℕ → Simulation rt → Bool
  is_past t s = ltb (s.timer_heap.objects t).fire_at s.clock

  unfoldable pub step_timer : ℕ → Simulation rt → Option (Bool × Simulation rt)
  step_timer fuel s = elim (peek s.timer_heap) [
    | none ↦ some (false, s)
    | some t ↦ fired (fire_timer fuel t s)
  ]

  unfoldable pub step_rpc : ℕ → Simulation rt → Option (Bool × Simulation rt)
  step_rpc fuel s = elim (dequeue_ready_rpc rt s) [
    | none ↦ step_timer fuel s
    | some (r, s') ↦ some (true, deliver_rpc r s')
  ]

  unfoldable pub step_due : ℕ → Simulation rt → Option (Bool × Simulation rt)
  step_due fuel s = elim (peek s.timer_heap) [
    | none ↦ step_rpc fuel s
    | some t ↦ if is_past t s then fired (fire_timer fuel t s) else step_rpc fuel s
  ]

  -- `deliverAt` of a delayed RPC, which every RPC handed here is.
  abbrev pub deliver_time : PendingRpc → ℕ → ℕ
  deliver_time r t = elim r.deliver_at [ none ↦ t | some at ↦ at ]

  -- `Advance` by the delivery time less the clock's.
  abbrev pub advance_clock : PendingRpc → Simulation rt → Simulation rt
  advance_clock r s = record s { clock = advance (sub (deliver_time r s.clock) s.clock) s.clock }

  unfoldable pub step : ℕ → Simulation rt → Option (Bool × Simulation rt)
  step zero s = none
  step (suc k) s = elim (has_ready_rpc rt s) [
    | true ↦ step_due k s
    | false ↦ elim (peek s.timer_heap) [
      | some _ ↦ step_timer k s
      | none ↦ elim (next_delayed_rpc rt s) [
        | none ↦ some (false, s)
        | some r ↦ step k (advance_clock r s)
      ]
    ]
  ]
