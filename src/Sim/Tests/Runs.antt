-- ===== src/Sim/Tests/Runs.antt =====
-- Sample simulations, and the theorems on them.
use election_go.Base.{
  if◌then◌else◌, str_eq, ℕ, ◌≡◌, refl, false, ◌&&◌, ◌||◌, ltb, ◌⊎◌, List, [], ◌∷◌, ◌++◌, Option,
  none, some, arith, String, str_dec,
}
use election_go.Engine.{
  Event, recv, after, Resp, received, sent, failed, RpcRequest, RpcResponse, unexpected, absent,
}
use election_go.Sim.Heap.{new_timer_heap, peek, earlier, add, push, push_last, up, swap, less}
use election_go.Sim.Cluster.{
  Turn, blocked, dispatches, responds, Runtime, SimNode, PendingRpc, Simulation, find_node,
  update_node,
}
use election_go.Sim.Network.{is_partitioned, partition, queue_rpc, first_delayed, next_delayed_rpc}
use election_go.Sim.Steps.{step, run_node, run_turn, dispatch, dispatch_after, dispatch_recv}
use election_go.Sim.Runs.{SimConfig, make_nodes, run_all, initial_state, new, run_for}
use election_go.Sim.Reached.{Reached, created, Reached-IsIndexed}
use election_go.Sim.Heap.Registry.{IsIndexed}
use election_go.Sim.Rule.Steps.{StepLeads}
use election_go.Sim.Delayed.{Follows, step-Follows}
use election_go.Sim.Stuck.{IsStuck, run_for-stuck}
use election_go.Sim.Faults.{mem, IsLost, IsQueued, partition-pairs, queue_rpc-outcome}

abbrev ping : RpcRequest
ping = record { rpc = "vote"; request = unexpected }

abbrev pong : RpcResponse
pong = record { rpc = "vote"; response = absent; error = "" }

-- A node that answers every RPC that its inbox holds, and asks for a timer.
abbrev serve : List Event → Turn (List Event)
serve [] = dispatches (after 10) 0 (λ _. dispatches recv 1 (λ _. blocked []))
serve (e ∷ es) = elim e.respond [ some call ↦ responds call pong (serve es) | none ↦ serve es ]

abbrev inbox : ℕ → Resp → List Event → List Event
inbox cb (received e) es = es ++ e ∷ []
inbox cb _ es = es

-- Rates count draws out of 100.
abbrev servers : Runtime
servers = record {
  Sched = List Event;
  start = λ _ _. some [];
  run_until_blocked = λ _. serve;
  resolve = inbox;
  is_leader = λ _. false;
  Rate = ℕ;
  is_positive = ltb 0;
  below = ltb;
}

abbrev node : String → SimNode servers
node id = record {
  sched = [];
  io = record { node_id = id; events = []; pending_recv = none; next_timer_id = 0 };
}

abbrev rpc_at : Option ℕ → PendingRpc
rpc_at t = record { from = "n0"; to = "n1"; req = ping; callback = 5; deliver_at = t }

abbrev sample : List PendingRpc → Simulation servers
sample queue = record {
  nodes = node "n0" ∷ node "n1" ∷ [];
  clock = 100;
  timer_heap = new_timer_heap;
  next_object = 0;
  rpc_queue = queue;
  partitions = λ _ _. false;
  drop_rate = 30;
  node_drops = λ _. none;
  delays = λ _ _. none;
  random = λ _. 50;
  drawn = 0;
  next_call = 0;
  responses = [];
  results = [];
}

-- An RPC without a delay is delivered past one that was to come earlier.
abbrev two_rpcs : Simulation servers
two_rpcs = sample (rpc_at (some 90) ∷ rpc_at none ∷ [])

step-Follows_example : StepLeads (Follows servers) two_rpcs (step servers 3 two_rpcs)
step-Follows_example = step-Follows servers 3 two_rpcs

abbrev one_delayed : Simulation servers
one_delayed = sample (rpc_at (some 120) ∷ [])

one_delayed-IsStuck : IsStuck servers 120 one_delayed
unfolding next_delayed_rpc first_delayed peek
one_delayed-IsStuck = record {
  no_timer = refl;
  waiting = (refl, tt);
  first = rpc_at (some 120);
  next = refl;
  due = refl;
}

run_for-stuck_example : run_for servers 50 30 one_delayed ≡ none
run_for-stuck_example =
    run_for-stuck servers 50 30 120 one_delayed one_delayed-IsStuck (omega arith)

partition-pairs_example :
    is_partitioned servers "n1" "n0" (partition servers ("n0" ∷ []) ("n1" ∷ []) two_rpcs) ≡ (
      (mem "n1" ("n0" ∷ []) && mem "n0" ("n1" ∷ []))
      || ((mem "n1" ("n1" ∷ []) && mem "n0" ("n0" ∷ []))
          || is_partitioned servers "n1" "n0" two_rpcs))
partition-pairs_example = partition-pairs servers "n1" "n0" ("n0" ∷ []) ("n1" ∷ []) two_rpcs

-- RPCs from `n0` to `n1` are delayed, those back are not.
abbrev slow : Simulation servers
slow = record two_rpcs { delays = λ x y. if str_eq x "n0" && str_eq y "n1" then some 30 else none }

queue_rpc-outcome_example :
    let (answer, s') = queue_rpc servers "n0" "n1" ping 6 slow in
    (IsLost servers "n0" "n1" slow
      × (answer ≡ some (sent failed))
      × (s'.rpc_queue ≡ slow.rpc_queue))
    ⊎ ((¬ IsLost servers "n0" "n1" slow)
        × (answer ≡ none)
        × ((r : PendingRpc) × IsQueued servers "n0" "n1" ping 6 slow r
            × (s'.rpc_queue ≡ slow.rpc_queue ++ r ∷ [])))
queue_rpc-outcome_example = queue_rpc-outcome servers "n0" "n1" ping 6 slow

abbrev conf : SimConfig servers
conf = record { seed = 7; drop_rate = 0; minimum_quorum = 0; node_config = λ _. none }

abbrev names : List String
names = "n0" ∷ "n1" ∷ []

-- Both nodes ask for a timer when they start.
abbrev started : Simulation servers
started =
    run_all servers names (initial_state servers (node "n0" ∷ node "n1" ∷ []) 100 (λ _. 50) conf)

started-Reached : Reached servers started
unfolding new make_nodes
started-Reached = created names 100 (λ _. 50) conf started refl

Reached-IsIndexed_example :
    IsIndexed started.timer_heap
    × (earlier (started.timer_heap.objects 1) (started.timer_heap.objects 0) ≡ false)
unfolding peek run_all run_node run_turn dispatch dispatch_after find_node update_node str_dec add
    push push_last up swap less dispatch_recv
Reached-IsIndexed_example = Reached-IsIndexed servers started 0 1 started-Reached refl (1, refl)
