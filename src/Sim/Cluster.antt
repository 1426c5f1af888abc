-- ===== src/Sim/Cluster.antt =====
-- internal/sim/sim.go, simio.go, clock.go: the state of a simulation. The scheduler of a node's
-- coroutines is not part of the repository and stands in the parameter `Runtime` with the node that
-- it runs, and so do the floating point numbers of the drop rates.
use election_go.Base.{
  ◌==◌, ℕ, ◌+◌, String, str_eq, Bool, List, [], ◌∷◌, Option, none, some, if◌then◌else◌,
}
use election_go.Engine.{RpcRequest, RpcResponse, Event, Req, Resp}
use election_go.Node.State.{Config, NodeError}
use election_go.Sim.Heap.{TimerHeap}

-- What `RunUntilBlocked` does with a scheduler, in order: a coroutine dispatches a request with a
-- callback and goes on with the response if it comes at once, it calls the `Respond` or the `Done`
-- of an event, and in the end all coroutines are blocked.
pub data Turn (S : Type 0) : Type 0 where
  blocked : S → Turn S
  dispatches : Req → ℕ → (Option Resp → Turn S) → Turn S
  responds : ℕ → RpcResponse → Turn S → Turn S
  finishes : ℕ → Option NodeError → Turn S → Turn S

-- `start` makes a node by `NewNodeForSim` with a seed, a scheduler, and starts it on it; `none` is an
-- error. `resolve` is the call of a callback between two runs, `is_leader` is `Node.IsLeader`, and `below`
-- compares a draw of the random generator with a rate.
pub record Runtime : Type 1 where
  pub Sched : Type 0
  pub start : Config → ℕ → Option Sched
  pub run_until_blocked : ℕ → Sched → Turn Sched
  pub resolve : ℕ → Resp → Sched → Sched
  pub is_leader : Sched → Bool
  pub Rate : Type 0
  pub is_positive : Rate → Bool
  pub below : ℕ → Rate → Bool

-- `pending_recv` is the callback of a `Recv` that waits.
pub record SimIo : Type 0 where
  pub node_id : String
  pub events : List Event
  pub pending_recv : Option ℕ
  pub next_timer_id : ℕ

-- `deliver_at` is `none` for the zero time.
pub record PendingRpc : Type 0 where
  pub from : String
  pub to : String
  pub req : RpcRequest
  pub callback : ℕ
  pub deliver_at : Option ℕ

pub record SimNode (rt : Runtime) : Type 0 where
  pub sched : rt.Sched
  pub io : SimIo

-- `nodes` stand in the order of `nodeOrder`. `next_object` is a pointer that no timer has yet,
-- `random` the draws of the generator and `drawn` their count, `next_call` a name that no `Respond`
-- or `Done` has yet, and `responses` and `results` what those were called with.
pub record Simulation (rt : Runtime) : Type 0 where
  pub nodes : List (SimNode rt)
  pub clock : ℕ
  pub timer_heap : TimerHeap
  pub next_object : ℕ
  pub rpc_queue : List PendingRpc
  pub partitions : String → String → Bool
  pub drop_rate : rt.Rate
  pub node_drops : String → Option rt.Rate
  pub delays : String → String → Option ℕ
  pub random : ℕ → ℕ
  pub drawn : ℕ
  pub next_call : ℕ
  pub responses : List (ℕ × RpcResponse)
  pub results : List (ℕ × Option NodeError)

-- What the `Respond` or `Done` of that name was called with.
unfoldable pub lookup_call {ℓ} : {A : Type ℓ} → ℕ → List (ℕ × A) → Option A
lookup_call k [] = none
lookup_call k ((j, a) ∷ rest) = let r = lookup_call k rest in if k == j then some a else r

module _ (rt : Runtime) where
  unfoldable pub find_node : String → List (SimNode rt) → Option (SimNode rt)
  find_node id [] = none
  find_node id (n ∷ ns) =
      let rest = find_node id ns in if str_eq id n.io.node_id then some n else rest

  unfoldable pub update_node :
      String → (SimNode rt → SimNode rt) → List (SimNode rt) → List (SimNode rt)
  update_node id f [] = []
  update_node id f (n ∷ ns) = (if str_eq id n.io.node_id then f n else n) ∷ update_node id f ns

  abbrev pub with_node : String → (SimNode rt → SimNode rt) → Simulation rt → Simulation rt
  with_node id f s = record s { nodes = update_node id f s.nodes }

  unfoldable pub count_leaders : List (SimNode rt) → ℕ
  count_leaders [] = 0
  count_leaders (n ∷ ns) = (if rt.is_leader n.sched then 1 else 0) + count_leaders ns

  unfoldable pub leader_count : Simulation rt → ℕ
  leader_count s = count_leaders s.nodes

  unfoldable pub first_leader : List (SimNode rt) → String
  first_leader [] = ""
  first_leader (n ∷ ns) =
      let rest = first_leader ns in if rt.is_leader n.sched then n.io.node_id else rest

  unfoldable pub leader : Simulation rt → String
  leader s = first_leader s.nodes
