-- ===== src/Sim/Network.antt =====
-- internal/sim/sim.go: the faults of the network, and the queue of RPCs under way.
use election_go.Base.{
  ℕ, ◌+◌, ltb, leb, String, str_eq, Bool, true, false, ◌||◌, ◌&&◌, List, [], ◌∷◌, ◌++◌, Option,
  none, some, if◌then◌else◌,
}
use election_go.Engine.{RpcRequest, Resp, sent, failed}
use election_go.Sim.Cluster.{Runtime, PendingRpc, Simulation}

abbrev pub is_zero : Option ℕ → Bool
is_zero none = true
is_zero (some _) = false

-- `!deliverAt.After(now)`, of a time that may be zero.
abbrev pub is_due : ℕ → Option ℕ → Bool
is_due now none = true
is_due now (some at) = leb at now

unfoldable pub any_due : ℕ → List PendingRpc → Bool
any_due now [] = false
any_due now (r ∷ rs) = is_due now r.deliver_at || any_due now rs

unfoldable pub first_delayed : List PendingRpc → Option PendingRpc
first_delayed [] = none
first_delayed (r ∷ rs) =
    let rest = first_delayed rs in if is_zero r.deliver_at then rest else some r

-- The first RPC without a delay, and the others.
unfoldable pub take_ready : List PendingRpc → Option (PendingRpc × List PendingRpc)
take_ready [] = none
take_ready (r ∷ rs) = elim (is_zero r.deliver_at) [
  | true ↦ some (r, rs)
  | false ↦ elim (take_ready rs) [ none ↦ none | some (x, rest) ↦ some (x, r ∷ rest) ]
]

abbrev pub put_flag : String → String → Bool → (String → String → Bool) → String → String → Bool
put_flag from to b f x y = if str_eq from x && str_eq to y then b else f x y

module _ (rt : Runtime) where
  unfoldable pub set_partition : String → String → Bool → Simulation rt → Simulation rt
  set_partition from to b s = record s { partitions = put_flag from to b s.partitions }

  unfoldable pub is_partitioned : String → String → Simulation rt → Bool
  is_partitioned from to s = s.partitions from to

  -- The inner loop of `Partition`.
  unfoldable pub partition_one : String → List String → Simulation rt → Simulation rt
  partition_one a [] s = s
  partition_one a (b ∷ bs) s =
      partition_one a bs (set_partition b a true (set_partition a b true s))

  unfoldable pub partition : List String → List String → Simulation rt → Simulation rt
  partition [] bs s = s
  partition (a ∷ as') bs s = partition as' bs (partition_one a bs s)

  unfoldable pub heal_all : Simulation rt → Simulation rt
  heal_all s = record s { partitions = λ _ _. false }

  unfoldable pub set_drop_rate : rt.Rate → Simulation rt → Simulation rt
  set_drop_rate rate s = record s { drop_rate = rate }

  unfoldable pub set_node_drop_rate : String → rt.Rate → Simulation rt → Simulation rt
  set_node_drop_rate id rate s = record s {
    node_drops = λ x. if str_eq id x then some rate else s.node_drops x;
  }

  unfoldable pub set_delay : String → String → ℕ → Simulation rt → Simulation rt
  set_delay from to d s = record s {
    delays = λ x y. if str_eq from x && str_eq to y then some d else s.delays x y;
  }

  -- The checks of the drop rates: whether the RPC is dropped, and the generator after them.
  abbrev pub roll : rt.Rate → Simulation rt → Bool × Simulation rt
  roll rate s = (rt.below (s.random s.drawn) rate, record s { drawn = s.drawn + 1 })

  unfoldable pub check_drops : String → Simulation rt → Bool × Simulation rt
  check_drops from s = elim (s.node_drops from) [
    | some rate ↦ roll rate s
    | none ↦ if rt.is_positive s.drop_rate then roll s.drop_rate s else (false, s)
  ]

  unfoldable pub delivery_time : String → String → Simulation rt → Option ℕ
  delivery_time from to s = elim (s.delays from to) [
    | none ↦ none
    | some d ↦ if ltb 0 d then some (s.clock + d) else none
  ]

  abbrev pub enqueue : String → String → RpcRequest → ℕ → Simulation rt → Simulation rt
  enqueue from to req cb s = record s {
    rpc_queue =
        s.rpc_queue
        ++ (record {
          from = from;
          to = to;
          req = req;
          callback = cb;
          deliver_at = delivery_time from to s;
        }
            ∷ []);
  }

  -- The response that the callback gets at once, if it does.
  unfoldable pub queue_rpc :
      String → String → RpcRequest → ℕ → Simulation rt → Option Resp × Simulation rt
  queue_rpc from to req cb s =
      let (dropped, s') = check_drops from s in
      if is_partitioned from to s
      then (some (sent failed), s)
      else if dropped
      then (some (sent failed), s')
      else (none, enqueue from to req cb s')

  unfoldable pub has_ready_rpc : Simulation rt → Bool
  has_ready_rpc s = any_due s.clock s.rpc_queue

  unfoldable pub next_delayed_rpc : Simulation rt → Option PendingRpc
  next_delayed_rpc s = first_delayed s.rpc_queue

  unfoldable pub dequeue_ready_rpc : Simulation rt → Option (PendingRpc × Simulation rt)
  dequeue_ready_rpc s = elim (take_ready s.rpc_queue) [
    | none ↦ none
    | some (r, rest) ↦ some (r, record s { rpc_queue = rest })
  ]
