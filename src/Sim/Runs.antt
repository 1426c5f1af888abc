-- ===== src/Sim/Runs.antt =====
-- internal/sim/sim.go: New, the loops RunFor and RunUntilLeader, and the events that tests send.
use election_go.Base.{
  ℕ, zero, suc, ◌+◌, ◌==◌, ltb, String, Bool, true, false, List, [], ◌∷◌, Option, none, some,
  if◌then◌else◌, ◌||◌,
}
use election_go.Engine.{Bytes, Event, event_set_peers, event_resign, event_set_metadata}
use election_go.Node.State.{Config, NodeError}
use election_go.Node.Lifecycle.{plain}
use election_go.Sim.Heap.{new_timer_heap, peek}
use election_go.Sim.Cluster.{
  Runtime, SimIo, SimNode, PendingRpc, Simulation, find_node, lookup_call, leader_count,
}
use election_go.Sim.Network.{is_zero, next_delayed_rpc}
use election_go.Sim.Steps.{run_node, deliver_event, step}

pub record NodeSimConfig : Type 0 where
  pub election_timeout : ℕ
  pub heart_beat_timeout : ℕ
  pub leader_quorum_timeout : ℕ
  pub minimum_quorum : ℕ
  pub metadata : Bytes
  pub has_on_change : Bool

-- `node_config` holds the overrides of a node, and `seed` the seed of the generators.
pub record SimConfig (rt : Runtime) : Type 0 where
  pub seed : ℕ
  pub drop_rate : rt.Rate
  pub minimum_quorum : ℕ
  pub node_config : String → Option NodeSimConfig

-- A value that is not zero replaces the other.
abbrev override : ℕ → ℕ → ℕ
override new old = if new == 0 then old else new

-- The empty slice stands for nil.
abbrev override_bytes : Bytes → Bytes → Bytes
override_bytes [] old = old
override_bytes (b ∷ bs) old = b ∷ bs

unfoldable pub apply_overrides : Option NodeSimConfig → Config → Config
apply_overrides none c = c
apply_overrides (some o) c = record c {
  election_timeout = override o.election_timeout c.election_timeout;
  heart_beat_timeout = override o.heart_beat_timeout c.heart_beat_timeout;
  leader_quorum_timeout = override o.leader_quorum_timeout c.leader_quorum_timeout;
  minimum_quorum = override o.minimum_quorum c.minimum_quorum;
  metadata = override_bytes o.metadata c.metadata;
  has_on_change = if o.has_on_change then true else c.has_on_change;
}

unfoldable pub any_zero : List PendingRpc → Bool
any_zero [] = false
any_zero (r ∷ rs) = is_zero r.deliver_at || any_zero rs

-- The time of a timer, and the earlier of two times that may be missing, the second of two that are
-- the same.
abbrev pub sooner : Option ℕ → Option ℕ → Option ℕ
sooner none t = t
sooner (some d) none = some d
sooner (some d) (some t) = if ltb d t then some d else some t

pub data Election : Type 0 where
  elected no_events step_limit : Election

abbrev pub max_steps : ℕ
max_steps = 1_000_000

-- What `Simulation.Resign` returns.
pub data Resigned : Type 0 where
  resigned : Option NodeError → Resigned
  unknown_node not_processed : Resigned

module _ (rt : Runtime) where
  unfoldable pub node_conf : List String → SimConfig rt → String → Config
  node_conf peers conf id = apply_overrides (conf.node_config id) (record {
    unique_id = id;
    peers = peers;
    metadata = [];
    has_send_rpc = true;
    has_on_change = false;
    heart_beat_timeout = 0;
    election_timeout = 0;
    network_timeout = 0;
    leader_quorum_timeout = 0;
    minimum_quorum = conf.minimum_quorum;
  })

  abbrev new_io : String → SimIo
  new_io id = record { node_id = id; events = []; pending_recv = none; next_timer_id = 0 }

  -- The loop that makes the nodes, from the number `i` on.
  unfoldable pub make_nodes :
      List String → SimConfig rt → ℕ → List String → Option (List (SimNode rt))
  make_nodes peers conf i [] = some []
  make_nodes peers conf i (id ∷ ids) = elim (rt.start (node_conf peers conf id) (conf.seed + i)) [
    | none ↦ none
    | some x ↦ elim (make_nodes peers conf (i + 1) ids) [
      | none ↦ none
      | some ns ↦ some (record { sched = x; io = new_io id } ∷ ns)
    ]
  ]

  -- The loop that steps all nodes once.
  unfoldable pub run_all : List String → Simulation rt → Simulation rt
  run_all [] s = s
  run_all (id ∷ ids) s = run_all ids (run_node rt id s)

  abbrev pub initial_state : List (SimNode rt) → ℕ → (ℕ → ℕ) → SimConfig rt → Simulation rt
  initial_state ns start random conf = record {
    nodes = ns;
    clock = start;
    timer_heap = new_timer_heap;
    next_object = 0;
    rpc_queue = [];
    partitions = λ _ _. false;
    drop_rate = conf.drop_rate;
    node_drops = λ _. none;
    delays = λ _ _. none;
    random = random;
    drawn = 0;
    next_call = 0;
    responses = [];
    results = [];
  }

  -- `New` for the names "n0", "n1" and so on; `none` where it panics.
  unfoldable pub new : List String → ℕ → (ℕ → ℕ) → SimConfig rt → Option (Simulation rt)
  new ids start random conf = elim (make_nodes ids conf 0 ids) [
    | none ↦ none
    | some ns ↦ some (run_all ids (initial_state ns start random conf))
  ]

  abbrev pub next_timer : Simulation rt → Option ℕ
  next_timer s = elim (peek s.timer_heap) [
    | none ↦ none
    | some t ↦ some (s.timer_heap.objects t).fire_at
  ]

  abbrev pub next_delivery : Simulation rt → Option ℕ
  next_delivery s = elim (next_delayed_rpc rt s) [ none ↦ none | some r ↦ r.deliver_at ]

  -- `none` for the zero time.
  unfoldable pub next_event_time : Simulation rt → Option ℕ
  next_event_time s =
      if any_zero s.rpc_queue then some s.clock else sooner (next_delivery s) (next_timer s)

  abbrev pub is_over : ℕ → Option ℕ → Bool
  is_over deadline none = true
  is_over deadline (some t) = ltb deadline t

  -- The loop of `RunFor`; `none` means that the fuel ran out.
  unfoldable pub run_to : ℕ → ℕ → Simulation rt → Option (Simulation rt)
  run_to zero deadline s = none
  run_to (suc k) deadline s = elim (is_over deadline (next_event_time s)) [
    | true ↦ some (record s { clock = deadline })
    | false ↦ elim (step rt k s) [ none ↦ none | some (_, s') ↦ run_to k deadline s' ]
  ]

  unfoldable pub run_for : ℕ → ℕ → Simulation rt → Option (Simulation rt)
  run_for fuel d s = run_to fuel (s.clock + d) s

  -- The loop of `RunUntilLeader` for the rounds left.
  unfoldable pub elect : ℕ → ℕ → Simulation rt → Option (Election × Simulation rt)
  elect zero fuel s = some (step_limit, s)
  elect (suc n) fuel s = elim (leader_count rt s == 1) [
    | true ↦ some (elected, s)
    | false ↦ elim (step rt fuel s) [
      | none ↦ none
      | some (true, s') ↦ elect n fuel s'
      | some (false, s') ↦ some (no_events, s')
    ]
  ]

  unfoldable pub run_until_leader : ℕ → Simulation rt → Option (Election × Simulation rt)
  run_until_leader fuel s = elect max_steps fuel s

  -- An event of the tests, with the name of its `Done`.
  unfoldable pub send_event : String → Event → Simulation rt → Simulation rt
  send_event id e s = run_node rt id (
      deliver_event rt id (record e { done = some s.next_call })
        (record s { next_call = s.next_call + 1 }))

  abbrev pub unless_unknown : {A : Type 0} → String → A → A → Simulation rt → A
  unless_unknown id missing there s = elim (find_node rt id s.nodes) [
    | none ↦ missing
    | some _ ↦ there
  ]

  unfoldable pub set_peers : String → List String → Simulation rt → Simulation rt
  set_peers id peers s =
      unless_unknown id s (send_event id (record (plain event_set_peers) { peers = peers }) s) s

  unfoldable pub set_metadata : String → Bytes → Simulation rt → Simulation rt
  set_metadata id metadata s =
      unless_unknown id s
        (send_event id (record (plain event_set_metadata) { metadata = metadata }) s) s

  abbrev resign_result : Option (Option NodeError) → Resigned
  resign_result none = not_processed
  resign_result (some r) = resigned r

  unfoldable pub resign : String → Simulation rt → Resigned × Simulation rt
  resign id s =
      let s' = send_event id (plain event_resign) s in
      unless_unknown id (unknown_node, s) (resign_result (lookup_call s.next_call s'.results), s') s
