-- ===== src/Node/Lifecycle.antt =====
-- `NewNode`, `Start`, `Stop` and the methods of election.go that other goroutines call. A `select`
-- is given the branch that it takes; what the coroutine does with an event is `Run.receive`.
use election_go.Base.{
  ℕ, ◌*◌, String, Bool, true, false, ◌||◌, not, List, [], ◌∷◌, ◌++◌, Option, none, some, ltb, ◌==◌,
  str_eq, length, if◌then◌else◌,
}
use election_go.Engine.{
  heart_beat_rpc, vote_rpc, reset_election_rpc, Bytes, unexpected, absent, RpcRequest, RpcResponse,
  Event, EventKind, event_rpc, event_set_peers, event_resign, event_shutdown, event_set_metadata,
}
use election_go.Node.State.{
  Config, Node, follower, NodeError, err_not_leader, err_metadata_too_large, max_metadata_size,
}
use election_go.Node.Peers.{peers_from_strings, apply_self_metadata}

pub data Created : Type 0 where
  no_unique_id no_send_rpc : Created
  created : Node → Created

abbrev or_default : ℕ → ℕ → ℕ
or_default d v = if v == 0 then d else v

abbrev pub second : ℕ
second = 1000000000

unfoldable pub with_defaults : Config → Config
with_defaults conf = record conf {
  leader_quorum_timeout = or_default (12 * second) conf.leader_quorum_timeout;
  heart_beat_timeout = or_default (6 * second) conf.heart_beat_timeout;
  election_timeout = or_default (6 * second) conf.election_timeout;
  network_timeout = or_default (3 * second) conf.network_timeout;
}

-- The zero value of a `node`, but for its configuration, peers and metadata.
unfoldable pub initial_node : Config → Node
initial_node conf =
    let ps = apply_self_metadata conf.unique_id conf.metadata (peers_from_strings conf.peers) in
    record {
      conf = conf;
      self = conf.unique_id;
      leader = "";
      is_leader = false;
      term = 0;
      role = follower;
      peers = ps;
      heartbeats_sent = 0;
      heartbeats_recv = 0;
      elections_started = 0;
      elections_won = 0;
      current_term = 0;
      current_role = follower;
      current_metadata = conf.metadata;
      vote = record { last_candidate = ""; last_term = 0 };
      peers_last_contact = λ _. none;
      last_contact = 0;
      current_peers = ps;
      current_leader = "";
    }

unfoldable pub new_node : Config → Created
new_node conf =
    if str_eq conf.unique_id ""
    then no_unique_id
    else if not conf.has_send_rpc
    then no_send_rpc
    else created (initial_node (with_defaults conf))

-- The same text again, with the generator of the caller.
unfoldable pub new_node_for_sim : Config → Created
new_node_for_sim conf =
    if str_eq conf.unique_id ""
    then no_unique_id
    else if not conf.has_send_rpc
    then no_send_rpc
    else created (initial_node (with_defaults conf))

-- A node with its lifecycle: `has_io` if `n.io` is set, `running` if the coroutine was added and
-- `prod.Run` launched, `closed` if `eventCh` is closed; `queue` is what `eventCh` holds.
pub record Handle : Type 0 where
  pub node : Node
  pub started : Bool
  pub has_io : Bool
  pub running : Bool
  pub stopped : Bool
  pub closed : Bool
  pub queue : List Event

-- How a call ends: an error or none, a response, cancelled by its context, waiting for the coroutine
-- with its event in the channel, or a panic.
pub data Outcome : Type 0 where
  returned : Option NodeError → Outcome
  already_started not_added : Outcome
  answered : RpcResponse → Outcome
  cancelled waiting panics : Outcome

-- Which branch a `select` between an operation and the end of the context takes.
pub data Pick : Type 0 where
  proceed expire : Pick

-- `added` is what `gocoro.Add` reports.
unfoldable pub start : Bool → Handle → Outcome × Handle
start added h =
    if h.started
    then (already_started, h)
    else if ltb max_metadata_size (length h.node.conf.metadata)
    then (returned (some err_metadata_too_large), record h { started = true })
    else if not added
    then (not_added, record h { started = true; has_io = true })
    else (returned none, record h { started = true; has_io = true; running = true })

-- `StartNodeForSim`, of a `*node`: the adapter is not stored on the node.
unfoldable pub start_node_for_sim : Bool → Handle → Outcome × Handle
start_node_for_sim added h =
    if h.started
    then (already_started, h)
    else if ltb max_metadata_size (length h.node.conf.metadata)
    then (returned (some err_metadata_too_large), record h { started = true })
    else if not added
    then (not_added, record h { started = true })
    else (returned none, record h { started = true; running = true })

abbrev force_shutdown : Handle → Handle
force_shutdown h = record h { stopped = true; closed = true }

-- A send on `eventCh`, where the `select` takes that branch.
abbrev send : Event → Handle → Outcome × Handle
send e h = if h.closed then (panics, h) else (waiting, record h { queue = h.queue ++ e ∷ [] })

abbrev select_send : Pick → Event → Handle → Outcome × Handle
select_send proceed e h = send e h
select_send expire e h = (cancelled, h)

abbrev pub plain : EventKind → Event
plain k = record {
  kind = k;
  rpc_req = record { rpc = ""; request = unexpected };
  timer_id = 0;
  peers = [];
  metadata = [];
  respond = none;
  done = none;
}

-- `pushed` says how the sends of the shutdown event end, `clean` how the wait for `doneCh` does.
-- `SetStopped` on a nil adapter is a nil dereference.
unfoldable pub stop : Pick → Pick → Handle → Outcome × Handle
stop pushed clean h =
    if not h.started
    then (returned none, h)
    else if h.stopped
    then (elim clean [ proceed ↦ (returned none, h) | expire ↦ (cancelled, h) ])
    else if not h.has_io
    then (panics, h)
    else elim pushed [
      | expire ↦ (cancelled, force_shutdown h)
      | proceed ↦
          if h.closed
          then (panics, h)
          else (let h' = record h { queue = h.queue ++ plain event_shutdown ∷ [] } in
              elim clean [
                | proceed ↦ (returned none, h')
                | expire ↦ (cancelled, force_shutdown h')
              ])
    ]

abbrev pub is_peer_rpc : String → Bool
is_peer_rpc r = str_eq r heart_beat_rpc || (str_eq r vote_rpc || str_eq r reset_election_rpc)

abbrev pub failure : String → RpcResponse
failure text = record { rpc = ""; response = absent; error = text }

-- `caller` names the call, for its `Respond` callback.
unfoldable pub receive_rpc : ℕ → Pick → RpcRequest → Handle → Outcome × Handle
receive_rpc caller pick req h =
    if not h.started
    then (answered (failure "node not started"), h)
    else if is_peer_rpc req.rpc
    then select_send pick (record (plain event_rpc) { rpc_req = req; respond = some caller }) h
    else (answered (failure "unknown RPC"), h)

unfoldable pub set_peers : ℕ → Pick → List String → Handle → Outcome × Handle
set_peers caller pick addrs h =
    let n = h.node in
    let ps = apply_self_metadata n.self n.current_metadata (peers_from_strings addrs) in
    if not h.started
    then (returned none, record h { node = record n { current_peers = ps; peers = ps } })
    else select_send pick (record (plain event_set_peers) { peers = addrs; done = some caller }) h

unfoldable pub set_metadata : ℕ → Pick → Bytes → Handle → Outcome × Handle
set_metadata caller pick metadata h =
    let n = record h.node { current_metadata = metadata } in
    let ps = apply_self_metadata n.self metadata n.current_peers in
    if ltb max_metadata_size (length metadata)
    then (returned (some err_metadata_too_large), h)
    else if not h.started
    then (returned none, record h { node = record n { current_peers = ps; peers = ps } })
    else select_send pick
        (record (plain event_set_metadata) { metadata = metadata; done = some caller }) h

unfoldable pub resign : ℕ → Pick → Handle → Outcome × Handle
resign caller pick h =
    if not h.started
    then (returned (some err_not_leader), h)
    else select_send pick (record (plain event_resign) { done = some caller }) h

-- The second `select` of these methods: what the callback delivers, or the end of the context.
unfoldable pub await_response : Option RpcResponse → Outcome
await_response none = cancelled
await_response (some r) = answered r

unfoldable pub await_done : Option (Option NodeError) → Outcome
await_done none = cancelled
await_done (some e) = returned e
