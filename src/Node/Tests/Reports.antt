-- ===== src/Node/Tests/Reports.antt =====
-- The theorems on what other goroutines see of a node, at concrete inputs.
use election_go.Node.Tests.Machine.{machine}
use election_go.Base.{[], ◌∷◌, ◌⊎◌, ◌≡◌, ◌≢◌, ◌↔◌, refl, true, false, some, arith}
use election_go.Engine.{event_shutdown, event_rpc}
use election_go.Node.State.{get_state, err_metadata_too_large, candidate}
use election_go.Node.Run.{ended, enter, end_leader}
use election_go.Node.Follower.{contact_is_recent, on_heartbeat_timer}
use election_go.Node.Leader.{leader_event}
use election_go.Node.Phases.{role_of}
use election_go.Node.Lifecycle.{
  returned, already_started, cancelled, waiting, panics, plain, proceed, expire,
  start as start_node, stop, receive_rpc,
}
use election_go.Node.Visible.{
  is_answered, IsPeerRpc, heartbeat_timeout-hidden, shutdown-still_leader, start-failed,
  receive_rpc-after_forced_stop, receive_rpc-filter,
}
use election_go.Node.Stale.{heartbeat_of, stale_heartbeat-second_leader}
use election_go.Node.Handlers.{follow_leader, heart_beat_answer}
use election_go.Node.World.{heartbeat_sent}
use election_go.Node.State.{leader}
use election_go.Engine.{RpcResponse, heart_beat_resp, replied}
use election_go.Node.Tests.Samples.{
  old_leader, timer, voter_node, voter, follower_vars, leader_vars, leading, heavy_handle,
  busy_handle, vote_request,
}

heartbeat_timeout-hidden_example :
    let x = enter (on_heartbeat_timer follower_vars voter).1 in
    (role_of x.0 ≡ candidate) × ((get_state x.1.node).role ≡ (get_state voter_node).role)
unfolding machine contact_is_recent
heartbeat_timeout-hidden_example = heartbeat_timeout-hidden follower_vars voter refl

shutdown-still_leader_example :
    let x = end_leader (leader_event event_shutdown (timer 0) leader_vars leading) in
    (x.0 ≡ ended) × (x.1.node.is_leader ≡ true) × (x.1.node.leader ≡ "n0")
shutdown-still_leader_example = shutdown-still_leader (timer 0) leader_vars leading

start-failed_example :
    let (o, h') = start_node true heavy_handle in
    (o ≡ returned (some err_metadata_too_large))
    × (h'.running ≡ false)
    × ((start_node true h').0 ≡ already_started)
    × ((stop proceed proceed h').0 ≡ panics)
start-failed_example = start-failed true proceed proceed heavy_handle refl refl refl (omega arith)

receive_rpc-after_forced_stop_example :
    let (o, h') = stop proceed expire busy_handle in
    (o ≡ cancelled) × ((receive_rpc 1 proceed vote_request h').0 ≡ panics)
unfolding machine
receive_rpc-after_forced_stop_example =
    receive_rpc-after_forced_stop 1 vote_request busy_handle refl refl refl refl refl

receive_rpc-filter_example :
    let (o, h') = receive_rpc 1 proceed vote_request busy_handle in
    ((is_answered o ≡ true) ↔ ((true ≡ false) ⊎ (¬ IsPeerRpc "vote")))
    × ((o ≡ waiting) ⊎ (h' ≡ busy_handle))
    × ((o ≢ waiting)
        ⊎ (h' ≡ record busy_handle {
          queue = record (plain event_rpc) { rpc_req = vote_request; respond = some 1 } ∷ [];
        }))
    × ((o ≢ cancelled) ⊎ (proceed ≡ expire))
    × ((o ≢ panics) ⊎ (false ≡ true))
    × ((is_answered o ≡ true) ⊎ ((o ≡ waiting) ⊎ ((o ≡ cancelled) ⊎ (o ≡ panics))))
receive_rpc-filter_example = receive_rpc-filter 1 proceed vote_request busy_handle

-- A follower in term 7, and its answer to a heartbeat of the leader in term 1.
abbrev newer_answer : RpcResponse
newer_answer = record {
  rpc = "heartbeat";
  response = heart_beat_resp (heart_beat_answer (heartbeat_of leading.node) old_leader.node);
  error = "";
}

stale_heartbeat-second_leader_example :
    let f' = follow_leader (heartbeat_of leading.node) old_leader in
    let a' = heartbeat_sent 1 (replied newer_answer) leading in
    (f'.node.current_leader ≡ "n0")
    × (f'.node.current_term ≡ 7)
    × (a'.node.current_role ≡ leader)
    × (a'.node.current_term ≡ 7)
    × (a'.node.vote ≡ voter_node.vote)
stale_heartbeat-second_leader_example =
    stale_heartbeat-second_leader leading old_leader newer_answer refl refl (omega arith) refl
