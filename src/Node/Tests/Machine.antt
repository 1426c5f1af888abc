-- ===== src/Node/Tests/Machine.antt =====
-- What a sample run of the coroutine opens.
use election_go.Base.{Bool, true, str_dec}
use election_go.Node.World.{
  emit, fire_on_change, set_leader, interleave, advance, yield, now, after, cancel, int63,
}
use election_go.Node.Peers.{peers_from_strings, apply_self_metadata, quorum_size, random_duration}
use election_go.Node.Run.{
  start, enter, enter_role, receive, run_events, end_follower, end_candidate,
}
use election_go.Node.Follower.{
  enter_follower, follower_event, follower_timer, on_heartbeat_timer, on_no_peers_timer,
  rearm_heartbeat, rearm_no_peers,
}
use election_go.Node.Candidate.{
  enter_candidate, candidate_event, candidate_timer, on_vote_timer, elect_self, nominate,
  take_ballot, vote_targets, spawn_votes, vote_answer, await_votes, count_votes, win, fall_back,
}
use election_go.Node.Leader.{enter_leader}
use election_go.Node.Lifecycle.{with_defaults, initial_node}

-- Opens all that a run calls.
unfoldable pub machine : Bool
unfolding run_events receive start initial_node with_defaults peers_from_strings apply_self_metadata
    enter enter_role end_follower end_candidate follower_event follower_timer on_heartbeat_timer
    on_no_peers_timer rearm_heartbeat rearm_no_peers enter_follower enter_candidate enter_leader
    candidate_event candidate_timer on_vote_timer elect_self nominate take_ballot vote_targets
    spawn_votes vote_answer await_votes count_votes win fall_back int63 after now cancel yield
    advance interleave emit set_leader fire_on_change str_dec quorum_size random_duration
machine = true
