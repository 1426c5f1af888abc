-- ===== src/Node/Tests/Ballots.antt =====
-- The theorems on the count of votes, the quorum and the leader's loop at concrete inputs.
use election_go.Base.{◌⊎◌, length, ◌≡◌, ◌≢◌, ◌↔◌, refl, [], ◌∷◌, arith}
use election_go.Node.World.{World}
use election_go.Engine.{failed, event_timer, event_set_peers}
use election_go.Node.State.{follower, leader}
use election_go.Node.Follower.{leave, again}
use election_go.Node.Candidate.{candidate_event, on_vote_timer}
use election_go.Node.Leader.{on_quorum_timer, leader_event, leader_timer}
use election_go.Node.Elections.{set_peers-stale_quorum}
use election_go.Node.Leading.{LacksQuorum, on_quorum_timer-outcome, leader_event-stays}
use election_go.Node.Tests.Samples.{
  timer, running, lone_vars, granted_by, five_peers, leader_vars, leading,
}

-- A candidate of term 1, of which one peer grants the vote of term 2 and the other does not answer.
abbrev polled : World
polled = record running { ballots = (granted_by 2 ∷ failed ∷ []) ∷ [] }

set_peers-stale_quorum_example :
    let x = candidate_event event_set_peers five_peers lone_vars running in
    (x.0 ≡ again lone_vars)
    × (length x.1.node.current_peers ≡ 5)
    × ((on_vote_timer lone_vars x.1).1.node.current_role ≡ leader)
set_peers-stale_quorum_example =
    set_peers-stale_quorum five_peers lone_vars running refl (omega arith) (omega arith)

on_quorum_timer-outcome_example :
    let x = on_quorum_timer leader_vars leading in
    ((x.0 ≡ leave) ↔ LacksQuorum leading)
    × ((x.0 ≢ leave) ⊎ ((x.1.node.current_role ≡ follower) × (x.1.node.current_leader ≡ "")))
    × ((x.0 ≡ leave) ⊎ (x.1.node.current_role ≡ leader))
on_quorum_timer-outcome_example = on_quorum_timer-outcome leader_vars leading

leader_event-stays_example :
    (leader_event event_timer (timer 9) leader_vars leading).1.node.current_role ≡ leader
unfolding leader_event leader_timer
leader_event-stays_example =
    leader_event-stays event_timer (timer 9) leader_vars leader_vars leading refl refl
