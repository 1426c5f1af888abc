-- ===== src/Node/Tests/Runs.antt =====
-- Sample runs of the coroutine, and the theorems on runs at concrete inputs.
use election_go.Node.Tests.Machine.{machine}
use election_go.Base.{◌≤◌, String, ◌≡◌, ◌↔◌, refl, true, [], ◌∷◌, arith}
use election_go.Engine.{replied}
use election_go.Node.State.{leader}
use election_go.Node.World.{World, heartbeat_sent}
use election_go.Node.Handlers.{decide_vote}
use election_go.Node.Run.{start, run_events}
use election_go.Node.Phases.{role_of, Matches, start-Matches, run_events-Matches}
use election_go.Node.Follower.{is_alone}
use election_go.Node.Alone.Start.{fires, start-leads}
use election_go.Node.Published.{IsPublished}
use election_go.Node.Roles.{IsConsistent}
use election_go.Node.Ballot.{MayVote, late_reply-votes_twice, decide_vote_iff}
use election_go.Node.Votes.{run_events-votes_once, run_events-term_grows}
use election_go.Node.Lifecycle.{with_defaults, initial_node, new_node}
use election_go.Node.Created.{new_node-run-IsPublished, new_node-run-IsConsistent}
use election_go.Node.Tests.Samples.{
  sample_conf, fresh_world, timer, campaign, after_campaign, n1_ne_empty, new_world, voter_node,
  voter, voter_phase, late_reply, late_response, old_leader,
}

campaign_wins :
    (after_campaign.1.node.current_role ≡ leader) × (after_campaign.1.node.is_leader ≡ true)
unfolding machine
campaign_wins = (refl, refl)

run_events-Matches_example : Matches after_campaign
run_events-Matches_example =
    run_events-Matches campaign (start fresh_world).0 (start fresh_world).1
      (start-Matches fresh_world)

new_node-run-IsPublished_example : IsPublished (run_events campaign (start new_world)).1.node
unfolding machine new_node
new_node-run-IsPublished_example =
    new_node-run-IsPublished sample_conf (initial_node (with_defaults sample_conf)) refl new_world
      refl campaign

new_node-run-IsConsistent_example : IsConsistent "n0" (run_events campaign (start new_world)).1.node
unfolding machine new_node
new_node-run-IsConsistent_example =
    new_node-run-IsConsistent sample_conf (initial_node (with_defaults sample_conf)) refl new_world
      refl campaign ((tt, λ _. tt), ((tt, λ _. tt), tt))

run_events-votes_once_example : ◌≡◌ {A = String} "n1" "n1"
unfolding machine decide_vote
run_events-votes_once_example =
    run_events-votes_once (timer 2 ∷ []) voter_phase voter 1 "n1" "n1" refl tt (omega arith, tt)
      (omega arith) refl n1_ne_empty refl

run_events-term_grows_example :
    let n = (run_events (timer 2 ∷ []) (voter_phase, voter)).1.node in
    (1 ≤ n.current_term) × (n.vote.last_term ≤ n.current_term)
unfolding machine
run_events-term_grows_example =
    run_events-term_grows (timer 2 ∷ []) voter_phase voter refl tt (omega arith, tt) (omega arith)

decide_vote_iff_example :
    ((decide_vote (record { term = 2; candidate = "n2" }) voter_node).resp.granted ≡ true)
    ↔ MayVote (record { term = 2; candidate = "n2" }) voter_node
decide_vote_iff_example = decide_vote_iff voter_node (record { term = 2; candidate = "n2" })

late_reply-votes_twice_example :
    let n = (heartbeat_sent 3 (replied late_response) old_leader).node in n.current_term ≡ 5
late_reply-votes_twice_example =
    (late_reply-votes_twice old_leader 3 late_response late_reply "n2" "n2" refl (omega arith)
      (omega arith) refl refl).0

-- A cluster of one node.
abbrev alone_world : World
alone_world = record fresh_world {
  node =
      initial_node (with_defaults (record sample_conf { peers = "n0" ∷ []; minimum_quorum = 1 }));
}

start-leads_example :
    let x = run_events (fires 2 ∷ fires 3 ∷ []) (start alone_world) in
    (role_of x.0 ≡ leader) × (x.1.node.current_role ≡ leader)
unfolding machine is_alone
start-leads_example = start-leads alone_world refl refl refl (omega arith)
