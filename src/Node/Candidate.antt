-- ===== src/Node/Candidate.antt =====
-- `runCandidate` and `electSelf` of election.go.
use election_go.Base.{
  ℕ, ◌+◌, ◌/◌, ltb, leb, ◌==◌, str_eq, String, Bool, true, false, List, [], ◌∷◌, some, length,
  if◌then◌else◌,
}
use election_go.Engine.{
  vote_rpc, Peer, VoteReq, VoteResp, vote_req, vote_resp, Event, EventKind, event_rpc, event_timer,
  event_set_peers, event_resign, event_shutdown, event_set_metadata, SendResult, failed, replied,
}
use election_go.Node.State.{follower, candidate, leader, shutdown, Node, err_not_leader, u64}
use election_go.Node.Peers.{quorum_size, random_duration}
use election_go.Node.World.{
  World, rpc_spawned, emit, finish_with, set_leader, yield, after, cancel, int63,
}
use election_go.Node.Handlers.{
  with_role, with_current_term, process_rpc, handle_set_peers, handle_set_metadata,
}
use election_go.Node.Follower.{Flow, again, leave}

-- `voteResult`.
pub record VoteResult : Type 0 where
  pub granted : Bool
  pub term : ℕ

-- The local variables of `runCandidate`.
pub record CandidateVars : Type 0 where
  pub vote_delay : ℕ
  pub vote_timer : ℕ
  pub election_timer : ℕ
  pub granted_votes : ℕ
  pub votes_needed : ℕ

abbrev pub count_started : World → World
count_started w = record w {
  node = record w.node { elections_started = u64 (w.node.elections_started + 1) };
}

unfoldable pub enter_candidate : World → CandidateVars × World
enter_candidate w =
    let (draw, w1) = int63 (count_started w) in
    let vote_delay = random_duration draw (w.node.conf.heart_beat_timeout / 10) in
    let (vote, w2) = after vote_delay w1 in
    let (draw', w3) = int63 w2 in
    let (election, w4) = after (random_duration draw' w.node.conf.election_timeout) w3 in
    (
      record {
        vote_delay = vote_delay;
        vote_timer = vote;
        election_timer = election;
        granted_votes = 0;
        votes_needed = quorum_size w4.node.current_peers;
      },
      w4,
    )

-- The peers that `electSelf` spawns a coroutine for.
unfoldable pub vote_targets : String → List Peer → List String
vote_targets self [] = []
vote_targets self (p ∷ peers) =
    let rest = vote_targets self peers in if str_eq p.address self then rest else p.address ∷ rest

unfoldable pub spawn_votes : VoteReq → List String → World → World
unfolding emit
spawn_votes req [] w = w
spawn_votes req (a ∷ as') w =
    spawn_votes req as' (emit (rpc_spawned a (record { rpc = vote_rpc; request = vote_req req })) w)

-- What the coroutine of a vote request returns.
unfoldable pub vote_answer : ℕ → SendResult → VoteResp
vote_answer term failed = record { term = term; granted = false }
vote_answer term (replied r) = elim r.response [
  | vote_resp v ↦ v
  | _ ↦ record { term = term; granted = false }
]

abbrev pub vote_result : VoteResp → VoteResult
vote_result v = record { granted = v.granted; term = v.term }

-- The `Await` of each promise, in turn; a request with no result here has failed.
unfoldable pub await_votes : ℕ → List String → List SendResult → World → List VoteResult × World
await_votes term [] results w = ([], w)
await_votes term (a ∷ as') [] w =
    let (vs, w') = await_votes term as' [] (yield w) in
    (vote_result (vote_answer term failed) ∷ vs, w')
await_votes term (a ∷ as') (r ∷ rs) w =
    let (vs, w') = await_votes term as' rs (yield w) in (vote_result (vote_answer term r) ∷ vs, w')

-- The segment of `electSelf` before the requests: the new term and the vote for itself.
unfoldable pub nominate : Node → Node
nominate n =
    let term = u64 (n.current_term + 1) in
    record n {
      current_term = term;
      term = term;
      vote = record { last_candidate = n.self; last_term = term };
    }

unfoldable pub take_ballot : World → List SendResult × World
take_ballot w = elim w.ballots [ [] ↦ ([], w) | b ∷ bs ↦ (b, record w { ballots = bs }) ]

unfoldable pub elect_self : World → List VoteResult × World
elect_self w =
    let n = nominate w.node in
    let term = n.current_term in
    let targets = vote_targets n.self n.current_peers in
    let (results, w1) = take_ballot (record w { node = n }) in
    let w2 = spawn_votes (record { term = term; candidate = n.self }) targets w1 in
    let (votes, w3) = await_votes term targets results w2 in
    (record { granted = true; term = term } ∷ votes, w3)

abbrev pub count_won : Node → Node
count_won n = record n { elections_won = u64 (n.elections_won + 1) }

unfoldable pub fall_back : ℕ → CandidateVars → World → Flow CandidateVars × World
fall_back term v w = (
  leave,
  cancel v.election_timer (record w {
    node = with_current_term term (record w.node { current_role = follower; role = follower });
  }),
)

unfoldable pub win : CandidateVars → World → Flow CandidateVars × World
win v w =
    let w1 = record w { node = count_won (with_role leader w.node) } in
    let w2 = set_leader w.node.self w1 in (leave, cancel v.election_timer (cancel v.vote_timer w2))

-- The loop over `pendingVotes`. The node changes only where the loop is left.
unfoldable pub count_votes : List VoteResult → CandidateVars → World → Flow CandidateVars × World
count_votes [] v w = (again v, w)
count_votes (r ∷ rs) v w =
    let granted = if r.granted then v.granted_votes + 1 else v.granted_votes in
    let v' = record v { granted_votes = granted } in
    let rest = count_votes rs v' w in
    if ltb w.node.current_term r.term
    then fall_back r.term v w
    else if leb v'.votes_needed granted
    then win v' w
    else rest

unfoldable pub on_vote_timer : CandidateVars → World → Flow CandidateVars × World
on_vote_timer v w =
    if ltb (length w.node.current_peers) w.node.conf.minimum_quorum
    then (let (id, w') = after v.vote_delay w in (again (record v { vote_timer = id }), w'))
    else (let (votes, w') = elect_self w in count_votes votes v w')

unfoldable pub candidate_timer : ℕ → CandidateVars → World → Flow CandidateVars × World
candidate_timer id v w =
    if id == v.vote_timer
    then on_vote_timer v w
    else if id == v.election_timer
    then (leave, cancel v.vote_timer w)
    else (again v, w)

abbrev pub cancel_both : CandidateVars → World → World
cancel_both v w = cancel v.election_timer (cancel v.vote_timer w)

unfoldable pub candidate_rpc : Event → CandidateVars → World → Flow CandidateVars × World
candidate_rpc e v w =
    let w' = process_rpc e w in
    elim w'.node.current_role [ candidate ↦ (again v, w') | _ ↦ (leave, cancel_both v w') ]

unfoldable pub candidate_event :
    EventKind → Event → CandidateVars → World → Flow CandidateVars × World
candidate_event event_timer e v w = candidate_timer e.timer_id v w
candidate_event event_rpc e v w = candidate_rpc e v w
candidate_event event_set_peers e v w = (again v, handle_set_peers e e.peers w)
candidate_event event_set_metadata e v w = (again v, handle_set_metadata e e.metadata w)
candidate_event event_resign e v w = (again v, finish_with e.done (some err_not_leader) w)
candidate_event event_shutdown e v w =
    (leave, cancel_both v (record w { node = with_role shutdown w.node }))
