-- ===== src/Cluster/Tests.antt =====
-- A run of a cluster of three nodes in which one of them is elected.
use election_go.Base.{ℕ, ◌≡◌, ◌≢◌, refl, String, true, str_dec, List, [], ◌∷◌, arith}
use text.Mathlib.TextEquality.{eq_iff}
use election_go.Engine.{event_rpc, event_timer, vote_req, vote_resp, SendResult, replied, failed}
use election_go.Node.State.{Config, leader}
use election_go.Engine.{heart_beat_resp}
use election_go.Node.Handlers.{process_request, record_contact, send_heart_beats, spawn_heart_beats}
use election_go.Node.Leader.{on_heartbeat_ticker, leader_event, leader_timer}
use election_go.Node.Run.{end_leader}
use election_go.Node.World.{
  sent, resume, heartbeat_sent, hear_reply, emit, fire_on_change, set_leader, interleave, advance,
  yield, now, after, cancel, int63, respond_with,
}
use election_go.Node.Peers.{peers_from_strings, apply_self_metadata, quorum_size, random_duration}
use election_go.Node.Handlers.{decide_vote, handle_vote, process_rpc}
use election_go.Node.Follower.{
  enter_follower, follower_event, follower_timer, on_heartbeat_timer, on_no_peers_timer,
  rearm_heartbeat, rearm_no_peers, contact_is_recent,
}
use election_go.Node.Candidate.{
  enter_candidate, candidate_event, candidate_timer, on_vote_timer, elect_self, nominate,
  take_ballot, vote_targets, spawn_votes, vote_answer, await_votes, count_votes, win, fall_back,
}
use election_go.Node.Leader.{enter_leader}
use election_go.Node.Lifecycle.{plain, with_defaults, initial_node}
use election_go.Node.Run.{start, enter, enter_role, receive, end_follower, end_candidate}
use election_go.Cluster.{Cluster, Turn, boot, after_turn, IsTurn, Reached, booted, turned}
use election_go.Cluster.Safety.{election_safety}

abbrev members : List String
members = "n0" ∷ "n1" ∷ "n2" ∷ []

abbrev conf : String → Config
conf id = record {
  unique_id = id;
  peers = members;
  metadata = [];
  has_send_rpc = true;
  has_on_change = true;
  heart_beat_timeout = 6000;
  election_timeout = 6000;
  network_timeout = 3000;
  leader_quorum_timeout = 12000;
  minimum_quorum = 2;
}

abbrev fires : ℕ → List SendResult → Turn
fires i answers = record {
  event = record (plain event_timer) { timer_id = i };
  ticks = record { others = []; time = 9000 } ∷ [];
  draws = [];
  answers = answers;
}

abbrev asks : Turn
asks = record {
  event = record (plain event_rpc) {
    rpc_req = record { rpc = "vote"; request = vote_req (record { term = 1; candidate = "n0" }) };
  };
  ticks = [];
  draws = [];
  answers = [];
}

abbrev granted : SendResult
granted = replied (record {
  rpc = "vote";
  response = vote_resp (record { term = 1; granted = true });
  error = "";
})

-- `n0` becomes a candidate, `n1` votes for it, and with this vote `n0` wins.
abbrev campaigning : Cluster
campaigning = after_turn "n0" (fires 1 []) (boot members conf)

abbrev voted : Cluster
voted = after_turn "n1" asks campaigning

abbrev elected : Cluster
elected = after_turn "n0" (fires 3 (granted ∷ failed ∷ [])) voted

-- Opens all that the run calls.
unfoldable machine : ℕ
unfolding receive start initial_node with_defaults peers_from_strings apply_self_metadata enter
    enter_role end_follower end_candidate follower_event follower_timer on_heartbeat_timer
    on_no_peers_timer rearm_heartbeat rearm_no_peers contact_is_recent enter_follower
    enter_candidate enter_leader candidate_event candidate_timer on_vote_timer elect_self nominate
    take_ballot vote_targets spawn_votes vote_answer await_votes count_votes win fall_back int63
    after now cancel yield advance interleave emit set_leader fire_on_change str_dec quorum_size
    random_duration decide_vote handle_vote process_rpc respond_with after_turn
machine = 0

n0_leads : (elected.nodes "n0").1.node.current_role ≡ leader
unfolding machine
n0_leads = refl

n0_ne_empty : ◌≢◌ {A = String} "n0" ""
n0_ne_empty = ground (arith, eq_iff "n0" "")

n1_ne_empty : ◌≢◌ {A = String} "n1" ""
n1_ne_empty = ground (arith, eq_iff "n1" "")

n2_ne_empty : ◌≢◌ {A = String} "n2" ""
n2_ne_empty = ground (arith, eq_iff "n2" "")

campaigning-IsTurn : IsTurn members "n0" (fires 1 []) (boot members conf)
unfolding machine
campaigning-IsTurn = record {
  member = refl;
  calm = (tt, tt);
  admitted = (tt, λ k. ground (arith, k));
  room = omega arith;
  once = λ _. refl;
  honest = tt;
}

voted-IsTurn : IsTurn members "n1" asks campaigning
unfolding machine
voted-IsTurn = record {
  member = refl;
  calm = tt;
  admitted = (tt, λ k. ground (arith, k));
  room = omega arith;
  once = λ k. ground (arith, k);
  honest = tt;
}

elected-IsTurn : IsTurn members "n0" (fires 3 (granted ∷ failed ∷ [])) voted
unfolding machine
elected-IsTurn = record {
  member = refl;
  calm = (tt, tt);
  admitted = (tt, λ k. ground (arith, k));
  room = omega arith;
  once = λ _. refl;
  honest = (λ _. refl, (λ g. ground (arith, g), tt));
}

elected-Reached : Reached members conf elected
elected-Reached =
    turned "n0" (fires 3 (granted ∷ failed ∷ [])) voted
      (turned "n1" asks campaigning
        (turned "n0" (fires 1 []) (boot members conf) booted campaigning-IsTurn) voted-IsTurn)
      elected-IsTurn

election_safety_example : ◌≡◌ {A = String} "n0" "n0"
unfolding machine
election_safety_example =
    election_safety members conf elected "n0" "n0" (n0_ne_empty, (n1_ne_empty, (n2_ne_empty, tt)))
      elected-Reached refl refl refl refl refl

abbrev granted_later : SendResult
granted_later = replied (record {
  rpc = "vote";
  response = vote_resp (record { term = 2; granted = true });
  error = "";
})

-- `n0` sends heartbeats, of which `n1` hears none, and `n1` is elected in term 2.
abbrev reelected : Cluster
reelected = after_turn "n1" (fires 3 (granted_later ∷ failed ∷ [])) (
    after_turn "n1" (record (fires 1 []) { ticks = record { others = []; time = 99000 } ∷ [] })
      (after_turn "n0" (fires 5 []) elected))

-- A peer of term 2 answers the heartbeat that `n0` sent in term 1.
abbrev answered_later : Turn
answered_later = record (fires 0 []) {
  ticks =
      record {
        others =
            sent "n2" 1 (
              replied (record {
                rpc = "heartbeat";
                response = heart_beat_resp (record { term = 2; metadata = [] });
                error = "";
              }))
            ∷ [];
        time = 99000;
      }
      ∷ [];
}

abbrev divided : Cluster
divided = after_turn "n0" answered_later reelected

-- With such an answer, term 2 has two leaders.
divided_leads :
    ((divided.nodes "n0").1.node.current_role ≡ leader)
    × ((divided.nodes "n0").1.node.current_term ≡ 2)
    × ((divided.nodes "n1").1.node.current_role ≡ leader)
    × ((divided.nodes "n1").1.node.current_term ≡ 2)
unfolding machine end_leader leader_event leader_timer on_heartbeat_ticker send_heart_beats
    spawn_heart_beats resume heartbeat_sent hear_reply process_request record_contact
divided_leads = (refl, refl, refl, refl)
