-- ===== src/Cluster/Stand.antt =====
-- election.go: the first turns of nodes that have just started: the heartbeat timeout of one, and what
-- the others do with its vote request.
use election_go.Base.{
  ℕ, ◌+◌, ◌≡◌, refl, ◌∙◌, String, false, str_dec, List, [], ◌∷◌, some, arith, ltb,
}
use election_go.Engine.{event_rpc, event_timer, vote_req, SendResult}
use election_go.Node.Addresses.{
  addresses, peers_from_strings-addresses, apply_self_metadata-addresses,
}
use election_go.Node.State.{Config, candidate}
use election_go.Node.World.{
  World, emit, fire_on_change, set_leader, interleave, advance, yield, now, after, cancel, int63,
}
use election_go.Node.Peers.{peers_from_strings, quorum_size}
use election_go.Node.Handlers.{decide_vote, cast_vote}
use election_go.Node.Follower.{
  enter_follower, follower_event, follower_timer, on_heartbeat_timer, contact_is_recent,
}
use election_go.Node.Candidate.{CandidateVars, enter_candidate}
use election_go.Node.Lifecycle.{plain, with_defaults, initial_node}
use election_go.Node.Run.{Phase, in_candidate, start, enter, enter_role, receive, end_follower}
use election_go.Cluster.{Turn, facing, take_turn, boot_world, granted_request}

abbrev pub fires_at : ℕ → ℕ → List SendResult → Turn
fires_at id time answers = record {
  event = record (plain event_timer) { timer_id = id };
  ticks = record { others = []; time = time } ∷ [];
  draws = [];
  answers = answers;
}

abbrev pub asked_by : String → Turn
asked_by a = record {
  event = record (plain event_rpc) {
    rpc_req = record { rpc = "vote"; request = vote_req (record { term = 1; candidate = a }) };
  };
  ticks = [];
  draws = [];
  answers = [];
}

-- The node is a candidate that has not voted, with its vote timer 3.
pub record IsStanding (conf : Config) (v : CandidateVars) (w : World) : Type 0 where
  pub timer : v.vote_timer ≡ 3
  pub none_counted : v.granted_votes ≡ 0
  pub needs : v.votes_needed ≡ quorum_size w.node.current_peers
  pub role : w.node.current_role ≡ candidate
  pub term : w.node.current_term ≡ 0
  pub named : w.node.self ≡ conf.unique_id
  pub peers : addresses w.node.current_peers ≡ conf.peers
  pub minimum : w.node.conf.minimum_quorum ≡ conf.minimum_quorum

abbrev pub Stands : Config → Phase × World → Type 0
Stands conf (in_candidate v, w) = IsStanding conf v w
Stands conf _ = ⊥

ltb_self : (n : ℕ) → ltb n (0 + n) ≡ false
ltb_self n = ground arith

-- The node's clock when its heartbeat timer finds no contact.
abbrev pub timeout : Config → ℕ
timeout conf = (with_defaults conf).heart_beat_timeout

pub first_timeout-Stands :
    (conf : Config)
    → Stands conf (take_turn (fires_at 1 (timeout conf) []) (start (boot_world conf)))
unfolding receive start initial_node with_defaults enter enter_role end_follower follower_event
    follower_timer on_heartbeat_timer contact_is_recent enter_follower enter_candidate int63 after
    now cancel yield advance interleave emit set_leader fire_on_change str_dec
first_timeout-Stands conf = rw (ltb_self (timeout conf)) (record {
  timer = refl;
  none_counted = refl;
  needs = refl;
  role = refl;
  term = refl;
  named = refl;
  peers =
      apply_self_metadata-addresses _ _ (peers_from_strings conf.peers)
      ∙ peers_from_strings-addresses conf.peers;
  minimum = refl;
})

pub asked_by-granted :
    (a : String) (conf : Config)
    → let x = start (boot_world conf) in
      let t = asked_by a in
      granted_request t.event.kind t.event.rpc_req.request x.0 (facing t x.1).node
      ≡ some (record { term = 1; candidate = a })
unfolding start initial_node with_defaults enter enter_role enter_follower int63 after yield advance
    interleave emit str_dec decide_vote cast_vote
asked_by-granted a conf = refl
