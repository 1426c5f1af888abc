-- ===== src/Node/Handlers.antt =====
-- The RPC handlers of election.go. A handler's deferred `Respond` is its last step; what it does
-- before its `Now` is a function of its own, the handler's first segment.
use election_go.Base.{
  ℕ, ◌+◌, ltb, str_eq, String, Bool, true, false, not, ◌==◌, ◌&&◌, List, [], ◌∷◌, none, some,
  if◌then◌else◌,
}
use election_go.Engine.{
  vote_rpc, heart_beat_rpc, reset_election_rpc, Bytes, Peer, VoteReq, VoteResp, HeartBeatReq,
  HeartBeatResp, Request, vote_req, heart_beat_req, reset_election_req, resign_req, set_peers_req,
  set_metadata_req, unexpected, vote_resp, heart_beat_resp, reset_election_resp, absent, Event,
}
use election_go.Node.State.{Role, follower, candidate, leader, Node, err_not_leader, u64}
use election_go.Node.Peers.{peers_from_strings, apply_self_metadata}
use election_go.Node.World.{
  World, rpc_spawned, emit, respond_with, finish_with, set_leader, store_metadata, now,
}

-- `n.currentRole = r` with the store to the atomic `role`.
abbrev pub with_role : Role → Node → Node
with_role r n = record n { current_role = r; role = r }

-- `n.currentTerm = t` with the store to the atomic `term`.
abbrev pub with_current_term : ℕ → Node → Node
with_current_term t n = record n { current_term = t; term = t }

-- `n.lastContact = now`, with the time from a `Now` request.
unfoldable pub record_contact : World → World
record_contact w = let (t, w') = now w in record w' { node = record w'.node { last_contact = t } }

-- The ballot that `handleVote` decides on: the node after it, the response, and whether the vote is
-- a new one (the end of the function, with its `Now`, is reached).
pub record Ballot : Type 0 where
  pub node : Node
  pub resp : VoteResp
  pub fresh : Bool

abbrev pub refuse : Node → ℕ → Ballot
refuse n t = record { node = n; resp = record { term = t; granted = false }; fresh = false }

-- From `Check if we already voted in this term` on.
unfoldable pub cast_vote : VoteReq → ℕ → Node → Ballot
cast_vote req resp_term n =
    if n.vote.last_term == req.term && not (str_eq n.vote.last_candidate "")
    then record {
      node = n;
      resp = record { term = resp_term; granted = str_eq n.vote.last_candidate req.candidate };
      fresh = false;
    }
    else record {
      node = record n { vote = record { last_candidate = req.candidate; last_term = req.term } };
      resp = record { term = resp_term; granted = true };
      fresh = true;
    }

unfoldable pub decide_vote : VoteReq → Node → Ballot
unfolding cast_vote
decide_vote req n =
    if not (str_eq n.current_leader "") && not (str_eq n.current_leader req.candidate)
    then refuse n n.current_term
    else if ltb req.term n.current_term
    then refuse n n.current_term
    else if ltb n.current_term req.term
    then cast_vote req req.term (with_current_term req.term (with_role follower n))
    else cast_vote req n.current_term n

unfoldable pub handle_vote : Event → VoteReq → World → World
handle_vote event req w =
    let b = decide_vote req w.node in
    let voted = record w { node = b.node } in
    let w' = if b.fresh then record_contact voted else voted in
    respond_with event.respond (record { rpc = vote_rpc; response = vote_resp b.resp; error = "" })
      w'

-- The response of `handleHeartBeat`: its term is the request's if the node was no follower.
unfoldable pub heart_beat_answer : HeartBeatReq → Node → HeartBeatResp
heart_beat_answer req n = elim n.current_role [
  | follower ↦ record { term = n.current_term; metadata = n.current_metadata }
  | _ ↦ record { term = req.term; metadata = n.current_metadata }
]

abbrev pub count_recv : World → World
count_recv w = record w {
  node = record w.node { heartbeats_recv = u64 (w.node.heartbeats_recv + 1) };
}

-- The first two steps of `handleHeartBeat`: a node that is no follower becomes one, and the newest
-- term is taken.
unfoldable pub step_aside : HeartBeatReq → Node → Node
step_aside req n =
    let m : Node = elim n.current_role [ follower ↦ n | _ ↦ with_role follower n ] in
    if ltb m.current_term req.term then with_current_term req.term m else m

-- `handleHeartBeat` up to its `Now`: step aside, leader, counter, leader's metadata.
unfoldable pub follow_leader : HeartBeatReq → World → World
follow_leader req w =
    store_metadata req.leader req.metadata
      (count_recv (set_leader req.leader (record w { node = step_aside req w.node })))

unfoldable pub handle_heart_beat : Event → HeartBeatReq → World → World
handle_heart_beat event req w =
    let resp = heart_beat_answer req w.node in
    respond_with event.respond
      (record { rpc = heart_beat_rpc; response = heart_beat_resp resp; error = "" })
      (record_contact (follow_leader req w))

unfoldable pub handle_reset_election : Event → World → World
handle_reset_election event w =
    let w' = set_leader "" w in
    respond_with event.respond
      (record { rpc = reset_election_rpc; response = reset_election_resp; error = "" })
      (record w' { node = with_role candidate w'.node })

-- A coroutine for each peer but the node itself; spawning does not suspend the caller.
unfoldable pub spawn_resets : String → List Peer → World → World
unfolding emit
spawn_resets self [] w = w
spawn_resets self (p ∷ peers) w = spawn_resets self peers (
    if str_eq p.address self
    then w
    else emit
        (rpc_spawned p.address (record { rpc = reset_election_rpc; request = reset_election_req }))
        w)

unfoldable pub send_election_resets : World → World
send_election_resets w = spawn_resets w.node.self w.node.current_peers w

unfoldable pub spawn_heart_beats : HeartBeatReq → List Peer → World → World
unfolding emit
spawn_heart_beats req [] w = w
spawn_heart_beats req (p ∷ peers) w = spawn_heart_beats req peers (
    if str_eq p.address req.leader
    then w
    else emit
        (rpc_spawned p.address (record { rpc = heart_beat_rpc; request = heart_beat_req req })) w)

-- What the spawned coroutines do when they are resumed is `World.resume`.
unfoldable pub send_heart_beats : World → World
send_heart_beats w =
    let n = w.node in
    spawn_heart_beats
      (record { term = n.current_term; leader = n.self; metadata = n.current_metadata })
      n.current_peers w

unfoldable pub step_down_from_leader : World → World
step_down_from_leader w =
    send_election_resets (set_leader "" (record w { node = with_role follower w.node }))

abbrev pub resigned : Event → World → World
resigned event w = finish_with event.done none (step_down_from_leader w)

unfoldable pub handle_resign : Event → World → World
handle_resign event w = elim w.node.current_role [
  | leader ↦ resigned event w
  | _ ↦ finish_with event.done (some err_not_leader) w
]

abbrev pub with_peers : List Peer → Node → Node
with_peers ps n = record n { current_peers = ps; peers = ps }

unfoldable pub handle_set_peers : Event → List String → World → World
handle_set_peers event addrs w =
    let n = w.node in
    let ps = apply_self_metadata n.self n.current_metadata (peers_from_strings addrs) in
    finish_with event.done none (record w { node = with_peers ps n })

unfoldable pub handle_set_metadata : Event → Bytes → World → World
handle_set_metadata event metadata w =
    let n = record w.node { current_metadata = metadata } in
    let ps = apply_self_metadata n.self metadata n.current_peers in
    finish_with event.done none (record w { node = with_peers ps n })

unfoldable pub process_request : Request → Event → World → World
process_request (vote_req req) event w = handle_vote event req w
process_request reset_election_req event w = handle_reset_election event w
process_request (heart_beat_req req) event w = handle_heart_beat event req w
process_request resign_req event w = handle_resign event w
process_request (set_peers_req addrs) event w = handle_set_peers event addrs w
process_request (set_metadata_req metadata) event w = handle_set_metadata event metadata w
process_request unexpected event w =
    respond_with event.respond
      (record { rpc = event.rpc_req.rpc; response = absent; error = "unexpected command" }) w

unfoldable pub process_rpc : Event → World → World
process_rpc event w = process_request event.rpc_req.request event w
