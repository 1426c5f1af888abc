-- ===== src/Node/Ballot.antt =====
-- `handleVote`: when a vote is granted, what is then on record, and what a late heartbeat reply makes of
-- it.
use election_go.Base.{ℕ, ◌<◌, ◌≤◌, String, ◌≡◌, ◌≢◌, ◌↔◌, ◌⊎◌, true, arith}
use election_go.Engine.{VoteReq, HeartBeatResp, heart_beat_resp, RpcResponse, replied}
use election_go.Node.State.{Node}
use election_go.Node.World.{World, count_sent, hear_reply, heartbeat_sent}
use election_go.Node.Handlers.{decide_vote}

-- The node voted in no term beyond its own.
abbrev pub HasNoFutureVote : Node → Type 0
HasNoFutureVote n = n.vote.last_term ≤ n.current_term

abbrev pub ask : ℕ → String → VoteReq
ask term candidate = record { term = term; candidate = candidate }

-- A vote is granted exactly to the candidate on record afterwards, in the term of the request, which
-- the response carries.
pub decide_vote-granted :
    (n : Node) (req : VoteReq)
    → HasNoFutureVote n
    → let b = decide_vote req n in
      b.resp.granted ≡ true
      → (b.resp.term ≡ req.term)
        × (b.node.vote ≡ record { last_candidate = req.candidate; last_term = req.term })
        × (b.node.current_term ≡ req.term)
unfolding decide_vote
decide_vote-granted n req h g = ground arith

-- The leader check, the term check and the vote on record.
abbrev pub MayVote : VoteReq → Node → Type 0
MayVote req n =
    ((n.current_leader ≡ "") ⊎ (n.current_leader ≡ req.candidate))
    × (n.current_term ≤ req.term)
    × ((n.vote.last_term ≢ req.term)
        ⊎ ((n.vote.last_candidate ≡ "") ⊎ (n.vote.last_candidate ≡ req.candidate)))

-- A vote is granted exactly if the node knows no leader but the candidate, the request's term is no
-- older than its own, and it has not voted for somebody else in that term.
pub decide_vote_iff :
    (n : Node) (req : VoteReq) → ((decide_vote req n).resp.granted ≡ true) ↔ MayVote req n
unfolding decide_vote
decide_vote_iff n req = (λ g. ground arith, λ m. ground arith)

record Fresh (req : VoteReq) (n : Node) : Type 0 where
  granted : (decide_vote req n).resp.granted ≡ true
  term : (decide_vote req n).resp.term ≡ req.term
  recorded : (decide_vote req n).node.vote.last_term ≡ req.term
  current : (decide_vote req n).node.current_term ≡ req.term
  leaderless : (decide_vote req n).node.current_leader ≡ ""

decide_vote-Fresh :
    (n : Node) (req : VoteReq)
    → n.current_leader ≡ ""
    → n.current_term ≤ req.term
    → n.vote.last_term ≢ req.term
    → Fresh req n
unfolding decide_vote
decide_vote-Fresh n req l t v = ground arith

-- A heartbeat reply with a term between the one that the heartbeat carried and the node's own lowers
-- the node's term, and a node that knows no leader then votes for anybody in a term in which it has
-- voted before: it grants a request in the reply's term, and then one in the old term.
pub late_reply-votes_twice :
    (w : World) (captured : ℕ) (r : RpcResponse) (h : HeartBeatResp) (b c : String)
    → r.response ≡ heart_beat_resp h
    → captured < h.term
    → h.term < w.node.current_term
    → w.node.vote.last_term ≡ w.node.current_term
    → w.node.current_leader ≡ ""
    → let term = w.node.current_term in
      let n = (heartbeat_sent captured (replied r) w).node in
      let first = decide_vote (ask h.term b) n in
      let second = decide_vote (ask term c) first.node in
      (n.current_term ≡ h.term)
      × (first.resp.granted ≡ true)
      × (second.resp.granted ≡ true)
      × (second.resp.term ≡ term)
unfolding heartbeat_sent hear_reply
late_reply-votes_twice w captured r h b c e l1 l2 v k = rw e (
    let n = (hear_reply captured (heart_beat_resp h) (count_sent w)).node in
    let lowered : n.current_term ≡ h.term = ground arith in
    let one = decide_vote-Fresh n (ask h.term b) (ground arith) (ground arith) (ground arith) in
    let two =
      decide_vote-Fresh (decide_vote (ask h.term b) n).node (ask w.node.current_term c)
        one.leaderless (ground arith) (ground arith) in
    (lowered, one.granted, two.granted, two.term))
