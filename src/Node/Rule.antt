-- ===== src/Node/Rule.antt =====
-- How an invariant of the node is proved. Between two requests the coroutine changes the node in
-- one of the ways listed in `Closed`; a predicate that survives each of them, and the heartbeat
-- coroutines that run during a request, holds after every handler, round and event.
pub mod Handlers
pub mod Rounds
pub mod Leading
pub mod Steps
use election_go.Base.{ℕ, String, ◌≡◌, ◌≢◌, ◌<◌, ◌⊎◌, none, List}
use election_go.Engine.{
  Bytes, Peer, VoteReq, HeartBeatReq, Request, Event, EventKind, event_set_peers, vote_req,
  heart_beat_req, set_peers_req,
}
use election_go.Node.Addresses.{addresses}
use election_go.Node.State.{Role, follower, candidate, leader, shutdown}
use election_go.Node.World.{World, set_leader, yield}
use election_go.Node.Handlers.{with_role, with_current_term, decide_vote, follow_leader}
use election_go.Node.Follower.{become}
use election_go.Node.Candidate.{count_started, count_won, nominate}
use election_go.Node.Leader.{forget_contacts}

-- `v` differs from `w` at most in what the node's invariants do not speak of.
pub record Same (w v : World) : Type 0 where
  pub node : v.node ≡ w.node
  pub ticks : v.ticks ≡ w.ticks

-- The new peers have the addresses of the old ones, or a call of `SetPeers` may set them.
abbrev pub Regroups : (Request → Type 0) → List Peer → List Peer → Type 0
Regroups ok old new = (addresses new ≡ addresses old) ⊎ ok (set_peers_req (addresses new))

-- `ok` restricts the requests that peers send, and the peer lists that `SetPeers` sets. That a
-- candidate wins is not on the list.
pub record Closed (ok : Request → Type 0) (P : World → Type 0) : Type 0 where
  pub yielded : (w : World) → P w → P (yield w)
  pub quiet : (w v : World) → Same w v → P w → P v
  pub voted :
      (req : VoteReq) (w : World)
      → ok (vote_req req)
      → P w
      → P (record w { node = (decide_vote req w.node).node })
  pub contacted :
      (t : ℕ) (w : World) → P w → P (record w { node = record w.node { last_contact = t } })
  pub followed :
      (req : HeartBeatReq) (w : World) → ok (heart_beat_req req) → P w → P (follow_leader req w)
  pub reset :
      (w : World)
      → P w
      → P (record (set_leader "" w) { node = with_role candidate (set_leader "" w).node })
  pub stepped_down :
      (w : World) → P w → P (set_leader "" (record w { node = with_role follower w.node }))
  pub regrouped :
      (metadata : Bytes) (peers : List Peer) (w : World)
      → Regroups ok w.node.current_peers peers
      → P w
      → P (record w {
        node = record w.node { current_metadata = metadata; current_peers = peers; peers = peers };
      })
  pub timed_out : (w : World) → P w → P (become candidate (set_leader "" w))
  pub alone : (w : World) → w.node.current_leader ≡ "" → P w → P (become candidate w)
  pub counted : (w : World) → P w → P (count_started w)
  pub fell_back :
      (term : ℕ) (w : World)
      → w.node.current_role ≡ candidate
      → w.node.current_term < term
      → P w
      → P (record w { node = with_current_term term (with_role follower w.node) })
  pub forgot : (w : World) → P w → P (forget_contacts w)
  pub left :
      (w : World)
      → w.node.current_role ≢ leader
      → w.node.current_leader ≡ w.node.self
      → P w
      → P (set_leader "" w)
  pub shut_follower : (w : World) → P w → P (become shutdown w)
  pub shut : (w : World) → P w → P (record w { node = with_role shutdown w.node })

-- What an event of this kind may bring: a request of a peer, or the peers of a call of `SetPeers`.
abbrev pub Admits : (Request → Type 0) → EventKind → Event → Type 0
Admits ok k e = ok e.rpc_req.request × (k ≡ event_set_peers → ok (set_peers_req e.peers))
