-- ===== src/Node/Stale.antt =====
-- handleHeartBeat and the reply that sendHeartBeats hears, between a leader and a peer of a newer term.
use election_go.Base.{◌≡◌, ◌<◌, arith}
use election_go.Engine.{HeartBeatReq, RpcResponse, heart_beat_resp, replied}
use election_go.Node.State.{Node, follower, leader}
use election_go.Node.World.{
  World, fire_on_change, set_leader, store_metadata, heartbeat_sent, hear_reply, emit,
}
use election_go.Node.Handlers.{heart_beat_answer, step_aside, follow_leader}

-- What `sendHeartBeats` of the node sends.
abbrev pub heartbeat_of : Node → HeartBeatReq
heartbeat_of n = record { term = n.current_term; leader = n.self; metadata = n.current_metadata }

-- A follower that gets a heartbeat of a leader in an older term takes it as its leader and stays in its
-- own term, and the leader that hears the follower's answer is leader in that newer term, with the vote
-- that it had on record.
pub stale_heartbeat-second_leader :
    (a f : World) (r : RpcResponse)
    → a.node.current_role ≡ leader
    → f.node.current_role ≡ follower
    → a.node.current_term < f.node.current_term
    → r.response ≡ heart_beat_resp (heart_beat_answer (heartbeat_of a.node) f.node)
    → let f' = follow_leader (heartbeat_of a.node) f in
      let a' = heartbeat_sent a.node.current_term (replied r) a in
      (f'.node.current_leader ≡ a.node.self)
      × (f'.node.current_term ≡ f.node.current_term)
      × (a'.node.current_role ≡ leader)
      × (a'.node.current_term ≡ f.node.current_term)
      × (a'.node.vote ≡ a.node.vote)
unfolding heart_beat_answer step_aside follow_leader heartbeat_sent hear_reply set_leader
    store_metadata fire_on_change emit
stale_heartbeat-second_leader a f r la ff lt e = rw e (ground (arith, la, ff, lt))
