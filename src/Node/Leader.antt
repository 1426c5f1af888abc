-- ===== src/Node/Leader.antt =====
-- `runLeader` of election.go.
use election_go.Base.{
  ℕ, ◌+◌, ◌-◌, ◌/◌, ltb, ◌==◌, str_eq, List, [], ◌∷◌, Option, none, some, length, if◌then◌else◌,
}
use election_go.Engine.{
  Peer, Event, EventKind, event_rpc, event_timer, event_set_peers, event_resign, event_shutdown,
  event_set_metadata,
}
use election_go.Node.State.{leader, shutdown, Node}
use election_go.Node.Peers.{quorum_size, random_duration}
use election_go.Node.World.{World, set_leader, now, after, cancel, int63}
use election_go.Node.Handlers.{
  with_role, record_contact, process_rpc, handle_set_peers, handle_set_metadata, handle_resign,
  send_heart_beats, send_election_resets, step_down_from_leader,
}
use election_go.Node.Follower.{Flow, again, leave}

pub record LeaderVars : Type 0 where
  pub heartbeat_delay : ℕ
  pub heartbeat_timer : ℕ
  pub quorum_timer : ℕ

abbrev pub forget_contacts : World → World
forget_contacts w = record w { node = record w.node { peers_last_contact = λ _. none } }

unfoldable pub enter_leader : World → LeaderVars × World
enter_leader w =
    let (draw, w1) = int63 (forget_contacts w) in
    let delay = random_duration draw (w.node.conf.heart_beat_timeout / 3) in
    let (heartbeat, w2) = after delay w1 in
    let (quorum, w3) = after w.node.conf.leader_quorum_timeout w2 in
    (record { heartbeat_delay = delay; heartbeat_timer = heartbeat; quorum_timer = quorum }, w3)

-- 1 if `now.Sub(lc) < timeout` for a recorded contact, as in `Follower.contact_is_recent`.
unfoldable pub is_contacted : ℕ → ℕ → Option ℕ → ℕ
is_contacted t timeout none = 0
is_contacted t timeout (some lc) = if ltb t (lc + timeout) then 1 else 0

-- The loop of the quorum check.
unfoldable pub count_contacted : ℕ → Node → List Peer → ℕ
unfolding is_contacted
count_contacted t n [] = 0
count_contacted t n (p ∷ peers) =
    let one : ℕ = is_contacted t n.conf.heart_beat_timeout (n.peers_last_contact p.address) in
    (if str_eq p.address n.self then 0 else one) + count_contacted t n peers

unfoldable pub demote : LeaderVars → World → Flow LeaderVars × World
demote v w = (leave, cancel v.heartbeat_timer (step_down_from_leader w))

unfoldable pub rearm_quorum : LeaderVars → World → Flow LeaderVars × World
rearm_quorum v w =
    let (id, w') = after w.node.conf.leader_quorum_timeout w in
    (again (record v { quorum_timer = id }), w')

unfoldable pub on_quorum_timer : LeaderVars → World → Flow LeaderVars × World
on_quorum_timer v w =
    if ltb (length w.node.current_peers) w.node.conf.minimum_quorum
    then demote v w
    else (let (t, w') = now w in
        if ltb (count_contacted t w'.node w'.node.current_peers)
          (quorum_size w'.node.current_peers - 1)
        then demote v w'
        else rearm_quorum v w')

unfoldable pub on_heartbeat_ticker : LeaderVars → World → Flow LeaderVars × World
on_heartbeat_ticker v w =
    let (id, w') = after v.heartbeat_delay (send_heart_beats w) in
    (again (record v { heartbeat_timer = id }), w')

unfoldable pub leader_timer : ℕ → LeaderVars → World → Flow LeaderVars × World
leader_timer id v w =
    if id == v.heartbeat_timer
    then on_heartbeat_ticker v w
    else if id == v.quorum_timer
    then on_quorum_timer v w
    else (again v, w)

abbrev pub cancel_both : LeaderVars → World → World
cancel_both v w = cancel v.quorum_timer (cancel v.heartbeat_timer w)

-- What follows `processRPC` and `handleResign` in the loop.
unfoldable pub unless_leader : LeaderVars → World → Flow LeaderVars × World
unless_leader v w = elim w.node.current_role [
  | leader ↦ (again v, w)
  | _ ↦ (leave, cancel_both v w)
]

unfoldable pub beat_if_leader : World → World
beat_if_leader w = elim w.node.current_role [ leader ↦ send_heart_beats w | _ ↦ w ]

unfoldable pub leader_event : EventKind → Event → LeaderVars → World → Flow LeaderVars × World
leader_event event_timer e v w = leader_timer e.timer_id v w
leader_event event_rpc e v w = unless_leader v (process_rpc e w)
leader_event event_set_peers e v w = (again v, beat_if_leader (handle_set_peers e e.peers w))
leader_event event_set_metadata e v w =
    (again v, beat_if_leader (handle_set_metadata e e.metadata w))
leader_event event_resign e v w = unless_leader v (handle_resign e w)
leader_event event_shutdown e v w =
    (leave, cancel_both v (send_election_resets (record w { node = with_role shutdown w.node })))

-- What follows the loop, where it ends by its condition.
unfoldable pub leave_leader : World → World
leave_leader w =
    let w' = record_contact w in
    if str_eq w'.node.current_leader w'.node.self then set_leader "" w' else w'
