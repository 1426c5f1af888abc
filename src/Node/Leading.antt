-- ===== src/Node/Leading.antt =====
-- When a leader gives up: the quorum check of `runLeader`, `stepDownFromLeader`, and the loop's ends.
use election_go.Base.{
  ℕ, ◌+◌, ◌<◌, String, ◌≡◌, ◌≢◌, ◌↔◌, ◌⊎◌, refl, ap, ◌∙◌, Bool, false, not, ◌&&◌, List, [], ◌∷◌,
  none, some, arith, ltb, str_eq, length,
}
use election_go.Engine.{
  Bytes, Peer, Event, EventKind, event_rpc, event_timer, event_set_peers, event_resign,
  event_shutdown, event_set_metadata,
}
use election_go.Node.State.{follower, leader, Node}
use election_go.Node.Peers.{quorum_size}
use election_go.Node.World.{World, set_leader, fire_on_change, yield, now}
use election_go.Node.Handlers.{
  with_role, process_rpc, handle_set_peers, handle_set_metadata, handle_resign, send_heart_beats,
  step_down_from_leader,
}
use election_go.Node.Follower.{again, leave}
use election_go.Node.Leader.{
  LeaderVars, count_contacted, demote, rearm_quorum, on_quorum_timer, on_heartbeat_ticker,
  leader_timer, unless_leader, beat_if_leader, leader_event,
}
use election_go.Node.Elections.{tally}
use election_go.Node.Steady.{yield-Steady}
use election_go.Node.Phases.{after-Steady, cancel-Steady}
use election_go.Node.Rule.Handlers.{
  send_heart_beats-Same, send_election_resets-Same, finish_with-Same,
}

-- The peers other than the node itself that answered a heartbeat within the timeout.
abbrev pub has_answered : ℕ → Node → String → Bool
has_answered t n a = not (str_eq a n.self) && (elim (n.peers_last_contact a) [
  | none ↦ false
  | some lc ↦ ltb t (lc + n.conf.heart_beat_timeout)
])

pub count_contacted-tally :
    (t : ℕ) (n : Node) (peers : List Peer)
    → count_contacted t n peers ≡ tally (has_answered t n) peers
unfolding count_contacted
count_contacted-tally t n [] = refl
count_contacted-tally t n (p ∷ peers) = ground (arith, count_contacted-tally t n peers)

-- Too few peers at first, or too few of them heard from once the clock is read.
abbrev pub LacksQuorum : World → Type 0
LacksQuorum w =
    let u = yield w in
    (length w.node.current_peers < w.node.conf.minimum_quorum)
    ⊎ (tally (has_answered u.clock u.node) u.node.current_peers + 1
        < quorum_size u.node.current_peers)

set_leader-role :
    (l : String) (w : World) → (set_leader l w).node.current_role ≡ w.node.current_role
unfolding set_leader fire_on_change
set_leader-role l w = ground arith

set_leader-named : (l : String) (w : World) → (set_leader l w).node.current_leader ≡ l
unfolding set_leader fire_on_change
set_leader-named l w = ground arith

step_down-node :
    (w : World)
    → let n = (step_down_from_leader w).node in
      (n.current_role ≡ follower) × (n.current_leader ≡ "")
unfolding step_down_from_leader
step_down-node w =
    let set : World = set_leader "" (record w { node = with_role follower w.node }) in
    let same = (send_election_resets-Same set).node in
    (
      ap (λ (n : Node). n.current_role) same ∙ role,
      ap (λ (n : Node). n.current_leader) same ∙ named,
    )
  where
    role :
        (set_leader "" (record w { node = with_role follower w.node })).node.current_role ≡ follower
    role = set_leader-role "" _

    named : (set_leader "" (record w { node = with_role follower w.node })).node.current_leader ≡ ""
    named = set_leader-named "" _

demote-node :
    (v : LeaderVars) (w : World)
    → ((demote v w).1.node.current_role ≡ follower) × ((demote v w).1.node.current_leader ≡ "")
unfolding demote
demote-node v w =
    let s = cancel-Steady v.heartbeat_timer (step_down_from_leader w) in
    let d = step_down-node w in (s.current_role ∙ d.0, s.current_leader ∙ d.1)

demote-leaves : (v : LeaderVars) (w : World) → (demote v w).0 ≡ leave
unfolding demote
demote-leaves v w = refl

rearm_quorum-stays :
    (v : LeaderVars) (w : World)
    → ((rearm_quorum v w).0 ≢ leave)
      × ((rearm_quorum v w).1.node.current_role ≡ w.node.current_role)
unfolding rearm_quorum
rearm_quorum-stays v w = (λ e. cc, (after-Steady _ w).current_role)

-- When the quorum timer fires, the leader gives up exactly if the peer list is below the configured
-- minimum, or if the peers that answered lately are, with the node itself, fewer than a quorum; it
-- is then a follower that knows no leader. Otherwise it stays in the loop and in its role.
pub on_quorum_timer-outcome :
    (v : LeaderVars) (w : World)
    → let x = on_quorum_timer v w in
      ((x.0 ≡ leave) ↔ LacksQuorum w)
      × ((x.0 ≢ leave) ⊎ ((x.1.node.current_role ≡ follower) × (x.1.node.current_leader ≡ "")))
      × ((x.0 ≡ leave) ⊎ (x.1.node.current_role ≡ w.node.current_role))
unfolding on_quorum_timer now
on_quorum_timer-outcome v w =
    let u = yield w in
    ground (
      arith,
      count_contacted-tally u.clock u.node u.node.current_peers,
      demote-leaves v w,
      demote-leaves v u,
      demote-node v w,
      demote-node v u,
      rearm_quorum-stays v u,
      (yield-Steady w).current_role,
    )

unless_leader-stays :
    (v v' : LeaderVars) (w : World)
    → (unless_leader v w).0 ≡ again v'
    → (unless_leader v w).1.node.current_role ≡ leader
unfolding unless_leader
unless_leader-stays v v' w a = ground arith

beat_if_leader-role : (w : World) → (beat_if_leader w).node.current_role ≡ w.node.current_role
unfolding beat_if_leader
beat_if_leader-role w = ground (arith, (send_heart_beats-Same w).node)

handle_set_peers-role :
    (e : Event) (addrs : List String) (w : World)
    → (handle_set_peers e addrs w).node.current_role ≡ w.node.current_role
unfolding handle_set_peers
handle_set_peers-role e addrs w =
    ap (λ (n : Node). n.current_role) (finish_with-Same e.done none _).node

handle_set_metadata-role :
    (e : Event) (m : Bytes) (w : World)
    → (handle_set_metadata e m w).node.current_role ≡ w.node.current_role
unfolding handle_set_metadata
handle_set_metadata-role e m w =
    ap (λ (n : Node). n.current_role) (finish_with-Same e.done none _).node

leader_timer-stays :
    (id : ℕ) (v v' : LeaderVars) (w : World)
    → (leader_timer id v w).0 ≡ again v'
    → (leader_timer id v w).1.node.current_role ≡ w.node.current_role
unfolding leader_timer on_heartbeat_ticker
leader_timer-stays id v v' w a = ground (
  arith,
  (after-Steady v.heartbeat_delay (send_heart_beats w)).current_role,
  (send_heart_beats-Same w).node,
  (on_quorum_timer-outcome v w).2,
)

-- The condition of the leader's loop never ends it: whenever the body of the loop runs to its end
-- for a leader, the node is still leader, so what follows the loop in `runLeader`, with its reset of
-- the last contact, is never reached.
pub leader_event-stays :
    (k : EventKind) (e : Event) (v v' : LeaderVars) (w : World)
    → w.node.current_role ≡ leader
    → (leader_event k e v w).0 ≡ again v'
    → (leader_event k e v w).1.node.current_role ≡ leader
unfolding leader_event
leader_event-stays event_timer e v v' w r a = leader_timer-stays e.timer_id v v' w a ∙ r
leader_event-stays event_rpc e v v' w r a = unless_leader-stays v v' (process_rpc e w) a
leader_event-stays event_set_peers e v v' w r a =
    beat_if_leader-role _ ∙ (handle_set_peers-role e e.peers w ∙ r)
leader_event-stays event_set_metadata e v v' w r a =
    beat_if_leader-role _ ∙ (handle_set_metadata-role e e.metadata w ∙ r)
leader_event-stays event_resign e v v' w r a = unless_leader-stays v v' (handle_resign e w) a
leader_event-stays event_shutdown e v v' w r a = cc
