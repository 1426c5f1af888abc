-- ===== src/Node/Rule/Leading.antt =====
-- The body of the leader's loop keeps what is closed.
use election_go.Base.{refl, ◌-◌, ltb, ◌==◌, if_elim, length}
use election_go.Engine.{
  Request, Event, EventKind, event_rpc, event_timer, event_set_peers, event_resign, event_shutdown,
  event_set_metadata,
}
use election_go.Node.State.{Role, leader}
use election_go.Node.Peers.{quorum_size}
use election_go.Node.World.{World, now}
use election_go.Node.Handlers.{send_heart_beats}
use election_go.Node.Follower.{Flow, again, leave}
use election_go.Node.Leader.{
  LeaderVars, enter_leader, forget_contacts, count_contacted, demote, rearm_quorum, on_quorum_timer,
  on_heartbeat_ticker, leader_timer, unless_leader, beat_if_leader, leader_event,
}
use election_go.Node.Leader
use election_go.Node.Rule.{Closed, Admits}
use election_go.Node.Rule.Handlers.{
  send_election_resets-Same, send_heart_beats-Same, cancel-Closed, after-Closed, now-Closed,
  step_down_from_leader-Closed, handle_resign-Closed, handle_set_peers-Closed,
  handle_set_metadata-Closed, process_rpc-Closed,
}
use election_go.Node.Rule.Rounds.{AtEnd}

module _ {ok : Request → Type 0} {P : World → Type 0} (c : Closed ok P) where
  leader_cancel-Closed : (v : LeaderVars) (w : World) → P w → P (Leader.cancel_both v w)
  leader_cancel-Closed v w h = cancel-Closed c _ _ (cancel-Closed c _ _ h)

  demote-Closed : (v : LeaderVars) (w : World) → P w → P (demote v w).1
  unfolding demote
  demote-Closed v w h = cancel-Closed c _ _ (step_down_from_leader-Closed c w h)

  rearm_quorum-Closed : (v : LeaderVars) (w : World) → P w → P (rearm_quorum v w).1
  unfolding rearm_quorum
  rearm_quorum-Closed v w h = after-Closed c _ _ h

  send_heart_beats-Closed : (w : World) → P w → P (send_heart_beats w)
  send_heart_beats-Closed w h = c.quiet _ _ (send_heart_beats-Same w) h

  on_quorum_timer-Closed : (v : LeaderVars) (w : World) → P w → P (on_quorum_timer v w).1
  unfolding on_quorum_timer
  on_quorum_timer-Closed v w h =
      if_elim (AtEnd {S = LeaderVars} P)
        (ltb (length w.node.current_peers) w.node.conf.minimum_quorum) (λ _. demote-Closed v w h)
        λ _.
          if_elim (AtEnd {S = LeaderVars} P)
            (ltb (count_contacted (now w).0 (now w).1.node (now w).1.node.current_peers)
              (quorum_size (now w).1.node.current_peers - 1))
            (λ _. demote-Closed v _ (now-Closed c w h))
            (λ _. rearm_quorum-Closed v _ (now-Closed c w h))

  unless_leader-Closed : (v : LeaderVars) (w : World) → P w → P (unless_leader v w).1
  unfolding unless_leader
  unless_leader-Closed v w h = by_role w.node.current_role
    where
      by_role :
          (r : Role)
          → let x : Flow LeaderVars × World = elim r [
            | leader ↦ (again v, w)
            | _ ↦ (leave, Leader.cancel_both v w)
          ] in
            P x.1
      by_role leader = h
      by_role _ = leader_cancel-Closed v w h

  beat_if_leader-Closed : (w : World) → P w → P (beat_if_leader w)
  unfolding beat_if_leader
  beat_if_leader-Closed w h = by_role w.node.current_role
    where
      by_role : (r : Role) → let x : World = elim r [ leader ↦ send_heart_beats w | _ ↦ w ] in P x
      by_role leader = send_heart_beats-Closed w h
      by_role _ = h

  pub leader_event-Closed :
      (k : EventKind) (e : Event) (v : LeaderVars) (w : World)
      → Admits ok k e
      → P w
      → P (leader_event k e v w).1
  unfolding leader_event leader_timer on_heartbeat_ticker
  leader_event-Closed event_timer e v w o h =
      if_elim (AtEnd {S = LeaderVars} P) (e.timer_id == v.heartbeat_timer)
        (λ _. after-Closed c _ _ (send_heart_beats-Closed w h))
        λ _.
          if_elim (AtEnd {S = LeaderVars} P) (e.timer_id == v.quorum_timer)
            (λ _. on_quorum_timer-Closed v w h) (λ _. h)
  leader_event-Closed event_rpc e v w o h =
      unless_leader-Closed v _ (process_rpc-Closed c e w o.0 h)
  leader_event-Closed event_set_peers e v w o h =
      beat_if_leader-Closed _ (handle_set_peers-Closed c e e.peers w (o.1 refl) h)
  leader_event-Closed event_set_metadata e v w o h =
      beat_if_leader-Closed _ (handle_set_metadata-Closed c e e.metadata w h)
  leader_event-Closed event_resign e v w o h =
      unless_leader-Closed v _ (handle_resign-Closed c e w h)
  leader_event-Closed event_shutdown e v w o h =
      leader_cancel-Closed v _ (c.quiet _ _ (send_election_resets-Same _) (c.shut w h))
