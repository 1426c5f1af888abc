-- ===== src/Node/Follower.antt =====
-- `runFollower` of election.go: its prologue, and the body of its loop for one event.
use election_go.Base.{
  ℕ, ◌+◌, ◌/◌, ltb, ◌==◌, not, str_eq, Bool, true, false, [], ◌∷◌, some, if◌then◌else◌,
}
use election_go.Engine.{
  Event, EventKind, event_rpc, event_timer, event_set_peers, event_resign, event_shutdown,
  event_set_metadata,
}
use election_go.Node.State.{Role, candidate, shutdown, Node, err_not_leader}
use election_go.Node.Peers.{random_duration}
use election_go.Node.World.{World, finish_with, set_leader, now, after, cancel, int63}
use election_go.Node.Handlers.{process_rpc, handle_set_peers, handle_set_metadata}

-- How the body of a loop ends: with the next round, or with a return from the function.
pub data Flow (S : Type 0) : Type 0 where
  again : S → Flow S
  leave : Flow S

pub record FollowerVars : Type 0 where
  pub heartbeat_delay : ℕ
  pub heartbeat_timer : ℕ
  pub no_peers_delay : ℕ
  pub no_peers_timer : ℕ

unfoldable pub enter_follower : World → FollowerVars × World
enter_follower w =
    let (draw, w1) = int63 w in
    let delay = random_duration draw w.node.conf.heart_beat_timeout in
    let (heartbeat, w2) = after delay w1 in
    let (no_peers, w3) = after (delay / 5) w2 in
    (
      record {
        heartbeat_delay = delay;
        heartbeat_timer = heartbeat;
        no_peers_delay = delay / 5;
        no_peers_timer = no_peers;
      },
      w3,
    )

abbrev pub become : Role → World → World
become r w = record w { node = record w.node { current_role = r } }

unfoldable pub rearm_heartbeat : FollowerVars → World → Flow FollowerVars × World
rearm_heartbeat v w =
    let (id, w') = after v.heartbeat_delay w in (again (record v { heartbeat_timer = id }), w')

unfoldable pub rearm_no_peers : FollowerVars → World → Flow FollowerVars × World
rearm_no_peers v w =
    let (id, w') = after v.no_peers_delay w in (again (record v { no_peers_timer = id }), w')

-- `now.Sub(lastContact) < HeartBeatTimeout`. The subtraction saturates at the largest duration,
-- which no timeout exceeds, so the sum below decides the same.
unfoldable pub contact_is_recent : ℕ → Node → Bool
contact_is_recent t n = ltb t (n.last_contact + n.conf.heart_beat_timeout)

unfoldable pub on_heartbeat_timer : FollowerVars → World → Flow FollowerVars × World
unfolding contact_is_recent
on_heartbeat_timer v w =
    let (t, w') = now w in
    if contact_is_recent t w'.node
    then rearm_heartbeat v w'
    else (leave, cancel v.no_peers_timer (become candidate (set_leader "" w')))

unfoldable pub is_alone : Node → Bool
is_alone n = elim n.current_peers [
  | [] ↦ true
  | p ∷ rest ↦ elim rest [ [] ↦ str_eq p.address n.self | _ ∷ _ ↦ false ]
]

unfoldable pub on_no_peers_timer : FollowerVars → World → Flow FollowerVars × World
unfolding is_alone
on_no_peers_timer v w =
    if not (str_eq w.node.current_leader "")
    then rearm_no_peers v w
    else if is_alone w.node
    then (leave, cancel v.heartbeat_timer (become candidate w))
    else rearm_no_peers v w

unfoldable pub follower_timer : ℕ → FollowerVars → World → Flow FollowerVars × World
follower_timer id v w =
    if id == v.heartbeat_timer
    then on_heartbeat_timer v w
    else if id == v.no_peers_timer
    then on_no_peers_timer v w
    else (again v, w)

-- The `switch event.Kind` of the loop.
unfoldable pub follower_event : EventKind → Event → FollowerVars → World → Flow FollowerVars × World
follower_event event_timer e v w = follower_timer e.timer_id v w
follower_event event_rpc e v w = (again v, process_rpc e w)
follower_event event_set_peers e v w = (again v, handle_set_peers e e.peers w)
follower_event event_set_metadata e v w = (again v, handle_set_metadata e e.metadata w)
follower_event event_resign e v w = (again v, finish_with e.done (some err_not_leader) w)
follower_event event_shutdown e v w =
    (leave, cancel v.no_peers_timer (cancel v.heartbeat_timer (become shutdown w)))
