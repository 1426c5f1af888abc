-- ===== src/Node/Visible.antt =====
-- What other goroutines see of a node: the role atomic after a heartbeat timeout, the leader flag
-- after a shutdown, and the methods before `Start`, after a failed `Start` and after a forced `Stop`.
use election_go.Base.{
  ℕ, ◌<◌, ◌≢◌, [], ◌∷◌, ◌++◌, String, ◌≡◌, ◌↔◌, ◌⊎◌, refl, sym, ap, ◌∙◌, Bool, true, false, some,
  arith, length, inl, inr, Bool-cases,
}
use election_go.Engine.{Event, event_rpc, event_shutdown, RpcRequest}
use election_go.Node.State.{
  Node, candidate, shutdown, get_state, err_metadata_too_large, max_metadata_size,
}
use election_go.Node.World.{World, set_leader, fire_on_change, yield, now, cancel}
use election_go.Node.Handlers.{with_role, send_election_resets}
use election_go.Node.Follower.{leave, FollowerVars, become, contact_is_recent, on_heartbeat_timer}
use election_go.Node.Candidate.{enter_candidate}
use election_go.Node.Leader.{LeaderVars, cancel_both, leader_event}
use election_go.Node.Run.{ended, enter_role, enter, end_leader}
use election_go.Node.Lifecycle.{
  Handle, Outcome, returned, answered, cancelled, waiting, panics, Pick, proceed, expire, start,
  stop, plain, receive_rpc, is_peer_rpc,
}
use election_go.Node.Steady.{Steady, Steady-trans, yield-Steady}
use election_go.Node.Phases.{role_of, cancel-Steady, enter-Matches, enter_candidate-Steady}
use election_go.Node.Rule.Handlers.{send_election_resets-Same}

set_leader-kept :
    (l : String) (w : World)
    → ((set_leader l w).node.role ≡ w.node.role)
      × ((set_leader l w).node.current_role ≡ w.node.current_role)
unfolding set_leader fire_on_change
set_leader-kept l w = ground arith

enter-candidacy :
    (w : World) → w.node.current_role ≡ candidate → (enter w).1 ≡ (enter_candidate w).1
unfolding enter enter_role
enter-candidacy w e = ap (λ r. (enter_role r w).1) e

enter-ended : (w : World) → w.node.current_role ≡ shutdown → enter w ≡ (ended, w)
unfolding enter enter_role
enter-ended w e = ap (λ r. enter_role r w) e

cancel_both-Steady : (v : LeaderVars) (w : World) → Steady w (cancel_both v w)
cancel_both-Steady v w =
    Steady-trans w (cancel v.heartbeat_timer w) _ (cancel-Steady _ w) (cancel-Steady _ _)

timed_out-node :
    (v : FollowerVars) (w : World)
    → contact_is_recent (yield w).clock (yield w).node ≡ false
    → let x = on_heartbeat_timer v w in
      (x.0 ≡ leave) × (x.1.node.current_role ≡ candidate) × (x.1.node.role ≡ w.node.role)
unfolding on_heartbeat_timer now
timed_out-node v w e =
    let u : World = become candidate (set_leader "" (yield w)) in
    let s = cancel-Steady v.no_peers_timer u in
    rw e (refl, s.current_role, s.role ∙ ((set_leader-kept "" (yield w)).0 ∙ (yield-Steady w).role))

-- A follower whose heartbeat timer fires with no recent contact goes on as a candidate, but the role
-- that `GetState` and `Stats` read stays what it was.
pub heartbeat_timeout-hidden :
    (v : FollowerVars) (w : World)
    → contact_is_recent (yield w).clock (yield w).node ≡ false
    → let x = enter (on_heartbeat_timer v w).1 in
      (role_of x.0 ≡ candidate) × ((get_state x.1.node).role ≡ (get_state w.node).role)
unfolding get_state
heartbeat_timeout-hidden v w e =
    let u = (on_heartbeat_timer v w).1 in
    let t = timed_out-node v w e in
    let s = enter_candidate-Steady u in
    let x = enter-candidacy u t.1 in
    let entered = ap (λ (y : World). y.node.current_role) x ∙ (s.current_role ∙ t.1) in
    (sym (enter-Matches u) ∙ entered, ap (λ (y : World). y.node.role) x ∙ (s.role ∙ t.2))

-- A leader that shuts down ends with the leader and the leader flag as they were: `IsLeader` goes
-- on to say so for ever.
pub shutdown-still_leader :
    (e : Event) (v : LeaderVars) (w : World)
    → let x = end_leader (leader_event event_shutdown e v w) in
      (x.0 ≡ ended) × (x.1.node.is_leader ≡ w.node.is_leader) × (x.1.node.leader ≡ w.node.leader)
unfolding leader_event end_leader
shutdown-still_leader e v w =
    let quit : World = record w { node = with_role shutdown w.node } in
    let same = (send_election_resets-Same quit).node in
    let u : World = cancel_both v (send_election_resets quit) in
    let s = cancel_both-Steady v (send_election_resets quit) in
    let over = enter-ended u (s.current_role ∙ ap (λ (n : Node). n.current_role) same) in
    rw over (
      refl,
      s.is_leader ∙ ap (λ (n : Node). n.is_leader) same,
      s.leader ∙ ap (λ (n : Node). n.leader) same,
    )

-- `Start` with metadata beyond the limit fails, and marks the node as started all the same: it
-- cannot be started again, nothing runs, and `Stop` dereferences the adapter that was never made.
pub start-failed :
    (added : Bool) (pushed clean : Pick) (h : Handle)
    → h.started ≡ false
    → h.has_io ≡ false
    → h.stopped ≡ false
    → max_metadata_size < length h.node.conf.metadata
    → let (o, h') = start added h in
      (o ≡ returned (some err_metadata_too_large))
      × (h'.running ≡ h.running)
      × ((start added h').0 ≡ Outcome.already_started)
      × ((stop pushed clean h').0 ≡ panics)
unfolding start stop
start-failed added pushed clean h s i t m = ground arith

-- Once `Stop` gave up waiting and closed the event channel, a peer's RPC panics.
pub receive_rpc-after_forced_stop :
    (caller : ℕ) (req : RpcRequest) (h : Handle)
    → h.started ≡ true
    → h.stopped ≡ false
    → h.has_io ≡ true
    → h.closed ≡ false
    → is_peer_rpc req.rpc ≡ true
    → let (o, h') = stop proceed expire h in
      (o ≡ cancelled) × ((receive_rpc caller proceed req h').0 ≡ panics)
unfolding stop receive_rpc
receive_rpc-after_forced_stop caller req h s t i c r = ground arith

abbrev pub is_answered : Outcome → Bool
is_answered (answered _) = true
is_answered _ = false

-- The RPCs that nodes send each other.
abbrev pub IsPeerRpc : String → Type 0
IsPeerRpc rpc = (rpc ≡ "heartbeat") ⊎ ((rpc ≡ "vote") ⊎ (rpc ≡ "reset_election"))

is_peer_rpc_iff : (rpc : String) → (is_peer_rpc rpc ≡ true) ↔ IsPeerRpc rpc
is_peer_rpc_iff rpc = (λ e. ground (arith, e), λ p. ground (arith, p))

-- `ReceiveRPC` answers by itself exactly if the node is not started or the RPC is not "heartbeat", "vote"
-- or "reset_election". It waits for the coroutine only with the request as the last event in the channel
-- and this caller to respond to, and leaves the node alone otherwise. It is cancelled only if its context
-- ends, and panics only if the event channel is closed; there is no other outcome.
pub receive_rpc-filter :
    (caller : ℕ) (pick : Pick) (req : RpcRequest) (h : Handle)
    → let (o, h') = receive_rpc caller pick req h in
      ((is_answered o ≡ true) ↔ ((h.started ≡ false) ⊎ (¬ IsPeerRpc req.rpc)))
      × ((o ≡ waiting) ⊎ (h' ≡ h))
      × ((o ≢ waiting)
          ⊎ (h' ≡ record h {
            queue =
                h.queue ++ record (plain event_rpc) { rpc_req = req; respond = some caller } ∷ [];
          }))
      × ((o ≢ cancelled) ⊎ (pick ≡ expire))
      × ((o ≢ panics) ⊎ (h.closed ≡ true))
      × ((is_answered o ≡ true) ⊎ ((o ≡ waiting) ⊎ ((o ≡ cancelled) ⊎ (o ≡ panics))))
unfolding receive_rpc
receive_rpc-filter caller proceed req h = elim (Bool-cases (is_peer_rpc req.rpc)) [
  | inl e ↦ (let p = (is_peer_rpc_iff req.rpc).0 e in rw e (ground (arith, p)))
  | inr e ↦
      (let p : ¬ IsPeerRpc req.rpc = λ q. cc (e, (is_peer_rpc_iff req.rpc).1 q) in
        rw e (ground (arith, p)))
]
receive_rpc-filter caller expire req h = elim (Bool-cases (is_peer_rpc req.rpc)) [
  | inl e ↦ (let p = (is_peer_rpc_iff req.rpc).0 e in rw e (ground (arith, p)))
  | inr e ↦
      (let p : ¬ IsPeerRpc req.rpc = λ q. cc (e, (is_peer_rpc_iff req.rpc).1 q) in
        rw e (ground (arith, p)))
]
