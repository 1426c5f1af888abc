-- ===== src/Node/Rule/Handlers.antt =====
-- The handlers keep what is closed.
use election_go.Base.{
  ℕ, String, refl, sym, subst, inl, inr, ◌∙◌, Bool, true, false, List, [], ◌∷◌, Option, none, some,
  arith, if◌then◌else◌,
}
use election_go.Engine.{
  Bytes, Peer, VoteReq, HeartBeatReq, Request, vote_req, heart_beat_req, reset_election_req,
  resign_req, set_peers_req, set_metadata_req, unexpected, RpcResponse, Event,
}
use election_go.Node.State.{Role, follower, leader, NodeError, err_not_leader}
use election_go.Node.World.{
  World, Effect, emit, respond_with, finish_with, now, after, cancel, int63,
}
use election_go.Node.Handlers.{
  decide_vote, record_contact, handle_vote, handle_heart_beat, handle_reset_election, spawn_resets,
  send_election_resets, spawn_heart_beats, send_heart_beats, step_down_from_leader, handle_resign,
  handle_set_peers, handle_set_metadata, process_request, process_rpc,
}
use election_go.Node.Addresses.{peers_from_strings-addresses, apply_self_metadata-addresses}
use election_go.Node.Peers.{peers_from_strings}
use election_go.Node.Rule.{Same, Closed}

pub Same-trans : (u v w : World) → Same u v → Same v w → Same u w
Same-trans u v w p q = record { node = q.node ∙ p.node; ticks = q.ticks ∙ p.ticks }

pub emit-Same : (e : Effect) (w : World) → Same w (emit e w)
unfolding emit
emit-Same e w = record { node = refl; ticks = refl }

pub respond_with-Same : (cb : Option ℕ) (r : RpcResponse) (w : World) → Same w (respond_with cb r w)
unfolding respond_with
respond_with-Same none r w = record { node = refl; ticks = refl }
respond_with-Same (some _) r w = record { node = refl; ticks = refl }

pub finish_with-Same :
    (cb : Option ℕ) (e : Option NodeError) (w : World) → Same w (finish_with cb e w)
unfolding finish_with
finish_with-Same none e w = record { node = refl; ticks = refl }
finish_with-Same (some _) e w = record { node = refl; ticks = refl }

pub int63-Same : (w : World) → Same w (int63 w).1
unfolding int63
int63-Same w = ground arith

spawn_resets-Same : (self : String) (ps : List Peer) (w : World) → Same w (spawn_resets self ps w)
unfolding spawn_resets
spawn_resets-Same self [] w = record { node = refl; ticks = refl }
spawn_resets-Same self (p ∷ ps) w = Same-trans w _ _ (ground arith) (spawn_resets-Same self ps _)

spawn_heart_beats-Same :
    (req : HeartBeatReq) (ps : List Peer) (w : World) → Same w (spawn_heart_beats req ps w)
unfolding spawn_heart_beats
spawn_heart_beats-Same req [] w = record { node = refl; ticks = refl }
spawn_heart_beats-Same req (p ∷ ps) w =
    Same-trans w _ _ (ground arith) (spawn_heart_beats-Same req ps _)

pub send_election_resets-Same : (w : World) → Same w (send_election_resets w)
unfolding send_election_resets
send_election_resets-Same w = spawn_resets-Same w.node.self w.node.current_peers w

pub send_heart_beats-Same : (w : World) → Same w (send_heart_beats w)
unfolding send_heart_beats
send_heart_beats-Same w = spawn_heart_beats-Same _ w.node.current_peers w

module _ {ok : Request → Type 0} {P : World → Type 0} (c : Closed ok P) where
  pub cancel-Closed : (id : ℕ) (w : World) → P w → P (cancel id w)
  unfolding cancel
  cancel-Closed id w h = c.yielded _ (c.quiet w _ (record { node = refl; ticks = refl }) h)

  pub after-Closed : (delay : ℕ) (w : World) → P w → P (after delay w).1
  unfolding after
  after-Closed delay w h = c.yielded _ (c.quiet w _ (record { node = refl; ticks = refl }) h)

  pub now-Closed : (w : World) → P w → P (now w).1
  unfolding now
  now-Closed w h = c.yielded w h

  pub int63-Closed : (w : World) → P w → P (int63 w).1
  int63-Closed w h = c.quiet w _ (int63-Same w) h

  pub finish_with-Closed :
      (cb : Option ℕ) (e : Option NodeError) (w : World) → P w → P (finish_with cb e w)
  finish_with-Closed cb e w h = c.quiet w _ (finish_with-Same cb e w) h

  pub record_contact-Closed : (w : World) → P w → P (record_contact w)
  unfolding record_contact
  record_contact-Closed w h = c.contacted _ _ (now-Closed w h)

  handle_vote-Closed :
      (e : Event) (req : VoteReq) (w : World) → ok (vote_req req) → P w → P (handle_vote e req w)
  unfolding handle_vote
  handle_vote-Closed e req w k h =
      c.quiet _ _ (respond_with-Same e.respond _ _) (fresh_or_not (decide_vote req w.node).fresh)
    where
      voted : P (record w { node = (decide_vote req w.node).node })
      voted = c.voted req w k h

      fresh_or_not :
          (b : Bool)
          → P (
              if b
              then record_contact (record w { node = (decide_vote req w.node).node })
              else record w { node = (decide_vote req w.node).node })
      fresh_or_not true = record_contact-Closed _ voted
      fresh_or_not false = voted

  handle_heart_beat-Closed :
      (e : Event) (req : HeartBeatReq) (w : World)
      → ok (heart_beat_req req)
      → P w
      → P (handle_heart_beat e req w)
  unfolding handle_heart_beat
  handle_heart_beat-Closed e req w k h =
      c.quiet _ _ (respond_with-Same e.respond _ _) (record_contact-Closed _ (c.followed req w k h))

  handle_reset_election-Closed : (e : Event) (w : World) → P w → P (handle_reset_election e w)
  unfolding handle_reset_election
  handle_reset_election-Closed e w h = c.quiet _ _ (respond_with-Same e.respond _ _) (c.reset w h)

  pub step_down_from_leader-Closed : (w : World) → P w → P (step_down_from_leader w)
  unfolding step_down_from_leader
  step_down_from_leader-Closed w h = c.quiet _ _ (send_election_resets-Same _) (c.stepped_down w h)

  pub handle_resign-Closed : (e : Event) (w : World) → P w → P (handle_resign e w)
  unfolding handle_resign
  handle_resign-Closed e w h = by_role w.node.current_role
    where
      refused : P (finish_with e.done (some err_not_leader) w)
      refused = finish_with-Closed e.done _ w h

      by_role :
          (r : Role)
          → P (elim r [
            | leader ↦ finish_with e.done none (step_down_from_leader w)
            | _ ↦ finish_with e.done (some err_not_leader) w
          ])
      by_role leader = finish_with-Closed e.done none _ (step_down_from_leader-Closed w h)
      by_role follower = refused
      by_role _ = refused

  pub handle_set_peers-Closed :
      (e : Event) (as' : List String) (w : World)
      → ok (set_peers_req as')
      → P w
      → P (handle_set_peers e as' w)
  unfolding handle_set_peers
  handle_set_peers-Closed e as' w k h =
      let n = w.node in
      let same =
        apply_self_metadata-addresses n.self n.current_metadata (peers_from_strings as')
        ∙ peers_from_strings-addresses as' in
      finish_with-Closed e.done none _
        (c.regrouped _ _ w (inr (subst (λ x. ok (set_peers_req x)) (sym same) k)) h)

  pub handle_set_metadata-Closed :
      (e : Event) (m : Bytes) (w : World) → P w → P (handle_set_metadata e m w)
  unfolding handle_set_metadata
  handle_set_metadata-Closed e m w h =
      finish_with-Closed e.done none _ (
        c.regrouped _ _ w (inl (apply_self_metadata-addresses w.node.self m w.node.current_peers))
          h)

  process_request-Closed :
      (req : Request) (e : Event) (w : World) → ok req → P w → P (process_request req e w)
  unfolding process_request
  process_request-Closed (vote_req req) e w k h = handle_vote-Closed e req w k h
  process_request-Closed reset_election_req e w k h = handle_reset_election-Closed e w h
  process_request-Closed (heart_beat_req req) e w k h = handle_heart_beat-Closed e req w k h
  process_request-Closed resign_req e w k h = handle_resign-Closed e w h
  process_request-Closed (set_peers_req as') e w k h = handle_set_peers-Closed e as' w k h
  process_request-Closed (set_metadata_req m) e w k h = handle_set_metadata-Closed e m w h
  process_request-Closed unexpected e w k h = c.quiet w _ (respond_with-Same e.respond _ w) h

  pub process_rpc-Closed :
      (e : Event) (w : World) → ok e.rpc_req.request → P w → P (process_rpc e w)
  unfolding process_rpc
  process_rpc-Closed e w k h = process_request-Closed e.rpc_req.request e w k h
