-- ===== src/Node/Rule/Rounds.antt =====
-- The prologues of the three roles and the loop bodies of a follower and a candidate keep what is
-- closed. An election takes `P`, with a term to spare, to `Q`.
use election_go.Base.{
  ℕ, ◌+◌, ◌<◌, ◌≤◌, ltb, leb, ◌==◌, not, str_eq, String, ◌≡◌, refl, ap, ◌∙◌, true, false, List, [],
  ◌∷◌, if◌then◌else◌, if_elim, arith,
}
use election_go.Engine.{
  VoteReq, Request, Event, EventKind, event_rpc, event_timer, event_set_peers, event_resign,
  event_shutdown, event_set_metadata, SendResult,
}
use election_go.Node.State.{Role, candidate, leader, Node}
use election_go.Node.World.{World, set_leader, yield, now}
use election_go.Node.Handlers.{with_role, process_rpc}
use election_go.Node.Follower.{
  Flow, again, leave, FollowerVars, enter_follower, contact_is_recent, rearm_heartbeat,
  rearm_no_peers, on_heartbeat_timer, is_alone, on_no_peers_timer, follower_timer, follower_event,
}
use election_go.Node.Candidate.{
  VoteResult, CandidateVars, count_started, count_won, enter_candidate, spawn_votes, vote_targets,
  await_votes, nominate, take_ballot, elect_self, fall_back, win, count_votes, on_vote_timer,
  candidate_timer, candidate_rpc, candidate_event,
}
use election_go.Node.Candidate
use election_go.Node.Leader.{enter_leader}
use election_go.Node.Steady.{Steady, Steady-refl, Steady-trans, yield-Steady}
use election_go.Node.Rule.{Same, Closed, Admits}
use election_go.Node.Rule.Handlers.{
  Same-trans, emit-Same, cancel-Closed, after-Closed, now-Closed, int63-Closed, finish_with-Closed,
  handle_set_peers-Closed, handle_set_metadata-Closed, process_rpc-Closed,
}

spawn_votes-Same : (req : VoteReq) (as' : List String) (w : World) → Same w (spawn_votes req as' w)
unfolding spawn_votes
spawn_votes-Same req [] w = record { node = refl; ticks = refl }
spawn_votes-Same req (a ∷ as') w = Same-trans w _ _ (emit-Same _ w) (spawn_votes-Same req as' _)

take_ballot-Same : (w : World) → Same w (take_ballot w).1
unfolding take_ballot
take_ballot-Same w = ground arith

-- From the segment with the new term to the first wait.
pub campaign-Same :
    (req : VoteReq) (as' : List String) (w : World) → Same w (spawn_votes req as' (take_ballot w).1)
campaign-Same req as' w =
    Same-trans w _ _ (take_ballot-Same w) (spawn_votes-Same req as' (take_ballot w).1)

ltb→lt : (a b : ℕ) → ltb a b ≡ true → a < b
ltb→lt a b h = ground arith

empty_of_test : (a : String) → not (str_eq a "") ≡ false → a ≡ ""
empty_of_test a h = ground arith

pub await_votes-Steady :
    (t : ℕ) (as' : List String) (rs : List SendResult) (w : World)
    → Steady w (await_votes t as' rs w).1
unfolding await_votes
await_votes-Steady t [] rs w = Steady-refl w
await_votes-Steady t (a ∷ as') [] w =
    Steady-trans w (yield w) _ (yield-Steady w) (await_votes-Steady t as' [] (yield w))
await_votes-Steady t (a ∷ as') (r ∷ rs) w =
    Steady-trans w (yield w) _ (yield-Steady w) (await_votes-Steady t as' rs (yield w))

-- An election leaves the role alone until its votes are counted.
pub elect_self-role : (w : World) → (elect_self w).1.node.current_role ≡ w.node.current_role
unfolding elect_self nominate
elect_self-role w =
    (await_votes-Steady _ _ _ _).current_role
    ∙ ap (λ (n : Node). n.current_role)
        (campaign-Same _ _ (record w { node = nominate w.node })).node

abbrev pub granted_count : List VoteResult → ℕ
granted_count [] = 0
granted_count (r ∷ rs) = (if r.granted then 1 else 0) + granted_count rs

abbrev pub AtEnd : {S : Type 0} → (World → Type 0) → Flow S × World → Type 0
AtEnd P r = P r.1

module _ {ok : Request → Type 0} {P : World → Type 0} (c : Closed ok P) where
  pub enter_follower-Closed : (w : World) → P w → P (enter_follower w).1
  unfolding enter_follower
  enter_follower-Closed w h = after-Closed c _ _ (after-Closed c _ _ (int63-Closed c w h))

  pub enter_candidate-Closed : (w : World) → P w → P (enter_candidate w).1
  unfolding enter_candidate
  enter_candidate-Closed w h =
      after-Closed c _ _ (int63-Closed c _ (after-Closed c _ _ (int63-Closed c _ (c.counted w h))))

  pub enter_leader-Closed : (w : World) → P w → P (enter_leader w).1
  unfolding enter_leader
  enter_leader-Closed w h =
      after-Closed c _ _ (after-Closed c _ _ (int63-Closed c _ (c.forgot w h)))

  on_heartbeat_timer-Closed : (v : FollowerVars) (w : World) → P w → P (on_heartbeat_timer v w).1
  unfolding on_heartbeat_timer rearm_heartbeat
  on_heartbeat_timer-Closed v w h =
      if_elim (AtEnd {S = FollowerVars} P) (contact_is_recent (now w).0 (now w).1.node)
        (λ _. after-Closed c _ _ (now-Closed c w h))
        (λ _. cancel-Closed c _ _ (c.timed_out _ (now-Closed c w h)))

  on_no_peers_timer-Closed : (v : FollowerVars) (w : World) → P w → P (on_no_peers_timer v w).1
  unfolding on_no_peers_timer rearm_no_peers
  on_no_peers_timer-Closed v w h =
      if_elim (AtEnd {S = FollowerVars} P) (not (str_eq w.node.current_leader ""))
        (λ _. after-Closed c _ _ h)
        λ e.
          if_elim (AtEnd {S = FollowerVars} P) (is_alone w.node)
            (λ _. cancel-Closed c _ _ (c.alone w (empty_of_test _ e) h)) (λ _. after-Closed c _ _ h)

  pub follower_event-Closed :
      (k : EventKind) (e : Event) (v : FollowerVars) (w : World)
      → Admits ok k e
      → P w
      → P (follower_event k e v w).1
  unfolding follower_event follower_timer
  follower_event-Closed event_timer e v w o h =
      if_elim (AtEnd {S = FollowerVars} P) (e.timer_id == v.heartbeat_timer)
        (λ _. on_heartbeat_timer-Closed v w h)
        λ _.
          if_elim (AtEnd {S = FollowerVars} P) (e.timer_id == v.no_peers_timer)
            (λ _. on_no_peers_timer-Closed v w h) (λ _. h)
  follower_event-Closed event_rpc e v w o h = process_rpc-Closed c e w o.0 h
  follower_event-Closed event_set_peers e v w o h =
      handle_set_peers-Closed c e e.peers w (o.1 refl) h
  follower_event-Closed event_set_metadata e v w o h = handle_set_metadata-Closed c e e.metadata w h
  follower_event-Closed event_resign e v w o h = finish_with-Closed c e.done _ w h
  follower_event-Closed event_shutdown e v w o h =
      cancel-Closed c _ _ (cancel-Closed c _ _ (c.shut_follower w h))

  pub candidate_cancel-Closed :
      (v : CandidateVars) (w : World) → P w → P (Candidate.cancel_both v w)
  candidate_cancel-Closed v w h = cancel-Closed c _ _ (cancel-Closed c _ _ h)

  await_votes-Closed :
      (t : ℕ) (as' : List String) (rs : List SendResult) (w : World)
      → P w
      → P (await_votes t as' rs w).1
  unfolding await_votes
  await_votes-Closed t [] rs w h = h
  await_votes-Closed t (a ∷ as') [] w h = await_votes-Closed t as' [] (yield w) (c.yielded w h)
  await_votes-Closed t (a ∷ as') (r ∷ rs) w h =
      await_votes-Closed t as' rs (yield w) (c.yielded w h)

  -- What follows the segment with the new term.
  pub campaign-Closed : (w : World) → P (record w { node = nominate w.node }) → P (elect_self w).1
  unfolding elect_self
  campaign-Closed w h =
      await_votes-Closed _ _ _ _
        (c.quiet _ _ (campaign-Same _ _ (record w { node = nominate w.node })) h)

  -- What is closed holds after the votes are counted, if it does after a win by enough granted votes.
  pub count_votes-Closed :
      (rs : List VoteResult) (v : CandidateVars) (w : World)
      → (v.votes_needed ≤ v.granted_votes + granted_count rs
          → P (set_leader w.node.self (record w { node = count_won (with_role leader w.node) })))
      → w.node.current_role ≡ candidate
      → P w
      → P (count_votes rs v w).1
  unfolding count_votes fall_back win
  count_votes-Closed [] v w wins r h = h
  count_votes-Closed (r ∷ rs) v w wins e h =
      let granted = if r.granted then v.granted_votes + 1 else v.granted_votes in
      if_elim (AtEnd {S = CandidateVars} P) (ltb w.node.current_term r.term)
        (λ l. cancel-Closed c _ _ (c.fell_back r.term w e (ltb→lt _ _ l) h))
        λ _.
          if_elim (AtEnd {S = CandidateVars} P) (leb v.votes_needed granted)
            (λ q. candidate_cancel-Closed v _ (wins (ground (arith, q))))
            (λ _.
              count_votes-Closed rs (record v { granted_votes = granted }) w
                (λ q. wins (ground (arith, q))) e h)

  pub candidate_rpc-Closed :
      (e : Event) (v : CandidateVars) (w : World)
      → ok e.rpc_req.request
      → P w
      → P (candidate_rpc e v w).1
  unfolding candidate_rpc
  candidate_rpc-Closed e v w o h = by_role (process_rpc e w).node.current_role
    where
      done : P (process_rpc e w)
      done = process_rpc-Closed c e w o h

      by_role :
          (r : Role)
          → let x : Flow CandidateVars × World = elim r [
            | candidate ↦ (again v, process_rpc e w)
            | _ ↦ (leave, Candidate.cancel_both v (process_rpc e w))
          ] in
            P x.1
      by_role candidate = done
      by_role _ = candidate_cancel-Closed v _ done
