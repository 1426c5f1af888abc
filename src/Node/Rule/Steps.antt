-- ===== src/Node/Rule/Steps.antt =====
-- Events keep what is closed. An election takes `P` to `Q`; every other event may as well.
use election_go.Base.{
  ltb, ◌==◌, str_eq, ◌≡◌, refl, sym, ◌∙◌, ◌≢◌, List, [], ◌∷◌, All, if_elim, arith, length,
}
use election_go.Engine.{
  Request, Event, EventKind, event_rpc, event_timer, event_set_peers, event_resign, event_shutdown,
  event_set_metadata,
}
use election_go.Node.State.{Role, follower, candidate, leader, shutdown}
use election_go.Node.World.{World, yield, now, set_leader}
use election_go.Node.Steady.{yield-Steady}
use election_go.Node.Handlers.{with_role, record_contact}
use election_go.Node.Follower.{Flow, again, leave, FollowerVars}
use election_go.Node.Candidate.{
  CandidateVars, count_won, nominate, on_vote_timer, candidate_timer, candidate_event,
}
use election_go.Node.Leader.{LeaderVars, leave_leader}
use election_go.Node.Run.{
  Phase, in_follower, in_candidate, in_leader, ended, enter_role, enter, end_follower,
  end_candidate, end_leader, receive, run_events,
}
use election_go.Node.Phases.{Matches, receive-Matches, yield-Matches}
use election_go.Node.Rule.{Closed, Admits}
use election_go.Node.Rule.Handlers.{
  cancel-Closed, after-Closed, finish_with-Closed, record_contact-Closed, handle_set_peers-Closed,
  handle_set_metadata-Closed,
}
use election_go.Node.Rule.Rounds.{
  enter_follower-Closed, enter_candidate-Closed, enter_leader-Closed, follower_event-Closed,
  elect_self-role, campaign-Closed, count_votes-Closed, candidate_cancel-Closed,
  candidate_rpc-Closed,
}
use election_go.Node.Rule.Leading.{leader_event-Closed}

-- What is left to show of a candidate's vote timer.
abbrev pub AtElection : (World → Type 0) → Event → Phase → World → Type 0
AtElection Q e (in_candidate v) w =
    e.kind ≡ event_timer → e.timer_id ≡ v.vote_timer → Q (on_vote_timer v w).1
AtElection Q e _ w = Unit {0}

module _ {ok : Request → Type 0} {Q : World → Type 0} (d : Closed ok Q) where
  enter_role-Closed : (r : Role) (w : World) → Q w → Q (enter_role r w).1
  unfolding enter_role
  enter_role-Closed follower w h = enter_follower-Closed d w h
  enter_role-Closed candidate w h = enter_candidate-Closed d w h
  enter_role-Closed leader w h = enter_leader-Closed d w h
  enter_role-Closed shutdown w h = h

  pub enter-Closed : (w : World) → Q w → Q (enter w).1
  unfolding enter
  enter-Closed w h = enter_role-Closed w.node.current_role w h

  leave_leader-Closed : (w : World) → w.node.current_role ≢ leader → Q w → Q (leave_leader w)
  unfolding leave_leader record_contact now
  leave_leader-Closed w n h =
      let w' = record_contact w in
      if_elim Q (str_eq w'.node.current_leader w'.node.self)
        (λ e.
          d.left w' (λ l. n (sym (yield-Steady w).current_role ∙ l)) (ground arith)
            (record_contact-Closed d w h))
        (λ _. record_contact-Closed d w h)

  end_follower-Closed : (r : Flow FollowerVars × World) → Q r.1 → Q (end_follower r).1
  unfolding end_follower
  end_follower-Closed (leave, w) h = enter-Closed w h
  end_follower-Closed (again v, w) h = by_role w.node.current_role
    where
      by_role :
          (r : Role)
          → let x : Phase × World = elim r [ follower ↦ (in_follower v, w) | _ ↦ enter w ] in Q x.1
      by_role follower = h
      by_role _ = enter-Closed w h

  end_candidate-Closed : (r : Flow CandidateVars × World) → Q r.1 → Q (end_candidate r).1
  unfolding end_candidate
  end_candidate-Closed (leave, w) h = enter-Closed w h
  end_candidate-Closed (again v, w) h = by_role w.node.current_role
    where
      by_role :
          (r : Role)
          → let x : Phase × World = elim r [ candidate ↦ (in_candidate v, w) | _ ↦ enter w ] in
            Q x.1
      by_role candidate = h
      by_role _ = enter-Closed w h

  end_leader-Closed : (r : Flow LeaderVars × World) → Q r.1 → Q (end_leader r).1
  unfolding end_leader
  end_leader-Closed (leave, w) h = enter-Closed w h
  end_leader-Closed (again v, w) h = by_role w.node.current_role refl
    where
      by_role :
          (r : Role)
          → w.node.current_role ≡ r
          → let x : Phase × World = elim r [
            | leader ↦ (in_leader v, w)
            | _ ↦ enter (leave_leader w)
          ] in
            Q x.1
      by_role leader e = h
      by_role follower e = enter-Closed _ (leave_leader-Closed w (λ l. cc) h)
      by_role candidate e = enter-Closed _ (leave_leader-Closed w (λ l. cc) h)
      by_role shutdown e = enter-Closed _ (leave_leader-Closed w (λ l. cc) h)

  candidate_event-except :
      (k : EventKind) (e : Event) (v : CandidateVars) (w : World)
      → Admits ok k e
      → Q w
      → (k ≡ event_timer → e.timer_id ≡ v.vote_timer → Q (on_vote_timer v w).1)
      → Q (candidate_event k e v w).1
  unfolding candidate_event candidate_timer
  candidate_event-except event_timer e v w o h votes =
      if_elim (λ (r : Flow CandidateVars × World). Q r.1) (e.timer_id == v.vote_timer)
        (λ q. votes refl (ground (arith, q)))
        λ _.
          if_elim (λ (r : Flow CandidateVars × World). Q r.1) (e.timer_id == v.election_timer)
            (λ _. cancel-Closed d _ _ h) (λ _. h)
  candidate_event-except event_rpc e v w o h votes = candidate_rpc-Closed d e v w o.0 h
  candidate_event-except event_set_peers e v w o h votes =
      handle_set_peers-Closed d e e.peers w (o.1 refl) h
  candidate_event-except event_set_metadata e v w o h votes =
      handle_set_metadata-Closed d e e.metadata w h
  candidate_event-except event_resign e v w o h votes = finish_with-Closed d e.done _ w h
  candidate_event-except event_shutdown e v w o h votes = candidate_cancel-Closed d v _ (d.shut w h)

  -- One event keeps what is closed, in every phase, if the vote timer of a candidate does.
  pub receive-except :
      (e : Event) (p : Phase) (w : World)
      → Admits ok e.kind e
      → Q w
      → AtElection Q e p w
      → Q (receive e p w).1
  unfolding receive
  receive-except e (in_follower v) w o h votes =
      end_follower-Closed _ (follower_event-Closed d e.kind e v w o h)
  receive-except e (in_candidate v) w o h votes =
      end_candidate-Closed _ (candidate_event-except e.kind e v w o h votes)
  receive-except e (in_leader v) w o h votes =
      end_leader-Closed _ (leader_event-Closed d e.kind e v w o h)
  receive-except e ended w o h votes = h

-- How an election turns `P` into `Q`.
pub record Spends (P Q : World → Type 0) : Type 0 where
  pub spared : (w : World) → P w → Q w
  pub nominated : (w : World) → P w → Q (record w { node = nominate w.node })
  pub won :
      (w : World)
      → w.node.current_role ≡ candidate
      → Q w
      → Q (set_leader w.node.self (record w { node = count_won (with_role leader w.node) }))

module _ {ok : Request → Type 0} {P Q : World → Type 0} (d : Closed ok Q) (s : Spends P Q) where
  on_vote_timer-Closed :
      (v : CandidateVars) (w : World)
      → w.node.current_role ≡ candidate
      → P w
      → Q (on_vote_timer v w).1
  unfolding on_vote_timer
  on_vote_timer-Closed v w r h =
      if_elim (λ (r : Flow CandidateVars × World). Q r.1)
        (ltb (length w.node.current_peers) w.node.conf.minimum_quorum)
        (λ _. after-Closed d _ _ (s.spared w h))
        (λ _.
          let role = elect_self-role w ∙ r in
          let h' = campaign-Closed d w (s.nominated w h) in
          count_votes-Closed d _ v _ (λ _. s.won _ role h') role h')

  election : (e : Event) (p : Phase) (w : World) → Matches (p, w) → P w → AtElection Q e p w
  election e (in_candidate v) w m h = λ _ _. on_vote_timer-Closed v w m h
  election e (in_follower v) w m h = tt
  election e (in_leader v) w m h = tt
  election e ended w m h = tt

  -- One event takes `P` to `Q`, in every phase.
  pub receive-Closed :
      (e : Event) (p : Phase) (w : World)
      → Matches (p, w)
      → Admits ok e.kind e
      → P w
      → Q (receive e p w).1
  receive-Closed e p w m o h = receive-except d e p w o (s.spared w h) (election e p w m h)

-- The requests and peer lists of these events are all allowed.
abbrev pub Allowed : (Request → Type 0) → List Event → Type 0
Allowed ok es = All (λ e. Admits ok e.kind e) es

-- A closed predicate that an election keeps holds after any events.
pub run_events-Closed :
    {ok : Request → Type 0} {P : World → Type 0}
    → Closed ok P
    → Spends P P
    → (es : List Event) (p : Phase) (w : World) → Matches (p, w)
    → Allowed ok es
    → P w
    → P (run_events es (p, w)).1
unfolding run_events
run_events-Closed c s [] p w m o h = h
run_events-Closed c s (e ∷ es) p w m o h =
    let (p', w') = receive e p (yield w) in
    let waits = yield-Matches p w m in
    run_events-Closed c s es p' w' (receive-Matches e p (yield w) waits) o.1
      (receive-Closed c s e p (yield w) waits o.0 (c.yielded w h))
