-- ===== src/Cluster/Campaign.antt =====
-- `runCandidate` of election.go: where a candidate waits before its vote timer has fired, it has
-- counted no votes, and the votes that it needs are a quorum of its peers.
use election_go.Base.{
  ℕ, ◌≡◌, ◌⊎◌, inl, inr, refl, true, false, List, [], ◌∷◌, arith, ltb, leb, if_elim, length,
  if◌then◌else◌, ◌==◌, ◌+◌,
}
use election_go.Engine.{
  Event, EventKind, event_rpc, event_timer, event_set_peers, event_resign, event_shutdown,
  event_set_metadata,
}
use election_go.Node.State.{Role, follower, candidate, leader, shutdown}
use election_go.Node.Peers.{quorum_size}
use election_go.Node.World.{World, after}
use election_go.Node.Handlers.{process_rpc}
use election_go.Node.Follower.{Flow, again, leave, FollowerVars, follower_event}
use election_go.Node.Candidate
use election_go.Node.Candidate.{
  VoteResult, CandidateVars, enter_candidate, elect_self, fall_back, win, count_votes,
  on_vote_timer, candidate_timer, candidate_rpc, candidate_event,
}
use election_go.Node.Leader.{LeaderVars, leader_event, leave_leader}
use election_go.Node.Run.{
  Phase, in_follower, in_candidate, in_leader, ended, enter_role, enter, end_follower,
  end_candidate, end_leader, receive,
}
use election_go.Cluster.{has, note_fired, OnlyOnce}

-- The vote timer fired, or no vote is counted yet.
abbrev pub IsOpen : List ℕ → CandidateVars → Type 0
IsOpen fired v = (has v.vote_timer fired ≡ true) ⊎ (v.granted_votes ≡ 0)

-- The variables `v` stand in the phase, or those of a candidacy that has just begun.
abbrev pub Comes : (CandidateVars → Type 0) → Phase × World → Type 0
Comes K (in_candidate v, w) =
    ((v.votes_needed ≡ quorum_size w.node.current_peers) × (v.granted_votes ≡ 0)) ⊎ K v
Comes K _ = Unit {0}

module _ (K : CandidateVars → Type 0) where
  enter_role-Comes : (r : Role) (w : World) → Comes K (enter_role r w)
  unfolding enter_role enter_candidate
  enter_role-Comes follower w = tt
  enter_role-Comes candidate w = inl (refl, refl)
  enter_role-Comes leader w = tt
  enter_role-Comes shutdown w = tt

  enter-Comes : (w : World) → Comes K (enter w)
  unfolding enter
  enter-Comes w = enter_role-Comes w.node.current_role w

  end_follower-Comes : (r : Flow FollowerVars × World) → Comes K (end_follower r)
  unfolding end_follower
  end_follower-Comes (leave, w) = enter-Comes w
  end_follower-Comes (again v, w) = by_role w.node.current_role
    where
      by_role :
          (r : Role)
          → let x : Phase × World = elim r [ follower ↦ (in_follower v, w) | _ ↦ enter w ] in
            Comes K x
      by_role follower = tt
      by_role _ = enter-Comes w

  end_leader-Comes : (r : Flow LeaderVars × World) → Comes K (end_leader r)
  unfolding end_leader
  end_leader-Comes (leave, w) = enter-Comes w
  end_leader-Comes (again v, w) = by_role w.node.current_role
    where
      by_role :
          (r : Role)
          → let x : Phase × World = elim r [
            | leader ↦ (in_leader v, w)
            | _ ↦ enter (leave_leader w)
          ] in
            Comes K x
      by_role leader = tt
      by_role _ = enter-Comes (leave_leader w)

  -- What holds of the variables of the next round.
  abbrev Next : Flow CandidateVars × World → Type 0
  Next (again v, w) = K v
  Next (leave, w) = Unit {0}

  end_candidate-Comes : (r : Flow CandidateVars × World) → Next r → Comes K (end_candidate r)
  unfolding end_candidate
  end_candidate-Comes (leave, w) n = enter-Comes w
  end_candidate-Comes (again v, w) n = by_role w.node.current_role
    where
      by_role :
          (r : Role)
          → let x : Phase × World = elim r [ candidate ↦ (in_candidate v, w) | _ ↦ enter w ] in
            Comes K x
      by_role candidate = inr n
      by_role _ = enter-Comes w

  candidate_rpc-Next :
      (e : Event) (v : CandidateVars) (w : World) → K v → Next (candidate_rpc e v w)
  unfolding candidate_rpc
  candidate_rpc-Next e v w k = by_role (process_rpc e w).node.current_role
    where
      by_role :
          (r : Role)
          → let x : Flow CandidateVars × World = elim r [
            | candidate ↦ (again v, process_rpc e w)
            | _ ↦ (leave, Candidate.cancel_both v (process_rpc e w))
          ] in
            Next x
      by_role candidate = k
      by_role _ = tt

  count_votes-Next :
      (rs : List VoteResult) (v : CandidateVars) (w : World)
      → ((g : ℕ) → K (record v { granted_votes = g }))
      → Next (count_votes rs v w)
  unfolding count_votes fall_back win
  count_votes-Next [] v w k = k v.granted_votes
  count_votes-Next (r ∷ rs) v w k =
      let granted = if r.granted then v.granted_votes + 1 else v.granted_votes in
      if_elim Next (ltb w.node.current_term r.term) (λ _. tt)
        λ _.
          if_elim Next (leb v.votes_needed granted) (λ _. tt)
            (λ _. count_votes-Next rs (record v { granted_votes = granted }) w (λ g. k g))

  on_vote_timer-Next :
      (v : CandidateVars) (w : World)
      → ((id : ℕ) → K (record v { vote_timer = id }))
      → ((g : ℕ) → K (record v { granted_votes = g }))
      → Next (on_vote_timer v w)
  unfolding on_vote_timer
  on_vote_timer-Next v w rearmed counted =
      if_elim Next (ltb (length w.node.current_peers) w.node.conf.minimum_quorum)
        (λ _. rearmed (after v.vote_delay w).0)
        (λ _. count_votes-Next (elect_self w).0 v (elect_self w).1 counted)

-- The votes needed are a quorum of `need`, and no vote is counted before the vote timer fired.
abbrev pub Waits : ℕ → List ℕ → CandidateVars → Type 0
Waits need fired v = (v.votes_needed ≡ need) × IsOpen fired v

abbrev pub IsCampaign : ℕ → List ℕ → Phase → Type 0
IsCampaign need fired (in_candidate v) = Waits need fired v
IsCampaign need fired _ = Unit {0}

module _ (need : ℕ) (fired : List ℕ) where
  candidate_event-Next :
      (k : EventKind) (e : Event) (v : CandidateVars) (w : World)
      → (k ≡ event_timer → has e.timer_id fired ≡ false)
      → Waits need fired v
      → Next (Waits need (note_fired k e.timer_id fired)) (candidate_event k e v w)
  unfolding candidate_event candidate_timer
  candidate_event-Next event_timer e v w once h =
      let K = Waits need (e.timer_id ∷ fired) in
      let kept : K v = ground (arith, h) in
      if_elim (Next K) (e.timer_id == v.vote_timer)
        (λ q.
          on_vote_timer-Next K v w (λ id. ground (arith, h, once refl, q))
            (λ g. ground (arith, h, q)))
        λ _. if_elim (Next K) (e.timer_id == v.election_timer) (λ _. tt) (λ _. kept)
  candidate_event-Next event_rpc e v w once h = candidate_rpc-Next (Waits need fired) e v w h
  candidate_event-Next event_set_peers e v w once h = h
  candidate_event-Next event_set_metadata e v w once h = h
  candidate_event-Next event_resign e v w once h = h
  candidate_event-Next event_shutdown e v w once h = tt

  -- What holds of a candidate's variables holds after an event, if timers fire once.
  pub receive-Comes :
      (e : Event) (p : Phase) (w : World)
      → OnlyOnce e fired
      → IsCampaign need fired p
      → Comes (Waits need (note_fired e.kind e.timer_id fired)) (receive e p w)
  unfolding receive
  receive-Comes e (in_follower v) w once h = end_follower-Comes _ (follower_event e.kind e v w)
  receive-Comes e (in_candidate v) w once h =
      end_candidate-Comes _ (candidate_event e.kind e v w)
        (candidate_event-Next e.kind e v w once h)
  receive-Comes e (in_leader v) w once h = end_leader-Comes _ (leader_event e.kind e v w)
  receive-Comes e ended w once h = tt
