-- ===== src/Cluster/Election.antt =====
-- `runCandidate` of election.go: a candidate that wins by its vote timer has a quorum on record.
use election_go.Base.{
  ℕ, ◌+◌, ◌≡◌, ◌≤◌, sym, ap, ◌∙◌, subst, String, str_eq, true, false, List, [], ◌∷◌, arith, ltb,
  if_elim, length,
}
use election_go.Engine.{Event, event_timer, SendResult}
use election_go.Node.State.{candidate}
use election_go.Node.Peers.{quorum_size}
use election_go.Node.Addresses.{addresses}
use election_go.Node.World.{World}
use election_go.Node.Follower.{Flow}
use election_go.Node.Candidate.{
  CandidateVars, vote_targets, nominate, elect_self, on_vote_timer, candidate_timer,
  candidate_event,
}
use election_go.Node.Run.{in_candidate, end_candidate, receive}
use election_go.Node.Elections.{tally}
use election_go.Node.Rule.Handlers.{after-Closed}
use election_go.Node.Rule.Rounds.{
  granted_count, elect_self-role, campaign-Closed, count_votes-Closed,
}
use election_go.Node.Published.{AnyRequest}
use election_go.Cluster.{is_member}
use election_go.Cluster.Counts.{
  AreHonest, electorate, electorate-addresses, same_tally, elect_self-counted,
}
use election_go.Cluster.Recorded.{elect_self-calm}
use election_go.Cluster.Led.{IsLed, IsLed-Closed, idle-IsLed, set_leader-IsLed}

candidate_event-vote_timer :
    (e : Event) (v : CandidateVars) (w : World)
    → e.kind ≡ event_timer
    → e.timer_id ≡ v.vote_timer
    → candidate_event e.kind e v w ≡ on_vote_timer v w
unfolding candidate_event candidate_timer
candidate_event-vote_timer e v w k q = rw k (ground (arith, q))

pub receive-vote_timer :
    (e : Event) (v : CandidateVars) (w : World)
    → e.kind ≡ event_timer
    → e.timer_id ≡ v.vote_timer
    → receive e (in_candidate v) w ≡ end_candidate (on_vote_timer v w)
unfolding receive
receive-vote_timer e v w k q = ap end_candidate (candidate_event-vote_timer e v w k q)

-- The members that have a vote of this term for `self` on record.
abbrev pub supporters : List String → (String → ℕ → String) → String → ℕ → ℕ
supporters members cast self term = tally (λ p. str_eq (cast p term) self) (electorate members)

abbrev pub majority : List String → ℕ
majority members = quorum_size (electorate members)

abbrev pub Leads : List String → (String → ℕ → String) → String → World → Type 0
Leads members cast self w = IsLed AnyRequest (majority members) (supporters members cast self) w

-- A candidate whose vote timer fires, the answers that it gets, and the votes on record after them.
pub record IsBallot (members : List String) (cast : String → ℕ → String) (self : String)
    (v : CandidateVars) (w : World) (answers : List SendResult) : Type 0 where
  pub ballots : w.ballots ≡ answers ∷ []
  pub role : w.node.current_role ≡ candidate
  pub peers : addresses w.node.current_peers ≡ members
  pub member : is_member self members ≡ true
  pub needs : v.votes_needed ≡ majority members
  pub none_counted : v.granted_votes ≡ 0
  pub honest :
      let n = nominate w.node in
      AreHonest cast self n.current_term (vote_targets self n.current_peers) answers
  pub own :
      ltb (length w.node.current_peers) w.node.conf.minimum_quorum ≡ false
      → cast self (nominate w.node).current_term ≡ self

module _ (members : List String) (cast : String → ℕ → String) (v : CandidateVars) (w : World)
    (answers : List SendResult) (b : IsBallot members cast w.node.self v w answers)
    (h : Leads members cast w.node.self w) where
  enough_supporters :
      ltb (length w.node.current_peers) w.node.conf.minimum_quorum ≡ false
      → v.votes_needed ≤ v.granted_votes + granted_count (elect_self w).0
      → majority members ≤ supporters members cast w.node.self (elect_self w).1.node.current_term
  unfolding nominate
  enough_supporters e q =
      let self = w.node.self in
      let term = (nominate w.node).current_term in
      let here = subst (λ ms. is_member self ms ≡ true) (sym b.peers) b.member in
      let counted = elect_self-counted cast w answers [] b.ballots b.honest here (b.own e) in
      let same =
        same_tally (λ p. str_eq (cast p term) self) w.node.current_peers (electorate members)
          (b.peers ∙ sym (electorate-addresses members)) in
      rw (elect_self-calm w h.calm) (omega (arith, q, b.needs, b.none_counted, counted, same))

  own_timer-Leads : Leads members cast w.node.self (on_vote_timer v w).1
  unfolding on_vote_timer nominate
  own_timer-Leads =
      let closed =
        IsLed-Closed AnyRequest (majority members) (supporters members cast w.node.self) in
      let started : World = record w { node = nominate w.node } in
      let role = elect_self-role w ∙ b.role in
      let h1 = campaign-Closed closed w (
        idle-IsLed AnyRequest (majority members) (supporters members cast w.node.self) started
          h.calm (λ q. ground (arith, b.role, q))) in
      if_elim (λ (r : Flow CandidateVars × World). Leads members cast w.node.self r.1)
        (ltb (length w.node.current_peers) w.node.conf.minimum_quorum)
        (λ _. after-Closed closed _ _ h)
        (λ e.
          count_votes-Closed closed (elect_self w).0 v (elect_self w).1
            (λ q.
              set_leader-IsLed AnyRequest (majority members) (supporters members cast w.node.self) _
                _ (record { calm = h1.calm; led = λ _. enough_supporters e q }))
            role h1)

-- A candidate that becomes leader by its vote timer has a majority of votes on record in its term.
pub on_vote_timer-Leads :
    (members : List String) (cast : String → ℕ → String) (self : String) (v : CandidateVars)
    (w : World) (answers : List SendResult)
    → w.node.self ≡ self
    → IsBallot members cast self v w answers
    → Leads members cast self w
    → Leads members cast self (on_vote_timer v w).1
on_vote_timer-Leads members cast self v w answers named b h =
    subst
      (λ s.
        IsBallot members cast s v w answers
        → Leads members cast s w
        → Leads members cast s (on_vote_timer v w).1)
      named (own_timer-Leads members cast v w answers) b h
