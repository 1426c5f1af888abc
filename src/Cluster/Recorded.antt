-- ===== src/Cluster/Recorded.antt =====
-- `runCandidate` of election.go: what an election leaves in the node's term and vote.
use election_go.Base.{
  ℕ, ◌≡◌, refl, sym, ap, ◌∙◌, subst, String, false, List, [], ◌∷◌, arith, ltb, leb, if_elim, length,
  if◌then◌else◌, ◌+◌,
}
use election_go.Engine.{SendResult}
use election_go.Node.State.{Role, follower, candidate, leader, shutdown, Node, Vote}
use election_go.Node.World.{World, set_leader, fire_on_change, yield}
use election_go.Node.Handlers.{with_role}
use election_go.Node.Follower.{Flow, again, leave}
use election_go.Node.Candidate.{
  VoteResult, CandidateVars, count_won, await_votes, nominate, elect_self, fall_back, win,
  count_votes, on_vote_timer,
}
use election_go.Node.Run.{Phase, in_candidate, enter_role, enter, end_candidate}
use election_go.Node.Phases.{
  cancel-Steady, enter_follower-Steady, enter_candidate-Steady, enter_leader-Steady,
}
use election_go.Node.Rule.Rounds.{campaign-Same, await_votes-Steady}
use election_go.Node.Votes.{AreCalm}
use election_go.Cluster.Calm.{yield-calm}

abbrev pub voted : World → Vote
voted w = w.node.vote

enter_role-vote : (r : Role) (w : World) → voted (enter_role r w).1 ≡ voted w
unfolding enter_role
enter_role-vote follower w = (enter_follower-Steady w).vote
enter_role-vote candidate w = (enter_candidate-Steady w).vote
enter_role-vote leader w = (enter_leader-Steady w).vote
enter_role-vote shutdown w = refl

pub enter-vote : (w : World) → voted (enter w).1 ≡ voted w
unfolding enter
enter-vote w = enter_role-vote w.node.current_role w

pub end_candidate-vote : (r : Flow CandidateVars × World) → voted (end_candidate r).1 ≡ voted r.1
unfolding end_candidate
end_candidate-vote (leave, w) = enter-vote w
end_candidate-vote (again v, w) = by_role w.node.current_role
  where
    by_role :
        (r : Role)
        → let x : Phase × World = elim r [ candidate ↦ (in_candidate v, w) | _ ↦ enter w ] in
          voted x.1 ≡ voted w
    by_role candidate = refl
    by_role _ = enter-vote w

set_leader-vote : (l : String) (w : World) → voted (set_leader l w) ≡ voted w
unfolding set_leader fire_on_change
set_leader-vote l w = ground arith

fall_back-vote : (t : ℕ) (v : CandidateVars) (w : World) → voted (fall_back t v w).1 ≡ voted w
unfolding fall_back
fall_back-vote t v w = (cancel-Steady _ _).vote

win-vote : (v : CandidateVars) (w : World) → voted (win v w).1 ≡ voted w
unfolding win
win-vote v w =
    (cancel-Steady _ _).vote
    ∙ ((cancel-Steady _ _).vote
        ∙ set_leader-vote w.node.self (record w { node = count_won (with_role leader w.node) }))

abbrev Leaves : World → Flow CandidateVars × World → Type 0
Leaves w r = voted r.1 ≡ voted w

count_votes-vote :
    (rs : List VoteResult) (v : CandidateVars) (w : World) → Leaves w (count_votes rs v w)
unfolding count_votes
count_votes-vote [] v w = refl
count_votes-vote (r ∷ rs) v w =
    let granted = if r.granted then v.granted_votes + 1 else v.granted_votes in
    let v' : CandidateVars = record v { granted_votes = granted } in
    if_elim (Leaves w) (ltb w.node.current_term r.term) (λ _. fall_back-vote r.term v w)
      λ _.
        if_elim (Leaves w) (leb v.votes_needed granted) (λ _. win-vote v' w)
          (λ _. count_votes-vote rs v' w)

await_votes-calm :
    (t : ℕ) (ps : List String) (rs : List SendResult) (w : World)
    → AreCalm w.ticks
    → ((await_votes t ps rs w).1.node.current_term ≡ w.node.current_term)
      × AreCalm (await_votes t ps rs w).1.ticks
unfolding await_votes
await_votes-calm t [] rs w c = (refl, c)
await_votes-calm t (p ∷ ps) [] w c =
    let (e, c') = yield-calm w c in
    let rest = await_votes-calm t ps [] (yield w) c' in (rest.0 ∙ e, rest.1)
await_votes-calm t (p ∷ ps) (r ∷ rs) w c =
    let (e, c') = yield-calm w c in
    let rest = await_votes-calm t ps rs (yield w) c' in (rest.0 ∙ e, rest.1)

-- An election that no reply with a newer term interrupts ends in the term of the node's own vote.
pub elect_self-calm :
    (w : World)
    → AreCalm w.ticks
    → (elect_self w).1.node.current_term ≡ (nominate w.node).current_term
unfolding elect_self
elect_self-calm w c =
    let started : World = record w { node = nominate w.node } in
    let same = campaign-Same _ _ started in
    (await_votes-calm _ _ _ _ (subst AreCalm (sym same.ticks) c)).0
    ∙ ap (λ (n : Node). n.current_term) same.node

elect_self-vote : (w : World) → voted (elect_self w).1 ≡ (nominate w.node).vote
unfolding elect_self
elect_self-vote w =
    (await_votes-Steady _ _ _ _).vote
    ∙ ap (λ (n : Node). n.vote) (campaign-Same _ _ (record w { node = nominate w.node })).node

-- After its vote timer, a candidate with enough peers has its own vote on record.
pub vote_timer-vote :
    (v : CandidateVars) (w : World)
    → ltb (length w.node.current_peers) w.node.conf.minimum_quorum ≡ false
    → voted (end_candidate (on_vote_timer v w)).1 ≡ (nominate w.node).vote
unfolding on_vote_timer
vote_timer-vote v w e =
    let w1 = (elect_self w).1 in
    end_candidate-vote (on_vote_timer v w)
    ∙ rw e (count_votes-vote (elect_self w).0 v w1 ∙ elect_self-vote w)
