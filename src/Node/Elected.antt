-- ===== src/Node/Elected.antt =====
-- `runCandidate` of election.go: the vote timer, with the answers of the peers.
use election_go.Base.{
  ℕ, ◌+◌, ◌≡◌, ◌<◌, ◌≤◌, refl, sym, subst, ap, ◌∙◌, true, false, Bool-cases, List, [], ◌∷◌, inl,
  inr, arith, length, ltb, leb, if◌then◌else◌, String,
}
use native.Mathlib.Nat.{le_refl}
use election_go.Engine.{SendResult, failed, replied}
use election_go.Node.State.{Role, candidate, leader}
use election_go.Node.World.{World, yield}
use election_go.Node.Follower.{again}
use election_go.Node.Candidate.{
  VoteResult, CandidateVars, vote_targets, vote_answer, vote_result, await_votes, nominate,
  take_ballot, elect_self, count_votes, on_vote_timer, candidate_event,
}
use election_go.Node.Answers.{yeas, AreCurrent, vote_answer-is_yea}
use election_go.Node.Run.{Phase, in_candidate, enter, end_candidate, receive}
use election_go.Node.Elections.{NoneNewer, count_votes-outcome, elect_self-term, win-leads}
use election_go.Node.Rule.Rounds.{granted_count, elect_self-role}
use election_go.Node.Alone.Start.{fires, candidate_timer-vote, end_candidate-leads}

-- The answers to the vote requests of a term, as votes.
abbrev as_votes : ℕ → List SendResult → List VoteResult
as_votes term [] = []
as_votes term (r ∷ rs) = vote_result (vote_answer term r) ∷ as_votes term rs

as_votes-yeas : (term : ℕ) (rs : List SendResult) → granted_count (as_votes term rs) ≡ yeas rs
as_votes-yeas term [] = refl
as_votes-yeas term (r ∷ rs) = rw (vote_answer-is_yea term r, as_votes-yeas term rs) refl

as_votes-NoneNewer :
    (term : ℕ) (rs : List SendResult) → AreCurrent term rs → NoneNewer term (as_votes term rs)
unfolding vote_answer
as_votes-NoneNewer term [] c = tt
as_votes-NoneNewer term (failed ∷ rs) c = (le_refl term, as_votes-NoneNewer term rs c)
as_votes-NoneNewer term (replied r ∷ rs) c = (ground (arith, c.0), as_votes-NoneNewer term rs c.1)

await_votes-as_votes :
    (t : ℕ) (as' : List String) (rs : List SendResult) (w : World)
    → length rs ≡ length as'
    → (await_votes t as' rs w).0 ≡ as_votes t rs
unfolding await_votes
await_votes-as_votes t [] [] w e = refl
await_votes-as_votes t [] (r ∷ rs) w e = absurd (omega (arith, e))
await_votes-as_votes t (a ∷ as') [] w e = absurd (omega (arith, e))
await_votes-as_votes t (a ∷ as') (r ∷ rs) w e =
    ap (λ vs. vote_result (vote_answer t r) ∷ vs)
      (await_votes-as_votes t as' rs (yield w) (omega (arith, e)))

abbrev own_vote : ℕ → VoteResult
own_vote term = record { granted = true; term = term }

elect_self-as_votes :
    (w : World) (answers : List SendResult) (more : List (List SendResult))
    → w.ballots ≡ answers ∷ more
    → length answers ≡ length (vote_targets w.node.self w.node.current_peers)
    → let term = (nominate w.node).current_term in
      (elect_self w).0 ≡ own_vote term ∷ as_votes term answers
unfolding elect_self take_ballot nominate
elect_self-as_votes w answers more b l =
    let term = (nominate w.node).current_term in
    rw b (ap (λ vs. own_vote term ∷ vs) (await_votes-as_votes term _ answers _ l))

end_candidate-stays :
    (v : CandidateVars) (w : World)
    → w.node.current_role ≡ candidate
    → (end_candidate (again v, w)).1.node.current_role ≡ candidate
unfolding end_candidate
end_candidate-stays v w e = by_role w.node.current_role e
  where
    by_role :
        (r : Role)
        → r ≡ candidate
        → let x : Phase × World = elim r [ candidate ↦ (in_candidate v, w) | _ ↦ enter w ] in
          x.1.node.current_role ≡ candidate
    by_role candidate q = e
    by_role _ q = absurd (cc)

count_votes-role :
    (rs : List VoteResult) (v : CandidateVars) (w : World)
    → w.node.current_role ≡ candidate
    → NoneNewer w.node.current_term rs
    → v.granted_votes < v.votes_needed
    → (end_candidate (count_votes rs v w)).1.node.current_role
      ≡ (if leb v.votes_needed (v.granted_votes + granted_count rs) then leader else candidate)
count_votes-role rs v w c n h =
    let total = v.granted_votes + granted_count rs in
    let all = count_votes-outcome rs v w n h in
    elim (Bool-cases (leb v.votes_needed total)) [
      | inl e ↦
          rw (all, e)
            (end_candidate-leads _ (win-leads (record v { granted_votes = v.votes_needed }) w))
      | inr e ↦ rw (all, e) (end_candidate-stays (record v { granted_votes = total }) w c)
    ]

pub receive-elects :
    (v : CandidateVars) (w : World) (answers : List SendResult) (more : List (List SendResult))
    → w.ticks ≡ []
    → w.node.current_role ≡ candidate
    → w.ballots ≡ answers ∷ more
    → length answers ≡ length (vote_targets w.node.self w.node.current_peers)
    → w.node.conf.minimum_quorum ≤ length w.node.current_peers
    → v.granted_votes < v.votes_needed
    → AreCurrent (nominate w.node).current_term answers
    → (receive (fires v.vote_timer) (in_candidate v) w).1.node.current_role
      ≡ (if leb v.votes_needed (v.granted_votes + (1 + yeas answers)) then leader else candidate)
unfolding receive candidate_event on_vote_timer
receive-elects v w answers more t c b l m h n =
    let term = (nominate w.node).current_term in
    let votes = own_vote term ∷ as_votes term answers in
    let enough : ltb (length w.node.current_peers) w.node.conf.minimum_quorum ≡ false =
      ground arith in
    let cast = elect_self-as_votes w answers more b l in
    let at = elect_self-term w t in
    let w' = (elect_self w).1 in
    let n' = as_votes-NoneNewer term answers n in
    let none_newer = subst (λ x. NoneNewer x votes) (sym at) (le_refl term, n') in
    rw
      (
        candidate_timer-vote v.vote_timer v w refl,
        on_vote_timer,
        enough,
        cast,
        sym (as_votes-yeas term answers),
      )
      (count_votes-role votes v w' (elect_self-role w ∙ c) none_newer h)
