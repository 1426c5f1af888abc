-- ===== src/Cluster/Won.antt =====
-- election.go: the vote timer of a candidate whom all other members give their votes.
use election_go.Base.{
  ℕ, suc, ◌+◌, ◌≡◌, ◌≤◌, ◌<◌, refl, sym, ap, ◌∙◌, subst, String, Bool, true, List, [], ◌∷◌, arith,
  All, length, leb,
}
use native.Mathlib.Nat.{le_refl}
use election_go.Engine.{SendResult, replied, vote_resp}
use election_go.Node.State.{Config, leader}
use election_go.Node.World.{World, yield, advance, interleave}
use election_go.Node.Candidate.{CandidateVars, nominate, vote_targets}
use election_go.Node.Run.{Phase, in_follower, in_candidate, in_leader, ended, receive}
use election_go.Node.Elections.{quorum_size-majority}
use election_go.Node.Elected.{receive-elects}
use election_go.Node.Answers.{yeas, AreCurrent}
use election_go.Node.Alone.Start.{fires}
use election_go.Cluster.{AreGiven, facing, take_turn}
use election_go.Cluster.Stand.{fires_at, IsStanding, Stands}
use election_go.Cluster.Others.{
  others, vote_targets-others, AreDistinct, others-quorum, length-addresses,
}

abbrev granted : SendResult
granted = replied (record {
  rpc = "vote";
  response = vote_resp (record { term = 1; granted = true });
  error = "";
})

abbrev pub answers : List String → List SendResult
answers [] = []
answers (_ ∷ ms) = granted ∷ answers ms

length-answers : (ms : List String) → length (answers ms) ≡ length ms
length-answers [] = refl
length-answers (m ∷ ms) = ap suc (length-answers ms)

answers-yeas : (ms : List String) → yeas (answers ms) ≡ length ms
answers-yeas [] = refl
answers-yeas (m ∷ ms) = let r = answers-yeas ms in omega arith

answers-AreCurrent : (ms : List String) → AreCurrent 1 (answers ms)
answers-AreCurrent [] = tt
answers-AreCurrent (m ∷ ms) = (le_refl 1, answers-AreCurrent ms)

pub answers-AreGiven :
    (given : String → ℕ → String → Bool) (self : String) (ms : List String)
    → All (λ m. given m 1 self ≡ true) ms
    → AreGiven given self 1 ms (answers ms)
answers-AreGiven given self [] g = tt
answers-AreGiven given self (m ∷ ms) g = (λ _. g.0, answers-AreGiven given self ms g.1)

module _ (conf : Config) (v : CandidateVars) (w : World) (s : IsStanding conf v w) where
  pub standing-asks :
      vote_targets w.node.self w.node.current_peers ≡ others conf.unique_id conf.peers
  standing-asks =
      rw (s.named, vote_targets-others conf.unique_id w.node.current_peers, s.peers) refl

  standing-nominate : (nominate w.node).current_term ≡ 1
  unfolding nominate
  standing-nominate = rw s.term refl

  standing-enough :
      conf.minimum_quorum ≤ length conf.peers
      → w.node.conf.minimum_quorum ≤ length w.node.current_peers
  standing-enough m = rw (s.minimum, sym (length-addresses w.node.current_peers), s.peers) m

  standing-quorum :
      AreDistinct conf.peers → v.votes_needed ≤ 1 + length (others conf.unique_id conf.peers)
  standing-quorum d =
      rw (s.needs, sym s.peers) (others-quorum conf.unique_id w.node.current_peers (rw s.peers d))

  standing-needs : v.granted_votes < v.votes_needed
  standing-needs =
      let q = quorum_size-majority w.node.current_peers in
      omega (arith, q.0, s.needs, s.none_counted)

-- With the votes of all others, a candidate leads when its vote timer fires.
pub standing-leads :
    (conf : Config) (x : Phase × World)
    → AreDistinct conf.peers
    → conf.minimum_quorum ≤ length conf.peers
    → Stands conf x
    → (take_turn (fires_at 3 0 (answers (others conf.unique_id conf.peers))) x).1.node.current_role
      ≡ leader
unfolding yield advance interleave nominate
standing-leads conf (in_candidate v, w) d m s =
    let ms = others conf.unique_id conf.peers in
    let here = facing (fires_at 3 0 (answers ms)) w in
    let one : (nominate here.node).current_term ≡ 1 = standing-nominate conf v w s in
    let asked : length (answers ms) ≡ length (vote_targets w.node.self w.node.current_peers) =
      length-answers ms ∙ ap (λ ts. length ts) (sym (standing-asks conf v w s)) in
    let elects =
      receive-elects v here (answers ms) [] refl s.role refl asked (standing-enough conf v w s m)
        (standing-needs conf v w s) (rw one (answers-AreCurrent ms)) in
    let count = answers-yeas ms in
    let q = standing-quorum conf v w s d in
    let enough : leb v.votes_needed (v.granted_votes + (1 + yeas (answers ms))) ≡ true =
      ground (arith, q, count, s.none_counted) in
    subst (λ i. (receive (fires i) (in_candidate v) here).1.node.current_role ≡ leader) s.timer
      (rw enough at elects)
standing-leads conf (in_follower v, w) d m s = absurd s
standing-leads conf (in_leader v, w) d m s = absurd s
standing-leads conf (ended, w) d m s = absurd s
