-- ===== src/Cluster/Sound.antt =====
-- The invariant of a cluster, and that every turn keeps it.
use election_go.Base.{
  ℕ, ◌≡◌, ◌≢◌, ◌<◌, ◌⊎◌, inl, inr, ap, subst, String, str_eq, List, arith, Bool-cases,
}
use election_go.Node.State.{leader, Vote}
use election_go.Node.World.{World}
use election_go.Node.Run.{Phase}
use election_go.Node.Phases.{Matches}
use election_go.Node.Ballot.{HasNoFutureVote}
use election_go.Node.Votes.{VoteKept}
use election_go.Cluster.{note}
use election_go.Cluster.Counts.{Extends, IsElected}
use election_go.Cluster.Campaign.{IsCampaign}
use election_go.Cluster.Grouped.{IsGrouped}
use election_go.Cluster.Election.{majority}

-- What is noted of a node's votes is older than its vote, or is its vote.
abbrev pub IsNoted : (ℕ → String) → Vote → Type 0
IsNoted cast v =
    (t : ℕ) → cast t ≢ "" → (t < v.last_term) ⊎ ((t ≡ v.last_term) × (cast t ≡ v.last_candidate))

pub record IsSound (members : List String) (cast : String → ℕ → String) (fired : List ℕ)
    (id : String) (x : Phase × World) : Type 0 where
  pub matches : Matches x
  pub grouped : IsGrouped members id x.1
  pub behind : HasNoFutureVote x.1.node
  pub noted : IsNoted (cast id) x.1.node.vote
  pub led : x.1.node.current_role ≡ leader → IsElected members cast id x.1.node.current_term
  pub campaign : IsCampaign (majority members) fired x.0

-- A vote that follows another by the rules is noted without taking one back.
pub note-Extends :
    (id : String) (old new : Vote) (cast : String → ℕ → String)
    → IsNoted (cast id) old
    → VoteKept old new
    → Extends cast (note id new cast)
note-Extends id old new cast n k p t e = elim (Bool-cases (str_eq p id)) [
  | inl q ↦
      let same : p ≡ id = ground (arith, q) in
      let here = subst (λ x. cast x t ≢ "") same e in
      let there : cast p t ≡ cast id t = ap (λ x. cast x t) same in
      ground (arith, n t here, k, there)
  | inr q ↦ ground (arith, q)
]

pub note-IsNoted :
    (id : String) (old new : Vote) (cast : String → ℕ → String)
    → IsNoted (cast id) old
    → VoteKept old new
    → IsNoted (note id new cast id) new
note-IsNoted id old new cast n k t e = ground (arith, n t, k)

pub note-own :
    (id : String) (v : Vote) (cast : String → ℕ → String)
    → v.last_candidate ≢ ""
    → note id v cast id v.last_term ≡ v.last_candidate
note-own id v cast e = ground arith
