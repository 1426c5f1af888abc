-- ===== src/Cluster/Counts.antt =====
-- How many members had a vote for a candidate on record, against the votes that the candidate counts.
use election_go.Base.{
  ℕ, suc, ◌+◌, ◌≡◌, ◌≢◌, ◌≤◌, refl, sym, ap, ◌∙◌, subst, String, str_eq, Bool, true, List, [], ◌∷◌,
  arith, if◌then◌else◌, length, Bool-cases, inl, inr,
}
use election_go.Engine.{failed, Peer, SendResult}
use election_go.Node.Peers.{quorum_size, peers_from_strings}
use election_go.Node.Addresses.{addresses, peers_from_strings-addresses}
use election_go.Node.World.{World, yield}
use election_go.Node.Candidate.{
  vote_targets, await_votes, nominate, take_ballot, spawn_votes, elect_self,
}
use election_go.Node.Rule.Rounds.{granted_count}
use election_go.Node.Elections.{tally, quorum_size_unique}
use election_go.Node.Answers.{is_yea, vote_answer-is_yea}
use election_go.Cluster.{is_member, AreGiven}

-- The peers as the nodes start with them.
abbrev pub electorate : List String → List Peer
electorate members = peers_from_strings members

-- A quorum of the members had a vote for `id` in this term on record.
abbrev pub IsElected : List String → (String → ℕ → String) → String → ℕ → Type 0
IsElected members cast id term =
    quorum_size (electorate members) ≤ tally (λ p. str_eq (cast p term) id) (electorate members)

-- Two members are not both elected in one term.
pub IsElected-unique :
    (members : List String) (cast : String → ℕ → String) (term : ℕ) (a b : String)
    → IsElected members cast a term
    → IsElected members cast b term
    → a ≡ b
IsElected-unique members cast term a b h k =
    quorum_size_unique (λ p. cast p term) (electorate members) a b h k

tally_mono :
    (f g : String → Bool) (peers : List Peer)
    → ((p : String) → f p ≡ true → g p ≡ true)
    → tally f peers ≤ tally g peers
tally_mono f g [] m = omega arith
tally_mono f g (p ∷ peers) m = ground (arith, tally_mono f g peers m, m p.address)

-- Each granted answer is of a peer that had the vote on record.
abbrev pub AreHonest : (String → ℕ → String) → String → ℕ → List String → List SendResult → Type 0
AreHonest cast self term [] rs = Unit {0}
AreHonest cast self term (p ∷ ps) [] = Unit {0}
AreHonest cast self term (p ∷ ps) (r ∷ rs) =
    (is_yea r ≡ true → cast p term ≡ self) × AreHonest cast self term ps rs

-- What was given is on record.
abbrev pub AreNoted : (String → ℕ → String → Bool) → (String → ℕ → String) → Type 0
AreNoted given cast = (p : String) (t : ℕ) (c : String) → given p t c ≡ true → c ≢ "" → cast p t ≡ c

pub AreGiven-AreHonest :
    (given : String → ℕ → String → Bool) (cast : String → ℕ → String) (self : String) (term : ℕ)
    (ps : List String) (rs : List SendResult)
    → AreNoted given cast
    → self ≢ ""
    → AreGiven given self term ps rs
    → AreHonest cast self term ps rs
AreGiven-AreHonest given cast self term [] rs n named h = tt
AreGiven-AreHonest given cast self term (p ∷ ps) [] n named h = tt
AreGiven-AreHonest given cast self term (p ∷ ps) (r ∷ rs) n named h =
    (λ g. n p term self (h.0 g) named, AreGiven-AreHonest given cast self term ps rs n named h.1)

-- The votes on record are never taken back.
abbrev pub Extends : (String → ℕ → String) → (String → ℕ → String) → Type 0
Extends cast cast' = (p : String) (t : ℕ) → cast p t ≢ "" → cast' p t ≡ cast p t

pub IsElected-mono :
    (members : List String) (cast cast' : String → ℕ → String) (id : String) (term : ℕ)
    → Extends cast cast'
    → id ≢ ""
    → IsElected members cast id term
    → IsElected members cast' id term
IsElected-mono members cast cast' id term x named h =
    let more =
      tally_mono (λ p. str_eq (cast p term) id) (λ p. str_eq (cast' p term) id) (electorate members)
        (λ p e. ground (arith, x p term)) in
    omega (arith, h, more)

pub AreHonest-mono :
    (cast cast' : String → ℕ → String) (self : String) (term : ℕ) (ps : List String)
    (rs : List SendResult)
    → Extends cast cast'
    → self ≢ ""
    → AreHonest cast self term ps rs
    → AreHonest cast' self term ps rs
AreHonest-mono cast cast' self term [] rs x named h = tt
AreHonest-mono cast cast' self term (p ∷ ps) [] x named h = tt
AreHonest-mono cast cast' self term (p ∷ ps) (r ∷ rs) x named h = (
  λ g. let e = h.0 g in ground (arith, x p term),
  AreHonest-mono cast cast' self term ps rs x named h.1,
)

-- How many of these names the test holds for.
abbrev pub count : (String → Bool) → List String → ℕ
count f [] = 0
count f (p ∷ ps) = (if f p then 1 else 0) + count f ps

-- The granted answers are at most the targets that had the vote on record.
pub await_votes-counted :
    (cast : String → ℕ → String) (self : String) (term : ℕ) (ps : List String)
    (rs : List SendResult) (w : World)
    → AreHonest cast self term ps rs
    → granted_count (await_votes term ps rs w).0 ≤ count (λ p. str_eq (cast p term) self) ps
unfolding await_votes
await_votes-counted cast self term [] rs w h = omega arith
await_votes-counted cast self term (p ∷ ps) [] w h =
    let rest = await_votes-counted cast self term ps [] (yield w) (none_left ps) in
    ground (arith, rest, vote_answer-is_yea term failed)
  where
    none_left : (qs : List String) → AreHonest cast self term qs []
    none_left [] = tt
    none_left (q ∷ qs) = tt
await_votes-counted cast self term (p ∷ ps) (r ∷ rs) w h =
    let rest = await_votes-counted cast self term ps rs (yield w) h.1 in
    let same = vote_answer-is_yea term r in
    elim (Bool-cases (is_yea r)) [
      | inl g ↦ rw (same, g, h.0 g) (ground (arith, rest))
      | inr g ↦ rw (same, g) (ground (arith, rest))
    ]

-- With its own vote, the targets that had the vote on record are at most all peers that had.
vote_targets-counted :
    (f : String → Bool) (self : String) (peers : List Peer)
    → f self ≡ true
    → (if is_member self (addresses peers) then 1 else 0) + count f (vote_targets self peers)
      ≤ tally f peers
unfolding vote_targets
vote_targets-counted f self [] h = omega arith
vote_targets-counted f self (p ∷ peers) h = ground (arith, vote_targets-counted f self peers h)

pub tally-addresses :
    (f : String → Bool) (peers : List Peer) → tally f peers ≡ count f (addresses peers)
tally-addresses f [] = refl
tally-addresses f (p ∷ peers) =
    ap (λ n. (if f p.address then 1 else 0) + n) (tally-addresses f peers)

length-addresses : (peers : List Peer) → length (addresses peers) ≡ length peers
length-addresses [] = refl
length-addresses (p ∷ peers) = ap suc (length-addresses peers)

pub electorate-addresses : (members : List String) → addresses (electorate members) ≡ members
electorate-addresses members = peers_from_strings-addresses members

-- Peer lists with the same addresses have the same votes and the same quorum.
pub same_tally :
    (f : String → Bool) (peers others : List Peer)
    → addresses peers ≡ addresses others
    → tally f peers ≡ tally f others
same_tally f peers others e =
    tally-addresses f peers ∙ (ap (count f) e ∙ sym (tally-addresses f others))

pub same_quorum :
    (peers others : List Peer)
    → addresses peers ≡ addresses others
    → quorum_size peers ≡ quorum_size others
unfolding quorum_size
same_quorum peers others e =
    let same : length peers ≡ length others =
      sym (length-addresses peers) ∙ (ap length e ∙ length-addresses others) in
    rw same refl

-- The granted votes of an election, the node's own among them, are at most the peers that had the
-- vote on record.
pub elect_self-counted :
    (cast : String → ℕ → String) (w : World) (answers : List SendResult)
    (more : List (List SendResult))
    → w.ballots ≡ answers ∷ more
    → let term = (nominate w.node).current_term in
      let self = w.node.self in
      let peers = w.node.current_peers in
      AreHonest cast self term (vote_targets self peers) answers
      → is_member self (addresses peers) ≡ true
      → cast self term ≡ self
      → granted_count (elect_self w).0 ≤ tally (λ p. str_eq (cast p term) self) peers
unfolding elect_self take_ballot nominate
elect_self-counted cast w answers more b h m own =
    let term = (nominate w.node).current_term in
    let self = w.node.self in
    let peers = w.node.current_peers in
    let targets = vote_targets self peers in
    let (results, w1) = take_ballot (record w { node = nominate w.node }) in
    let first : results ≡ answers = ground (arith, b) in
    let w2 = spawn_votes (record { term = term; candidate = self }) targets w1 in
    let honest = subst (λ rs. AreHonest cast self term targets rs) (sym first) h in
    let counted = await_votes-counted cast self term targets results w2 honest in
    let given =
      vote_targets-counted (λ p. str_eq (cast p term) self) self peers (ground (arith, own)) in
    let given' = rw m at given in omega (arith, counted, given')
