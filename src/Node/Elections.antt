-- ===== src/Node/Elections.antt =====
-- Counting votes: `quorumSize`, the loop over `pendingVotes` in `runCandidate`, and `electSelf`.
use election_go.Base.{
  ◌⊎◌, ℕ, ◌+◌, ◌*◌, ◌≤◌, ◌<◌, String, ◌≡◌, ◌≢◌, refl, sym, none, ap, ◌∙◌, Bool, true, false, List,
  [], ◌∷◌, All, arith, str_eq, str_dec, leb, ltb, if◌then◌else◌, length, length-map,
}
use election_go.Engine.{Bytes, Peer, SendResult, Event, event_set_peers}
use election_go.Node.State.{Node, leader}
use election_go.Node.Peers.{quorum_size, apply_self_metadata, peers_from_strings}
use election_go.Node.Handlers.{with_role, with_peers, handle_set_peers}
use election_go.Node.Rule.Handlers.{finish_with-Same}
use election_go.Node.World.{World, set_leader, fire_on_change, yield, advance}
use election_go.Node.Follower.{Flow, again}
use election_go.Node.Candidate.{
  VoteResult, CandidateVars, nominate, count_won, candidate_event, await_votes, elect_self, win,
  count_votes, on_vote_timer,
}
use election_go.Node.Phases.{cancel-Steady}
use election_go.Node.Rule.Rounds.{granted_count, campaign-Same}

-- How many peers answer yes.
abbrev pub tally : (String → Bool) → List Peer → ℕ
tally f [] = 0
tally f (p ∷ peers) = (if f p.address then 1 else 0) + tally f peers

tally_disjoint :
    (choice : String → String) (a b : String) (peers : List Peer)
    → a ≢ b
    → tally (λ x. str_eq (choice x) a) peers + tally (λ x. str_eq (choice x) b) peers ≤ length peers
tally_disjoint choice a b [] n = omega arith
tally_disjoint choice a b (p ∷ peers) n = ground (arith, tally_disjoint choice a b peers n)

-- A quorum is more than half of the peers, one vote where there are none, and never more than all
-- of them otherwise.
pub quorum_size-majority :
    (peers : List Peer)
    → (length peers < 2 * quorum_size peers)
      × (0 < quorum_size peers)
      × ((length peers ≡ 0) ⊎ (quorum_size peers ≤ length peers))
unfolding quorum_size
quorum_size-majority peers = ground arith

-- If every peer votes for one candidate, two candidates that each have the votes of a quorum of the
-- same peer list are the same one.
pub quorum_size_unique :
    (choice : String → String) (peers : List Peer) (a b : String)
    → quorum_size peers ≤ tally (λ x. str_eq (choice x) a) peers
    → quorum_size peers ≤ tally (λ x. str_eq (choice x) b) peers
    → a ≡ b
quorum_size_unique choice peers a b h k = elim (str_dec a b) [
  | yes e ↦ e
  | no n ↦ absurd (omega (arith, tally_disjoint choice a b peers n, (quorum_size-majority peers).0))
]

-- The votes of an election in which no voter has a newer term.
abbrev pub NoneNewer : ℕ → List VoteResult → Type 0
NoneNewer term rs = All (λ r. r.term ≤ term) rs

-- With no newer term among them, and votes still needed before, the votes make the candidate leader
-- exactly if the granted ones reach the votes needed; otherwise it goes on waiting, with those votes
-- counted.
pub count_votes-outcome :
    (rs : List VoteResult) (v : CandidateVars) (w : World)
    → NoneNewer w.node.current_term rs
    → v.granted_votes < v.votes_needed
    → count_votes rs v w ≡ (
        let total = v.granted_votes + granted_count rs in
        if leb v.votes_needed total
        then win (record v { granted_votes = v.votes_needed }) w
        else (again (record v { granted_votes = total }), w))
unfolding count_votes
count_votes-outcome [] v w n h = ground arith
count_votes-outcome (r ∷ rs) v w n h = ground (
  arith,
  count_votes-outcome rs
      (record v { granted_votes = if r.granted then v.granted_votes + 1 else v.granted_votes }) w
      n.1,
)

length-apply_self_metadata :
    (self : String) (m : Bytes) (ps : List Peer)
    → length (apply_self_metadata self m ps) ≡ length ps
unfolding apply_self_metadata
length-apply_self_metadata self m [] = refl
length-apply_self_metadata self m (p ∷ ps) = ground (arith, length-apply_self_metadata self m ps)

length-peers_from_strings : (addrs : List String) → length (peers_from_strings addrs) ≡ length addrs
unfolding peers_from_strings
length-peers_from_strings addrs = length-map addrs _

pub yield-idle : (w : World) → w.ticks ≡ [] → yield w ≡ w
unfolding yield advance
yield-idle w e = ap (λ ts. advance ts w) e

await_votes-idle :
    (t : ℕ) (as' : List String) (rs : List SendResult) (w : World)
    → w.ticks ≡ []
    → (await_votes t as' rs w).1 ≡ w
unfolding await_votes
await_votes-idle t [] rs w e = refl
await_votes-idle t (a ∷ as') [] w e = rw (yield-idle w e) (await_votes-idle t as' [] w e)
await_votes-idle t (a ∷ as') (r ∷ rs) w e = rw (yield-idle w e) (await_votes-idle t as' rs w e)

set_leader-role :
    (l : String) (w : World) → (set_leader l w).node.current_role ≡ w.node.current_role
unfolding set_leader fire_on_change
set_leader-role l w = ground arith

handle_set_peers-length :
    (e : Event) (addrs : List String) (w : World)
    → length (handle_set_peers e addrs w).node.current_peers ≡ length addrs
unfolding handle_set_peers
handle_set_peers-length e addrs w =
    ap (λ (n : Node). length n.current_peers) (finish_with-Same e.done none _).node
    ∙ (length-apply_self_metadata _ _ _ ∙ length-peers_from_strings addrs)

handle_set_peers-kept :
    (e : Event) (addrs : List String) (w : World)
    → let v = handle_set_peers e addrs w in (v.ticks ≡ w.ticks) × (v.node.conf ≡ w.node.conf)
unfolding handle_set_peers
handle_set_peers-kept e addrs w =
    let s = finish_with-Same e.done none (record w {
      node =
          with_peers
            (apply_self_metadata w.node.self w.node.current_metadata (peers_from_strings addrs))
            w.node;
    }) in
    (s.ticks, ap (λ (n : Node). n.conf) s.node)

pub win-leads : (v : CandidateVars) (w : World) → (win v w).1.node.current_role ≡ leader
unfolding win
win-leads v w = (cancel-Steady _ _).current_role ∙ ((cancel-Steady _ _).current_role ∙ led)
  where
    led :
        (set_leader w.node.self
          (record w { node = count_won (with_role leader w.node) })).node.current_role
        ≡ leader
    led = set_leader-role _ _

-- After an election that no other coroutine interrupts, the node's term is that of its own vote.
pub elect_self-term :
    (w : World) → w.ticks ≡ [] → (elect_self w).1.node.current_term ≡ (nominate w.node).current_term
unfolding elect_self
elect_self-term w t =
    let started : World = record w { node = nominate w.node } in
    let same = campaign-Same _ _ started in
    ap (λ (x : World). x.node.current_term) (await_votes-idle _ _ _ _ (same.ticks ∙ t))
    ∙ ap (λ (n : Node). n.current_term) same.node

count_votes-enough :
    (r : VoteResult) (rs : List VoteResult) (v : CandidateVars) (w : World)
    → r.granted ≡ true
    → r.term ≡ w.node.current_term
    → v.votes_needed ≤ v.granted_votes + 1
    → count_votes (r ∷ rs) v w ≡ win (record v { granted_votes = v.granted_votes + 1 }) w
unfolding count_votes
count_votes-enough r rs v w g t n = ground arith

-- The node's own vote is counted first, and no other coroutine has changed the term.
pub own_vote-wins :
    (v : CandidateVars) (w : World)
    → w.ticks ≡ []
    → v.votes_needed ≤ v.granted_votes + 1
    → w.node.conf.minimum_quorum ≤ length w.node.current_peers
    → (on_vote_timer v w).1.node.current_role ≡ leader
unfolding on_vote_timer elect_self
own_vote-wins v w t n m =
    let enough : ltb (length w.node.current_peers) w.node.conf.minimum_quorum ≡ false =
      ground arith in
    let won = count_votes-enough _ _ v (elect_self w).1 refl (sym (elect_self-term w t)) n in
    rw enough (ap (λ (x : Flow CandidateVars × World). x.1.node.current_role) won ∙ win-leads _ _)

-- The votes that a candidacy needs are those of its start. If the peer list is replaced before the
-- vote timer fires and no other coroutine runs, a candidate that needs one vote more becomes leader
-- by its own vote, however many peers the new list has and whatever they answer.
pub set_peers-stale_quorum :
    (e : Event) (v : CandidateVars) (w : World)
    → w.ticks ≡ []
    → v.votes_needed ≤ v.granted_votes + 1
    → w.node.conf.minimum_quorum ≤ length e.peers
    → let x = candidate_event event_set_peers e v w in
      (x.0 ≡ again v)
      × (length x.1.node.current_peers ≡ length e.peers)
      × ((on_vote_timer v x.1).1.node.current_role ≡ leader)
unfolding candidate_event
set_peers-stale_quorum e v w t n m =
    let x : World = handle_set_peers e e.peers w in
    let size = handle_set_peers-length e e.peers w in
    let same = handle_set_peers-kept e e.peers w in
    (refl, size, own_vote-wins v x (same.0 ∙ t) n (rw (size, same.1) m))
