-- ===== src/Cluster/Given.antt =====
-- `handleVote` of election.go in a turn: a vote that is granted is on record after the turn.
use election_go.Base.{
  ℕ, ◌≡◌, ◌==◌, refl, ap, ◌∙◌, sym, subst, true, Bool, Bool-cases, inl, inr, String, str_eq,
  if_elim, Option, some, none, arith, ◌&&◌, if◌then◌else◌,
}
use election_go.Engine.{VoteReq, Request, vote_req, Event, EventKind, event_rpc}
use election_go.Node.State.{Role, follower, candidate, leader, shutdown, Node, Vote}
use election_go.Node.World.{World, now}
use election_go.Node.Steady.{yield-Steady}
use election_go.Node.Handlers.{
  decide_vote, record_contact, handle_vote, process_request, process_rpc,
}
use election_go.Node.Follower.{Flow, again, leave, FollowerVars, follower_event}
use election_go.Node.Candidate
use election_go.Node.Candidate.{CandidateVars, candidate_rpc, candidate_event}
use election_go.Node.Leader
use election_go.Node.Leader.{LeaderVars, unless_leader, leader_event, leave_leader}
use election_go.Node.Run.{
  Phase, in_follower, in_candidate, in_leader, ended, enter, end_follower, end_candidate,
  end_leader, receive,
}
use election_go.Node.Phases.{cancel-Steady}
use election_go.Node.Rule.Handlers.{respond_with-Same}
use election_go.Node.Ballot.{HasNoFutureVote, decide_vote-granted}
use election_go.Cluster.{is_running, granted_request, note_given, note}
use election_go.Cluster.Counts.{AreNoted, Extends}
use election_go.Cluster.Recorded.{voted, enter-vote, end_candidate-vote}

record_contact-vote : (w : World) → voted (record_contact w) ≡ voted w
unfolding record_contact now
record_contact-vote w = (yield-Steady w).vote

handle_vote-vote :
    (e : Event) (req : VoteReq) (w : World)
    → voted (handle_vote e req w) ≡ (decide_vote req w.node).node.vote
unfolding handle_vote
handle_vote-vote e req w =
    let b = decide_vote req w.node in
    let cast : World = record w { node = b.node } in
    let contact : World = if b.fresh then record_contact cast else cast in
    ap (λ (n : Node). n.vote) (respond_with-Same e.respond _ contact).node
    ∙ if_elim (λ (x : World). voted x ≡ voted cast) b.fresh (λ _. record_contact-vote cast)
        (λ _. refl)

process_rpc-vote :
    (e : Event) (req : VoteReq) (w : World)
    → e.rpc_req.request ≡ vote_req req
    → voted (process_rpc e w) ≡ (decide_vote req w.node).node.vote
unfolding process_rpc process_request
process_rpc-vote e req w q = ap (λ r. voted (process_request r e w)) q ∙ handle_vote-vote e req w

end_follower-vote : (r : Flow FollowerVars × World) → voted (end_follower r).1 ≡ voted r.1
unfolding end_follower
end_follower-vote (leave, w) = enter-vote w
end_follower-vote (again v, w) = by_role w.node.current_role
  where
    by_role :
        (r : Role)
        → let x : Phase × World = elim r [ follower ↦ (in_follower v, w) | _ ↦ enter w ] in
          voted x.1 ≡ voted w
    by_role follower = refl
    by_role _ = enter-vote w

candidate_rpc-vote :
    (e : Event) (v : CandidateVars) (w : World)
    → voted (candidate_rpc e v w).1 ≡ voted (process_rpc e w)
unfolding candidate_rpc
candidate_rpc-vote e v w = by_role (process_rpc e w).node.current_role
  where
    by_role :
        (r : Role)
        → let x : Flow CandidateVars × World = elim r [
          | candidate ↦ (again v, process_rpc e w)
          | _ ↦ (leave, Candidate.cancel_both v (process_rpc e w))
        ] in
          voted x.1 ≡ voted (process_rpc e w)
    by_role candidate = refl
    by_role _ = (cancel-Steady _ _).vote ∙ (cancel-Steady _ _).vote

end_unless_leader-vote :
    (v : LeaderVars) (w : World) → voted (end_leader (unless_leader v w)).1 ≡ voted w
unfolding end_leader unless_leader
end_unless_leader-vote v w = by_role w.node.current_role refl
  where
    left : voted (enter (Leader.cancel_both v w)).1 ≡ voted w
    left =
        enter-vote (Leader.cancel_both v w) ∙ ((cancel-Steady _ _).vote ∙ (cancel-Steady _ _).vote)

    by_role :
        (r : Role)
        → w.node.current_role ≡ r
        → let x : Flow LeaderVars × World = elim r [
          | leader ↦ (again v, w)
          | _ ↦ (leave, Leader.cancel_both v w)
        ] in
          voted (end_leader x).1 ≡ voted w
    by_role leader q = rw q refl
    by_role follower q = left
    by_role candidate q = left
    by_role shutdown q = left

-- A request for a vote leaves in a running node what `handleVote` decides.
receive-vote :
    (e : Event) (req : VoteReq) (p : Phase) (w : World)
    → e.kind ≡ event_rpc
    → e.rpc_req.request ≡ vote_req req
    → is_running p ≡ true
    → voted (receive e p w).1 ≡ (decide_vote req w.node).node.vote
unfolding receive follower_event candidate_event leader_event
receive-vote e req (in_follower v) w k q r =
    ap (λ x. voted (end_follower (follower_event x e v w)).1) k
    ∙ (end_follower-vote (again v, process_rpc e w) ∙ process_rpc-vote e req w q)
receive-vote e req (in_candidate v) w k q r =
    ap (λ x. voted (end_candidate (candidate_event x e v w)).1) k
    ∙ (end_candidate-vote (candidate_rpc e v w)
        ∙ (candidate_rpc-vote e v w ∙ process_rpc-vote e req w q))
receive-vote e req (in_leader v) w k q r =
    ap (λ x. voted (end_leader (leader_event x e v w)).1) k
    ∙ (end_unless_leader-vote v (process_rpc e w) ∙ process_rpc-vote e req w q)
receive-vote e req ended w k q r = absurd (cc)

-- What a granted request says of the event.
granted_request-some :
    (k : EventKind) (r : Request) (p : Phase) (n : Node) (req : VoteReq)
    → granted_request k r p n ≡ some req
    → (k ≡ event_rpc)
      × (r ≡ vote_req req)
      × (is_running p ≡ true)
      × ((decide_vote req n).resp.granted ≡ true)
granted_request-some event_rpc (vote_req x) p n req e =
    elim (Bool-cases (is_running p && (decide_vote x n).resp.granted)) [
      | inl y ↦
          let same : x ≡ req = ground (arith, y, e) in
          let granted : (decide_vote x n).resp.granted ≡ true = ground (arith, y) in
          (
            refl,
            ap vote_req same,
            ground (arith, y),
            subst (λ v. (decide_vote v n).resp.granted ≡ true) same granted,
          )
      | inr y ↦ absurd (ground (arith, y, e))
    ]
granted_request-some _ _ p n req e = absurd (cc)

-- A vote that a node grants in a turn is on record after it.
pub granted_request-voted :
    (e : Event) (p : Phase) (w : World) (req : VoteReq)
    → HasNoFutureVote w.node
    → granted_request e.kind e.rpc_req.request p w.node ≡ some req
    → voted (receive e p w).1 ≡ record { last_candidate = req.candidate; last_term = req.term }
granted_request-voted e p w req h g =
    let (k, q, r, granted) = granted_request-some e.kind e.rpc_req.request p w.node req g in
    receive-vote e req p w k q r ∙ (decide_vote-granted w.node req h granted).1

-- What was given is on record after the turn, if it was before.
pub note_given-AreNoted :
    (id : String) (o : Option VoteReq) (v : Vote) (given : String → ℕ → String → Bool)
    (cast : String → ℕ → String)
    → AreNoted given cast
    → Extends cast (note id v cast)
    → ((req : VoteReq)
        → o ≡ some req
        → v ≡ record { last_candidate = req.candidate; last_term = req.term })
    → AreNoted (note_given id o given) (note id v cast)
note_given-AreNoted id none v given cast n x given_now p t c g named =
    let old = n p t c g named in x p t (λ e. named (sym old ∙ e)) ∙ old
note_given-AreNoted id (some req) v given cast n x given_now p t c g named =
    elim (Bool-cases (str_eq p id && (t == req.term && str_eq c req.candidate))) [
      | inl y ↦ let e = given_now req refl in ground (arith, y, e, named)
      | inr y ↦
          let old = n p t c (ground (arith, y, g)) named in x p t (λ e. named (sym old ∙ e)) ∙ old
    ]
