-- ===== src/Node/Alone/Start.antt =====
-- `run` of election.go on a node that starts alone in its cluster: the way to its election.
use election_go.Base.{
  ℕ, ◌+◌, ◌≡◌, ◌≤◌, refl, ap, ◌∙◌, sym, true, [], ◌∷◌, arith, length, str_eq, str_dec,
}
use election_go.Engine.{Event, event_timer}
use election_go.Node.State.{Role, follower, candidate, leader}
use election_go.Node.Peers.{quorum_size}
use election_go.Node.World.{World, yield}
use election_go.Node.Handlers.{with_role}
use election_go.Node.Follower.{
  Flow, again, leave, FollowerVars, enter_follower, become, is_alone, on_no_peers_timer,
  follower_timer, follower_event,
}
use election_go.Node.Candidate.{
  CandidateVars, enter_candidate, candidate_event, candidate_timer, on_vote_timer,
}
use election_go.Node.Lifecycle.{plain}
use election_go.Node.Run.{
  Phase, in_follower, in_candidate, enter_role, enter, start, end_follower, end_candidate, receive,
  run_events,
}
use election_go.Node.Phases.{
  role_of, start-Matches, run_events-Matches, enter_leader-Steady, cancel-Steady,
}
use election_go.Node.Elections.{yield-idle, own_vote-wins}
use election_go.Node.Alone.{
  IsAlone, kept-IsAlone, cancel-IsAlone, enter_follower-IsAlone, enter_candidate-IsAlone,
  is_alone-quorum_size,
}

abbrev pub fires : ℕ → Event
fires id = record (plain event_timer) { timer_id = id }

is_alone-become : (r : Role) (w : World) → is_alone (become r w).node ≡ is_alone w.node
unfolding is_alone
is_alone-become r w = refl

-- With its timer for missing peers, a follower that is alone becomes a candidate.
on_no_peers_timer-IsAlone :
    (n : ℕ) (v : FollowerVars) (w : World)
    → IsAlone n w
    → let x = on_no_peers_timer v w in
      (x.0 ≡ leave) × (x.1.node.current_role ≡ candidate) × IsAlone n x.1
unfolding on_no_peers_timer str_dec
on_no_peers_timer-IsAlone n v w a =
    let b =
      kept-IsAlone n n w (become candidate w) a refl (is_alone-become candidate w) refl refl refl
        a.last in
    let known : str_eq w.node.current_leader "" ≡ true = rw a.silent refl in
    rw (known, a.alone)
      (refl, (cancel-Steady _ _).current_role, cancel-IsAlone n v.heartbeat_timer _ b)

end_follower-candidate :
    (r : Flow FollowerVars × World)
    → r.0 ≡ leave
    → r.1.node.current_role ≡ candidate
    → end_follower r ≡ (in_candidate (enter_candidate r.1).0, (enter_candidate r.1).1)
unfolding end_follower enter enter_role
end_follower-candidate (leave, w) l e = rw e refl
end_follower-candidate (again v, w) l e = absurd (cc)

follower_timer-IsAlone :
    (n : ℕ) (v : FollowerVars) (w : World)
    → v.heartbeat_timer ≡ n + 1
    → v.no_peers_timer ≡ n + 1 + 1
    → follower_timer (n + 1 + 1) v w ≡ on_no_peers_timer v w
unfolding follower_timer
follower_timer-IsAlone n v w h p = ground (arith, h, p)

pub candidate_timer-vote :
    (id : ℕ) (v : CandidateVars) (w : World)
    → v.vote_timer ≡ id
    → candidate_timer id v w ≡ on_vote_timer v w
unfolding candidate_timer
candidate_timer-vote id v w e = ground (arith, e)

enter-leads : (w : World) → w.node.current_role ≡ leader → (enter w).1.node.current_role ≡ leader
unfolding enter enter_role
enter-leads w e =
    ap (λ r. (enter_role r w).1.node.current_role) e ∙ ((enter_leader-Steady w).current_role ∙ e)

pub end_candidate-leads :
    (r : Flow CandidateVars × World)
    → r.1.node.current_role ≡ leader
    → (end_candidate r).1.node.current_role ≡ leader
unfolding end_candidate
end_candidate-leads (leave, w) e = enter-leads w e
end_candidate-leads (again v, w) e = by_role w.node.current_role e
  where
    by_role :
        (r : Role)
        → r ≡ leader
        → let x : Phase × World = elim r [ candidate ↦ (in_candidate v, w) | _ ↦ enter w ] in
          x.1.node.current_role ≡ leader
    by_role candidate q = absurd (cc)
    by_role _ q = enter-leads w e

vote_timer-leads :
    (n : ℕ) (v : CandidateVars) (w : World)
    → IsAlone n w
    → v.granted_votes ≡ 0
    → v.votes_needed ≡ quorum_size w.node.current_peers
    → (receive (fires v.vote_timer) (in_candidate v) (yield w)).1.node.current_role ≡ leader
unfolding receive candidate_event
vote_timer-leads n v w a g q =
    rw (yield-idle w a.idle, candidate_timer-vote v.vote_timer v w refl)
      (end_candidate-leads (on_vote_timer v w) (
        own_vote-wins v w a.idle (omega (arith, g, q, is_alone-quorum_size w.node a.alone))
          a.enough))

no_peers-campaigns :
    (n : ℕ) (v : FollowerVars) (w : World)
    → IsAlone (n + 1 + 1) w
    → v.heartbeat_timer ≡ n + 1
    → v.no_peers_timer ≡ n + 1 + 1
    → (c : World) × IsAlone (n + 1 + 1) c
      × (receive (fires (n + 1 + 1)) (in_follower v) (yield w)
          ≡ (in_candidate (enter_candidate c).0, (enter_candidate c).1))
unfolding receive follower_event
no_peers-campaigns n v w a h p =
    let x = on_no_peers_timer v w in
    let (left, role, b) = on_no_peers_timer-IsAlone (n + 1 + 1) v w a in
    (
      x.1,
      b,
      rw (yield-idle w a.idle, follower_timer-IsAlone n v w h p)
          (end_follower-candidate x left role),
    )

campaign-leads :
    (n : ℕ) (c : World)
    → IsAlone n c
    → (receive
        (fires (n + 1))
        (in_candidate (enter_candidate c).0)
        (yield (enter_candidate c).1)).1.node.current_role
      ≡ leader
campaign-leads n c a =
    let (t, g, q, b) = enter_candidate-IsAlone n c a in
    let (v, w) = enter_candidate c in rw⁻¹ t (vote_timer-leads (n + 1 + 1) v w b g q)

start-campaigns :
    (n : ℕ) (w : World)
    → IsAlone n (record w { node = with_role follower w.node })
    → (run_events (fires (n + 1 + 1) ∷ fires (n + 1 + 1 + 1) ∷ []) (start w)).1.node.current_role
      ≡ leader
unfolding run_events start enter enter_role
start-campaigns n w a =
    let f : World = record w { node = with_role follower w.node } in
    let (h, p, b) = enter_follower-IsAlone n f a in
    let (c, d, e) = no_peers-campaigns n (enter_follower f).0 (enter_follower f).1 b h p in
    rw e (campaign-leads (n + 1 + 1) c d)

-- A node that starts alone in its cluster, with its minimum quorum met, becomes leader as soon as its
-- second timer, that for missing peers, and its third, the vote timer, have fired, if no other
-- coroutine runs.
pub start-leads :
    (w : World)
    → w.ticks ≡ []
    → is_alone w.node ≡ true
    → w.node.current_leader ≡ ""
    → w.node.conf.minimum_quorum ≤ length w.node.current_peers
    → let x = run_events (fires (w.last_timer + 2) ∷ fires (w.last_timer + 3) ∷ []) (start w) in
      (role_of x.0 ≡ leader) × (x.1.node.current_role ≡ leader)
unfolding is_alone
start-leads w t a l m =
    let n = w.last_timer in
    let two : n + 1 + 1 ≡ n + 2 = omega arith in
    let three : n + 2 + 1 ≡ n + 3 = omega arith in
    let led =
      start-campaigns n w (record { idle = t; alone = a; silent = l; enough = m; last = refl }) in
    let led' = rw (two, three) at led in
    let (p, s) = start w in
    (
      sym (run_events-Matches (fires (n + 2) ∷ fires (n + 3) ∷ []) p s (start-Matches w)) ∙ led',
      led',
    )
