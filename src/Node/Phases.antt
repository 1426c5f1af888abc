-- ===== src/Node/Phases.antt =====
-- Where the coroutine waits, against its role.
use election_go.Base.{ℕ, ◌+◌, ◌≡◌, refl, ◌∙◌, List, [], ◌∷◌, arith}
use election_go.Engine.{Event}
use election_go.Node.State.{Role, follower, candidate, leader, shutdown}
use election_go.Node.World.{World, timer_set, timer_cancelled, emit, yield, after, cancel, int63}
use election_go.Node.Handlers.{with_role}
use election_go.Node.Follower.{Flow, again, leave, FollowerVars, enter_follower}
use election_go.Node.Candidate.{CandidateVars, count_started, enter_candidate}
use election_go.Node.Leader.{LeaderVars, forget_contacts, enter_leader, leave_leader}
use election_go.Node.Run.{
  Phase, in_follower, in_candidate, in_leader, ended, enter_role, enter, start, end_follower,
  end_candidate, end_leader, receive, run_events,
}
use election_go.Node.Steady.{Steady, Steady-trans, yield-Steady}

-- The role that the coroutine has where it waits.
abbrev pub role_of : Phase → Role
role_of (in_follower _) = follower
role_of (in_candidate _) = candidate
role_of (in_leader _) = leader
role_of ended = shutdown

abbrev pub Matches : Phase × World → Type 0
Matches x = x.1.node.current_role ≡ role_of x.0

int63-Steady : (w : World) → Steady w (int63 w).1
unfolding int63
int63-Steady w = ground arith

pub after-Steady : (delay : ℕ) (w : World) → Steady w (after delay w).1
unfolding after emit
after-Steady delay w =
    let v : World =
      emit (timer_set (w.last_timer + 1) delay) (record w { last_timer = w.last_timer + 1 }) in
    Steady-trans w v _ (ground arith) (yield-Steady v)

pub cancel-Steady : (id : ℕ) (w : World) → Steady w (cancel id w)
unfolding cancel emit
cancel-Steady id w =
    let v : World = emit (timer_cancelled id) w in
    Steady-trans w v _ (ground arith) (yield-Steady v)

pub enter_follower-Steady : (w : World) → Steady w (enter_follower w).1
unfolding enter_follower
enter_follower-Steady w =
    Steady-trans w _ _ (int63-Steady w) (Steady-trans _ _ _ (after-Steady _ _) (after-Steady _ _))

pub enter_candidate-Steady : (w : World) → Steady w (enter_candidate w).1
unfolding enter_candidate
enter_candidate-Steady w = Steady-trans w (count_started w) _ (ground arith) (
    Steady-trans _ _ _ (int63-Steady _) (
      Steady-trans _ _ _ (after-Steady _ _)
        (Steady-trans _ _ _ (int63-Steady _) (after-Steady _ _))))

pub enter_leader-Steady : (w : World) → Steady w (enter_leader w).1
unfolding enter_leader
enter_leader-Steady w =
    Steady-trans w (forget_contacts w) _ (ground arith) (
      Steady-trans _ _ _ (int63-Steady _)
        (Steady-trans _ _ _ (after-Steady _ _) (after-Steady _ _)))

enter_role-Matches : (r : Role) (w : World) → w.node.current_role ≡ r → Matches (enter_role r w)
unfolding enter_role
enter_role-Matches follower w e = (enter_follower-Steady w).current_role ∙ e
enter_role-Matches candidate w e = (enter_candidate-Steady w).current_role ∙ e
enter_role-Matches leader w e = (enter_leader-Steady w).current_role ∙ e
enter_role-Matches shutdown w e = e

pub enter-Matches : (w : World) → Matches (enter w)
unfolding enter
enter-Matches w = enter_role-Matches w.node.current_role w refl

pub start-Matches : (w : World) → Matches (start w)
unfolding start
start-Matches w = enter-Matches (record w { node = with_role follower w.node })

end_follower-Matches : (r : Flow FollowerVars × World) → Matches (end_follower r)
unfolding end_follower
end_follower-Matches (leave, w) = enter-Matches w
end_follower-Matches (again v, w) = by_role w.node.current_role refl
  where
    by_role :
        (r : Role)
        → w.node.current_role ≡ r
        → let x : Phase × World = elim r [ follower ↦ (in_follower v, w) | _ ↦ enter w ] in
          Matches x
    by_role follower e = e
    by_role _ e = enter-Matches w

pub end_candidate-Matches : (r : Flow CandidateVars × World) → Matches (end_candidate r)
unfolding end_candidate
end_candidate-Matches (leave, w) = enter-Matches w
end_candidate-Matches (again v, w) = by_role w.node.current_role refl
  where
    by_role :
        (r : Role)
        → w.node.current_role ≡ r
        → let x : Phase × World = elim r [ candidate ↦ (in_candidate v, w) | _ ↦ enter w ] in
          Matches x
    by_role candidate e = e
    by_role _ e = enter-Matches w

end_leader-Matches : (r : Flow LeaderVars × World) → Matches (end_leader r)
unfolding end_leader
end_leader-Matches (leave, w) = enter-Matches w
end_leader-Matches (again v, w) = by_role w.node.current_role refl
  where
    by_role :
        (r : Role)
        → w.node.current_role ≡ r
        → let x : Phase × World = elim r [
          | leader ↦ (in_leader v, w)
          | _ ↦ enter (leave_leader w)
        ] in
          Matches x
    by_role leader e = e
    by_role _ e = enter-Matches (leave_leader w)

pub receive-Matches : (e : Event) (p : Phase) (w : World) → Matches (p, w) → Matches (receive e p w)
unfolding receive
receive-Matches e (in_follower v) w m = end_follower-Matches _
receive-Matches e (in_candidate v) w m = end_candidate-Matches _
receive-Matches e (in_leader v) w m = end_leader-Matches _
receive-Matches e ended w m = m

pub yield-Matches : (p : Phase) (w : World) → Matches (p, w) → Matches (p, yield w)
yield-Matches p w m = (yield-Steady w).current_role ∙ m

-- Wherever the coroutine waits after any events, it waits in the function of its role: a follower
-- in `runFollower`, a candidate in `runCandidate`, a leader in `runLeader`; after a shutdown it has
-- returned.
pub run_events-Matches :
    (es : List Event) (p : Phase) (w : World) → Matches (p, w) → Matches (run_events es (p, w))
unfolding run_events
run_events-Matches [] p w m = m
run_events-Matches (e ∷ es) p w m =
    let (p', w') = receive e p (yield w) in
    run_events-Matches es p' w' (receive-Matches e p (yield w) (yield-Matches p w m))
