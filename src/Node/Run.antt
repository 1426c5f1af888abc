-- ===== src/Node/Run.antt =====
-- `run` of election.go: the coroutine between two events, and the step that an event makes.
use election_go.Base.{List, [], ◌∷◌}
use election_go.Engine.{Event}
use election_go.Node.State.{Role, follower, candidate, leader, shutdown}
use election_go.Node.World.{World, yield}
use election_go.Node.Handlers.{with_role}
use election_go.Node.Follower.{Flow, again, leave, FollowerVars, enter_follower, follower_event}
use election_go.Node.Candidate.{CandidateVars, enter_candidate, candidate_event}
use election_go.Node.Leader.{LeaderVars, enter_leader, leader_event, leave_leader}

-- Where the coroutine waits in `Recv`, with the local variables there, or that it has returned.
pub data Phase : Type 0 where
  in_follower : FollowerVars → Phase
  in_candidate : CandidateVars → Phase
  in_leader : LeaderVars → Phase
  ended : Phase

-- The `switch` of `run` with the prologue of the function that it calls. The loops' conditions hold
-- when they are first tested: a resumed heartbeat coroutine does not change the role.
unfoldable pub enter_role : Role → World → Phase × World
enter_role follower w = let (v, w') = enter_follower w in (in_follower v, w')
enter_role candidate w = let (v, w') = enter_candidate w in (in_candidate v, w')
enter_role leader w = let (v, w') = enter_leader w in (in_leader v, w')
enter_role shutdown w = (ended, w)

unfoldable pub enter : World → Phase × World
enter w = enter_role w.node.current_role w

unfoldable pub start : World → Phase × World
start w = enter (record w { node = with_role follower w.node })

-- The condition of each loop after its body, and `run`'s loop where the function returns.
unfoldable pub end_follower : Flow FollowerVars × World → Phase × World
end_follower (leave, w) = enter w
end_follower (again v, w) = elim w.node.current_role [ follower ↦ (in_follower v, w) | _ ↦ enter w ]

unfoldable pub end_candidate : Flow CandidateVars × World → Phase × World
end_candidate (leave, w) = enter w
end_candidate (again v, w) = elim w.node.current_role [
  | candidate ↦ (in_candidate v, w)
  | _ ↦ enter w
]

unfoldable pub end_leader : Flow LeaderVars × World → Phase × World
end_leader (leave, w) = enter w
end_leader (again v, w) = elim w.node.current_role [
  | leader ↦ (in_leader v, w)
  | _ ↦ enter (leave_leader w)
]

-- `Recv` is answered with an event; other coroutines may run before that.
unfoldable pub receive : Event → Phase → World → Phase × World
receive e (in_follower v) w = end_follower (follower_event e.kind e v w)
receive e (in_candidate v) w = end_candidate (candidate_event e.kind e v w)
receive e (in_leader v) w = end_leader (leader_event e.kind e v w)
receive e ended w = (ended, w)

unfoldable pub run_events : List Event → Phase × World → Phase × World
run_events [] (p, w) = (p, w)
run_events (e ∷ es) (p, w) = run_events es (receive e p (yield w))
