-- ===== src/Node/Roles.antt =====
-- The role of the coroutine, the leader that it knows, and the leader flag that `IsLeader` reads.
use election_go.Base.{String, ◌≡◌, ◌≢◌, str_eq, List, arith}
use election_go.Engine.{Bytes, HeartBeatReq, Request, vote_req, heart_beat_req, Event}
use election_go.Node.State.{follower, candidate, leader, Node}
use election_go.Node.World.{World, fire_on_change, set_leader, store_metadata}
use election_go.Node.Handlers.{decide_vote, step_aside, follow_leader}
use election_go.Node.Candidate.{nominate}
use election_go.Node.Run.{Phase, start, run_events}
use election_go.Node.Steady.{yield-Steady}
use election_go.Node.Phases.{Matches}
use election_go.Node.Rule.{Closed}
use election_go.Node.Rule.Steps.{Spends, Allowed, enter-Closed, run_events-Closed}

-- No peer sends a request in the name of the node itself.
abbrev pub IsForeign : String → Request → Type 0
IsForeign self (vote_req req) = req.candidate ≢ self
IsForeign self (heart_beat_req req) = req.leader ≢ self
IsForeign self _ = Unit {0}

pub record IsConsistent (self : String) (n : Node) : Type 0 where
  pub named : n.self ≡ self
  pub flag : n.is_leader ≡ str_eq n.current_leader self
  pub as_candidate : n.current_role ≡ candidate → n.current_leader ≡ ""
  pub as_leader : n.current_role ≡ leader → n.current_leader ≡ self
  pub as_follower : n.current_role ≡ follower → n.current_leader ≢ self

module _ (self : String) (nonempty : self ≢ "") where
  abbrev Fits : World → Type 0
  Fits w = IsConsistent self w.node

  store_metadata-Fits : (a : String) (m : Bytes) (w : World) → Fits w → Fits (store_metadata a m w)
  unfolding store_metadata fire_on_change
  store_metadata-Fits a m w h = ground arith

  follow_leader-Fits :
      (req : HeartBeatReq) (w : World) → req.leader ≢ self → Fits w → Fits (follow_leader req w)
  unfolding follow_leader step_aside set_leader fire_on_change
  follow_leader-Fits req w o h = store_metadata-Fits req.leader req.metadata _ (ground arith)

  Fits-Closed : Closed (IsForeign self) Fits
  unfolding decide_vote set_leader fire_on_change
  Fits-Closed = record {
    yielded = λ w h. let s = yield-Steady w in ground arith;
    quiet = λ w v s h. ground arith;
    voted = λ req w o h. ground arith;
    contacted = λ t w h. ground arith;
    followed = λ req w o h. follow_leader-Fits req w o h;
    reset = λ w h. ground arith;
    stepped_down = λ w h. ground arith;
    regrouped = λ m ps w k h. ground arith;
    timed_out = λ w h. ground arith;
    alone = λ w e h. ground arith;
    counted = λ w h. ground arith;
    fell_back = λ t w r l h. ground arith;
    forgot = λ w h. ground arith;
    left = λ w r e h. ground arith;
    shut_follower = λ w h. ground arith;
    shut = λ w h. ground arith;
  }

  Fits-Spends : Spends Fits Fits
  unfolding nominate set_leader fire_on_change
  Fits-Spends = record {
    spared = λ w h. h;
    nominated = λ w h. ground arith;
    won = λ w r h. ground arith;
  }

  -- While no peer sends a request in the node's own name, a candidate knows no leader, a leader is
  -- its own leader, a follower is not, and the flag that `IsLeader` reads says whether the node is
  -- its own leader: between any two events, if it held at first.
  pub run_events-IsConsistent :
      (es : List Event) (p : Phase) (w : World)
      → Matches (p, w)
      → Allowed (IsForeign self) es
      → IsConsistent self w.node
      → IsConsistent self (run_events es (p, w)).1.node
  run_events-IsConsistent es p w m o h = run_events-Closed Fits-Closed Fits-Spends es p w m o h

  pub start-IsConsistent :
      (w : World)
      → w.node.current_role ≡ follower
      → IsConsistent self w.node
      → IsConsistent self (start w).1.node
  unfolding start
  start-IsConsistent w r h = enter-Closed Fits-Closed _ (ground arith)
