-- ===== src/Node/Published.antt =====
-- The atomic fields that `GetState`, `GetLeader` and `IsLeader` read, against the coroutine's state.
use election_go.Base.{ℕ, String, ◌≡◌, str_eq, List, [], ◌∷◌, arith}
use election_go.Engine.{
  Bytes, HeartBeatReq, Request, Response, heart_beat_resp, failed, replied, Event,
}
use election_go.Node.State.{Node}
use election_go.Node.World.{
  World, count_sent, hear_reply, Resume, sent, clocked, fire_on_change, set_leader, store_metadata,
  heartbeat_sent, heartbeat_clocked, resume, interleave, Tick, advance, yield,
}
use election_go.Node.Handlers.{decide_vote, step_aside, follow_leader}
use election_go.Node.Candidate.{nominate}
use election_go.Node.Run.{Phase, start, run_events}
use election_go.Node.Phases.{Matches}
use election_go.Node.Rule.{Closed}
use election_go.Node.Rule.Steps.{Spends, Allowed, enter-Closed, run_events-Closed}

pub record IsPublished (n : Node) : Type 0 where
  pub leader : n.leader ≡ n.current_leader
  pub is_leader : n.is_leader ≡ str_eq n.current_leader n.self
  pub term : n.term ≡ n.current_term
  pub peers : n.peers ≡ n.current_peers

abbrev Shows : World → Type 0
Shows w = IsPublished w.node

abbrev pub AnyRequest : Request → Type 0
AnyRequest _ = Unit {0}

hear_reply-Shows : (t : ℕ) (r : Response) (w : World) → Shows w → Shows (hear_reply t r w)
unfolding hear_reply
hear_reply-Shows t (heart_beat_resp m) w h = ground arith
hear_reply-Shows t _ w h = h

pub anything : (es : List Event) → Allowed AnyRequest es
anything [] = tt
anything (e ∷ es) = ((tt, λ _. tt), anything es)

resume-Shows : (r : Resume) (w : World) → Shows w → Shows (resume r w)
unfolding resume heartbeat_sent heartbeat_clocked store_metadata fire_on_change
resume-Shows (sent peer t failed) w h = ground arith
resume-Shows (sent peer t (replied r)) w h =
    hear_reply-Shows t r.response (count_sent w) (ground arith)
resume-Shows (clocked peer m now) w h = ground arith

interleave-Shows : (rs : List Resume) (w : World) → Shows w → Shows (interleave rs w)
unfolding interleave
interleave-Shows [] w h = h
interleave-Shows (r ∷ rs) w h = interleave-Shows rs (resume r w) (resume-Shows r w h)

advance-Shows : (ts : List Tick) (w : World) → Shows w → Shows (advance ts w)
unfolding advance
advance-Shows [] w h = h
advance-Shows (t ∷ ts) w h =
    interleave-Shows t.others (record w { ticks = ts; clock = t.time }) (ground arith)

set_leader-Shows : (l : String) (w : World) → Shows w → Shows (set_leader l w)
unfolding set_leader fire_on_change
set_leader-Shows l w h = ground arith

store_metadata-Shows : (a : String) (m : Bytes) (w : World) → Shows w → Shows (store_metadata a m w)
unfolding store_metadata fire_on_change
store_metadata-Shows a m w h = ground arith

follow_leader-Shows : (req : HeartBeatReq) (w : World) → Shows w → Shows (follow_leader req w)
unfolding follow_leader step_aside
follow_leader-Shows req w h =
    let s =
      set_leader-Shows req.leader (record w { node = step_aside req w.node }) (ground arith) in
    store_metadata-Shows req.leader req.metadata _ (ground arith)

Shows-Closed : Closed AnyRequest Shows
unfolding yield decide_vote
Shows-Closed = record {
  yielded = λ w h. advance-Shows w.ticks w h;
  quiet = λ w v s h. ground arith;
  voted = λ req w o h. ground arith;
  contacted = λ t w h. ground arith;
  followed = λ req w o h. follow_leader-Shows req w h;
  reset = λ w h. let s = set_leader-Shows "" w h in ground arith;
  stepped_down = λ w h. set_leader-Shows "" _ (ground arith);
  regrouped = λ m ps w k h. ground arith;
  timed_out = λ w h. let s = set_leader-Shows "" w h in ground arith;
  alone = λ w e h. ground arith;
  counted = λ w h. ground arith;
  fell_back = λ t w r l h. ground arith;
  forgot = λ w h. ground arith;
  left = λ w r e h. set_leader-Shows "" w h;
  shut_follower = λ w h. ground arith;
  shut = λ w h. ground arith;
}

Shows-Spends : Spends Shows Shows
unfolding nominate
Shows-Spends = record {
  spared = λ w h. h;
  nominated = λ w h. ground arith;
  won = λ w r h. set_leader-Shows _ _ (ground arith);
}

-- Whatever peers send and whatever heartbeat coroutines do in between, between two events the
-- atomic leader, term and peers are those of the coroutine, and the atomic leader flag says whether
-- the node itself is the current leader, if that held at first.
pub run_events-IsPublished :
    (es : List Event) (p : Phase) (w : World)
    → Matches (p, w)
    → IsPublished w.node
    → IsPublished (run_events es (p, w)).1.node
run_events-IsPublished es p w m h =
    run_events-Closed Shows-Closed Shows-Spends es p w m (anything es) h

pub start-IsPublished : (w : World) → IsPublished w.node → IsPublished (start w).1.node
unfolding start
start-IsPublished w h = enter-Closed Shows-Closed _ (ground arith)
