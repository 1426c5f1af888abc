-- ===== src/Node/Votes.antt =====
-- Terms and votes over a run: `handleVote`, `electSelf`, and what heartbeat replies do to the term.
use election_go.Base.{
  ℕ, ◌+◌, ◌<◌, ◌≤◌, String, ◌≡◌, ◌≢◌, refl, sym, subst, ◌⊎◌, inl, inr, true, List, [], ◌∷◌, All,
  arith,
}
use native.Mathlib.Nat.{le_refl}
use election_go.Engine.{Bytes, HeartBeatReq, heart_beat_resp, Response, Event, failed, replied}
use election_go.Node.State.{Node, Vote}
use election_go.Node.World.{
  World, count_sent, hear_reply, Resume, sent, clocked, fire_on_change, set_leader, store_metadata,
  heartbeat_sent, heartbeat_clocked, resume, interleave, Tick, advance, yield,
}
use election_go.Node.Handlers.{decide_vote, step_aside, follow_leader}
use election_go.Node.Candidate.{nominate}
use election_go.Node.Run.{Phase, receive, run_events}
use election_go.Node.Phases.{Matches, receive-Matches, yield-Matches}
use election_go.Node.Published.{AnyRequest, anything}
use election_go.Node.Ballot.{HasNoFutureVote, ask}
use election_go.Node.Rule.{Closed}
use election_go.Node.Rule.Steps.{Spends, Allowed, receive-Closed}

-- A heartbeat reply whose term is not above that of the heartbeat.
abbrev pub IsTimely : ℕ → Response → Type 0
IsTimely captured (heart_beat_resp h) = h.term ≤ captured
IsTimely captured _ = Unit {0}

abbrev pub IsCalm : Resume → Type 0
IsCalm (sent peer captured (replied r)) = IsTimely captured r.response
IsCalm _ = Unit {0}

-- No peer answers a heartbeat with a newer term during the schedule.
abbrev pub AreCalm : List Tick → Type 0
AreCalm ticks = All (λ t. All IsCalm t.others) ticks

-- The vote `old` stands, or one in a later term replaced it, or it was for nobody and one in no earlier
-- term replaced it.
abbrev pub VoteKept : Vote → Vote → Type 0
VoteKept old new =
    (old.last_term < new.last_term)
    ⊎ ((new ≡ old) ⊎ ((old.last_candidate ≡ "") × (old.last_term ≤ new.last_term)))

pub record Since (base : Node) (w : World) : Type 0 where
  pub calm : AreCalm w.ticks
  pub behind : HasNoFutureVote w.node
  pub grown : base.current_term ≤ w.node.current_term
  pub kept : VoteKept base.vote w.node.vote

-- `currentTerm++` does not wrap.
abbrev pub HasRoom : Node → Type 0
HasRoom n = n.current_term + 1 < 18446744073709551616

abbrev pub HaveRoom : List Event → Phase × World → Type 0
HaveRoom [] x = Unit {0}
HaveRoom (e ∷ es) x = HasRoom (yield x.1).node × HaveRoom es (receive e x.0 (yield x.1))

module _ (base : Node) where
  hear_reply-Since :
      (t : ℕ) (r : Response) (w : World)
      → IsTimely t r
      → Since base w
      → Since base (hear_reply t r w)
  unfolding hear_reply
  hear_reply-Since t (heart_beat_resp m) w c h = ground arith
  hear_reply-Since t _ w c h = h

  resume-Since : (r : Resume) (w : World) → IsCalm r → Since base w → Since base (resume r w)
  unfolding resume heartbeat_sent heartbeat_clocked store_metadata fire_on_change
  resume-Since (sent peer t failed) w c h = ground arith
  resume-Since (sent peer t (replied r)) w c h =
      hear_reply-Since t r.response (count_sent w) c
        (record { calm = h.calm; behind = h.behind; grown = h.grown; kept = h.kept })
  resume-Since (clocked peer m now) w c h = ground arith

  interleave-Since :
      (rs : List Resume) (w : World) → All IsCalm rs → Since base w → Since base (interleave rs w)
  unfolding interleave
  interleave-Since [] w c h = h
  interleave-Since (r ∷ rs) w c h = interleave-Since rs (resume r w) c.1 (resume-Since r w c.0 h)

  advance-Since :
      (ts : List Tick) (w : World) → w.ticks ≡ ts → Since base w → Since base (advance ts w)
  unfolding advance
  advance-Since [] w e h = h
  advance-Since (t ∷ ts) w e h =
      let calm : AreCalm (t ∷ ts) = subst AreCalm e h.calm in
      interleave-Since t.others (record w { ticks = ts; clock = t.time }) calm.0
        (record { calm = calm.1; behind = h.behind; grown = h.grown; kept = h.kept })

  set_leader-Since : (l : String) (w : World) → Since base w → Since base (set_leader l w)
  unfolding set_leader fire_on_change
  set_leader-Since l w h = ground arith

  store_metadata-Since :
      (a : String) (m : Bytes) (w : World) → Since base w → Since base (store_metadata a m w)
  unfolding store_metadata fire_on_change
  store_metadata-Since a m w h = ground arith

  follow_leader-Since :
      (req : HeartBeatReq) (w : World) → Since base w → Since base (follow_leader req w)
  unfolding follow_leader step_aside
  follow_leader-Since req w h =
      let s =
        set_leader-Since req.leader (record w { node = step_aside req w.node }) (ground arith) in
      store_metadata-Since req.leader req.metadata _ (ground arith)

  pub Since-Closed : Closed AnyRequest (Since base)
  unfolding yield decide_vote
  Since-Closed = record {
    yielded = λ w h. advance-Since w.ticks w refl h;
    quiet = λ w v s h. record {
      calm = subst AreCalm (sym s.ticks) h.calm;
      behind = rw s.node h.behind;
      grown = rw s.node h.grown;
      kept = rw s.node h.kept;
    };
    voted = λ req w o h. ground arith;
    contacted = λ t w h. ground arith;
    followed = λ req w o h. follow_leader-Since req w h;
    reset = λ w h. let s = set_leader-Since "" w h in ground arith;
    stepped_down = λ w h. set_leader-Since "" _ (ground arith);
    regrouped = λ m ps w k h. ground arith;
    timed_out = λ w h. let s = set_leader-Since "" w h in ground arith;
    alone = λ w e h. ground arith;
    counted = λ w h. ground arith;
    fell_back = λ t w r l h. ground arith;
    forgot = λ w h. ground arith;
    left = λ w r e h. set_leader-Since "" w h;
    shut_follower = λ w h. ground arith;
    shut = λ w h. ground arith;
  }

  pub Room-Spends : Spends (λ w. Since base w × HasRoom w.node) (Since base)
  unfolding nominate
  Room-Spends = record {
    spared = λ w h. h.0;
    nominated = λ w h. nominated w h.0 h.1;
    won = λ w r h. set_leader-Since _ _ (ground arith);
  }
    where
      nominated :
          (w : World)
          → Since base w
          → HasRoom w.node
          → Since base (record w { node = nominate w.node })
      nominated w h r = ground arith

  run_events-Since :
      (es : List Event) (p : Phase) (w : World)
      → Matches (p, w)
      → Allowed AnyRequest es
      → HaveRoom es (p, w)
      → Since base w
      → Since base (run_events es (p, w)).1
  unfolding run_events
  run_events-Since [] p w m o r h = h
  run_events-Since (e ∷ es) p w m o r h =
      let (p', w') = receive e p (yield w) in
      let waits = yield-Matches p w m in
      run_events-Since es p' w' (receive-Matches e p (yield w) waits) o.1 r.1 (
        receive-Closed Since-Closed Room-Spends e p (yield w) waits o.0
          (Since-Closed.yielded w h, r.0))

granted_as_before :
    (old : Vote) (n : Node) (term : ℕ) (chosen other : String)
    → HasNoFutureVote n
    → VoteKept old n.vote
    → old ≡ record { last_candidate = chosen; last_term = term }
    → chosen ≢ ""
    → (decide_vote (ask term other) n).resp.granted ≡ true
    → other ≡ chosen
unfolding decide_vote
granted_as_before old n term chosen other f k v x g = ground arith

-- Once a node has voted for a candidate in a term, no later request of another candidate gets its
-- vote in that term, whatever events come in between: if no heartbeat is answered with a newer term
-- meanwhile, and the node's term has room to grow.
pub run_events-votes_once :
    (es : List Event) (p : Phase) (w : World) (term : ℕ) (chosen other : String)
    → Matches (p, w)
    → AreCalm w.ticks
    → HaveRoom es (p, w)
    → HasNoFutureVote w.node
    → w.node.vote ≡ record { last_candidate = chosen; last_term = term }
    → chosen ≢ ""
    → (decide_vote (ask term other) (run_events es (p, w)).1.node).resp.granted ≡ true
    → other ≡ chosen
run_events-votes_once es p w term chosen other m c r f v x g =
    let since : Since w.node w = record {
      calm = c;
      behind = f;
      grown = le_refl _;
      kept = inr (inl refl);
    } in
    let after = run_events-Since w.node es p w m (anything es) r since in
    granted_as_before w.node.vote (run_events es (p, w)).1.node term chosen other after.behind
      after.kept v x g

-- Under the same conditions a node's term never falls, and it never holds a vote of a later term.
pub run_events-term_grows :
    (es : List Event) (p : Phase) (w : World)
    → Matches (p, w)
    → AreCalm w.ticks
    → HaveRoom es (p, w)
    → HasNoFutureVote w.node
    → let n = (run_events es (p, w)).1.node in
      (w.node.current_term ≤ n.current_term) × HasNoFutureVote n
run_events-term_grows es p w m c r f =
    let since : Since w.node w = record {
      calm = c;
      behind = f;
      grown = le_refl _;
      kept = inr (inl refl);
    } in
    let after = run_events-Since w.node es p w m (anything es) r since in
    (after.grown, after.behind)
