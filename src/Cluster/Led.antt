-- ===== src/Cluster/Led.antt =====
-- A node that leads has the votes that a leader needs in its term, as long as it leads: no event but
-- the vote timer makes a leader, and a leader does not change its term.
use election_go.Base.{ℕ, ◌≡◌, ◌≤◌, sym, ap, ◌∙◌, subst, String, arith}
use election_go.Engine.{Bytes, HeartBeatReq, Request}
use election_go.Node.State.{leader, Node}
use election_go.Node.World.{World, fire_on_change, set_leader, store_metadata}
use election_go.Node.Handlers.{decide_vote, step_aside, follow_leader}
use election_go.Node.Steady.{yield-Steady}
use election_go.Node.Rule.{Closed}
use election_go.Node.Votes.{AreCalm}
use election_go.Cluster.Calm.{yield-calm}

module _ (ok : Request → Type 0) (need : ℕ) (votes : ℕ → ℕ) where
  pub record IsLed (w : World) : Type 0 where
    pub calm : AreCalm w.ticks
    pub led : w.node.current_role ≡ leader → need ≤ votes w.node.current_term

  pub set_leader-IsLed : (l : String) (w : World) → IsLed w → IsLed (set_leader l w)
  unfolding set_leader fire_on_change
  set_leader-IsLed l w h = ground arith

  store_metadata-IsLed :
      (a : String) (m : Bytes) (w : World) → IsLed w → IsLed (store_metadata a m w)
  unfolding store_metadata fire_on_change
  store_metadata-IsLed a m w h = ground arith

  -- A node that does not lead.
  pub idle-IsLed : (w : World) → AreCalm w.ticks → ¬ (w.node.current_role ≡ leader) → IsLed w
  idle-IsLed w c n = record { calm = c; led = λ e. absurd (n e) }

  follow_leader-IsLed : (req : HeartBeatReq) (w : World) → IsLed w → IsLed (follow_leader req w)
  unfolding follow_leader step_aside
  follow_leader-IsLed req w h =
      let s =
        set_leader-IsLed req.leader (record w { node = step_aside req w.node }) (ground arith) in
      store_metadata-IsLed req.leader req.metadata _ (ground arith)

  pub IsLed-Closed : Closed ok IsLed
  unfolding decide_vote
  IsLed-Closed = record {
    yielded = λ w h.
        let (e, c) = yield-calm w h.calm in
        let s = yield-Steady w in
        record { calm = c; led = λ r. rw e (h.led (sym s.current_role ∙ r)) };
    quiet = λ w v s h. record {
      calm = subst AreCalm (sym s.ticks) h.calm;
      led = λ r. rw s.node (h.led (sym (ap (λ (n : Node). n.current_role) s.node) ∙ r));
    };
    voted = λ req w o h. ground arith;
    contacted = λ t w h. ground arith;
    followed = λ req w o h. follow_leader-IsLed req w h;
    reset = λ w h. let s = set_leader-IsLed "" w h in ground arith;
    stepped_down = λ w h. set_leader-IsLed "" _ (ground arith);
    regrouped = λ m ps w k h. ground arith;
    timed_out = λ w h. let s = set_leader-IsLed "" w h in ground arith;
    alone = λ w e h. ground arith;
    counted = λ w h. ground arith;
    fell_back = λ t w r l h. ground arith;
    forgot = λ w h. ground arith;
    left = λ w r e h. set_leader-IsLed "" w h;
    shut_follower = λ w h. ground arith;
    shut = λ w h. ground arith;
  }
