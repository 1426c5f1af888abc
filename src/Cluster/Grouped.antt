-- ===== src/Cluster/Grouped.antt =====
-- A node keeps its name and the addresses of its peers, while `SetPeers` sets the members only.
use election_go.Base.{ℕ, ◌≡◌, refl, ap, ◌∙◌, String, List, [], ◌∷◌, Option-cases, inl, inr, arith}
use election_go.Engine.{Bytes, Response, heart_beat_resp, failed, replied}
use election_go.Node.State.{Node}
use election_go.Node.Peers.{update_metadata}
use election_go.Node.Addresses.{addresses, update_metadata-addresses}
use election_go.Node.World.{
  World, count_sent, hear_reply, Resume, sent, clocked, fire_on_change, set_leader, store_metadata,
  heartbeat_sent, heartbeat_clocked, resume, interleave, Tick, advance, yield,
}
use election_go.Node.Handlers.{decide_vote, step_aside, follow_leader}
use election_go.Node.Candidate.{nominate}
use election_go.Node.Rule.{Closed}
use election_go.Node.Rule.Steps.{Spends}
use election_go.Cluster.{SetsMembers}

module _ (members : List String) (self : String) where
  pub record IsGrouped (w : World) : Type 0 where
    pub named : w.node.self ≡ self
    pub peers : addresses w.node.current_peers ≡ members

  -- `v` has the name and the peers of `w`.
  kept-IsGrouped :
      (w v : World)
      → v.node.self ≡ w.node.self
      → v.node.current_peers ≡ w.node.current_peers
      → IsGrouped w
      → IsGrouped v
  kept-IsGrouped w v s p h = record { named = s ∙ h.named; peers = ap addresses p ∙ h.peers }

  store_metadata-IsGrouped :
      (a : String) (m : Bytes) (w : World) → IsGrouped w → IsGrouped (store_metadata a m w)
  unfolding store_metadata fire_on_change
  store_metadata-IsGrouped a m w h =
      elim (Option-cases (update_metadata a m w.node.current_peers)) [
        | inl n ↦ record { named = ground (arith, n, h.named); peers = ground (arith, n, h.peers) }
        | inr y ↦
            let same = update_metadata-addresses a m w.node.current_peers y.0 y.1 ∙ h.peers in
            record { named = ground (arith, y.1, h.named); peers = ground (arith, y.1, same) }
      ]

  hear_reply-IsGrouped :
      (t : ℕ) (r : Response) (w : World) → IsGrouped w → IsGrouped (hear_reply t r w)
  unfolding hear_reply
  hear_reply-IsGrouped t (heart_beat_resp m) w h =
      kept-IsGrouped w _ (ground arith) (ground arith) h
  hear_reply-IsGrouped t _ w h = h

  resume-IsGrouped : (r : Resume) (w : World) → IsGrouped w → IsGrouped (resume r w)
  unfolding resume heartbeat_sent heartbeat_clocked
  resume-IsGrouped (sent peer t failed) w h = kept-IsGrouped w _ refl refl h
  resume-IsGrouped (sent peer t (replied r)) w h =
      hear_reply-IsGrouped t r.response (count_sent w) (kept-IsGrouped w _ refl refl h)
  resume-IsGrouped (clocked peer m now) w h =
      store_metadata-IsGrouped peer m.metadata _ (kept-IsGrouped w _ refl refl h)

  interleave-IsGrouped : (rs : List Resume) (w : World) → IsGrouped w → IsGrouped (interleave rs w)
  unfolding interleave
  interleave-IsGrouped [] w h = h
  interleave-IsGrouped (r ∷ rs) w h = interleave-IsGrouped rs (resume r w) (resume-IsGrouped r w h)

  advance-IsGrouped : (ts : List Tick) (w : World) → IsGrouped w → IsGrouped (advance ts w)
  unfolding advance
  advance-IsGrouped [] w h = h
  advance-IsGrouped (t ∷ ts) w h =
      interleave-IsGrouped t.others (record w { ticks = ts; clock = t.time })
        (kept-IsGrouped w _ refl refl h)

  set_leader-IsGrouped : (l : String) (w : World) → IsGrouped w → IsGrouped (set_leader l w)
  unfolding set_leader fire_on_change
  set_leader-IsGrouped l w h = kept-IsGrouped w _ (ground arith) (ground arith) h

  -- The node is changed in fields other than its name and peers.
  kept :
      (w v : World)
      → (v.node.self ≡ w.node.self) × (v.node.current_peers ≡ w.node.current_peers)
      → IsGrouped w
      → IsGrouped v
  kept w v e h = kept-IsGrouped w v e.0 e.1 h

  pub IsGrouped-Closed : Closed (SetsMembers members) IsGrouped
  unfolding yield decide_vote follow_leader step_aside
  IsGrouped-Closed = record {
    yielded = λ w h. advance-IsGrouped w.ticks w h;
    quiet = λ w v s h.
        kept w v (ap (λ (n : Node). n.self) s.node, ap (λ (n : Node). n.current_peers) s.node) h;
    voted = λ req w o h. kept w _ (ground arith) h;
    contacted = λ t w h. kept w _ (refl, refl) h;
    followed = λ req w o h.
        let s =
          set_leader-IsGrouped req.leader _
            (kept w (record w { node = step_aside req w.node }) (ground arith) h) in
        store_metadata-IsGrouped req.leader req.metadata _ (kept _ _ (refl, refl) s);
    reset = λ w h. kept (set_leader "" w) _ (refl, refl) (set_leader-IsGrouped "" w h);
    stepped_down = λ w h. set_leader-IsGrouped "" _ (kept w _ (refl, refl) h);
    regrouped = λ m ps w k h. record {
      named = h.named;
      peers = elim k [ inl e ↦ e ∙ h.peers | inr e ↦ e ];
    };
    timed_out = λ w h. kept (set_leader "" w) _ (refl, refl) (set_leader-IsGrouped "" w h);
    alone = λ w e h. kept w _ (refl, refl) h;
    counted = λ w h. kept w _ (refl, refl) h;
    fell_back = λ t w r l h. kept w _ (refl, refl) h;
    forgot = λ w h. kept w _ (refl, refl) h;
    left = λ w r e h. set_leader-IsGrouped "" w h;
    shut_follower = λ w h. kept w _ (refl, refl) h;
    shut = λ w h. kept w _ (refl, refl) h;
  }

  pub IsGrouped-Spends : Spends IsGrouped IsGrouped
  unfolding nominate
  IsGrouped-Spends = record {
    spared = λ w h. h;
    nominated = λ w h. kept w _ (refl, refl) h;
    won = λ w r h. set_leader-IsGrouped w.node.self _ (kept w _ (refl, refl) h);
  }
