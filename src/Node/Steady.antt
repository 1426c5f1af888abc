-- ===== src/Node/Steady.antt =====
-- What heartbeat coroutines leave alone while the main coroutine waits for a request.
use election_go.Base.{ℕ, ◌≡◌, [], ◌∷◌, List, arith}
use election_go.Node.World.{
  World, Resume, sent, clocked, fire_on_change, store_metadata, count_sent, hear_reply,
  heartbeat_sent, heartbeat_clocked, resume, interleave, Tick, advance, yield,
}
use election_go.Engine.{Response, heart_beat_resp, failed, replied}

pub record Steady (w v : World) : Type 0 where
  pub current_role : v.node.current_role ≡ w.node.current_role
  pub current_leader : v.node.current_leader ≡ w.node.current_leader
  pub leader : v.node.leader ≡ w.node.leader
  pub is_leader : v.node.is_leader ≡ w.node.is_leader
  pub role : v.node.role ≡ w.node.role
  pub self : v.node.self ≡ w.node.self
  pub conf : v.node.conf ≡ w.node.conf
  pub vote : v.node.vote ≡ w.node.vote
  pub last_contact : v.node.last_contact ≡ w.node.last_contact
  pub metadata : v.node.current_metadata ≡ w.node.current_metadata

pub Steady-refl : (w : World) → Steady w w
Steady-refl w = ground arith

pub Steady-trans : (u v w : World) → Steady u v → Steady v w → Steady u w
Steady-trans u v w p q = ground arith

hear_reply-Steady : (t : ℕ) (r : Response) (w : World) → Steady w (hear_reply t r w)
unfolding hear_reply
hear_reply-Steady t (heart_beat_resp h) w = ground arith
hear_reply-Steady t _ w = Steady-refl w

-- A resumed heartbeat coroutine changes no role, leader, vote or contact time of the node.
pub resume-Steady : (r : Resume) (w : World) → Steady w (resume r w)
unfolding resume heartbeat_sent heartbeat_clocked store_metadata fire_on_change
resume-Steady (sent peer t failed) w = ground arith
resume-Steady (sent peer t (replied r)) w =
    Steady-trans w (count_sent w) _ (ground arith) (hear_reply-Steady t r.response (count_sent w))
resume-Steady (clocked peer h now) w = ground arith

interleave-Steady : (rs : List Resume) (w : World) → Steady w (interleave rs w)
unfolding interleave
interleave-Steady [] w = Steady-refl w
interleave-Steady (r ∷ rs) w =
    Steady-trans w (resume r w) _ (resume-Steady r w) (interleave-Steady rs (resume r w))

advance-Steady : (ts : List Tick) (w : World) → Steady w (advance ts w)
unfolding advance
advance-Steady [] w = Steady-refl w
advance-Steady (t ∷ ts) w =
    Steady-trans w (record w { ticks = ts; clock = t.time }) _ (ground arith)
      (interleave-Steady t.others (record w { ticks = ts; clock = t.time }))

-- Nor does a whole wait.
pub yield-Steady : (w : World) → Steady w (yield w)
unfolding yield
yield-Steady w = advance-Steady w.ticks w
