-- ===== src/Cluster/Calm.antt =====
-- A wait of a node in which no reply to a heartbeat carries a newer term leaves its term alone.
use election_go.Base.{ℕ, ◌≡◌, refl, ◌∙◌, subst, sym, List, [], ◌∷◌, All, arith}
use election_go.Engine.{Response, heart_beat_resp, failed, replied}
use election_go.Node.World.{
  World, Resume, sent, clocked, fire_on_change, store_metadata, count_sent, hear_reply,
  heartbeat_sent, heartbeat_clocked, resume, interleave, Tick, advance, yield,
}
use election_go.Node.Votes.{IsTimely, IsCalm, AreCalm}

hear_reply-term :
    (t : ℕ) (r : Response) (w : World)
    → IsTimely t r
    → (hear_reply t r w).node.current_term ≡ w.node.current_term
unfolding hear_reply
hear_reply-term t (heart_beat_resp m) w c = ground arith
hear_reply-term t _ w c = refl

pub resume-term :
    (r : Resume) (w : World) → IsCalm r → (resume r w).node.current_term ≡ w.node.current_term
unfolding resume heartbeat_sent heartbeat_clocked store_metadata fire_on_change
resume-term (sent peer t failed) w c = refl
resume-term (sent peer t (replied r)) w c = hear_reply-term t r.response (count_sent w) c
resume-term (clocked peer m now) w c = ground arith

resume-ticks : (r : Resume) (w : World) → (resume r w).ticks ≡ w.ticks
unfolding resume heartbeat_sent heartbeat_clocked store_metadata fire_on_change hear_reply
resume-ticks (sent peer t failed) w = refl
resume-ticks (sent peer t (replied r)) w = reply r.response
  where
    reply : (x : Response) → (hear_reply t x (count_sent w)).ticks ≡ w.ticks
    reply (heart_beat_resp h) = refl
    reply _ = refl
resume-ticks (clocked peer m now) w = ground arith

interleave-calm :
    (rs : List Resume) (w : World)
    → All IsCalm rs
    → ((interleave rs w).node.current_term ≡ w.node.current_term)
      × ((interleave rs w).ticks ≡ w.ticks)
unfolding interleave
interleave-calm [] w c = (refl, refl)
interleave-calm (r ∷ rs) w c =
    let rest = interleave-calm rs (resume r w) c.1 in
    (rest.0 ∙ resume-term r w c.0, rest.1 ∙ resume-ticks r w)

advance-calm :
    (ts : List Tick) (w : World)
    → AreCalm ts
    → w.ticks ≡ ts
    → ((advance ts w).node.current_term ≡ w.node.current_term) × AreCalm (advance ts w).ticks
unfolding advance
advance-calm [] w c e = (refl, subst AreCalm (sym e) c)
advance-calm (t ∷ ts) w c e =
    let rest = interleave-calm t.others (record w { ticks = ts; clock = t.time }) c.0 in
    (rest.0, subst AreCalm (sym rest.1) c.1)

pub yield-calm :
    (w : World)
    → AreCalm w.ticks
    → ((yield w).node.current_term ≡ w.node.current_term) × AreCalm (yield w).ticks
unfolding yield
yield-calm w c = advance-calm w.ticks w c refl

resume-ballots : (r : Resume) (w : World) → (resume r w).ballots ≡ w.ballots
unfolding resume heartbeat_sent heartbeat_clocked store_metadata fire_on_change hear_reply
resume-ballots (sent peer t failed) w = refl
resume-ballots (sent peer t (replied r)) w = reply r.response
  where
    reply : (x : Response) → (hear_reply t x (count_sent w)).ballots ≡ w.ballots
    reply (heart_beat_resp h) = refl
    reply _ = refl
resume-ballots (clocked peer m now) w = ground arith

interleave-ballots : (rs : List Resume) (w : World) → (interleave rs w).ballots ≡ w.ballots
unfolding interleave
interleave-ballots [] w = refl
interleave-ballots (r ∷ rs) w = interleave-ballots rs (resume r w) ∙ resume-ballots r w

advance-ballots : (ts : List Tick) (w : World) → (advance ts w).ballots ≡ w.ballots
unfolding advance
advance-ballots [] w = refl
advance-ballots (t ∷ ts) w = interleave-ballots t.others (record w { ticks = ts; clock = t.time })

-- Nor does a wait change the answers to come.
pub yield-ballots : (w : World) → (yield w).ballots ≡ w.ballots
unfolding yield
yield-ballots w = advance-ballots w.ticks w
