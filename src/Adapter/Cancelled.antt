-- ===== src/Adapter/Cancelled.antt =====
-- internal/prod/io.go: a cancelled timer stays silent, fired timers stay in the table, and a timer
-- function that passed its test before `Stop` writes to the closed channel.
use election_go.Base.{ℕ, ◌≤◌, true, false, List, [], ◌∷◌, All, ◌≡◌, arith}
use election_go.Engine.{send_rpc, recv, after, cancel, now}
use election_go.Adapter.Dispatch.{
  ProdIo, new_prod_io, count, mem, disarm, timer_event, Action, request, expiry, timer_write,
  call_return, recv_return, stop_mark, close_ch, push, act, run, dispatch,
}
use election_go.Adapter.Timers.{
  timer_count, IsForeign, count-remove, timer_count-append, IsOnce, run-IsOnce, new_prod_io-IsOnce,
}

-- The timer was issued and will write nothing more.
record IsSilent (id written : ℕ) (p : ProdIo) : Type 0 where
  armed : count id p.armed ≡ 0
  writing : count id p.writing ≡ 0
  writes : timer_count id p.writes ≡ written
  issued : id ≤ p.next_timer

act-IsSilent :
    (id c : ℕ) (p : ProdIo) → IsSilent id c p → (a : Action) → IsForeign a → IsSilent id c (act a p)
unfolding act dispatch
act-IsSilent id c p s (push e) f = record {
  armed = ground (arith, s.armed);
  writing = ground (arith, s.writing);
  writes = ground (arith, s.writes, timer_count-append id p.writes e);
  issued = ground (arith, s.issued);
}
act-IsSilent id c p s (timer_write k) f =
    let ws = count-remove id k p.writing in
    let es = timer_count-append id p.writes (timer_event k) in
    record {
      armed = ground (arith, s.armed);
      writing = ground (arith, s.writing, ws);
      writes = ground (arith, s.writes, s.writing, es);
      issued = ground (arith, s.issued);
    }
act-IsSilent id c p s (expiry k) f =
    let as' = count-remove id k p.armed in
    record {
      armed = ground (arith, s.armed, as');
      writing = ground (arith, s.armed, s.writing, as');
      writes = ground (arith, s.writes);
      issued = ground (arith, s.issued);
    }
act-IsSilent id c p s (request clock (after d) cb) f = record {
  armed = ground (arith, s.armed, s.issued);
  writing = s.writing;
  writes = s.writes;
  issued = omega (arith, s.issued);
}
act-IsSilent id c p s (request clock (cancel k) cb) f = record {
  armed = ground (arith, s.armed, count-remove id k p.armed);
  writing = ground (arith, s.writing);
  writes = ground (arith, s.writes);
  issued = ground (arith, s.issued);
}
act-IsSilent id c p s (request clock (send_rpc peer req) cb) f = record {
  armed = s.armed;
  writing = s.writing;
  writes = s.writes;
  issued = s.issued;
}
act-IsSilent id c p s (request clock recv cb) f = record {
  armed = s.armed;
  writing = s.writing;
  writes = s.writes;
  issued = s.issued;
}
act-IsSilent id c p s (request clock now cb) f = record {
  armed = s.armed;
  writing = s.writing;
  writes = s.writes;
  issued = s.issued;
}
act-IsSilent id c p s (call_return cb result) f = record {
  armed = s.armed;
  writing = s.writing;
  writes = s.writes;
  issued = s.issued;
}
act-IsSilent id c p s (recv_return cb) f = record {
  armed = ground (arith, s.armed);
  writing = ground (arith, s.writing);
  writes = ground (arith, s.writes);
  issued = ground (arith, s.issued);
}
act-IsSilent id c p s stop_mark f = record {
  armed = s.armed;
  writing = s.writing;
  writes = s.writes;
  issued = s.issued;
}
act-IsSilent id c p s close_ch f = record {
  armed = s.armed;
  writing = s.writing;
  writes = s.writes;
  issued = s.issued;
}

run-IsSilent :
    (id c : ℕ) (as' : List Action) (p : ProdIo)
    → IsSilent id c p
    → All IsForeign as'
    → IsSilent id c (run as' p)
unfolding run
run-IsSilent id c [] p s f = s
run-IsSilent id c (a ∷ as') p s f =
    run-IsSilent id c as' (act a p) (act-IsSilent id c p s a f.0) f.1

disarm-IsSilent :
    (id : ℕ) (p : ProdIo)
    → IsOnce id p
    → count id p.writing ≡ 0
    → id ≤ p.next_timer
    → IsSilent id (timer_count id p.writes) (disarm id p)
disarm-IsSilent id p o w i = record {
  armed = ground (arith, count-remove id id p.armed, o.listed);
  writing = ground arith;
  writes = ground arith;
  issued = ground arith;
}

-- Once a timer that was issued, and whose function is not about to write, is cancelled, it writes
-- nothing more in any run in which only timers write timer events.
pub cancel-silences :
    (before rest : List Action) (id clock cb : ℕ)
    → All IsForeign before
    → All IsForeign rest
    → let p = run before new_prod_io in
      count id p.writing ≡ 0
      → id ≤ p.next_timer
      → timer_count id (run rest (act (request clock (cancel id) cb) p)).writes
        ≡ timer_count id p.writes
unfolding act dispatch
cancel-silences before rest id clock cb f g w i =
    let p = run before new_prod_io in
    let d = disarm-IsSilent id p (run-IsOnce id before new_prod_io (new_prod_io-IsOnce id) f) w i in
    let s : IsSilent id (timer_count id p.writes) (act (request clock (cancel id) cb) p) = record {
      armed = d.armed;
      writing = d.writing;
      writes = d.writes;
      issued = d.issued;
    } in
    (run-IsSilent id (timer_count id p.writes) rest _ s g).writes

-- A timer function that starts before the adapter is marked as stopped and writes after the channel
-- is closed panics.
pub timer_write-panics :
    (id : ℕ) (p : ProdIo)
    → mem id p.armed ≡ true
    → p.stopped ≡ false
    → (run (expiry id ∷ stop_mark ∷ close_ch ∷ timer_write id ∷ []) p).panicked ≡ true
unfolding run act
timer_write-panics id p m s = ground arith
