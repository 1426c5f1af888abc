-- ===== src/Adapter/Dispatch.antt =====
-- internal/prod/io.go: ProdIO, Dispatch, and the bodies of the goroutines and timers it starts. The
-- runtime is a list of actions: which pending goroutine goes on, which armed timer expires, and
-- what other goroutines do to the event channel.
use election_go.Base.{
  ℕ, suc, ltb, ◌+◌, ◌==◌, String, Bool, true, false, List, [], ◌∷◌, ◌++◌, if◌then◌else◌,
}
use election_go.Engine.{
  Req, send_rpc, recv, after, cancel, now, Resp, sent, received, armed_as, cancel_done, time,
  RpcRequest, SendResult, Event, event_timer, event_shutdown,
}
use election_go.Node.Lifecycle.{plain}

-- A goroutine of the case `SendRPC`, with the callback it will complete.
pub record Call : Type 0 where
  pub callback : ℕ
  pub peer : String
  pub rpc_req : RpcRequest

-- A callback and its response, as in `Completion`.
pub record Completion : Type 0 where
  pub callback : ℕ
  pub resp : Resp

-- The keys of `timers` stand for its entries. `armed` are the timers of the runtime that were
-- neither stopped nor expired, `writing` those whose function passed its test and will write,
-- `calls` and `recvs` the goroutines that wait, `event_ch` what waits in the channel, `writes` all
-- that was ever written to it, and `answers` the callbacks that `Dispatch` called at once.
pub record ProdIo : Type 0 where
  pub timers : List ℕ
  pub next_timer : ℕ
  pub stopped : Bool
  pub armed : List ℕ
  pub writing : List ℕ
  pub event_ch : List Event
  pub writes : List Event
  pub closed : Bool
  pub panicked : Bool
  pub calls : List Call
  pub recvs : List ℕ
  pub complete_ch : List Completion
  pub answers : List Completion

abbrev pub count : ℕ → List ℕ → ℕ
count k [] = 0
count k (x ∷ xs) = if k == x then suc (count k xs) else count k xs

abbrev pub mem : ℕ → List ℕ → Bool
mem k xs = ltb 0 (count k xs)

abbrev pub remove : ℕ → List ℕ → List ℕ
remove k [] = []
remove k (x ∷ xs) = let rest = remove k xs in if k == x then rest else x ∷ rest

abbrev remove_call : ℕ → List Call → List Call
remove_call k [] = []
remove_call k (c ∷ cs) = let rest = remove_call k cs in if k == c.callback then rest else c ∷ rest

abbrev pub new_prod_io : ProdIo
new_prod_io = record {
  timers = [];
  next_timer = 0;
  stopped = false;
  armed = [];
  writing = [];
  event_ch = [];
  writes = [];
  closed = false;
  panicked = false;
  calls = [];
  recvs = [];
  complete_ch = [];
  answers = [];
}

abbrev pub set_stopped : ProdIo → ProdIo
set_stopped p = record p { stopped = true }

abbrev answer : ℕ → Resp → ProdIo → ProdIo
answer cb resp p = record p { answers = p.answers ++ (record { callback = cb; resp = resp } ∷ []) }

abbrev complete : ℕ → Resp → ProdIo → ProdIo
complete cb resp p = record p {
  complete_ch = p.complete_ch ++ (record { callback = cb; resp = resp } ∷ []);
}

-- `eventCh <- e`, which panics on a closed channel.
abbrev pub write : Event → ProdIo → ProdIo
write e p =
    if p.closed
    then record p { panicked = true }
    else record p { event_ch = p.event_ch ++ (e ∷ []); writes = p.writes ++ (e ∷ []) }

-- The case `After`: the entry of a key that is in the map already would be replaced.
abbrev pub arm : ProdIo → ProdIo
arm p =
    let id = p.next_timer + 1 in
    record p { next_timer = id; timers = id ∷ remove id p.timers; armed = id ∷ p.armed }

-- The case `Cancel`: `Stop` keeps an armed timer from ever expiring.
abbrev pub disarm : ℕ → ProdIo → ProdIo
disarm id p =
    if mem id p.timers
    then record p { timers = remove id p.timers; armed = remove id p.armed }
    else p

-- `clock` is what `time.Now` returns if the request asks for it.
unfoldable pub dispatch : ℕ → Req → ℕ → ProdIo → ProdIo
dispatch clock (send_rpc peer req) cb p = record p {
  calls = record { callback = cb; peer = peer; rpc_req = req } ∷ p.calls;
}
dispatch clock recv cb p = record p { recvs = cb ∷ p.recvs }
dispatch clock (after delay) cb p = answer cb (armed_as (p.next_timer + 1)) (arm p)
dispatch clock (cancel id) cb p = answer cb cancel_done (disarm id p)
dispatch clock now cb p = answer cb (time clock) p

abbrev pub timer_event : ℕ → Event
timer_event id = record (plain event_timer) { timer_id = id }

-- The function given to `time.AfterFunc` starts: a timer that is not armed never does.
abbrev pub expire : ℕ → ProdIo → ProdIo
expire id p =
    if mem id p.armed
    then if p.stopped
      then record p { armed = remove id p.armed }
      else record p { armed = remove id p.armed; writing = id ∷ p.writing }
    else p

-- The function writes its event.
abbrev pub write_timer : ℕ → ProdIo → ProdIo
write_timer id p =
    if mem id p.writing
    then write (timer_event id) (record p { writing = remove id p.writing })
    else p

-- The goroutine of `SendRPC` goes on when `conf.SendRPC` returned `result`.
abbrev pub finish_call : ℕ → SendResult → ProdIo → ProdIo
finish_call cb result p = complete cb (sent result) (record p { calls = remove_call cb p.calls })

-- A goroutine of `Recv` goes on: with the first event of the channel, or with a shutdown if the
-- channel is closed and empty.
abbrev pub finish_recv : ℕ → ProdIo → ProdIo
finish_recv cb p = elim p.event_ch [
  | e ∷ rest ↦ complete cb (received e) (record p { recvs = remove cb p.recvs; event_ch = rest })
  | [] ↦
      if p.closed
      then complete cb (received (plain event_shutdown)) (record p { recvs = remove cb p.recvs })
      else p
]

-- What happens next. `push` is a write by another goroutine, which the node's methods do.
pub data Action : Type 0 where
  request : ℕ → Req → ℕ → Action
  expiry : ℕ → Action
  timer_write : ℕ → Action
  call_return : ℕ → SendResult → Action
  recv_return : ℕ → Action
  stop_mark close_ch : Action
  push : Event → Action

unfoldable pub act : Action → ProdIo → ProdIo
act (request clock req cb) p = dispatch clock req cb p
act (expiry id) p = expire id p
act (timer_write id) p = write_timer id p
act (call_return cb result) p = finish_call cb result p
act (recv_return cb) p = finish_recv cb p
act stop_mark p = set_stopped p
act close_ch p = record p { closed = true }
act (push e) p = write e p

unfoldable pub run : List Action → ProdIo → ProdIo
run [] p = p
run (a ∷ as') p = run as' (act a p)
