-- ===== src/Adapter/Timers.antt =====
-- internal/prod/io.go: what becomes of a timer between `After` and its event.
use election_go.Base.{
  ℕ, suc, ◌+◌, ◌<◌, ◌≤◌, ◌==◌, Bool, true, false, List, [], ◌∷◌, ◌++◌, All, if◌then◌else◌, ◌≡◌,
  refl, arith,
}
use election_go.Engine.{send_rpc, recv, after, cancel, now, Event, EventKind, event_timer}
use election_go.Adapter.Dispatch.{
  ProdIo, new_prod_io, count, remove, write, arm, disarm, timer_event, expire, write_timer, Action,
  request, expiry, timer_write, call_return, recv_return, stop_mark, close_ch, push, act, run,
  dispatch,
}

abbrev pub is_timer : EventKind → Bool
is_timer event_timer = true
is_timer _ = false

-- How many events of the timer `id` a list holds.
abbrev pub timer_count : ℕ → List Event → ℕ
timer_count id [] = 0
timer_count id (e ∷ es) =
    let rest = timer_count id es in
    if is_timer e.kind then (if id == e.timer_id then suc rest else rest) else rest

-- Other goroutines write no timer events.
abbrev pub IsForeign : Action → Type 0
IsForeign (push e) = is_timer e.kind ≡ false
IsForeign _ = Unit

pub count-remove :
    (j k : ℕ) (xs : List ℕ) → count j (remove k xs) ≡ (if j == k then 0 else count j xs)
count-remove j k [] = ground arith
count-remove j k (x ∷ xs) = ground (arith, count-remove j k xs)

pub timer_count-append :
    (id : ℕ) (es : List Event) (e : Event)
    → timer_count id (es ++ (e ∷ [])) ≡ timer_count id es + timer_count id (e ∷ [])
timer_count-append id [] e = omega arith
timer_count-append id (x ∷ es) e = ground (arith, timer_count-append id es e)

-- The events of the timer that are or may still be written.
abbrev pub pending : ℕ → ProdIo → ℕ
pending id p = count id p.armed + (count id p.writing + timer_count id p.writes)

pub record IsOnce (id : ℕ) (p : ProdIo) : Type 0 where
  pub once : pending id p ≤ 1
  pub fresh : p.next_timer < id → pending id p ≡ 0
  pub listed : count id p.armed ≤ count id p.timers

module _ (id : ℕ) (p : ProdIo) (o : IsOnce id p) where
  arm-IsOnce : IsOnce id (arm p)
  arm-IsOnce = record {
    once = ground (arith, o.once, o.fresh);
    fresh = ground (arith, o.fresh);
    listed = ground (arith, o.listed, count-remove id (p.next_timer + 1) p.timers, o.fresh);
  }

  disarm-IsOnce : (k : ℕ) → IsOnce id (disarm k p)
  disarm-IsOnce k =
      let ts = count-remove id k p.timers in
      let as' = count-remove id k p.armed in
      record {
        once = ground (arith, o.once, as');
        fresh = ground (arith, o.fresh, as');
        listed = ground (arith, o.listed, ts, as');
      }

  expire-IsOnce : (k : ℕ) → IsOnce id (expire k p)
  expire-IsOnce k =
      let as' = count-remove id k p.armed in
      record {
        once = ground (arith, o.once, as');
        fresh = ground (arith, o.fresh, as');
        listed = ground (arith, o.listed, as');
      }

  write_timer-IsOnce : (k : ℕ) → IsOnce id (write_timer k p)
  write_timer-IsOnce k =
      let ws = count-remove id k p.writing in
      let es = timer_count-append id p.writes (timer_event k) in
      record {
        once = ground (arith, o.once, ws, es);
        fresh = ground (arith, o.fresh, ws, es);
        listed = ground (arith, o.listed);
      }

  write-IsOnce : (e : Event) → is_timer e.kind ≡ false → IsOnce id (write e p)
  write-IsOnce e f =
      let es = timer_count-append id p.writes e in
      record {
        once = ground (arith, o.once, es);
        fresh = ground (arith, o.fresh, es);
        listed = ground (arith, o.listed);
      }

act-IsOnce : (id : ℕ) (p : ProdIo) → IsOnce id p → (a : Action) → IsForeign a → IsOnce id (act a p)
unfolding act dispatch
act-IsOnce id p o (request clock (send_rpc peer req) cb) f = record {
  once = o.once;
  fresh = o.fresh;
  listed = o.listed;
}
act-IsOnce id p o (request clock recv cb) f = record {
  once = o.once;
  fresh = o.fresh;
  listed = o.listed;
}
act-IsOnce id p o (request clock (after d) cb) f =
    let r = arm-IsOnce id p o in record { once = r.once; fresh = r.fresh; listed = r.listed }
act-IsOnce id p o (request clock (cancel k) cb) f =
    let r = disarm-IsOnce id p o k in record { once = r.once; fresh = r.fresh; listed = r.listed }
act-IsOnce id p o (request clock now cb) f = record {
  once = o.once;
  fresh = o.fresh;
  listed = o.listed;
}
act-IsOnce id p o (expiry k) f = expire-IsOnce id p o k
act-IsOnce id p o (timer_write k) f = write_timer-IsOnce id p o k
act-IsOnce id p o (call_return cb result) f = record {
  once = o.once;
  fresh = o.fresh;
  listed = o.listed;
}
act-IsOnce id p o (recv_return cb) f = record {
  once = ground (arith, o.once);
  fresh = ground (arith, o.fresh);
  listed = ground (arith, o.listed);
}
act-IsOnce id p o stop_mark f = record { once = o.once; fresh = o.fresh; listed = o.listed }
act-IsOnce id p o close_ch f = record { once = o.once; fresh = o.fresh; listed = o.listed }
act-IsOnce id p o (push e) f = write-IsOnce id p o e f

pub run-IsOnce :
    (id : ℕ) (as' : List Action) (p : ProdIo)
    → IsOnce id p
    → All IsForeign as'
    → IsOnce id (run as' p)
unfolding run
run-IsOnce id [] p o f = o
run-IsOnce id (a ∷ as') p o f = run-IsOnce id as' (act a p) (act-IsOnce id p o a f.0) f.1

pub new_prod_io-IsOnce : (id : ℕ) → IsOnce id new_prod_io
new_prod_io-IsOnce id = record { once = omega arith; fresh = λ _. refl; listed = omega arith }

-- In any run of a new adapter in which only its timers write timer events, a timer writes its event
-- at most once.
pub run-fires_once :
    (as' : List Action) (id : ℕ)
    → All IsForeign as'
    → timer_count id (run as' new_prod_io).writes ≤ 1
run-fires_once as' id f =
    omega (arith, (run-IsOnce id as' new_prod_io (new_prod_io-IsOnce id) f).once)
