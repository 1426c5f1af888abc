-- ===== src/Adapter/Tests.antt =====
-- Runs of the production adapter, and the theorems at concrete inputs.
use election_go.Base.{◌≤◌, ◌≡◌, refl, arith, List, [], ◌∷◌, length, true}
use election_go.Engine.{recv, after, cancel}
use election_go.Adapter.Dispatch.{
  ProdIo, new_prod_io, Action, request, expiry, timer_write, recv_return, stop_mark, close_ch, act,
  run, dispatch,
}
use election_go.Adapter.Dispatch.{Completion}
use election_go.Engine.{cancel_done}
use election_go.Base.{ℕ, ◌-◌, false}
use election_go.Adapter.Loop.{Scheduler, batch, EndsEmpty, run_loop, run_loop-EndsEmpty}
use election_go.Adapter.Timers.{timer_count, run-fires_once}
use election_go.Adapter.Cancelled.{cancel-silences, timer_write-panics}
use election_go.Adapter.Table.{afters, run-timers_kept}

-- Two timers, of which the first fires and is read.
abbrev two_timers : List Action
two_timers =
    request 0 (after 50) 1
    ∷ request 0 (after 70) 2
    ∷ request 0 recv 3
    ∷ expiry 1
    ∷ timer_write 1
    ∷ recv_return 3
    ∷ expiry 1
    ∷ timer_write 1
    ∷ []

run-fires_once_example : timer_count 1 (run two_timers new_prod_io).writes ≤ 1
run-fires_once_example =
    run-fires_once two_timers 1 (tt, (tt, (tt, (tt, (tt, (tt, (tt, (tt, tt))))))))

two_timers-fired : timer_count 1 (run two_timers new_prod_io).writes ≡ 1
unfolding run act dispatch
two_timers-fired = refl

two_timers-quiet : (run two_timers new_prod_io).writing ≡ []
unfolding run act dispatch
two_timers-quiet = refl

two_timers-issued : (run two_timers new_prod_io).next_timer ≡ 2
unfolding run act dispatch
two_timers-issued = refl

cancel-silences_example :
    timer_count 2
      (run
        (expiry 2 ∷ timer_write 2 ∷ [])
        (act (request 0 (cancel 2) 4) (run two_timers new_prod_io))).writes
    ≡ timer_count 2 (run two_timers new_prod_io).writes
cancel-silences_example =
    cancel-silences two_timers (expiry 2 ∷ timer_write 2 ∷ []) 2 0 4
      (tt, (tt, (tt, (tt, (tt, (tt, (tt, (tt, tt)))))))) (tt, (tt, tt)) (rw two_timers-quiet)
      (omega (arith, two_timers-issued))

run-timers_kept_example : length (run two_timers new_prod_io).timers ≡ afters two_timers
run-timers_kept_example =
    run-timers_kept two_timers (tt, (tt, (tt, (tt, (tt, (tt, (tt, (tt, tt))))))))

abbrev one_armed : ProdIo
one_armed = record new_prod_io { timers = 1 ∷ []; next_timer = 1; armed = 1 ∷ [] }

timer_write-panics_example :
    (run (expiry 1 ∷ stop_mark ∷ close_ch ∷ timer_write 1 ∷ []) one_armed).panicked ≡ true
timer_write-panics_example = timer_write-panics 1 one_armed refl refl

-- Two coroutines, each of which ends with its completion.
abbrev countdown : Scheduler
countdown = record { Sched = ℕ; size = λ n. n; run_until_blocked = λ _ n. n; call = λ _ n. n - 1 }

abbrev woken : Completion
woken = record { callback = 1; resp = cancel_done }

run_loop-EndsEmpty_example :
    EndsEmpty countdown
      (run_loop countdown 0 (batch 5 woken [] false ∷ batch 6 woken [] false ∷ []) 2)
run_loop-EndsEmpty_example =
    run_loop-EndsEmpty countdown 0 (batch 5 woken [] false ∷ batch 6 woken [] false ∷ []) 2
      (refl, (refl, tt))
