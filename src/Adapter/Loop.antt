-- ===== src/Adapter/Loop.antt =====
-- internal/prod/loop.go: Run. The scheduler is not part of the repository and stands in the parameter
-- `Scheduler`.
use election_go.Base.{
  ℕ, ◌==◌, ◌≡◌, ◌≢◌, Bool, false, List, [], ◌∷◌, All, if◌then◌else◌, arith, if_elim,
}
use election_go.Adapter.Dispatch.{Completion}

-- `call` is the call of a completion's callback with its response.
pub record Scheduler : Type 1 where
  pub Sched : Type 0
  pub size : Sched → ℕ
  pub run_until_blocked : ℕ → Sched → Sched
  pub call : Completion → Sched → Sched

-- What a wait for `completeCh` finds, after the wall-clock time `now`: that the channel is closed, or
-- a completion and those ready behind it, and whether the channel is closed behind them.
pub data Wait : Type 0 where
  closed : ℕ → Wait
  batch : ℕ → Completion → List Completion → Bool → Wait

-- `Run` closed `doneCh`, or waits for the next completion.
pub data Ended (S : Type 0) : Type 0 where
  done : S → Ended S
  waiting : S → Ended S

abbrev pub time_of : Wait → ℕ
time_of (closed t) = t
time_of (batch t _ _ _) = t

module _ (sc : Scheduler) where
  unfoldable pub call_all : List Completion → sc.Sched → sc.Sched
  call_all [] s = s
  call_all (c ∷ cs) s = call_all cs (sc.call c s)

  -- One round of the loop for each wait, after that of `now`; the last one is still waiting.
  unfoldable pub run_loop : ℕ → List Wait → sc.Sched → Ended sc.Sched
  run_loop now [] s =
      let s' = sc.run_until_blocked now s in
      if sc.size s == 0 then done s else if sc.size s' == 0 then done s' else waiting s'
  run_loop now (closed t ∷ ws) s =
      let s' = sc.run_until_blocked now s in if sc.size s == 0 then done s else done s'
  run_loop now (batch t c cs over ∷ ws) s =
      let s' = sc.run_until_blocked now s in
      let s'' = call_all (c ∷ cs) s' in
      let rest = run_loop t ws s'' in
      if sc.size s == 0
      then done s
      else if sc.size s' == 0
      then done s'
      else if over
      then done s''
      else rest

  -- The channel stays open.
  abbrev pub StaysOpen : Wait → Type 0
  StaysOpen (closed _) = ⊥
  StaysOpen (batch _ _ _ over) = over ≡ false

  abbrev pub EndsEmpty : Ended sc.Sched → Type 0
  EndsEmpty (done s) = sc.size s ≡ 0
  EndsEmpty (waiting s) = sc.size s ≢ 0

  -- With the completion channel open, `Run` closes `doneCh` exactly when no coroutine is left, and
  -- waits for a completion as long as one is.
  pub run_loop-EndsEmpty :
      (now : ℕ) (ws : List Wait) (s : sc.Sched) → All StaysOpen ws → EndsEmpty (run_loop now ws s)
  unfolding run_loop
  run_loop-EndsEmpty now [] s o =
      let s' = sc.run_until_blocked now s in
      if_elim EndsEmpty (sc.size s == 0) (λ e. ground arith)
        (λ _. if_elim EndsEmpty (sc.size s' == 0) (λ e. ground arith) (λ n e. ground arith))
  run_loop-EndsEmpty now (closed t ∷ ws) s o = absurd o.0
  run_loop-EndsEmpty now (batch t c cs over ∷ ws) s o =
      let s' = sc.run_until_blocked now s in
      if_elim EndsEmpty (sc.size s == 0) (λ e. ground arith)
        (λ _.
          if_elim EndsEmpty (sc.size s' == 0) (λ e. ground arith)
            (λ _. rw o.0 (run_loop-EndsEmpty t ws (call_all (c ∷ cs) s') o.1)))
