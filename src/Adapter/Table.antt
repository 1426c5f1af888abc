-- ===== src/Adapter/Table.antt =====
-- internal/prod/io.go: the table `timers` keeps the timers that fired.
use election_go.Base.{ℕ, ◌+◌, ◌<◌, List, [], ◌∷◌, All, ◌≡◌, refl, arith, length}
use election_go.Engine.{send_rpc, recv, after, cancel, now}
use election_go.Adapter.Dispatch.{
  ProdIo, new_prod_io, count, remove, arm, Action, request, expiry, timer_write, call_return,
  recv_return, stop_mark, close_ch, push, act, run, dispatch,
}
use election_go.Adapter.Timers.{count-remove}

-- A request for a timer counts 1.
abbrev issues : Action → ℕ
issues (request _ (after _) _) = 1
issues _ = 0

-- How many timers a run asks for.
abbrev pub afters : List Action → ℕ
afters [] = 0
afters (a ∷ as') = issues a + afters as'

abbrev pub KeepsTimers : Action → Type 0
KeepsTimers (request _ (cancel _) _) = ⊥
KeepsTimers _ = Unit

remove-absent : (k : ℕ) (xs : List ℕ) → count k xs ≡ 0 → length (remove k xs) ≡ length xs
remove-absent k [] e = refl
remove-absent k (x ∷ xs) e = ground (arith, remove-absent k xs)

-- No key is newer than the last that was issued.
record IsIssued (p : ProdIo) : Type 0 where
  issued : (k : ℕ) → p.next_timer < k → count k p.timers ≡ 0

-- The table is that of an adapter with `n` entries less.
record HasGrown (n : ℕ) (p q : ProdIo) : Type 0 where
  valid : IsIssued q
  longer : length q.timers ≡ n + length p.timers

arm-HasGrown : (p : ProdIo) → IsIssued p → HasGrown 1 p (arm p)
arm-HasGrown p i = record {
  valid = record {
    issued = λ k lt. ground (arith, i.issued k, count-remove k (p.next_timer + 1) p.timers, lt);
  };
  longer = omega (
    arith,
    remove-absent (p.next_timer + 1) p.timers (i.issued (p.next_timer + 1) (omega arith)),
  );
}

act-HasGrown :
    (p : ProdIo) → IsIssued p → (a : Action) → KeepsTimers a → HasGrown (issues a) p (act a p)
unfolding act dispatch
act-HasGrown p i (request clock (after d) cb) f =
    let g = arm-HasGrown p i in
    record { valid = record { issued = g.valid.issued }; longer = g.longer }
act-HasGrown p i (request clock (cancel k) cb) f = absurd f
act-HasGrown p i (request clock (send_rpc peer req) cb) f = record {
  valid = record { issued = i.issued };
  longer = omega arith;
}
act-HasGrown p i (request clock recv cb) f = record {
  valid = record { issued = i.issued };
  longer = omega arith;
}
act-HasGrown p i (request clock now cb) f = record {
  valid = record { issued = i.issued };
  longer = omega arith;
}
act-HasGrown p i (expiry k) f = record {
  valid = record { issued = λ j lt. ground (arith, i.issued j, lt) };
  longer = ground arith;
}
act-HasGrown p i (timer_write k) f = record {
  valid = record { issued = λ j lt. ground (arith, i.issued j, lt) };
  longer = ground arith;
}
act-HasGrown p i (call_return cb result) f = record {
  valid = record { issued = i.issued };
  longer = omega arith;
}
act-HasGrown p i (recv_return cb) f = record {
  valid = record { issued = λ j lt. ground (arith, i.issued j, lt) };
  longer = ground arith;
}
act-HasGrown p i stop_mark f = record { valid = record { issued = i.issued }; longer = omega arith }
act-HasGrown p i close_ch f = record { valid = record { issued = i.issued }; longer = omega arith }
act-HasGrown p i (push e) f = record {
  valid = record { issued = λ j lt. ground (arith, i.issued j, lt) };
  longer = ground arith;
}

run-HasGrown :
    (as' : List Action) (p : ProdIo)
    → IsIssued p
    → All KeepsTimers as'
    → HasGrown (afters as') p (run as' p)
unfolding run
run-HasGrown [] p i f = record { valid = i; longer = omega arith }
run-HasGrown (a ∷ as') p i f =
    let g = act-HasGrown p i a f.0 in
    let r = run-HasGrown as' (act a p) g.valid f.1 in
    record { valid = r.valid; longer = omega (arith, r.longer, g.longer) }

-- As long as no timer is cancelled, the table of a new adapter has an entry for every timer it was
-- asked for, whether the timer fired or not.
pub run-timers_kept :
    (as' : List Action) → All KeepsTimers as' → length (run as' new_prod_io).timers ≡ afters as'
run-timers_kept as' f =
    omega (arith, (run-HasGrown as' new_prod_io (record { issued = λ _ _. refl }) f).longer)
