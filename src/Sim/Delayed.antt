-- ===== src/Sim/Delayed.antt =====
-- internal/sim/sim.go: what every step of the simulation does to the clock and to the delayed RPCs.
use election_go.Base.{
  ℕ, ◌≡◌, ◌≤◌, refl, sym, ap, ◌∙◌, Option-cases, List, [], ◌∷◌, ◌++◌, some, inl, inr, arith,
  if◌then◌else◌,
}
use mathlib.Core.List.{append-nil, append_assoc}
use election_go.Sim.Cluster.{Runtime, PendingRpc, Simulation}
use election_go.Sim.Network.{is_zero, take_ready}
use election_go.Sim.Steps.{step}
use election_go.Sim.Rule.{Closed}
use election_go.Sim.Rule.Steps.{StepLeads, step-StepLeads}

-- The RPCs with an artificial delay, in the order of the queue.
abbrev pub delayed : List PendingRpc → List PendingRpc
delayed [] = []
delayed (r ∷ rs) = if is_zero r.deliver_at then delayed rs else r ∷ delayed rs

delayed-append : (xs ys : List PendingRpc) → delayed (xs ++ ys) ≡ delayed xs ++ delayed ys
delayed-append [] ys = refl
delayed-append (x ∷ xs) ys = ground (arith, delayed-append xs ys)

delayed-take_ready :
    (xs : List PendingRpc) (r : PendingRpc) (rest : List PendingRpc)
    → take_ready xs ≡ some (r, rest)
    → delayed rest ≡ delayed xs
unfolding take_ready
delayed-take_ready [] r rest e = cc
delayed-take_ready (x ∷ xs) r rest e = elim (Option-cases (take_ready xs)) [
  | inl n ↦ ground (arith, n)
  | inr y ↦ ground (arith, delayed-take_ready xs y.0.0 y.0.1 y.1)
]

module _ (rt : Runtime) where
  -- From `s` to `s'` the clock does not go back, and the delayed RPCs stay queued, in order, before
  -- any that come in.
  pub record Follows (s s' : Simulation rt) : Type 0 where
    pub clock : s.clock ≤ s'.clock
    pub waiting : List PendingRpc
    pub kept : delayed s'.rpc_queue ≡ delayed s.rpc_queue ++ waiting

  -- The clock may go on, and the delayed RPCs are those of before.
  still :
      (s s' : Simulation rt)
      → s.clock ≤ s'.clock
      → delayed s'.rpc_queue ≡ delayed s.rpc_queue
      → Follows s s'
  still s s' c q = record { clock = c; waiting = []; kept = q ∙ sym (append-nil _) }

  Follows-Closed : Closed rt Follows
  Follows-Closed = record {
    quiet = λ s s' e. still s s' (omega (arith, e.clock)) (ap delayed e.rpc_queue);
    trans = λ s s' s'' p q. record {
      clock = omega (arith, p.clock, q.clock);
      waiting = p.waiting ++ q.waiting;
      kept = rw (q.kept, p.kept) (append_assoc (delayed s.rpc_queue) p.waiting q.waiting);
    };
    enqueues = λ s r. record {
      clock = omega arith;
      waiting = delayed (r ∷ []);
      kept = delayed-append s.rpc_queue (r ∷ []);
    };
    dequeues = λ s r rest e.
        still s (record s { rpc_queue = rest }) (omega arith)
          (delayed-take_ready s.rpc_queue r rest e);
    arms = λ s x. still s _ (omega arith) refl;
    cancels = λ s id. still s _ (omega arith) refl;
    pops = λ s. still s _ (omega arith) refl;
    advances = λ s t l. still s (record s { clock = t }) l refl;
  }

  -- A step of the simulation never turns the clock back, and takes no delayed RPC out of the queue:
  -- they stay there in order.
  pub step-Follows : (k : ℕ) (s : Simulation rt) → StepLeads Follows s (step rt k s)
  step-Follows k s = step-StepLeads rt Follows Follows-Closed k s
