-- ===== src/Sim/Reached.antt =====
-- internal/sim/sim.go: the states that a test brings a simulation to, by New, RunFor, RunUntilLeader,
-- the events it sends and the faults it sets.
use election_go.Base.{ℕ, ◌+◌, ◌≡◌, false, none, some, String, List}
use election_go.Sim.Heap.{peek, earlier}
use election_go.Sim.Heap.Index.{Holds}
use election_go.Sim.Heap.Registry.{IsIndexed, Made-IsIndexed}
use election_go.Sim.Heap.Reached.{peek-earliest}
use election_go.Sim.Cluster.{Runtime, Simulation, find_node}
use election_go.Sim.Network.{partition, heal_all, set_drop_rate, set_node_drop_rate, set_delay}
use election_go.Sim.Runs.{
  SimConfig, new, unless_unknown, run_for, Election, Resigned, max_steps, run_until_leader,
  set_peers, set_metadata, resign,
}
use election_go.Engine.{Bytes, event_resign}
use election_go.Node.Lifecycle.{plain}
use election_go.Sim.Timed.{
  IsTimed, new-IsTimed, run_to-IsTimed, send_event-IsTimed, partition-IsTimed, elect-IsTimed,
}

module _ (rt : Runtime) where
  unless_unknown_elim :
      {A : Type 0} (P : A → Type 0) (id : String) (missing there : A) (s : Simulation rt)
      → P missing
      → P there
      → P (unless_unknown rt id missing there s)
  unless_unknown_elim P id missing there s p q =
      elim (find_node rt id s.nodes) as (λ x. P (elim x [ none ↦ missing | some _ ↦ there ])) [
        | none ↦ p
        | some _ ↦ q
      ]

  -- The states that a test brings a simulation to.
  pub data Reached : Simulation rt → Type 0 where
    created :
        (ids : List String) (start : ℕ) (random : ℕ → ℕ) (conf : SimConfig rt) (s : Simulation rt)
        → new rt ids start random conf ≡ some s
        → Reached s
    ran : (k d : ℕ) (s s' : Simulation rt) → Reached s → run_for rt k d s ≡ some s' → Reached s'
    ran_until_leader :
        (k : ℕ) (s : Simulation rt) (r : Election × Simulation rt)
        → Reached s
        → run_until_leader rt k s ≡ some r
        → Reached r.1
    got_peers :
        (id : String) (peers : List String) (s : Simulation rt)
        → Reached s
        → Reached (set_peers rt id peers s)
    got_metadata :
        (id : String) (metadata : Bytes) (s : Simulation rt)
        → Reached s
        → Reached (set_metadata rt id metadata s)
    got_resign : (id : String) (s : Simulation rt) → Reached s → Reached (resign rt id s).1
    got_partition :
        (as' bs : List String) (s : Simulation rt) → Reached s → Reached (partition rt as' bs s)
    got_healed : (s : Simulation rt) → Reached s → Reached (heal_all rt s)
    got_drop_rate :
        (rate : rt.Rate) (s : Simulation rt) → Reached s → Reached (set_drop_rate rt rate s)
    got_node_drop_rate :
        (id : String) (rate : rt.Rate) (s : Simulation rt)
        → Reached s
        → Reached (set_node_drop_rate rt id rate s)
    got_delay :
        (from to : String) (d : ℕ) (s : Simulation rt)
        → Reached s
        → Reached (set_delay rt from to d s)

  Reached-IsTimed : (s : Simulation rt) → Reached s → IsTimed rt s
  unfolding run_for run_until_leader set_peers set_metadata resign heal_all set_drop_rate
      set_node_drop_rate set_delay
  Reached-IsTimed _ (created ids start random conf s e) = new-IsTimed rt ids start random conf s e
  Reached-IsTimed _ (ran k d s s' p e) =
      run_to-IsTimed rt k (s.clock + d) s s' e (Reached-IsTimed s p)
  Reached-IsTimed _ (ran_until_leader k s r p e) =
      elect-IsTimed rt max_steps k s r e (Reached-IsTimed s p)
  Reached-IsTimed _ (got_peers id peers s p) =
      let v = Reached-IsTimed s p in
      unless_unknown_elim (IsTimed rt) id s _ s v (send_event-IsTimed rt id _ s v)
  Reached-IsTimed _ (got_metadata id metadata s p) =
      let v = Reached-IsTimed s p in
      unless_unknown_elim (IsTimed rt) id s _ s v (send_event-IsTimed rt id _ s v)
  Reached-IsTimed _ (got_resign id s p) =
      let v = Reached-IsTimed s p in
      unless_unknown_elim (λ (r : Resigned × Simulation rt). IsTimed rt r.1) id _ _ s v
        (send_event-IsTimed rt id (plain event_resign) s v)
  Reached-IsTimed _ (got_partition as' bs s p) = partition-IsTimed rt as' bs s (Reached-IsTimed s p)
  Reached-IsTimed _ (got_healed s p) =
      let v = Reached-IsTimed s p in record { made = v.made; fresh = v.fresh }
  Reached-IsTimed _ (got_drop_rate rate s p) =
      let v = Reached-IsTimed s p in record { made = v.made; fresh = v.fresh }
  Reached-IsTimed _ (got_node_drop_rate id rate s p) =
      let v = Reached-IsTimed s p in record { made = v.made; fresh = v.fresh }
  Reached-IsTimed _ (got_delay from to d s p) =
      let v = Reached-IsTimed s p in record { made = v.made; fresh = v.fresh }

  -- In every state that a test brings a simulation to and in which `Peek` shows a timer, the timers
  -- know their places in the heap, a registered timer is in the heap under its own id, no timer fires
  -- before the one that `Peek` shows, and none at the same time has a lower id.
  pub Reached-IsIndexed :
      (s : Simulation rt) (t x : ℕ)
      → Reached s
      → peek s.timer_heap ≡ some t
      → Holds s.timer_heap x
      → IsIndexed s.timer_heap × (earlier (s.timer_heap.objects x) (s.timer_heap.objects t) ≡ false)
  Reached-IsIndexed s t x p e here =
      let m = (Reached-IsTimed s p).made in
      (Made-IsIndexed s.timer_heap m, peek-earliest s.timer_heap t x m e here)
