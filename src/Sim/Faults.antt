-- ===== src/Sim/Faults.antt =====
-- internal/sim/sim.go: which RPCs the faults of the network keep from the queue.
use election_go.Base.{
  ℕ, ◌+◌, ◌<◌, ltb, Option, ◌≡◌, refl, String, str_eq, Bool, true, false, ◌&&◌, ◌||◌, List, [], ◌∷◌,
  ◌++◌, none, some, if◌then◌else◌, arith, ◌⊎◌, inl, inr, Option-cases, Bool-cases,
}
use election_go.Engine.{RpcRequest, sent, failed}
use election_go.Sim.Cluster.{Runtime, PendingRpc, Simulation}
use election_go.Sim.Network.{
  set_partition, is_partitioned, partition_one, partition, check_drops, delivery_time, queue_rpc,
}

abbrev pub mem : String → List String → Bool
mem x [] = false
mem x (y ∷ ys) = let rest = mem x ys in if str_eq y x then true else rest

module _ (rt : Runtime) where
  partition_one-pairs :
      (x y a : String) (bs : List String) (s : Simulation rt)
      → is_partitioned rt x y (partition_one rt a bs s)
        ≡ ((str_eq a x && mem y bs) || ((mem x bs && str_eq a y) || is_partitioned rt x y s))
  unfolding partition_one is_partitioned set_partition
  partition_one-pairs x y a [] s = ground arith
  partition_one-pairs x y a (b ∷ bs) s = ground (
    arith,
    partition_one-pairs x y a bs (set_partition rt b a true (set_partition rt a b true s)),
  )

  -- `Partition` blocks exactly the RPCs between the two groups, in both directions, besides those
  -- that were blocked before.
  pub partition-pairs :
      (x y : String) (as' bs : List String) (s : Simulation rt)
      → is_partitioned rt x y (partition rt as' bs s)
        ≡ ((mem x as' && mem y bs) || ((mem x bs && mem y as') || is_partitioned rt x y s))
  unfolding partition
  partition-pairs x y [] bs s = ground arith
  partition-pairs x y (a ∷ as') bs s =
      ground (
        arith,
        partition-pairs x y as' bs (partition_one rt a bs s),
        partition_one-pairs x y a bs s,
      )

  -- The faults lose an RPC: a partition, or the draw against the sender's own drop rate, or, if it
  -- has none, against the global one.
  pub data IsLost (from to : String) (s : Simulation rt) : Type 0 where
    cut : s.partitions from to ≡ true → IsLost from to s
    own_rate :
        (rate : rt.Rate)
        → s.node_drops from ≡ some rate
        → rt.below (s.random s.drawn) rate ≡ true
        → IsLost from to s
    global_rate :
        s.node_drops from ≡ none
        → rt.is_positive s.drop_rate ≡ true
        → rt.below (s.random s.drawn) s.drop_rate ≡ true
        → IsLost from to s

  lost_by_rate :
      (from to : String) (s : Simulation rt) → (check_drops rt from s).0 ≡ true → IsLost from to s
  unfolding check_drops
  lost_by_rate from to s e = elim (Option-cases (s.node_drops from)) [
    | inr y ↦ own_rate y.0 y.1 (ground (arith, y.1))
    | inl n ↦ global_rate n (ground (arith, n)) (ground (arith, n))
  ]

  not_lost :
      (from to : String) (s : Simulation rt)
      → s.partitions from to ≡ false
      → (check_drops rt from s).0 ≡ false
      → ¬ IsLost from to s
  unfolding check_drops
  not_lost from to s p d (cut e) = cc
  not_lost from to s p d (own_rate rate e b) = ground arith
  not_lost from to s p d (global_rate e f b) = ground arith

  check_drops-same :
      (from to : String) (s : Simulation rt)
      → ((check_drops rt from s).1.rpc_queue ≡ s.rpc_queue)
        × (delivery_time rt from to (check_drops rt from s).1 ≡ delivery_time rt from to s)
  unfolding check_drops delivery_time
  check_drops-same from to s = ground arith

  -- When an RPC from one node to the other is to be delivered: at once without a delay for that
  -- direction, or after that delay.
  pub data DeliversAt (from to : String) (s : Simulation rt) : Option ℕ → Type 0 where
    no_delay : s.delays from to ≡ none → DeliversAt from to s none
    zero_delay : s.delays from to ≡ some 0 → DeliversAt from to s none
    delayed_by :
        (d : ℕ) → 0 < d → s.delays from to ≡ some d → DeliversAt from to s (some (s.clock + d))

  delivery_time-DeliversAt :
      (from to : String) (s : Simulation rt) → DeliversAt from to s (delivery_time rt from to s)
  unfolding delivery_time
  delivery_time-DeliversAt from to s = elim (Option-cases (s.delays from to)) [
    | inl n ↦ rw (n, delivery_time) (no_delay n)
    | inr y ↦ elim (Bool-cases (ltb 0 y.0)) [
      | inl e ↦ rw (y.1, delivery_time, e, delivery_time) (delayed_by y.0 (ground (arith, e)) y.1)
      | inr e ↦
          let z : s.delays from to ≡ some 0 = ground (arith, e, y.1) in
          rw (y.1, delivery_time, e, delivery_time) (zero_delay z)
    ]
  ]

  pub record IsQueued (from to : String) (req : RpcRequest) (cb : ℕ) (s : Simulation rt)
      (r : PendingRpc) : Type 0 where
    pub sender : r.from ≡ from
    pub receiver : r.to ≡ to
    pub request : r.req ≡ req
    pub callback : r.callback ≡ cb
    pub delivers : DeliversAt from to s r.deliver_at

  -- `queueRPC` answers an RPC that the faults lose with an error at once and leaves the queue alone; any
  -- other it appends to the queue, from its sender to its receiver, to be delivered at once or after the
  -- delay that is set for this direction, and answers later.
  pub queue_rpc-outcome :
      (from to : String) (req : RpcRequest) (cb : ℕ) (s : Simulation rt)
      → let (answer, s') = queue_rpc rt from to req cb s in
        (IsLost from to s × (answer ≡ some (sent failed)) × (s'.rpc_queue ≡ s.rpc_queue))
        ⊎ ((¬ IsLost from to s)
            × (answer ≡ none)
            × ((r : PendingRpc) × IsQueued from to req cb s r
                × (s'.rpc_queue ≡ s.rpc_queue ++ r ∷ [])))
  unfolding queue_rpc is_partitioned
  queue_rpc-outcome from to req cb s =
      let same = check_drops-same from to s in
      let r : PendingRpc = record {
        from = from;
        to = to;
        req = req;
        callback = cb;
        deliver_at = delivery_time rt from to s;
      } in
      let queued : IsQueued from to req cb s r = record {
        sender = refl;
        receiver = refl;
        request = refl;
        callback = refl;
        delivers = delivery_time-DeliversAt from to s;
      } in
      elim (Bool-cases (s.partitions from to)) [
        | inl p ↦ rw (p, queue_rpc) (inl (cut p, refl, refl))
        | inr p ↦ elim (Bool-cases (check_drops rt from s).0) [
          | inl d ↦ rw (p, d, queue_rpc) (inl (lost_by_rate from to s d, refl, same.0))
          | inr d ↦
              rw (p, d, queue_rpc)
                (inr (not_lost from to s p d, refl, (r, queued, rw (same.0, same.1))))
        ]
      ]
