-- ===== src/Cluster/Poll.antt =====
-- Nodes that have just started grant their votes, one turn each.
use election_go.Base.{
  ℕ, ◌≡◌, refl, ◌∙◌, String, str_eq, Bool, true, false, List, [], ◌∷◌, arith, All,
}
use election_go.Node.State.{Config}
use election_go.Node.World.{World, emit, yield, advance, interleave, after, int63}
use election_go.Node.Follower.{enter_follower}
use election_go.Node.Lifecycle.{with_defaults, initial_node}
use election_go.Node.Run.{Phase, start, enter, enter_role}
use election_go.Cluster.{
  AreGiven, Cluster, is_member, boot_world, after_turn, IsTurn, Reached, turned,
}
use election_go.Cluster.Stand.{asked_by, asked_by-granted}
use election_go.Cluster.Others.{AreDistinct, IsOther}

abbrev pub seat : List String → (String → Config) → String → Config
seat members conf id = record (conf id) { unique_id = id; peers = members }

abbrev pub started : List String → (String → Config) → String → Phase × World
started members conf id = start (boot_world (seat members conf id))

pub no_answers-AreGiven :
    (given : String → ℕ → String → Bool) (self : String) (term : ℕ) (ps : List String)
    → AreGiven given self term ps []
no_answers-AreGiven given self term [] = tt
no_answers-AreGiven given self term (p ∷ ps) = tt

module _ (members : List String) (conf : String → Config) (a : String) where
  abbrev IsStill : Cluster → String → Type 0
  IsStill c m = c.nodes m ≡ started members conf m

  abbrev pub Granted : Cluster → String → Type 0
  Granted c m = c.given m 1 a ≡ true

  asked_by-IsTurn :
      (c : Cluster) (m : String)
      → is_member m members ≡ true
      → IsStill c m
      → IsTurn members m (asked_by a) c
  unfolding start initial_node with_defaults enter enter_role enter_follower int63 after yield
      advance interleave emit
  asked_by-IsTurn c m is still = record {
    member = is;
    calm = tt;
    admitted = (tt, λ k. ground (arith, k));
    room = rw still (omega arith);
    once = λ k. ground (arith, k);
    honest = no_answers-AreGiven c.given m _ _;
  }

  abbrev polled : Cluster → String → Cluster
  polled c m = after_turn m (asked_by a) c

  polled-Granted : (c : Cluster) (m : String) → IsStill c m → Granted (polled c m) m
  unfolding after_turn
  polled-Granted c m still = rw (still, asked_by-granted a (seat members conf m)) (ground arith)

  polled-kept : (c : Cluster) (m x : String) → IsStill c m → Granted c x → Granted (polled c m) x
  unfolding after_turn
  polled-kept c m x still g =
      rw (still, asked_by-granted a (seat members conf m)) (ground (arith, g))

  polled-others :
      (c : Cluster) (m x : String) → str_eq x m ≡ false → (polled c m).nodes x ≡ c.nodes x
  unfolding after_turn
  polled-others c m x e = rw e refl

  IsStill-others :
      (c : Cluster) (m : String) (ms : List String)
      → is_member m ms ≡ false
      → All (IsStill c) ms
      → All (IsStill (polled c m)) ms
  IsStill-others c m [] d s = tt
  IsStill-others c m (x ∷ ms) d s =
      (polled-others c m x (ground (arith, d)) ∙ s.0, IsStill-others c m ms (ground (arith, d)) s.1)

  -- A cluster in which these members have granted their votes, and `a` is as before.
  pub record Polled (c : Cluster) (ms : List String) : Type 0 where
    pub cluster : Cluster
    pub reached : Reached members conf cluster
    pub same : cluster.nodes a ≡ c.nodes a
    pub fired : cluster.fired a ≡ c.fired a
    pub granted : All (Granted cluster) ms
    pub kept : (x : String) → Granted c x → Granted cluster x

  polled-fired :
      (c : Cluster) (m x : String) → str_eq x m ≡ false → (polled c m).fired x ≡ c.fired x
  unfolding after_turn
  polled-fired c m x e = rw e refl

  pub poll :
      (ms : List String) (c : Cluster)
      → Reached members conf c
      → AreDistinct ms
      → All (IsOther members a) ms
      → All (IsStill c) ms
      → Polled c ms
  poll [] c r d o s = record {
    cluster = c;
    reached = r;
    same = refl;
    fired = refl;
    granted = tt;
    kept = λ x g. g;
  }
  poll (m ∷ ms) c r d o s =
      let apart : str_eq a m ≡ false = ground (arith, o.0.1) in
      let next = polled c m in
      let rest =
        poll ms next (turned m (asked_by a) c r (asked_by-IsTurn c m o.0.0 s.0)) d.1 o.1
          (IsStill-others c m ms d.0 s.1) in
      record {
        cluster = rest.cluster;
        reached = rest.reached;
        same = rest.same ∙ polled-others c m a apart;
        fired = rest.fired ∙ polled-fired c m a apart;
        granted = (rest.kept m (polled-Granted c m s.0), rest.granted);
        kept = λ x g. rest.kept x (polled-kept c m x s.0 g);
      }
