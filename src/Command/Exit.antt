-- ===== src/Command/Exit.antt =====
-- How `main` of cmd/election/main.go ends, and the node that it leaves behind.
use election_go.Base.{
  ◌+◌, ◌≤◌, ◌≡◌, ◌≢◌, refl, sym, ◌∙◌, String, true, [], ◌∷◌, Option, none, some, arith, length,
}
use election_go.Node.State.{Node, leader}
use election_go.Node.World.{World}
use election_go.Node.Lifecycle.{created, new_node, start, stop, with_defaults, initial_node, Handle}
use election_go.Node.Run.{run_events, start as start_run}
use election_go.Node.Alone.Start.{fires, start-leads}
use election_go.Node.Follower.{is_alone}
use election_go.Node.Peers.{peers_from_strings, apply_self_metadata}
use election_go.Command.Peers.{
  Text, election_peers, parse_peers, split, trim_all, trim_left, trim_right, mem,
}
use election_go.Command.Http.{wait_for_server}
use election_go.Command.Main.{Surroundings, serves, main, main_config, serve}

-- The server serves, one of the ten attempts connects, and the coroutine is added.
pub record IsUp (e : Surroundings) : Type 0 where
  pub serves : e.server ≡ serves
  pub ready : wait_for_server e.up 0 10 ≡ true
  pub added : e.added ≡ true

abbrev Runs : Node → Option Handle → Type 0
Runs n none = ⊥
Runs n (some h) = (h.running ≡ true) × (h.node ≡ n)

Runs-handle :
    (n : Node) (x : Option Handle)
    → Runs n x
    → (h : Handle) × (x ≡ some h) × (h.running ≡ true) × (h.node ≡ n)
Runs-handle n none r = absurd r
Runs-handle n (some h) r = (h, refl, r.0, r.1)

serve-Runs : (e : Surroundings) (n : Node) → n.conf.metadata ≡ [] → IsUp e → Runs n (serve e n).1
unfolding start stop
serve-Runs e n bare up = ground (arith, bare, up)

module _ (name : Text → String) where
  -- There is an address and at most one list of peers, and the address is not empty.
  abbrev pub IsUsed : Option (Text × Text) → Type 0
  IsUsed none = ⊥
  IsUsed (some (self, arg)) = name self ≢ ""

  -- The node that `NewNode` makes for a cluster of this address only.
  unfoldable pub alone_node : Text → Node
  alone_node self = initial_node (with_defaults (main_config name self (self ∷ [])))

  alone_node-bare : (self : Text) → (alone_node self).conf.metadata ≡ []
  unfolding alone_node initial_node with_defaults
  alone_node-bare self = refl

  new_node-alone :
      (self : Text)
      → name self ≢ ""
      → new_node (main_config name self (self ∷ [])) ≡ created (alone_node self)
  unfolding new_node alone_node
  new_node-alone self n = ground (arith, n)

  main-Runs :
      (prog self : Text) (e : Surroundings)
      → name self ≢ ""
      → IsUp e
      → Runs (alone_node self) (main name (prog ∷ self ∷ []) e).1
  unfolding main election_peers parse_peers split trim_all trim_left trim_right mem
  main-Runs prog self e n up =
      rw (new_node-alone self n) (serve-Runs e (alone_node self) (alone_node-bare self) up)

  main-alone :
      (prog self : Text) (e : Surroundings)
      → name self ≢ ""
      → IsUp e
      → (h : Handle) × ((main name (prog ∷ self ∷ []) e).1 ≡ some h)
        × (h.running ≡ true)
        × (h.node ≡ alone_node self)
  main-alone prog self e n up =
      Runs-handle (alone_node self) (main name (prog ∷ self ∷ []) e).1 (main-Runs prog self e n up)

  alone_node-is_alone : (self : Text) → is_alone (alone_node self) ≡ true
  unfolding alone_node initial_node with_defaults is_alone peers_from_strings apply_self_metadata
  alone_node-is_alone self = ground arith

  alone_node-silent : (self : Text) → (alone_node self).current_leader ≡ ""
  unfolding alone_node initial_node
  alone_node-silent self = refl

  alone_node-enough :
      (self : Text) → (alone_node self).conf.minimum_quorum ≤ length (alone_node self).current_peers
  unfolding alone_node initial_node with_defaults
  alone_node-enough self = omega arith

  -- If `main` gets its own address only and all is up, it makes and runs a node; from the start of that
  -- node it becomes leader as soon as its second and third timer have fired, if no other coroutine runs.
  pub main-leads :
      (prog self : Text) (e : Surroundings) (w : World)
      → name self ≢ ""
      → IsUp e
      → w.node ≡ alone_node self
      → w.ticks ≡ []
      → (h : Handle) × ((main name (prog ∷ self ∷ []) e).1 ≡ some h)
        × (h.running ≡ true)
        × (h.node ≡ w.node)
        × (let x =
              run_events (fires (w.last_timer + 2) ∷ fires (w.last_timer + 3) ∷ []) (start_run w) in
            x.1.node.current_role ≡ leader)
  main-leads prog self e w n up made t =
      let (h, m, r, same) = main-alone prog self e n up in
      let led =
        start-leads w t (rw made (alone_node-is_alone self)) (rw made (alone_node-silent self))
          (rw made (alone_node-enough self)) in
      (h, m, r, same ∙ sym made, led.1)
