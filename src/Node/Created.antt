-- ===== src/Node/Created.antt =====
-- What `NewNode` hands out, and the node that it made over any run.
use election_go.Base.{◌<◌, ◌≡◌, ◌≢◌, sym, subst, true, List, arith}
use election_go.Engine.{Event}
use election_go.Node.State.{Config, Node, follower}
use election_go.Node.World.{World}
use election_go.Node.Run.{start, run_events}
use election_go.Node.Lifecycle.{created, with_defaults, initial_node, new_node}
use election_go.Node.Phases.{start-Matches}
use election_go.Node.Published.{IsPublished, start-IsPublished, run_events-IsPublished}
use election_go.Node.Roles.{IsForeign, IsConsistent, start-IsConsistent, run_events-IsConsistent}
use election_go.Node.Rule.Steps.{Allowed}

-- What a node is when `NewNode` returns it.
pub record IsNew (conf : Config) (n : Node) : Type 0 where
  pub named : conf.unique_id ≢ ""
  pub sends : conf.has_send_rpc ≡ true
  pub self : n.self ≡ conf.unique_id
  pub published : IsPublished n
  pub consistent : IsConsistent conf.unique_id n
  pub role : n.current_role ≡ follower
  pub beats : 0 < n.conf.heart_beat_timeout
  pub elects : 0 < n.conf.election_timeout
  pub network : 0 < n.conf.network_timeout
  pub quorum : 0 < n.conf.leader_quorum_timeout

-- `NewNode` refuses a configuration with no id or no `SendRPC`. Otherwise the node is a follower of
-- that id that knows no leader, shows its state to readers, and has no timeout of zero.
pub new_node-IsNew : (conf : Config) (n : Node) → new_node conf ≡ created n → IsNew conf n
unfolding new_node initial_node with_defaults
new_node-IsNew conf n h = ground arith

module _ (conf : Config) (n : Node) (made : new_node conf ≡ created n) (w : World)
    (here : w.node ≡ n) where
  made-IsNew : IsNew conf w.node
  made-IsNew = subst (IsNew conf) (sym here) (new_node-IsNew conf n made)

  -- From the start of a node that `NewNode` made, after any events, whatever peers send and whatever
  -- heartbeat coroutines do: the leader, term and peers that `GetState` reads are the coroutine's,
  -- and `IsLeader` says whether the node is the current leader.
  pub new_node-run-IsPublished : (es : List Event) → IsPublished (run_events es (start w)).1.node
  new_node-run-IsPublished es =
      run_events-IsPublished es (start w).0 (start w).1 (start-Matches w)
        (start-IsPublished w made-IsNew.published)

  -- And if no peer sends a request in the node's own name: a candidate knows no leader, a leader is
  -- its own leader, and a follower is not.
  pub new_node-run-IsConsistent :
      (es : List Event)
      → Allowed (IsForeign conf.unique_id) es
      → IsConsistent conf.unique_id (run_events es (start w)).1.node
  new_node-run-IsConsistent es o =
      run_events-IsConsistent conf.unique_id made-IsNew.named es (start w).0 (start w).1
        (start-Matches w) o
        (start-IsConsistent conf.unique_id made-IsNew.named w made-IsNew.role made-IsNew.consistent)
