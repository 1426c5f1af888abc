-- ===== src/Cluster/Progress.antt =====
-- A cluster can elect any of its members.
use election_go.Base.{◌≡◌, String, true, List, []}
use election_go.Node.State.{Config}
use election_go.Node.World.{World}
use election_go.Cluster.{Cluster, Turn, is_member, boot, after_turn}
use election_go.Cluster.Stand.{fires_at, timeout}
use election_go.Cluster.Others.{others}
use election_go.Cluster.Poll.{seat}
use election_go.Cluster.Won.{answers}

module _ (members : List String) (conf : String → Config) (a : String)
    (is : is_member a members ≡ true) where
  abbrev second : Turn
  second = fires_at 3 0 (answers (others a members))

  abbrev first : Turn
  first = fires_at 1 (timeout (seat members conf a)) []

  abbrev campaigning : Cluster
  campaigning = after_turn a first (boot members conf)
