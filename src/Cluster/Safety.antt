-- ===== src/Cluster/Safety.antt =====
-- A cluster elects at most one leader in a term.
use election_go.Base.{
  ◌≡◌, ◌≢◌, inl, inr, refl, ◌∙◌, String, str_eq, true, List, [], ◌∷◌, All, arith, Bool-cases,
}
use native.Mathlib.Nat.{le_refl}
use election_go.Node.State.{Config, follower, leader}
use election_go.Node.Peers.{peers_from_strings}
use election_go.Node.Addresses.{peers_from_strings-addresses, apply_self_metadata-addresses}
use election_go.Node.World.{World}
use election_go.Node.Handlers.{with_role}
use election_go.Node.Lifecycle.{with_defaults, initial_node}
use election_go.Node.Run.{enter_role, enter, start}
use election_go.Node.Phases.{start-Matches}
use election_go.Node.Rule.Steps.{enter-Closed}
use election_go.Node.Votes.{Since, Since-Closed}
use election_go.Cluster.{Cluster, is_member, boot_world, Reached, booted, turned}
use election_go.Cluster.Counts.{IsElected-unique}
use election_go.Cluster.Grouped.{IsGrouped, IsGrouped-Closed}
use election_go.Cluster.Sound.{IsSound}
use election_go.Cluster.Members.{AllSound, AllNamed, after_turn-AllSound}

module _ (members : List String) (id : String) (conf : Config) where
  abbrev own_conf : Config
  own_conf = record conf { unique_id = id; peers = members }

  abbrev new_world : World
  new_world = boot_world own_conf

  abbrev first : World
  first = record new_world { node = with_role follower new_world.node }

  first-IsGrouped : IsGrouped members id first
  unfolding initial_node with_defaults
  first-IsGrouped = record {
    named = refl;
    peers =
        apply_self_metadata-addresses id _ (peers_from_strings members)
        ∙ peers_from_strings-addresses members;
  }

  first-Since : Since first.node first
  unfolding initial_node
  first-Since = record { calm = tt; behind = omega arith; grown = le_refl _; kept = inr (inl refl) }

  booted-IsSound : IsSound members (λ _ _. "") [] id (start new_world)
  unfolding start enter enter_role
  booted-IsSound =
      let m = start-Matches new_world in
      record {
        matches = m;
        grouped = enter-Closed (IsGrouped-Closed members id) first first-IsGrouped;
        behind = (enter-Closed (Since-Closed first.node) first first-Since).behind;
        noted = λ t e. absurd (e refl);
        led = λ r. absurd (ground (arith, m, r));
        campaign = tt;
      }

pub Reached-AllSound :
    (members : List String) (conf : String → Config) (c : Cluster)
    → AllNamed members
    → Reached members conf c
    → AllSound members c
Reached-AllSound members conf _ named booted = record {
  noted = λ p t c g n. absurd (ground (arith, g));
  sound = λ id m. booted-IsSound members id (conf id);
}
Reached-AllSound members conf _ named (turned id t c r turn) =
    after_turn-AllSound members id t c named turn (Reached-AllSound members conf c named r)

members-named : (members : List String) → All (λ m. m ≢ "") members → AllNamed members
members-named [] n id m = absurd (ground arith)
members-named (x ∷ xs) n id m = elim (Bool-cases (str_eq x id)) [
  | inl q ↦ ground (arith, n.0, q)
  | inr q ↦ members-named xs n.1 id (ground (arith, q, m))
]

-- Election safety: of the nodes of a cluster, each with the same members as its peers and a name that is
-- not empty, at most one is leader in a term, whatever requests they get, in whatever order they run and
-- whichever messages are lost; if no reply to a heartbeat carries a newer term, no term wraps, a timer
-- fires once, `SetPeers` is called with the members only, and the answers that grant a vote were given.
pub election_safety :
    (members : List String) (conf : String → Config) (c : Cluster) (a b : String)
    → All (λ m. m ≢ "") members
    → Reached members conf c
    → is_member a members ≡ true
    → is_member b members ≡ true
    → (c.nodes a).1.node.current_role ≡ leader
    → (c.nodes b).1.node.current_role ≡ leader
    → (c.nodes a).1.node.current_term ≡ (c.nodes b).1.node.current_term
    → a ≡ b
election_safety members conf c a b named r ma mb la lb same =
    let all = Reached-AllSound members conf c (members-named members named) r in
    let elected = (all.sound b mb).led lb in
    IsElected-unique members c.cast (c.nodes a).1.node.current_term a b ((all.sound a ma).led la)
      (rw same elected)
