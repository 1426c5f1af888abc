-- ===== src/Cluster.antt =====
-- election.go: the nodes of one cluster. In each step one of them takes an event, with what its
-- environment answers while it handles it; the requests that they send each other may be lost,
-- repeated, late or made up, but a vote that counts was given.
pub mod Calm
pub mod Counts
pub mod Recorded
pub mod Campaign
pub mod Grouped
pub mod Led
pub mod Election
pub mod Given
pub mod Sound
pub mod Turns
pub mod Members
pub mod Stand
pub mod Others
pub mod Poll
pub mod Won
pub mod Progress
pub mod Safety
mod Tests
use election_go.Base.{
  ℕ, ◌≡◌, ◌≢◌, ◌==◌, String, str_eq, Bool, true, false, not, ◌&&◌, List, [], ◌∷◌, Option, none,
  some, if◌then◌else◌,
}
use election_go.Engine.{
  Event, EventKind, event_rpc, event_timer, SendResult, VoteReq, Request, vote_req, set_peers_req,
}
use election_go.Node.State.{Config, Node, Vote}
use election_go.Node.World.{Tick, World, yield}
use election_go.Node.Handlers.{decide_vote}
use election_go.Node.Candidate.{vote_targets, nominate}
use election_go.Node.Answers.{is_yea}
use election_go.Node.Lifecycle.{with_defaults, initial_node}
use election_go.Node.Run.{Phase, ended, start, receive}
use election_go.Node.Rule.{Admits}
use election_go.Node.Votes.{AreCalm, HasRoom}

-- `fired` are the timers of a node that fired. `given` says that a node answered a request for its vote
-- in a term, for a candidate, by granting it. `cast` is the candidate that a node had on record for a
-- term after one of its events, "" if none.
pub record Cluster : Type 0 where
  pub nodes : String → Phase × World
  pub fired : String → List ℕ
  pub given : String → ℕ → String → Bool
  pub cast : String → ℕ → String

-- An event, with the heartbeat coroutines that run while it is handled, the random numbers, and the
-- answers to the vote requests in the order of the peers.
pub record Turn : Type 0 where
  pub event : Event
  pub ticks : List Tick
  pub draws : List ℕ
  pub answers : List SendResult

-- The node's world when the event arrives.
abbrev pub facing : Turn → World → World
facing t w = yield (record w { ticks = t.ticks; draws = t.draws; ballots = t.answers ∷ [] })

abbrev pub take_turn : Turn → Phase × World → Phase × World
take_turn t (p, w) = receive t.event p (facing t w)

abbrev pub is_member : String → List String → Bool
is_member id [] = false
is_member id (m ∷ ms) = if str_eq m id then true else is_member id ms

abbrev pub has : ℕ → List ℕ → Bool
has i [] = false
has i (j ∷ js) = if j == i then true else has i js

abbrev pub put {ℓ} : {A : Type ℓ} → String → A → (String → A) → String → A
put id a f x = if str_eq x id then a else f x

abbrev pub is_running : Phase → Bool
is_running ended = false
is_running _ = true

-- The request for a vote that the node grants.
abbrev pub granted_request : EventKind → Request → Phase → Node → Option VoteReq
granted_request event_rpc (vote_req req) p n =
    if is_running p && (decide_vote req n).resp.granted then some req else none
granted_request _ _ p n = none

abbrev pub note_given :
    String → Option VoteReq → (String → ℕ → String → Bool) → String → ℕ → String → Bool
note_given id none given p t c = given p t c
note_given id (some req) given p t c =
    if str_eq p id && (t == req.term && str_eq c req.candidate) then true else given p t c

-- The vote on record is noted, if there is one.
abbrev pub note : String → Vote → (String → ℕ → String) → String → ℕ → String
note id v cast x t =
    if str_eq x id && (t == v.last_term && not (str_eq v.last_candidate ""))
    then v.last_candidate
    else cast x t

abbrev pub note_fired : EventKind → ℕ → List ℕ → List ℕ
note_fired event_timer i is = i ∷ is
note_fired _ i is = is

unfoldable pub after_turn : String → Turn → Cluster → Cluster
after_turn id t c =
    let x = take_turn t (c.nodes id) in
    record {
      nodes = put id x c.nodes;
      fired = put id (note_fired t.event.kind t.event.timer_id (c.fired id)) c.fired;
      given =
          note_given id
            (granted_request t.event.kind t.event.rpc_req.request (c.nodes id).0
              (facing t (c.nodes id).1).node)
            c.given;
      cast = note id x.1.node.vote c.cast;
    }

-- An answer that grants the vote was given by that peer, to a request of this candidate in this term.
abbrev pub AreGiven :
    (String → ℕ → String → Bool) → String → ℕ → List String → List SendResult → Type 0
AreGiven given self term [] rs = Unit {0}
AreGiven given self term (p ∷ ps) [] = Unit {0}
AreGiven given self term (p ∷ ps) (r ∷ rs) =
    (is_yea r ≡ true → given p term self ≡ true) × AreGiven given self term ps rs

-- A call of `SetPeers` sets the members.
abbrev pub SetsMembers : List String → Request → Type 0
SetsMembers members (set_peers_req addrs) = addrs ≡ members
SetsMembers members _ = Unit {0}

abbrev pub OnlyOnce : Event → List ℕ → Type 0
OnlyOnce e fired = e.kind ≡ event_timer → has e.timer_id fired ≡ false

-- No reply to a heartbeat carries a newer term, the term does not wrap, a timer fires once, and the
-- granted votes were given.
pub record IsTurn (members : List String) (id : String) (t : Turn) (c : Cluster) : Type 0 where
  pub member : is_member id members ≡ true
  pub calm : AreCalm t.ticks
  pub admitted : Admits (SetsMembers members) t.event.kind t.event
  pub room : HasRoom (facing t (c.nodes id).1).node
  pub once : OnlyOnce t.event (c.fired id)
  pub honest :
      let n = nominate (facing t (c.nodes id).1).node in
      AreGiven c.given id n.current_term (vote_targets id n.current_peers) t.answers

abbrev pub boot_world : Config → World
boot_world conf = record {
  node = initial_node (with_defaults conf);
  clock = 0;
  ticks = [];
  draws = [];
  ballots = [];
  last_timer = 0;
  trace = [];
}

-- All nodes start, each under its own name and with the members as its peers.
abbrev pub boot : List String → (String → Config) → Cluster
boot members conf = record {
  nodes = λ id. start (boot_world (record (conf id) { unique_id = id; peers = members }));
  fired = λ _. [];
  given = λ _ _ _. false;
  cast = λ _ _. "";
}

pub data Reached (members : List String) (conf : String → Config) : Cluster → Type 0 where
  booted : Reached members conf (boot members conf)
  turned :
      (id : String) (t : Turn) (c : Cluster)
      → Reached members conf c
      → IsTurn members id t c
      → Reached members conf (after_turn id t c)
