-- ===== src/Node/State.antt =====
-- types.go and the `node` struct of election.go. A `time.Time` is a number of nanoseconds since the
-- zero time, a duration a number of nanoseconds; a map is a function. `conf.OnChange` and
-- `conf.SendRPC` are opaque functions of the caller: the model keeps whether they are set.
use election_go.Base.{ℕ, ◌%◌, String, Bool, List, Option}
use election_go.Engine.{Bytes, Peer}

-- `roleFollower` to `roleShutdown`, and `Role`, whose `String` calls the last one "unknown".
pub data Role : Type 0 where
  follower candidate leader shutdown : Role

unfoldable pub role_name : Role → String
role_name follower = "follower"
role_name candidate = "candidate"
role_name leader = "leader"
role_name shutdown = "unknown"

pub data NodeError : Type 0 where
  err_not_leader err_metadata_too_large : NodeError

abbrev pub max_metadata_size : ℕ
max_metadata_size = 1024

pub record Config : Type 0 where
  pub unique_id : String
  pub peers : List String
  pub metadata : Bytes
  pub has_send_rpc : Bool
  pub has_on_change : Bool
  pub heart_beat_timeout : ℕ
  pub election_timeout : ℕ
  pub network_timeout : ℕ
  pub leader_quorum_timeout : ℕ
  pub minimum_quorum : ℕ

pub record NodeState : Type 0 where
  pub leader : String
  pub is_leader : Bool
  pub term : ℕ
  pub peers : List Peer
  pub role : Role

pub record Stats : Type 0 where
  pub term : ℕ
  pub role : Role
  pub heartbeats_sent : ℕ
  pub heartbeats_recv : ℕ
  pub elections_started : ℕ
  pub elections_won : ℕ

pub record Vote : Type 0 where
  pub last_candidate : String
  pub last_term : ℕ

-- The fields down to `elections_won` are the atomic ones that other goroutines read.
pub record Node : Type 0 where
  pub conf : Config
  pub self : String
  pub leader : String
  pub is_leader : Bool
  pub term : ℕ
  pub role : Role
  pub peers : List Peer
  pub heartbeats_sent : ℕ
  pub heartbeats_recv : ℕ
  pub elections_started : ℕ
  pub elections_won : ℕ
  pub current_term : ℕ
  pub current_role : Role
  pub current_metadata : Bytes
  pub vote : Vote
  pub peers_last_contact : String → Option ℕ
  pub last_contact : ℕ
  pub current_peers : List Peer
  pub current_leader : String

-- uint64 arithmetic wraps.
abbrev pub u64 : ℕ → ℕ
u64 n = n % 18446744073709551616

unfoldable pub get_state : Node → NodeState
get_state n = record {
  leader = n.leader;
  is_leader = n.is_leader;
  term = n.term;
  peers = n.peers;
  role = n.role;
}

unfoldable pub stats : Node → Stats
stats n = record {
  term = n.term;
  role = n.role;
  heartbeats_sent = n.heartbeats_sent;
  heartbeats_recv = n.heartbeats_recv;
  elections_started = n.elections_started;
  elections_won = n.elections_won;
}
