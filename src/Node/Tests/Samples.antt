-- ===== src/Node/Tests/Samples.antt =====
-- Sample nodes, worlds and events.
use election_go.Base.{ℕ, replicate, String, ◌≢◌, true, false, List, [], ◌∷◌, none, some, arith}
use text.Mathlib.TextEquality.{eq_iff}
use election_go.Engine.{
  Peer, HeartBeatResp, Request, vote_req, vote_resp, heart_beat_resp, unexpected, RpcRequest,
  RpcResponse, Event, event_rpc, event_timer, event_set_peers, SendResult, replied,
}
use election_go.Node.State.{Config, Node, follower, candidate, leader}
use election_go.Node.World.{World}
use election_go.Node.Handlers.{with_role}
use election_go.Node.Run.{Phase, in_follower, start, run_events}
use election_go.Node.Follower.{FollowerVars}
use election_go.Node.Candidate.{VoteResult, CandidateVars}
use election_go.Node.Leader.{LeaderVars}
use election_go.Node.Lifecycle.{Handle, with_defaults, initial_node}

abbrev pub sample_conf : Config
sample_conf = record {
  unique_id = "n0";
  peers = "n0" ∷ "n1" ∷ "n2" ∷ [];
  metadata = [];
  has_send_rpc = true;
  has_on_change = true;
  heart_beat_timeout = 6000;
  election_timeout = 6000;
  network_timeout = 3000;
  leader_quorum_timeout = 12000;
  minimum_quorum = 2;
}

abbrev peer : String → Peer
peer a = record { address = a; metadata = [] }

abbrev pub sample_peers : List Peer
sample_peers = peer "n0" ∷ peer "n1" ∷ peer "n2" ∷ []

abbrev fresh_node : Node
fresh_node = record {
  conf = sample_conf;
  self = "n0";
  leader = "";
  is_leader = false;
  term = 0;
  role = follower;
  peers = sample_peers;
  heartbeats_sent = 0;
  heartbeats_recv = 0;
  elections_started = 0;
  elections_won = 0;
  current_term = 0;
  current_role = follower;
  current_metadata = [];
  vote = record { last_candidate = ""; last_term = 0 };
  peers_last_contact = λ _. none;
  last_contact = 0;
  current_peers = sample_peers;
  current_leader = "";
}

abbrev pub granted_by : ℕ → SendResult
granted_by t = replied (record {
  rpc = "vote";
  response = vote_resp (record { term = t; granted = true });
  error = "";
})

-- The clock reads 9000 throughout, and the only election gets one vote of the two peers.
abbrev pub fresh_world : World
fresh_world = record {
  node = fresh_node;
  clock = 9000;
  ticks = [];
  draws = [];
  ballots = (granted_by 1 ∷ []) ∷ [];
  last_timer = 0;
  trace = [];
}

abbrev no_request : RpcRequest
no_request = record { rpc = ""; request = unexpected }

abbrev pub timer : ℕ → Event
timer id = record {
  kind = event_timer;
  rpc_req = no_request;
  timer_id = id;
  peers = [];
  metadata = [];
  respond = none;
  done = none;
}

abbrev asked : Request → Event
asked r = record {
  kind = event_rpc;
  rpc_req = record { rpc = "vote"; request = r };
  timer_id = 0;
  peers = [];
  metadata = [];
  respond = some 1;
  done = none;
}

-- The heartbeat timer 1 of the follower and then the vote timer 3 of the candidate fire.
abbrev pub campaign : List Event
campaign = timer 1 ∷ timer 3 ∷ []

abbrev pub after_campaign : Phase × World
after_campaign = run_events campaign (start fresh_world)

abbrev ticked : World
ticked = (start fresh_world).1

n0_ne_empty : ◌≢◌ {A = String} "n0" ""
n0_ne_empty = ground (arith, eq_iff "n0" "")

pub n1_ne_empty : ◌≢◌ {A = String} "n1" ""
n1_ne_empty = ground (arith, eq_iff "n1" "")

abbrev pub new_world : World
new_world = record fresh_world { node = initial_node (with_defaults sample_conf) }

-- A follower that has voted for `n1` in term 1, and its no-peers timer.
abbrev pub voter_node : Node
voter_node = record fresh_node {
  current_term = 1;
  term = 1;
  vote = record { last_candidate = "n1"; last_term = 1 };
}

abbrev pub voter : World
voter = record fresh_world { node = voter_node }

abbrev pub follower_vars : FollowerVars
follower_vars = record {
  heartbeat_delay = 6000;
  heartbeat_timer = 1;
  no_peers_delay = 1200;
  no_peers_timer = 2;
}

abbrev pub voter_phase : Phase
voter_phase = in_follower follower_vars

abbrev pub late_reply : HeartBeatResp
late_reply = record { term = 5; metadata = [] }

abbrev pub late_response : RpcResponse
late_response = record { rpc = "heartbeat"; response = heart_beat_resp late_reply; error = "" }

abbrev pub old_leader : World
old_leader = record fresh_world {
  node = record fresh_node {
    current_term = 7;
    term = 7;
    vote = record { last_candidate = "n1"; last_term = 7 };
  };
}

abbrev pub candidate_vars : CandidateVars
candidate_vars = record {
  vote_delay = 900;
  vote_timer = 3;
  election_timer = 4;
  granted_votes = 0;
  votes_needed = 2;
}

abbrev pub yea : ℕ → VoteResult
yea t = record { granted = true; term = t }

abbrev pub nay : ℕ → VoteResult
nay t = record { granted = false; term = t }

abbrev pub running : World
running = record voter { node = with_role candidate voter_node }

abbrev pub lone_vars : CandidateVars
lone_vars = record candidate_vars { votes_needed = 1 }

abbrev pub five_peers : Event
five_peers = record (timer 0) {
  kind = event_set_peers;
  peers = "n0" ∷ "n1" ∷ "n2" ∷ "n3" ∷ "n4" ∷ [];
}

abbrev pub leader_vars : LeaderVars
leader_vars = record { heartbeat_delay = 2000; heartbeat_timer = 5; quorum_timer = 6 }

abbrev pub leading : World
leading = record voter {
  node = record (with_role leader voter_node) {
    current_leader = "n0";
    leader = "n0";
    is_leader = true;
  };
}

abbrev idle_handle : Handle
idle_handle = record {
  node = fresh_node;
  started = false;
  has_io = false;
  running = false;
  stopped = false;
  closed = false;
  queue = [];
}

abbrev pub heavy_handle : Handle
heavy_handle = record idle_handle {
  node = record fresh_node { conf = record sample_conf { metadata = replicate 1025 0 } };
}

abbrev pub busy_handle : Handle
busy_handle = record idle_handle { started = true; has_io = true; running = true }

abbrev pub vote_request : RpcRequest
vote_request = record { rpc = "vote"; request = vote_req (record { term = 1; candidate = "n1" }) }
