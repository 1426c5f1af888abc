-- ===== src/Command/Main.antt =====
-- `main` of cmd/election/main.go. What the process meets is a parameter: the HTTP server, the
-- attempts of waitForServer, the scheduler and the signal.
use election_go.Base.{
  ℕ, String, Bool, true, false, List, [], ◌∷◌, map, Option, none, some, if◌then◌else◌,
}
use election_go.Node.State.{Config, Node}
use election_go.Node.Lifecycle.{
  Created, created, new_node, Handle, Outcome, returned, panics, Pick, start, stop,
}
use election_go.Command.Peers.{Text, election_peers}
use election_go.Command.Http.{wait_for_server}

-- `ListenAndServe` returns an error before the node is started, or after that, or never.
pub data Server : Type 0 where
  fails_early fails_late serves : Server

-- `up` says which attempts of waitForServer connect, `added` what `gocoro.Add` reports. With a signal
-- come the branches that `Stop` takes.
pub record Surroundings : Type 0 where
  pub server : Server
  pub up : ℕ → Bool
  pub added : Bool
  pub signal : Option (Pick × Pick)

-- `os.Exit` with a code, a panic, or the wait for a signal that never comes.
pub data End : Type 0 where
  exited : ℕ → End
  panicked serving : End

-- `os.Args[1]` and `os.Args[2]`, "" if there is none.
abbrev pub arguments : List Text → Option (Text × Text)
arguments (_ ∷ self ∷ []) = some (self, [])
arguments (_ ∷ self ∷ peers ∷ []) = some (self, peers)
arguments _ = none

abbrev pub new_handle : Node → Handle
new_handle n = record {
  node = n;
  started = false;
  has_io = false;
  running = false;
  stopped = false;
  closed = false;
  queue = [];
}

-- The result of `Stop` is not read.
abbrev end_of_stop : Outcome × Handle → End × Option Handle
end_of_stop (panics, h) = (panicked, some h)
end_of_stop (_, h) = (exited 0, some h)

abbrev await_signal : Option (Pick × Pick) → Handle → End × Option Handle
await_signal none h = (serving, some h)
await_signal (some (pushed, clean)) h = end_of_stop (stop pushed clean h)

abbrev after_start : Surroundings → Outcome × Handle → End × Option Handle
after_start e (returned none, h) = elim e.server [
  | serves ↦ await_signal e.signal h
  | _ ↦ (exited 1, some h)
]
after_start e (_, h) = (exited 1, some h)

abbrev pub serve : Surroundings → Node → End × Option Handle
serve e n = elim e.server [
  | fails_early ↦ (exited 1, some (new_handle n))
  | _ ↦
      if wait_for_server e.up 0 10
      then after_start e (start e.added (new_handle n))
      else (exited 1, some (new_handle n))
]

abbrev launch : Surroundings → Created → End × Option Handle
launch e (created n) = serve e n
launch e _ = (exited 1, none)

-- `name` makes the string with these code points.
module _ (name : Text → String) where
  abbrev pub main_config : Text → List Text → Config
  main_config self peers = record {
    unique_id = name self;
    peers = map name peers;
    metadata = [];
    has_send_rpc = true;
    has_on_change = true;
    heart_beat_timeout = 0;
    election_timeout = 0;
    network_timeout = 0;
    leader_quorum_timeout = 0;
    minimum_quorum = 0;
  }

  abbrev pub begin : Surroundings → Option (Text × Text) → End × Option Handle
  begin e none = (exited 1, none)
  begin e (some (self, arg)) = launch e (new_node (main_config self (election_peers self arg)))

  -- How the process ends, and the node if it was made.
  unfoldable pub main : List Text → Surroundings → End × Option Handle
  main args e = begin e (arguments args)
