-- ===== src/Lib.antt =====
-- A model of election.go, a leader election library in the manner of Raft. The program is a node
-- (election.go), which talks to its environment only by the requests of its coroutine, two adapters
-- that answer those requests (internal/prod, internal/sim), and the messages that nodes exchange
-- (internal/engine, re-exported by types.go).
--
-- Which file models which part:
--   Engine            internal/engine/rpc.go and engine.go: messages, events, results of an RPC.
--   Node/State        types.go and the `node` struct: configuration, node, reports.
--   Node/Peers        peersFromStrings, applySelfMetadata, quorumSize, randomDuration.
--   Node/World        the node with its requests and what its environment answers; setLeader,
--                     fireOnChange, and the coroutines that sendHeartBeats spawns.
--   Node/Handlers     processRPC and the handlers, stepDownFromLeader, sendElectionResets.
--   Node/Follower, Node/Candidate, Node/Leader
--                     runFollower, runCandidate with electSelf, runLeader: the prologue of each, and
--                     the body of its loop for one event.
--   Node/Run          run: where the coroutine waits, and what an event does to it.
--   Node/Lifecycle    NewNode, Start, StartNodeForSim, Stop and the methods that other goroutines call.
--   Node/Answers      what the results of vote requests say, whatever electSelf makes of them.
--   Node/Addresses    what the helpers of election.go do to the addresses of a peer list.
--   Cluster           nodes of one cluster: what each step of a node does to the cluster, and which
--                     answers to its vote requests it may get.
--   Envelope          MarshalJSON and UnmarshalJSON of internal/engine/rpc.go. encoding/json is a
--                     parameter, with an abstract type of texts and its documented behaviour.
--   Adapter           internal/prod/io.go: ProdIO, Dispatch, and the goroutines and timers it starts,
--                     over a list of actions that says what the runtime does next.
--   Adapter/Loop      internal/prod/loop.go: Run, over a list of what its waits find.
--   Command           cmd/election/main.go: sendRPC, newHandler, waitForServer, main;
--                     Command/Listed says how the argument of main lists the peers.
--   Sim/Heap          internal/sim/heap.go, with the functions of container/heap that it calls.
--   Sim/Cluster, Sim/Network, Sim/Steps, Sim/Runs
--                     internal/sim/sim.go, simio.go and clock.go: the state of a simulation, the faults
--                     of its network, the steps, and the loops and events that tests drive it by.
--   Sim/Clock         internal/sim/clock.go: Advance by a duration, which may be negative.
--   Sim/Heap/Pending  what the timer heap is for its users: a set of pending timers.
--   Base              shared notation; Node/Rule, Node/Steady and Node/Phases carry the proofs.
--
-- How the code is modelled. A handler is a function on a `World`: the node's fields, the trace of what
-- it asked for (timers, spawned RPCs, callbacks, calls of OnChange), and lists of what the environment
-- will answer: the clock and the heartbeat coroutines that run during each wait, the values of the
-- random generator, the results of the vote requests. The scheduler of gocoro is not part of the
-- repository: it enters as that schedule. Every request of the coroutine is a wait, in which any
-- heartbeat coroutine may be resumed in any order, at either of its two waits; theorems hold for every
-- schedule, or say which they exclude. A schedule may hold resumptions that no execution makes.
-- `Node.Run.run_events` runs the coroutine over a list of events, so it needs no fuel.
--
-- Numbers are naturals; terms and counters wrap at 2^64, but the ids of timers do not: no process
-- issues 2^63 of them. Times, timeouts and delays are not negative, and a timeout of 0, for which the random
-- delay would divide by zero, is what NewNode replaces. A delay of a tenth or a third of a timeout of a
-- few nanoseconds may still be 0: the program would panic there.
-- An empty byte slice and nil are one. Logging is left out, and so are the wake-ups between the
-- goroutines of a `select`, of which the model is told the branch that is taken.
--
-- The simulation runs any node: `Sim.Cluster.Runtime` is a scheduler with the node on it, given by the
-- requests that it makes each time it runs, and a rate is any type with a comparison. Steps that may
-- deliver RPCs without end take fuel, as do the loops over steps; theorems hold for any fuel.
--
-- In a cluster (`Cluster.Reached`) one node takes an event at a time, with what its environment answers
-- while it handles it. The requests that reach it are any: lost, late, repeated and made up ones are
-- among them. Of the answers to vote requests only the granted ones are bound: each was given by that
-- node, for that candidate and term, in a step before. A step (`Cluster.IsTurn`) is one in which no reply
-- to a heartbeat carries a newer term than the heartbeat did, the node's term does not wrap, no timer
-- fires a second time, and SetPeers is called with the members only.
--
-- How invariants are proved: `Node.Rule.Closed` lists the ways in which the coroutine changes the
-- node between two waits, and `Node.Rule.Steps.run_events-Closed` carries what survives all of
-- them through any run; `Sim.Rule.Closed` and `Sim.Rule.Steps` do the same for the steps of a
-- simulation. `Node.Steady` says what the other coroutines leave alone.
--
-- Not modelled: the bound of the event channel, the log lines, and in main of cmd/election a signal that
-- comes before signal.Notify, which ends the process as the runtime does.
pub mod Adapter
pub mod Base
pub mod Cluster
pub mod Command
pub mod Engine
pub mod Envelope
pub mod Node
pub mod Sim
