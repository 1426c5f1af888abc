-- ===== src/Node/World.antt =====
-- What a coroutine of the node runs in: the node, the requests that it has made, and what its
-- environment will answer. A request suspends the coroutine, and until it is resumed the scheduler
-- may resume any heartbeat coroutine that `sendHeartBeats` spawned: a `Tick` says which ones do, in
-- order, and what the clock reads then. Without a tick nothing happens and the clock stands still.
use election_go.Base.{ℕ, ◌+◌, ltb, str_eq, String, List, [], ◌∷◌, Option, none, some, if◌then◌else◌}
use election_go.Engine.{
  Bytes, HeartBeatResp, Response, heart_beat_resp, RpcRequest, RpcResponse, SendResult, failed,
  replied,
}
use election_go.Node.State.{Node, NodeState, NodeError, u64}
use election_go.Node.Peers.{update_metadata}

-- One resumption of a heartbeat coroutine for a peer: when its `SendRPC` ends, with the term that it
-- captured, and when its `Now` is answered.
pub data Resume : Type 0 where
  sent : String → ℕ → SendResult → Resume
  clocked : String → HeartBeatResp → ℕ → Resume

pub record Tick : Type 0 where
  pub others : List Resume
  pub time : ℕ

-- Timers set and cancelled, coroutines spawned to send an RPC, `Respond` and `Done` callbacks with
-- what they get, and calls of `OnChange`.
pub data Effect : Type 0 where
  timer_set : ℕ → ℕ → Effect
  timer_cancelled : ℕ → Effect
  rpc_spawned : String → RpcRequest → Effect
  responded : ℕ → RpcResponse → Effect
  finished : ℕ → Option NodeError → Effect
  changed : NodeState → Effect

-- `draws` are the coming values of `rng.Int63`, and `ballots` the results of the vote requests of
-- each coming election, in the order of the requests. The latest effect stands first in `trace`.
pub record World : Type 0 where
  pub node : Node
  pub clock : ℕ
  pub ticks : List Tick
  pub draws : List ℕ
  pub ballots : List (List SendResult)
  pub last_timer : ℕ
  pub trace : List Effect

unfoldable pub emit : Effect → World → World
emit e w = record w { trace = e ∷ w.trace }

unfoldable pub respond_with : Option ℕ → RpcResponse → World → World
unfolding emit
respond_with none r w = w
respond_with (some cb) r w = emit (responded cb r) w

unfoldable pub finish_with : Option ℕ → Option NodeError → World → World
unfolding emit
finish_with none e w = w
finish_with (some cb) e w = emit (finished cb e) w

unfoldable pub fire_on_change : World → World
unfolding emit
fire_on_change w =
    let n = w.node in
    if n.conf.has_on_change
    then emit
        (changed (record {
          leader = n.current_leader;
          is_leader = str_eq n.current_leader n.self;
          term = n.current_term;
          peers = n.current_peers;
          role = n.current_role;
        }))
        w
    else w

unfoldable pub set_leader : String → World → World
set_leader leader w =
    if str_eq w.node.current_leader leader
    then w
    else fire_on_change (record w {
      node = record w.node {
        current_leader = leader;
        leader = leader;
        is_leader = str_eq leader w.node.self;
      };
    })

-- The loop over `currentPeers` in the two heartbeat handlers.
unfoldable pub store_metadata : String → Bytes → World → World
store_metadata address metadata w = elim (update_metadata address metadata w.node.current_peers) [
  | none ↦ w
  | some peers ↦
      fire_on_change (record w { node = record w.node { current_peers = peers; peers = peers } })
]

abbrev pub with_term : ℕ → ℕ → Node → Node
with_term captured term n =
    if ltb captured term then record n { current_term = term; term = term } else n

abbrev pub count_sent : World → World
count_sent w = record w {
  node = record w.node { heartbeats_sent = u64 (w.node.heartbeats_sent + 1) };
}

-- The type assertion on the reply, and the term that the coroutine captured against the reply's.
unfoldable pub hear_reply : ℕ → Response → World → World
hear_reply captured (heart_beat_resp h) w = record w { node = with_term captured h.term w.node }
hear_reply captured _ w = w

-- After `SendRPC` of a heartbeat ended: the counter and the term.
unfoldable pub heartbeat_sent : ℕ → SendResult → World → World
heartbeat_sent captured failed w = count_sent w
heartbeat_sent captured (replied r) w = hear_reply captured r.response (count_sent w)

-- After its `Now`: the contact time and the peer's metadata.
unfoldable pub heartbeat_clocked : String → HeartBeatResp → ℕ → World → World
heartbeat_clocked peer h now w = store_metadata peer h.metadata (record w {
  node = record w.node {
    peers_last_contact = λ a. if str_eq a peer then some now else w.node.peers_last_contact a;
  };
})

unfoldable pub resume : Resume → World → World
resume (sent peer captured result) w = heartbeat_sent captured result w
resume (clocked peer h now) w = heartbeat_clocked peer h now w

unfoldable pub interleave : List Resume → World → World
interleave [] w = w
interleave (r ∷ rs) w = interleave rs (resume r w)

-- The coroutine waits, with these ticks to come, and is resumed.
unfoldable pub advance : List Tick → World → World
advance [] w = w
advance (t ∷ ts) w = interleave t.others (record w { ticks = ts; clock = t.time })

unfoldable pub yield : World → World
yield w = advance w.ticks w

-- The requests `Now`, `After` and `Cancel`, with their answers. The adapters number timers from 1.
unfoldable pub now : World → ℕ × World
now w = let w' = yield w in (w'.clock, w')

unfoldable pub after : ℕ → World → ℕ × World
unfolding emit
after delay w =
    let id = w.last_timer + 1 in
    (id, yield (emit (timer_set id delay) (record w { last_timer = id })))

unfoldable pub cancel : ℕ → World → World
unfolding emit
cancel id w = yield (emit (timer_cancelled id) w)

-- `rng.Int63`.
unfoldable pub int63 : World → ℕ × World
int63 w = elim w.draws [ [] ↦ (0, w) | d ∷ ds ↦ (d, record w { draws = ds }) ]
