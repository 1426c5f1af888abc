-- ===== src/Command/Tests.antt =====
-- The theorems on the example command at concrete inputs.
use election_go.Base.{
  List, All, map, ◌⊎◌, ◌≡◌, ◌≢◌, ◌==◌, String, refl, true, false, [], ◌∷◌, Option, some, none,
  arith, if◌then◌else◌, str_eq, str_dec,
}
use election_go.Engine.{
  vote_req, vote_resp, Request, RpcRequest, RpcResponse, vote_rpc, set_peers_rpc,
}
use election_go.Envelope.Tests.{term_json, term_json-IsFaithful, no_text, payload_text}
use mathlib.Core.List.{Mem}
use election_go.Command.Peers.{Text, election_peers, is_space}
use election_go.Command.Listed.{Entry, IsEntry, written, join, election_peers-listed}
use text.Mathlib.TextEquality.{eq_iff}
use election_go.Node.State.{leader}
use election_go.Node.World.{World}
use election_go.Node.Run.{start, run_events}
use election_go.Node.Lifecycle.{Handle, proceed}
use election_go.Node.Alone.Start.{fires}
use election_go.Command.Main.{Surroundings, serves, main}
use election_go.Command.Exit.{IsUp, alone_node, main-leads}
use election_go.Command.Http.{
  wait_for_server, new_handler, send_rpc, new_handler-set_peers, send_rpc-new_handler,
}

-- "a:1" and "b:2"
abbrev a1 : Text
a1 = 97 ∷ 58 ∷ 49 ∷ []

abbrev b2 : Text
b2 = 98 ∷ 58 ∷ 50 ∷ []

-- "c:3"
abbrev c3 : Text
c3 = 99 ∷ 58 ∷ 51 ∷ []

-- " b:2 ", a part with a space only, and "c:3".
abbrev listed : List Entry
listed =
    record { before = 32 ∷ []; address = b2; after = 32 ∷ [] }
    ∷ record { before = []; address = []; after = 32 ∷ [] }
    ∷ record { before = []; address = c3; after = [] }
    ∷ []

listed-IsEntry : All IsEntry listed
unfolding is_space
listed-IsEntry = (
  record {
    before = (refl, tt);
    after = (refl, tt);
    starts = refl;
    ends = refl;
    whole = (refl, (refl, (refl, tt)));
  },
  (
    record { before = tt; after = (refl, tt); starts = tt; ends = tt; whole = tt },
    (
      record {
        before = tt;
        after = tt;
        starts = refl;
        ends = refl;
        whole = (refl, (refl, (refl, tt)));
      },
      tt,
    ),
  ),
)

election_peers-listed_example :
    let peers = election_peers a1 (join (map written listed)) in
    (Mem a1 (b2 ∷ c3 ∷ []) × (peers ≡ b2 ∷ c3 ∷ []))
    ⊎ ((¬ Mem a1 (b2 ∷ c3 ∷ [])) × (peers ≡ a1 ∷ b2 ∷ c3 ∷ []))
election_peers-listed_example = election_peers-listed a1 listed listed-IsEntry

abbrev grant : RpcResponse
grant = record {
  rpc = "vote";
  response = vote_resp (record { term = 7; granted = true });
  error = "";
}

abbrev granting : RpcRequest → Option RpcResponse
granting _ = some grant

abbrev guarded : RpcRequest → Option RpcResponse
guarded req = if str_eq req.rpc set_peers_rpc then none else some grant

abbrev ask : Request
ask = vote_req (record { term = 7; candidate = "n1" })

not_set_peers : str_eq vote_rpc set_peers_rpc ≡ false
unfolding str_dec
not_set_peers = refl

send_rpc-new_handler_example :
    send_rpc term_json
      (λ _ text. some (new_handler term_json no_text granting text))
      "n1"
      (record { rpc = vote_rpc; request = ask })
    ≡ some grant
send_rpc-new_handler_example =
    send_rpc-new_handler term_json no_text granting "n1" ask
      (vote_resp (record { term = 7; granted = true })) "" term_json-IsFaithful (omega arith)
      (omega arith) not_set_peers refl

new_handler-set_peers_example :
    new_handler term_json no_text granting (payload_text "set_peers" no_text no_text "")
    ≡ new_handler term_json no_text guarded (payload_text "set_peers" no_text no_text "")
new_handler-set_peers_example =
    new_handler-set_peers term_json no_text granting guarded
      (payload_text "set_peers" no_text no_text "") (λ req e. rw e)

-- All is up, the second attempt connects, and a signal comes.
abbrev surroundings : Surroundings
surroundings = record {
  server = serves;
  up = λ i. i == 1;
  added = true;
  signal = some (proceed, proceed);
}

surroundings-IsUp : IsUp surroundings
unfolding wait_for_server
surroundings-IsUp = record { serves = refl; ready = refl; added = refl }

abbrev named : Text → String
named [] = ""
named _ = "n0"

abbrev alone_world : World
alone_world = record {
  node = alone_node named a1;
  clock = 9000;
  ticks = [];
  draws = [];
  ballots = [];
  last_timer = 0;
  trace = [];
}

n0_ne_empty : ◌≢◌ {A = String} "n0" ""
n0_ne_empty = ground (arith, eq_iff "n0" "")

main-leads_example :
    (h : Handle) × ((main named ([] ∷ a1 ∷ []) surroundings).1 ≡ some h)
    × (h.running ≡ true)
    × (h.node ≡ alone_node named a1)
    × ((run_events (fires 2 ∷ fires 3 ∷ []) (start alone_world)).1.node.current_role ≡ leader)
main-leads_example =
    main-leads named [] a1 surroundings alone_world n0_ne_empty surroundings-IsUp refl refl
