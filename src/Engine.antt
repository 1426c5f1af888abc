-- ===== src/Engine.antt =====
-- internal/engine/engine.go and the types of internal/engine/rpc.go (which types.go re-exports):
-- the messages between peers, the events that a node receives, and what an RPC returns. `any` is
-- the data type of the dynamic types that the code tells apart, `[]byte` a list of bytes with `nil`
-- and the empty slice as one, and a callback the name of the call that waits for it, `none` if nil.
use election_go.Base.{ℕ, String, Bool, List, Option}
use native.Mathlib.Decide.{ℕ_discrete}

abbrev pub Bytes : Type 0
Bytes = List ℕ

pub Bytes-discrete : Discrete Bytes
Bytes-discrete = hlevel ℕ_discrete

abbrev pub heart_beat_rpc : String
heart_beat_rpc = "heartbeat"

abbrev pub vote_rpc : String
vote_rpc = "vote"

abbrev pub reset_election_rpc : String
reset_election_rpc = "reset_election"

abbrev pub resign_rpc : String
resign_rpc = "resign"

abbrev pub set_peers_rpc : String
set_peers_rpc = "set_peers"

abbrev pub set_metadata_rpc : String
set_metadata_rpc = "set_metadata"

pub record Peer : Type 0 where
  pub address : String
  pub metadata : Bytes

pub record VoteReq : Type 0 where
  pub term : ℕ
  pub candidate : String

pub record VoteResp : Type 0 where
  pub term : ℕ
  pub granted : Bool

pub record HeartBeatReq : Type 0 where
  pub term : ℕ
  pub leader : String
  pub metadata : Bytes

pub record HeartBeatResp : Type 0 where
  pub term : ℕ
  pub metadata : Bytes

-- The dynamic types of `RPCRequest.Request`; `unexpected` is nil and any type not listed.
pub data Request : Type 0 where
  vote_req : VoteReq → Request
  heart_beat_req : HeartBeatReq → Request
  reset_election_req : Request
  resign_req : Request
  set_peers_req : List String → Request
  set_metadata_req : Bytes → Request
  unexpected : Request

-- The dynamic types of `RPCResponse.Response`; `absent` is nil and any type not listed.
pub data Response : Type 0 where
  vote_resp : VoteResp → Response
  heart_beat_resp : HeartBeatResp → Response
  reset_election_resp : Response
  resign_resp : Bool → Response
  set_peers_resp : Response
  set_metadata_resp : Response
  absent : Response

pub record RpcRequest : Type 0 where
  pub rpc : String
  pub request : Request

pub record RpcResponse : Type 0 where
  pub rpc : String
  pub response : Response
  pub error : String

pub data EventKind : Type 0 where
  event_rpc event_timer event_set_peers event_resign event_shutdown event_set_metadata : EventKind

pub record Event : Type 0 where
  pub kind : EventKind
  pub rpc_req : RpcRequest
  pub timer_id : ℕ
  pub peers : List String
  pub metadata : Bytes
  pub respond : Option ℕ
  pub done : Option ℕ

-- How a `SendRPC` request of a coroutine ends: with `Err` set, or with a response.
pub data SendResult : Type 0 where
  failed : SendResult
  replied : RpcResponse → SendResult

-- `engine.Req`, by its kind.
pub data Req : Type 0 where
  send_rpc : String → RpcRequest → Req
  recv : Req
  after : ℕ → Req
  cancel : ℕ → Req
  now : Req

-- `engine.Resp`, by its kind.
pub data Resp : Type 0 where
  sent : SendResult → Resp
  received : Event → Resp
  armed_as : ℕ → Resp
  cancel_done : Resp
  time : ℕ → Resp
