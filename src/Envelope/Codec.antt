-- ===== src/Envelope/Codec.antt =====
-- internal/engine/rpc.go: MarshalJSON and UnmarshalJSON of RPCRequest and of RPCResponse.
use election_go.Base.{String, str_eq, if◌then◌else◌, Option, none, some, ◌>>=◌}
use election_go.Engine.{
  heart_beat_rpc, vote_rpc, reset_election_rpc, resign_rpc, set_peers_rpc, set_metadata_rpc,
  Request, vote_req, heart_beat_req, reset_election_req, resign_req, set_peers_req,
  set_metadata_req, unexpected, Response, vote_resp, heart_beat_resp, reset_election_resp,
  resign_resp, set_peers_resp, set_metadata_resp, absent, RpcRequest, RpcResponse,
}
use election_go.Envelope.Json.{
  Struct, Fields, Json, vote_req_struct, heart_beat_req_struct, reset_election_req_struct,
  resign_req_struct, set_peers_req_struct, set_metadata_req_struct, vote_resp_struct,
  heart_beat_resp_struct, reset_election_resp_struct, resign_resp_struct, set_peers_resp_struct,
  set_metadata_resp_struct,
}

-- What `UnmarshalJSON` leaves in its receiver, and whether it returns an error.
pub data Decoded (A : Type 0) : Type 0 where
  decoded : A → Decoded A
  malformed : A → Decoded A

-- The case of the switch for an RPC name, `none` if no case has the name.
abbrev pub request_struct : String → Option Struct
request_struct rpc =
    if str_eq rpc heart_beat_rpc
    then some heart_beat_req_struct
    else if str_eq rpc vote_rpc
    then some vote_req_struct
    else if str_eq rpc reset_election_rpc
    then some reset_election_req_struct
    else if str_eq rpc resign_rpc
    then some resign_req_struct
    else if str_eq rpc set_peers_rpc
    then some set_peers_req_struct
    else if str_eq rpc set_metadata_rpc
    then some set_metadata_req_struct
    else none

abbrev pub response_struct : String → Option Struct
response_struct rpc =
    if str_eq rpc heart_beat_rpc
    then some heart_beat_resp_struct
    else if str_eq rpc vote_rpc
    then some vote_resp_struct
    else if str_eq rpc reset_election_rpc
    then some reset_election_resp_struct
    else if str_eq rpc resign_rpc
    then some resign_resp_struct
    else if str_eq rpc set_peers_rpc
    then some set_peers_resp_struct
    else if str_eq rpc set_metadata_rpc
    then some set_metadata_resp_struct
    else none

-- `r.Request = req`: the struct becomes the dynamic value.
abbrev pub to_request : (s : Struct) → Fields s → Request
to_request vote_req_struct req = vote_req req
to_request heart_beat_req_struct req = heart_beat_req req
to_request reset_election_req_struct _ = reset_election_req
to_request resign_req_struct _ = resign_req
to_request set_peers_req_struct peers = set_peers_req peers
to_request set_metadata_req_struct metadata = set_metadata_req metadata
to_request _ _ = unexpected

abbrev pub to_response : (s : Struct) → Fields s → Response
to_response vote_resp_struct resp = vote_resp resp
to_response heart_beat_resp_struct resp = heart_beat_resp resp
to_response reset_election_resp_struct _ = reset_election_resp
to_response resign_resp_struct success = resign_resp success
to_response set_peers_resp_struct _ = set_peers_resp
to_response set_metadata_resp_struct _ = set_metadata_resp
to_response _ _ = absent

module _ (json : Json) where
  -- `json.Marshal(r.Request)`, by the dynamic type.
  abbrev pub marshal_any_request : Request → Option json.Text
  marshal_any_request (vote_req req) = json.marshal vote_req_struct req
  marshal_any_request (heart_beat_req req) = json.marshal heart_beat_req_struct req
  marshal_any_request reset_election_req = json.marshal reset_election_req_struct tt
  marshal_any_request resign_req = json.marshal resign_req_struct tt
  marshal_any_request (set_peers_req peers) = json.marshal set_peers_req_struct peers
  marshal_any_request (set_metadata_req metadata) = json.marshal set_metadata_req_struct metadata
  marshal_any_request unexpected = json.marshal_other

  abbrev pub marshal_any_response : Response → Option json.Text
  marshal_any_response (vote_resp resp) = json.marshal vote_resp_struct resp
  marshal_any_response (heart_beat_resp resp) = json.marshal heart_beat_resp_struct resp
  marshal_any_response reset_election_resp = json.marshal reset_election_resp_struct tt
  marshal_any_response (resign_resp success) = json.marshal resign_resp_struct success
  marshal_any_response set_peers_resp = json.marshal set_peers_resp_struct tt
  marshal_any_response set_metadata_resp = json.marshal set_metadata_resp_struct tt
  marshal_any_response absent = json.marshal_other

  unfoldable pub marshal_request : RpcRequest → Option json.Text
  marshal_request r = do
    out ← marshal_any_request r.request
    json.marshal_payload (record { rpc = r.rpc; request = out; response = json.empty; error = "" })

  unfoldable pub marshal_response : RpcResponse → Option json.Text
  marshal_response r = do
    out ← marshal_any_response r.response
    json.marshal_payload
        (record { rpc = r.rpc; request = json.empty; response = out; error = r.error })

  -- One case of the switch of `RPCRequest.UnmarshalJSON`.
  abbrev pub read_request : Struct → json.Text → RpcRequest → Decoded RpcRequest
  read_request s raw r = elim (json.unmarshal s raw) [
    | some req ↦ decoded (record r { request = to_request s req })
    | none ↦ malformed r
  ]

  abbrev pub read_response : Struct → json.Text → RpcResponse → Decoded RpcResponse
  read_response s raw r = elim (json.unmarshal s raw) [
    | some resp ↦ decoded (record r { response = to_response s resp })
    | none ↦ malformed r
  ]

  unfoldable pub unmarshal_request : RpcRequest → json.Text → Decoded RpcRequest
  unmarshal_request r text = elim (json.unmarshal_payload text) [
    | none ↦ malformed r
    | some p ↦
        let r' = record r { rpc = p.rpc } in
        elim (request_struct p.rpc) [ some s ↦ read_request s p.request r' | none ↦ decoded r' ]
  ]

  unfoldable pub unmarshal_response : RpcResponse → json.Text → Decoded RpcResponse
  unmarshal_response r text = elim (json.unmarshal_payload text) [
    | none ↦ malformed r
    | some p ↦
        let r' = record r { error = p.error; rpc = p.rpc } in
        elim (response_struct p.rpc) [ some s ↦ read_response s p.response r' | none ↦ decoded r' ]
  ]
