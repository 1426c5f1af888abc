-- ===== src/Envelope/RoundTrip.antt =====
-- internal/engine/rpc.go: what a peer reads from an envelope is what the sender put into it, and
-- the name of a request that was read agrees with its dynamic type.
use election_go.Base.{String, str_dec, some, ◌≡◌, refl, inl, inr}
use election_go.Engine.{
  heart_beat_rpc, vote_rpc, reset_election_rpc, resign_rpc, set_peers_rpc, set_metadata_rpc,
  Request, vote_req, heart_beat_req, reset_election_req, resign_req, set_peers_req,
  set_metadata_req, unexpected, Response, vote_resp, heart_beat_resp, reset_election_resp,
  resign_resp, set_peers_resp, set_metadata_resp, absent, RpcRequest, RpcResponse,
}
use election_go.Envelope.Json.{
  Struct, Fields, Json, IsFaithful, Fits, vote_req_struct, heart_beat_req_struct,
  reset_election_req_struct, resign_req_struct, set_peers_req_struct, set_metadata_req_struct,
  vote_resp_struct, heart_beat_resp_struct, reset_election_resp_struct, resign_resp_struct,
  set_peers_resp_struct, set_metadata_resp_struct,
}
use election_go.Envelope.Codec.{
  decoded, request_struct, response_struct, to_request, to_response, marshal_any_request,
  marshal_any_response, marshal_request, marshal_response, read_request, read_response,
  unmarshal_request, unmarshal_response,
}

-- The RPC name that goes with a dynamic type.
abbrev pub request_name : Request → String
request_name (vote_req _) = vote_rpc
request_name (heart_beat_req _) = heart_beat_rpc
request_name reset_election_req = reset_election_rpc
request_name resign_req = resign_rpc
request_name (set_peers_req _) = set_peers_rpc
request_name (set_metadata_req _) = set_metadata_rpc
request_name unexpected = ""

abbrev pub response_name : Response → String
response_name (vote_resp _) = vote_rpc
response_name (heart_beat_resp _) = heart_beat_rpc
response_name reset_election_resp = reset_election_rpc
response_name (resign_resp _) = resign_rpc
response_name set_peers_resp = set_peers_rpc
response_name set_metadata_resp = set_metadata_rpc
response_name absent = ""

-- The dynamic type is one of the six, and the numbers are what Go's types hold.
abbrev pub RequestFits : Request → Type 0
RequestFits (vote_req a) = Fits vote_req_struct a
RequestFits (heart_beat_req a) = Fits heart_beat_req_struct a
RequestFits (set_metadata_req a) = Fits set_metadata_req_struct a
RequestFits unexpected = ⊥
RequestFits _ = Unit

abbrev pub ResponseFits : Response → Type 0
ResponseFits (vote_resp a) = Fits vote_resp_struct a
ResponseFits (heart_beat_resp a) = Fits heart_beat_resp_struct a
ResponseFits absent = ⊥
ResponseFits _ = Unit

module _ (json : Json) where
  -- `r` is marshalled, and the text is read into any receiver as `r`.
  abbrev pub IsRequestReadBack : RpcRequest → RpcRequest → Type 0
  IsRequestReadBack old r =
      (t : json.Text) × ((marshal_request json r ≡ some t)
        × (unmarshal_request json old t ≡ decoded r))

  abbrev pub IsResponseReadBack : RpcResponse → RpcResponse → Type 0
  IsResponseReadBack old r =
      (t : json.Text) × ((marshal_response json r ≡ some t)
        × (unmarshal_response json old t ≡ decoded r))

module _ (json : Json) (faithful : IsFaithful json) where
  request_at :
      (old : RpcRequest) (name : String) (q : Request) (s : Struct) (a : Fields s)
      → Fits s a
      → request_struct name ≡ some s
      → marshal_any_request json q ≡ json.marshal s a
      → to_request s a ≡ q
      → IsRequestReadBack json old (record { rpc = name; request = q })
  unfolding marshal_request unmarshal_request
  request_at old name q s a fits known out_of back =
      let (out, e) = faithful.struct_law s a fits in
      let (t, f) =
        faithful.payload_law
          (record { rpc = name; request = out; response = json.empty; error = "" })
          (inr (s, a, e.0)) (inl refl) in
      (t, (rw (out_of, e.0, f.0), rw (f.1, unmarshal_request, known, e.1, read_request, back)))

  response_at :
      (old : RpcResponse) (name err : String) (q : Response) (s : Struct) (a : Fields s)
      → Fits s a
      → response_struct name ≡ some s
      → marshal_any_response json q ≡ json.marshal s a
      → to_response s a ≡ q
      → IsResponseReadBack json old (record { rpc = name; response = q; error = err })
  unfolding marshal_response unmarshal_response
  response_at old name err q s a fits known out_of back =
      let (out, e) = faithful.struct_law s a fits in
      let (t, f) =
        faithful.payload_law
          (record { rpc = name; request = json.empty; response = out; error = err }) (inl refl)
          (inr (s, a, e.0)) in
      (t, (rw (out_of, e.0, f.0), rw (f.1, unmarshal_response, known, e.1, read_response, back)))

  -- A request whose dynamic type is one of the six, with numbers of Go's types, is marshalled under its name, and is read back
  -- whatever the receiver held, if the package keeps its documented behaviour.
  pub marshal_request-round_trip :
      (old : RpcRequest) (q : Request)
      → RequestFits q
      → IsRequestReadBack json old (record { rpc = request_name q; request = q })
  unfolding str_dec
  marshal_request-round_trip old (vote_req a) fits =
      request_at old vote_rpc (vote_req a) vote_req_struct a fits refl refl refl
  marshal_request-round_trip old (heart_beat_req a) fits =
      request_at old heart_beat_rpc (heart_beat_req a) heart_beat_req_struct a fits refl refl refl
  marshal_request-round_trip old reset_election_req _ =
      request_at old reset_election_rpc reset_election_req reset_election_req_struct tt tt refl refl
        refl
  marshal_request-round_trip old resign_req _ =
      request_at old resign_rpc resign_req resign_req_struct tt tt refl refl refl
  marshal_request-round_trip old (set_peers_req a) fits =
      request_at old set_peers_rpc (set_peers_req a) set_peers_req_struct a fits refl refl refl
  marshal_request-round_trip old (set_metadata_req a) fits =
      request_at old set_metadata_rpc (set_metadata_req a) set_metadata_req_struct a fits refl refl
        refl
  marshal_request-round_trip old unexpected fits = absurd fits

  -- A response whose dynamic type is one of the six, with numbers of Go's types, is marshalled under its name with its error
  -- text, and is read back with both, whatever the receiver held, if the package keeps its
  -- documented behaviour.
  pub marshal_response-round_trip :
      (old : RpcResponse) (q : Response) (err : String)
      → ResponseFits q
      → IsResponseReadBack json old (record { rpc = response_name q; response = q; error = err })
  unfolding str_dec
  marshal_response-round_trip old (vote_resp a) err fits =
      response_at old vote_rpc err (vote_resp a) vote_resp_struct a fits refl refl refl
  marshal_response-round_trip old (heart_beat_resp a) err fits =
      response_at old heart_beat_rpc err (heart_beat_resp a) heart_beat_resp_struct a fits refl refl
        refl
  marshal_response-round_trip old reset_election_resp err _ =
      response_at old reset_election_rpc err reset_election_resp reset_election_resp_struct tt tt
        refl refl refl
  marshal_response-round_trip old (resign_resp a) err fits =
      response_at old resign_rpc err (resign_resp a) resign_resp_struct a fits refl refl refl
  marshal_response-round_trip old set_peers_resp err _ =
      response_at old set_peers_rpc err set_peers_resp set_peers_resp_struct tt tt refl refl refl
  marshal_response-round_trip old set_metadata_resp err _ =
      response_at old set_metadata_rpc err set_metadata_resp set_metadata_resp_struct tt tt refl
        refl refl
  marshal_response-round_trip old absent err fits = absurd fits
