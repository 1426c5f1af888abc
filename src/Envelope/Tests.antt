-- ===== src/Envelope/Tests.antt =====
-- A package that keeps the documented behaviour of encoding/json, with terms for texts, and the
-- theorems on the envelope for it.
use election_go.Base.{◌⊎◌, String, ◌≡◌, refl, Option, none, some, true, arith}
use election_go.Base.{str_dec}
use election_go.Engine.{Request, vote_req, resign_req, vote_resp, absent, RpcRequest, vote_rpc}
use election_go.Envelope.Json.{
  Struct, Fields, RpcPayload, Json, IsFaithful, vote_req_struct, heart_beat_req_struct,
  reset_election_req_struct, resign_req_struct, set_peers_req_struct, set_metadata_req_struct,
  vote_resp_struct, heart_beat_resp_struct, reset_election_resp_struct, resign_resp_struct,
  set_peers_resp_struct, set_metadata_resp_struct,
}
use election_go.Envelope.Codec.{decoded, malformed, unmarshal_request, request_struct}
use election_go.Envelope.RoundTrip.{
  request_name, IsRequestReadBack, IsResponseReadBack, marshal_request-round_trip,
  marshal_response-round_trip,
}
use election_go.Envelope.Typing.{unmarshal_request-typed}

pub data Term : Type 0 where
  no_text : Term
  struct_text : (s : Struct) → Fields s → Term
  payload_text : String → Term → Term → String → Term

abbrev pub read_struct : (s : Struct) → Term → Option (Fields s)
read_struct vote_req_struct (struct_text vote_req_struct a) = some a
read_struct heart_beat_req_struct (struct_text heart_beat_req_struct a) = some a
read_struct reset_election_req_struct (struct_text _ _) = some tt
read_struct resign_req_struct (struct_text _ _) = some tt
read_struct set_peers_req_struct (struct_text set_peers_req_struct a) = some a
read_struct set_metadata_req_struct (struct_text set_metadata_req_struct a) = some a
read_struct vote_resp_struct (struct_text vote_resp_struct a) = some a
read_struct heart_beat_resp_struct (struct_text heart_beat_resp_struct a) = some a
read_struct reset_election_resp_struct (struct_text _ _) = some tt
read_struct resign_resp_struct (struct_text resign_resp_struct a) = some a
read_struct set_peers_resp_struct (struct_text _ _) = some tt
read_struct set_metadata_resp_struct (struct_text _ _) = some tt
read_struct _ _ = none

abbrev read_payload : Term → Option (RpcPayload Term)
read_payload (payload_text rpc req resp err) =
    some (record { rpc = rpc; request = req; response = resp; error = err })
read_payload _ = none

abbrev pub term_json : Json
term_json = record {
  Text = Term;
  empty = no_text;
  marshal = λ s a. some (struct_text s a);
  unmarshal = read_struct;
  marshal_other = none;
  marshal_payload = λ p. some (payload_text p.rpc p.request p.response p.error);
  unmarshal_payload = read_payload;
}

read_struct-written : (s : Struct) (a : Fields s) → read_struct s (struct_text s a) ≡ some a
read_struct-written vote_req_struct a = refl
read_struct-written heart_beat_req_struct a = refl
read_struct-written reset_election_req_struct a = refl
read_struct-written resign_req_struct a = refl
read_struct-written set_peers_req_struct a = refl
read_struct-written set_metadata_req_struct a = refl
read_struct-written vote_resp_struct a = refl
read_struct-written heart_beat_resp_struct a = refl
read_struct-written reset_election_resp_struct a = refl
read_struct-written resign_resp_struct a = refl
read_struct-written set_peers_resp_struct a = refl
read_struct-written set_metadata_resp_struct a = refl

pub term_json-IsFaithful : IsFaithful term_json
term_json-IsFaithful = record {
  struct_law = λ s a _. (struct_text s a, (refl, read_struct-written s a));
  payload_law = λ p _ _. (payload_text p.rpc p.request p.response p.error, (refl, refl));
}

abbrev sample_vote : Request
sample_vote = vote_req (record { term = 7; candidate = "n1" })

abbrev stale : RpcRequest
stale = record { rpc = "resign"; request = resign_req }

marshal_request-round_trip_example :
    IsRequestReadBack term_json stale (record { rpc = vote_rpc; request = sample_vote })
marshal_request-round_trip_example =
    marshal_request-round_trip term_json term_json-IsFaithful stale sample_vote (omega arith)

marshal_response-round_trip_example :
    IsResponseReadBack term_json
      (record { rpc = ""; response = absent; error = "" })
      (record {
        rpc = vote_rpc;
        response = vote_resp (record { term = 7; granted = true });
        error = "late";
      })
marshal_response-round_trip_example =
    marshal_response-round_trip term_json term_json-IsFaithful
      (record { rpc = ""; response = absent; error = "" })
      (vote_resp (record { term = 7; granted = true })) "late" (omega arith)

abbrev vote_text : Term
vote_text =
    payload_text "vote" (struct_text vote_req_struct (record { term = 7; candidate = "n1" }))
      no_text ""

vote_text-read :
    unmarshal_request term_json stale vote_text
    ≡ decoded (record { rpc = "vote"; request = sample_vote })
unfolding unmarshal_request str_dec
vote_text-read = refl

unmarshal_request-typed_example :
    (request_name sample_vote ≡ vote_rpc)
    ⊎ ((request_struct vote_rpc ≡ none) × (sample_vote ≡ resign_req))
unmarshal_request-typed_example =
    unmarshal_request-typed term_json stale (record { rpc = "vote"; request = sample_vote })
      vote_text vote_text-read

-- A known name without a request is an error, after which the receiver has the name and the old
-- request.
bare_vote :
    unmarshal_request term_json stale (payload_text "vote" no_text no_text "")
    ≡ malformed (record { rpc = "vote"; request = resign_req })
unfolding unmarshal_request str_dec
bare_vote = refl
