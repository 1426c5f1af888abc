-- ===== src/Envelope/Typing.antt =====
-- internal/engine/rpc.go: the name of a request that was read agrees with its dynamic type, so that
-- the test of `ReceiveRPC` on the name is one on the type that the handlers switch on.
use election_go.Base.{◌⊎◌, String, Option, none, some, ◌≡◌, arith}
use election_go.Engine.{RpcRequest}
use election_go.Envelope.Json.{Struct, Fields, Json}
use election_go.Envelope.Codec.{decoded, request_struct, to_request, unmarshal_request}
use election_go.Envelope.RoundTrip.{request_name}

-- A struct read under `name` becomes a request of that name.
IsTyped : String → Option Struct → Type 0
IsTyped name (some s) = (a : Fields s) → request_name (to_request s a) ≡ name
IsTyped name none = Unit

request_struct-IsTyped : (name : String) → IsTyped name (request_struct name)
unfolding IsTyped
request_struct-IsTyped name = ground arith

module _ (json : Json) where
  -- After a successful `UnmarshalJSON` the request has the dynamic type of its name, or else the name
  -- is none of the six and the request is what the receiver held before.
  pub unmarshal_request-typed :
      (old r : RpcRequest) (t : json.Text)
      → unmarshal_request json old t ≡ decoded r
      → (request_name r.request ≡ r.rpc)
        ⊎ ((request_struct r.rpc ≡ none) × (r.request ≡ old.request))
  unfolding unmarshal_request
  unmarshal_request-typed old r t e = ground arith
