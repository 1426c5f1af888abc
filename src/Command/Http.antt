-- ===== src/Command/Http.antt =====
-- cmd/election/main.go: RPCs over HTTP. The transport and the texts of errors are parameters.
use election_go.Base.{
  ℕ, zero, suc, ◌+◌, ◌≡◌, refl, String, str_eq, Bool, true, false, Option, none, some, ◌>>=◌,
  if◌then◌else◌, Bool-cases, inl, inr,
}
use election_go.Engine.{
  set_peers_rpc, Request, unexpected, Response, absent, RpcRequest, RpcResponse,
}
use election_go.Envelope.Json.{Json, IsFaithful}
use election_go.Envelope.Codec.{
  Decoded, decoded, malformed, marshal_request, marshal_response, unmarshal_request,
  unmarshal_response,
}
use election_go.Envelope.RoundTrip.{
  request_name, response_name, RequestFits, ResponseFits, marshal_request-round_trip,
  marshal_response-round_trip,
}

abbrev zero_request : RpcRequest
zero_request = record { rpc = ""; request = unexpected }

abbrev zero_response : RpcResponse
zero_response = record { rpc = ""; response = absent; error = "" }

-- `waitForServer` from the attempt `i` on, with the attempts left; `up` says which attempts connect.
unfoldable pub wait_for_server : (ℕ → Bool) → ℕ → ℕ → Bool
wait_for_server up i zero = false
wait_for_server up i (suc left) =
    let rest = wait_for_server up (i + 1) left in if up i then true else rest

module _ (json : Json) where
  pub record Reply : Type 0 where
    pub status : ℕ
    pub body : json.Text

  abbrev complain : ℕ → json.Text → Reply
  complain code complaint = record { status = code; body = complaint }

  abbrev write_response : json.Text → Option RpcResponse → Reply
  write_response complaint none = complain 500 complaint
  write_response complaint (some resp) = elim (marshal_response json resp) [
    | none ↦ complain 500 complaint
    | some out ↦ record { status = 200; body = out }
  ]

  abbrev answer_request : json.Text → (RpcRequest → Option RpcResponse) → Decoded RpcRequest → Reply
  answer_request complaint receive (malformed _) = complain 400 complaint
  answer_request complaint receive (decoded req) =
      if str_eq req.rpc set_peers_rpc
      then complain 400 complaint
      else write_response complaint (receive req)

  -- `complaint` is the body of a reply with an error, and `receive` is `Node.ReceiveRPC`, `none` where
  -- it returns an error.
  unfoldable pub new_handler : json.Text → (RpcRequest → Option RpcResponse) → json.Text → Reply
  new_handler complaint receive text =
      answer_request complaint receive (unmarshal_request json zero_request text)

  abbrev read_response : Decoded RpcResponse → Option RpcResponse
  read_response (decoded resp) = some resp
  read_response (malformed _) = none

  -- The status is not read. `post` is the HTTP client: the reply of the peer, or an error.
  unfoldable pub send_rpc :
      (String → json.Text → Option Reply) → String → RpcRequest → Option RpcResponse
  send_rpc post peer req = do
    b ← marshal_request json req
    reply ← post peer b
    read_response (unmarshal_response json zero_response reply.body)

  answer_request-same :
      (complaint : json.Text) (receive receive' : RpcRequest → Option RpcResponse)
      (d : Decoded RpcRequest)
      → ((req : RpcRequest) → str_eq req.rpc set_peers_rpc ≡ false → receive req ≡ receive' req)
      → answer_request complaint receive d ≡ answer_request complaint receive' d
  answer_request-same complaint receive receive' (malformed _) same = refl
  answer_request-same complaint receive receive' (decoded req) same =
      elim (Bool-cases (str_eq req.rpc set_peers_rpc)) [ inl e ↦ rw e | inr e ↦ rw (e, same req e) ]

  -- The handler never hands a `SetPeers` request to the node: its reply does not depend on what the
  -- node would do with one.
  pub new_handler-set_peers :
      (complaint : json.Text) (receive receive' : RpcRequest → Option RpcResponse)
      (text : json.Text)
      → ((req : RpcRequest) → str_eq req.rpc set_peers_rpc ≡ false → receive req ≡ receive' req)
      → new_handler complaint receive text ≡ new_handler complaint receive' text
  unfolding new_handler
  new_handler-set_peers complaint receive receive' text same =
      answer_request-same complaint receive receive' (unmarshal_request json zero_request text) same

  -- With a transport that hands the request to the peer's handler and brings its reply back, an RPC
  -- that is not `SetPeers` returns what the peer's node answers to it, if all that is sent is of the
  -- six RPCs, with numbers of Go's types, and encoding/json keeps its documented behaviour.
  pub send_rpc-new_handler :
      (complaint : json.Text) (receive : RpcRequest → Option RpcResponse) (peer : String)
      (q : Request) (a : Response) (err : String)
      → IsFaithful json
      → RequestFits q
      → ResponseFits a
      → str_eq (request_name q) set_peers_rpc ≡ false
      → receive (record { rpc = request_name q; request = q })
        ≡ some (record { rpc = response_name a; response = a; error = err })
      → send_rpc
          (λ _ text. some (new_handler complaint receive text))
          peer
          (record { rpc = request_name q; request = q })
        ≡ some (record { rpc = response_name a; response = a; error = err })
  unfolding send_rpc new_handler
  send_rpc-new_handler complaint receive peer q a err f fq fa other answers =
      let (t, e) = marshal_request-round_trip json f zero_request q fq in
      let (u, d) = marshal_response-round_trip json f zero_response a err fa in
      rw (e.0, send_rpc, new_handler, e.1, other, answers, write_response, d.0, d.1)
