-- ===== src/Envelope/Json.antt =====
-- What internal/engine/rpc.go uses of encoding/json. The package is not part of the repository:
-- `Json` is a parameter, with the type of JSON texts and the documented behaviour of the calls.
use election_go.Base.{ℕ, ◌<◌, ◌^◌, All, String, ◌≡◌, ◌⊎◌, List, Option, some}
use election_go.Engine.{Bytes, VoteReq, VoteResp, HeartBeatReq, HeartBeatResp}
use mathlib.Core.Bool.{Bool}

-- The struct types that the code hands to `json.Unmarshal`, but for the envelope.
pub data Struct : Type 0 where
  vote_req_struct heart_beat_req_struct reset_election_req_struct : Struct
  resign_req_struct set_peers_req_struct set_metadata_req_struct : Struct
  vote_resp_struct heart_beat_resp_struct reset_election_resp_struct : Struct
  resign_resp_struct set_peers_resp_struct set_metadata_resp_struct : Struct

-- The fields of a struct; `Unit` if it has none.
abbrev pub Fields : Struct → Type 0
Fields vote_req_struct = VoteReq
Fields heart_beat_req_struct = HeartBeatReq
Fields set_peers_req_struct = List String
Fields set_metadata_req_struct = Bytes
Fields vote_resp_struct = VoteResp
Fields heart_beat_resp_struct = HeartBeatResp
Fields resign_resp_struct = Bool
Fields _ = Unit

abbrev pub IsWord : ℕ → Type 0
IsWord n = n < 2 ^ 64

abbrev pub AreBytes : Bytes → Type 0
AreBytes = All (λ b. b < 256)

-- The numbers of a struct are what Go's types hold.
abbrev pub Fits : (s : Struct) → Fields s → Type 0
Fits vote_req_struct a = IsWord a.term
Fits heart_beat_req_struct a = IsWord a.term × AreBytes a.metadata
Fits set_metadata_req_struct a = AreBytes a
Fits vote_resp_struct a = IsWord a.term
Fits heart_beat_resp_struct a = IsWord a.term × AreBytes a.metadata
Fits _ _ = Unit

-- `rpcPayload`, with the two raw messages as texts.
pub record RpcPayload (Text : Type 0) : Type 0 where
  pub rpc : String
  pub request : Text
  pub response : Text
  pub error : String

-- `json.Marshal` and `json.Unmarshal`, `none` where they return an error. `marshal_other` is what
-- `json.Marshal` makes of nil and of the dynamic types that the model does not tell apart.
pub record Json : Type 1 where
  pub Text : Type 0
  pub empty : Text
  pub marshal : (s : Struct) → Fields s → Option Text
  pub unmarshal : (s : Struct) → Text → Option (Fields s)
  pub marshal_other : Option Text
  pub marshal_payload : RpcPayload Text → Option Text
  pub unmarshal_payload : Text → Option (RpcPayload Text)

module _ (json : Json) where
  -- A raw message that the package does not change when it is marshalled again.
  abbrev pub IsRaw : json.Text → Type 0
  IsRaw t = (t ≡ json.empty) ⊎ ((s : Struct) × (a : Fields s) × (json.marshal s a ≡ some t))

  -- A struct whose numbers fit is marshalled without an error and is read back, and so is an
  -- envelope whose raw messages are empty or come from `json.Marshal`.
  pub record IsFaithful : Type 0 where
    pub struct_law :
        (s : Struct) (a : Fields s)
        → Fits s a
        → (t : json.Text) × ((json.marshal s a ≡ some t) × (json.unmarshal s t ≡ some a))
    pub payload_law :
        (p : RpcPayload json.Text)
        → IsRaw p.request
        → IsRaw p.response
        → (t : json.Text) × ((json.marshal_payload p ≡ some t)
            × (json.unmarshal_payload t ≡ some p))
