-- ===== src/Envelope.antt =====
-- internal/engine/rpc.go: the JSON envelope of requests and responses, over encoding/json.
pub mod Json
pub mod Codec
pub mod RoundTrip
pub mod Typing
pub mod Tests
