-- ===== src/Protocol/Data.antt =====
-- internal/protocol/message.go: payloads and JSON objects, which the server passes on.
use ably_server.Base.{Bytes}

-- `any` in canonical form
pub data Payload : Type 0 where
  absent : Payload
  string : Bytes → Payload
  binary : Bytes → Payload
  json : Bytes → Payload

abbrev pub JsonObject : Type 0
JsonObject = Bytes
