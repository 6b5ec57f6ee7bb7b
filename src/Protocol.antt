-- ===== src/Protocol.antt =====
-- internal/protocol/message.go, action.go and presence.go: the data that the storage layer keeps.
-- A payload that is neither text nor bytes, an extras object and a metadata object are opaque: the
-- server passes them on. A zero value and a missing one are the same where the code does not tell
-- them apart.
pub mod Data
pub mod Summaries
pub mod Validation
use ably_server.Base.{Bool, true, false, List, Option, none, some, Bytes, ℤ}
unfoldable pub use Data.*
use ably_server.Protocol.Summaries.{Summary, Annotation}

pub data MessageAction : Type 0 where
  message_create message_update message_delete message_summary message_append : MessageAction

unfoldable pub is_mutation : MessageAction → Bool
is_mutation message_update = true
is_mutation message_delete = true
is_mutation message_append = true
is_mutation _ = false

pub record MessageVersion : Type 0 where
  pub serial : Bytes
  pub timestamp : ℤ
  pub client_id : Bytes
  pub description : Bytes
  pub metadata : Option JsonObject

-- The message under `Alt[DeltaAppend]`, of which only these fields are set.
pub record Delta : Type 0 where
  pub serial : Bytes
  pub action : MessageAction
  pub client_id : Bytes
  pub connection_id : Bytes
  pub name : Bytes
  pub timestamp : ℤ
  pub payload : Payload
  pub encoding : Bytes
  pub extras : Option JsonObject
  pub version : Option MessageVersion

-- `alt` is the entry of the map under `DeltaAppend`, the one key in use.
pub record Message : Type 0 where
  pub id : Bytes
  pub serial : Bytes
  pub action : MessageAction
  pub client_id : Bytes
  pub connection_id : Bytes
  pub connection_key : Bytes
  pub name : Bytes
  pub payload : Payload
  pub encoding : Bytes
  pub extras : Option JsonObject
  pub timestamp : ℤ
  pub version : Option MessageVersion
  pub summary : Summary
  pub alt : Option Delta

unfoldable pub has_append_delta : Message → Bool
has_append_delta m = elim m.alt [ none ↦ false | some d ↦ true ]

pub data PresenceAction : Type 0 where
  presence_absent presence_present presence_enter presence_leave presence_update : PresenceAction

pub record PresenceMessage : Type 0 where
  pub id : Bytes
  pub serial : Bytes
  pub action : PresenceAction
  pub client_id : Bytes
  pub connection_id : Bytes
  pub payload : Payload
  pub encoding : Bytes
  pub extras : Option JsonObject
  pub timestamp : ℤ

-- One atomic publish, of messages, of presence or of annotations.
pub record ChannelMessage : Type 0 where
  pub id : Bytes
  pub channel_serial : Bytes
  pub messages : List Message
  pub presence : List PresenceMessage
  pub annotations : List Annotation
