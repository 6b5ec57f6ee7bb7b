-- ===== src/Realtime/Mutations/Tests.antt =====
-- internal/realtime/mutation.go on concrete input.
use ably_server.Base.{
  split, ◌≡◌, ◌↔◌, ◌⊎◌, refl, true, false, [], ◌∷◌, none, some, Bytes, pos, text, bytes_eq, lookup,
  ok, err,
}
use ably_server.Auth.Capability.{
  Capability, permits, mutation_grant, match_resource, parse_resource, qualifier_matches,
  paths_match,
}
use ably_server.Serial.{new_generator, mint}
use ably_server.Protocol.{
  Message, MessageAction, message_create, message_update, ChannelMessage, string, is_mutation,
}
use ably_server.Storage.{merge_version}
use ably_server.Memory.{ChannelStore, new_channel_store, latest_version, mutate, find_duplicate}
use ably_server.Realtime.Mutations.{
  owns_message, authorize_mutation, check_owner, by_grant, not_the_owner, authorize_mutation_iff,
  right, IsCreator, authorize_mutation-mutate,
}

abbrev message : MessageAction → Bytes → Message
message action client_id = record {
  id = [];
  serial = text "m";
  action = action;
  client_id = client_id;
  connection_id = [];
  connection_key = [];
  name = [];
  payload = string (text "a");
  encoding = [];
  extras = none;
  timestamp = pos 0;
  version = none;
  summary = [];
  alt = none;
}

-- A channel with a message of alice's.
abbrev holding : ChannelStore
holding = record (new_channel_store (new_generator (text "s")) none) {
  latest = (text "m", message message_create (text "alice")) ∷ [];
}

abbrev own_edits : Capability
own_edits = (text "*", text "message-update-own" ∷ []) ∷ []

abbrev edit : Message
edit = message message_update (text "bob")

abbrev edited : ChannelMessage
edited = elim (mutate false 5 edit holding).0 [
  | ok (some cm, b) ↦ cm
  | ok (none, b) ↦ record {
    id = [];
    channel_serial = [];
    messages = [];
    presence = [];
    annotations = [];
  }
  | err e ↦ record { id = []; channel_serial = []; messages = []; presence = []; annotations = [] }
]

owner_edits :
    (authorize_mutation own_edits (text "alice") (text "news") false edit holding ≡ none)
    × (authorize_mutation own_edits (text "bob") (text "news") false edit holding
        ≡ some not_the_owner)
unfolding authorize_mutation by_grant mutation_grant permits match_resource parse_resource
    qualifier_matches paths_match check_owner owns_message latest_version lookup bytes_eq split
owner_edits = (refl, refl)

authorize_mutation_iff_example :
    (authorize_mutation own_edits (text "alice") (text "news") false edit holding ≡ none) ↔ (
      (permits own_edits (text "news") (right edit.action (text "any")) ≡ true)
      ⊎ ((permits own_edits (text "news") (right edit.action (text "own")) ≡ true)
          × ((target : Message) × (latest_version false edit.serial holding ≡ ok target)
              × IsCreator (text "alice") target)))
authorize_mutation_iff_example =
    authorize_mutation_iff own_edits (text "alice") (text "news") false edit holding

authorize_mutation-mutate_example :
    authorize_mutation own_edits
      (text "bob")
      (text "news")
      false
      edit
      (mutate false 5 edit holding).1
    ≡ authorize_mutation own_edits (text "bob") (text "news") false edit holding
unfolding mutate is_mutation find_duplicate lookup merge_version mint bytes_eq
authorize_mutation-mutate_example =
    authorize_mutation-mutate false 5 edit holding edited own_edits (text "bob") (text "news") edit
      refl
