-- ===== src/Memory/Tests.antt =====
-- internal/storage/memory/memory.go on concrete input.
use ably_server.Base.{
  ltb, length, ◌&&◌, ◌≡◌, refl, true, false, [], ◌∷◌, none, some, Bytes, pos, text, arith, bytes_eq,
  lookup, ok, err,
}
use ably_server.Serial.{Generator, new_generator, mint}
use ably_server.Protocol.{
  string, MessageAction, message_create, message_update, Message, is_mutation, PresenceAction,
  presence_enter, PresenceMessage, ChannelMessage,
}
use ably_server.Storage.{target_not_found, merge_version}
use ably_server.Memory.{
  ChannelStore, new_channel_store, store, mutate, store_presence, find_duplicate,
}
use ably_server.Memory.Invariant.{IsConsistent}
use ably_server.Memory.Steps.{publish, here, next, Reach-new_channel_store}
use ably_server.Memory.Behaviour.{again, store_repeated, IsMutation, mutate-IsMutation}
use ably_server.Protocol.Summaries.{annotation_create, Annotation}
use ably_server.Memory.Annotations.{
  store_annotation, targets_known, annotation_fresh, IsAnnotated, store_annotation-IsAnnotated,
}
use ably_server.Storage.Pages.{kind_message, HistoryQuery, HistoryPage}
use ably_server.Memory.History.{raw_history}
use ably_server.Memory.History.Walk.{page_items, limited}
use ably_server.Memory.History.Reading.{wanted, raw_history-wanted}
use ably_server.Memory.Presence.{IsEntered, store_presence-IsEntered}

abbrev message : MessageAction → Bytes → Bytes → Message
message action id serial = record {
  id = id;
  serial = serial;
  action = action;
  client_id = text "alice";
  connection_id = [];
  connection_key = [];
  name = [];
  payload = string (text "a");
  encoding = [];
  extras = none;
  timestamp = pos 0;
  version = none;
  summary = [];
  alt = none;
}

abbrev generator : Generator
generator = new_generator (text "s")

abbrev empty : ChannelStore
empty = new_channel_store generator (some [])

abbrev greeting : Message
greeting = message message_create (text "x:0") []

abbrev published : ChannelStore
published = (store false 5 (text "fresh") (greeting ∷ []) empty).1

Reach-new_channel_store_example : IsConsistent published
unfolding new_channel_store bytes_eq
Reach-new_channel_store_example = Reach-new_channel_store generator true published (omega arith) (
    next here (
      publish false 5 (text "fresh") (greeting ∷ [])
        (record { reading = omega arith; clock = omega arith })))

store_repeated_example :
    store false 6 (text "other") (greeting ∷ []) published
    ≡ (again (store false 5 (text "fresh") (greeting ∷ []) empty).0, published)
unfolding bytes_eq
store_repeated_example =
    store_repeated 5 6 (text "fresh") (text "other") greeting greeting empty refl refl

-- A channel that has one message.
abbrev holding : ChannelStore
holding = record empty { latest = (text "m", message message_create (text "x:0") (text "m")) ∷ [] }

abbrev edit : Message
edit = message message_update [] (text "m")

abbrev edited : ChannelMessage
edited = elim (mutate false 5 edit holding).0 [
  | ok (some cm, b) ↦ cm
  | ok (none, b) ↦ record {
    id = [];
    channel_serial = [];
    messages = [];
    presence = [];
    annotations = [];
  }
  | err e ↦ record { id = []; channel_serial = []; messages = []; presence = []; annotations = [] }
]

mutate-IsMutation_example : IsMutation 5 edit holding edited (mutate false 5 edit holding).1
unfolding mutate is_mutation find_duplicate lookup merge_version mint bytes_eq
mutate-IsMutation_example = mutate-IsMutation false 5 edit holding edited refl

missing_target : (mutate false 5 edit empty).0 ≡ err target_not_found
unfolding mutate is_mutation find_duplicate lookup new_channel_store bytes_eq
missing_target = refl

abbrev member : PresenceAction → PresenceMessage
member action = record {
  id = text "p:0";
  serial = [];
  action = action;
  client_id = text "alice";
  connection_id = text "c1";
  payload = string (text "a");
  encoding = [];
  extras = none;
  timestamp = pos 0;
}

abbrev entered : ChannelMessage
entered = elim (store_presence false 5 (member presence_enter ∷ []) empty).0 [
  | ok (some cm, b) ↦ cm
  | ok (none, b) ↦ record {
    id = [];
    channel_serial = [];
    messages = [];
    presence = [];
    annotations = [];
  }
  | err e ↦ record { id = []; channel_serial = []; messages = []; presence = []; annotations = [] }
]

store_presence-IsEntered_example :
    IsEntered 5
      (member presence_enter ∷ [])
      empty
      entered
      (store_presence false 5 (member presence_enter ∷ []) empty).1
unfolding store_presence find_duplicate lookup new_channel_store mint bytes_eq
store_presence-IsEntered_example =
    store_presence-IsEntered false 5 (member presence_enter ∷ []) empty entered refl

abbrev like : Annotation
like = record {
  id = text "a:0";
  serial = [];
  action = annotation_create;
  client_id = text "bob";
  connection_id = text "c2";
  type = text "likes:total.v1";
  name = [];
  message_serial = text "m";
  count = pos 0;
  payload = string [];
  encoding = [];
  extras = none;
  timestamp = pos 0;
  summary = [];
}

abbrev liked : ChannelMessage
liked = elim (store_annotation false 5 (like ∷ []) holding).0 [
  | ok (some cm, b) ↦ cm
  | ok (none, b) ↦ record {
    id = [];
    channel_serial = [];
    messages = [];
    presence = [];
    annotations = [];
  }
  | err e ↦ record { id = []; channel_serial = []; messages = []; presence = []; annotations = [] }
]

store_annotation-IsAnnotated_example :
    IsAnnotated 5 (like ∷ []) holding liked (store_annotation false 5 (like ∷ []) holding).1
unfolding store_annotation find_duplicate lookup targets_known annotation_fresh new_channel_store
    bytes_eq
store_annotation-IsAnnotated_example =
    store_annotation-IsAnnotated false 5 (like ∷ []) holding liked refl

-- The newest message of the channel.
abbrev newest : HistoryQuery
newest = record {
  kind = kind_message;
  forwards = false;
  start = 1;
  end = 9;
  cursor = [];
  after_channel_serial = [];
  end_channel_serial = [];
  limit = 1;
  collapse = false;
}

published-IsConsistent : IsConsistent published
unfolding new_channel_store bytes_eq
published-IsConsistent = Reach-new_channel_store generator true published (omega arith) (
    next here (
      publish false 5 (text "fresh") (greeting ∷ [])
        (record { reading = omega arith; clock = omega arith })))

raw_history-wanted_example :
    (page : HistoryPage) × (raw_history newest published ≡ some page)
    × (page_items newest.kind page.channel_messages
        ≡ limited newest.limit (wanted newest published))
    × (page.has_more ≡ (ltb 0 newest.limit && ltb newest.limit (length (wanted newest published))))
raw_history-wanted_example = raw_history-wanted newest published published-IsConsistent
