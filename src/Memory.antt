-- ===== src/Memory.antt =====
-- internal/storage/memory/memory.go: the in-process backend, one channel at a time. The mutex makes
-- each method one step. The generator is shared between the channels: it stands in the state, and
-- other channels may advance it between two steps. What the appender has received is a list, oldest
-- first; `none` is a nil appender. The messages that a caller passed are stamped in place in the
-- source; here the stamped ones stand in the result.
pub mod Logging
pub mod Invariant
pub mod Steps
pub mod Behaviour
pub mod Presence
pub mod Annotations
pub mod History
pub mod Queries
mod Tests
use ably_server.Base.{
  ℕ, zero, suc, ◌+◌, Bool, true, false, not, ◌&&◌, ◌||◌, List, [], ◌∷◌, ◌++◌, Option, none, some,
  Bytes, if◌then◌else◌, bytes_eq, Assoc, lookup, insert, delete, Result, ok, err, length, lex_lt,
}
use ably_server.Serial.{Generator, mint, message_serial}
use ably_server.Protocol.{
  MessageAction, message_create, is_mutation, Message, PresenceMessage, PresenceAction,
  presence_absent, presence_present, presence_enter, presence_leave, presence_update,
  ChannelMessage,
}
use ably_server.Protocol.Summaries.{Annotation}
use ably_server.Storage.Pages.{HistoryQuery, HistoryPage, paginate_versions}
use ably_server.Storage.{
  collapse_append_versions, StorageError, target_not_found, no_messages, not_a_mutation, no_target,
  context_done, is_blank, member_key, stamp_message_ids, stamp_create_version,
  stamp_presence_member, merge_version,
}

pub record ChannelStore : Type 0 where
  pub gen : Generator
  pub appender : Option (List ChannelMessage)
  pub order : List Bytes
  pub by_cs : Assoc ChannelMessage
  pub by_id : Assoc Bytes
  pub members : Assoc PresenceMessage
  pub latest : Assoc Message
  pub versions : Assoc (List Message)
  pub annotations : Assoc (List Annotation)

unfoldable pub new_channel_store : Generator → Option (List ChannelMessage) → ChannelStore
new_channel_store gen appender = record {
  gen = gen;
  appender = appender;
  order = [];
  by_cs = [];
  by_id = [];
  members = [];
  latest = [];
  versions = [];
  annotations = [];
}

-- What a publish returns: the persisted message, which a map lookup may miss, and whether it is an
-- earlier one.
abbrev pub Reply : Type 0
Reply = Result StorageError (Option ChannelMessage × Bool)

-- cs.byCS of the first of the ids that was seen before
unfoldable pub find_duplicate : List Bytes → ChannelStore → Option (Option ChannelMessage)
find_duplicate [] cs = none
find_duplicate (id ∷ ids) cs =
    let rest = find_duplicate ids cs in
    if is_blank id
    then rest
    else elim (lookup id cs.by_id) [ some serial ↦ some (lookup serial cs.by_cs) | none ↦ rest ]

abbrev pub deliver : ChannelMessage → Option (List ChannelMessage) → Option (List ChannelMessage)
deliver cm none = none
deliver cm (some received) = some (received ++ cm ∷ [])

unfoldable pub index_ids : Bytes → List Bytes → Assoc Bytes → Assoc Bytes
index_ids channel_serial [] m = m
index_ids channel_serial (id ∷ ids) m =
    index_ids channel_serial ids (if is_blank id then m else insert id channel_serial m)

-- The log write that every publish makes: the map, the order, the id index and the appender.
unfoldable pub persist : ChannelMessage → List Bytes → Generator → ChannelStore → ChannelStore
persist cm ids gen cs = record cs {
  gen = gen;
  appender = deliver cm cs.appender;
  order = cs.order ++ cm.channel_serial ∷ [];
  by_cs = insert cm.channel_serial cm cs.by_cs;
  by_id = index_ids cm.channel_serial ids cs.by_id;
}

abbrev pub message_ids : List Message → List Bytes
message_ids [] = []
message_ids (m ∷ ms) = m.id ∷ message_ids ms

unfoldable pub stamp_creates : Bytes → ℕ → List Message → List Message
stamp_creates channel_serial i [] = []
stamp_creates channel_serial i (m ∷ ms) =
    stamp_create_version
      (record m { serial = message_serial channel_serial i; action = message_create })
    ∷ stamp_creates channel_serial (i + 1) ms

-- Each create is the first version and the latest.
unfoldable pub register : List Message → ChannelStore → ChannelStore
register [] cs = cs
register (m ∷ ms) cs = register ms (record cs {
  latest = insert m.serial m cs.latest;
  versions = insert m.serial (m ∷ []) cs.versions;
})

unfoldable pub create_message : Bytes → Bytes → List Message → ChannelMessage
create_message batch_id channel_serial msgs = record {
  id = batch_id;
  channel_serial = channel_serial;
  messages = msgs;
  presence = [];
  annotations = [];
}

-- Store after the ids are resolved and no duplicate is found.
unfoldable pub store_fresh :
    Bytes → List Message → Bytes × Generator → ChannelStore → ChannelMessage × ChannelStore
store_fresh batch_id msgs (channel_serial, gen) cs =
    let stamped = stamp_creates channel_serial 0 msgs in
    let cm = create_message batch_id channel_serial stamped in
    (cm, register stamped (persist cm (message_ids stamped) gen cs))

unfoldable pub store_stamped : ℕ → Bytes → List Message → ChannelStore → Reply × ChannelStore
unfolding store_fresh create_message
store_stamped now batch_id msgs cs = elim (find_duplicate (message_ids msgs) cs) [
  | some cm ↦ (ok (cm, true), cs)
  | none ↦
      let (cm, cs') = store_fresh batch_id msgs (mint cs.gen now) cs in (ok (some cm, false), cs')
]

-- Store; `done` tells that the context has ended, and `fresh` and `now` are the random id and the
-- clock reading, if they are used.
unfoldable pub store : Bool → ℕ → Bytes → List Message → ChannelStore → Reply × ChannelStore
store done now fresh [] cs = (err no_messages, cs)
store true now fresh (m ∷ ms) cs = (err context_done, cs)
store false now fresh (m ∷ ms) cs = elim (stamp_message_ids fresh (m ∷ ms)) [
  | err e ↦ (err e, cs)
  | ok (batch_id, msgs) ↦ store_stamped now batch_id msgs cs
]

append_version : Bytes → Message → Assoc (List Message) → Assoc (List Message)
append_version serial v m =
    insert serial (elim (lookup serial m) [ none ↦ v ∷ [] | some vs ↦ vs ++ v ∷ [] ]) m

-- Mutate once the version is merged, or not: the serial is spent in either case.
unfoldable pub mutate_merged :
    Message → Bytes → Generator → ChannelStore → Result StorageError Message → Reply × ChannelStore
unfolding append_version create_message
mutate_merged mut channel_serial gen cs (err e) = (err e, record cs { gen = gen })
mutate_merged mut channel_serial gen cs (ok version) =
    let cm = create_message [] channel_serial (version ∷ []) in
    let cs' = persist cm (mut.id ∷ []) gen cs in
    (
      ok (some cm, false),
      record cs' {
        latest = insert mut.serial version cs.latest;
        versions = append_version mut.serial version cs.versions;
      },
    )

unfoldable pub mutate_target :
    Message → Message → Bytes × Generator → ChannelStore → Reply × ChannelStore
unfolding mutate_merged
mutate_target mut current (channel_serial, gen) cs =
    mutate_merged mut channel_serial gen cs
      (merge_version current mut (message_serial channel_serial 0))

unfoldable pub mutate_checked : ℕ → Message → ChannelStore → Reply × ChannelStore
unfolding mutate_target
mutate_checked now mut cs = elim (find_duplicate (mut.id ∷ []) cs) [
  | some cm ↦ (ok (cm, true), cs)
  | none ↦ elim (lookup mut.serial cs.latest) [
    | none ↦ (err target_not_found, cs)
    | some current ↦ mutate_target mut current (mint cs.gen now) cs
  ]
]

unfoldable pub mutate : Bool → ℕ → Message → ChannelStore → Reply × ChannelStore
unfolding mutate_checked
mutate done now mut cs =
    if not (is_mutation mut.action)
    then (err not_a_mutation, cs)
    else if is_blank mut.serial
    then (err no_target, cs)
    else if done
    then (err context_done, cs)
    else mutate_checked now mut cs

unfoldable pub latest_version : Bool → Bytes → ChannelStore → Result StorageError Message
latest_version true serial cs = err context_done
latest_version false serial cs = elim (lookup serial cs.latest) [
  | none ↦ err target_not_found
  | some m ↦ ok m
]

-- Versions
unfoldable pub read_versions :
    Bool → Bytes → HistoryQuery → ChannelStore → Result StorageError HistoryPage
read_versions true serial q cs = err context_done
read_versions false serial q cs = elim (lookup serial cs.versions) [
  | none ↦ err target_not_found
  | some all ↦ ok (paginate_versions (collapse_append_versions all) q)
]

abbrev pub presence_ids : List PresenceMessage → List Bytes
presence_ids [] = []
presence_ids (p ∷ ps) = p.id ∷ presence_ids ps

unfoldable pub stamp_members : Bytes → ℕ → List PresenceMessage → List PresenceMessage
stamp_members channel_serial i [] = []
stamp_members channel_serial i (p ∷ ps) =
    stamp_presence_member p channel_serial i ∷ stamp_members channel_serial (i + 1) ps

abbrev pub is_departure : PresenceAction → Bool
is_departure presence_leave = true
is_departure presence_absent = true
is_departure _ = false

abbrev pub key_of : PresenceMessage → Bytes
key_of p = member_key p.connection_id p.client_id

unfoldable pub fold_members : List PresenceMessage → Assoc PresenceMessage → Assoc PresenceMessage
fold_members [] m = m
fold_members (p ∷ ps) m =
    fold_members ps (if is_departure p.action then delete (key_of p) m else insert (key_of p) p m)

unfoldable pub presence_fresh :
    List PresenceMessage → Bytes × Generator → ChannelStore → ChannelMessage × ChannelStore
presence_fresh ps (channel_serial, gen) cs =
    let stamped = stamp_members channel_serial 0 ps in
    let cm : ChannelMessage = record {
      id = [];
      channel_serial = channel_serial;
      messages = [];
      presence = stamped;
      annotations = [];
    } in
    (
      cm,
      record (persist cm (presence_ids stamped) gen cs) {
        members = fold_members stamped cs.members;
      },
    )

unfoldable pub store_presence :
    Bool → ℕ → List PresenceMessage → ChannelStore → Reply × ChannelStore
unfolding presence_fresh
store_presence done now [] cs = (err no_messages, cs)
store_presence true now (p ∷ ps) cs = (err context_done, cs)
store_presence false now (p ∷ ps) cs = elim (find_duplicate (presence_ids (p ∷ ps)) cs) [
  | some cm ↦ (ok (cm, true), cs)
  | none ↦
      let (cm, cs') = presence_fresh (p ∷ ps) (mint cs.gen now) cs in (ok (some cm, false), cs')
]
