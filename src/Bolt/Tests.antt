-- ===== src/Bolt/Tests.antt =====
-- internal/storage/bbolt/bbolt.go on concrete input: an engine of association lists whose values are
-- the terms that were marshalled.
use ably_server.Base.{
  bytes_eq, sym, ok, err, ◌≡◌, ◌≢◌, refl, inl, inr, ◌++◌, true, false, List, [], ◌∷◌, Option, none,
  some, Bytes, text, pos, arith, Assoc, lookup, insert, lookup-insert,
}
use ably_server.Serial.{Generator, new_generator}
use ably_server.Protocol.{string, message_create, message_update, Message, ChannelMessage}
use ably_server.Protocol.Summaries.{Annotation}
use mathlib.Core.Path.{subst}
use ably_server.Memory.{Reply, ChannelStore, new_channel_store, latest_version}
use ably_server.Bolt.{
  Engine, IsEngine, Db, BoltStore, BoltError, refused, not_encoded, not_decoded, not_written,
  missing_message, persisted, checked, channel_key, bolt_store,
}
use ably_server.Bolt.Operations.{bolt_latest_version}
use ably_server.Bolt.Views.{IsFault, Views}
use ably_server.Bolt.Refinement.{expected, Refines}
use ably_server.Bolt.Refinement.Mutations.{bolt_latest_version-checked}
use ably_server.Bolt.Refinement.Operations.{
  Operation, publish, mutation, run, run_all, all_expected, bolt_run, bolt_run_all,
  bolt_run-Simulates, IsUnharmed, AllUnharmed, new-Refines, IsFresh, new_bolt_store,
  bolt_run_all-expected,
}
use ably_server.Core.Name.{valid_channel_name, is_reserved, has_line_break, breaks_at}
use ably_server.Bolt.Isolation.Names.{nul-shares_keys}
use ably_server.Bolt.Isolation.Steps
use ably_server.Bolt.Isolation.Steps.{BoltStep-Views}

data Value : Type 0 where
  serial_value : Bytes → Value
  channel_message_value : ChannelMessage → Value
  message_value : Message → Value
  annotation_value : Annotation → Value

abbrev to_string : Value → Bytes
to_string (serial_value s) = s
to_string _ = []

abbrev to_channel_message : Value → Option ChannelMessage
to_channel_message (channel_message_value cm) = some (persisted cm)
to_channel_message _ = none

abbrev to_message : Value → Option Message
to_message (message_value m) = some m
to_message _ = none

abbrev to_annotation : Value → Option Annotation
to_annotation (annotation_value a) = some a
to_annotation _ = none

instance abbrev engine : Engine (Assoc Value)
engine = record {
  Value = Value;
  get = lookup;
  put = λ k v b. some (insert k v b);
  of_string = serial_value;
  to_string = to_string;
  channel_messages = record {
    marshal = λ cm. some (channel_message_value cm);
    unmarshal = to_channel_message;
  };
  messages = record { marshal = λ m. some (message_value m); unmarshal = to_message };
  annotations = record { marshal = λ a. some (annotation_value a); unmarshal = to_annotation };
}

engine-IsEngine : IsEngine engine
engine-IsEngine = record {
  get-put = λ k v b c h j. ground (arith, lookup-insert k j v b);
  strings = λ s. refl;
  channel_messages = λ cm blob h. ground arith;
  messages = λ m blob h. ground arith;
}

faultless : (e : BoltError) → IsFault engine e → ⊥
faultless (refused e) h = h
faultless not_encoded (inl (cm, h)) = absurd (ground arith)
faultless not_encoded (inr (inl (m, h))) = absurd (ground arith)
faultless not_encoded (inr (inr (a, h))) = absurd (ground arith)
faultless not_decoded h = h
faultless not_written (k, v, b, h) = absurd (ground arith)
faultless missing_message h = h

abbrev empty_db : Db (Assoc Value)
empty_db = record { messages = []; ids = []; latest = []; versions = []; annotations = [] }

abbrev generator : Generator
generator = new_generator (text "s")

abbrev greeting : Message
greeting = record {
  id = text "x:0";
  serial = [];
  action = message_create;
  client_id = text "alice";
  connection_id = [];
  connection_key = [];
  name = [];
  payload = string (text "a");
  encoding = [];
  extras = none;
  timestamp = pos 0;
  version = none;
  summary = [];
  alt = none;
}

-- A publish, a change of the message, and the publish again.
abbrev sequence : List Operation
sequence =
    publish false 5 (text "fresh") (greeting ∷ [])
    ∷ mutation false 6 (record greeting {
      id = text "y";
      serial = text "00000000000005-000@s:000";
      action = message_update;
    })
    ∷ publish false 7 (text "other") (greeting ∷ [])
    ∷ []

lobby : Bytes
lobby = text "lobby"

empty-IsFresh : IsFresh lobby empty_db
unfolding lookup
empty-IsFresh = record { ids = λ k. refl; messages = λ k. refl; latest = λ k. refl }

abbrev on_disk : BoltStore (Assoc Value)
on_disk = new_bolt_store lobby empty_db generator (some [])

abbrev in_memory : ChannelStore
in_memory = new_channel_store generator (some [])

expected-IsUnharmed : (r : Reply) → IsUnharmed (expected r)
expected-IsUnharmed (ok (none, b)) = tt
expected-IsUnharmed (ok (some cm, true)) = tt
expected-IsUnharmed (ok (some cm, false)) = tt
expected-IsUnharmed (err e) = tt

-- The engine of this file does not fail.
all-AllUnharmed :
    (ops : List Operation) (bs : BoltStore (Assoc Value)) (cs : ChannelStore)
    → Refines bs cs
    → AllUnharmed (bolt_run_all ops bs).0
all-AllUnharmed [] bs cs ref = tt
all-AllUnharmed (op ∷ ops) bs cs ref = elim (bolt_run-Simulates engine-IsEngine bs cs ref op) [
  | inl failed ↦ absurd (faultless failed.fault.0 failed.fault.2)
  | inr (same, next) ↦ (
    subst IsUnharmed (sym same) (expected-IsUnharmed (run op cs).0),
    all-AllUnharmed ops (bolt_run op bs).1 (run op cs).1 next,
  )
]

bolt_run_all-expected_example :
    ((bolt_run_all sequence on_disk).0 ≡ all_expected (run_all sequence in_memory).0)
    × Refines (bolt_run_all sequence on_disk).1 (run_all sequence in_memory).1
bolt_run_all-expected_example =
    bolt_run_all-expected engine-IsEngine lobby empty_db generator (some []) sequence empty-IsFresh
      (all-AllUnharmed sequence on_disk in_memory
        (new-Refines lobby empty_db generator (some []) empty-IsFresh))

abbrev published_on_disk : BoltStore (Assoc Value)
published_on_disk = (bolt_run_all sequence on_disk).1

abbrev published_in_memory : ChannelStore
published_in_memory = (run_all sequence in_memory).1

published-Refines : Refines published_on_disk published_in_memory
published-Refines = bolt_run_all-expected_example.1

bolt_latest_version-checked_example :
    bolt_latest_version false (text "00000000000005-000@s:000") published_on_disk
    ≡ checked (latest_version false (text "00000000000005-000@s:000") published_in_memory)
bolt_latest_version-checked_example =
    bolt_latest_version-checked published_on_disk published_in_memory published-Refines false
      (text "00000000000005-000@s:000")

attic-Views : Views (text "attic") empty_db [] [] []
unfolding lookup
attic-Views = record { ids = λ id. refl; messages = λ s. refl; latest = λ s. refl }

names_differ : lobby ≢ text "attic"
unfolding lobby
names_differ e = absurd (ground (arith, e))

BoltStep-Views_example :
    Views (text "attic") (bolt_store false 5 (text "fresh") (greeting ∷ []) on_disk).1.db [] [] []
unfolding lobby
BoltStep-Views_example =
    BoltStep-Views engine-IsEngine on_disk
      (bolt_store false 5 (text "fresh") (greeting ∷ []) on_disk).1 (text "attic") [] [] []
      (Steps.publish false 5 (text "fresh") (greeting ∷ [])) refl refl names_differ attic-Views

-- The channel "lobby", beside another that has the id "a:0".
abbrev beside : BoltStore (Assoc Value)
beside = record on_disk {
  db = record empty_db {
    ids = (channel_key (lobby ++ 0 ∷ text "x") (text "a:0"), serial_value (text "s")) ∷ [];
  };
}

nul-shares_keys_example :
    (valid_channel_name (lobby ++ 0 ∷ text "x") ≡ true)
    × ((bolt_store false 5
          (text "fresh")
          (record greeting { id = text "x" ++ 0 ∷ text "a:0" } ∷ [])
          beside).1
        ≡ beside)
unfolding lobby valid_channel_name is_reserved has_line_break breaks_at lookup bytes_eq channel_key
nul-shares_keys_example =
    nul-shares_keys (text "x") (text "a:0") (serial_value (text "s")) 5 (text "fresh")
      (record greeting { id = text "x" ++ 0 ∷ text "a:0" }) beside refl refl refl refl
