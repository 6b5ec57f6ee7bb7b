-- ===== src/Bolt.antt =====
-- internal/storage/bbolt/bbolt.go: the on-disk backend, one channel at a time. bbolt's buckets and
-- the msgpack codec are parameters, the record `Engine`; `IsEngine` says what the backend relies on.
-- Stamping, merging and the rules on ids are those of `Storage` and, where both backends repeat the
-- same loop, of `Memory`. A write transaction is a chain of results: on an error nothing is kept. A
-- commit that fails is left out.
pub mod Operations
pub mod Views
pub mod Writes
pub mod Refinement
pub mod Isolation
mod Tests
use ably_server.Base.{
  ℕ, ◌≡◌, Bool, true, false, not, List, [], ◌∷◌, ◌++◌, Option, none, some, Bytes, if◌then◌else◌,
  Assoc, Result, ok, err, ◌>>=◌, bytes_eq,
}
use ably_server.Serial.{Generator, mint, message_serial}
use ably_server.Protocol.{Message, PresenceMessage, ChannelMessage, is_mutation}
use ably_server.Protocol.Summaries.{Annotation, apply}
use ably_server.Storage.{
  StorageError, target_not_found, no_messages, not_a_mutation, no_target, context_done, is_blank,
  stamp_message_ids, merge_version, version_serial_of,
}
use ably_server.Memory.{
  deliver, message_ids, stamp_creates, create_message, presence_ids, stamp_members, fold_members,
}
use ably_server.Memory.Annotations.{annotation_ids}

pub record Codec (A Value : Type 0) : Type 0 where
  pub marshal : A → Option Value
  pub unmarshal : Value → Option A

-- A bucket's Get and Put, a string as a stored value and back, and the msgpack codecs; `none` is an
-- error, or no value for Get.
pub record Engine (Bucket : Type 0) : Type 1 where
  pub Value : Type 0
  pub get : Bytes → Bucket → Option Value
  pub put : Bytes → Value → Bucket → Option Bucket
  pub of_string : Bytes → Value
  pub to_string : Value → Bytes
  pub channel_messages : Codec ChannelMessage Value
  pub messages : Codec Message Value
  pub annotations : Codec Annotation Value

-- What comes back of an annotation, whose summary is `msgpack:"-"`.
abbrev pub without_summary : Annotation → Annotation
without_summary a = record a { summary = [] }

abbrev pub without_summaries : List Annotation → List Annotation
without_summaries [] = []
without_summaries (a ∷ anns) = without_summary a ∷ without_summaries anns

abbrev pub persisted : ChannelMessage → ChannelMessage
persisted cm = record cm { annotations = without_summaries cm.annotations }

pub record IsEngine {Bucket : Type 0} (engine : Engine Bucket) : Type 0 where
  pub get-put :
      (k : Bytes) (v : engine.Value) (b c : Bucket)
      → engine.put k v b ≡ some c
      → (j : Bytes) → engine.get j c ≡ (if bytes_eq k j then some v else engine.get j b)
  pub strings : (s : Bytes) → engine.to_string (engine.of_string s) ≡ s
  pub channel_messages :
      (cm : ChannelMessage) (blob : engine.Value)
      → engine.channel_messages.marshal cm ≡ some blob
      → engine.channel_messages.unmarshal blob ≡ some (persisted cm)
  pub messages :
      (m : Message) (blob : engine.Value)
      → engine.messages.marshal m ≡ some blob
      → engine.messages.unmarshal blob ≡ some m

-- The buckets that the operations of a channel use.
pub record Db (Bucket : Type 0) : Type 0 where
  pub messages : Bucket
  pub ids : Bucket
  pub latest : Bucket
  pub versions : Bucket
  pub annotations : Bucket

pub record BoltStore (Bucket : Type 0) : Type 0 where
  pub db : Db Bucket
  pub gen : Generator
  pub name : Bytes
  pub appender : Option (List ChannelMessage)
  pub members : Assoc PresenceMessage

pub data BoltError : Type 0 where
  refused : StorageError → BoltError
  not_encoded not_decoded not_written missing_message : BoltError

abbrev pub BoltReply : Type 0
BoltReply = Result BoltError (ChannelMessage × Bool)

abbrev pub required : {A : Type 0} → BoltError → Option A → Result BoltError A
required e none = err e
required e (some a) = ok a

abbrev pub checked : {A : Type 0} → Result StorageError A → Result BoltError A
checked (ok a) = ok a
checked (err e) = err (refused e)

-- channelKey
unfoldable pub channel_key : Bytes → Bytes → Bytes
channel_key channel suffix = channel ++ 0 ∷ suffix

-- versionKey, which is annotationKey too
unfoldable pub version_key : Bytes → Bytes → Bytes → Bytes
version_key channel identity version_serial = channel ++ 0 ∷ (identity ++ 0 ∷ version_serial)

-- How a publish that is no repeat ends: rolled back, or committed and delivered.
abbrev pub committed :
    {Bucket : Type 0}
    → Generator
    → BoltStore Bucket
    → Result BoltError (ChannelMessage × Db Bucket)
    → BoltReply × BoltStore Bucket
committed gen bs (err e) = (err e, record bs { gen = gen })
committed gen bs (ok (cm, db)) =
    (ok (cm, false), record bs { gen = gen; db = db; appender = deliver cm bs.appender })

module _ {Bucket : Type 0} ⦃engine : Engine Bucket⦄ where
  unfoldable pub original : Bytes → Bytes → Db Bucket → Result BoltError (Option ChannelMessage)
  original name serial db =
      required missing_message (engine.get (channel_key name serial) db.messages)
      >>= (λ blob. required not_decoded (engine.channel_messages.unmarshal blob))
      >>= λ cm. ok (some cm)

  -- The publish that has one of the ids, if there is one.
  unfoldable pub find_original :
      Bytes → List Bytes → Db Bucket → Result BoltError (Option ChannelMessage)
  find_original name [] db = ok none
  find_original name (id ∷ ids) db =
      let rest = find_original name ids db in
      if is_blank id then rest else elim (engine.get (channel_key name id) db.ids) [
        | none ↦ rest
        | some serial ↦ original name (engine.to_string serial) db
      ]

  unfoldable pub put_message : Bytes → ChannelMessage → Db Bucket → Result BoltError (Db Bucket)
  put_message name cm db =
      required not_encoded (engine.channel_messages.marshal cm)
      >>= (λ blob.
          required not_written (engine.put (channel_key name cm.channel_serial) blob db.messages))
      >>= λ b. ok (record db { messages = b })

  unfoldable pub put_id : Bytes → Bytes → Bytes → Db Bucket → Result BoltError (Db Bucket)
  put_id name channel_serial id db =
      if is_blank id
      then ok db
      else required not_written
          (engine.put (channel_key name id) (engine.of_string channel_serial) db.ids)
        >>= λ b. ok (record db { ids = b })

  unfoldable pub put_latest :
      Bytes → Bytes → engine.Value → Db Bucket → Result BoltError (Db Bucket)
  put_latest name identity blob db =
      required not_written (engine.put (channel_key name identity) blob db.latest) >>= λ b.
      ok (record db { latest = b })

  unfoldable pub put_history :
      Bytes → Message → engine.Value → Db Bucket → Result BoltError (Db Bucket)
  put_history name m blob db =
      required not_written
        (engine.put (version_key name m.serial (version_serial_of m)) blob db.versions)
      >>= λ b. ok (record db { versions = b })

  -- putVersion
  unfoldable pub put_version : Bytes → Message → Db Bucket → Result BoltError (Db Bucket)
  put_version name m db = required not_encoded (engine.messages.marshal m) >>= λ blob.
      put_latest name m.serial blob db >>= put_history name m blob

  -- The ids and first versions of the messages of a publish.
  unfoldable pub put_creates :
      Bytes → Bytes → List Message → Db Bucket → Result BoltError (Db Bucket)
  put_creates name channel_serial [] db = ok db
  put_creates name channel_serial (m ∷ ms) db =
      put_id name channel_serial m.id db
      >>= put_version name m
      >>= put_creates name channel_serial ms

  unfoldable pub put_ids : Bytes → Bytes → List Bytes → Db Bucket → Result BoltError (Db Bucket)
  put_ids name channel_serial [] db = ok db
  put_ids name channel_serial (id ∷ ids) db =
      put_id name channel_serial id db >>= put_ids name channel_serial ids

  abbrev pub finished :
      ChannelMessage → Result BoltError (Db Bucket) → Result BoltError (ChannelMessage × Db Bucket)
  finished cm r = r >>= λ db. ok (cm, db)

  unfoldable pub bolt_store_fresh :
      Bytes
      → Bytes
      → List Message
      → Bytes
      → Db Bucket
      → Result BoltError (ChannelMessage × Db Bucket)
  unfolding create_message
  bolt_store_fresh name batch_id msgs channel_serial db =
      let stamped = stamp_creates channel_serial 0 msgs in
      let cm = create_message batch_id channel_serial stamped in
      finished cm (put_message name cm db >>= put_creates name channel_serial stamped)

  unfoldable pub bolt_store_stamped :
      ℕ → Bytes → List Message → BoltStore Bucket → BoltReply × BoltStore Bucket
  bolt_store_stamped now batch_id msgs bs = elim (find_original bs.name (message_ids msgs) bs.db) [
    | err e ↦ (err e, bs)
    | ok (some cm) ↦ (ok (cm, true), bs)
    | ok none ↦
        let (channel_serial, gen) = mint bs.gen now in
        committed gen bs (bolt_store_fresh bs.name batch_id msgs channel_serial bs.db)
  ]

  -- Store
  unfoldable pub bolt_store :
      Bool → ℕ → Bytes → List Message → BoltStore Bucket → BoltReply × BoltStore Bucket
  bolt_store done now fresh [] bs = (err (refused no_messages), bs)
  bolt_store true now fresh (m ∷ ms) bs = (err (refused context_done), bs)
  bolt_store false now fresh (m ∷ ms) bs = elim (stamp_message_ids fresh (m ∷ ms)) [
    | err e ↦ (err (refused e), bs)
    | ok (batch_id, msgs) ↦ bolt_store_stamped now batch_id msgs bs
  ]
