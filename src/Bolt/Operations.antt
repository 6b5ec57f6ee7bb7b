-- ===== src/Bolt/Operations.antt =====
-- internal/storage/bbolt/bbolt.go: `Mutate`, `LatestVersion`, `StorePresence`, `StoreAnnotation`
-- and `foldSummaryTx`.
use ably_server.Base.{
  ℕ, ◌+◌, Bool, true, false, not, List, [], ◌∷◌, none, some, Bytes, if◌then◌else◌, Result, ok, err,
  ◌>>=◌,
}
use ably_server.Serial.{mint, message_serial}
use ably_server.Protocol.{Message, PresenceMessage, ChannelMessage, is_mutation}
use ably_server.Protocol.Summaries.{Annotation, apply}
use ably_server.Storage.{
  target_not_found, no_messages, not_a_mutation, no_target, context_done, is_blank, merge_version,
}
use ably_server.Memory.{create_message, presence_ids, stamp_members, fold_members}
use ably_server.Memory.Annotations.{annotation_ids}
use ably_server.Bolt.{
  Engine, Db, BoltStore, BoltError, refused, not_encoded, not_decoded, not_written, BoltReply,
  required, checked, channel_key, version_key, committed, find_original, put_message, put_id,
  put_ids, put_latest, put_version, finished,
}

-- The publish of presence messages and the publish of annotations.
abbrev pub presence_message : Bytes → List PresenceMessage → ChannelMessage
presence_message channel_serial ps = record {
  id = [];
  channel_serial = channel_serial;
  messages = [];
  presence = ps;
  annotations = [];
}

abbrev pub annotation_message : Bytes → List Annotation → ChannelMessage
annotation_message channel_serial anns = record {
  id = [];
  channel_serial = channel_serial;
  messages = [];
  presence = [];
  annotations = anns;
}

module _ {Bucket : Type 0} ⦃engine : Engine Bucket⦄ where
  -- The writes of a mutation, once the version is merged.
  unfoldable pub put_mutation :
      Bytes → Bytes → Bytes → Message → Db Bucket → Result BoltError (ChannelMessage × Db Bucket)
  unfolding create_message
  put_mutation name id channel_serial version db =
      let cm = create_message [] channel_serial (version ∷ []) in
      finished cm
        (put_message name cm db >>= put_id name channel_serial id >>= put_version name version)

  unfoldable pub bolt_mutate_current :
      ℕ → Message → Message → BoltStore Bucket → BoltReply × BoltStore Bucket
  bolt_mutate_current now mut current bs =
      let (channel_serial, gen) = mint bs.gen now in
      committed gen bs (
        checked (merge_version current mut (message_serial channel_serial 0)) >>= λ version.
        put_mutation bs.name mut.id channel_serial version bs.db)

  unfoldable pub bolt_mutate_target : ℕ → Message → BoltStore Bucket → BoltReply × BoltStore Bucket
  bolt_mutate_target now mut bs = elim (engine.get (channel_key bs.name mut.serial) bs.db.latest) [
    | none ↦ (err (refused target_not_found), bs)
    | some blob ↦ elim (engine.messages.unmarshal blob) [
      | none ↦ (err not_decoded, bs)
      | some current ↦ bolt_mutate_current now mut current bs
    ]
  ]

  unfoldable pub bolt_mutate_checked : ℕ → Message → BoltStore Bucket → BoltReply × BoltStore Bucket
  bolt_mutate_checked now mut bs = elim (find_original bs.name (mut.id ∷ []) bs.db) [
    | err e ↦ (err e, bs)
    | ok (some cm) ↦ (ok (cm, true), bs)
    | ok none ↦ bolt_mutate_target now mut bs
  ]

  -- Mutate
  unfoldable pub bolt_mutate : Bool → ℕ → Message → BoltStore Bucket → BoltReply × BoltStore Bucket
  bolt_mutate done now mut bs =
      if not (is_mutation mut.action)
      then (err (refused not_a_mutation), bs)
      else if is_blank mut.serial
      then (err (refused no_target), bs)
      else if done
      then (err (refused context_done), bs)
      else bolt_mutate_checked now mut bs

  -- LatestVersion
  unfoldable pub bolt_latest_version : Bool → Bytes → BoltStore Bucket → Result BoltError Message
  bolt_latest_version true serial bs = err (refused context_done)
  bolt_latest_version false serial bs =
      required (refused target_not_found) (engine.get (channel_key bs.name serial) bs.db.latest)
      >>= λ blob. required not_decoded (engine.messages.unmarshal blob)

  -- The members of a presence publish that is kept.
  abbrev pub joined : BoltReply × BoltStore Bucket → BoltReply × BoltStore Bucket
  joined (ok (cm, false), bs) =
      (ok (cm, false), record bs { members = fold_members cm.presence bs.members })
  joined (ok (cm, true), bs) = (ok (cm, true), bs)
  joined (err e, bs) = (err e, bs)

  unfoldable pub put_presence :
      Bytes
      → List PresenceMessage
      → Bytes
      → Db Bucket
      → Result BoltError (ChannelMessage × Db Bucket)
  put_presence name ps channel_serial db =
      let stamped = stamp_members channel_serial 0 ps in
      let cm = presence_message channel_serial stamped in
      finished cm (put_message name cm db >>= put_ids name channel_serial (presence_ids stamped))

  -- StorePresence
  unfoldable pub bolt_store_presence :
      Bool → ℕ → List PresenceMessage → BoltStore Bucket → BoltReply × BoltStore Bucket
  bolt_store_presence done now [] bs = (err (refused no_messages), bs)
  bolt_store_presence true now (p ∷ ps) bs = (err (refused context_done), bs)
  bolt_store_presence false now (p ∷ ps) bs =
      elim (find_original bs.name (presence_ids (p ∷ ps)) bs.db) [
        | err e ↦ (err e, bs)
        | ok (some cm) ↦ (ok (cm, true), bs)
        | ok none ↦
            let (channel_serial, gen) = mint bs.gen now in
            joined (committed gen bs (put_presence bs.name (p ∷ ps) channel_serial bs.db))
      ]

  unfoldable pub targets_present : Bytes → List Annotation → Db Bucket → Bool
  targets_present name [] db = true
  targets_present name (a ∷ anns) db =
      let rest = targets_present name anns db in
      elim (engine.get (channel_key name a.message_serial) db.latest) [
        | none ↦ false
        | some blob ↦ rest
      ]

  -- The write of a folded summary.
  unfoldable pub put_summary :
      Bytes → Annotation → Db Bucket → Message → Result BoltError (Annotation × Db Bucket)
  put_summary name a db m =
      let folded = apply m.summary a in
      required not_encoded (engine.messages.marshal (record m { summary = folded }))
      >>= (λ blob. put_latest name a.message_serial blob db)
      >>= λ db'. ok (record a { summary = folded }, db')

  -- foldSummaryTx
  unfoldable pub fold_summary_tx :
      Bytes → Annotation → Db Bucket → Result BoltError (Annotation × Db Bucket)
  fold_summary_tx name a db = elim (engine.get (channel_key name a.message_serial) db.latest) [
    | none ↦ ok (a, db)
    | some blob ↦ required not_decoded (engine.messages.unmarshal blob) >>= put_summary name a db
  ]

  unfoldable pub fold_annotations :
      Bytes
      → Bytes
      → ℕ
      → List Annotation
      → Db Bucket
      → Result BoltError (List Annotation × Db Bucket)
  fold_annotations name channel_serial i [] db = ok ([], db)
  fold_annotations name channel_serial i (a ∷ anns) db =
      fold_summary_tx name (record a { serial = message_serial channel_serial i }) db >>= λ folded.
      fold_annotations name channel_serial (i + 1) anns folded.1 >>= λ rest.
      ok (folded.0 ∷ rest.0, rest.1)

  unfoldable pub put_annotation : Bytes → Annotation → Db Bucket → Result BoltError (Db Bucket)
  put_annotation name a db =
      required not_encoded (engine.annotations.marshal a)
      >>= (λ blob.
          required not_written
            (engine.put (version_key name a.message_serial a.serial) blob db.annotations))
      >>= λ b. ok (record db { annotations = b })

  unfoldable pub put_annotations :
      Bytes → Bytes → List Annotation → Db Bucket → Result BoltError (Db Bucket)
  put_annotations name channel_serial [] db = ok db
  put_annotations name channel_serial (a ∷ anns) db =
      put_id name channel_serial a.id db
      >>= put_annotation name a
      >>= put_annotations name channel_serial anns

  unfoldable pub bolt_annotation_fresh :
      Bytes → List Annotation → Bytes → Db Bucket → Result BoltError (ChannelMessage × Db Bucket)
  bolt_annotation_fresh name anns channel_serial db =
      fold_annotations name channel_serial 0 anns db >>= λ folded.
      let cm = annotation_message channel_serial folded.0 in
      finished cm (put_message name cm folded.1 >>= put_annotations name channel_serial folded.0)

  unfoldable pub bolt_annotation_checked :
      ℕ → List Annotation → BoltStore Bucket → BoltReply × BoltStore Bucket
  bolt_annotation_checked now anns bs =
      if targets_present bs.name anns bs.db
      then (let (channel_serial, gen) = mint bs.gen now in
          committed gen bs (bolt_annotation_fresh bs.name anns channel_serial bs.db))
      else (err (refused target_not_found), bs)

  -- StoreAnnotation
  unfoldable pub bolt_store_annotation :
      Bool → ℕ → List Annotation → BoltStore Bucket → BoltReply × BoltStore Bucket
  bolt_store_annotation done now [] bs = (err (refused no_messages), bs)
  bolt_store_annotation true now (a ∷ anns) bs = (err (refused context_done), bs)
  bolt_store_annotation false now (a ∷ anns) bs =
      elim (find_original bs.name (annotation_ids (a ∷ anns)) bs.db) [
        | err e ↦ (err e, bs)
        | ok (some cm) ↦ (ok (cm, true), bs)
        | ok none ↦ bolt_annotation_checked now (a ∷ anns) bs
      ]
