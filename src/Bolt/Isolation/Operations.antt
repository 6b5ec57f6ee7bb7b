-- ===== src/Bolt/Isolation/Operations.antt =====
-- internal/storage/bbolt/bbolt.go: the operations of a channel and the keys of other channels.
use ably_server.Base.{
  ℕ, Bool, true, false, not, List, [], ◌∷◌, Option, none, some, Bytes, if◌then◌else◌, Result, ok,
  err, ◌>>=◌,
}
use ably_server.Serial.{Generator, mint, message_serial}
use ably_server.Protocol.{Message, PresenceMessage, ChannelMessage, is_mutation}
use ably_server.Storage.{
  StorageError, target_not_found, not_a_mutation, no_target, context_done, is_blank,
  stamp_message_ids, merge_version,
}
use ably_server.Memory.{message_ids, stamp_creates, create_message, presence_ids, stamp_members}
use ably_server.Bolt.{
  Engine, IsEngine, Db, BoltStore, BoltError, refused, not_decoded, BoltReply, checked, channel_key,
  committed, find_original, put_id, put_ids, put_version, put_creates, bolt_store_fresh,
  bolt_store_stamped, bolt_store,
}
use ably_server.Bolt.Operations.{
  presence_message, put_mutation, bolt_mutate_current, bolt_mutate_target, bolt_mutate_checked,
  bolt_mutate, joined, put_presence, bolt_store_presence,
}
use ably_server.Bolt.Views.{Yields, results, fails, IsFault}
use ably_server.Bolt.Isolation.{
  Keeps, Keeps-refl, Keeps-bind, put_message-Keeps, put_id-Keeps, put_ids-Keeps, put_version-Keeps,
  put_creates-Keeps,
}

module _ {Bucket : Type 0} ⦃engine : Engine Bucket⦄ where
  abbrev pub Kept : BoltStore Bucket → BoltReply × BoltStore Bucket → Type 0
  Kept bs (reply, bs') = Keeps bs.name bs.db bs'.db

  pub committed-Kept :
      (gen : Generator) (bs : BoltStore Bucket) (cm : ChannelMessage)
      {r : Result BoltError (Db Bucket)}
      → Yields (IsFault engine) (Keeps bs.name bs.db) r
      → Kept bs (committed gen bs (r >>= λ db. ok (cm, db)))
  committed-Kept gen bs cm (fails e h) = Keeps-refl bs.name bs.db
  committed-Kept gen bs cm (results d h) = h

  joined-Kept :
      (gen : Generator) (bs : BoltStore Bucket) (cm : ChannelMessage)
      {r : Result BoltError (Db Bucket)}
      → Yields (IsFault engine) (Keeps bs.name bs.db) r
      → Kept bs (joined (committed gen bs (r >>= λ db. ok (cm, db))))
  joined-Kept gen bs cm (fails e h) = Keeps-refl bs.name bs.db
  joined-Kept gen bs cm (results d h) = h

  pub answer-Kept :
      (bs : BoltStore Bucket) (fresh : BoltReply × BoltStore Bucket)
      (o : Result BoltError (Option ChannelMessage))
      → Kept bs fresh
      → Kept bs
          (elim o [ err e ↦ (err e, bs) | ok (some cm) ↦ (ok (cm, true), bs) | ok none ↦ fresh ])
  answer-Kept bs fresh (err e) h = Keeps-refl bs.name bs.db
  answer-Kept bs fresh (ok (some cm)) h = Keeps-refl bs.name bs.db
  answer-Kept bs fresh (ok none) h = h

  module _ (laws : IsEngine engine) (bs : BoltStore Bucket) where
    stamped-Kept :
        (now : ℕ) (batch_id : Bytes) (msgs : List Message)
        → Kept bs (bolt_store_stamped now batch_id msgs bs)
    unfolding bolt_store_stamped bolt_store_fresh create_message
    stamped-Kept now batch_id msgs =
        let (s, gen) = mint bs.gen now in
        let stamped : List Message = stamp_creates s 0 msgs in
        let cm : ChannelMessage = create_message batch_id s stamped in
        answer-Kept bs _ (find_original bs.name (message_ids msgs) bs.db) (
          committed-Kept gen bs cm (
            Keeps-bind laws bs.name bs.db (put_creates bs.name s stamped)
              (put_message-Keeps laws bs.name cm bs.db) (put_creates-Keeps laws bs.name s stamped)))

    pub store-Kept :
        (done : Bool) (now : ℕ) (fresh : Bytes) (msgs : List Message)
        → Kept bs (bolt_store done now fresh msgs bs)
    unfolding bolt_store
    store-Kept done now fresh [] = Keeps-refl bs.name bs.db
    store-Kept true now fresh (m ∷ ms) = Keeps-refl bs.name bs.db
    store-Kept false now fresh (m ∷ ms) = go (stamp_message_ids fresh (m ∷ ms))
      where
        go :
            (r : Result StorageError (Bytes × List Message))
            → Kept bs (elim r [
              | err e ↦ (err (refused e), bs)
              | ok (batch_id, msgs) ↦ bolt_store_stamped now batch_id msgs bs
            ])
        go (err e) = Keeps-refl bs.name bs.db
        go (ok (batch_id, msgs)) = stamped-Kept now batch_id msgs

    current-Kept :
        (now : ℕ) (mut current : Message) → Kept bs (bolt_mutate_current now mut current bs)
    unfolding bolt_mutate_current put_mutation create_message
    current-Kept now mut current =
        go (mint bs.gen now).0 (mint bs.gen now).1
          (merge_version current mut (message_serial (mint bs.gen now).0 0))
      where
        go :
            (s : Bytes) (gen : Generator) (r : Result StorageError Message)
            → Kept bs (
                committed gen bs
                  (checked r >>= λ version. put_mutation bs.name mut.id s version bs.db))
        go s gen (err e) = Keeps-refl bs.name bs.db
        go s gen (ok v) =
            let cm : ChannelMessage = create_message [] s (v ∷ []) in
            committed-Kept gen bs cm (
              Keeps-bind laws bs.name bs.db (put_version bs.name v)
                (Keeps-bind laws bs.name bs.db (put_id bs.name s mut.id)
                  (put_message-Keeps laws bs.name cm bs.db) (put_id-Keeps laws bs.name s mut.id))
                (put_version-Keeps laws bs.name v))

    target-Kept : (now : ℕ) (mut : Message) → Kept bs (bolt_mutate_target now mut bs)
    unfolding bolt_mutate_target
    target-Kept now mut = go (engine.get (channel_key bs.name mut.serial) bs.db.latest)
      where
        read :
            (o : Option Message)
            → Kept bs (elim o [
              | none ↦ (err not_decoded, bs)
              | some current ↦ bolt_mutate_current now mut current bs
            ])
        read none = Keeps-refl bs.name bs.db
        read (some current) = current-Kept now mut current

        go :
            (o : Option engine.Value)
            → Kept bs (elim o [
              | none ↦ (err (refused target_not_found), bs)
              | some blob ↦ elim (engine.messages.unmarshal blob) [
                | none ↦ (err not_decoded, bs)
                | some current ↦ bolt_mutate_current now mut current bs
              ]
            ])
        go none = Keeps-refl bs.name bs.db
        go (some blob) = read (engine.messages.unmarshal blob)

    pub mutate-Kept :
        (done : Bool) (now : ℕ) (mut : Message) → Kept bs (bolt_mutate done now mut bs)
    unfolding bolt_mutate bolt_mutate_checked
    mutate-Kept done now mut = go (not (is_mutation mut.action)) (is_blank mut.serial) done
      where
        go :
            (a b c : Bool)
            → Kept bs (
                if a
                then (err (refused not_a_mutation), bs)
                else if b
                then (err (refused no_target), bs)
                else if c
                then (err (refused context_done), bs)
                else bolt_mutate_checked now mut bs)
        go true b c = Keeps-refl bs.name bs.db
        go false true c = Keeps-refl bs.name bs.db
        go false false true = Keeps-refl bs.name bs.db
        go false false false =
            answer-Kept bs _ (find_original bs.name (mut.id ∷ []) bs.db) (target-Kept now mut)

    pub presence-Kept :
        (done : Bool) (now : ℕ) (ps : List PresenceMessage)
        → Kept bs (bolt_store_presence done now ps bs)
    unfolding bolt_store_presence put_presence
    presence-Kept done now [] = Keeps-refl bs.name bs.db
    presence-Kept true now (p ∷ ps) = Keeps-refl bs.name bs.db
    presence-Kept false now (p ∷ ps) =
        let (s, gen) = mint bs.gen now in
        let stamped : List PresenceMessage = stamp_members s 0 (p ∷ ps) in
        let cm : ChannelMessage = presence_message s stamped in
        answer-Kept bs _ (find_original bs.name (presence_ids (p ∷ ps)) bs.db) (
          joined-Kept gen bs cm (
            Keeps-bind laws bs.name bs.db (put_ids bs.name s (presence_ids stamped))
              (put_message-Keeps laws bs.name cm bs.db)
              (put_ids-Keeps laws bs.name s (presence_ids stamped))))
