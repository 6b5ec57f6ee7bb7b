-- ===== src/Bolt/Isolation/Steps.antt =====
-- internal/storage/bbolt/bbolt.go: channels that share the buckets.
use ably_server.Base.{
  ℕ, ◌+◌, ◌≡◌, ◌≢◌, Bool, true, false, List, [], ◌∷◌, Option, none, some, Bytes, Assoc,
  if◌then◌else◌, Result, ok, err, ◌>>=◌,
}
use ably_server.Serial.{Generator, mint, message_serial}
use ably_server.Protocol.{Message, PresenceMessage, ChannelMessage}
use ably_server.Protocol.Summaries.{Annotation, apply}
use ably_server.Storage.{target_not_found}
use ably_server.Memory.Annotations.{annotation_ids}
use ably_server.Bolt.{
  Engine, IsEngine, Db, BoltStore, BoltError, refused, not_decoded, required, channel_key,
  committed, find_original, put_message, put_latest, bolt_store,
}
use ably_server.Bolt.Operations.{
  annotation_message, bolt_mutate, bolt_store_presence, put_summary, fold_summary_tx,
  fold_annotations, put_annotation, put_annotations, bolt_annotation_fresh, bolt_annotation_checked,
  bolt_store_annotation, targets_present,
}
use ably_server.Bolt.Views.{
  Yields, results, fails, Yields-bind, Yields-weaken, Yields-message, IsFault, Views,
}
use ably_server.Bolt.Isolation.{
  is_nul_free, Keeps, Keeps-refl, Keeps-trans, Keeps-Views, Keeps-bind, put_message-Keeps,
  put_id-Keeps, put_latest-Keeps, put_annotation-Keeps,
}
use ably_server.Bolt.Isolation.Operations.{
  Kept, answer-Kept, store-Kept, mutate-Kept, presence-Kept,
}

-- Any error at all.
abbrev IsAny : BoltError → Type 0
IsAny e = Unit {0}

module _ {Bucket : Type 0} ⦃engine : Engine Bucket⦄ where
  -- What can happen to a channel: one of its operations, whatever its outcome.
  pub data BoltStep (bs : BoltStore Bucket) : BoltStore Bucket → Type 0 where
    publish :
        (done : Bool) (now : ℕ) (fresh : Bytes) (msgs : List Message)
        → BoltStep bs (bolt_store done now fresh msgs bs).1
    mutation : (done : Bool) (now : ℕ) (mut : Message) → BoltStep bs (bolt_mutate done now mut bs).1
    presence :
        (done : Bool) (now : ℕ) (ps : List PresenceMessage)
        → BoltStep bs (bolt_store_presence done now ps bs).1
    annotation :
        (done : Bool) (now : ℕ) (anns : List Annotation)
        → BoltStep bs (bolt_store_annotation done now anns bs).1

  module _ (laws : IsEngine engine) (bs : BoltStore Bucket) where
    summary-Keeps :
        (a : Annotation) (db : Db Bucket)
        → Yields IsAny (λ p. Keeps bs.name db p.1) (fold_summary_tx bs.name a db)
    unfolding fold_summary_tx put_summary
    summary-Keeps a db = go (engine.get (channel_key bs.name a.message_serial) db.latest)
      where
        written :
            (o : Option Message)
            → Yields IsAny
                (λ (p : Annotation × Db Bucket). Keeps bs.name db p.1)
                (required not_decoded o >>= put_summary bs.name a db)
        written none = fails not_decoded tt
        written (some m) =
            let folded = apply m.summary a in
            Yields-weaken (λ e h. tt)
              (Yields-bind (λ d. ok (record a { summary = folded }, d))
                (Yields-bind (λ blob. put_latest bs.name a.message_serial blob db)
                  (Yields-message engine (record m { summary = folded }))
                  (λ blob h. put_latest-Keeps laws bs.name a.message_serial blob db))
                (λ d h. results _ h))

        go :
            (o : Option engine.Value)
            → Yields IsAny
                (λ (p : Annotation × Db Bucket). Keeps bs.name db p.1)
                (elim o [
                  | none ↦ ok (a, db)
                  | some blob ↦
                      required not_decoded (engine.messages.unmarshal blob)
                      >>= put_summary bs.name a db
                ])
        go none = results (a, db) (Keeps-refl bs.name db)
        go (some blob) = written (engine.messages.unmarshal blob)

    folds-Keeps :
        (s : Bytes) (i : ℕ) (anns : List Annotation) (db : Db Bucket)
        → Yields IsAny (λ p. Keeps bs.name db p.1) (fold_annotations bs.name s i anns db)
    unfolding fold_annotations
    folds-Keeps s i [] db = results ([], db) (Keeps-refl bs.name db)
    folds-Keeps s i (a ∷ anns) db =
        Yields-bind
          (λ folded. fold_annotations bs.name s (i + 1) anns folded.1 >>= λ rest.
            ok (folded.0 ∷ rest.0, rest.1))
          (summary-Keeps (record a { serial = message_serial s i }) db)
          (λ folded h.
            Yields-bind (λ rest. ok (folded.0 ∷ rest.0, rest.1))
              (folds-Keeps s (i + 1) anns folded.1)
              (λ rest g. results _ (Keeps-trans bs.name db folded.1 rest.1 h g)))

    puts-Keeps :
        (s : Bytes) (anns : List Annotation) (db : Db Bucket)
        → Yields (IsFault engine) (Keeps bs.name db) (put_annotations bs.name s anns db)
    unfolding put_annotations
    puts-Keeps s [] db = results db (Keeps-refl bs.name db)
    puts-Keeps s (a ∷ anns) db =
        Keeps-bind laws bs.name db (put_annotations bs.name s anns)
          (Keeps-bind laws bs.name db (put_annotation bs.name a)
            (put_id-Keeps laws bs.name s a.id db) (put_annotation-Keeps laws bs.name a))
          (puts-Keeps s anns)

    fresh-Keeps :
        (anns : List Annotation) (s : Bytes)
        → Yields IsAny (λ p. Keeps bs.name bs.db p.1) (bolt_annotation_fresh bs.name anns s bs.db)
    unfolding bolt_annotation_fresh
    fresh-Keeps anns s =
        Yields-bind
          (λ folded.
            put_message bs.name (annotation_message s folded.0) folded.1
            >>= put_annotations bs.name s folded.0
            >>= λ db. ok (annotation_message s folded.0, db))
          (folds-Keeps s 0 anns bs.db)
          (λ folded h.
            Yields-bind (λ db. ok (annotation_message s folded.0, db))
              (Yields-weaken (λ e h. tt)
                (Keeps-bind laws bs.name folded.1 (put_annotations bs.name s folded.0)
                  (put_message-Keeps laws bs.name (annotation_message s folded.0) folded.1)
                  (puts-Keeps s folded.0)))
              (λ d g. results _ (Keeps-trans bs.name bs.db folded.1 d h g)))

    left-Kept :
        (gen : Generator) {r : Result BoltError (ChannelMessage × Db Bucket)}
        → Yields IsAny (λ p. Keeps bs.name bs.db p.1) r
        → Kept bs (committed gen bs r)
    left-Kept gen (results a h) = h
    left-Kept gen (fails e h) = Keeps-refl bs.name bs.db

    checked-Kept :
        (now : ℕ) (anns : List Annotation) → Kept bs (bolt_annotation_checked now anns bs)
    unfolding bolt_annotation_checked
    checked-Kept now anns = go (targets_present bs.name anns bs.db)
      where
        go :
            (b : Bool)
            → Kept bs (
                if b
                then (let (s, gen) = mint bs.gen now in
                    committed gen bs (bolt_annotation_fresh bs.name anns s bs.db))
                else (err (refused target_not_found), bs))
        go true = left-Kept (mint bs.gen now).1 (fresh-Keeps anns (mint bs.gen now).0)
        go false = Keeps-refl bs.name bs.db

    annotation-Kept :
        (done : Bool) (now : ℕ) (anns : List Annotation)
        → Kept bs (bolt_store_annotation done now anns bs)
    unfolding bolt_store_annotation
    annotation-Kept done now [] = Keeps-refl bs.name bs.db
    annotation-Kept true now (a ∷ anns) = Keeps-refl bs.name bs.db
    annotation-Kept false now (a ∷ anns) =
        answer-Kept bs _ (find_original bs.name (annotation_ids (a ∷ anns)) bs.db)
          (checked-Kept now (a ∷ anns))

  BoltStep-Keeps :
      (laws : IsEngine engine) {bs bs' : BoltStore Bucket}
      → BoltStep bs bs'
      → Keeps bs.name bs.db bs'.db
  BoltStep-Keeps laws {bs = bs} (publish done now fresh msgs) =
      store-Kept laws bs done now fresh msgs
  BoltStep-Keeps laws {bs = bs} (mutation done now mut) = mutate-Kept laws bs done now mut
  BoltStep-Keeps laws {bs = bs} (presence done now ps) = presence-Kept laws bs done now ps
  BoltStep-Keeps laws {bs = bs} (annotation done now anns) = annotation-Kept laws bs done now anns

  -- An operation on a channel, whatever its outcome, keeps what the buckets hold of another channel,
  -- its ids, its log and its latest versions, when neither name has a byte 0.
  pub BoltStep-Views :
      (laws : IsEngine engine) (bs bs' : BoltStore Bucket) (other : Bytes) (id_map : Assoc Bytes)
      (log : Assoc ChannelMessage) (versions : Assoc Message)
      → BoltStep bs bs'
      → is_nul_free bs.name ≡ true
      → is_nul_free other ≡ true
      → bs.name ≢ other
      → Views other bs.db id_map log versions
      → Views other bs'.db id_map log versions
  BoltStep-Views laws bs bs' other id_map log versions step h k different v =
      Keeps-Views bs.name other bs.db bs'.db id_map log versions h k different
        (BoltStep-Keeps laws step) v
