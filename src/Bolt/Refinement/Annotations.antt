-- ===== src/Bolt/Refinement/Annotations.antt =====
-- internal/storage/bbolt/bbolt.go: `StoreAnnotation` against that of the in-process backend.
use ably_server.Base.{
  ℕ, ◌+◌, ◌≡◌, refl, ap₂, inl, inr, Bool, true, false, List, [], ◌∷◌, Option, none, some, Bytes,
  arith, if◌then◌else◌, Option-cases, Assoc, lookup, insert, ok, err, ◌>>=◌,
}
use ably_server.Serial.{Generator, mint, message_serial}
use ably_server.Protocol.{Message, ChannelMessage}
use ably_server.Protocol.Summaries.{Annotation, apply}
use ably_server.Storage.{target_not_found}
use ably_server.Memory.{ChannelStore, persist, index_ids}
use ably_server.Memory.Annotations.{
  annotation_ids, targets_known, fold_summary, stamp_annotations, annotation_fresh,
  annotation_checked, store_annotation,
}
use ably_server.Bolt.{
  Engine, IsEngine, Db, BoltStore, refused, not_decoded, not_written, required, committed,
  channel_key, version_key, put_message, put_latest,
}
use ably_server.Bolt.Operations.{
  annotation_message, targets_present, put_summary, fold_summary_tx, fold_annotations,
  put_annotation, put_annotations, bolt_annotation_fresh, bolt_annotation_checked,
  bolt_store_annotation,
}
use ably_server.Bolt.Views.{
  decoded, held, as_is, Yields, results, Yields-bind, Yields-map, Yields-put, Yields-message,
  Yields-annotation, IsFault, Views,
}
use ably_server.Bolt.Writes.{put_message-Views, put_id-Views, put_latest-Views}
use ably_server.Bolt.Refinement.{
  Keyed, Keyed-insert, Refines, Simulates, committed-Simulates, mint-Simulates, answer-Simulates,
}

fold_summary-Keyed :
    (a : Annotation) (latest : Assoc Message) → Keyed latest → Keyed (fold_summary a latest).1
unfolding fold_summary
fold_summary-Keyed a latest h = elim (Option-cases (lookup a.message_serial latest)) [
  | inl e ↦ rw (e, fold_summary) h
  | inr (m, e) ↦
      rw (e, fold_summary)
        (Keyed-insert a.message_serial (record m { summary = apply m.summary a }) latest h
          (h a.message_serial m e))
]

stamp_annotations-Keyed :
    (s : Bytes) (i : ℕ) (anns : List Annotation) (latest : Assoc Message)
    → Keyed latest
    → Keyed (stamp_annotations s i anns latest).1
unfolding stamp_annotations
stamp_annotations-Keyed s i [] latest h = h
stamp_annotations-Keyed s i (a ∷ anns) latest h =
    stamp_annotations-Keyed s (i + 1) anns _
      (fold_summary-Keyed (record a { serial = message_serial s i }) latest h)

module _ {Bucket : Type 0} ⦃engine : Engine Bucket⦄ (laws : IsEngine engine) (name : Bytes) where
  fold_summary-Yields :
      (a : Annotation) (db : Db Bucket) (id_map : Assoc Bytes) (log : Assoc ChannelMessage)
      (versions : Assoc Message)
      → Views name db id_map log versions
      → Yields
          (IsFault engine)
          (λ p.
            (p.0 ≡ (fold_summary a versions).0)
            × Views name p.1 id_map log (fold_summary a versions).1)
          (fold_summary_tx name a db)
  unfolding fold_summary fold_summary_tx put_summary
  fold_summary-Yields a db id_map log versions v =
      go (engine.get (channel_key name a.message_serial) db.latest)
        (lookup a.message_serial versions) (v.latest a.message_serial)
    where
      folded : Option Message → Annotation × Assoc Message
      folded c = elim c [
        | none ↦ (a, versions)
        | some cur ↦
            let f = apply cur.summary a in
            (
              record a { summary = f },
              insert a.message_serial (record cur { summary = f }) versions,
            )
      ]

      go :
          (o : Option engine.Value) (c : Option Message)
          → decoded engine.messages o ≡ held as_is c
          → Yields
              (IsFault engine)
              (λ (p : Annotation × Db Bucket).
                (p.0 ≡ (folded c).0) × Views {Bucket = Bucket} name p.1 id_map log (folded c).1)
              (elim o [
                | none ↦ ok (a, db)
                | some blob ↦
                    required not_decoded (engine.messages.unmarshal blob) >>= put_summary name a db
              ])
      go none none h = results (a, db) (refl, v)
      go none (some m) h = absurd (ground arith)
      go (some b) none h = absurd (ground arith)
      go (some b) (some m) h =
          let e : engine.messages.unmarshal b ≡ some m = ground arith in
          let m' : Message = record m { summary = apply m.summary a } in
          rw e (
            Yields-bind (λ d. ok (record a { summary = apply m.summary a }, d))
              (Yields-bind (λ blob. put_latest name a.message_serial blob db)
                (Yields-message engine m')
                (λ blob w.
                  put_latest-Views laws name db id_map log versions v a.message_serial blob m'
                    (laws.messages m' blob w)))
              (λ d w. results _ (refl, w)))

  fold_annotations-Yields :
      (s : Bytes) (i : ℕ) (anns : List Annotation) (db : Db Bucket) (id_map : Assoc Bytes)
      (log : Assoc ChannelMessage) (versions : Assoc Message)
      → Views name db id_map log versions
      → Yields
          (IsFault engine)
          (λ p.
            (p.0 ≡ (stamp_annotations s i anns versions).0)
            × Views name p.1 id_map log (stamp_annotations s i anns versions).1)
          (fold_annotations name s i anns db)
  unfolding fold_annotations stamp_annotations
  fold_annotations-Yields s i [] db id_map log versions v = results ([], db) (refl, v)
  fold_annotations-Yields s i (a ∷ anns) db id_map log versions v =
      let a' : Annotation = record a { serial = message_serial s i } in
      Yields-bind
        (λ folded.
          fold_annotations name s (i + 1) anns folded.1 >>= λ rest. ok (folded.0 ∷ rest.0, rest.1))
        (fold_summary-Yields a' db id_map log versions v)
        (λ folded w.
          Yields-bind (λ rest. ok (folded.0 ∷ rest.0, rest.1))
            (fold_annotations-Yields s (i + 1) anns folded.1 id_map log (fold_summary a' versions).1
              w.1)
            (λ rest u. results _ (ap₂ ◌∷◌ w.0 u.0, u.1)))

  put_annotations-Views :
      (s : Bytes) (anns : List Annotation) (db : Db Bucket) (id_map : Assoc Bytes)
      (log : Assoc ChannelMessage) (versions : Assoc Message)
      → Views name db id_map log versions
      → Yields
          (IsFault engine)
          (λ d. Views name d (index_ids s (annotation_ids anns) id_map) log versions)
          (put_annotations name s anns db)
  unfolding put_annotations put_annotation index_ids
  put_annotations-Views s [] db id_map log versions v = results db v
  put_annotations-Views s (a ∷ anns) db id_map log versions v =
      Yields-bind (put_annotations name s anns)
        (Yields-bind (put_annotation name a)
          (put_id-Views laws name db id_map log versions v s a.id)
          (λ d w.
            Yields-bind (λ b. ok (record d { annotations = b }))
              (Yields-bind
                (λ blob.
                  required not_written
                    (engine.put (version_key name a.message_serial a.serial) blob d.annotations))
                (Yields-annotation engine a)
                (λ blob e.
                  Yields-map {Q = λ b. Unit {0}} (λ b h. tt)
                    (Yields-put (version_key name a.message_serial a.serial) blob d.annotations)))
              (λ b h.
                results (record d { annotations = b })
                  (record { ids = w.ids; messages = w.messages; latest = w.latest }))))
        (λ d w. put_annotations-Views s anns d _ log versions w)

  targets_present-targets_known :
      (anns : List Annotation) (db : Db Bucket) (id_map : Assoc Bytes) (log : Assoc ChannelMessage)
      (versions : Assoc Message)
      → Views name db id_map log versions
      → targets_present name anns db ≡ targets_known anns versions
  unfolding targets_present targets_known
  targets_present-targets_known [] db id_map log versions v = refl
  targets_present-targets_known (a ∷ anns) db id_map log versions v =
      go _ _ (v.latest a.message_serial)
        (targets_present-targets_known anns db id_map log versions v)
    where
      go :
          (o : Option engine.Value) (c : Option Message) {x y : Bool}
          → decoded engine.messages o ≡ held as_is c
          → x ≡ y
          → elim o [ none ↦ false | some blob ↦ x ] ≡ elim c [ none ↦ false | some m ↦ y ]
      go none none h e = refl
      go none (some m) h e = absurd (ground arith)
      go (some b) none h e = absurd (ground arith)
      go (some b) (some m) h e = e

module _ {Bucket : Type 0} ⦃engine : Engine Bucket⦄ (laws : IsEngine engine) (bs : BoltStore Bucket)
    (cs : ChannelStore) (ref : Refines bs cs) where
  annotation_fresh-Yields :
      (anns : List Annotation) (s : Bytes) (gen : Generator)
      → Yields
          (IsFault engine)
          (λ p.
            (p.0 ≡ (annotation_fresh anns (s, gen) cs).0)
            × Views bs.name p.1
                (annotation_fresh anns (s, gen) cs).1.by_id
                (annotation_fresh anns (s, gen) cs).1.by_cs
                (annotation_fresh anns (s, gen) cs).1.latest)
          (bolt_annotation_fresh bs.name anns s bs.db)
  unfolding bolt_annotation_fresh annotation_fresh persist
  annotation_fresh-Yields anns s gen =
      let (stamped, latest) = stamp_annotations s 0 anns cs.latest in
      Yields-bind
        (λ folded.
          put_message bs.name (annotation_message s folded.0) folded.1
          >>= put_annotations bs.name s folded.0
          >>= λ db. ok (annotation_message s folded.0, db))
        (fold_annotations-Yields laws bs.name s 0 anns bs.db cs.by_id cs.by_cs cs.latest ref.views)
        (λ folded w. rw w.0 (
          Yields-bind (λ db. ok (annotation_message s stamped, db))
            (Yields-bind (put_annotations bs.name s stamped)
              (put_message-Views laws bs.name folded.1 cs.by_id cs.by_cs latest w.1
                (annotation_message s stamped))
              (λ d u.
                put_annotations-Views laws bs.name s stamped d cs.by_id
                  (insert s (annotation_message s stamped) cs.by_cs) latest u))
            (λ d u. results (annotation_message s stamped, d) (refl, u))))

  checked-Simulates :
      (now : ℕ) (anns : List Annotation)
      → Simulates bs (bolt_annotation_checked now anns bs) (annotation_checked now anns cs)
  unfolding bolt_annotation_checked annotation_checked
  checked-Simulates now anns =
      rw
        (targets_present-targets_known laws bs.name anns bs.db cs.by_id cs.by_cs cs.latest
          ref.views)
        (go (targets_known anns cs.latest))
    where
      go :
          (b : Bool)
          → Simulates bs
              (if b
                then (let (s, gen) = mint bs.gen now in
                    committed gen bs (bolt_annotation_fresh bs.name anns s bs.db))
                else (err (refused target_not_found), bs))
              (if b
                then (let (cm, cs') = annotation_fresh anns (mint cs.gen now) cs in
                    (ok (some cm, false), cs'))
                else (err target_not_found, cs))
      go false = inr (refl, ref)
      go true =
          let (s, gen) = mint cs.gen now in
          let (cm, cs') = annotation_fresh anns (s, gen) cs in
          mint-Simulates bs cs ref now
            (λ s gen. committed gen bs (bolt_annotation_fresh bs.name anns s bs.db))
            (ok (some cm, false), cs')
            (unfold annotation_fresh persist in
              committed-Simulates bs cs ref gen cm cs' (annotation_fresh-Yields anns s gen) refl
                refl refl (stamp_annotations-Keyed s 0 anns cs.latest ref.keyed))

  -- StoreAnnotation on disk fails in a write and is rolled back, the summaries included, or it
  -- replies as the in-process StoreAnnotation does, a repeat without the summaries of its
  -- annotations, and leads to a channel that stands for the one that StoreAnnotation leads to in
  -- memory.
  pub bolt_store_annotation-Simulates :
      (done : Bool) (now : ℕ) (anns : List Annotation)
      → Simulates bs (bolt_store_annotation done now anns bs) (store_annotation done now anns cs)
  unfolding bolt_store_annotation store_annotation
  bolt_store_annotation-Simulates done now [] = inr (refl, ref)
  bolt_store_annotation-Simulates true now (a ∷ anns) = inr (refl, ref)
  bolt_store_annotation-Simulates false now (a ∷ anns) =
      answer-Simulates bs cs ref (annotation_ids (a ∷ anns)) _ _ (checked-Simulates now (a ∷ anns))
