-- ===== src/Bolt/Refinement/Mutations.antt =====
-- internal/storage/bbolt/bbolt.go: `Mutate` and `LatestVersion` against those of the in-process
-- backend.
use ably_server.Base.{
  ℕ, ◌≡◌, refl, ◌∙◌, inr, Bool, true, false, not, [], ◌∷◌, Option, none, some, Bytes, arith,
  if◌then◌else◌, lookup, insert, Result, ok, err, ◌>>=◌,
}
use ably_server.Serial.{Generator, mint, message_serial}
use ably_server.Protocol.{Message, ChannelMessage, is_mutation}
use ably_server.Storage.{
  StorageError, target_not_found, not_a_mutation, no_target, context_done, is_blank, merge_version,
}
use ably_server.Storage.Versions.{merge_version-IsVersionOf}
use ably_server.Memory.{
  ChannelStore, persist, index_ids, create_message, mutate_merged, mutate_target, mutate_checked,
  mutate, latest_version,
}
use ably_server.Bolt.{
  Engine, IsEngine, BoltStore, refused, not_decoded, required, checked, committed, put_id,
  put_version,
}
use ably_server.Bolt.Operations.{
  put_mutation, bolt_mutate_current, bolt_mutate_target, bolt_mutate_checked, bolt_mutate,
  bolt_latest_version,
}
use ably_server.Bolt.Views.{IsFault, decoded, held, as_is, Yields, results, Yields-bind, Views}
use ably_server.Bolt.Writes.{put_message-Views, put_id-Views, put_version-Views}
use ably_server.Bolt.Refinement.{
  Keyed-insert, Refines, Simulates, committed-Simulates, mint-Simulates, answer-Simulates,
}

module _ {Bucket : Type 0} ⦃engine : Engine Bucket⦄ (laws : IsEngine engine) (bs : BoltStore Bucket)
    (cs : ChannelStore) (ref : Refines bs cs) where
  mutation-Yields :
      (mut version : Message) (s : Bytes) (gen : Generator)
      → version.serial ≡ mut.serial
      → Yields
          (IsFault engine)
          (λ p.
            (p.0 ≡ create_message [] s (version ∷ []))
            × Views bs.name p.1
                (mutate_merged mut s gen cs (ok version)).1.by_id
                (mutate_merged mut s gen cs (ok version)).1.by_cs
                (mutate_merged mut s gen cs (ok version)).1.latest)
          (put_mutation bs.name mut.id s version bs.db)
  unfolding put_mutation mutate_merged create_message persist index_ids
  mutation-Yields mut version s gen e =
      let cm : ChannelMessage = create_message [] s (version ∷ []) in
      Yields-bind (λ db. ok (cm, db))
        (Yields-bind (put_version bs.name version)
          (Yields-bind (put_id bs.name s mut.id)
            (put_message-Views laws bs.name bs.db cs.by_id cs.by_cs cs.latest ref.views cm)
            (λ d w.
              put_id-Views laws bs.name d cs.by_id (insert s cm cs.by_cs) cs.latest w s mut.id))
          (λ d w. put_version-Views laws bs.name d _ (insert s cm cs.by_cs) cs.latest w version))
        (λ d w. results (cm, d) (refl, rw (← e) w))

  merged-Simulates :
      (mut : Message) (s : Bytes) (gen : Generator) (r : Result StorageError Message)
      → ((v : Message) → r ≡ ok v → v.serial ≡ mut.serial)
      → Simulates bs
          (committed gen bs (checked r >>= λ version. put_mutation bs.name mut.id s version bs.db))
          (mutate_merged mut s gen cs r)
  unfolding mutate_merged create_message persist
  merged-Simulates mut s gen (err e) h = inr (
    refl,
    record {
      generator = refl;
      received = ref.received;
      present = ref.present;
      views = ref.views;
      keyed = ref.keyed;
    },
  )
  merged-Simulates mut s gen (ok v) h =
      committed-Simulates bs cs ref gen _ _ (mutation-Yields mut v s gen (h v refl)) refl refl refl
        (Keyed-insert mut.serial v cs.latest ref.keyed (h v refl))

  current-Simulates :
      (now : ℕ) (mut current : Message)
      → lookup mut.serial cs.latest ≡ some current
      → Simulates bs
          (bolt_mutate_current now mut current bs)
          (mutate_target mut current (mint cs.gen now) cs)
  unfolding bolt_mutate_current mutate_target
  current-Simulates now mut current f =
      mint-Simulates bs cs ref now
        (λ s gen. committed gen bs (
          checked (merge_version current mut (message_serial s 0)) >>= λ version.
          put_mutation bs.name mut.id s version bs.db))
        (mutate_merged mut (mint cs.gen now).0 (mint cs.gen now).1 cs
          (merge_version current mut (message_serial (mint cs.gen now).0 0)))
        (merged-Simulates mut (mint cs.gen now).0 (mint cs.gen now).1
          (merge_version current mut (message_serial (mint cs.gen now).0 0))
          (λ v e.
            (merge_version-IsVersionOf current mut _ v e).serial ∙ ref.keyed mut.serial current f))

  target-Simulates :
      (now : ℕ) (mut : Message) (o : Option engine.Value) (c : Option Message)
      → lookup mut.serial cs.latest ≡ c
      → decoded engine.messages o ≡ held as_is c
      → Simulates bs
          (elim o [
            | none ↦ (err (refused target_not_found), bs)
            | some blob ↦ elim (engine.messages.unmarshal blob) [
              | none ↦ (err not_decoded, bs)
              | some current ↦ bolt_mutate_current now mut current bs
            ]
          ])
          (elim c [
            | none ↦ (err target_not_found, cs)
            | some current ↦ mutate_target mut current (mint cs.gen now) cs
          ])
  target-Simulates now mut none none f h = inr (refl, ref)
  target-Simulates now mut none (some m) f h = absurd (ground arith)
  target-Simulates now mut (some b) none f h = absurd (ground arith)
  target-Simulates now mut (some b) (some m) f h =
      let e : engine.messages.unmarshal b ≡ some m = ground arith in
      rw e (current-Simulates now mut m f)

  checked-Simulates :
      (now : ℕ) (mut : Message)
      → Simulates bs (bolt_mutate_checked now mut bs) (mutate_checked now mut cs)
  unfolding bolt_mutate_checked mutate_checked bolt_mutate_target
  checked-Simulates now mut =
      answer-Simulates bs cs ref (mut.id ∷ []) _ _
        (target-Simulates now mut _ _ refl (ref.views.latest mut.serial))

  -- Mutate on disk fails in a write and is rolled back, or it replies as the in-process Mutate does
  -- and leads to a channel that stands for the one that Mutate leads to in memory.
  pub bolt_mutate-Simulates :
      (done : Bool) (now : ℕ) (mut : Message)
      → Simulates bs (bolt_mutate done now mut bs) (mutate done now mut cs)
  unfolding bolt_mutate mutate
  bolt_mutate-Simulates done now mut =
      tests (not (is_mutation mut.action)) (is_blank mut.serial) done
    where
      tests :
          (a b c : Bool)
          → Simulates bs
              (if a
                then (err (refused not_a_mutation), bs)
                else if b
                then (err (refused no_target), bs)
                else if c
                then (err (refused context_done), bs)
                else bolt_mutate_checked now mut bs)
              (if a
                then (err not_a_mutation, cs)
                else if b
                then (err no_target, cs)
                else if c
                then (err context_done, cs)
                else mutate_checked now mut cs)
      tests true b c = inr (refl, ref)
      tests false true c = inr (refl, ref)
      tests false false true = inr (refl, ref)
      tests false false false = checked-Simulates now mut

module _ {Bucket : Type 0} ⦃engine : Engine Bucket⦄ (bs : BoltStore Bucket) (cs : ChannelStore)
    (ref : Refines bs cs) where
  -- For a channel on disk that stands for a channel in memory, LatestVersion reads the same version
  -- of a message from both, or returns the same error.
  pub bolt_latest_version-checked :
      (done : Bool) (serial : Bytes)
      → bolt_latest_version done serial bs ≡ checked (latest_version done serial cs)
  unfolding bolt_latest_version latest_version
  bolt_latest_version-checked true serial = refl
  bolt_latest_version-checked false serial = read _ _ (ref.views.latest serial)
    where
      read :
          (o : Option engine.Value) (c : Option Message)
          → decoded engine.messages o ≡ held as_is c
          → (required (refused target_not_found) o >>= λ blob.
              required not_decoded (engine.messages.unmarshal blob))
            ≡ checked (elim c [ none ↦ err target_not_found | some m ↦ ok m ])
      read none none h = refl
      read none (some m) h = absurd (ground arith)
      read (some b) none h = absurd (ground arith)
      read (some b) (some m) h =
          let e : engine.messages.unmarshal b ≡ some m = ground arith in rw e refl
