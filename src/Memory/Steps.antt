-- ===== src/Memory/Steps.antt =====
-- internal/storage/memory/memory.go: sequences of operations on a channel.
use ably_server.Base.{
  ℕ, ◌+◌, ◌^◌, ◌<◌, ◌≡◌, refl, inl, inr, Bool, true, false, not, List, [], ◌∷◌, Option, none, some,
  Bytes, arith, if◌then◌else◌, Option-cases, Bool-cases, Assoc, lookup, Result, ok, err,
}
use ably_server.Serial.{Generator, mint, message_serial, timestamp_width}
use ably_server.Serial.Order.{IsValid, mint-lex_lt}
use ably_server.Protocol.{Message, PresenceMessage, is_mutation}
use ably_server.Storage.{
  StorageError, not_a_mutation, no_target, context_done, is_blank, stamp_message_ids, merge_version,
}
use ably_server.Memory.{
  ChannelStore, new_channel_store, Reply, find_duplicate, message_ids, register, create_message,
  store_fresh, store_stamped, store, mutate_merged, mutate_target, mutate_checked, mutate,
  presence_ids, presence_fresh, store_presence,
}
use ably_server.Protocol.Summaries.{Annotation}
use ably_server.Memory.Annotations.{
  annotation_ids, targets_known, annotation_fresh, annotation_checked, store_annotation,
}
use ably_server.Memory.Invariant.{IsConsistent, AtMost-mono, persist-IsConsistent}

-- What a publish leaves alone of the log.
register-IsConsistent :
    (ms : List Message) (cs : ChannelStore) → IsConsistent cs → IsConsistent (register ms cs)
unfolding register
register-IsConsistent [] cs v = v
register-IsConsistent (m ∷ ms) cs v = register-IsConsistent ms _ (record {
  generator = v.generator;
  sorted = v.sorted;
  below = v.below;
  stored = v.stored;
  indexed = v.indexed;
  delivered = v.delivered;
})

-- The clock can take one more reading within 14 digits.
pub record HasRoom (now : ℕ) (cs : ChannelStore) : Type 0 where
  pub reading : now < 10 ^ timestamp_width
  pub clock : cs.gen.last_ts + 1 < 10 ^ timestamp_width

module _ (now : ℕ) (cs : ChannelStore) (room : HasRoom now cs) (v : IsConsistent cs) where
  store_fresh-IsConsistent :
      (batch_id : Bytes) (msgs : List Message)
      → IsConsistent (store_fresh batch_id msgs (mint cs.gen now) cs).1
  unfolding store_fresh create_message
  store_fresh-IsConsistent batch_id msgs =
      let (less, same, w, _) = mint-lex_lt cs.gen now v.generator room.reading room.clock in
      register-IsConsistent _ _ (persist-IsConsistent _ _ (mint cs.gen now).1 cs v less same w)

  store_stamped-IsConsistent :
      (batch_id : Bytes) (msgs : List Message) → IsConsistent (store_stamped now batch_id msgs cs).1
  unfolding store_stamped
  store_stamped-IsConsistent batch_id msgs =
      elim (Option-cases (find_duplicate (message_ids msgs) cs)) [
        | inl e ↦ rw (e, store_stamped) (store_fresh-IsConsistent batch_id msgs)
        | inr (cm, e) ↦ rw (e, store_stamped) v
      ]

  pub store-IsConsistent :
      (done : Bool) (fresh : Bytes) (msgs : List Message)
      → IsConsistent (store done now fresh msgs cs).1
  unfolding store
  store-IsConsistent done fresh [] = v
  store-IsConsistent true fresh (m ∷ ms) = v
  store-IsConsistent false fresh (m ∷ ms) = stamped (stamp_message_ids fresh (m ∷ ms))
    where
      stamped :
          (r : Result StorageError (Bytes × List Message))
          → IsConsistent
              (elim r as (λ _. Reply × ChannelStore) [
                | err e ↦ (err e, cs)
                | ok (batch_id, msgs) ↦ store_stamped now batch_id msgs cs
              ]).1
      stamped (err e) = v
      stamped (ok (b, msgs)) = store_stamped-IsConsistent b msgs

  mutate_target-IsConsistent :
      (mut current : Message) → IsConsistent (mutate_target mut current (mint cs.gen now) cs).1
  unfolding mutate_target create_message
  mutate_target-IsConsistent mut current =
      merged (merge_version current mut (message_serial (mint cs.gen now).0 0))
    where
      spent : IsConsistent (record cs { gen = (mint cs.gen now).1 })
      spent =
          let (less, same, w, _) = mint-lex_lt cs.gen now v.generator room.reading room.clock in
          record {
            generator = w;
            sorted = v.sorted;
            below = AtMost-mono cs.order _ _ v.below (rw (← same) less);
            stored = v.stored;
            indexed = v.indexed;
            delivered = v.delivered;
          }

      kept_log :
          {d : ChannelStore} (l : Assoc Message) (vs : Assoc (List Message))
          → IsConsistent d
          → IsConsistent (record d { latest = l; versions = vs })
      kept_log l vs w = record {
        generator = w.generator;
        sorted = w.sorted;
        below = w.below;
        stored = w.stored;
        indexed = w.indexed;
        delivered = w.delivered;
      }

      merged :
          (r : Result StorageError Message)
          → IsConsistent (mutate_merged mut (mint cs.gen now).0 (mint cs.gen now).1 cs r).1
      merged (err e) = spent
      merged (ok version) =
          let (less, same, w, _) = mint-lex_lt cs.gen now v.generator room.reading room.clock in
          kept_log _ _ (persist-IsConsistent _ _ (mint cs.gen now).1 cs v less same w)

  mutate-IsConsistent : (done : Bool) (mut : Message) → IsConsistent (mutate done now mut cs).1
  unfolding mutate
  mutate-IsConsistent done mut = tests (not (is_mutation mut.action)) (is_blank mut.serial) done
    where
      target :
          (o : Option Message)
          → lookup mut.serial cs.latest ≡ o
          → find_duplicate (mut.id ∷ []) cs ≡ none
          → IsConsistent (mutate_checked now mut cs).1
      target none e f = rw (f, mutate_checked) (rw (e, mutate_checked) v)
      target (some current) e f =
          rw (f, mutate_checked) (rw (e, mutate_checked) (mutate_target-IsConsistent mut current))

      checked : IsConsistent (mutate_checked now mut cs).1
      checked = elim (Option-cases (find_duplicate (mut.id ∷ []) cs)) [
        | inl f ↦ target (lookup mut.serial cs.latest) refl f
        | inr (cm, f) ↦ rw (f, mutate_checked) v
      ]

      tests :
          (a b c : Bool)
          → IsConsistent
              (if a
                then (err not_a_mutation, cs)
                else if b
                then (err no_target, cs)
                else if c
                then (err context_done, cs)
                else mutate_checked now mut cs).1
      tests true b c = v
      tests false true c = v
      tests false false true = v
      tests false false false = checked

  presence_fresh-IsConsistent :
      (ps : List PresenceMessage) → IsConsistent (presence_fresh ps (mint cs.gen now) cs).1
  unfolding presence_fresh
  presence_fresh-IsConsistent ps =
      let (less, same, w, _) = mint-lex_lt cs.gen now v.generator room.reading room.clock in
      let u = persist-IsConsistent _ _ (mint cs.gen now).1 cs v less same w in
      record {
        generator = u.generator;
        sorted = u.sorted;
        below = u.below;
        stored = u.stored;
        indexed = u.indexed;
        delivered = u.delivered;
      }

  store_presence-IsConsistent :
      (done : Bool) (ps : List PresenceMessage) → IsConsistent (store_presence done now ps cs).1
  unfolding store_presence
  store_presence-IsConsistent done [] = v
  store_presence-IsConsistent true (p ∷ ps) = v
  store_presence-IsConsistent false (p ∷ ps) =
      elim (Option-cases (find_duplicate (presence_ids (p ∷ ps)) cs)) [
        | inl e ↦ rw (e, store_presence) (presence_fresh-IsConsistent (p ∷ ps))
        | inr (cm, e) ↦ rw (e, store_presence) v
      ]

  annotation_fresh-IsConsistent :
      (anns : List Annotation) → IsConsistent (annotation_fresh anns (mint cs.gen now) cs).1
  unfolding annotation_fresh
  annotation_fresh-IsConsistent anns =
      let (less, same, w, _) = mint-lex_lt cs.gen now v.generator room.reading room.clock in
      let u = persist-IsConsistent _ _ (mint cs.gen now).1 cs v less same w in
      record {
        generator = u.generator;
        sorted = u.sorted;
        below = u.below;
        stored = u.stored;
        indexed = u.indexed;
        delivered = u.delivered;
      }

  annotation_checked-IsConsistent :
      (anns : List Annotation) → IsConsistent (annotation_checked now anns cs).1
  unfolding annotation_checked
  annotation_checked-IsConsistent anns = elim (Bool-cases (targets_known anns cs.latest)) [
    | inl known ↦ rw known (annotation_fresh-IsConsistent anns)
    | inr unknown ↦ rw unknown v
  ]

  store_annotation-IsConsistent :
      (done : Bool) (anns : List Annotation) → IsConsistent (store_annotation done now anns cs).1
  unfolding store_annotation
  store_annotation-IsConsistent done [] = v
  store_annotation-IsConsistent true (a ∷ anns) = v
  store_annotation-IsConsistent false (a ∷ anns) =
      elim (Option-cases (find_duplicate (annotation_ids (a ∷ anns)) cs)) [
        | inl e ↦ rw (e, store_annotation) (annotation_checked-IsConsistent (a ∷ anns))
        | inr (cm, e) ↦ rw (e, store_annotation) v
      ]

  foreign-IsConsistent : IsConsistent (record cs { gen = (mint cs.gen now).1 })
  foreign-IsConsistent =
      let (less, same, w, _) = mint-lex_lt cs.gen now v.generator room.reading room.clock in
      record {
        generator = w;
        sorted = v.sorted;
        below = AtMost-mono cs.order _ _ v.below (rw (← same) less);
        stored = v.stored;
        indexed = v.indexed;
        delivered = v.delivered;
      }

-- What can happen to a channel: one of its own operations, whatever its outcome, or a mint of
-- another channel that shares the generator.
pub data Step (cs : ChannelStore) : ChannelStore → Type 0 where
  publish :
      (done : Bool) (now : ℕ) (fresh : Bytes) (msgs : List Message)
      → HasRoom now cs
      → Step cs (store done now fresh msgs cs).1
  mutation :
      (done : Bool) (now : ℕ) (mut : Message) → HasRoom now cs → Step cs (mutate done now mut cs).1
  presence :
      (done : Bool) (now : ℕ) (ps : List PresenceMessage)
      → HasRoom now cs
      → Step cs (store_presence done now ps cs).1
  annotation :
      (done : Bool) (now : ℕ) (anns : List Annotation)
      → HasRoom now cs
      → Step cs (store_annotation done now anns cs).1
  elsewhere : (now : ℕ) → HasRoom now cs → Step cs (record cs { gen = (mint cs.gen now).1 })

Step-IsConsistent : {c d : ChannelStore} → Step c d → IsConsistent c → IsConsistent d
Step-IsConsistent {c = c} (publish done now fresh msgs room) v =
    store-IsConsistent now c room v done fresh msgs
Step-IsConsistent {c = c} (mutation done now mut room) v = mutate-IsConsistent now c room v done mut
Step-IsConsistent {c = c} (presence done now ps room) v =
    store_presence-IsConsistent now c room v done ps
Step-IsConsistent {c = c} (annotation done now anns room) v =
    store_annotation-IsConsistent now c room v done anns
Step-IsConsistent {c = c} (elsewhere now room) v = foreign-IsConsistent now c room v

pub data Reach (c : ChannelStore) : ChannelStore → Type 0 where
  here : Reach c c
  next : {d e : ChannelStore} → Reach c d → Step d e → Reach c e

new_channel_store-IsConsistent :
    (gen : Generator) (attached : Bool)
    → IsValid gen
    → IsConsistent (new_channel_store gen (if attached then some [] else none))
unfolding new_channel_store lookup
new_channel_store-IsConsistent gen attached w = record {
  generator = w;
  sorted = tt;
  below = tt;
  stored = tt;
  indexed = λ id s h. absurd (cc);
  delivered = λ received h. ground arith;
}

Reach-IsConsistent : {c d : ChannelStore} → Reach c d → IsConsistent c → IsConsistent d
Reach-IsConsistent here v = v
Reach-IsConsistent (next r s) v = Step-IsConsistent s (Reach-IsConsistent r v)

-- From a new channel, with an appender or without, every sequence of publishes, mutations,
-- presence and annotation operations, successful or not, and of mints by other channels leads to a
-- consistent channel, while each clock reading and each synthetic millisecond has at most 14
-- digits: the log is strictly sorted and not past the generator, its serials are persisted, the id
-- index leads to persisted messages, and the appender has received exactly the log, in order.
pub Reach-new_channel_store :
    (gen : Generator) (attached : Bool) (cs : ChannelStore)
    → IsValid gen
    → Reach (new_channel_store gen (if attached then some [] else none)) cs
    → IsConsistent cs
Reach-new_channel_store gen attached cs w r =
    Reach-IsConsistent r (new_channel_store-IsConsistent gen attached w)
