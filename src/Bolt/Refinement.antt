-- ===== src/Bolt/Refinement.antt =====
-- internal/storage/bbolt/bbolt.go: the operations of the on-disk backend against those of the
-- in-process backend.
pub mod Mutations
pub mod Presence
pub mod Annotations
pub mod Operations
use ably_server.Base.{
  ℕ, ◌≡◌, refl, sym, ap, ◌∙◌, ◌⊎◌, inl, inr, Bool, true, false, not, List, [], ◌∷◌, Option, none,
  some, Bytes, arith, if◌then◌else◌, Bool-cases, Option-cases, Assoc, lookup, insert, lookup-insert,
  bytes_eq, bytes_eq_iff, Result, ok, err, ◌>>=◌,
}
use mathlib.Core.Path.{subst}
use ably_server.Serial.{Generator, mint, message_serial}
use ably_server.Protocol.{Message, PresenceMessage, ChannelMessage, is_mutation}
use ably_server.Storage.{StorageError, target_not_found, is_blank, stamp_message_ids, merge_version}
use ably_server.Memory.{
  ChannelStore, Reply, find_duplicate, deliver, index_ids, persist, message_ids, stamp_creates,
  register, create_message, store_fresh, store_stamped, store,
}
use ably_server.Bolt.{
  Engine, IsEngine, persisted, Db, BoltStore, BoltError, refused, missing_message, BoltReply,
  committed, find_original, put_message, put_creates, bolt_store_fresh, bolt_store_stamped,
  bolt_store, finished,
}
use ably_server.Bolt.Views.{
  IsFault, Yields, results, fails, Yields-bind, Yields-map, IsFault, Views, original_of,
  find_original-find_duplicate,
}
use ably_server.Bolt.Writes.{put_message-Views, put_creates-Views}

-- The reply of the on-disk backend, from that of the in-process one.
abbrev pub expected : Reply → BoltReply
expected (ok (some cm, true)) = ok (persisted cm, true)
expected (ok (some cm, false)) = ok (cm, false)
expected (ok (none, repeat)) = err missing_message
expected (err e) = err (refused e)

-- Each latest version stands under its own serial.
abbrev pub Keyed : Assoc Message → Type 0
Keyed m = (s : Bytes) (v : Message) → lookup s m ≡ some v → v.serial ≡ s

pub Keyed-insert :
    (s : Bytes) (v : Message) (m : Assoc Message) → Keyed m → v.serial ≡ s → Keyed (insert s v m)
Keyed-insert s v m h e t w f = elim (Bool-cases (bytes_eq s t)) [
  | inl same ↦
      let found : v ≡ w = ground (arith, lookup-insert s t v m, same, f) in
      ap (λ x. x.serial) (sym found) ∙ e ∙ (bytes_eq_iff s t).0 same
  | inr other ↦ h t w (ground (arith, lookup-insert s t v m, other, f))
]

register-Keyed :
    (ms : List Message) (cs : ChannelStore) → Keyed cs.latest → Keyed (register ms cs).latest
unfolding register
register-Keyed [] cs h = h
register-Keyed (m ∷ ms) cs h = register-Keyed ms _ (Keyed-insert m.serial m cs.latest h refl)

module _ {Bucket : Type 0} ⦃engine : Engine Bucket⦄ where
  -- A channel on disk stands for a channel in memory.
  pub record Refines (bs : BoltStore Bucket) (cs : ChannelStore) : Type 0 where
    pub generator : bs.gen ≡ cs.gen
    pub received : bs.appender ≡ cs.appender
    pub present : bs.members ≡ cs.members
    pub views : Views bs.name bs.db cs.by_id cs.by_cs cs.latest
    pub keyed : Keyed cs.latest

  -- A write has failed, and of the channel no more than the generator has changed.
  pub record IsRolledBack (bs : BoltStore Bucket) (reply : BoltReply) (bs' : BoltStore Bucket)
      : Type 0 where
    pub fault : (e : BoltError) × (reply ≡ err e) × IsFault engine e
    pub gen : Generator
    pub kept : bs' ≡ record bs { gen = gen }

  -- The outcome of an operation on both: it is rolled back, or it does what it does in memory.
  abbrev pub Simulates :
      BoltStore Bucket → BoltReply × BoltStore Bucket → Reply × ChannelStore → Type 0
  Simulates bs (r, bs') (r', cs') = IsRolledBack bs r bs' ⊎ ((r ≡ expected r') × Refines bs' cs')

  module _ (bs : BoltStore Bucket) (cs : ChannelStore) (ref : Refines bs cs) where
    pub committed-Simulates :
        (gen : Generator) (cm : ChannelMessage) (cs' : ChannelStore)
        {tx : Result BoltError (ChannelMessage × Db Bucket)}
        → Yields
            (IsFault engine)
            (λ p. (p.0 ≡ cm) × Views bs.name p.1 cs'.by_id cs'.by_cs cs'.latest)
            tx
        → gen ≡ cs'.gen
        → deliver cm cs.appender ≡ cs'.appender
        → cs.members ≡ cs'.members
        → Keyed cs'.latest
        → Simulates bs (committed gen bs tx) (ok (some cm, false), cs')
    committed-Simulates gen cm cs' (fails e h) g a p k =
        inl (record { fault = (e, refl, h); gen = gen; kept = refl })
    committed-Simulates gen cm cs' (results (c, d) (same, w)) g a p k = inr (
      ap (λ x. ok (x, false)) same,
      record {
        generator = g;
        received = rw (same, ref.received) a;
        present = ref.present ∙ p;
        views = w;
        keyed = k;
      },
    )

    -- Both mint from the same generator.
    pub mint-Simulates :
        (now : ℕ) (op : Bytes → Generator → BoltReply × BoltStore Bucket) (r : Reply × ChannelStore)
        → Simulates bs (op (mint cs.gen now).0 (mint cs.gen now).1) r
        → Simulates bs (op (mint bs.gen now).0 (mint bs.gen now).1) r
    mint-Simulates now op r h =
        subst (λ g. Simulates bs (op (mint g now).0 (mint g now).1) r) (sym ref.generator) h

    -- Both look for a repeat before they go on.
    pub answer-Simulates :
        (ids : List Bytes) (fresh : BoltReply × BoltStore Bucket) (fresh' : Reply × ChannelStore)
        → Simulates bs fresh fresh'
        → Simulates bs
            (elim (find_original bs.name ids bs.db) [
              | err e ↦ (err e, bs)
              | ok (some cm) ↦ (ok (cm, true), bs)
              | ok none ↦ fresh
            ])
            (elim (find_duplicate ids cs) [ some cm ↦ (ok (cm, true), cs) | none ↦ fresh' ])
    answer-Simulates ids fresh fresh' h =
        rw (find_original-find_duplicate bs.name bs.db cs ref.views ids)
          (go (find_duplicate ids cs))
      where
        go :
            (o : Option (Option ChannelMessage))
            → Simulates bs
                (elim (original_of o) [
                  | err e ↦ (err e, bs)
                  | ok (some cm) ↦ (ok (cm, true), bs)
                  | ok none ↦ fresh
                ])
                (elim o [ some cm ↦ (ok (cm, true), cs) | none ↦ fresh' ])
        go none = h
        go (some none) = inr (refl, ref)
        go (some (some cm)) = inr (refl, ref)

  module _ (laws : IsEngine engine) where
    register-keeps :
        (ms : List Message) (cs : ChannelStore)
        → (cs.gen ≡ (register ms cs).gen)
          × (cs.appender ≡ (register ms cs).appender)
          × (cs.members ≡ (register ms cs).members)
          × (cs.by_id ≡ (register ms cs).by_id)
          × (cs.by_cs ≡ (register ms cs).by_cs)
    unfolding register
    register-keeps [] cs = (refl, refl, refl, refl, refl)
    register-keeps (m ∷ ms) cs = register-keeps ms _

    fresh-Yields :
        (bs : BoltStore Bucket) (cs : ChannelStore) (batch_id s : Bytes) (gen : Generator)
        (msgs : List Message)
        → Refines bs cs
        → Yields
            (IsFault engine)
            (λ p.
              (p.0 ≡ (store_fresh batch_id msgs (s, gen) cs).0)
              × Views bs.name p.1
                  (store_fresh batch_id msgs (s, gen) cs).1.by_id
                  (store_fresh batch_id msgs (s, gen) cs).1.by_cs
                  (store_fresh batch_id msgs (s, gen) cs).1.latest)
            (bolt_store_fresh bs.name batch_id msgs s bs.db)
    unfolding store_fresh bolt_store_fresh create_message persist
    fresh-Yields bs cs batch_id s gen msgs ref =
        let stamped : List Message = stamp_creates s 0 msgs in
        let cm : ChannelMessage = create_message batch_id s stamped in
        let cs1 : ChannelStore = persist cm (message_ids stamped) gen cs in
        let (g, a, p, i, c) = register-keeps stamped cs1 in
        Yields-bind (λ db. ok (cm, db))
          (Yields-bind (put_creates bs.name s stamped)
            (put_message-Views laws bs.name bs.db cs.by_id cs.by_cs cs.latest ref.views cm)
            (λ d w.
              put_creates-Views laws bs.name s stamped d cs.by_id (insert s cm cs.by_cs) cs1 w))
          (λ d w. results (cm, d) (refl, rw (← i, ← c) w))

    store_fresh-keeps :
        (batch_id s : Bytes) (gen : Generator) (msgs : List Message) (cs : ChannelStore)
        → (gen ≡ (store_fresh batch_id msgs (s, gen) cs).1.gen)
          × (deliver (store_fresh batch_id msgs (s, gen) cs).0 cs.appender
              ≡ (store_fresh batch_id msgs (s, gen) cs).1.appender)
          × (cs.members ≡ (store_fresh batch_id msgs (s, gen) cs).1.members)
          × (Keyed cs.latest → Keyed (store_fresh batch_id msgs (s, gen) cs).1.latest)
    unfolding store_fresh persist
    store_fresh-keeps batch_id s gen msgs cs =
        let (g, a, p, _, _) = register-keeps (stamp_creates s 0 msgs) _ in
        (g, a, p, register-Keyed (stamp_creates s 0 msgs) _)

    stamped-Simulates :
        (bs : BoltStore Bucket) (cs : ChannelStore) (ref : Refines bs cs) (now : ℕ)
        (batch_id : Bytes) (msgs : List Message)
        → Simulates bs
            (bolt_store_stamped now batch_id msgs bs)
            (store_stamped now batch_id msgs cs)
    unfolding bolt_store_stamped store_stamped
    stamped-Simulates bs cs ref now batch_id msgs =
        let (s, gen) = mint cs.gen now in
        let (cm, cs') = store_fresh batch_id msgs (s, gen) cs in
        let (g, a, p, k) = store_fresh-keeps batch_id s gen msgs cs in
        answer-Simulates bs cs ref (message_ids msgs) _ _ (
          mint-Simulates bs cs ref now
            (λ s gen. committed gen bs (bolt_store_fresh bs.name batch_id msgs s bs.db))
            (ok (some cm, false), cs')
            (committed-Simulates bs cs ref gen cm cs' (fresh-Yields bs cs batch_id s gen msgs ref) g
              a p (k ref.keyed)))

    -- Store on disk fails in a write and is rolled back, or it replies as the in-process Store does, a
    -- repeat without the summaries of its annotations, and leads to a channel that stands for the
    -- one that Store leads to in memory.
    pub bolt_store-Simulates :
        (bs : BoltStore Bucket) (cs : ChannelStore) (ref : Refines bs cs) (done : Bool) (now : ℕ)
        (fresh : Bytes) (msgs : List Message)
        → Simulates bs (bolt_store done now fresh msgs bs) (store done now fresh msgs cs)
    unfolding bolt_store store
    bolt_store-Simulates bs cs ref done now fresh [] = inr (refl, ref)
    bolt_store-Simulates bs cs ref true now fresh (m ∷ ms) = inr (refl, ref)
    bolt_store-Simulates bs cs ref false now fresh (m ∷ ms) =
        stamped (stamp_message_ids fresh (m ∷ ms))
      where
        stamped :
            (r : Result StorageError (Bytes × List Message))
            → Simulates bs
                (elim r [
                  | err e ↦ (err (refused e), bs)
                  | ok (batch_id, msgs) ↦ bolt_store_stamped now batch_id msgs bs
                ])
                (elim r [
                  | err e ↦ (err e, cs)
                  | ok (batch_id, msgs) ↦ store_stamped now batch_id msgs cs
                ])
        stamped (err e) = inr (refl, ref)
        stamped (ok (batch_id, msgs)) = stamped-Simulates bs cs ref now batch_id msgs
