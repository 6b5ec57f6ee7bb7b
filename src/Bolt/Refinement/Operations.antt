-- ===== src/Bolt/Refinement/Operations.antt =====
-- internal/storage/bbolt/bbolt.go: all operations of a channel, and sequences of them, against those
-- of the in-process backend.
use ably_server.Base.{
  ℕ, ◌≡◌, refl, ap, ap₂, inl, inr, ok, err, Bool, List, [], ◌∷◌, Option, none, Bytes, arith, lookup,
}
use mathlib.Core.Path.{subst}
use ably_server.Serial.{Generator}
use ably_server.Protocol.{Message, PresenceMessage, ChannelMessage}
use ably_server.Protocol.Summaries.{Annotation}
use ably_server.Memory.{ChannelStore, new_channel_store, Reply, store, mutate, store_presence}
use ably_server.Memory.Annotations.{store_annotation}
use ably_server.Bolt.{
  refused, not_encoded, not_decoded, not_written, missing_message, Engine, IsEngine, Db, BoltStore,
  BoltError, BoltReply, channel_key, bolt_store,
}
use ably_server.Bolt.Operations.{bolt_mutate, bolt_store_presence, bolt_store_annotation}
use ably_server.Bolt.Views.{IsFault, decoded, read_string}
use ably_server.Bolt.Refinement.{expected, Refines, Simulates, bolt_store-Simulates}
use ably_server.Bolt.Refinement.Mutations.{bolt_mutate-Simulates}
use ably_server.Bolt.Refinement.Presence.{bolt_store_presence-Simulates}
use ably_server.Bolt.Refinement.Annotations.{bolt_store_annotation-Simulates}

-- The calls that write, each with what it reads of its surroundings: whether the context has ended,
-- the clock, and a random id.
pub data Operation : Type 0 where
  publish : Bool → ℕ → Bytes → List Message → Operation
  mutation : Bool → ℕ → Message → Operation
  presence : Bool → ℕ → List PresenceMessage → Operation
  annotation : Bool → ℕ → List Annotation → Operation

abbrev pub run : Operation → ChannelStore → Reply × ChannelStore
run (publish done now fresh msgs) cs = store done now fresh msgs cs
run (mutation done now mut) cs = mutate done now mut cs
run (presence done now ps) cs = store_presence done now ps cs
run (annotation done now anns) cs = store_annotation done now anns cs

-- The replies of a sequence, and where it leads.
abbrev pub run_all : List Operation → ChannelStore → List Reply × ChannelStore
run_all [] cs = ([], cs)
run_all (op ∷ ops) cs =
    let (reply, cs') = run op cs in let (replies, cs'') = run_all ops cs' in (reply ∷ replies, cs'')

abbrev pub all_expected : List Reply → List BoltReply
all_expected [] = []
all_expected (r ∷ rs) = expected r ∷ all_expected rs

-- A reply that tells of no failure to encode or to write.
abbrev pub IsUnharmed : BoltReply → Type 0
IsUnharmed (ok r) = Unit {0}
IsUnharmed (err not_encoded) = ⊥
IsUnharmed (err not_written) = ⊥
IsUnharmed (err not_decoded) = Unit {0}
IsUnharmed (err missing_message) = Unit {0}
IsUnharmed (err (refused e)) = Unit {0}

abbrev pub AllUnharmed : List BoltReply → Type 0
AllUnharmed [] = Unit {0}
AllUnharmed (r ∷ rs) = IsUnharmed r × AllUnharmed rs

module _ {Bucket : Type 0} ⦃engine : Engine Bucket⦄ where
  abbrev pub bolt_run : Operation → BoltStore Bucket → BoltReply × BoltStore Bucket
  bolt_run (publish done now fresh msgs) bs = bolt_store done now fresh msgs bs
  bolt_run (mutation done now mut) bs = bolt_mutate done now mut bs
  bolt_run (presence done now ps) bs = bolt_store_presence done now ps bs
  bolt_run (annotation done now anns) bs = bolt_store_annotation done now anns bs

  abbrev pub bolt_run_all : List Operation → BoltStore Bucket → List BoltReply × BoltStore Bucket
  bolt_run_all [] bs = ([], bs)
  bolt_run_all (op ∷ ops) bs =
      let (reply, bs') = bolt_run op bs in
      let (replies, bs'') = bolt_run_all ops bs' in (reply ∷ replies, bs'')

  pub bolt_run-Simulates :
      (laws : IsEngine engine) (bs : BoltStore Bucket) (cs : ChannelStore)
      → Refines bs cs
      → (op : Operation) → Simulates bs (bolt_run op bs) (run op cs)
  bolt_run-Simulates laws bs cs ref (publish done now fresh msgs) =
      bolt_store-Simulates laws bs cs ref done now fresh msgs
  bolt_run-Simulates laws bs cs ref (mutation done now mut) =
      bolt_mutate-Simulates laws bs cs ref done now mut
  bolt_run-Simulates laws bs cs ref (presence done now ps) =
      bolt_store_presence-Simulates laws bs cs ref done now ps
  bolt_run-Simulates laws bs cs ref (annotation done now anns) =
      bolt_store_annotation-Simulates laws bs cs ref done now anns

  run-expected :
      (laws : IsEngine engine) (bs : BoltStore Bucket) (cs : ChannelStore)
      → Refines bs cs
      → (op : Operation) → IsUnharmed (bolt_run op bs).0
      → ((bolt_run op bs).0 ≡ expected (run op cs).0) × Refines (bolt_run op bs).1 (run op cs).1
  run-expected laws bs cs ref op h = elim (bolt_run-Simulates laws bs cs ref op) [
    | inl failed ↦
        absurd (faulted failed.fault.0 failed.fault.2 (subst IsUnharmed failed.fault.1 h))
    | inr done ↦ done
  ]
    where
      faulted : (e : BoltError) → IsFault engine e → IsUnharmed (err e) → ⊥
      faulted not_encoded f u = u
      faulted not_written f u = u
      faulted not_decoded f u = f
      faulted missing_message f u = f
      faulted (refused e) f u = f

  all-expected :
      (laws : IsEngine engine) (ops : List Operation) (bs : BoltStore Bucket) (cs : ChannelStore)
      → Refines bs cs
      → AllUnharmed (bolt_run_all ops bs).0
      → ((bolt_run_all ops bs).0 ≡ all_expected (run_all ops cs).0)
        × Refines (bolt_run_all ops bs).1 (run_all ops cs).1
  all-expected laws [] bs cs ref h = (refl, ref)
  all-expected laws (op ∷ ops) bs cs ref h =
      let (reply, next) = run-expected laws bs cs ref op h.0 in
      let (replies, last) = all-expected laws ops (bolt_run op bs).1 (run op cs).1 next h.1 in
      (ap₂ ◌∷◌ reply replies, last)

  -- Nothing is stored under the channel's keys.
  pub record IsFresh (name : Bytes) (db : Db Bucket) : Type 0 where
    pub ids : (k : Bytes) → engine.get (channel_key name k) db.ids ≡ none
    pub messages : (k : Bytes) → engine.get (channel_key name k) db.messages ≡ none
    pub latest : (k : Bytes) → engine.get (channel_key name k) db.latest ≡ none

  abbrev pub new_bolt_store :
      Bytes → Db Bucket → Generator → Option (List ChannelMessage) → BoltStore Bucket
  new_bolt_store name db gen appender = record {
    db = db;
    gen = gen;
    name = name;
    appender = appender;
    members = [];
  }

  pub new-Refines :
      (name : Bytes) (db : Db Bucket) (gen : Generator) (appender : Option (List ChannelMessage))
      → IsFresh name db
      → Refines (new_bolt_store name db gen appender) (new_channel_store gen appender)
  unfolding new_channel_store lookup
  new-Refines name db gen appender h = record {
    generator = refl;
    received = refl;
    present = refl;
    views = record {
      ids = λ id. ap (read_string engine.to_string) (h.ids id);
      messages = λ s. ap (decoded engine.channel_messages) (h.messages s);
      latest = λ s. ap (decoded engine.messages) (h.latest s);
    };
    keyed = λ s v e. absurd (ground arith);
  }

  pub bolt_run_all-expected :
      (laws : IsEngine engine) (name : Bytes) (db : Db Bucket) (gen : Generator)
      (appender : Option (List ChannelMessage)) (ops : List Operation)
      → IsFresh name db
      → AllUnharmed (bolt_run_all ops (new_bolt_store name db gen appender)).0
      → ((bolt_run_all ops (new_bolt_store name db gen appender)).0
          ≡ all_expected (run_all ops (new_channel_store gen appender)).0)
        × Refines
            (bolt_run_all ops (new_bolt_store name db gen appender)).1
            (run_all ops (new_channel_store gen appender)).1
  bolt_run_all-expected laws name db gen appender ops fresh h =
      all-expected laws ops _ _ (new-Refines name db gen appender fresh) h
