-- ===== src/Bolt/Refinement/Presence.antt =====
-- internal/storage/bbolt/bbolt.go: `StorePresence` against that of the in-process backend.
use ably_server.Base.{
  ℕ, ◌≡◌, refl, ap, inl, inr, Bool, true, false, List, [], ◌∷◌, some, Bytes, Result, ok, insert,
}
use ably_server.Serial.{Generator, mint}
use ably_server.Protocol.{PresenceMessage, ChannelMessage}
use ably_server.Memory.{
  ChannelStore, deliver, persist, presence_ids, stamp_members, fold_members, presence_fresh,
  store_presence,
}
use ably_server.Bolt.{Engine, IsEngine, Db, BoltStore, BoltError, committed, put_ids}
use ably_server.Bolt.Operations.{presence_message, joined, put_presence, bolt_store_presence}
use ably_server.Bolt.Views.{IsFault, Yields, results, fails, Yields-bind, Views}
use ably_server.Bolt.Writes.{put_message-Views, put_ids-Views}
use ably_server.Bolt.Refinement.{Refines, Simulates, mint-Simulates, answer-Simulates}

module _ {Bucket : Type 0} ⦃engine : Engine Bucket⦄ (laws : IsEngine engine) (bs : BoltStore Bucket)
    (cs : ChannelStore) (ref : Refines bs cs) where
  presence-Yields :
      (ps : List PresenceMessage) (s : Bytes) (gen : Generator)
      → Yields
          (IsFault engine)
          (λ p.
            (p.0 ≡ (presence_fresh ps (s, gen) cs).0)
            × Views bs.name p.1
                (presence_fresh ps (s, gen) cs).1.by_id
                (presence_fresh ps (s, gen) cs).1.by_cs
                (presence_fresh ps (s, gen) cs).1.latest)
          (put_presence bs.name ps s bs.db)
  unfolding put_presence presence_fresh persist
  presence-Yields ps s gen =
      let cm : ChannelMessage = presence_message s (stamp_members s 0 ps) in
      Yields-bind (λ db. ok (cm, db))
        (Yields-bind (put_ids bs.name s (presence_ids (stamp_members s 0 ps)))
          (put_message-Views laws bs.name bs.db cs.by_id cs.by_cs cs.latest ref.views cm)
          (λ d w.
            put_ids-Views laws bs.name s (presence_ids (stamp_members s 0 ps)) d cs.by_id
              (insert s cm cs.by_cs) cs.latest w))
        (λ d w. results (cm, d) (refl, w))

  joined-Simulates :
      (gen : Generator) (cm : ChannelMessage) (cs' : ChannelStore)
      {tx : Result BoltError (ChannelMessage × Db Bucket)}
      → Yields
          (IsFault engine)
          (λ p. (p.0 ≡ cm) × Views bs.name p.1 cs'.by_id cs'.by_cs cs'.latest)
          tx
      → gen ≡ cs'.gen
      → deliver cm cs.appender ≡ cs'.appender
      → fold_members cm.presence cs.members ≡ cs'.members
      → cs.latest ≡ cs'.latest
      → Simulates bs (joined (committed gen bs tx)) (ok (some cm, false), cs')
  joined-Simulates gen cm cs' (fails e h) g a p l =
      inl (record { fault = (e, refl, h); gen = gen; kept = refl })
  joined-Simulates gen cm cs' (results (c, d) (same, w)) g a p l = inr (
    ap (λ x. ok (x, false)) same,
    record {
      generator = g;
      received = rw (same, ref.received) a;
      present = rw (same, ref.present) p;
      views = w;
      keyed = rw (← l) ref.keyed;
    },
  )

  -- StorePresence on disk fails in a write and is rolled back, the members included, or it replies
  -- as the in-process StorePresence does and leads to a channel that stands for the one that
  -- StorePresence leads to in memory.
  pub bolt_store_presence-Simulates :
      (done : Bool) (now : ℕ) (ps : List PresenceMessage)
      → Simulates bs (bolt_store_presence done now ps bs) (store_presence done now ps cs)
  unfolding bolt_store_presence store_presence
  bolt_store_presence-Simulates done now [] = inr (refl, ref)
  bolt_store_presence-Simulates true now (p ∷ ps) = inr (refl, ref)
  bolt_store_presence-Simulates false now (p ∷ ps) =
      let (s, gen) = mint cs.gen now in
      let (cm, cs') = presence_fresh (p ∷ ps) (s, gen) cs in
      answer-Simulates bs cs ref (presence_ids (p ∷ ps)) _ _ (
        mint-Simulates bs cs ref now
          (λ s gen. joined (committed gen bs (put_presence bs.name (p ∷ ps) s bs.db)))
          (ok (some cm, false), cs')
          (unfold presence_fresh persist in
            joined-Simulates gen cm cs' (presence-Yields (p ∷ ps) s gen) refl refl refl refl))
