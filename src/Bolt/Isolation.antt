-- ===== src/Bolt/Isolation.antt =====
-- internal/storage/bbolt/bbolt.go: the keys of different channels in the shared buckets.
pub mod Operations
pub mod Steps
pub mod Names
use ably_server.Base.{
  ◌≡◌, ◌≢◌, refl, sym, ap, ap₂, ◌∙◌, inl, inr, Bool, true, false, ◌||◌, List, [], ◌∷◌, ◌++◌, Option,
  none, some, Bytes, arith, if◌then◌else◌, Bool-cases, Result, ok, err, ◌>>=◌, bytes_eq,
  bytes_eq_iff, append_assoc, ◌==◌, Assoc,
}
use ably_server.Protocol.{Message, ChannelMessage}
use ably_server.Protocol.Summaries.{Annotation}
use ably_server.Storage.{is_blank, version_serial_of}
use ably_server.Bolt.{
  Engine, IsEngine, Db, BoltError, not_encoded, not_written, required, channel_key, version_key,
  put_message, put_id, put_ids, put_latest, put_history, put_version, put_creates,
}
use ably_server.Bolt.Operations.{put_annotation}
use ably_server.Bolt.Views.{
  decoded, read_string, Yields, results, Yields-bind, Yields-map, Yields-put,
  Yields-channel_message, Yields-message, Yields-annotation, IsFault, Views,
}

-- A name with no byte 0.
abbrev pub is_nul_free : Bytes → Bool
is_nul_free [] = true
is_nul_free (x ∷ xs) = let rest = is_nul_free xs in if x == 0 then false else rest

channel_key-injective :
    (n m a b : Bytes)
    → is_nul_free n ≡ true
    → is_nul_free m ≡ true
    → channel_key n a ≡ channel_key m b
    → n ≡ m
unfolding channel_key
channel_key-injective [] [] a b h k e = refl
channel_key-injective [] (y ∷ m) a b h k e = ground arith
channel_key-injective (x ∷ n) [] a b h k e = ground arith
channel_key-injective (x ∷ n) (y ∷ m) a b h k e =
    let head : x ≡ y = ground arith in
    let rest : channel_key n a ≡ channel_key m b = ground arith in
    ap₂ ◌∷◌ head (channel_key-injective n m a b (ground arith) (ground arith) rest)

-- A key that is no key of the channel.
abbrev pub IsOutside : Bytes → Bytes → Type 0
IsOutside name k = (r : Bytes) → bytes_eq (channel_key name r) k ≡ false

pub channel_key-IsOutside :
    (n m : Bytes)
    → is_nul_free n ≡ true
    → is_nul_free m ≡ true
    → n ≢ m
    → (j : Bytes) → IsOutside n (channel_key m j)
channel_key-IsOutside n m h k different j r =
    elim (Bool-cases (bytes_eq (channel_key n r) (channel_key m j))) [
      | inl same ↦ absurd (
          different (
            channel_key-injective n m r j h k
              ((bytes_eq_iff (channel_key n r) (channel_key m j)).0 same)))
      | inr other ↦ other
    ]

-- Two names of which one is the other with a byte 0 and more share keys: what an id or a serial of
-- the shorter name spells may be a key of the longer one.
pub channel_key-nul :
    (name more suffix : Bytes)
    → channel_key (name ++ 0 ∷ more) suffix ≡ channel_key name (more ++ 0 ∷ suffix)
unfolding channel_key
channel_key-nul name more suffix = append_assoc name (0 ∷ more) (0 ∷ suffix)

module _ {Bucket : Type 0} ⦃engine : Engine Bucket⦄ where
  -- What is stored outside a channel stays.
  pub record Keeps (name : Bytes) (db d : Db Bucket) : Type 0 where
    pub messages :
        (k : Bytes) → IsOutside name k → engine.get k d.messages ≡ engine.get k db.messages
    pub ids : (k : Bytes) → IsOutside name k → engine.get k d.ids ≡ engine.get k db.ids
    pub latest : (k : Bytes) → IsOutside name k → engine.get k d.latest ≡ engine.get k db.latest
    pub versions :
        (k : Bytes) → IsOutside name k → engine.get k d.versions ≡ engine.get k db.versions
    pub annotations :
        (k : Bytes) → IsOutside name k → engine.get k d.annotations ≡ engine.get k db.annotations

  pub Keeps-refl : (name : Bytes) (db : Db Bucket) → Keeps name db db
  Keeps-refl name db = record {
    messages = λ k o. refl;
    ids = λ k o. refl;
    latest = λ k o. refl;
    versions = λ k o. refl;
    annotations = λ k o. refl;
  }

  pub Keeps-trans :
      (name : Bytes) (a b c : Db Bucket) → Keeps name a b → Keeps name b c → Keeps name a c
  Keeps-trans name a b c f g = record {
    messages = λ k o. g.messages k o ∙ f.messages k o;
    ids = λ k o. g.ids k o ∙ f.ids k o;
    latest = λ k o. g.latest k o ∙ f.latest k o;
    versions = λ k o. g.versions k o ∙ f.versions k o;
    annotations = λ k o. g.annotations k o ∙ f.annotations k o;
  }

  -- What a channel's buckets stand for is kept while only another channel is written to.
  pub Keeps-Views :
      (n m : Bytes) (db d : Db Bucket) (id_map : Assoc Bytes) (log : Assoc ChannelMessage)
      (versions : Assoc Message)
      → is_nul_free n ≡ true
      → is_nul_free m ≡ true
      → n ≢ m
      → Keeps n db d
      → Views m db id_map log versions
      → Views m d id_map log versions
  Keeps-Views n m db d id_map log versions h k different f v =
      let outside : (j : Bytes) → IsOutside n (channel_key m j) =
        channel_key-IsOutside n m h k different in
      record {
        ids = λ id.
            ap (read_string engine.to_string) (f.ids (channel_key m id) (outside id)) ∙ v.ids id;
        messages = λ s.
            ap (decoded engine.channel_messages) (f.messages (channel_key m s) (outside s))
            ∙ v.messages s;
        latest =
            λ s. ap (decoded engine.messages) (f.latest (channel_key m s) (outside s)) ∙ v.latest s;
      }

  module _ (laws : IsEngine engine) (name : Bytes) where
    -- A write to a bucket, under a key of the channel.
    put-keeps :
        (a : Bytes) (v : engine.Value) (b : Bucket)
        → Yields
            (IsFault engine)
            (λ c. (k : Bytes) → IsOutside name k → engine.get k c ≡ engine.get k b)
            (required not_written (engine.put (channel_key name a) v b))
    put-keeps a v b =
        Yields-map
          (λ c h k o.
            laws.get-put (channel_key name a) v b c h k
            ∙ ap (λ t. if t then some v else engine.get k b) (o a))
          (Yields-put (channel_key name a) v b)

    -- The write of a value, once it is encoded.
    encoded-keeps :
        {P : engine.Value → Type 0} (o : Option engine.Value) (a : Bytes) (b : Bucket)
        → Yields (IsFault engine) P (required not_encoded o)
        → Yields
            (IsFault engine)
            (λ c. (k : Bytes) → IsOutside name k → engine.get k c ≡ engine.get k b)
            (required not_encoded o >>= λ blob.
              required not_written (engine.put (channel_key name a) blob b))
    encoded-keeps o a b h =
        Yields-bind (λ blob. required not_written (engine.put (channel_key name a) blob b)) h
          (λ blob h. put-keeps a blob b)

    pub put_message-Keeps :
        (cm : ChannelMessage) (db : Db Bucket)
        → Yields (IsFault engine) (Keeps name db) (put_message name cm db)
    unfolding put_message
    put_message-Keeps cm db =
        Yields-bind (λ b. ok (record db { messages = b }))
          (encoded-keeps (engine.channel_messages.marshal cm) cm.channel_serial db.messages
            (Yields-channel_message engine cm))
          (λ b f. results _ (record {
            messages = f;
            ids = λ k o. refl;
            latest = λ k o. refl;
            versions = λ k o. refl;
            annotations = λ k o. refl;
          }))

    pub put_id-Keeps :
        (channel_serial id : Bytes) (db : Db Bucket)
        → Yields (IsFault engine) (Keeps name db) (put_id name channel_serial id db)
    unfolding put_id
    put_id-Keeps channel_serial id db = elim (Bool-cases (is_blank id)) [
      | inl blank ↦ rw blank (results db (Keeps-refl name db))
      | inr named ↦ rw named (
          Yields-bind (λ b. ok (record db { ids = b }))
            (put-keeps id (engine.of_string channel_serial) db.ids)
            (λ b f. results _ (record {
              messages = λ k o. refl;
              ids = f;
              latest = λ k o. refl;
              versions = λ k o. refl;
              annotations = λ k o. refl;
            })))
    ]

    pub put_latest-Keeps :
        (identity : Bytes) (blob : engine.Value) (db : Db Bucket)
        → Yields (IsFault engine) (Keeps name db) (put_latest name identity blob db)
    unfolding put_latest
    put_latest-Keeps identity blob db =
        Yields-bind (λ b. ok (record db { latest = b })) (put-keeps identity blob db.latest)
          (λ b f. results _ (record {
            messages = λ k o. refl;
            ids = λ k o. refl;
            latest = f;
            versions = λ k o. refl;
            annotations = λ k o. refl;
          }))

    put_history-Keeps :
        (m : Message) (blob : engine.Value) (db : Db Bucket)
        → Yields (IsFault engine) (Keeps name db) (put_history name m blob db)
    unfolding put_history version_key channel_key
    put_history-Keeps m blob db =
        Yields-bind (λ b. ok (record db { versions = b }))
          (put-keeps (m.serial ++ 0 ∷ version_serial_of m) blob db.versions)
          (λ b f. results _ (record {
            messages = λ k o. refl;
            ids = λ k o. refl;
            latest = λ k o. refl;
            versions = f;
            annotations = λ k o. refl;
          }))

    pub put_annotation-Keeps :
        (a : Annotation) (db : Db Bucket)
        → Yields (IsFault engine) (Keeps name db) (put_annotation name a db)
    unfolding put_annotation version_key channel_key
    put_annotation-Keeps a db =
        Yields-bind (λ b. ok (record db { annotations = b }))
          (encoded-keeps (engine.annotations.marshal a) (a.message_serial ++ 0 ∷ a.serial)
            db.annotations (Yields-annotation engine a))
          (λ b f. results _ (record {
            messages = λ k o. refl;
            ids = λ k o. refl;
            latest = λ k o. refl;
            versions = λ k o. refl;
            annotations = f;
          }))

    -- One step after another.
    pub Keeps-bind :
        (db : Db Bucket) {r : Result BoltError (Db Bucket)}
        (f : Db Bucket → Result BoltError (Db Bucket))
        → Yields (IsFault engine) (Keeps name db) r
        → ((d : Db Bucket) → Yields (IsFault engine) (Keeps name d) (f d))
        → Yields (IsFault engine) (Keeps name db) (r >>= f)
    Keeps-bind db f h k =
        Yields-bind f h (λ d g. Yields-map (λ c g'. Keeps-trans name db d c g g') (k d))

    pub put_version-Keeps :
        (m : Message) (db : Db Bucket)
        → Yields (IsFault engine) (Keeps name db) (put_version name m db)
    unfolding put_version
    put_version-Keeps m db =
        Yields-bind (λ blob. put_latest name m.serial blob db >>= put_history name m blob)
          (Yields-message engine m)
          (λ blob h.
            Keeps-bind db (put_history name m blob) (put_latest-Keeps m.serial blob db)
              (put_history-Keeps m blob))

    pub put_ids-Keeps :
        (channel_serial : Bytes) (ids : List Bytes) (db : Db Bucket)
        → Yields (IsFault engine) (Keeps name db) (put_ids name channel_serial ids db)
    unfolding put_ids
    put_ids-Keeps channel_serial [] db = results db (Keeps-refl name db)
    put_ids-Keeps channel_serial (id ∷ ids) db =
        Keeps-bind db (put_ids name channel_serial ids) (put_id-Keeps channel_serial id db)
          (put_ids-Keeps channel_serial ids)

    pub put_creates-Keeps :
        (channel_serial : Bytes) (ms : List Message) (db : Db Bucket)
        → Yields (IsFault engine) (Keeps name db) (put_creates name channel_serial ms db)
    unfolding put_creates
    put_creates-Keeps channel_serial [] db = results db (Keeps-refl name db)
    put_creates-Keeps channel_serial (m ∷ ms) db =
        Keeps-bind db (put_creates name channel_serial ms)
          (Keeps-bind db (put_version name m) (put_id-Keeps channel_serial m.id db)
            (put_version-Keeps m))
          (put_creates-Keeps channel_serial ms)
