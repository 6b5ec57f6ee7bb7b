-- ===== src/Bolt/Views.antt =====
-- internal/storage/bbolt/bbolt.go: what the buckets hold, seen as the maps of the in-process backend.
use ably_server.Base.{
  ◌≡◌, refl, ap, ◌∙◌, ◌⊎◌, inl, inr, List, [], ◌∷◌, Option, none, some, Bytes, arith, Bool-cases,
  bytes_eq, Assoc, lookup, Result, ok, err, ◌>>=◌,
}
use ably_server.Protocol.{Message, ChannelMessage}
use ably_server.Protocol.Summaries.{Annotation}
use ably_server.Storage.{is_blank}
use ably_server.Memory.{ChannelStore, find_duplicate}
use ably_server.Bolt.{
  Codec, Engine, persisted, Db, BoltError, not_encoded, not_decoded, not_written, missing_message,
  required, channel_key, original, find_original,
}

-- A value that was written, read again.
abbrev pub decoded : {A Value : Type 0} → Codec A Value → Option Value → Option (Option A)
decoded c none = none
decoded c (some blob) = some (c.unmarshal blob)

abbrev pub read_string : {Value : Type 0} → (Value → Bytes) → Option Value → Option Bytes
read_string f none = none
read_string f (some v) = some (f v)

abbrev pub held : {A : Type 0} → (A → A) → Option A → Option (Option A)
held f none = none
held f (some a) = some (some (f a))

abbrev pub as_is : {A : Type 0} → A → A
as_is a = a

-- A call of the engine that can end a transaction has failed: all else is decided by what is stored.
abbrev pub IsFault : {Bucket : Type 0} → Engine Bucket → BoltError → Type 0
IsFault engine not_encoded =
    ((cm : ChannelMessage) × (engine.channel_messages.marshal cm ≡ none))
    ⊎ (((m : Message) × (engine.messages.marshal m ≡ none))
        ⊎ ((a : Annotation) × (engine.annotations.marshal a ≡ none)))
IsFault {Bucket = Bucket} engine not_written =
    (k : Bytes) × (v : engine.Value) × (b : Bucket) × (engine.put k v b ≡ none)
IsFault engine _ = ⊥

-- A step of a transaction has a result with a property, or fails in a way that is foreseen.
pub data Yields {A : Type 0} (F : BoltError → Type 0) (P : A → Type 0)
    : Result BoltError A → Type 0 where
  results : (a : A) → P a → Yields F P (ok a)
  fails : (e : BoltError) → F e → Yields F P (err e)

pub Yields-bind :
    {A B : Type 0} {F : BoltError → Type 0} {P : A → Type 0} {Q : B → Type 0}
    {r : Result BoltError A} (f : A → Result BoltError B)
    → Yields F P r
    → ((a : A) → P a → Yields F Q (f a))
    → Yields F Q (r >>= f)
Yields-bind f (results a h) k = k a h
Yields-bind f (fails e h) k = fails e h

pub Yields-map :
    {A : Type 0} {F : BoltError → Type 0} {P Q : A → Type 0} {r : Result BoltError A}
    → ((a : A) → P a → Q a)
    → Yields F P r
    → Yields F Q r
Yields-map f (results a h) = results a (f a h)
Yields-map f (fails e h) = fails e h

pub Yields-weaken :
    {A : Type 0} {F G : BoltError → Type 0} {P : A → Type 0} {r : Result BoltError A}
    → ((e : BoltError) → F e → G e)
    → Yields F P r
    → Yields G P r
Yields-weaken f (results a h) = results a h
Yields-weaken f (fails e h) = fails e (f e h)

-- A call of the engine that may fail.
Yields-required :
    {A : Type 0} (F : BoltError → Type 0) (e : BoltError) (o : Option A)
    → (o ≡ none → F e)
    → Yields F (λ a. o ≡ some a) (required e o)
Yields-required F e none h = fails e (h refl)
Yields-required F e (some a) h = results a refl

module _ {Bucket : Type 0} ⦃engine : Engine Bucket⦄ where
  pub Yields-put :
      (k : Bytes) (v : engine.Value) (b : Bucket)
      → Yields
          (IsFault engine)
          (λ c. engine.put k v b ≡ some c)
          (required not_written (engine.put k v b))
  Yields-put k v b =
      Yields-required (IsFault engine) not_written (engine.put k v b) (λ h. (k, v, b, h))

module _ {Bucket : Type 0} (engine : Engine Bucket) where
  pub Yields-channel_message :
      (cm : ChannelMessage)
      → Yields
          (IsFault engine)
          (λ blob. engine.channel_messages.marshal cm ≡ some blob)
          (required not_encoded (engine.channel_messages.marshal cm))
  Yields-channel_message cm =
      Yields-required (IsFault engine) not_encoded (engine.channel_messages.marshal cm)
        (λ h. inl (cm, h))

  pub Yields-message :
      (m : Message)
      → Yields
          (IsFault engine)
          (λ blob. engine.messages.marshal m ≡ some blob)
          (required not_encoded (engine.messages.marshal m))
  Yields-message m =
      Yields-required (IsFault engine) not_encoded (engine.messages.marshal m)
        (λ h. inr (inl (m, h)))

  pub Yields-annotation :
      (a : Annotation)
      → Yields
          (IsFault engine)
          (λ blob. engine.annotations.marshal a ≡ some blob)
          (required not_encoded (engine.annotations.marshal a))
  Yields-annotation a =
      Yields-required (IsFault engine) not_encoded (engine.annotations.marshal a)
        (λ h. inr (inr (a, h)))

pub channel_key-eq :
    (name a b : Bytes) → bytes_eq (channel_key name a) (channel_key name b) ≡ bytes_eq a b
unfolding channel_key bytes_eq
channel_key-eq [] a b = ground arith
channel_key-eq (x ∷ name) a b = ground (arith, channel_key-eq name a b)

-- What the search for a repeat finds, from what the in-process backend finds.
abbrev pub original_of : Option (Option ChannelMessage) → Result BoltError (Option ChannelMessage)
original_of none = ok none
original_of (some none) = err missing_message
original_of (some (some cm)) = ok (some (persisted cm))

loaded :
    {Value : Type 0} (k : Codec ChannelMessage Value) (o : Option Value) (c : Option ChannelMessage)
    → decoded k o ≡ held persisted c
    → (required missing_message o >>= (λ blob. required not_decoded (k.unmarshal blob)) >>= λ cm.
        ok (some cm))
      ≡ original_of (some c)
loaded k none none h = refl
loaded k none (some cm) h = absurd (ground arith)
loaded k (some b) none h = absurd (ground arith)
loaded k (some b) (some cm) h =
    let e : k.unmarshal b ≡ some (persisted cm) = ground arith in rw e refl

module _ {Bucket : Type 0} ⦃engine : Engine Bucket⦄ where
  -- The id index, the log and the latest versions of the channel `name` are these maps; a stored
  -- publish has lost the summaries of its annotations.
  pub record Views (name : Bytes) (db : Db Bucket) (id_map : Assoc Bytes)
      (log : Assoc ChannelMessage) (versions : Assoc Message) : Type 0 where
    pub ids :
        (id : Bytes)
        → read_string engine.to_string (engine.get (channel_key name id) db.ids) ≡ lookup id id_map
    pub messages :
        (s : Bytes)
        → decoded engine.channel_messages (engine.get (channel_key name s) db.messages)
          ≡ held persisted (lookup s log)
    pub latest :
        (s : Bytes)
        → decoded engine.messages (engine.get (channel_key name s) db.latest)
          ≡ held as_is (lookup s versions)

  module _ (name : Bytes) (db : Db Bucket) (cs : ChannelStore)
      (v : Views name db cs.by_id cs.by_cs cs.latest) where
    original-lookup : (s : Bytes) → original name s db ≡ original_of (some (lookup s cs.by_cs))
    unfolding original
    original-lookup s = loaded engine.channel_messages _ (lookup s cs.by_cs) (v.messages s)

    found :
        (o : Option engine.Value) (c : Option Bytes)
        {rest : Result BoltError (Option ChannelMessage)} (rest' : Option (Option ChannelMessage))
        → read_string engine.to_string o ≡ c
        → rest ≡ original_of rest'
        → elim o [ none ↦ rest | some serial ↦ original name (engine.to_string serial) db ]
          ≡ original_of (elim c [ some serial ↦ some (lookup serial cs.by_cs) | none ↦ rest' ])
    found none none r e h = h
    found none (some s) r e h = absurd (ground arith)
    found (some b) none r e h = absurd (ground arith)
    found (some b) (some s) r e h =
        let same : engine.to_string b ≡ s = ground arith in
        ap (λ t. original name t db) same ∙ original-lookup s

    pub find_original-find_duplicate :
        (ids : List Bytes) → find_original name ids db ≡ original_of (find_duplicate ids cs)
    unfolding find_original find_duplicate
    find_original-find_duplicate [] = refl
    find_original-find_duplicate (id ∷ ids) = elim (Bool-cases (is_blank id)) [
      | inl blank ↦ rw (blank, find_original-find_duplicate ids) refl
      | inr named ↦
          rw named (found _ _ (find_duplicate ids cs) (v.ids id) (find_original-find_duplicate ids))
    ]
