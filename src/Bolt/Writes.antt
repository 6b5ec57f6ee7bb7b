-- ===== src/Bolt/Writes.antt =====
-- internal/storage/bbolt/bbolt.go: what each write of a transaction does to the maps of a channel.
use ably_server.Base.{
  ◌≡◌, refl, ap, ◌∙◌, inl, inr, List, [], ◌∷◌, Option, some, Bytes, if◌then◌else◌, Bool-cases,
  bytes_eq, Assoc, lookup, insert, lookup-insert, ok, ◌>>=◌,
}
use ably_server.Protocol.{Message, ChannelMessage}
use ably_server.Storage.{is_blank, version_serial_of}
use ably_server.Memory.{ChannelStore, index_ids, register, message_ids}
use ably_server.Bolt.{
  Codec, Engine, IsEngine, persisted, Db, not_encoded, not_written, required, channel_key,
  version_key, put_message, put_id, put_ids, put_latest, put_history, put_version, put_creates,
}
use ably_server.Bolt.Views.{
  decoded, read_string, held, as_is, Yields, results, Yields-bind, Yields-map, Yields-put,
  Yields-channel_message, Yields-message, IsFault, channel_key-eq, Views,
}

-- A map that is written at a key, through a codec.
decoded-insert :
    {A Value : Type 0} (c : Codec A Value) (f : A → A) (k j : Bytes) (blob : Value) (a : A)
    (m : Assoc A) (o : Option Value)
    → c.unmarshal blob ≡ some (f a)
    → decoded c o ≡ held f (lookup j m)
    → decoded c (if bytes_eq k j then some blob else o) ≡ held f (lookup j (insert k a m))
decoded-insert c f k j blob a m o e h = elim (Bool-cases (bytes_eq k j)) [
  | inl same ↦ rw (lookup-insert, same, e) refl
  | inr other ↦ rw (lookup-insert, other) h
]

string-insert :
    {Value : Type 0} (f : Value → Bytes) (k j s : Bytes) (m : Assoc Bytes) {v : Value}
    (o : Option Value)
    → f v ≡ s
    → read_string f o ≡ lookup j m
    → read_string f (if bytes_eq k j then some v else o) ≡ lookup j (insert k s m)
string-insert f k j s m o e h = elim (Bool-cases (bytes_eq k j)) [
  | inl same ↦ rw (lookup-insert, same, e) refl
  | inr other ↦ rw (lookup-insert, other) h
]

module _ {Bucket : Type 0} ⦃engine : Engine Bucket⦄ (laws : IsEngine engine) (name : Bytes) where
  -- A channel's key after a write to a bucket.
  get-put_key :
      (a : Bytes) (v : engine.Value) (b c : Bucket)
      → engine.put (channel_key name a) v b ≡ some c
      → (j : Bytes)
      → engine.get (channel_key name j) c
        ≡ (if bytes_eq a j then some v else engine.get (channel_key name j) b)
  get-put_key a v b c h j =
      laws.get-put (channel_key name a) v b c h (channel_key name j)
      ∙ ap (λ t. if t then some v else engine.get (channel_key name j) b) (channel_key-eq name a j)

  module _ (db : Db Bucket) (id_map : Assoc Bytes) (log : Assoc ChannelMessage)
      (versions : Assoc Message) (v : Views name db id_map log versions) where
    pub put_message-Views :
        (cm : ChannelMessage)
        → Yields
            (IsFault engine)
            (λ d. Views name d id_map (insert cm.channel_serial cm log) versions)
            (put_message name cm db)
    unfolding put_message
    put_message-Views cm =
        Yields-bind (λ b. ok (record db { messages = b })) logged
          (λ b h. results _ (record { ids = v.ids; messages = h; latest = v.latest }))
      where
        logged :
            Yields
              (IsFault engine)
              (λ b.
                (s : Bytes)
                → decoded engine.channel_messages (engine.get (channel_key name s) b)
                  ≡ held persisted (lookup s (insert cm.channel_serial cm log)))
              (required not_encoded (engine.channel_messages.marshal cm) >>= λ blob.
                required not_written
                  (engine.put (channel_key name cm.channel_serial) blob db.messages))
        logged =
            Yields-bind
              (λ blob.
                required not_written
                  (engine.put (channel_key name cm.channel_serial) blob db.messages))
              (Yields-channel_message engine cm)
              (λ blob e.
                Yields-map
                  (λ b h s. rw (get-put_key cm.channel_serial blob db.messages b h s) (
                    decoded-insert engine.channel_messages persisted cm.channel_serial s blob cm log
                      (engine.get (channel_key name s) db.messages)
                      (laws.channel_messages cm blob e) (v.messages s)))
                  (Yields-put (channel_key name cm.channel_serial) blob db.messages))

    pub put_id-Views :
        (channel_serial id : Bytes)
        → Yields
            (IsFault engine)
            (λ d.
              Views name d
                (if is_blank id then id_map else insert id channel_serial id_map)
                log
                versions)
            (put_id name channel_serial id db)
    unfolding put_id
    put_id-Views channel_serial id = elim (Bool-cases (is_blank id)) [
      | inl blank ↦ rw blank (results db v)
      | inr named ↦ rw named (
          Yields-bind (λ b. ok (record db { ids = b }))
            (Yields-put (channel_key name id) (engine.of_string channel_serial) db.ids)
            (λ b h. results _ (record {
              ids = λ j.
                  ap (read_string engine.to_string)
                    (get-put_key id (engine.of_string channel_serial) db.ids b h j)
                  ∙ string-insert engine.to_string id j channel_serial id_map _
                      (laws.strings channel_serial) (v.ids j);
              messages = v.messages;
              latest = v.latest;
            })))
    ]

    pub put_latest-Views :
        (identity : Bytes) (blob : engine.Value) (m : Message)
        → engine.messages.unmarshal blob ≡ some m
        → Yields
            (IsFault engine)
            (λ d. Views name d id_map log (insert identity m versions))
            (put_latest name identity blob db)
    unfolding put_latest
    put_latest-Views identity blob m e =
        Yields-bind (λ b. ok (record db { latest = b }))
          (Yields-put (channel_key name identity) blob db.latest)
          (λ b h. results _ (record {
            ids = v.ids;
            messages = v.messages;
            latest = λ s. rw (get-put_key identity blob db.latest b h s) (
                decoded-insert engine.messages as_is identity s blob m versions
                  (engine.get (channel_key name s) db.latest) e (v.latest s));
          }))

    put_history-Views :
        (m : Message) (blob : engine.Value)
        → Yields
            (IsFault engine)
            (λ d. Views name d id_map log versions)
            (put_history name m blob db)
    unfolding put_history
    put_history-Views m blob =
        Yields-bind (λ b. ok (record db { versions = b }))
          (Yields-put (version_key name m.serial (version_serial_of m)) blob db.versions)
          (λ b h. results _ (record { ids = v.ids; messages = v.messages; latest = v.latest }))

  pub put_version-Views :
      (db : Db Bucket) (id_map : Assoc Bytes) (log : Assoc ChannelMessage)
      (versions : Assoc Message)
      → Views name db id_map log versions
      → (m : Message)
      → Yields
          (IsFault engine)
          (λ d. Views name d id_map log (insert m.serial m versions))
          (put_version name m db)
  unfolding put_version
  put_version-Views db id_map log versions v m =
      Yields-bind (λ blob. put_latest name m.serial blob db >>= put_history name m blob)
        (Yields-message engine m)
        (λ blob e.
          Yields-bind (put_history name m blob)
            (put_latest-Views db id_map log versions v m.serial blob m (laws.messages m blob e))
            (λ d w. put_history-Views d id_map log (insert m.serial m versions) w m blob))

  pub put_ids-Views :
      (channel_serial : Bytes) (ids : List Bytes) (db : Db Bucket) (id_map : Assoc Bytes)
      (log : Assoc ChannelMessage) (versions : Assoc Message)
      → Views name db id_map log versions
      → Yields
          (IsFault engine)
          (λ d. Views name d (index_ids channel_serial ids id_map) log versions)
          (put_ids name channel_serial ids db)
  unfolding put_ids index_ids
  put_ids-Views channel_serial [] db id_map log versions v = results db v
  put_ids-Views channel_serial (id ∷ ids) db id_map log versions v =
      Yields-bind (put_ids name channel_serial ids)
        (put_id-Views db id_map log versions v channel_serial id)
        (λ d w. put_ids-Views channel_serial ids d _ log versions w)

  pub put_creates-Views :
      (channel_serial : Bytes) (ms : List Message) (db : Db Bucket) (id_map : Assoc Bytes)
      (log : Assoc ChannelMessage) (cs : ChannelStore)
      → Views name db id_map log cs.latest
      → Yields
          (IsFault engine)
          (λ d.
            Views name d
              (index_ids channel_serial (message_ids ms) id_map)
              log
              (register ms cs).latest)
          (put_creates name channel_serial ms db)
  unfolding put_creates index_ids register
  put_creates-Views channel_serial [] db id_map log cs v = results db v
  put_creates-Views channel_serial (m ∷ ms) db id_map log cs v =
      Yields-bind (put_creates name channel_serial ms)
        (Yields-bind (put_version name m)
          (put_id-Views db id_map log cs.latest v channel_serial m.id)
          (λ d w. put_version-Views d _ log cs.latest w m))
        (λ d w. put_creates-Views channel_serial ms d _ log _ w)
