-- ===== src/Bolt/Isolation/Names.antt =====
-- internal/storage/bbolt/bbolt.go: `keySep` and the names that internal/core/name.go accepts.
use ably_server.Base.{
  ℕ, ◌≡◌, ◌≢◌, refl, ap, ◌∙◌, sym, true, false, [], ◌∷◌, ◌++◌, Option, none, some, Bytes, arith,
  Result, ok, err, ◌>>=◌, bytes_eq,
}
use ably_server.Core.Name.{valid_channel_name, has_line_break, valid_channel_name-nul}
use ably_server.Protocol.{Message, ChannelMessage}
use ably_server.Storage.{is_blank}
use ably_server.Memory.Behaviour.{stamp-single}
use ably_server.Bolt.{
  Engine, BoltError, BoltStore, channel_key, required, missing_message, not_decoded, original,
  find_original, bolt_store_stamped, bolt_store,
}
use ably_server.Bolt.Isolation.{channel_key-nul}

is_blank-nul : (more id : Bytes) → is_blank (more ++ 0 ∷ id) ≡ false
is_blank-nul [] id = unfold bytes_eq in refl
is_blank-nul (c ∷ more) id = unfold bytes_eq in refl

bind-some : {A : Type 0} (r : Result BoltError A) → (r >>= λ x. ok (some x)) ≢ ok none
bind-some (ok x) h = absurd (ground (arith, h))
bind-some (err e) h = absurd (ground (arith, h))

module _ {Bucket : Type 0} ⦃engine : Engine Bucket⦄ where
  -- An id that is indexed has a publish, or the database is corrupt.
  original-found :
      (name serial : Bytes) (bs : BoltStore Bucket) → original name serial bs.db ≢ ok none
  unfolding original
  original-found name serial bs = bind-some (
      required missing_message (engine.get (channel_key name serial) bs.db.messages) >>= λ blob.
      required not_decoded (engine.channel_messages.unmarshal blob))

  found-kept :
      (now : ℕ) (b : Bytes) (m : Message) (bs : BoltStore Bucket)
      (r : Result BoltError (Option ChannelMessage))
      → find_original bs.name (m.id ∷ []) bs.db ≡ r
      → r ≢ ok none
      → (bolt_store_stamped now b (m ∷ []) bs).1 ≡ bs
  unfolding bolt_store_stamped
  found-kept now b m bs (err e) h k = rw (h, bolt_store_stamped) refl
  found-kept now b m bs (ok (some cm)) h k = rw (h, bolt_store_stamped) refl
  found-kept now b m bs (ok none) h k = absurd (k refl)

  -- The name of a channel, a byte 0 and a text without line breaks make another valid channel name.
  -- Where that channel has an id, a message with an id of the text, a byte 0 and that id is not
  -- stored in the first channel: the publish changes nothing.
  pub nul-shares_keys :
      (more id : Bytes) (v : engine.Value) (now : ℕ) (fresh : Bytes) (m : Message)
      (bs : BoltStore Bucket)
      → valid_channel_name bs.name ≡ true
      → has_line_break more ≡ false
      → engine.get (channel_key (bs.name ++ 0 ∷ more) id) bs.db.ids ≡ some v
      → m.id ≡ more ++ 0 ∷ id
      → (valid_channel_name (bs.name ++ 0 ∷ more) ≡ true)
        × ((bolt_store false now fresh (m ∷ []) bs).1 ≡ bs)
  unfolding find_original
  nul-shares_keys more id v now fresh m bs valid unbroken has same =
      let filled : is_blank m.id ≡ false = ap is_blank same ∙ is_blank-nul more id in
      let at : engine.get (channel_key bs.name m.id) bs.db.ids ≡ some v =
        ap (λ s. engine.get (channel_key bs.name s) bs.db.ids) same
        ∙ ap (λ k. engine.get k bs.db.ids) (sym (channel_key-nul bs.name more id))
        ∙ has in
      let found : find_original bs.name (m.id ∷ []) bs.db
          ≡ original bs.name (engine.to_string v) bs.db =
        rw (filled, find_original) (rw (at, find_original) refl) in
      let (b, stamped) = stamp-single fresh m filled in
      (
        valid_channel_name-nul bs.name more valid unbroken,
        unfold bolt_store in
            rw (stamped, bolt_store)
              (found-kept now b m bs (original bs.name (engine.to_string v) bs.db) found
                (original-found bs.name (engine.to_string v) bs)),
      )
