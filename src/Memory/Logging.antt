-- ===== src/Memory/Logging.antt =====
-- internal/storage/memory/memory.go: the log write that every publish ends with.
use ably_server.Base.{
  ℕ, ◌≡◌, refl, ap, inl, inr, not, ◌&&◌, List, [], ◌∷◌, ◌++◌, Option, none, some, Bytes, arith,
  if◌then◌else◌, Bool-cases, any, bytes_eq, bytes_eq_iff, Assoc, lookup, insert, lookup-insert,
}
use ably_server.Serial.{Generator, mint}
use ably_server.Protocol.{Message, PresenceMessage, ChannelMessage}
use ably_server.Protocol.Summaries.{Annotation}
use ably_server.Storage.{is_blank}
use ably_server.Memory.{ChannelStore, deliver, index_ids, persist}

-- One message has been added to the log: under a newly minted serial and at the end of the order,
-- found by each id of the publish that is not empty, and received by the appender; nothing else of
-- the log has changed.
pub record IsLogged (now : ℕ) (cm : ChannelMessage) (ids : List Bytes) (cs d : ChannelStore)
    : Type 0 where
  pub minted : mint cs.gen now ≡ (cm.channel_serial, d.gen)
  pub order : d.order ≡ cs.order ++ cm.channel_serial ∷ []
  pub kept :
      (s : Bytes)
      → lookup s d.by_cs ≡ (if bytes_eq cm.channel_serial s then some cm else lookup s cs.by_cs)
  pub found :
      (id : Bytes)
      → lookup id d.by_id ≡ (
          if not (is_blank id) && any (λ x. bytes_eq x id) ids
          then some cm.channel_serial
          else lookup id cs.by_id)
  pub received : d.appender ≡ elim cs.appender [ none ↦ none | some rs ↦ some (rs ++ cm ∷ []) ]

lookup-index_ids :
    (s id : Bytes) (ids : List Bytes) (m : Assoc Bytes)
    → lookup id (index_ids s ids m)
      ≡ (if not (is_blank id) && any (λ x. bytes_eq x id) ids then some s else lookup id m)
unfolding index_ids
lookup-index_ids s id [] m = ground arith
lookup-index_ids s id (x ∷ ids) m = elim (Bool-cases (bytes_eq x id)) [
  | inl same ↦
      let e : is_blank x ≡ is_blank id = ap is_blank ((bytes_eq_iff x id).0 same) in
      ground (
        arith,
        lookup-index_ids s id ids (if is_blank x then m else insert x s m),
        same,
        e,
        lookup-insert x id s m,
      )
  | inr other ↦ ground (
    arith,
    lookup-index_ids s id ids (if is_blank x then m else insert x s m),
    other,
    lookup-insert x id s m,
  )
]

delivered :
    (cm : ChannelMessage) (o : Option (List ChannelMessage))
    → deliver cm o ≡ elim o [ none ↦ none | some rs ↦ some (rs ++ cm ∷ []) ]
delivered cm none = refl
delivered cm (some rs) = refl

pub persist-IsLogged :
    (now : ℕ) (cm : ChannelMessage) (ids : List Bytes) (gen : Generator) (cs : ChannelStore)
    (members : Assoc PresenceMessage) (latest : Assoc Message) (versions : Assoc (List Message))
    (annotations : Assoc (List Annotation))
    → mint cs.gen now ≡ (cm.channel_serial, gen)
    → IsLogged now cm ids cs (record (persist cm ids gen cs) {
      members = members;
      latest = latest;
      versions = versions;
      annotations = annotations;
    })
unfolding persist
persist-IsLogged now cm ids gen cs members latest versions annotations e = record {
  minted = e;
  order = refl;
  kept = λ s. lookup-insert cm.channel_serial s cm cs.by_cs;
  found = λ id. lookup-index_ids cm.channel_serial id ids cs.by_id;
  received = delivered cm cs.appender;
}
