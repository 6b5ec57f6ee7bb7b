-- ===== src/Realtime/Connection/Publishing.antt =====
-- internal/realtime/connection.go: what a connection's publish has passed before the worker has it.
use ably_server.Base.{
  ◌≡◌, ◌⊎◌, refl, sym, ap, ◌∙◌, inl, inr, true, false, List, [], ◌∷◌, Option, none, some, Bytes,
  text, arith, Bool-cases, Option-cases, any, lookup,
}
use mathlib.Core.Path.{subst}
use ably_server.Core.Name.{valid_channel_name}
use ably_server.Core.Name.Breaks.{IsChannelName, valid_channel_name-IsChannelName}
use ably_server.Protocol.{Message, is_mutation}
use ably_server.Auth.Capability.{permits}
use ably_server.Auth.Identity.{
  Principal, resolve_client_id, message_client_id, IsConcrete, SpeaksFor,
  message_client_id-resolve_client_id,
}
use ably_server.Realtime.Modes.{publish, Attachment}
use ably_server.Realtime.Stamping.{is_empty_list, stamp_messages}
use ably_server.Realtime.Connection.{
  messages, Connection, lacks_mode, publish_or_nack, message_task,
}

-- Each message as it was sent but for its client id, which is none or that of somebody whom the
-- credential speaks for, and for the connection's id.
abbrev pub Stamped : Principal → Bytes → List Message → List Message → Type 0
Stamped p id [] [] = Unit {0}
Stamped p id [] (s ∷ ss) = ⊥
Stamped p id (m ∷ ms) [] = ⊥
Stamped p id (m ∷ ms) (s ∷ ss) =
    ((s ≡ record m { client_id = s.client_id; connection_id = id })
      × ((s.client_id ≡ []) ⊎ (IsConcrete s.client_id × SpeaksFor p s.client_id)))
    × Stamped p id ms ss

stamp_messages-Stamped :
    (p : Principal) (param client_id id : Bytes) (ms ss : List Message)
    → resolve_client_id p param ≡ some client_id
    → stamp_messages client_id id ms ≡ some ss
    → Stamped p id ms ss
unfolding stamp_messages
stamp_messages-Stamped p param client_id id [] [] r h = tt
stamp_messages-Stamped p param client_id id [] (s ∷ ss) r h = absurd (ground (arith, h))
stamp_messages-Stamped p param client_id id (m ∷ ms) out r h =
    elim (Option-cases (message_client_id client_id m.client_id)) [
      | inl refused ↦ absurd (ground (arith, h, refused))
      | inr (cid, e) ↦ elim (Option-cases (stamp_messages client_id id ms)) [
        | inl refused ↦ absurd (ground (arith, h, e, refused))
        | inr (rest, f) ↦
            let out_is : record m { client_id = cid; connection_id = id } ∷ rest ≡ out =
              ground (arith, h, e, f) in
            subst (Stamped p id (m ∷ ms)) out_is (
              (
                refl,
                ((message_client_id-resolve_client_id p param client_id m.client_id r).0 cid e).0,
              ),
              stamp_messages-Stamped p param client_id id ms rest r f,
            )
      ]
    ]

pub record IsPublishable (p : Principal) (name : Bytes) (ms stamped : List Message) (c : Connection)
    : Type 0 where
  pub valid : IsChannelName name
  pub given : is_empty_list ms ≡ false
  pub creates : any (λ (m : Message). is_mutation m.action) ms ≡ false
  pub holds : (a : Attachment) → lookup name c.attachments ≡ some a → a.modes publish ≡ true
  pub permitted : permits c.capability name (text "publish") ≡ true
  pub identified : Stamped p c.id ms stamped

has_publish :
    (o : Option Attachment) (a : Attachment)
    → lacks_mode (λ x. x.modes publish) o ≡ false
    → o ≡ some a
    → a.modes publish ≡ true
has_publish none a h e = absurd (ground (arith, e))
has_publish (some b) a h e =
    let same : b ≡ a = ground (arith, e) in
    ap (λ (x : Attachment). x.modes publish) (sym same) ∙ ground (arith, h)

handed :
    (name other : Bytes) (o : Option (List Message)) (stamped : List Message)
    → publish_or_nack name o ≡ messages other stamped
    → (other ≡ name) × (o ≡ some stamped)
handed name other none stamped h = absurd (ground (arith, h))
handed name other (some ms) stamped h = (ground (arith, h), ground (arith, h))

-- A publish that a connection hands to its worker is for the channel of the frame, whose name does
-- not begin with a reserved character and holds no line break after its first byte; it is not empty and holds no mutation; the capability permits publishing on the channel,
-- and an attachment to it has the publish mode; and each message is as it was sent but for the
-- connection's id and a client id, none or that of somebody whom the connection's credential speaks
-- for.
pub message_task-messages :
    (p : Principal) (param name other : Bytes) (ms stamped : List Message) (c : Connection)
    → resolve_client_id p param ≡ some c.client_id
    → message_task name ms c ≡ messages other stamped
    → (other ≡ name) × IsPublishable p name ms stamped c
unfolding message_task
message_task-messages p param name other ms stamped c r h =
    elim (Bool-cases (valid_channel_name name)) [
      | inr n ↦ absurd (ground (arith, h, n))
      | inl valid ↦ elim (Bool-cases (is_empty_list ms)) [
        | inl n ↦ absurd (ground (arith, h, valid, n))
        | inr given ↦ elim (Bool-cases (any (λ (m : Message). is_mutation m.action) ms)) [
          | inl n ↦ absurd (ground (arith, h, valid, given, n))
          | inr creates ↦
              elim (Bool-cases (lacks_mode (λ a. a.modes publish) (lookup name c.attachments))) [
                | inl n ↦ absurd (ground (arith, h, valid, given, creates, n))
                | inr holds ↦ elim (Bool-cases (permits c.capability name (text "publish"))) [
                  | inr n ↦ absurd (ground (arith, h, valid, given, creates, holds, n))
                  | inl permitted ↦
                      let made : publish_or_nack name (stamp_messages c.client_id c.id ms)
                          ≡ messages other stamped =
                        ground (arith, h, valid, given, creates, holds, permitted) in
                      let (same, out) =
                        handed name other (stamp_messages c.client_id c.id ms) stamped made in
                      (
                        same,
                        record {
                          valid = valid_channel_name-IsChannelName name valid;
                          given = given;
                          creates = creates;
                          holds = λ a e. has_publish (lookup name c.attachments) a holds e;
                          permitted = permitted;
                          identified =
                              stamp_messages-Stamped p param c.client_id c.id ms stamped r out;
                        },
                      )
                ]
              ]
        ]
      ]
    ]
