-- ===== src/Realtime/Mutations.antt =====
-- internal/realtime/mutation.go: `authorizeMutation`, who may change a message. The store is the
-- memory backend's channel; internal/rest/server.go decides alike.
mod Tests
use ably_server.Base.{
  ◌++◌, ◌≢◌, ℕ, ◌≡◌, ◌↔◌, ◌⊎◌, refl, sym, ap, ◌∙◌, inl, inr, Bool, true, false, not, ◌&&◌, ◌||◌,
  List, [], ◌∷◌, Option, none, some, Bytes, text, arith, if◌then◌else◌, Bool-cases, Option-cases,
  bytes_eq, bytes_eq_iff, lookup, Result, ok, err,
}
use ably_server.Auth.Capability.{
  Op, Capability, permits, mutation_grant, MutationOutcome, allowed, denied_capability,
  needs_ownership,
}
use ably_server.Serial.{message_serial}
use ably_server.Protocol.{
  Message, MessageAction, message_create, message_update, message_delete, message_summary,
  message_append, ChannelMessage,
}
use ably_server.Storage.{StorageError, target_not_found, context_done, merge_version}
use ably_server.Storage.Versions.{merge_version-IsVersionOf}
use ably_server.Memory.{ChannelStore, latest_version, mutate}
use ably_server.Memory.Behaviour.{IsMutation, mutate-IsMutation}

pub data Refusal : Type 0 where
  insufficient_capability target_missing authorization_failed not_the_owner : Refusal

-- mutationOps
abbrev pub mutation_ops : MessageAction → Op × Op
mutation_ops message_delete = (text "message-delete-own", text "message-delete-any")
mutation_ops _ = (text "message-update-own", text "message-update-any")

unfoldable pub owns_message : Bytes → Bytes → Bool
owns_message caller creator =
    not (bytes_eq caller []) && not (bytes_eq caller (text "*")) && bytes_eq caller creator

abbrev pub refusal_of : StorageError → Refusal
refusal_of target_not_found = target_missing
refusal_of _ = authorization_failed

unfoldable pub check_owner : Bytes → Result StorageError Message → Option Refusal
check_owner caller (err e) = some (refusal_of e)
check_owner caller (ok latest) =
    if owns_message caller latest.client_id then none else some not_the_owner

unfoldable pub by_grant : MutationOutcome → Bytes → Result StorageError Message → Option Refusal
by_grant allowed caller latest = none
by_grant denied_capability caller latest = some insufficient_capability
by_grant needs_ownership caller latest = check_owner caller latest

-- authorizeMutation; `none` is permission, and the read is made only where ownership is needed.
unfoldable pub authorize_mutation :
    Capability → Bytes → Bytes → Bool → Message → ChannelStore → Option Refusal
authorize_mutation capability caller channel done m cs =
    let (own_op, any_op) = mutation_ops m.action in
    by_grant (mutation_grant capability channel own_op any_op) caller
      (latest_version done m.serial cs)

-- The operation for own messages, or for any, that an action needs.
abbrev pub right : MessageAction → Bytes → Op
right message_delete whose = text "message-delete-" ++ whose
right message_create whose = text "message-update-" ++ whose
right message_update whose = text "message-update-" ++ whose
right message_append whose = text "message-update-" ++ whose
right message_summary whose = text "message-update-" ++ whose

own_right : (a : MessageAction) → (mutation_ops a).0 ≡ right a (text "own")
own_right message_create = refl
own_right message_update = refl
own_right message_delete = refl
own_right message_summary = refl
own_right message_append = refl

any_right : (a : MessageAction) → (mutation_ops a).1 ≡ right a (text "any")
any_right message_create = refl
any_right message_update = refl
any_right message_delete = refl
any_right message_summary = refl
any_right message_append = refl

-- A client that is named, and not by the wildcard, and created the message.
abbrev pub IsCreator : Bytes → Message → Type 0
IsCreator caller m = (caller ≢ []) × (caller ≢ text "*") × (caller ≡ m.client_id)

owns_message_iff :
    (caller : Bytes) (m : Message) → (owns_message caller m.client_id ≡ true) ↔ IsCreator caller m
unfolding owns_message
owns_message_iff caller m = (
  λ h. (
    λ e. absurd (ground (arith, h, (bytes_eq_iff caller []).1 e)),
    λ e. absurd (ground (arith, h, (bytes_eq_iff caller (text "*")).1 e)),
    (bytes_eq_iff caller m.client_id).0 (ground (arith, h)),
  ),
  λ (named, concrete, same). elim (Bool-cases (bytes_eq caller [])) [
    | inl e ↦ absurd (named ((bytes_eq_iff caller []).0 e))
    | inr f ↦ elim (Bool-cases (bytes_eq caller (text "*"))) [
      | inl e ↦ absurd (concrete ((bytes_eq_iff caller (text "*")).0 e))
      | inr g ↦ ground (arith, f, g, (bytes_eq_iff caller m.client_id).1 same)
    ]
  ],
)

check_owner_iff :
    (caller : Bytes) (latest : Result StorageError Message)
    → (check_owner caller latest ≡ none)
      ↔ ((m : Message) × (latest ≡ ok m) × (owns_message caller m.client_id ≡ true))
unfolding check_owner
check_owner_iff caller (err e) =
    (λ h. absurd (ground arith), λ (n, f, h). absurd (ground (arith, f)))
check_owner_iff caller (ok m) = (
  λ h. (m, refl, ground arith),
  λ (n, e, h).
      let same : m ≡ n = ground (arith, e) in
      let owned : owns_message caller m.client_id ≡ true =
        ap (λ x. owns_message caller x.client_id) same ∙ h in
      ground (arith, owned),
)

authorized_iff :
    (capability : Capability) (caller channel : Bytes) (done : Bool) (m : Message)
    (cs : ChannelStore)
    → (authorize_mutation capability caller channel done m cs ≡ none) ↔ (
        (permits capability channel (mutation_ops m.action).1 ≡ true)
        ⊎ ((permits capability channel (mutation_ops m.action).0 ≡ true)
            × ((target : Message) × (latest_version done m.serial cs ≡ ok target)
                × (owns_message caller target.client_id ≡ true))))
unfolding authorize_mutation by_grant mutation_grant
authorized_iff capability caller channel done m cs =
    elim (Bool-cases (permits capability channel (mutation_ops m.action).1)) [
      | inl any_op ↦ (λ h. inl any_op, λ h. ground (arith, any_op))
      | inr no_any ↦ elim (Bool-cases (permits capability channel (mutation_ops m.action).0)) [
        | inl own_op ↦ (
          λ h. inr (
            own_op,
            (check_owner_iff caller (latest_version done m.serial cs)).0
                (ground (arith, h, no_any, own_op)),
          ),
          λ h. elim h [
            | inl a ↦ absurd (ground (arith, a, no_any))
            | inr (o, t) ↦
                let owner = (check_owner_iff caller (latest_version done m.serial cs)).1 t in
                ground (arith, owner, no_any, own_op)
          ],
        )
        | inr no_own ↦ (
          λ h. absurd (ground (arith, h, no_any, no_own)),
          λ h. elim h [
            | inl a ↦ absurd (ground (arith, a, no_any))
            | inr (o, t) ↦ absurd (ground (arith, o, no_own))
          ],
        )
      ]
    ]

-- A mutation is permitted exactly when the capability permits "message-delete-any" on the channel,
-- for a delete, or "message-update-any", for any other action; or it permits the same operation with
-- "own" for "any", the target exists and can be read, and the caller's client id, neither empty nor
-- "*", is that of the target's creator.
pub authorize_mutation_iff :
    (capability : Capability) (caller channel : Bytes) (done : Bool) (m : Message)
    (cs : ChannelStore)
    → (authorize_mutation capability caller channel done m cs ≡ none) ↔ (
        (permits capability channel (right m.action (text "any")) ≡ true)
        ⊎ ((permits capability channel (right m.action (text "own")) ≡ true)
            × ((target : Message) × (latest_version done m.serial cs ≡ ok target)
                × IsCreator caller target)))
authorize_mutation_iff capability caller channel done m cs =
    rw (← own_right m.action, ← any_right m.action)
      (let (to, from) = authorized_iff capability caller channel done m cs in
        (
          λ h. elim (to h) [
            | inl any_op ↦ inl any_op
            | inr (own_op, (target, read, owns)) ↦
                inr (own_op, (target, read, (owns_message_iff caller target).0 owns))
          ],
          λ h. from (elim h [
            | inl any_op ↦ inl any_op
            | inr (own_op, (target, read, owns)) ↦
                inr (own_op, (target, read, (owns_message_iff caller target).1 owns))
          ]),
        ))

owner_kept :
    (caller : Bytes) (m n : Message)
    → m.client_id ≡ n.client_id
    → check_owner caller (ok m) ≡ check_owner caller (ok n)
unfolding check_owner
owner_kept caller m n h = ap (λ c. if owns_message caller c then none else some not_the_owner) h

same_decision :
    (grant : MutationOutcome) (caller : Bytes) (a b : Result StorageError Message)
    → check_owner caller a ≡ check_owner caller b
    → by_grant grant caller a ≡ by_grant grant caller b
unfolding by_grant
same_decision allowed caller a b h = refl
same_decision denied_capability caller a b h = refl
same_decision needs_ownership caller a b h = h

latest-found :
    (s : Bytes) (cs : ChannelStore) (m : Message)
    → lookup s cs.latest ≡ some m
    → latest_version false s cs ≡ ok m
unfolding latest_version
latest-found s cs m h = rw (h, latest_version)

-- A mutation that succeeds and is no repeat changes no decision about mutations: in the state after
-- it, each request is permitted or refused, and for the same reason, as in the state before it.
pub authorize_mutation-mutate :
    (done : Bool) (now : ℕ) (mut : Message) (cs : ChannelStore) (cm : ChannelMessage)
    (capability : Capability) (caller channel : Bytes) (m : Message)
    → (mutate done now mut cs).0 ≡ ok (some cm, false)
    → authorize_mutation capability caller channel false m (mutate done now mut cs).1
      ≡ authorize_mutation capability caller channel false m cs
unfolding authorize_mutation
authorize_mutation-mutate done now mut cs cm capability caller channel m h =
    let v = mutate-IsMutation done now mut cs cm h in
    let grant =
      mutation_grant capability channel (mutation_ops m.action).0 (mutation_ops m.action).1 in
    same_decision grant caller _ _ (elim (Bool-cases (bytes_eq mut.serial m.serial)) [
      | inl same ↦
          let target : lookup m.serial cs.latest ≡ some v.current =
            ap (λ s. lookup s cs.latest) (sym ((bytes_eq_iff mut.serial m.serial).0 same))
            ∙ v.target in
          let kept = (merge_version-IsVersionOf v.current mut _ v.version v.merged).creator in
          ap (check_owner caller) (v.latest m.serial ∙ rw same refl)
          ∙ owner_kept caller v.version v.current kept
          ∙ ap (check_owner caller) (sym (latest-found m.serial cs v.current target))
      | inr other ↦ ap (check_owner caller) (v.latest m.serial ∙ rw other refl)
    ])
