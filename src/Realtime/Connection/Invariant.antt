-- ===== src/Realtime/Connection/Invariant.antt =====
-- internal/realtime/connection.go and reauth.go: what holds of a connection and what a new capability does to it.
use ably_server.Base.{
  max_int64, ℕ, ◌<◌, ◌≡◌, ◌⊎◌, refl, sym, ◌∙◌, inl, inr, true, false, List, [], ◌∷◌, Option, none,
  some, Bytes, arith, Bool-cases, any, bytes_eq, bytes_eq_iff, ℤ, pos, negsuc, Assoc, lookup,
  insert, delete, lookup-insert, lookup-delete,
}
use mathlib.Core.Path.{subst}
use ably_server.Auth.Capability.{Capability}
use ably_server.Realtime.Modes.{both, is_no_mode, permitted_modes, Attachment, recheck_capability}
use ably_server.Realtime.Connection.{Task, Connection, leave_channel, reconcile_one, reconcile}

-- An attachment's modes are those it asked for that the capability permits, one at least.
pub record IsPermitted (capability : Capability) (name : Bytes) (a : Attachment) : Type 0 where
  pub effective : a.modes ≡ both a.requested_modes (permitted_modes capability name)
  pub some_mode : is_no_mode a.modes ≡ false

abbrev pub AllPermitted : Capability → Assoc Attachment → Type 0
AllPermitted capability m =
    (name : Bytes) (a : Attachment) → lookup name m ≡ some a → IsPermitted capability name a

-- The serials of the tasks fall from the newest one on, which is the last serial and not the
-- largest one.
abbrev pub Behind : ℕ → List (ℕ × Task) → Type 0
Behind n [] = Unit {0}
Behind n ((m, t) ∷ rest) = (m < n) × Behind m rest

abbrev pub InOrder : ℤ → List (ℕ × Task) → Type 0
InOrder last [] = last ≡ negsuc 0
InOrder last ((n, t) ∷ rest) = (last ≡ pos n) × (n < max_int64) × Behind n rest

pub record IsSound (c : Connection) : Type 0 where
  pub permitted : AllPermitted c.capability c.attachments
  pub ordered : InOrder c.last_msg_serial c.tasks

-- What a handler of channels keeps.
pub record Same (c d : Connection) : Type 0 where
  pub id : d.id ≡ c.id
  pub client_id : d.client_id ≡ c.client_id
  pub capability : d.capability ≡ c.capability
  pub last : d.last_msg_serial ≡ c.last_msg_serial
  pub tasks : d.tasks ≡ c.tasks

Same-self : (c : Connection) → Same c c
Same-self c = record { id = refl; client_id = refl; capability = refl; last = refl; tasks = refl }

Same-trans : {c d e : Connection} → Same c d → Same d e → Same c e
Same-trans h k = record {
  id = k.id ∙ h.id;
  client_id = k.client_id ∙ h.client_id;
  capability = k.capability ∙ h.capability;
  last = k.last ∙ h.last;
  tasks = k.tasks ∙ h.tasks;
}

pub leave_channel-Same :
    (name : Bytes) (c : Connection)
    → Same c (leave_channel name c) × ((leave_channel name c).attachments ≡ c.attachments)
unfolding leave_channel
leave_channel-Same name c = go (lookup name c.entered) refl
  where
    go :
        (o : Option (List Bytes))
        → lookup name c.entered ≡ o
        → Same c (leave_channel name c) × ((leave_channel name c).attachments ≡ c.attachments)
    go none e = rw (e, leave_channel) (Same-self c, refl)
    go (some []) e = rw (e, leave_channel) (Same-self c, refl)
    go (some (m ∷ ms)) e =
        rw (e, leave_channel)
          (
            record { id = refl; client_id = refl; capability = refl; last = refl; tasks = refl },
            refl,
          )

pub AllPermitted-insert :
    (capability : Capability) (name : Bytes) (a : Attachment) (m : Assoc Attachment)
    → IsPermitted capability name a
    → AllPermitted capability m
    → AllPermitted capability (insert name a m)
AllPermitted-insert capability name a m v h k b e = elim (Bool-cases (bytes_eq name k)) [
  | inl same ↦
      let key = (bytes_eq_iff name k).0 same in
      let value : a ≡ b = ground (arith, e, same, lookup-insert name k a m) in
      subst (λ x. IsPermitted capability k x) value (subst (λ x. IsPermitted capability x a) key v)
  | inr other ↦ h k b (ground (arith, e, other, lookup-insert name k a m))
]

pub AllPermitted-delete :
    (capability : Capability) (name : Bytes) (m : Assoc Attachment)
    → AllPermitted capability m
    → AllPermitted capability (delete name m)
AllPermitted-delete capability name m h k b e = elim (Bool-cases (bytes_eq name k)) [
  | inl same ↦ absurd (ground (arith, e, same, lookup-delete name k m))
  | inr other ↦ h k b (ground (arith, e, other, lookup-delete name k m))
]

-- The entries that are not among some keys.
abbrev AllBut : Assoc Attachment → Capability → Assoc Attachment → Type 0
AllBut todo capability m =
    (name : Bytes) (a : Attachment)
    → lookup name m ≡ some a
    → IsPermitted capability name a
      ⊎ (any (λ (x : Bytes × Attachment). bytes_eq x.0 name) todo ≡ true)

pub lookup-any :
    (name : Bytes) (a : Attachment) (m : Assoc Attachment)
    → lookup name m ≡ some a
    → any (λ (x : Bytes × Attachment). bytes_eq x.0 name) m ≡ true
unfolding lookup
lookup-any name a [] h = absurd (ground (arith, h))
lookup-any name a ((k, b) ∷ m) h = ground (arith, lookup-any name a m)

pub reconcile_one-Same :
    (name : Bytes) (a : Attachment) (c : Connection) → Same c (reconcile_one name a c)
unfolding reconcile_one
reconcile_one-Same name a c =
    elim (Bool-cases
      (is_no_mode (recheck_capability (permitted_modes c.capability name) a).modes)) [
        | inl gone ↦
            let s = (leave_channel-Same name c).0 in
            rw gone (record {
              id = s.id;
              client_id = s.client_id;
              capability = s.capability;
              last = s.last;
              tasks = s.tasks;
            })
        | inr some_left ↦
            rw some_left
              (record { id = refl; client_id = refl; capability = refl; last = refl; tasks = refl })
      ]

reconcile_one-AllBut :
    (name : Bytes) (a : Attachment) (rest : Assoc Attachment) (c : Connection)
    → AllBut ((name, a) ∷ rest) c.capability c.attachments
    → AllBut rest c.capability (reconcile_one name a c).attachments
unfolding reconcile_one
reconcile_one-AllBut name a rest c h k b e =
    let a' = recheck_capability (permitted_modes c.capability name) a in
    elim (Bool-cases (bytes_eq name k)) [
      | inr other ↦
          let there : lookup k c.attachments ≡ some b = elim (Bool-cases (is_no_mode a'.modes)) [
            | inl gone ↦ ground (arith, e, other, gone, lookup-delete name k c.attachments)
            | inr some_left ↦
                ground (arith, e, other, some_left, lookup-insert name k a' c.attachments)
          ] in
          elim (h k b there) [ inl v ↦ inl v | inr listed ↦ inr (ground (arith, listed, other)) ]
      | inl same ↦ elim (Bool-cases (is_no_mode a'.modes)) [
        | inl gone ↦ absurd (ground (arith, e, same, gone, lookup-delete name k c.attachments))
        | inr some_left ↦
            let value : a' ≡ b =
              ground (arith, e, same, some_left, lookup-insert name k a' c.attachments) in
            let v : IsPermitted c.capability name a' = record {
              effective = unfold recheck_capability in refl;
              some_mode = some_left;
            } in
            inl (
              subst (λ x. IsPermitted c.capability x b) ((bytes_eq_iff name k).0 same)
                (subst (IsPermitted c.capability name) value v))
      ]
    ]

pub reconcile_lem :
    (todo : Assoc Attachment) (c : Connection)
    → AllBut todo c.capability c.attachments
    → Same c (reconcile todo c) × AllPermitted c.capability (reconcile todo c).attachments
unfolding reconcile
reconcile_lem [] c h = (
  Same-self c,
  λ k b e. elim (h k b e) [ inl v ↦ v | inr listed ↦ absurd (ground (arith, listed)) ],
)
reconcile_lem ((name, a) ∷ rest) c h =
    let one = reconcile_one-Same name a c in
    let left =
      subst (λ cap. AllBut rest cap (reconcile_one name a c).attachments) (sym one.capability)
        (reconcile_one-AllBut name a rest c h) in
    let (same, all) = reconcile_lem rest (reconcile_one name a c) left in
    (
      Same-trans one same,
      subst (λ cap. AllPermitted cap (reconcile rest (reconcile_one name a c)).attachments)
          one.capability all,
    )
