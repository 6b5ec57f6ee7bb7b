-- ===== src/Realtime/Connection/Frames.antt =====
-- internal/realtime/connection.go and reauth.go: what holds of a connection after any frames.
use ably_server.Base.{
  max_int64, ◌<◌, ℕ, ◌≡◌, refl, sym, ap, ◌∙◌, inl, inr, Bool, true, false, ◌||◌, List, [], ◌∷◌,
  Option, none, some, Bytes, arith, Bool-cases, bytes_eq, ℤ, pos, Assoc, lookup, insert, delete,
  Result, ok, err,
}
use mathlib.Core.Path.{subst}
use ably_server.Core.Name.{valid_channel_name}
use ably_server.Storage.{is_blank}
use ably_server.Protocol.{PresenceMessage}
use ably_server.Auth.Identity.{Principal, resolve_client_id}
use ably_server.Auth.TokenRequests.{AuthError}
use ably_server.Realtime.Modes.{
  Flags, both, is_no_mode, resolve_requested_modes, permitted_modes, Attachment, new_attachment,
  apply_reattach,
}
use ably_server.Realtime.Stamping.{
  is_first, is_after, accept_msg_serial, stamp_entries, is_empty_list,
}
use ably_server.Realtime.Connection.{
  connection_error, Task, Connection, attach_new, attach_again, attach_with, handle_attach,
  leave_channel, handle_detach, reconcile, adopt, adopt_verified, handle_auth, hand_over,
  message_task, enter_or_nack, lacks_presence, handle_presence, Received, attach_frame,
  detach_frame, message_frame, presence_frame, auth_frame, ping_frame, close_frame, gated, dispatch,
  dispatch_all, new_connection,
}
use ably_server.Realtime.Connection.Invariant.{
  AllPermitted, InOrder, IsSound, leave_channel-Same, AllPermitted-insert, AllPermitted-delete,
  lookup-any, reconcile_lem,
}

-- What every frame keeps.
abbrev Keeps : Connection → Connection → Type 0
Keeps c d = IsSound d × (d.id ≡ c.id) × (d.client_id ≡ c.client_id)

kept_self : (c : Connection) → IsSound c → Keeps c c
kept_self c v = (v, refl, refl)

attach_with-Keeps :
    (opened : Bool) (attach_point name : Bytes) (requested : Flags) (params : Assoc Bytes)
    (c : Connection)
    → IsSound c
    → Keeps c (attach_with opened attach_point name requested params c)
unfolding new_attachment apply_reattach
attach_with-Keeps opened attach_point name requested params c v =
    let effective = both requested (permitted_modes c.capability name) in
    elim (Bool-cases (is_no_mode effective)) [
      | inl nothing ↦
          rw nothing (record { permitted = v.permitted; ordered = v.ordered }, refl, refl)
      | inr some_left ↦ rw some_left (go (lookup name c.attachments) opened some_left)
    ]
  where
    fitting :
        (a : Attachment)
        → a.modes ≡ both requested (permitted_modes c.capability name)
        → a.requested_modes ≡ requested
        → is_no_mode (both requested (permitted_modes c.capability name)) ≡ false
        → AllPermitted c.capability (insert name a c.attachments)
    fitting a m r z =
        AllPermitted-insert c.capability name a c.attachments
          (record {
            effective = m ∙ ap (λ f. both f (permitted_modes c.capability name)) (sym r);
            some_mode = ap is_no_mode m ∙ z;
          })
          v.permitted

    go :
        (o : Option Attachment) (opened' : Bool)
        → is_no_mode (both requested (permitted_modes c.capability name)) ≡ false
        → Keeps c (elim o [
          | some a ↦
              attach_again name requested
                (both requested (permitted_modes c.capability name))
                params
                a
                c
          | none ↦
              attach_new opened' attach_point name requested
                (both requested (permitted_modes c.capability name))
                params
                c
        ])
    go none true z = (record { permitted = fitting _ refl refl z; ordered = v.ordered }, refl, refl)
    go none false z = (record { permitted = v.permitted; ordered = v.ordered }, refl, refl)
    go (some a) opened' z =
        (record { permitted = fitting _ refl refl z; ordered = v.ordered }, refl, refl)

handle_attach-Keeps :
    (tidy : Bytes → Bytes) (opened : Bool) (attach_point name : Bytes) (flags : Flags)
    (params : Assoc Bytes) (c : Connection)
    → IsSound c
    → Keeps c (handle_attach tidy opened attach_point name flags params c)
unfolding handle_attach
handle_attach-Keeps tidy opened attach_point name flags params c v =
    elim (Bool-cases (valid_channel_name name)) [
      | inl valid ↦ rw valid (
          attach_with-Keeps opened attach_point name (resolve_requested_modes tidy flags params)
            params c v)
      | inr invalid ↦
          rw invalid (record { permitted = v.permitted; ordered = v.ordered }, refl, refl)
    ]

handle_detach-Keeps : (name : Bytes) (c : Connection) → IsSound c → Keeps c (handle_detach name c)
unfolding handle_detach
handle_detach-Keeps name c v = elim (Bool-cases (is_blank name)) [
  | inl blank ↦ rw blank (kept_self c v)
  | inr named ↦
      let s = (leave_channel-Same name c).0 in
      rw named (
        record {
          permitted =
              subst (λ cap. AllPermitted cap (delete name c.attachments)) (sym s.capability)
                (AllPermitted-delete c.capability name c.attachments v.permitted);
          ordered =
              subst (λ last. InOrder last (leave_channel name c).tasks) (sym s.last)
                (subst (InOrder c.last_msg_serial) (sym s.tasks) v.ordered);
        },
        s.id,
        s.client_id,
      )
]

-- A new capability holds for every attachment that is left.
handle_auth-Keeps :
    (token : Bytes) (verified : Result AuthError Principal) (c : Connection)
    → IsSound c
    → Keeps c (handle_auth token verified c)
unfolding handle_auth
handle_auth-Keeps token verified c v = elim (Bool-cases (is_blank token)) [
  | inl blank ↦ rw blank refused
  | inr given ↦ rw given (go verified)
]
  where
    refused : Keeps c (record c { sent = connection_error 40101 ∷ c.sent })
    refused = (record { permitted = v.permitted; ordered = v.ordered }, refl, refl)

    adopted : (p : Principal) (o : Option Bytes) → Keeps c (adopt p o c)
    adopted p none = (record { permitted = v.permitted; ordered = v.ordered }, refl, refl)
    adopted p (some client_id) = elim (Bool-cases (bytes_eq client_id c.client_id)) [
      | inr other ↦ rw other (record { permitted = v.permitted; ordered = v.ordered }, refl, refl)
      | inl same ↦
          let d = record c { capability = p.capability; token_expiry = p.expires_at } in
          let (kept, all) =
            reconcile_lem c.attachments d (λ k b e. inr (lookup-any k b c.attachments e)) in
          rw same (
            record {
              permitted =
                  subst (λ cap. AllPermitted cap (reconcile c.attachments d).attachments)
                    (sym kept.capability) all;
              ordered =
                  subst (λ last. InOrder last (reconcile c.attachments d).tasks) (sym kept.last)
                    (subst (InOrder c.last_msg_serial) (sym kept.tasks) v.ordered);
            },
            kept.id,
            kept.client_id,
          )
    ]

    go : (r : Result AuthError Principal) → Keeps c (adopt_verified r c)
    go (err e) = refused
    go (ok p) = adopted p (resolve_client_id p [])

in_order :
    (serial : ℕ) (t : Task) (last : ℤ) (tasks : List (ℕ × Task))
    → serial < max_int64
    → accept_msg_serial serial last ≡ true
    → InOrder last tasks
    → InOrder (pos serial) ((serial, t) ∷ tasks)
unfolding accept_msg_serial
in_order serial t last [] k h o = (refl, k, tt)
in_order serial t last ((n, u) ∷ rest) k h o =
    let (same, small, behind) = o in
    let after : (is_first (pos n) || is_after (pos n) serial) ≡ true =
      ap (λ l. is_first l || is_after l serial) (sym same) ∙ h in
    (refl, k, (ground (arith, after, small), behind))

-- A handler that hands over one task, and changes neither the attachments nor the identity.
abbrev HandsOver : ℕ → (Connection → Connection) → Type 0
HandsOver serial handle =
    (c : Connection)
    → (t : Task) × ((handle c).tasks ≡ (serial, t) ∷ c.tasks)
      × ((handle c).capability ≡ c.capability)
      × ((handle c).attachments ≡ c.attachments)
      × ((handle c).last_msg_serial ≡ c.last_msg_serial)
      × ((handle c).id ≡ c.id)
      × ((handle c).client_id ≡ c.client_id)

handle_presence-HandsOver :
    (serial : ℕ) (name : Bytes) (ps : List PresenceMessage)
    → HandsOver serial (handle_presence serial name ps)
unfolding handle_presence
handle_presence-HandsOver serial name ps c = elim (Bool-cases (is_blank name || is_empty_list ps)) [
  | inl empty ↦ rw empty (_, refl, refl, refl, refl, refl, refl)
  | inr given ↦ elim (Bool-cases (lacks_presence (lookup name c.attachments))) [
    | inl lacking ↦ rw (given, lacking) (_, refl, refl, refl, refl, refl, refl)
    | inr able ↦ rw (given, able) (go (stamp_entries c.client_id c.id serial 0 ps))
  ]
]
  where
    go :
        (o : Option (List PresenceMessage))
        → (t : Task) × ((enter_or_nack serial name o c).tasks ≡ (serial, t) ∷ c.tasks)
          × ((enter_or_nack serial name o c).capability ≡ c.capability)
          × ((enter_or_nack serial name o c).attachments ≡ c.attachments)
          × ((enter_or_nack serial name o c).last_msg_serial ≡ c.last_msg_serial)
          × ((enter_or_nack serial name o c).id ≡ c.id)
          × ((enter_or_nack serial name o c).client_id ≡ c.client_id)
    go none = (_, refl, refl, refl, refl, refl, refl)
    go (some stamped) = (_, refl, refl, refl, refl, refl, refl)

gated-Keeps :
    (serial : ℕ) (handle : Connection → Connection) (c : Connection)
    → serial < max_int64
    → HandsOver serial handle
    → IsSound c
    → Keeps c (gated serial handle c)
gated-Keeps serial handle c k h v = elim (Bool-cases (accept_msg_serial serial c.last_msg_serial)) [
  | inr dropped ↦ rw dropped (kept_self c v)
  | inl accepted ↦
      let d = record c { last_msg_serial = pos serial } in
      let (t, tasks, capability, attachments, last, id, client_id) = h d in
      rw accepted (
        record {
          permitted =
              subst (λ cap. AllPermitted cap (handle d).attachments) (sym capability)
                (subst (AllPermitted c.capability) (sym attachments) v.permitted);
          ordered =
              subst (λ l. InOrder l (handle d).tasks) (sym last)
                (subst (InOrder (pos serial)) (sym tasks)
                  (in_order serial t c.last_msg_serial c.tasks k accepted v.ordered));
        },
        id,
        client_id,
      )
]

-- The largest serial would let every later frame through.
abbrev pub IsSmall : Received → Type 0
IsSmall (message_frame serial name ms) = serial < max_int64
IsSmall (presence_frame serial name ps) = serial < max_int64
IsSmall _ = Unit {0}

abbrev pub AllSmall : List Received → Type 0
AllSmall [] = Unit {0}
AllSmall (r ∷ rs) = IsSmall r × AllSmall rs

dispatch-Keeps :
    (tidy : Bytes → Bytes) (r : Received) (c : Connection)
    → IsSmall r
    → IsSound c
    → Keeps c (dispatch tidy r c)
unfolding dispatch
dispatch-Keeps tidy (attach_frame opened attach_point name flags params) c k v =
    handle_attach-Keeps tidy opened attach_point name flags params c v
dispatch-Keeps tidy (detach_frame name) c k v = handle_detach-Keeps name c v
dispatch-Keeps tidy (message_frame serial name ms) c k v =
    gated-Keeps serial (λ d. hand_over serial (message_task name ms d) d) c k
      (λ d. (message_task name ms d, refl, refl, refl, refl, refl, refl)) v
dispatch-Keeps tidy (presence_frame serial name ps) c k v =
    gated-Keeps serial (handle_presence serial name ps) c k
      (handle_presence-HandsOver serial name ps) v
dispatch-Keeps tidy (auth_frame token verified) c k v = handle_auth-Keeps token verified c v
dispatch-Keeps tidy (ping_frame id) c k v =
    (record { permitted = v.permitted; ordered = v.ordered }, refl, refl)
dispatch-Keeps tidy close_frame c k v =
    (record { permitted = v.permitted; ordered = v.ordered }, refl, refl)

all-Keeps :
    (tidy : Bytes → Bytes) (rs : List Received) (c : Connection)
    → AllSmall rs
    → IsSound c
    → Keeps c (dispatch_all tidy rs c)
unfolding dispatch_all
all-Keeps tidy [] c k v = kept_self c v
all-Keeps tidy (r ∷ rs) c k v =
    let (sound, id, client_id) = dispatch-Keeps tidy r c k.0 v in
    let (sound', id', client_id') = all-Keeps tidy rs (dispatch tidy r c) k.1 sound in
    (sound', id' ∙ id, client_id' ∙ client_id)

-- Whatever attaches, detaches, publishes, presence operations, new tokens, pings and closes a new
-- connection receives, in any order, where no message serial is negative or the largest int64: each
-- of its attachments has exactly the modes that it last asked for and that the connection's present
-- capability permits, one at least; the publish worker has been handed its tasks in the order of
-- their strictly rising message serials, the newest under the last accepted one; and the connection
-- keeps its id and its client id.
pub dispatch_all-new_connection :
    (tidy : Bytes → Bytes) (rs : List Received) (id client_id : Bytes) (p : Principal)
    → AllSmall rs
    → IsSound (dispatch_all tidy rs (new_connection id client_id p))
      × ((dispatch_all tidy rs (new_connection id client_id p)).id ≡ id)
      × ((dispatch_all tidy rs (new_connection id client_id p)).client_id ≡ client_id)
unfolding new_connection lookup
dispatch_all-new_connection tidy rs id client_id p k =
    all-Keeps tidy rs (new_connection id client_id p) k
      (record { permitted = λ name a h. absurd (ground (arith, h)); ordered = refl })
