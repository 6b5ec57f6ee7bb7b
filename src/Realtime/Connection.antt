-- ===== src/Realtime/Connection.antt =====
-- internal/realtime/connection.go, presence.go and reauth.go: what the read loop of a connection does
-- with a frame. A pointer to an attachment is its place in the map of attachments. `tidy` and `opened`
-- stand for the text functions of Modes and for whether the manager and the channel give a stream; a
-- token that the client sends comes with the outcome of its verification, which Auth.Tokens models.
-- The ATTACHED frame of a new attachment is sent by the attachment itself. Left out: SYNC and
-- ANNOTATION frames, and what the publish worker writes, the checks of handleMutation included.
pub mod Invariant
pub mod Frames
pub mod Publishing
pub mod Speaking
mod Tests
use ably_server.Base.{
  ℕ, zero, ◌+◌, ◌≡◌, Bool, true, false, not, ◌&&◌, ◌||◌, List, [], ◌∷◌, ◌++◌, Option, none, some,
  Bytes, text, if◌then◌else◌, ltb, leb, any, bytes_eq, itoa, ℤ, pos, negsuc, Assoc, lookup, insert,
  delete, Result, ok, err,
}
use ably_server.Core.Name.{valid_channel_name}
use ably_server.Storage.{is_blank}
use ably_server.Protocol.{Message, is_mutation, PresenceMessage, PresenceAction}
use ably_server.Memory.{is_departure}
use ably_server.Auth.Capability.{Capability, permits}
use ably_server.Auth.Identity.{Principal, resolve_client_id, message_client_id, presence_client_id}
use ably_server.Auth.TokenRequests.{AuthError}
use ably_server.Realtime.Modes.{
  publish, presence, Flags, flag_resumed, both, either, is_no_mode, resolve_requested_modes,
  permitted_modes, Attachment, new_attachment, apply_reattach, recheck_capability, echo_params,
}
use ably_server.Realtime.Stamping.{
  is_first, is_after, accept_msg_serial, stamp_messages, is_empty_list, presence_id, stamp_entries,
  without, set_entered, members_of, record_presence, record_all,
}

-- The frames that are queued, errors with their code.
pub data Frame : Type 0 where
  attached : Bytes → Bytes → Flags → Assoc Bytes → Frame
  detached : Bytes → Frame
  channel_error : Bytes → ℕ → Frame
  connection_error : ℕ → Frame
  connected : Bytes → Frame
  heartbeat : Bytes → Frame
  closed : Frame

-- What the publish worker is handed for a frame.
pub data Task : Type 0 where
  nack : Option ℕ → Task
  mutation : Bytes → List Message → Task
  messages : Bytes → List Message → Task
  members : Bytes → List PresenceMessage → Task

-- `tasks` and `sent` are what was handed over so far, the newest first; `left` are the LEAVEs that
-- were published for members of a channel.
pub record Connection : Type 0 where
  pub id : Bytes
  pub client_id : Bytes
  pub capability : Capability
  pub token_expiry : Option ℕ
  pub attachments : Assoc Attachment
  pub entered : Assoc (List Bytes)
  pub last_msg_serial : ℤ
  pub client_closed : Bool
  pub sent : List Frame
  pub tasks : List (ℕ × Task)
  pub left : List (Bytes × List Bytes)

abbrev pub queue : Frame → Connection → Connection
queue f c = record c { sent = f ∷ c.sent }

-- A channel that is not attached yet is attached if its stream opens.
abbrev pub attach_new : Bool → Bytes → Bytes → Flags → Flags → Assoc Bytes → Connection → Connection
attach_new true attach_point name requested effective params c = record c {
  attachments = insert name (new_attachment requested effective params attach_point) c.attachments;
}
attach_new false attach_point name requested effective params c = queue (channel_error name 50000) c

abbrev pub attach_again : Bytes → Flags → Flags → Assoc Bytes → Attachment → Connection → Connection
attach_again name requested effective params a c =
    let a' = apply_reattach requested effective params a in
    queue (attached name a.cur_serial (either effective flag_resumed) (echo_params a'))
      (record c { attachments = insert name a' c.attachments })

abbrev pub attach_with : Bool → Bytes → Bytes → Flags → Assoc Bytes → Connection → Connection
attach_with opened attach_point name requested params c =
    let effective = both requested (permitted_modes c.capability name) in
    if is_no_mode effective
    then queue (channel_error name 40160) c
    else elim (lookup name c.attachments) [
      | some a ↦ attach_again name requested effective params a c
      | none ↦ attach_new opened attach_point name requested effective params c
    ]

-- handleAttach
unfoldable pub handle_attach :
    (Bytes → Bytes)
    → (opened : Bool) (attach_point : Bytes) → Bytes
    → Flags
    → Assoc Bytes
    → Connection
    → Connection
handle_attach tidy opened attach_point name flags params c =
    if not (valid_channel_name name)
    then queue (channel_error name 40010) c
    else attach_with opened attach_point name (resolve_requested_modes tidy flags params) params c

-- leaveChannel
unfoldable pub leave_channel : Bytes → Connection → Connection
leave_channel name c = elim (lookup name c.entered) [
  | none ↦ c
  | some [] ↦ c
  | some (m ∷ ms) ↦ record c { left = (name, m ∷ ms) ∷ c.left; entered = delete name c.entered }
]

-- handleDetach
unfoldable pub handle_detach : Bytes → Connection → Connection
handle_detach name c =
    if is_blank name
    then c
    else queue (detached name)
        (record (leave_channel name c) { attachments = delete name c.attachments })

abbrev pub drop_attachment : Bytes → Connection → Connection
drop_attachment name c =
    queue (channel_error name 40160)
      (record (leave_channel name c) { attachments = delete name c.attachments })

abbrev pub keep_attachment : Bytes → Attachment → Connection → Connection
keep_attachment name a c = record c { attachments = insert name a c.attachments }

unfoldable pub reconcile_one : Bytes → Attachment → Connection → Connection
reconcile_one name a c =
    let a' = recheck_capability (permitted_modes c.capability name) a in
    if is_no_mode a'.modes then drop_attachment name c else keep_attachment name a' c

-- The loop of reconcileAttachmentCapabilities over what is left of the map.
unfoldable pub reconcile : Assoc Attachment → Connection → Connection
reconcile [] c = c
reconcile ((name, a) ∷ rest) c = reconcile rest (reconcile_one name a c)

abbrev pub adopt : Principal → Option Bytes → Connection → Connection
adopt p none c = queue (connection_error 40102) c
adopt p (some client_id) c =
    if bytes_eq client_id c.client_id
    then queue (connected c.id) (
        reconcile c.attachments
          (record c { capability = p.capability; token_expiry = p.expires_at }))
    else queue (connection_error 40102) c

abbrev pub adopt_verified : Result AuthError Principal → Connection → Connection
adopt_verified (err e) c = queue (connection_error 40101) c
adopt_verified (ok p) c = adopt p (resolve_client_id p []) c

-- handleAuth
unfoldable pub handle_auth : Bytes → Result AuthError Principal → Connection → Connection
handle_auth token verified c =
    if is_blank token then queue (connection_error 40101) c else adopt_verified verified c

-- handleClose
abbrev pub handle_close : Connection → Connection
handle_close c = queue closed (record c { client_closed = true })

abbrev pub hand_over : ℕ → Task → Connection → Connection
hand_over serial t c = record c { tasks = (serial, t) ∷ c.tasks }

abbrev pub lacks_mode : (Attachment → Bool) → Option Attachment → Bool
lacks_mode holds none = false
lacks_mode holds (some a) = not (holds a)

abbrev pub publish_or_nack : Bytes → Option (List Message) → Task
publish_or_nack name none = nack none
publish_or_nack name (some ms) = messages name ms

-- handleMessage
unfoldable pub message_task : Bytes → List Message → Connection → Task
message_task name ms c =
    if not (valid_channel_name name)
    then nack (some 40010)
    else if is_empty_list ms
    then nack none
    else if any (λ m. is_mutation m.action) ms
    then mutation name ms
    else if lacks_mode (λ a. a.modes publish) (lookup name c.attachments)
    then nack (some 40160)
    else if not (permits c.capability name (text "publish"))
    then nack (some 40160)
    else publish_or_nack name (stamp_messages c.client_id c.id ms)

abbrev pub enter_or_nack : ℕ → Bytes → Option (List PresenceMessage) → Connection → Connection
enter_or_nack serial name none c = hand_over serial (nack (some 91000)) c
enter_or_nack serial name (some ps) c =
    hand_over serial (members name ps) (record c { entered = record_all name ps c.entered })

abbrev pub lacks_presence : Option Attachment → Bool
lacks_presence none = true
lacks_presence (some a) = not (a.modes presence)

-- handlePresence
unfoldable pub handle_presence : ℕ → Bytes → List PresenceMessage → Connection → Connection
handle_presence serial name ps c =
    if is_blank name || is_empty_list ps
    then hand_over serial (nack none) c
    else if lacks_presence (lookup name c.attachments)
    then hand_over serial (nack (some 40160)) c
    else enter_or_nack serial name (stamp_entries c.client_id c.id serial 0 ps) c

-- A frame from the client.
pub data Received : Type 0 where
  attach_frame :
      (opened : Bool) (attach_point name : Bytes) (flags : Flags) (params : Assoc Bytes) → Received
  detach_frame : Bytes → Received
  message_frame : ℕ → Bytes → List Message → Received
  presence_frame : ℕ → Bytes → List PresenceMessage → Received
  auth_frame : (token : Bytes) (verified : Result AuthError Principal) → Received
  ping_frame : Bytes → Received
  close_frame : Received

-- A frame with a serial that does not go forward is dropped.
abbrev pub gated : ℕ → (Connection → Connection) → Connection → Connection
gated serial handle c =
    if accept_msg_serial serial c.last_msg_serial
    then handle (record c { last_msg_serial = pos serial })
    else c

-- dispatch
unfoldable pub dispatch : (Bytes → Bytes) → Received → Connection → Connection
dispatch tidy (attach_frame opened attach_point name flags params) c =
    handle_attach tidy opened attach_point name flags params c
dispatch tidy (detach_frame name) c = handle_detach name c
dispatch tidy (message_frame serial name ms) c =
    gated serial (λ d. hand_over serial (message_task name ms d) d) c
dispatch tidy (presence_frame serial name ps) c = gated serial (handle_presence serial name ps) c
dispatch tidy (auth_frame token verified) c = handle_auth token verified c
dispatch tidy (ping_frame id) c = queue (heartbeat id) c
dispatch tidy close_frame c = handle_close c

unfoldable pub dispatch_all : (Bytes → Bytes) → List Received → Connection → Connection
dispatch_all tidy [] c = c
dispatch_all tidy (r ∷ rs) c = dispatch_all tidy rs (dispatch tidy r c)

-- A connection that has been accepted with a principal and the client id resolved for it.
unfoldable pub new_connection : Bytes → Bytes → Principal → Connection
new_connection id client_id p = record {
  id = id;
  client_id = client_id;
  capability = p.capability;
  token_expiry = p.expires_at;
  attachments = [];
  entered = [];
  last_msg_serial = negsuc 0;
  client_closed = false;
  sent = [];
  tasks = [];
  left = [];
}
