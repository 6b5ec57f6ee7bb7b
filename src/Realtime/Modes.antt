-- ===== src/Realtime/Modes.antt =====
-- internal/realtime/attachment.go: the channel modes of an attachment and what it echoes of its
-- parameters; internal/protocol/message.go: the flags. A word of flags is the set of its named bits.
-- `tidy` is strings.ToLower after strings.TrimSpace.
use ably_server.Base.{
  Bool, true, false, not, ◌&&◌, ◌||◌, List, [], ◌∷◌, none, some, Bytes, text, if◌then◌else◌, any,
  bytes_eq, split, join, Assoc, lookup,
}
use ably_server.Auth.Capability.{Capability, permits}

pub data Flag : Type 0 where
  has_presence has_backlog resumed attach_resume presence publish subscribe : Flag
  presence_subscribe annotation_publish annotation_subscribe : Flag

abbrev pub Flags : Type 0
Flags = Flag → Bool

-- a & b and a | b
abbrev pub both : Flags → Flags → Flags
both a b f = a f && b f

abbrev pub either : Flags → Flags → Flags
either a b f = a f || b f

-- FlagResumed
abbrev pub flag_resumed : Flags
flag_resumed resumed = true
flag_resumed _ = false

abbrev pub is_no_mode : Flags → Bool
is_no_mode a = not (
    a has_presence
    || a has_backlog
    || a resumed
    || a attach_resume
    || a presence
    || a publish
    || a subscribe
    || a presence_subscribe
    || a annotation_publish
    || a annotation_subscribe)

unfoldable pub default_modes : Flags
default_modes presence = true
default_modes publish = true
default_modes subscribe = true
default_modes presence_subscribe = true
default_modes annotation_publish = true
default_modes _ = false

unfoldable pub mode_mask : Flags
mode_mask annotation_subscribe = true
mode_mask f = default_modes f

-- resolveModes
unfoldable pub resolve_modes : Flags → Flags
resolve_modes flags =
    if is_no_mode (both flags mode_mask) then default_modes else both flags mode_mask

-- modeParamNames
abbrev pub mode_param_names : List (Flag × Bytes)
mode_param_names =
    (presence, text "presence")
    ∷ (publish, text "publish")
    ∷ (subscribe, text "subscribe")
    ∷ (presence_subscribe, text "presence_subscribe")
    ∷ (annotation_subscribe, text "annotation_subscribe")
    ∷ (annotation_publish, text "annotation_publish")
    ∷ []

unfoldable pub flag_name : Flag → Bytes
flag_name presence = text "presence"
flag_name publish = text "publish"
flag_name subscribe = text "subscribe"
flag_name presence_subscribe = text "presence_subscribe"
flag_name annotation_subscribe = text "annotation_subscribe"
flag_name annotation_publish = text "annotation_publish"
flag_name _ = []

-- parseModesParam: the modes whose token is among the texts between commas.
unfoldable pub parse_modes_param : (Bytes → Bytes) → Bytes → Flags
parse_modes_param tidy s f =
    mode_mask f && any (λ tok. bytes_eq (tidy tok) (flag_name f)) (split b',' s)

abbrev pub names_of : Flags → List (Flag × Bytes) → List Bytes
names_of modes [] = []
names_of modes ((f, name) ∷ rest) =
    let more = names_of modes rest in if modes f then name ∷ more else more

-- modesParamString
unfoldable pub modes_param_string : Flags → Bytes
modes_param_string modes = join b',' (names_of modes mode_param_names)

abbrev by_param : Flags → Flags → Flags
by_param named flags = if is_no_mode named then resolve_modes flags else named

-- resolveRequestedModes
unfoldable pub resolve_requested_modes : (Bytes → Bytes) → Flags → Assoc Bytes → Flags
resolve_requested_modes tidy flags params = elim (lookup (text "modes") params) [
  | none ↦ resolve_modes flags
  | some s ↦ by_param (parse_modes_param tidy s) flags
]

-- permittedModes
unfoldable pub permitted_modes : Capability → Bytes → Flags
permitted_modes c channel subscribe = permits c channel (text "subscribe")
permitted_modes c channel presence_subscribe = permits c channel (text "subscribe")
permitted_modes c channel publish = permits c channel (text "publish")
permitted_modes c channel presence = permits c channel (text "presence")
permitted_modes c channel annotation_publish = permits c channel (text "annotation-publish")
permitted_modes c channel annotation_subscribe = permits c channel (text "annotation-subscribe")
permitted_modes c channel _ = false

-- What a repeated attach and a changed capability touch of an attachment.
pub record Attachment : Type 0 where
  pub requested_modes : Flags
  pub modes : Flags
  pub params : Assoc Bytes
  pub append_mode_full : Bool
  pub cur_serial : Bytes

abbrev pub wants_full : Assoc Bytes → Bool
wants_full params = elim (lookup (text "appendMode") params) [
  | none ↦ false
  | some mode ↦ bytes_eq mode (text "full")
]

-- newAttachment, of which the run has advertised `attach_point`
unfoldable pub new_attachment : Flags → Flags → Assoc Bytes → Bytes → Attachment
new_attachment requested effective params attach_point = record {
  requested_modes = requested;
  modes = effective;
  params = params;
  append_mode_full = wants_full params;
  cur_serial = attach_point;
}

-- applyReattach
unfoldable pub apply_reattach : Flags → Flags → Assoc Bytes → Attachment → Attachment
apply_reattach requested effective params a = record a {
  requested_modes = requested;
  modes = effective;
  params = params;
  append_mode_full = wants_full params;
}

-- recheckCapability
unfoldable pub recheck_capability : Flags → Attachment → Attachment
recheck_capability permitted a = record a { modes = both a.requested_modes permitted }

abbrev pub is_recognised : Bytes → Bool
is_recognised k =
    bytes_eq k (text "rewind")
    || bytes_eq k (text "modes")
    || bytes_eq k (text "delta")
    || bytes_eq k (text "appendMode")

abbrev pub recognised : Flags → Assoc Bytes → Assoc Bytes
recognised modes [] = []
recognised modes ((k, v) ∷ params) =
    let rest = recognised modes params in
    if is_recognised k
    then (k, if bytes_eq k (text "modes") then modes_param_string modes else v) ∷ rest
    else rest

-- echoParams; nil is the empty map.
unfoldable pub echo_params : Attachment → Assoc Bytes
echo_params a = recognised a.modes a.params
