-- ===== src/Realtime/Stamping.antt =====
-- internal/realtime/connection.go and presence.go: the gate on message serials, how the messages and
-- members of a frame are stamped, and the set of members that a connection has entered.
use ably_server.Base.{
  max_int64, ℕ, zero, ◌+◌, Bool, true, false, ◌||◌, List, [], ◌∷◌, ◌++◌, Option, none, some, Bytes,
  if◌then◌else◌, leb, bytes_eq, itoa, ℤ, pos, negsuc, Assoc, lookup, insert, delete,
}
use ably_server.Storage.{is_blank}
use ably_server.Protocol.{Message, PresenceMessage, PresenceAction}
use ably_server.Memory.{is_departure}
use ably_server.Auth.Identity.{message_client_id, presence_client_id}

abbrev pub is_first : ℤ → Bool
is_first (negsuc zero) = true
is_first _ = false

-- serial >= last+1, where the sum is the least int64 if `last` is the largest.
abbrev pub is_after : ℤ → ℕ → Bool
is_after (pos last) serial = leb max_int64 last || leb (last + 1) serial
is_after (negsuc last) serial = true

-- acceptMsgSerial, of serials that are not negative
unfoldable pub accept_msg_serial : ℕ → ℤ → Bool
accept_msg_serial serial last = is_first last || is_after last serial

-- Every message with its client id and the connection's id, unless one asserts another's identity.
unfoldable pub stamp_messages : Bytes → Bytes → List Message → Option (List Message)
stamp_messages client_id id [] = some []
stamp_messages client_id id (m ∷ ms) = elim (message_client_id client_id m.client_id) [
  | none ↦ none
  | some cid ↦ elim (stamp_messages client_id id ms) [
    | none ↦ none
    | some stamped ↦ some (record m { client_id = cid; connection_id = id } ∷ stamped)
  ]
]

abbrev pub is_empty_list : {A : Type 0} → List A → Bool
is_empty_list [] = true
is_empty_list (x ∷ xs) = false

-- presenceID
abbrev pub presence_id : Bytes → ℕ → ℕ → Bytes
presence_id id serial i = id ++ b':' ∷ (itoa serial ++ b':' ∷ itoa i)

unfoldable pub stamp_entries :
    Bytes → Bytes → ℕ → ℕ → List PresenceMessage → Option (List PresenceMessage)
stamp_entries client_id id serial i [] = some []
stamp_entries client_id id serial i (p ∷ ps) = elim (presence_client_id client_id p.client_id) [
  | none ↦ none
  | some cid ↦ elim (stamp_entries client_id id serial (i + 1) ps) [
    | none ↦ none
    | some stamped ↦ some (
        record p {
          client_id = cid;
          connection_id = id;
          id = if is_blank p.id then presence_id id serial i else p.id;
        }
        ∷ stamped)
  ]
]

abbrev pub without : Bytes → List Bytes → List Bytes
without s [] = []
without s (t ∷ ts) = let rest = without s ts in if bytes_eq t s then rest else t ∷ rest

abbrev pub set_entered : Bytes → List Bytes → Assoc (List Bytes) → Assoc (List Bytes)
set_entered name [] entered = delete name entered
set_entered name (m ∷ ms) entered = insert name (m ∷ ms) entered

abbrev pub members_of : Option (List Bytes) → List Bytes
members_of none = []
members_of (some ms) = ms

-- recordPresence
unfoldable pub record_presence :
    Bytes → Bytes → PresenceAction → Assoc (List Bytes) → Assoc (List Bytes)
record_presence name client_id action entered =
    let others = without client_id (members_of (lookup name entered)) in
    if is_departure action
    then set_entered name others entered
    else insert name (client_id ∷ others) entered

abbrev pub record_all : Bytes → List PresenceMessage → Assoc (List Bytes) → Assoc (List Bytes)
record_all name [] entered = entered
record_all name (p ∷ ps) entered =
    record_all name ps (record_presence name p.client_id p.action entered)
