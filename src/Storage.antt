-- ===== src/Storage.antt =====
-- internal/storage/storage.go: what every backend shares.
pub mod MessageIds
pub mod Versions
pub mod Pages
mod Tests
use ably_server.Base.{
  ℕ, zero, suc, ◌+◌, Bool, true, false, not, ◌&&◌, ◌||◌, List, [], ◌∷◌, ◌++◌, Option, none, some,
  Bytes, ℤ, pos, itoa, text, if◌then◌else◌, ltb, bytes_eq, cut_suffix, Result, ok, err, ◌>>=◌,
  length, lex_lt,
}
use ably_server.Serial.{message_serial, parse_message_serial, timestamp}
use ably_server.Protocol.{
  Payload, absent, string, binary, json, MessageAction, message_create, message_update,
  message_delete, message_append, MessageVersion, Delta, Message, has_append_delta, PresenceMessage,
  ChannelMessage,
}

pub data StorageError : Type 0 where
  target_not_found incompatible_append invalid_message_id no_messages not_a_mutation no_target
        context_done :
      StorageError

abbrev pub is_blank : Bytes → Bool
is_blank s = bytes_eq s []

unfoldable pub member_key : Bytes → Bytes → Bytes
member_key connection_id client_id = connection_id ++ b':' ∷ client_id

-- The scan for ids: whether there are any; an empty one after another is an error.
unfoldable pub scan_ids : Bool → List Message → Result StorageError Bool
scan_ids has_id [] = ok has_id
scan_ids has_id (m ∷ ms) =
    let rest = scan_ids (has_id || not (is_blank m.id)) ms in
    if is_blank m.id && has_id then err invalid_message_id else rest

abbrev pub indexed_id : Bytes → ℕ → Bytes
indexed_id base i = base ++ b':' ∷ itoa i

-- The ids from index `i` on are "<base>:<i>".
unfoldable pub check_ids : Bytes → ℕ → List Message → Bool
check_ids base i [] = true
check_ids base i (m ∷ ms) = bytes_eq m.id (indexed_id base i) && check_ids base (i + 1) ms

trim_suffix : Bytes → Bytes → Bytes
trim_suffix s suffix = elim (cut_suffix s suffix) [ none ↦ s | some p ↦ p ]

base_of_batch : Bytes → List Message → Bool → Result StorageError (Bytes × Bool)
base_of_batch id0 rest false = ok ([], false)
base_of_batch id0 rest true = elim (cut_suffix id0 (text ":0")) [
  | none ↦ err invalid_message_id
  | some base ↦ if check_ids base 1 rest then ok (base, true) else err invalid_message_id
]

unfoldable pub message_base_id : List Message → Result StorageError (Bytes × Bool)
unfolding trim_suffix base_of_batch
message_base_id [] = ok ([], false)
message_base_id (m ∷ []) = ok (trim_suffix m.id (text ":0"), not (is_blank m.id))
message_base_id (m ∷ n ∷ ms) = scan_ids false (m ∷ n ∷ ms) >>= base_of_batch m.id (n ∷ ms)

unfoldable pub stamp_ids : Bytes → ℕ → List Message → List Message
stamp_ids base i [] = []
stamp_ids base i (m ∷ ms) = record m { id = indexed_id base i } ∷ stamp_ids base (i + 1) ms

stamp_missing : Bytes → List Message → Bytes × Bool → Result StorageError (Bytes × List Message)
stamp_missing fresh msgs (base, true) = ok (base, msgs)
stamp_missing fresh msgs (base, false) = ok (fresh, stamp_ids fresh 0 msgs)

-- StampMessageIDs; `fresh` is what id.NewMessageBaseID would return.
unfoldable pub stamp_message_ids : Bytes → List Message → Result StorageError (Bytes × List Message)
unfolding stamp_missing
stamp_message_ids fresh msgs = message_base_id msgs >>= stamp_missing fresh msgs

-- ts, _ := serial.Timestamp(s)
unfoldable pub timestamp_or_zero : Bytes → ℤ
timestamp_or_zero s = elim (timestamp s) [ ok v ↦ v | err e ↦ pos 0 ]

unfoldable pub stamp_create_version : Message → Message
stamp_create_version m = record m {
  timestamp = timestamp_or_zero m.serial;
  version = some (record {
    serial = m.serial;
    timestamp = timestamp_or_zero m.serial;
    client_id = m.client_id;
    description = [];
    metadata = none;
  });
}

unfoldable pub stamp_presence_member : PresenceMessage → Bytes → ℕ → PresenceMessage
stamp_presence_member p channel_serial idx = record p {
  serial = message_serial channel_serial idx;
  timestamp = timestamp_or_zero (message_serial channel_serial idx);
}

unfoldable pub concat_data : Payload → Payload → Result StorageError Payload
concat_data current absent = ok current
concat_data absent add = ok add
concat_data (string c) (string a) = ok (string (c ++ a))
concat_data (binary c) (binary a) = ok (binary (c ++ a))
concat_data _ _ = err incompatible_append

or_current : Bytes → Bytes → Bytes
or_current supplied current = if is_blank supplied then current else supplied

or_carried : Option Bytes → Option Bytes → Option Bytes
or_carried none current = current
or_carried (some x) current = some x

new_version : Message → Bytes → MessageVersion
new_version mut version_serial = record {
  serial = version_serial;
  timestamp = timestamp_or_zero version_serial;
  client_id = mut.client_id;
  description = elim mut.version [ none ↦ [] | some v ↦ v.description ];
  metadata = elim mut.version [ none ↦ none | some v ↦ v.metadata ];
}

append_delta : Message → Message → Bytes → Delta
unfolding or_current or_carried new_version
append_delta current mut version_serial = record {
  serial = current.serial;
  action = message_append;
  client_id = current.client_id;
  connection_id = current.connection_id;
  name = or_current mut.name current.name;
  timestamp = current.timestamp;
  payload = mut.payload;
  encoding = mut.encoding;
  extras = or_carried mut.extras current.extras;
  version = some (new_version mut version_serial);
}

-- The aggregate, of which the payload has been concatenated.
with_append : Message → Message → Bytes → Payload → Message
unfolding append_delta
with_append current mut version_serial concatenated = record current {
  extras = or_carried mut.extras current.extras;
  name = or_current mut.name current.name;
  action = message_update;
  payload = concatenated;
  encoding = or_current mut.encoding current.encoding;
  alt = some (append_delta current mut version_serial);
  version = some (new_version mut version_serial);
}

merge_append : Message → Message → Bytes → Result StorageError Message
unfolding with_append
merge_append current mut version_serial = do
  concatenated ← concat_data current.payload mut.payload
  ok (with_append current mut version_serial concatenated)

-- The payload and its encoding: both replaced by a supplied payload, both carried without one.
mixed_in : Payload → Bytes → Payload → Bytes → Payload × Bytes
mixed_in absent encoding current current_encoding = (current, current_encoding)
mixed_in supplied encoding current current_encoding = (supplied, encoding)

merge_fields : MessageAction → Message → Message → Bytes → Message
unfolding mixed_in or_current or_carried new_version
merge_fields action current mut version_serial =
    let (payload, encoding) = mixed_in mut.payload mut.encoding current.payload current.encoding in
    record current {
      extras = or_carried mut.extras current.extras;
      name = or_current mut.name current.name;
      action = action;
      payload = payload;
      encoding = encoding;
      alt = none;
      version = some (new_version mut version_serial);
    }

merge_by : MessageAction → Message → Message → Bytes → Result StorageError Message
unfolding merge_append merge_fields
merge_by message_append current mut s = merge_append current mut s
merge_by message_delete current mut s = ok (merge_fields message_delete current mut s)
merge_by _ current mut s = ok (merge_fields message_update current mut s)

-- MergeVersion
unfoldable pub merge_version : Message → Message → Bytes → Result StorageError Message
unfolding merge_by
merge_version current mut version_serial = merge_by mut.action current mut version_serial

starts_with_append : List Message → Bool
starts_with_append [] = false
starts_with_append (m ∷ ms) = has_append_delta m

unfoldable pub collapse_append_versions : List Message → List Message
unfolding starts_with_append
collapse_append_versions [] = []
collapse_append_versions (m ∷ ms) =
    let rest = collapse_append_versions ms in
    if has_append_delta m && starts_with_append ms then rest else m ∷ rest

unfoldable pub version_serial_of : Message → Bytes
version_serial_of m = elim m.version [
  | none ↦ m.serial
  | some v ↦ if is_blank v.serial then m.serial else v.serial
]

unfoldable pub create_channel_serial : Bytes → Bytes
create_channel_serial identity = elim (parse_message_serial identity) [
  | ok (cs, i) ↦ cs
  | err e ↦ identity
]
