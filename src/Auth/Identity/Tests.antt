-- ===== src/Auth/Identity/Tests.antt =====
-- internal/auth/auth.go: client ids on concrete input.
use ably_server.Base.{◌≡◌, ◌↔◌, ◌⊎◌, refl, true, false, [], none, some, Bytes, text, bytes_eq}
use ably_server.Storage.{is_blank}
use ably_server.Auth.Capability.{allow_all}
use ably_server.Auth.Identity.{
  Principal, method_token, resolve_client_id, resolve_claim, message_client_id, presence_client_id,
  IsConcrete, SpeaksFor, message_client_id-resolve_client_id,
}

-- A token for any client.
abbrev roaming : Principal
roaming = record {
  method = method_token;
  capability_text = [];
  client_id = text "*";
  has_client_id = true;
  capability = allow_all;
  expires_at = some 9;
}

stamped_as_chosen :
    (resolve_client_id roaming [] ≡ some (text "*"))
    × (message_client_id (text "*") (text "ann") ≡ some (text "ann"))
    × (presence_client_id (text "*") [] ≡ none)
unfolding resolve_client_id resolve_claim message_client_id presence_client_id bytes_eq
stamped_as_chosen = (refl, refl, refl)

message_client_id-resolve_client_id_example :
    ((s : Bytes)
      → message_client_id (text "*") (text "ann") ≡ some s
      → ((s ≡ []) ⊎ (IsConcrete s × SpeaksFor roaming s)) × (IsConcrete [] → s ≡ []))
    × ((s : Bytes)
        → (presence_client_id (text "*") (text "ann") ≡ some s)
          ↔ ((message_client_id (text "*") (text "ann") ≡ some s) × (is_blank s ≡ false)))
message_client_id-resolve_client_id_example =
    message_client_id-resolve_client_id roaming [] (text "*") (text "ann") stamped_as_chosen.0
