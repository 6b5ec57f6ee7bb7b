-- ===== src/Realtime/Connection/Tests.antt =====
-- internal/realtime/connection.go and reauth.go on concrete input.
use ably_server.Base.{
  arith, ◌≡◌, refl, true, false, List, [], ◌∷◌, none, some, pos, text, bytes_eq, split,
  split_pieces, lookup, insert, delete, ok,
}
use ably_server.Core.Name.{valid_channel_name, has_line_break, breaks_at, is_reserved}
use ably_server.Protocol.{string, message_create, Message, is_mutation}
use ably_server.Auth.Capability.{
  Capability, permits, match_resource, parse_resource, qualifier_matches, paths_match,
}
use ably_server.Auth.Identity.{
  Principal, method_token, resolve_client_id, resolve_claim, message_client_id,
}
use ably_server.Realtime.Modes.{
  default_modes, mode_mask, resolve_modes, resolve_requested_modes, permitted_modes,
  recheck_capability, new_attachment,
}
use ably_server.Realtime.Stamping.{accept_msg_serial, stamp_messages}
use ably_server.Realtime.Connection.{
  channel_error, connected, messages, Connection, Received, attach_frame, auth_frame, message_frame,
  new_connection, dispatch, dispatch_all, handle_attach, handle_auth, reconcile, reconcile_one,
  leave_channel, message_task,
}
use ably_server.Realtime.Connection.Invariant.{IsSound}
use ably_server.Realtime.Connection.Frames.{dispatch_all-new_connection}

abbrev said : Message
said = record {
  id = [];
  serial = [];
  action = message_create;
  client_id = [];
  connection_id = [];
  connection_key = [];
  name = [];
  payload = string (text "a");
  encoding = [];
  extras = none;
  timestamp = pos 0;
  version = none;
  summary = [];
  alt = none;
}

abbrev token : Capability → Principal
token capability = record {
  method = method_token;
  capability_text = [];
  client_id = text "ann";
  has_client_id = true;
  capability = capability;
  expires_at = some 9;
}

abbrev all_news : Principal
all_news = token ((text "news", text "*" ∷ []) ∷ [])

abbrev no_news : Principal
no_news = token ((text "sport", text "*" ∷ []) ∷ [])

-- Attaching, publishing, and then a token that does not permit the channel.
abbrev frames : List Received
frames =
    attach_frame true (text "s") (text "news") (λ f. false) []
    ∷ message_frame 0 (text "news") (said ∷ [])
    ∷ auth_frame (text "t") (ok no_news)
    ∷ []

abbrev fresh : Connection
fresh = new_connection (text "c") (text "ann") all_news

dispatch_all-new_connection_example :
    IsSound (dispatch_all (λ s. s) frames (new_connection (text "c") (text "ann") all_news))
    × ((dispatch_all (λ s. s) frames (new_connection (text "c") (text "ann") all_news)).id
        ≡ text "c")
    × ((dispatch_all (λ s. s) frames (new_connection (text "c") (text "ann") all_news)).client_id
        ≡ text "ann")
dispatch_all-new_connection_example =
    dispatch_all-new_connection (λ s. s) frames (text "c") (text "ann") all_news
      (tt, (omega arith, (tt, tt)))

abbrev stamped : List Message
stamped = record said { client_id = text "ann"; connection_id = text "c" } ∷ []

handed_over : message_task (text "news") (said ∷ []) fresh ≡ messages (text "news") stamped
unfolding message_task stamp_messages message_client_id valid_channel_name has_line_break breaks_at
    is_reserved is_mutation permits match_resource parse_resource qualifier_matches paths_match
    split split_pieces lookup new_connection bytes_eq
handed_over = refl

-- The new token fails the channel and is adopted.
narrowed :
    (dispatch_all (λ s. s) frames fresh).sent
    ≡ connected (text "c") ∷ channel_error (text "news") 40160 ∷ []
unfolding dispatch_all dispatch handle_attach handle_auth reconcile reconcile_one leave_channel
    valid_channel_name has_line_break breaks_at is_reserved resolve_requested_modes resolve_modes
    default_modes mode_mask permitted_modes recheck_capability new_attachment message_task
    accept_msg_serial permits match_resource parse_resource qualifier_matches paths_match split
    split_pieces resolve_client_id resolve_claim lookup insert delete new_connection bytes_eq
narrowed = refl
