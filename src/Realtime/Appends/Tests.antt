-- ===== src/Realtime/Appends/Tests.antt =====
-- internal/realtime/attachment.go on concrete input.
use ably_server.Base.{
  ◌≡◌, refl, true, false, [], ◌∷◌, none, some, Bytes, pos, text, get_elem?, bytes_eq,
}
use ably_server.Protocol.{Message, Delta, message_update, message_append, string, has_append_delta}
use ably_server.Realtime.Appends.{
  Delivered, full, delta, Fits, resolve_appends, resolve_appends-Fits, has_unseen, deliver_each,
  deliver_one, strip,
}

abbrev append_of : Bytes → Delta
append_of t = record {
  serial = text "m";
  action = message_append;
  client_id = [];
  connection_id = [];
  name = [];
  timestamp = pos 0;
  payload = string t;
  encoding = [];
  extras = none;
  version = none;
}

abbrev aggregate : Message
aggregate = record {
  id = [];
  serial = text "m";
  action = message_update;
  client_id = [];
  connection_id = [];
  connection_key = [];
  name = [];
  payload = string (text "hello");
  encoding = [];
  extras = none;
  timestamp = pos 0;
  version = none;
  summary = [];
  alt = some (append_of (text "lo"));
}

first_is_full :
    ((resolve_appends false false [] (aggregate ∷ [])).0 ≡ full (strip aggregate) ∷ [])
    × ((resolve_appends false false (text "m" ∷ []) (aggregate ∷ [])).0
        ≡ delta (append_of (text "lo")) ∷ [])
    × ((resolve_appends false true (text "m" ∷ []) (aggregate ∷ [])).0
        ≡ full (strip aggregate) ∷ [])
unfolding resolve_appends has_unseen deliver_each deliver_one has_append_delta bytes_eq
first_is_full = (refl, refl, refl)

resolve_appends-Fits_example :
    (v : Delivered) × (get_elem? (resolve_appends false false (text "m" ∷ []) (aggregate ∷ [])).0 0
      ≡ some v)
    × Fits false false (text "m" ∷ []) aggregate v
resolve_appends-Fits_example =
    resolve_appends-Fits false false (text "m" ∷ []) (aggregate ∷ []) 0 aggregate refl
