-- ===== src/Storage/Tests.antt =====
-- internal/storage/storage.go on concrete input.
use ably_server.Base.{
  List, false, true, arith, suc, length, lex_lt, bytes_eq, ◌≡◌, refl, [], ◌∷◌, ◌++◌, none, Bytes,
  pos, text, ok, err,
}
use ably_server.Protocol.{
  message_update, absent, Payload, string, binary, MessageAction, message_create, message_append,
  Message, has_append_delta,
}
use ably_server.Storage.{
  version_serial_of, invalid_message_id, incompatible_append, stamp_message_ids, message_base_id,
  scan_ids, merge_version, concat_data, collapse_append_versions,
}
use ably_server.Storage.Pages.{
  kind_message, HistoryQuery, scanned, paginate_versions, emit_all, passes,
}
use ably_server.Storage.Pages.Reading.{read_pages, read_pages-all}
use ably_server.Storage.Versions.{
  merge_all, none_left, one_more, concat, merge_all-Appends, kept, collapse_append_versions_lem,
}

-- A message of one action and payload, with an id.
abbrev message : MessageAction → Bytes → Payload → Message
message action id payload = record {
  id = id;
  serial = text "01700000000000-000@s:0";
  action = action;
  client_id = text "alice";
  connection_id = [];
  connection_key = [];
  name = [];
  payload = payload;
  encoding = [];
  extras = none;
  timestamp = pos 0;
  version = none;
  summary = [];
  alt = none;
}

abbrev unnamed : Message
unnamed = message message_create [] (string (text "a"))

abbrev first : Message
first = message message_create (text "x:0") (string (text "a"))

abbrev second : Message
second = message message_create (text "x:1") (string (text "b"))

abbrev hello : Message
hello = message message_create [] (string (text "hel"))

abbrev more : Message
more = message message_append [] (string (text "lo"))

gap_is_refused : stamp_message_ids (text "fresh") (first ∷ unnamed ∷ []) ≡ err invalid_message_id
unfolding stamp_message_ids message_base_id scan_ids bytes_eq
gap_is_refused = refl

mixed_append_is_refused :
    merge_version hello (message message_append [] (binary (text "lo"))) (text "s")
    ≡ err incompatible_append
unfolding merge_version concat_data bytes_eq
mixed_append_is_refused = refl

abbrev edited : Message
edited = elim (merge_version hello more (text "01700000000001-000@s:0")) [
  | ok v ↦ v
  | err e ↦ hello
]

merge_all-Appends_example :
    (v : Message) × (merge_all hello ((more, text "s1") ∷ (more, text "s2") ∷ []) ≡ ok v)
    × (v.payload ≡ string (text "hel" ++ concat (text "lo" ∷ text "lo" ∷ [])))
merge_all-Appends_example =
    merge_all-Appends hello (text "hel") ((more, text "s1") ∷ (more, text "s2") ∷ [])
      (text "lo" ∷ text "lo" ∷ []) refl (one_more refl refl (one_more refl refl none_left))

collapse_append_versions_lem_example :
    (collapse_append_versions (hello ∷ edited ∷ edited ∷ hello ∷ [])
      ≡ collapse_append_versions (hello ∷ []) ++ edited ∷ collapse_append_versions (hello ∷ []))
    × (kept (collapse_append_versions (hello ∷ edited ∷ edited ∷ hello ∷ []))
        ≡ kept (hello ∷ edited ∷ edited ∷ hello ∷ []))
unfolding has_append_delta merge_version concat_data bytes_eq
collapse_append_versions_lem_example =
    collapse_append_versions_lem (hello ∷ []) (edited ∷ []) (hello ∷ []) edited refl (refl, tt) refl
      refl

abbrev version : Bytes → Message
version s = record (message message_update [] absent) { serial = s }

abbrev history : List Message
history = version (text "a") ∷ version (text "b") ∷ version (text "c") ∷ []

abbrev by_two : HistoryQuery
by_two = record {
  kind = kind_message;
  forwards = false;
  start = 0;
  end = 0;
  cursor = [];
  after_channel_serial = [];
  end_channel_serial = [];
  limit = 2;
  collapse = false;
}

first_page : (paginate_versions history by_two).has_more ≡ true
unfolding paginate_versions emit_all passes version_serial_of
first_page = refl

read_pages-all_example :
    read_pages (suc (length (scanned by_two.forwards history))) by_two history
    ≡ scanned by_two.forwards history
unfolding version_serial_of lex_lt
read_pages-all_example =
    read_pages-all by_two history (omega arith) refl
      (refl, (refl, (refl, tt)), (refl, (refl, tt), (refl, tt, tt)))
