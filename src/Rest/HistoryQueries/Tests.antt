-- ===== src/Rest/HistoryQueries/Tests.antt =====
-- internal/rest/server.go on concrete input.
use ably_server.Base.{
  ◌≡◌, ◌≤◌, refl, false, true, some, [], ◌∷◌, Bytes, text, length, Assoc, lookup, bytes_eq, atoi,
  err,
}
use ably_server.Serial.{new_generator}
use ably_server.Storage.Pages.{kind_message, HistoryQuery}
use ably_server.Memory.{new_channel_store}
use ably_server.Memory.History.{collapsed_history}
use ably_server.Memory.History.Walk.{page_items}
use ably_server.Rest.HistoryQueries.{
  bad_limit, parse_direction, parse_time, parse_limit, parse_history_query, message_history,
  parse_history_query-bounds,
}

abbrev values : Assoc Bytes
values = (text "limit", text "25") ∷ (text "direction", text "forwards") ∷ []

abbrev parsed : HistoryQuery
parsed = record {
  kind = kind_message;
  forwards = true;
  start = 0;
  end = 0;
  cursor = [];
  after_channel_serial = [];
  end_channel_serial = [];
  limit = 25;
  collapse = false;
}

too_many : parse_limit (text "1001") ≡ err bad_limit
unfolding parse_limit atoi bytes_eq
too_many = refl

parse_history_query-bounds_example :
    (1 ≤ 25)
    × (25 ≤ 1000)
    × (length (
          page_items kind_message
            (collapsed_history
              (message_history parsed)
              (new_channel_store (new_generator (text "s")) (some []))).channel_messages)
        ≤ 25)
unfolding parse_history_query parse_direction parse_time parse_limit atoi lookup bytes_eq
parse_history_query-bounds_example =
    parse_history_query-bounds values parsed
      (new_channel_store (new_generator (text "s")) (some [])) refl
