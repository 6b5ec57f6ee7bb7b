-- ===== src/Realtime/Replay/Tests.antt =====
-- internal/realtime/attachment.go: replays on concrete input.
use ably_server.Base.{
  ◌≡◌, refl, true, false, List, [], ◌∷◌, none, some, Bytes, pos, text, arith, bytes_eq, lex_lt,
  lookup, length, atoi, cut_suffix, pad, itoa,
}
use ably_server.Serial.{new_generator, format, timestamp_bounds}
use ably_server.Protocol.{string, message_create, Message, ChannelMessage}
use ably_server.Storage.Pages.{kind_message, HistoryPage, passes}
use ably_server.Memory.{ChannelStore, new_channel_store}
use ably_server.Memory.Invariant.{IsConsistent}
use ably_server.Memory.History.{raw_history, walk, put_item, lower_index, upper_index}
use ably_server.Memory.History.Walk.{page_items}
use ably_server.Memory.History.Bounds.{is_between}
use ably_server.Realtime.Replay.{
  Replay, rewind_count, parse_rewind, backwards_query, compute_resume_replay,
}
use ably_server.Realtime.Replay.Gaps.{missed}
use ably_server.Realtime.Replay.Resuming.{
  compute_resume_replay-missed, compute_resume_replay-incomplete,
}

abbrev said : Bytes → Message
said s = record {
  id = [];
  serial = s;
  action = message_create;
  client_id = [];
  connection_id = [];
  connection_key = [];
  name = [];
  payload = string (text "a");
  encoding = [];
  extras = none;
  timestamp = pos 0;
  version = none;
  summary = [];
  alt = none;
}

abbrev entry : Bytes → List Message → ChannelMessage
entry s ms = record { id = []; channel_serial = s; messages = ms; presence = []; annotations = [] }

-- A log of one message and then a batch of three.
abbrev log : ChannelStore
log = record (new_channel_store (new_generator (text "s")) none) {
  order = text "0" ∷ text "00" ∷ [];
  by_cs =
      (text "0", entry (text "0") (said (text "0:0") ∷ []))
      ∷ (
        text "00",
        entry (text "00") (said (text "00:0") ∷ said (text "00:1") ∷ said (text "00:2") ∷ []),
      )
      ∷ [];
}

log-IsConsistent : IsConsistent log
unfolding new_channel_store format pad itoa lookup lex_lt bytes_eq
log-IsConsistent = record {
  generator = record { counter = omega arith; clock = omega arith };
  sorted = ((refl, tt), (tt, tt));
  below = (refl, (refl, tt));
  stored = (
    (entry (text "0") (said (text "0:0") ∷ []), refl, refl),
    (
      (
        entry (text "00") (said (text "00:0") ∷ said (text "00:1") ∷ said (text "00:2") ∷ []),
        refl,
        refl,
      ),
      tt,
    ),
  );
  indexed = λ id s h. absurd (ground (arith, h));
  delivered = λ received h. absurd (ground (arith, h));
}

missed_by_client : length (missed (text "/") (text "00") log) ≡ 4
unfolding is_between timestamp_bounds bytes_eq lex_lt lookup passes
missed_by_client = refl

compute_resume_replay-missed_example :
    (r : Replay) × (compute_resume_replay false 1000 (text "00") (text "/") log ≡ some r)
    × (page_items kind_message r.replay ≡ missed (text "/") (text "00") log)
    × (r.resumed ≡ true)
    × (r.error ≡ none)
    × (r.attach_point ≡ text "/")
unfolding bytes_eq
compute_resume_replay-missed_example =
    compute_resume_replay-missed 1000 (text "00") (text "/") log log-IsConsistent refl
      (omega (arith, missed_by_client))

-- The page that a cap of one message leads to: of the batch, the newest two.
abbrev newest : HistoryPage
newest = record {
  channel_messages = entry (text "00") (said (text "00:2") ∷ said (text "00:1") ∷ []) ∷ [];
  has_more = true;
}

reads_newest : raw_history (backwards_query 0 (text "00") 2) log ≡ some newest
unfolding raw_history lower_index upper_index walk put_item timestamp_bounds bytes_eq lex_lt lookup
    passes new_channel_store
reads_newest = refl

compute_resume_replay-incomplete_example :
    (r : Replay) × (compute_resume_replay false 1 (text "00") (text "/") log ≡ some r)
    × (r.resumed ≡ true)
    × (r.error ≡ none)
    × (length (page_items kind_message r.replay) ≡ 2)
unfolding bytes_eq
compute_resume_replay-incomplete_example =
    compute_resume_replay-incomplete 1 (text "00") (text "/") log newest log-IsConsistent refl
      (omega (arith, missed_by_client)) reads_newest (omega arith)

last_five : parse_rewind (λ s unit. none) (text "5") ≡ some (rewind_count 5)
unfolding parse_rewind cut_suffix atoi bytes_eq
last_five = refl
