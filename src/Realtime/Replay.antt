-- ===== src/Realtime/Replay.antt =====
-- internal/realtime/attachment.go: `computeReplay`, what an attach replays before it goes live;
-- internal/realtime/rewind.go: `ParseRewind`. The store is the memory backend's channel, and a history
-- read that would panic there gives no replay. strconv.ParseFloat and the float arithmetic on it are
-- a parameter: `scale` gives, for a text and a unit, whether the number is positive and the product
-- in nanoseconds.
pub mod Pages
pub mod Gaps
pub mod Parts
pub mod Resuming
mod Tests
use ably_server.Base.{
  ℕ, zero, suc, ◌+◌, ◌-◌, ◌/◌, ◌≡◌, Bool, true, false, not, ◌&&◌, List, [], ◌∷◌, ◌++◌, Option, none,
  some, Bytes, text, if◌then◌else◌, ltb, leb, lex_lt, bytes_eq, length, take, ℤ, pos, negsuc, atoi,
  cut_suffix, Result, ok, err, get_elem?,
}
use ably_server.Protocol.{ChannelMessage}
use ably_server.Storage.{StorageError, is_blank}
use ably_server.Storage.Pages.{Kind, kind_message, HistoryQuery, HistoryPage, reversed}
use ably_server.Memory.{ChannelStore}
use ably_server.Memory.History.{history}

pub data Rewind : Type 0 where
  rewind_none : Rewind
  rewind_count : ℕ → Rewind
  rewind_duration : ℤ → Rewind

pub data ReplayError : Type 0 where
  history_failed truncated invalid_rewind : ReplayError

pub record Replay : Type 0 where
  pub replay : List ChannelMessage
  pub attach_point : Bytes
  pub resumed : Bool
  pub error : Option ReplayError

abbrev positive_scale : Option (Bool × ℤ) → Option Rewind
positive_scale none = none
positive_scale (some (true, d)) = some (rewind_duration d)
positive_scale (some (false, d)) = none

abbrev positive_count : Option ℤ → Option Rewind
positive_count (some (pos (suc n))) = some (rewind_count (suc n))
positive_count _ = none

-- ParseRewind; `none` is an error.
unfoldable pub parse_rewind : (Bytes → ℕ → Option (Bool × ℤ)) → Bytes → Option Rewind
unfolding cut_suffix
parse_rewind scale [] = some rewind_none
parse_rewind scale (c ∷ cs) = elim (cut_suffix (c ∷ cs) (text "s")) [
  | some number ↦ positive_scale (scale number 1000000000)
  | none ↦ elim (cut_suffix (c ∷ cs) (text "m")) [
    | some number ↦ positive_scale (scale number 60000000000)
    | none ↦ positive_count (atoi (c ∷ cs))
  ]
]

-- From the newest entry to the oldest one that fits.
abbrev pub backwards_query : ℕ → Bytes → ℕ → HistoryQuery
backwards_query start anchor limit = record {
  kind = kind_message;
  forwards = false;
  start = start;
  end = 0;
  cursor = [];
  after_channel_serial = [];
  end_channel_serial = anchor;
  limit = limit;
  collapse = false;
}

abbrev pub normalised : ChannelMessage → ChannelMessage
normalised cm = record cm { messages = reversed cm.messages }

abbrev pub all_normalised : List ChannelMessage → List ChannelMessage
all_normalised [] = []
all_normalised (cm ∷ cms) = normalised cm ∷ all_normalised cms

-- reverseAndNormalise
unfoldable pub reverse_and_normalise : List ChannelMessage → List ChannelMessage
reverse_and_normalise cms = reversed (all_normalised cms)

-- The entries before the first one that is not past the client's cursor, and whether there is one.
unfoldable pub newer : Bytes → List ChannelMessage → List ChannelMessage × Bool
newer resume_from [] = ([], false)
newer resume_from (cm ∷ cms) =
    let (rest, found) = newer resume_from cms in
    if lex_lt resume_from cm.channel_serial then (cm ∷ rest, found) else ([], true)

-- What computeResumeReplay makes of the entries that it has read.
unfoldable pub resume_with : (replay_cap : ℕ) → Bytes → List ChannelMessage → Replay
resume_with replay_cap resume_from cms =
    if (newer resume_from cms).1
    then record {
      replay = reverse_and_normalise (newer resume_from cms).0;
      attach_point = resume_from;
      resumed = true;
      error = none;
    }
    else if leb (length cms) replay_cap
    then record {
      replay = reverse_and_normalise cms;
      attach_point = resume_from;
      resumed = true;
      error = none;
    }
    else record {
      replay = reverse_and_normalise (take replay_cap cms);
      attach_point = resume_from;
      resumed = false;
      error = some truncated;
    }

unfoldable pub by_resume_page : ℕ → Bytes → Result StorageError (Option HistoryPage) → Option Replay
by_resume_page replay_cap resume_from (err e) = some (record {
  replay = [];
  attach_point = resume_from;
  resumed = false;
  error = some history_failed;
})
by_resume_page replay_cap resume_from (ok none) = none
by_resume_page replay_cap resume_from (ok (some page)) =
    some (resume_with replay_cap resume_from page.channel_messages)

abbrev pub nothing_at : Bytes → Bool → Option ReplayError → Replay
nothing_at attach_point resumed error = record {
  replay = [];
  attach_point = attach_point;
  resumed = resumed;
  error = error;
}

-- computeResumeReplay; `done` is whether the attachment's context has ended.
unfoldable pub compute_resume_replay :
    (done : Bool) (replay_cap : ℕ) → Bytes → Bytes → ChannelStore → Option Replay
compute_resume_replay done replay_cap anchor resume_from cs =
    if bytes_eq resume_from anchor
    then some (nothing_at resume_from true none)
    else by_resume_page replay_cap resume_from
        (history done (backwards_query 0 anchor (replay_cap + 1)) cs)

abbrev pub is_over : ℕ → Rewind → Bool
is_over replay_cap rewind_none = false
is_over replay_cap (rewind_count n) = ltb replay_cap n
is_over replay_cap (rewind_duration d) = true

-- The oldest entry is where the window attaches, if there is one more than are delivered.
unfoldable pub rewind_with : ℕ → Rewind → (cap_limit : ℕ) → Bytes → List ChannelMessage → Replay
rewind_with replay_cap mode cap_limit initial cms = elim (get_elem? cms cap_limit) [
  | none ↦ record {
    replay = reverse_and_normalise cms;
    attach_point = initial;
    resumed = false;
    error = none;
  }
  | some before ↦ record {
    replay = reverse_and_normalise (take cap_limit cms);
    attach_point = before.channel_serial;
    resumed = false;
    error = if is_over replay_cap mode then some truncated else none;
  }
]

unfoldable pub by_rewind_page :
    ℕ → Rewind → ℕ → Bytes → Bytes → Result StorageError (Option HistoryPage) → Option Replay
by_rewind_page replay_cap mode cap_limit initial anchor (err e) =
    some (nothing_at anchor false (some history_failed))
by_rewind_page replay_cap mode cap_limit initial anchor (ok none) = none
by_rewind_page replay_cap mode cap_limit initial anchor (ok (some page)) =
    some (rewind_with replay_cap mode cap_limit initial page.channel_messages)

-- max(nowMs - dur.Milliseconds(), 1)
abbrev pub start_of : ℕ → ℤ → ℕ
start_of now (pos d) = if ltb (now - d / 1000000) 1 then 1 else now - d / 1000000
start_of now (negsuc d) = now + suc d / 1000000

unfoldable pub by_mode :
    (done : Bool) (replay_cap now : ℕ)
    → Bytes
    → Bytes
    → Option Rewind
    → ChannelStore
    → Option Replay
by_mode done replay_cap now initial anchor none cs =
    some (nothing_at anchor false (some invalid_rewind))
by_mode done replay_cap now initial anchor (some rewind_none) cs =
    some (nothing_at anchor false none)
by_mode done replay_cap now initial anchor (some (rewind_count n)) cs =
    let cap_limit = if ltb n replay_cap then n else replay_cap in
    by_rewind_page replay_cap (rewind_count n) cap_limit initial anchor
      (history done (backwards_query 0 anchor (cap_limit + 1)) cs)
by_mode done replay_cap now initial anchor (some (rewind_duration d)) cs =
    by_rewind_page replay_cap (rewind_duration d) replay_cap initial anchor
      (history done (backwards_query (start_of now d) anchor (replay_cap + 1)) cs)

-- computeRewindReplay; `now` is the clock in milliseconds, `initial` the channel's initial serial.
unfoldable pub compute_rewind_replay :
    (scale : Bytes → ℕ → Option (Bool × ℤ)) (done : Bool) (replay_cap now : ℕ)
    → Bytes
    → Bytes
    → Bytes
    → ChannelStore
    → Option Replay
compute_rewind_replay scale done replay_cap now initial anchor param cs =
    by_mode done replay_cap now initial anchor (parse_rewind scale param) cs

-- computeReplay
unfoldable pub compute_replay :
    (scale : Bytes → ℕ → Option (Bool × ℤ)) (done : Bool) (replay_cap now : ℕ)
    → Bytes
    → Bytes
    → (resume_from rewind_param : Bytes) → ChannelStore
    → Option Replay
compute_replay scale done replay_cap now initial anchor resume_from rewind_param cs =
    if not (is_blank resume_from)
    then compute_resume_replay done replay_cap anchor resume_from cs
    else if not (is_blank rewind_param)
    then compute_rewind_replay scale done replay_cap now initial anchor rewind_param cs
    else some (nothing_at anchor false none)
