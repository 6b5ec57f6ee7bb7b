-- ===== src/Serial.antt =====
-- internal/serial/serial.go: the sortable timeserials. The random series id and the clock are
-- arguments; the mutex makes each `mint` one step.
pub mod Order
pub mod RoundTrip
pub mod Bounds
mod Tests
use ably_server.Base.{
  ℕ, zero, suc, ◌+◌, ◌^◌, ◌≤◌, ◌<◌, Bool, true, false, List, [], ◌∷◌, ◌++◌, Option, none, some,
  Bytes, ℤ, pos, negsuc, ltb, ◌==◌, if◌then◌else◌, length, take, pad, atoi, split_last, max_int64,
  text, Result, ok, err,
}

abbrev pub timestamp_width : ℕ
timestamp_width = 14

abbrev pub counter_width : ℕ
counter_width = 3

abbrev pub idx_width : ℕ
idx_width = 3

abbrev pub max_counter : ℕ
max_counter = 999

pub record Generator : Type 0 where
  pub series_id : Bytes
  pub last_ts : ℕ
  pub last_counter : ℕ

abbrev pub new_generator : Bytes → Generator
new_generator series = record { series_id = series; last_ts = 0; last_counter = 0 }

unfoldable pub restore : Generator → ℕ → ℕ → Generator
restore g ts counter = record g { last_ts = ts; last_counter = counter }

-- The state that `Mint` leaves, for the clock reading `ts`.
unfoldable pub advance : Generator → ℕ → Generator
advance g ts =
    if ltb g.last_ts ts
    then record g { last_ts = ts; last_counter = 0 }
    else if ltb max_counter (g.last_counter + 1)
    then record g { last_ts = g.last_ts + 1; last_counter = 0 }
    else record g { last_counter = g.last_counter + 1 }

-- The text of a generator's last serial, "<ts>-<counter>@<series>".
unfoldable pub format : Generator → Bytes
format g =
    pad timestamp_width g.last_ts ++ b'-' ∷ (pad counter_width g.last_counter ++ b'@' ∷ g.series_id)

unfoldable pub mint : Generator → ℕ → Bytes × Generator
mint g now = (format (advance g now), advance g now)

unfoldable pub message_serial : Bytes → ℕ → Bytes
message_serial channel_serial idx = channel_serial ++ b':' ∷ pad idx_width idx

pub data SerialError : Type 0 where
  no_colon non_integer_idx negative_idx too_short non_numeric_timestamp : SerialError

checked_idx : Bytes → Option ℤ → Result SerialError (Bytes × ℕ)
checked_idx channel_serial none = err non_integer_idx
checked_idx channel_serial (some (pos n)) = ok (channel_serial, n)
checked_idx channel_serial (some (negsuc n)) = err negative_idx

unfoldable pub parse_message_serial : Bytes → Result SerialError (Bytes × ℕ)
unfolding checked_idx
parse_message_serial s = elim (split_last b':' s) [
  | none ↦ err no_colon
  | some (channel_serial, idx) ↦ checked_idx channel_serial (atoi idx)
]

unfoldable pub timestamp : Bytes → Result SerialError ℤ
timestamp s =
    if ltb (length s) timestamp_width
    then err too_short
    else elim (atoi (take timestamp_width s)) [ none ↦ err non_numeric_timestamp | some v ↦ ok v ]

-- fmt.Sprintf("%0*d", 14, end+1) of an int64: one past the largest is the smallest.
format_successor : ℕ → Bytes
format_successor end =
    if end == max_int64 then text "-9223372036854775808" else pad timestamp_width (end + 1)

-- The callers give bounds from 0 to `max_int64`; 0 is no bound.
unfoldable pub timestamp_bounds : ℕ → ℕ → Bytes × Bytes
unfolding format_successor
timestamp_bounds start end = (
  if ltb 0 start then pad timestamp_width start ++ b'-' ∷ [] else [],
  if ltb 0 end then format_successor end ++ b'-' ∷ [] else [],
)

-- The serials that a run of clock readings mints.
unfoldable pub mint_all : Generator → List ℕ → List Bytes
mint_all g [] = []
mint_all g (now ∷ nows) = let (s, g') = mint g now in s ∷ mint_all g' nows
