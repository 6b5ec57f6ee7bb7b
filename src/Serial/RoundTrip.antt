-- ===== src/Serial/RoundTrip.antt =====
-- internal/serial/serial.go: writing serials and reading them.
use ably_server.Base.{
  ℕ, ◌^◌, ◌≤◌, ◌<◌, ◌≡◌, refl, ◌∷◌, ◌++◌, some, Bytes, pos, ok, arith, ltb, false, length, take,
  take-append, length-append, append_assoc, pad, digits, length-digits, pad-eq-digits,
  digits_value-pad, digits_value-digits, any-pad, length-pad_pos, atoi, atoi-eq-some, split_last,
  split_last-append, max_int64,
}
use ably_server.Serial.{
  Generator, mint, advance, format, message_serial, parse_message_serial, timestamp,
  timestamp_width,
}

-- A message serial parses to the channel serial and the index it was made of, whatever the channel
-- serial holds, for every index that an `int` holds.
pub parse_message_serial-message_serial :
    (cs : Bytes) (i : ℕ) → i ≤ max_int64 → parse_message_serial (message_serial cs i) ≡ ok (cs, i)
parse_message_serial-message_serial cs i h =
    let found : split_last b':' (cs ++ b':' ∷ pad 3 i) ≡ some (cs, pad 3 i) =
      split_last-append b':' cs (pad 3 i) (any-pad b':' 3 i refl) in
    let read : atoi (pad 3 i) ≡ some (pos i) =
      atoi-eq-some (pad 3 i) i (length-pad_pos 3 i) h (digits_value-pad 3 i) in
    unfold message_serial in
    unfold parse_message_serial in
    rw (found, parse_message_serial) (rw (read, parse_message_serial))

-- The leading digits of a text that begins with a timestamp of at most 14 digits.
timestamp-pad :
    (ts : ℕ) (rest : Bytes)
    → ts < 10 ^ timestamp_width
    → timestamp (pad timestamp_width ts ++ rest) ≡ ok (pos ts)
timestamp-pad ts rest h =
    let d : Bytes = digits timestamp_width ts in
    let e : pad timestamp_width ts ≡ d = pad-eq-digits 13 ts h in
    let taken : take timestamp_width (d ++ rest) ≡ d =
      take-append 14 d rest (length-digits 14 ts) in
    let read : atoi d ≡ some (pos ts) =
      atoi-eq-some d ts (omega (arith, length-digits 14 ts)) (omega arith)
        (digits_value-digits 14 ts h) in
    let long : ltb (length (d ++ rest)) timestamp_width ≡ false =
      ground (arith, length-append d rest, length-digits 14 ts) in
    rw e (unfold timestamp in rw (long, taken, timestamp) (rw (read, timestamp)))

-- The timestamp of a freshly minted channel serial, and of every message serial made from it, is
-- the generator's clock after the call, while that clock has at most 14 digits.
pub timestamp-mint :
    (g : Generator) (now i : ℕ)
    → (mint g now).1.last_ts < 10 ^ timestamp_width
    → (timestamp (mint g now).0 ≡ ok (pos (mint g now).1.last_ts))
      × (timestamp (message_serial (mint g now).0 i) ≡ ok (pos (mint g now).1.last_ts))
unfolding mint format message_serial
timestamp-mint g now i h =
    let g' : Generator = advance g now in
    let tail : Bytes = b'-' ∷ (pad 3 g'.last_counter ++ b'@' ∷ g'.series_id) in
    (
      timestamp-pad g'.last_ts tail h,
      rw (append_assoc (pad 14 g'.last_ts) tail (b':' ∷ pad 3 i))
          (timestamp-pad g'.last_ts (tail ++ b':' ∷ pad 3 i) h),
    )
