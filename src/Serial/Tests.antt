-- ===== src/Serial/Tests.antt =====
-- internal/serial/serial.go on concrete input.
use ably_server.Base.{
  ℕ, ◌≡◌, refl, true, List, [], ◌∷◌, arith, ok, err, text, itoa, atoi, lex_lt, pad, split_last,
}
use ably_server.Serial.{
  Generator, new_generator, restore, advance, mint, mint_all, format, message_serial,
  parse_message_serial, timestamp, no_colon, non_integer_idx, negative_idx, too_short,
  non_numeric_timestamp,
}
use ably_server.Serial.Order.{IsValid, Ascending, mint_all-Ascending, message_serial_overflow}
use ably_server.Serial.RoundTrip.{parse_message_serial-message_serial}

abbrev busy : Generator
busy = record { series_id = text "0a1b2c3d4e"; last_ts = 1700000000000; last_counter = 998 }

abbrev full : Generator
full = record { series_id = text "0a1b2c3d4e"; last_ts = 1700000000000; last_counter = 999 }

busy-IsValid : IsValid busy
busy-IsValid = omega arith

full-IsValid : IsValid full
full-IsValid = omega arith

mint_wraps : (mint full 1699999999999).0 ≡ text "01700000000001-000@0a1b2c3d4e"
unfolding mint advance format pad itoa
mint_wraps = refl

restored : (mint (restore (new_generator (text "s")) 5 7) 5).0 ≡ text "00000000000005-008@s"
unfolding mint advance format pad itoa restore
restored = refl

parse_errors :
    (parse_message_serial (text "01-000@s") ≡ err no_colon)
    × (parse_message_serial (text "01-000@s:x") ≡ err non_integer_idx)
    × (parse_message_serial (text "01-000@s:-1") ≡ err negative_idx)
    × (parse_message_serial (text "a:b:12") ≡ ok (text "a:b", 12))
unfolding parse_message_serial split_last atoi
parse_errors = (refl, refl, refl, refl)

timestamp_errors :
    (timestamp (text "0170000000000") ≡ err too_short)
    × (timestamp (text "0170000000000x-000@s") ≡ err non_numeric_timestamp)
unfolding timestamp atoi
timestamp_errors = (refl, refl)

abbrev readings : List ℕ
readings = 1700000000000 ∷ 1699999999999 ∷ 1700000000001 ∷ []

mint_all-Ascending_example : Ascending (format busy) (mint_all busy readings)
mint_all-Ascending_example =
    mint_all-Ascending busy readings 1700000000001 busy-IsValid (omega arith) (omega arith)
      (omega arith)

message_serial_overflow_example :
    lex_lt (message_serial (text "cs") 1000) (message_serial (text "cs") 999) ≡ true
message_serial_overflow_example =
    message_serial_overflow (text "cs") 999 (omega arith) (omega arith)

parse_message_serial-message_serial_example :
    parse_message_serial (message_serial (text "a:b") 12) ≡ ok (text "a:b", 12)
parse_message_serial-message_serial_example =
    parse_message_serial-message_serial (text "a:b") 12 (omega arith)
