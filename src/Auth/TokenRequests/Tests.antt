-- ===== src/Auth/TokenRequests/Tests.antt =====
-- internal/auth/auth.go: token requests on concrete input.
use ably_server.Base.{
  ℕ, ◌+◌, ◌≡◌, ◌⊎◌, refl, [], ◌∷◌, none, some, Bytes, text, arith, bytes_eq, pos, Assoc, lookup, ok,
  err, cut,
}
use ably_server.Auth.Capability.{allow_all}
use ably_server.Auth.TokenRequests.{
  ApiKey, key_parts, TokenRequest, new_nonces, window, timestamp_not_current, nonce_replayed, reap,
  swept, record_nonce, is_current, check_timestamp, check_nonce, check_mac, validate_token_request,
  auth_error_info, invalid_ttl,
}
use ably_server.Auth.TokenRequests.Replays.{
  none_yet, another, validate_token_request-refused, validate_token_request-again,
}
use ably_server.Auth.TokenRequests.Lifetimes.{
  default_token_ttl, duration_of, validate_ttl, token_lifetime, validate_ttl_overflow,
}

abbrev key : ApiKey
key = record {
  app_id = text "app";
  key_id = text "k";
  key_secret = text "s";
  cap = allow_all;
  cap_raw = [];
  raw = text "app.k:s";
}

abbrev keys : Assoc ApiKey
keys = (text "app.k", key) ∷ []

-- A stand-in for the HMAC.
abbrev mac_of : Bytes → Bytes → Bytes
mac_of secret message = secret

abbrev asked_at : ℕ → TokenRequest
asked_at t = record {
  key_name = text "app.k";
  ttl = pos 0;
  capability = [];
  client_id = [];
  timestamp = pos t;
  nonce = text "n";
  mac = text "s";
}

-- The clock at 1,000,000 ms.
abbrev start : ℕ
start = 1000000000000

parts_of_key :
    (key_parts (text "app.k:s") ≡ some (text "app", text "k", text "s"))
    × (key_parts (text "app:s") ≡ none)
    × (key_parts (text "app.k:") ≡ none)
unfolding key_parts cut bytes_eq
parts_of_key = (refl, refl, refl)

accepted :
    (validate_token_request keys mac_of start start (asked_at 999000) none new_nonces).0 ≡ ok tt
unfolding validate_token_request check_mac check_timestamp check_nonce is_current record_nonce swept
    reap lookup bytes_eq
accepted = refl

accepted_ahead :
    (validate_token_request keys mac_of start start (asked_at 1000500) none new_nonces).0 ≡ ok tt
unfolding validate_token_request check_mac check_timestamp check_nonce is_current record_nonce swept
    reap lookup bytes_eq
accepted_ahead = refl

validate_token_request-refused_example :
    ((validate_token_request keys mac_of
        (start + 5)
        (start + 6)
        (asked_at 999000)
        none
        (validate_token_request keys mac_of
          (start + 2)
          (start + 3)
          (asked_at 7)
          none
          (validate_token_request keys mac_of start start (asked_at 999000) none new_nonces).1).1).0
      ≡ err timestamp_not_current)
    ⊎ ((validate_token_request keys mac_of
          (start + 5)
          (start + 6)
          (asked_at 999000)
          none
          (validate_token_request keys mac_of
            (start + 2)
            (start + 3)
            (asked_at 7)
            none
            (validate_token_request keys mac_of start start
              (asked_at 999000)
              none
              new_nonces).1).1).0
        ≡ err nonce_replayed)
unfolding bytes_eq
validate_token_request-refused_example =
    validate_token_request-refused keys mac_of start start (asked_at 999000) none new_nonces 999000
      (start + 5) (start + 6) none
      (validate_token_request keys mac_of (start + 2) (start + 3) (asked_at 7) none
        (validate_token_request keys mac_of start start (asked_at 999000) none new_nonces).1).1
      refl refl accepted (another (start + 2) (start + 3) (asked_at 7) none (omega arith) none_yet)
      (omega arith)

validate_token_request-again_example :
    (validate_token_request keys mac_of
      (start + window)
      (start + window)
      (asked_at 1000500)
      none
      (validate_token_request keys mac_of start start (asked_at 1000500) none new_nonces).1).0
    ≡ ok tt
unfolding bytes_eq
validate_token_request-again_example =
    validate_token_request-again keys mac_of start start (asked_at 1000500) none none new_nonces
      1000500 refl refl (omega arith) (omega arith) accepted_ahead

validate_ttl_overflow_example :
    (validate_ttl (pos 9223372036855) ≡ ok tt)
    × (token_lifetime (pos 9223372036855) ≡ ok default_token_ttl)
validate_ttl_overflow_example = validate_ttl_overflow 9223372036855 (omega arith) (omega arith)

a_day_at_most :
    (validate_ttl (pos 86400001) ≡ err invalid_ttl)
    × (token_lifetime (pos 86400000) ≡ ok 86400000000000)
    × (auth_error_info invalid_ttl ≡ (40003, 400))
unfolding validate_ttl token_lifetime duration_of auth_error_info
a_day_at_most = (refl, refl, refl)
