-- ===== src/Auth/TokenRequests.antt =====
-- internal/auth/auth.go: keys, `ValidateTokenRequest` and its set of nonces, `ValidateTTL`.
-- An instant is its nanoseconds since the epoch, and each reading of the clock is an argument. The
-- base64 text of an HMAC is a parameter. The errors are the package's sentinels.
pub mod Replays
pub mod Lifetimes
mod Tests
use ably_server.Base.{
  ℕ, zero, suc, ◌+◌, ◌*◌, ◌≡◌, Bool, true, false, not, ◌&&◌, ◌||◌, List, [], ◌∷◌, ◌++◌, Option,
  none, some, Bytes, text, if◌then◌else◌, ltb, bytes_eq, ℤ, pos, negsuc, itoa, cut, Assoc, lookup,
  insert, Result, ok, err, ◌>>=◌,
}
use ably_server.Storage.{is_blank}
use ably_server.Auth.Capability.{Capability, allow_all}

pub data AuthError : Type 0 where
  no_credentials invalid_key invalid_token token_expired invalid_jwt unknown_app : AuthError
  client_id_mismatch timestamp_not_current nonce_replayed invalid_capability invalid_ttl : AuthError
  capability_denied : AuthError

-- AuthErrorInfo: the code and the HTTP status.
unfoldable pub auth_error_info : AuthError → ℕ × ℕ
auth_error_info token_expired = (40142, 401)
auth_error_info capability_denied = (40160, 401)
auth_error_info timestamp_not_current = (40104, 401)
auth_error_info nonce_replayed = (40105, 401)
auth_error_info invalid_capability = (40000, 400)
auth_error_info invalid_ttl = (40003, 400)
auth_error_info client_id_mismatch = (40102, 401)
auth_error_info unknown_app = (40400, 404)
auth_error_info invalid_jwt = (40144, 401)
auth_error_info invalid_token = (40101, 401)
auth_error_info invalid_key = (40101, 401)
auth_error_info no_credentials = (40101, 401)

pub record ApiKey : Type 0 where
  pub app_id : Bytes
  pub key_id : Bytes
  pub key_secret : Bytes
  pub cap : Capability
  pub cap_raw : Bytes
  pub raw : Bytes

-- Name
abbrev pub key_name_of : ApiKey → Bytes
key_name_of k = k.app_id ++ b'.' ∷ k.key_id

-- The parts "appId", "keyId" and "keySecret" of a key, none of them empty.
unfoldable pub key_parts : Bytes → Option (Bytes × Bytes × Bytes)
key_parts s = elim (cut b':' s) [
  | none ↦ none
  | some (name, secret) ↦ elim (cut b'.' name) [
    | none ↦ none
    | some (app_id, key_id) ↦
        if is_blank secret || is_blank app_id || is_blank key_id
        then none
        else some (app_id, key_id, secret)
  ]
]

-- matchKey: the last key that is equal.
unfoldable pub match_key : Bytes → List ApiKey → Option ApiKey
match_key presented [] = none
match_key presented (k ∷ keys) = elim (match_key presented keys) [
  | some found ↦ some found
  | none ↦ if bytes_eq presented k.raw then some k else none
]

pub record TokenRequest : Type 0 where
  pub key_name : Bytes
  pub ttl : ℤ
  pub capability : Bytes
  pub client_id : Bytes
  pub timestamp : ℤ
  pub nonce : Bytes
  pub mac : Bytes

abbrev pub is_unset : ℤ → Bool
is_unset (pos zero) = true
is_unset _ = false

-- strconv.FormatInt
abbrev pub format_int : ℤ → Bytes
format_int (pos n) = itoa n
format_int (negsuc n) = b'-' ∷ itoa (suc n)

-- tokenRequestText
unfoldable pub token_request_text : TokenRequest → Bytes
token_request_text tr =
    tr.key_name
    ++ 10
      ∷ ((if is_unset tr.ttl then [] else format_int tr.ttl)
          ++ 10
            ∷ (tr.capability
                ++ 10
                  ∷ (tr.client_id ++ 10 ∷ (format_int tr.timestamp ++ 10 ∷ (tr.nonce ++ 10 ∷ [])))))

-- tokenRequestTimestampWindow, and a millisecond
abbrev pub window : ℕ
window = 120000000000

abbrev pub millisecond : ℕ
millisecond = 1000000

-- seenNonces and nonceReaped, which is `none` before the first sweep.
pub record Nonces : Type 0 where
  pub seen : Assoc ℕ
  pub reaped : Option ℕ

abbrev pub new_nonces : Nonces
new_nonces = record { seen = []; reaped = none }

unfoldable pub reap : ℕ → Assoc ℕ → Assoc ℕ
reap now [] = []
reap now ((n, expiry) ∷ m) =
    let rest = reap now m in if ltb expiry now then rest else (n, expiry) ∷ rest

abbrev pub is_due : ℕ → Option ℕ → Bool
is_due now none = true
is_due now (some reaped) = ltb (reaped + window) now

unfoldable pub swept : ℕ → Nonces → Nonces
swept now st =
    if is_due now st.reaped then record { seen = reap now st.seen; reaped = some now } else st

abbrev pub is_live : ℕ → Option ℕ → Bool
is_live now none = false
is_live now (some expiry) = ltb now expiry

-- recordNonce
unfoldable pub record_nonce : ℕ → Bytes → Nonces → Bool × Nonces
record_nonce now nonce st =
    let st' = swept now st in
    if is_live now (lookup nonce st'.seen)
    then (false, st')
    else (true, record st' { seen = insert nonce (now + window) st'.seen })

-- Whether a timestamp is within the window around the clock.
unfoldable pub is_current : ℕ → ℤ → Bool
is_current now (pos t) =
    not (ltb (t * millisecond + window) now) && not (ltb (now + window) (t * millisecond))
is_current now (negsuc t) = not (ltb window (now + suc t * millisecond))

abbrev pub check : Bool → AuthError → Result AuthError (Unit {0})
check true e = ok tt
check false e = err e

unfoldable pub check_timestamp : Bool → ℕ → ℤ → Result AuthError (Unit {0})
check_timestamp signed now ts =
    if is_unset ts
    then check (not signed) timestamp_not_current
    else check (is_current now ts) timestamp_not_current

unfoldable pub check_nonce : Bool → ℕ → Bytes → Nonces → Result AuthError (Unit {0}) × Nonces
check_nonce signed now nonce st =
    if is_blank nonce
    then (check (not signed) nonce_replayed, st)
    else (check (record_nonce now nonce st).0 nonce_replayed, (record_nonce now nonce st).1)

abbrev pub is_presented : Bytes → Option Bytes → Bool
is_presented raw none = false
is_presented raw (some k) = bytes_eq k raw

-- `by_name` are the configured keys; `mac_of` gives the code of a text under a secret.
module _ (by_name : Assoc ApiKey) (mac_of : Bytes → Bytes → Bytes) where
  -- A request with a code is signed; one without needs the key itself among its credentials.
  unfoldable pub check_mac : TokenRequest → Option Bytes → Result AuthError (Unit {0})
  check_mac tr presented = elim (lookup tr.key_name by_name) [
    | none ↦ err invalid_token
    | some key ↦
        if is_blank tr.mac
        then check (is_presented key.raw presented) invalid_token
        else check (bytes_eq tr.mac (mac_of key.key_secret (token_request_text tr))) invalid_token
  ]

  abbrev pub then_nonce :
      Result AuthError (Unit {0})
      → Result AuthError (Unit {0}) × Nonces
      → Nonces
      → Result AuthError (Unit {0}) × Nonces
  then_nonce (err e) recorded st = (err e, st)
  then_nonce (ok _) recorded st = recorded

  -- ValidateTokenRequest: the clock is read for the timestamp, and again for the nonce.
  unfoldable pub validate_token_request :
      (now later : ℕ) → TokenRequest → Option Bytes → Nonces → Result AuthError (Unit {0}) × Nonces
  validate_token_request now later tr presented st =
      let signed = not (is_blank tr.mac) in
      then_nonce (check_mac tr presented >>= λ _. check_timestamp signed now tr.timestamp)
        (check_nonce signed later tr.nonce st) st
