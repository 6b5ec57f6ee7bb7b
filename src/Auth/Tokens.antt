-- ===== src/Auth/Tokens.antt =====
-- internal/auth/auth.go: `Authenticate`, `VerifyToken` and `MintToken`. The JWT library, base64 and
-- the JSON library are parameters; the claims of a token are those that the code sets
-- and reads. An instant is its nanoseconds since the epoch.
pub mod Laws
pub mod Accepted
pub mod Issued
mod Tests
use ably_server.Base.{
  ℕ, zero, suc, ◌+◌, ◌*◌, ◌/◌, ◌≡◌, Bool, true, false, not, List, [], ◌∷◌, ◌++◌, Option, none, some,
  Bytes, text, if◌then◌else◌, ltb, ◌==◌, bytes_eq, cut, Assoc, lookup, insert, Result, ok, err,
  ◌>>=◌,
}
use ably_server.Storage.{is_blank}
use ably_server.Auth.Capability.Texts.{Json, string_of, parse_text}
use ably_server.Auth.Capability.{Capability, intersect, is_empty}
use ably_server.Auth.Identity.{Principal, method_basic, method_token}
use ably_server.Auth.TokenRequests.{
  AuthError, no_credentials, invalid_key, invalid_token, token_expired, invalid_jwt, unknown_app,
  invalid_capability, capability_denied, ApiKey, key_name_of, match_key, TokenRequest, check,
}
use ably_server.Auth.TokenRequests.Lifetimes.{token_lifetime}

abbrev pub one_second : ℕ
one_second = 1000000000

abbrev pub clock_skew_leeway : ℕ
clock_skew_leeway = 60000000000

-- `iat` is `some none` where it is no date. `client_id` and `capability` are `none` where they are no
-- strings.
pub record Claims : Type 0 where
  pub iat : Option (Option ℕ)
  pub exp : Option ℕ
  pub capability : Option Bytes
  pub client_id : Option Bytes
  pub jti : Bytes

pub data KeyError : Type 0 where
  no_such_key foreign_app : KeyError

-- What the parser wraps in its error.
pub data JwtError : Type 0 where
  expired malformed bad_signature rejected : JwtError
  unverifiable : KeyError → JwtError

-- The JWT library. A parser is given the function that finds the key of a `kid`, the clock reading
-- and the token; with the claims it hands back the key that the function found.
pub record Jwt : Type 0 where
  pub sign : Bytes → Bytes → Claims → Result AuthError Bytes
  pub parse_with_claims :
      (Option Bytes → Result KeyError ApiKey) → ℕ → Bytes → Result JwtError (ApiKey × Claims)

pub record Authenticator : Type 0 where
  pub keys : List ApiKey
  pub by_name : Assoc ApiKey
  pub app_id : Bytes

abbrev pub name_keys : List ApiKey → Assoc ApiKey → Assoc ApiKey
name_keys [] m = m
name_keys (k ∷ keys) m = name_keys keys (insert (key_name_of k) k m)

abbrev first_app : List ApiKey → Bytes
first_app [] = []
first_app (k ∷ keys) = k.app_id

-- NewAuthenticator
unfoldable pub new_authenticator : List ApiKey → Authenticator
new_authenticator keys = record {
  keys = keys;
  by_name = name_keys keys [];
  app_id = first_app keys;
}

abbrev pub is_foreign : Bytes → Option (Bytes × Bytes) → Bool
is_foreign app_id none = false
is_foreign app_id (some (app, key_id)) = not (bytes_eq app app_id)

-- The function that finds the key of a token.
unfoldable pub find_key : Authenticator → Option Bytes → Result KeyError ApiKey
find_key a none = err no_such_key
find_key a (some kid) = elim (lookup kid a.by_name) [
  | some k ↦ ok k
  | none ↦ if is_foreign a.app_id (cut b'.' kid) then err foreign_app else err no_such_key
]

abbrev pub token_error : JwtError → AuthError
token_error expired = token_expired
token_error (unverifiable foreign_app) = unknown_app
token_error (unverifiable no_such_key) = invalid_jwt
token_error malformed = invalid_jwt
token_error bad_signature = invalid_jwt
token_error rejected = invalid_token

abbrev pub check_issued : ℕ → Option (Option ℕ) → Result AuthError (Unit {0})
check_issued now none = err invalid_token
check_issued now (some none) = ok tt
check_issued now (some (some issued)) =
    check (not (ltb (now + clock_skew_leeway) issued)) invalid_token

abbrev pub or_blank : Option Bytes → Bytes
or_blank none = []
or_blank (some s) = s

abbrev pub is_given : Option Bytes → Bool
is_given none = false
is_given (some s) = true

-- What the HTTP library reads of a request.
pub record Request : Type 0 where
  pub authorization : Bytes
  pub basic_auth : Option (Bytes × Bytes)
  pub query_access_token : Bytes
  pub query_access_token_alias : Bytes
  pub query_key : Bytes

unfoldable pub cut_prefix : Bytes → Bytes → Option Bytes
cut_prefix [] s = some s
cut_prefix (p ∷ ps) [] = none
cut_prefix (p ∷ ps) (c ∷ s) = let rest = cut_prefix ps s in if p == c then rest else none

abbrev pub non_blank : Bytes → Option Bytes
non_blank s = if is_blank s then none else some s

abbrev pub query_token : Request → Option Bytes
query_token r =
    if is_blank r.query_access_token
    then non_blank r.query_access_token_alias
    else some r.query_access_token

-- A bearer token, decoded from base64 if it is that.
abbrev pub bearer_token : (Bytes → Option Bytes) → Bytes → Option Bytes
bearer_token decode t =
    if is_blank t then none else elim (decode t) [ some decoded ↦ some decoded | none ↦ some t ]

-- extractToken; `trim` is strings.TrimSpace.
unfoldable pub extract_token :
    (trim : Bytes → Bytes) (decode : Bytes → Option Bytes) → Request → Option Bytes
extract_token trim decode r = elim (cut_prefix (text "Bearer ") r.authorization) [
  | some t ↦ bearer_token decode (trim t)
  | none ↦ query_token r
]

-- extractKey
unfoldable pub extract_key : Request → Option Bytes
extract_key r = elim r.basic_auth [
  | some (user, pass) ↦ some (user ++ b':' ∷ pass)
  | none ↦ non_blank r.query_key
]

pub record IssuedToken : Type 0 where
  pub token : Bytes
  pub issued : ℕ
  pub expires : ℕ
  pub capability : Bytes

module _ (jwt : Jwt) (json : Json) (a : Authenticator) where
  -- An absent claim inherits the key's capability, another one is intersected with it.
  unfoldable pub granted : Option Bytes → ApiKey → Result AuthError Capability
  granted none key = ok key.cap
  granted (some c) key = elim (parse_text json c) [
    | none ↦ err invalid_token
    | some claimed ↦ ok (intersect claimed key.cap)
  ]

  unfoldable pub principal_of : Claims → Capability → Principal
  principal_of claims capability = record {
    method = method_token;
    capability_text = or_blank claims.capability;
    client_id = or_blank claims.client_id;
    has_client_id = is_given claims.client_id;
    capability = capability;
    expires_at = claims.exp;
  }

  unfoldable pub check_claims : ℕ → ApiKey → Claims → Result AuthError Principal
  check_claims later key claims = do
    _ ← check_issued later claims.iat
    capability ← granted claims.capability key
    ok (principal_of claims capability)

  -- verifyToken: the parser reads the clock, and the check of `iat` reads it again.
  unfoldable pub verify_token : (now later : ℕ) → Bytes → Result AuthError Principal
  verify_token now later token = elim (jwt.parse_with_claims (find_key a) now token) [
    | err e ↦ err (token_error e)
    | ok (key, claims) ↦ check_claims later key claims
  ]

  abbrev pub basic_principal : ApiKey → Principal
  basic_principal key = record {
    method = method_basic;
    capability_text = [];
    client_id = [];
    has_client_id = false;
    capability = key.cap;
    expires_at = none;
  }

  abbrev pub by_key : Option Bytes → Result AuthError Principal
  by_key none = err no_credentials
  by_key (some presented) = elim (match_key presented a.keys) [
    | none ↦ err invalid_key
    | some key ↦ ok (basic_principal key)
  ]

  -- Authenticate
  unfoldable pub authenticate :
      (trim : Bytes → Bytes) (decode : Bytes → Option Bytes) (now later : ℕ)
      → Request
      → Result AuthError Principal
  authenticate trim decode now later r = elim (extract_token trim decode r) [
    | some token ↦ verify_token now later token
    | none ↦ by_key (extract_key r)
  ]

  -- What is asked for, narrowed to what the key has; nothing is the key's own.
  unfoldable pub narrowed_text : Bytes → ApiKey → Result AuthError (Option Bytes)
  narrowed_text [] key = ok none
  narrowed_text (c ∷ cs) key = elim (parse_text json (c ∷ cs)) [
    | none ↦ err invalid_capability
    | some requested ↦
        if is_empty (intersect requested key.cap)
        then err capability_denied
        else ok (some (string_of json (intersect requested key.cap)))
  ]

  abbrev pub or_own : ApiKey → Option Bytes → Bytes
  or_own key none = key.cap_raw
  or_own key (some c) = c

  abbrev pub claims_of : ℕ → ℕ → Option Bytes → TokenRequest → Claims
  claims_of now expires capability tr = record {
    iat = some (some (now / one_second * one_second));
    exp = some expires;
    capability = capability;
    client_id = non_blank tr.client_id;
    jti = tr.nonce;
  }

  unfoldable pub mint_with : ℕ → TokenRequest → ApiKey → Result AuthError IssuedToken
  mint_with now tr key = do
    lifetime ← token_lifetime tr.ttl
    capability ← narrowed_text tr.capability key
    token ← jwt.sign key.key_secret (key_name_of key) (claims_of now (now + lifetime) capability tr)
    ok (record {
      token = token;
      issued = now;
      expires = now + lifetime;
      capability = or_own key capability;
    })

  -- MintToken
  unfoldable pub mint_token : ℕ → TokenRequest → Result AuthError IssuedToken
  mint_token now tr = elim (lookup tr.key_name a.by_name) [
    | none ↦ err invalid_token
    | some key ↦ mint_with now tr key
  ]
