-- ===== src/Auth/Tokens/Laws.antt =====
-- internal/auth/auth.go: what its code relies on of the JWT library and of the JSON
-- library, and what an `Authenticator` holds.
use ably_server.Base.{
  ℕ, zero, suc, ◌+◌, ◌*◌, ◌≤◌, ◌<◌, ◌≡◌, ◌⊎◌, sym, ap, ◌∙◌, inl, inr, List, [], ◌∷◌, Option, some,
  Bytes, arith, Bool-cases, Option-cases, bytes_eq, bytes_eq_iff, get_elem?, Assoc, lookup, insert,
  lookup-insert, Result, ok,
}
use ably_server.Auth.Capability.{Capability}
use ably_server.Auth.Capability.Texts.{Json, canonical}
use ably_server.Auth.TokenRequests.{ApiKey, key_name_of, match_key, millisecond}
use ably_server.Auth.Tokens.{Claims, KeyError, Jwt, name_keys, new_authenticator}

-- A parsed token's key is the one that the function found for some `kid`. A token that was signed
-- parses until its end, short of the two milliseconds that its numeric date is exact to, under a
-- function that finds a key with its secret.
pub record IsJwt (jwt : Jwt) : Type 0 where
  pub found :
      (find : Option Bytes → Result KeyError ApiKey) (now : ℕ) (token : Bytes) (key : ApiKey)
      (claims : Claims)
      → jwt.parse_with_claims find now token ≡ ok (key, claims)
      → (kid : Option Bytes) × (find kid ≡ ok key)
  pub round_trip :
      (secret kid token : Bytes) (claims : Claims) (end' : ℕ)
      (find : Option Bytes → Result KeyError ApiKey) (key : ApiKey) (now : ℕ)
      → jwt.sign secret kid claims ≡ ok token
      → claims.exp ≡ some end'
      → find (some kid) ≡ ok key
      → key.key_secret ≡ secret
      → now + 2 * millisecond ≤ end'
      → (e : ℕ) × (jwt.parse_with_claims find now token ≡ ok (key, record claims { exp = some e }))
        × (end' < e + 2 * millisecond)
        × (e < end' + millisecond)

-- The library reads the text of a capability back, as it does where all in it is UTF-8.
abbrev pub IsReadBack : Json → Capability → Type 0
IsReadBack json c = json.unmarshal (json.marshal (canonical c)) ≡ some (canonical c)

abbrev pub IsConfigured : ApiKey → List ApiKey → Type 0
IsConfigured key keys = (i : ℕ) × (get_elem? keys i ≡ some key)

pub match_key-IsConfigured :
    (presented : Bytes) (keys : List ApiKey) (key : ApiKey)
    → match_key presented keys ≡ some key
    → IsConfigured key keys
unfolding match_key
match_key-IsConfigured presented [] key h = absurd (ground arith)
match_key-IsConfigured presented (k ∷ keys) key h = elim (Option-cases (match_key presented keys)) [
  | inr (found, e) ↦
      let (i, at) = match_key-IsConfigured presented keys key (e ∙ (rw e at h)) in (suc i, at)
  | inl e ↦ (zero, ground (arith, h, e))
]

-- A key of the map is under its own name, and is one of those put in or of those there before.
lookup-name_keys :
    (keys : List ApiKey) (m : Assoc ApiKey) (name : Bytes) (key : ApiKey)
    → lookup name (name_keys keys m) ≡ some key
    → (lookup name m ≡ some key) ⊎ ((key_name_of key ≡ name) × IsConfigured key keys)
lookup-name_keys [] m name key h = inl h
lookup-name_keys (k ∷ keys) m name key h =
    elim (lookup-name_keys keys (insert (key_name_of k) k m) name key h) [
      | inr (named, (i, at)) ↦ inr (named, (suc i, at))
      | inl found ↦ elim (Bool-cases (bytes_eq (key_name_of k) name)) [
        | inr other ↦ inl (ground (arith, found, other, lookup-insert (key_name_of k) name k m))
        | inl same ↦
            let e : k ≡ key = ground (arith, found, same, lookup-insert (key_name_of k) name k m) in
            inr (
              ap key_name_of (sym e) ∙ (bytes_eq_iff (key_name_of k) name).0 same,
              (zero, ap some e),
            )
      ]
    ]

pub lookup-new_authenticator :
    (keys : List ApiKey) (name : Bytes) (key : ApiKey)
    → lookup name (new_authenticator keys).by_name ≡ some key
    → (key_name_of key ≡ name) × IsConfigured key keys
unfolding new_authenticator lookup
lookup-new_authenticator keys name key h = elim (lookup-name_keys keys [] name key h) [
  | inl before ↦ absurd (ground (arith, before))
  | inr found ↦ found
]
