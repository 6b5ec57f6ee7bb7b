-- ===== src/Auth/Tokens/Accepted.antt =====
-- internal/auth/auth.go: what accepted credentials may do.
use ably_server.Base.{
  ℕ, ◌≡◌, ◌⊎◌, refl, sym, ap, ◌∙◌, inl, inr, true, List, Option, none, some, Bytes, arith,
  Option-cases, lookup, Result, ok, err, bind_ok,
}
use ably_server.Auth.Capability.{Op, Capability, permits, intersect}
use ably_server.Auth.Capability.Narrowing.{AllNamed, permits-intersect_sound}
use ably_server.Auth.Capability.Texts.{Json, parse_text}
use ably_server.Auth.Identity.{Principal}
use ably_server.Auth.TokenRequests.{ApiKey, match_key}
use ably_server.Auth.Tokens.{
  Claims, JwtError, Jwt, Authenticator, new_authenticator, find_key, check_issued, or_blank,
  Request, extract_token, extract_key, granted, principal_of, check_claims, verify_token, by_key,
  authenticate,
}
use ably_server.Auth.Tokens.Laws.{
  IsJwt, IsConfigured, match_key-IsConfigured, lookup-new_authenticator,
}

module _ (jwt : Jwt) (json : Json) where
  -- A principal has a key's capability, or a claim's intersected with it.
  abbrev HasCapability : Principal → ApiKey → Type 0
  HasCapability p key =
      (p.capability ≡ key.cap)
      ⊎ ((claimed : Capability) × (parse_text json p.capability_text ≡ some claimed)
          × (p.capability ≡ intersect claimed key.cap))

  check_claims-HasCapability :
      (a : Authenticator) (later : ℕ) (key : ApiKey) (claims : Claims) (p : Principal)
      → check_claims jwt json a later key claims ≡ ok p
      → HasCapability p key
  unfolding check_claims granted principal_of
  check_claims-HasCapability a later key claims p h =
      let (u, _, h') = bind_ok (check_issued later claims.iat) _ h in
      let (c, g, same) = bind_ok (granted jwt json a claims.capability key) _ h' in
      let cap : p.capability ≡ c = ground (arith, same) in
      let raw : p.capability_text ≡ or_blank claims.capability = ground (arith, same) in
      go claims.capability c cap raw g
    where
      go :
          (claim : Option Bytes) (c : Capability)
          → p.capability ≡ c
          → p.capability_text ≡ or_blank claim
          → granted jwt json a claim key ≡ ok c
          → HasCapability p key
      go none c cap raw g = inl (ground (arith, cap, g))
      go (some t) c cap raw g = elim (Option-cases (parse_text json t)) [
        | inl unreadable ↦ absurd (ground (arith, g, unreadable))
        | inr (claimed, read) ↦
            inr (claimed, ap (parse_text json) raw ∙ read, ground (arith, cap, g, read))
      ]

  find_key-IsConfigured :
      (keys : List ApiKey) (kid : Option Bytes) (key : ApiKey)
      → find_key (new_authenticator keys) kid ≡ ok key
      → IsConfigured key keys
  unfolding find_key
  find_key-IsConfigured keys none key h = absurd (ground (arith, h))
  find_key-IsConfigured keys (some kid) key h =
      elim (Option-cases (lookup kid (new_authenticator keys).by_name)) [
        | inl unknown ↦ absurd (ground (arith, h, unknown))
        | inr (k, known) ↦ (lookup-new_authenticator keys kid key (ground (arith, h, known))).1
      ]

  verify_token-HasCapability :
      (keys : List ApiKey) (now later : ℕ) (token : Bytes) (p : Principal)
      → IsJwt jwt
      → verify_token jwt json (new_authenticator keys) now later token ≡ ok p
      → (key : ApiKey) × IsConfigured key keys × HasCapability p key
  unfolding verify_token
  verify_token-HasCapability keys now later token p law h =
      go (jwt.parse_with_claims (find_key (new_authenticator keys)) now token) refl
    where
      go :
          (r : Result JwtError (ApiKey × Claims))
          → jwt.parse_with_claims (find_key (new_authenticator keys)) now token ≡ r
          → (key : ApiKey) × IsConfigured key keys × HasCapability p key
      go (err e) parsed = absurd (ground (arith, h, parsed))
      go (ok (key, claims)) parsed =
          let (kid, at) =
            law.found (find_key (new_authenticator keys)) now token key claims parsed in
          (
            key,
            find_key-IsConfigured keys kid key at,
            check_claims-HasCapability (new_authenticator keys) later key claims p
                (ground (arith, h, parsed)),
          )

  by_key-HasCapability :
      (keys : List ApiKey) (presented : Option Bytes) (p : Principal)
      → by_key jwt json (new_authenticator keys) presented ≡ ok p
      → (key : ApiKey) × IsConfigured key keys × HasCapability p key
  unfolding new_authenticator
  by_key-HasCapability keys none p h = absurd (ground (arith, h))
  by_key-HasCapability keys (some s) p h = elim (Option-cases (match_key s keys)) [
    | inl unknown ↦ absurd (ground (arith, h, unknown))
    | inr (key, known) ↦
        (key, match_key-IsConfigured s keys key known, inl (ground (arith, h, known)))
  ]

  authenticate-HasCapability :
      (keys : List ApiKey) (trim : Bytes → Bytes) (decode : Bytes → Option Bytes) (now later : ℕ)
      (r : Request) (p : Principal)
      → IsJwt jwt
      → authenticate jwt json (new_authenticator keys) trim decode now later r ≡ ok p
      → (key : ApiKey) × IsConfigured key keys × HasCapability p key
  unfolding authenticate
  authenticate-HasCapability keys trim decode now later r p law h =
      elim (Option-cases (extract_token trim decode r)) [
        | inr (token, e) ↦
            verify_token-HasCapability keys now later token p law (ground (arith, h, e))
        | inl e ↦ by_key-HasCapability keys (extract_key r) p (ground (arith, h, e))
      ]

  -- Whatever credentials a request is accepted with, some configured key permits all that they
  -- permit, where the patterns of the keys and of the token's claim do not open a bracket.
  pub authenticate-permits :
      (keys : List ApiKey) (trim : Bytes → Bytes) (decode : Bytes → Option Bytes) (now later : ℕ)
      (r : Request) (p : Principal)
      → IsJwt jwt
      → ((key : ApiKey) → IsConfigured key keys → AllNamed key.cap)
      → ((claimed : Capability)
          → parse_text json p.capability_text ≡ some claimed
          → AllNamed claimed)
      → authenticate jwt json (new_authenticator keys) trim decode now later r ≡ ok p
      → (key : ApiKey) × IsConfigured key keys
        × ((channel : Bytes) (op : Op)
            → permits p.capability channel op ≡ true
            → permits key.cap channel op ≡ true)
  authenticate-permits keys trim decode now later r p law named claim_named h =
      let (key, at, has) = authenticate-HasCapability keys trim decode now later r p law h in
      (
        key,
        at,
        λ channel op allowed. elim has [
          | inl own ↦ ap (λ c. permits c channel op) (sym own) ∙ allowed
          | inr (claimed, read, same) ↦
              (permits-intersect_sound claimed key.cap channel op (claim_named claimed read)
                (named key at) (ap (λ c. permits c channel op) (sym same) ∙ allowed)).1
        ],
      )
