-- ===== src/Auth/Tokens/Issued.antt =====
-- internal/auth/auth.go: what a minted token verifies to.
use ably_server.Base.{
  bind_ok, ℕ, ◌+◌, ◌*◌, ◌/◌, ◌≤◌, ◌<◌, ◌≡◌, refl, ap, ◌∙◌, inl, inr, false, not, List, [], ◌∷◌,
  Option, none, some, Bytes, arith, Bool-cases, Option-cases, lookup, bytes_eq, ok,
}
use ably_server.Storage.{is_blank}
use ably_server.Auth.Capability.{Capability, intersect, is_empty}
use ably_server.Auth.Capability.Texts.{Json, canonical, string_of, parse_text}
use ably_server.Auth.Identity.{Principal}
use ably_server.Auth.TokenRequests.{ApiKey, key_name_of, TokenRequest, millisecond}
use ably_server.Auth.TokenRequests.Lifetimes.{max_token_ttl, token_lifetime, token_lifetime_bounds}
use ably_server.Auth.Tokens.{
  one_second, Jwt, Authenticator, new_authenticator, find_key, check_issued, or_blank, is_given,
  non_blank, IssuedToken, granted, principal_of, check_claims, verify_token, narrowed_text,
  claims_of, mint_with, mint_token,
}
use ably_server.Auth.Tokens.Laws.{IsJwt, IsReadBack, IsConfigured, lookup-new_authenticator}

module _ (jwt : Jwt) (json : Json) where
  -- What a request without a capability, and one with a capability, leads to.
  abbrev pub IsNarrowed : Bytes → ApiKey → Capability → Type 0
  IsNarrowed [] key c = c ≡ key.cap
  IsNarrowed (x ∷ xs) key c =
      (requested : Capability) × (parse_text json (x ∷ xs) ≡ some requested)
      × (is_empty (intersect requested key.cap) ≡ false)
      × (c ≡ intersect (canonical (intersect requested key.cap)) key.cap)

  -- A principal that stands for a token request.
  pub record IsGrantOf (keys : List ApiKey) (minted : ℕ) (tr : TokenRequest) (i : IssuedToken)
      (p : Principal) : Type 0 where
    pub key : ApiKey
    pub configured : IsConfigured key keys
    pub named : key_name_of key ≡ tr.key_name
    pub client : p.client_id ≡ tr.client_id
    pub identified : p.has_client_id ≡ not (is_blank tr.client_id)
    pub narrowed : IsNarrowed tr.capability key p.capability
    pub lasting : (minted < i.expires) × (i.expires ≤ minted + max_token_ttl)
    pub expiry :
        (e : ℕ) × (p.expires_at ≡ some e)
        × (i.expires < e + 2 * millisecond)
        × (e < i.expires + millisecond)

  -- What a successful MintToken has gone through.
  record IsMinted (a : Authenticator) (minted : ℕ) (tr : TokenRequest) (key : ApiKey)
      (i : IssuedToken) : Type 0 where
    lifetime : ℕ
    lasts : token_lifetime tr.ttl ≡ ok lifetime
    claim : Option Bytes
    asked : narrowed_text jwt json a tr.capability key ≡ ok claim
    expires : i.expires ≡ minted + lifetime
    signed :
        jwt.sign key.key_secret
          (key_name_of key)
          (claims_of jwt json a minted (minted + lifetime) claim tr)
        ≡ ok i.token

  mint_with-IsMinted :
      (a : Authenticator) (minted : ℕ) (tr : TokenRequest) (key : ApiKey) (i : IssuedToken)
      → mint_with jwt json a minted tr key ≡ ok i
      → IsMinted a minted tr key i
  unfolding mint_with narrowed_text
  mint_with-IsMinted a minted tr key i h =
      let (lifetime, lasts, h') = bind_ok (token_lifetime tr.ttl) _ h in
      let (claim, asked, h'') = bind_ok (narrowed_text jwt json a tr.capability key) _ h' in
      let (token, signed, same) =
        bind_ok
          (jwt.sign key.key_secret (key_name_of key)
            (claims_of jwt json a minted (minted + lifetime) claim tr))
          _ h'' in
      let t : token ≡ i.token = ground (arith, same) in
      record {
        lifetime = lifetime;
        lasts = lasts;
        claim = claim;
        asked = asked;
        expires = ground (arith, same);
        signed = signed ∙ ap ok t;
      }

  granted-narrowed_text :
      (a : Authenticator) (asked : Bytes) (key : ApiKey) (claim : Option Bytes)
      → ((requested : Capability)
          → parse_text json asked ≡ some requested
          → IsReadBack json (intersect requested key.cap))
      → narrowed_text jwt json a asked key ≡ ok claim
      → (c : Capability) × (granted jwt json a claim key ≡ ok c) × IsNarrowed asked key c
  unfolding narrowed_text granted
  granted-narrowed_text a [] key claim law h =
      let e : claim ≡ none = ground (arith, h) in (key.cap, rw e refl, refl)
  granted-narrowed_text a (x ∷ xs) key claim law h =
      elim (Option-cases (parse_text json (x ∷ xs))) [
        | inl unreadable ↦ absurd (ground (arith, h, unreadable))
        | inr (requested, read) ↦
            let common = intersect requested key.cap in
            elim (Bool-cases (is_empty common)) [
              | inl empty ↦ absurd (ground (arith, h, read, empty))
              | inr some_left ↦
                  let e : claim ≡ some (string_of json common) =
                    ground (arith, h, read, some_left) in
                  (
                    intersect (canonical common) key.cap,
                    rw (e, granted) (rw (law requested read, granted) refl),
                    (requested, read, some_left, refl),
                  )
            ]
      ]

  issued_by_then :
      (minted later : ℕ)
      → minted ≤ later
      → check_issued later (some (some (minted / one_second * one_second))) ≡ ok tt
  issued_by_then minted later h = ground arith

  claimed_client :
      (s : Bytes) → (or_blank (non_blank s) ≡ s) × (is_given (non_blank s) ≡ not (is_blank s))
  unfolding bytes_eq
  claimed_client [] = (refl, refl)
  claimed_client (c ∷ s) = (refl, refl)

  find_key-name :
      (keys : List ApiKey) (name : Bytes) (key : ApiKey)
      → lookup name (new_authenticator keys).by_name ≡ some key
      → find_key (new_authenticator keys) (some (key_name_of key)) ≡ ok key
  unfolding find_key
  find_key-name keys name key h =
      let (named, at) = lookup-new_authenticator keys name key h in rw named (rw (h, find_key) refl)

  check_claims-accepted :
      (a : Authenticator) (minted later end' e : ℕ) (claim : Option Bytes) (tr : TokenRequest)
      (key : ApiKey) (c : Capability)
      → minted ≤ later
      → granted jwt json a claim key ≡ ok c
      → check_claims jwt json a later key
          (record (claims_of jwt json a minted end' claim tr) { exp = some e })
        ≡ ok (
            principal_of jwt json a
              (record (claims_of jwt json a minted end' claim tr) { exp = some e })
              c)
  unfolding check_claims
  check_claims-accepted a minted later end' e claim tr key c h g =
      rw (issued_by_then minted later h) (rw g refl)

  -- A minted token verifies, until two milliseconds before its expiry, on a server with the same
  -- keys. Its principal has the client id of the request, and the expiry to within two milliseconds,
  -- which is after its issue and within a day of it. Its capability is the one of the key that the
  -- request names or, where the request asks for one, the asked one intersected with the key's, where
  -- something must be left, put into canonical order and intersected with the key's again. The JWT
  -- library does what `IsJwt` says, and the JSON library reads back the text of the asked capability
  -- as it was intersected with a key's.
  pub verify_token-mint_token :
      (keys : List ApiKey) (minted : ℕ) (tr : TokenRequest) (i : IssuedToken) (now later : ℕ)
      → IsJwt jwt
      → ((key : ApiKey) (requested : Capability)
          → IsConfigured key keys
          → parse_text json tr.capability ≡ some requested
          → IsReadBack json (intersect requested key.cap))
      → mint_token jwt json (new_authenticator keys) minted tr ≡ ok i
      → minted ≤ later
      → now + 2 * millisecond ≤ i.expires
      → (p : Principal) × (verify_token jwt json (new_authenticator keys) now later i.token ≡ ok p)
        × IsGrantOf keys minted tr i p
  unfolding mint_token verify_token principal_of
  verify_token-mint_token keys minted tr i now later law text_law h order early =
      elim (Option-cases (lookup tr.key_name (new_authenticator keys).by_name)) [
        | inl unknown ↦ absurd (ground (arith, h, unknown))
        | inr (key, known) ↦
            let a = new_authenticator keys in
            let m = mint_with-IsMinted a minted tr key i (ground (arith, h, known)) in
            let (named, at) = lookup-new_authenticator keys tr.key_name key known in
            let (c, g, narrowed) =
              granted-narrowed_text a tr.capability key m.claim (λ r read. text_law key r at read)
                m.asked in
            let (e, parsed, near, soon) =
              law.round_trip key.key_secret (key_name_of key) i.token
                (claims_of jwt json a minted (minted + m.lifetime) m.claim tr) (minted + m.lifetime)
                (find_key a) key now m.signed refl (find_key-name keys tr.key_name key known) refl
                (ground (arith, m.expires, early)) in
            let (alive, short) = token_lifetime_bounds tr.ttl m.lifetime m.lasts in
            (
              principal_of jwt json a
                  (record (claims_of jwt json a minted (minted + m.lifetime) m.claim tr) {
                    exp = some e;
                  })
                  c,
              rw (parsed, verify_token)
                  (check_claims-accepted a minted later (minted + m.lifetime) e m.claim tr key c
                    order g),
              record {
                key = key;
                configured = at;
                named = named;
                client = (claimed_client tr.client_id).0;
                identified = (claimed_client tr.client_id).1;
                narrowed = narrowed;
                lasting = ground (arith, m.expires, alive, short);
                expiry =
                    (e, refl, ground (arith, m.expires, near), ground (arith, m.expires, soon));
              },
            )
      ]
