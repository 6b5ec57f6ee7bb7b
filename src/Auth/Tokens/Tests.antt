-- ===== src/Auth/Tokens/Tests.antt =====
-- internal/auth/auth.go: tokens on concrete input, with a JWT and a JSON library that are
-- stand-ins: a token is its secret and claims, each text after its length.
use ably_server.Base.{
  ℕ, zero, suc, ◌≡◌, refl, ap, ◌∙◌, true, List, [], ◌∷◌, ◌++◌, Option, none, some, Bytes, text,
  arith, if◌then◌else◌, ltb, bytes_eq, bytes_eq_refl, length, take, drop, take-append, pos, lookup,
  insert, Result, ok, err, ◌>>=◌, cut, join, split, split_pieces,
}
use mathlib.Core.Path.{subst}
use ably_server.Auth.Capability.Texts.{
  Json, canonical, insert_resource, add_sorted, insert_op, parse_text,
}
use ably_server.Auth.Capability.{
  Op, Capability, permits, intersect, is_empty, intersect_onto, intersect_row, intersect_ops,
  common_ops, add_ops, encode_resource, intersect_loop, intersect_ordered, intersect_path,
  intersect_qualifier, intersect_resource, last_is_star, parse_resource, qualifier_type,
}
use ably_server.Auth.Capability.Narrowing.{AllNamed}
use ably_server.Auth.TokenRequests.Lifetimes.{token_lifetime, duration_of}
use ably_server.Auth.Identity.{Principal}
use ably_server.Auth.TokenRequests.{AuthError, invalid_token, ApiKey, match_key, TokenRequest}
use ably_server.Auth.Tokens.{
  Claims, KeyError, JwtError, expired, malformed, bad_signature, unverifiable, Jwt, IssuedToken,
  new_authenticator, Request, cut_prefix, extract_token, extract_key, basic_principal, mint_with,
  narrowed_text, verify_token, mint_token, authenticate,
}
use ably_server.Auth.Tokens.Laws.{IsJwt, IsReadBack, IsConfigured}
use ably_server.Auth.Tokens.Accepted.{authenticate-permits}
use ably_server.Auth.Tokens.Issued.{IsGrantOf, verify_token-mint_token}

-- A text after its length, and no text.
put_text : Bytes → Bytes → Bytes
put_text s rest = length s ∷ (s ++ rest)

put_option : Option Bytes → Bytes → Bytes
put_option none rest = 0 ∷ rest
put_option (some s) rest = 1 ∷ put_text s rest

get_text : Bytes → Result JwtError (Bytes × Bytes)
get_text [] = err malformed
get_text (n ∷ s) = ok (take n s, drop n s)

get_option : Bytes → Result JwtError (Option Bytes × Bytes)
get_option [] = err malformed
get_option (zero ∷ s) = ok (none, s)
get_option (suc n ∷ s) = get_text s >>= λ (t, r). ok (some t, r)

get_number : Bytes → Result JwtError (ℕ × Bytes)
get_number [] = err malformed
get_number (n ∷ s) = ok (n, s)

drop-append : (s rest : Bytes) → drop (length s) (s ++ rest) ≡ rest
drop-append [] rest = refl
drop-append (c ∷ s) rest = drop-append s rest

get-put_text : (s rest : Bytes) → get_text (put_text s rest) ≡ ok (s, rest)
unfolding get_text put_text
get-put_text s rest = rw (take-append (length s) s rest refl, drop-append s rest) refl

get-put_option : (o : Option Bytes) (rest : Bytes) → get_option (put_option o rest) ≡ ok (o, rest)
unfolding get_option put_option
get-put_option none rest = refl
get-put_option (some s) rest = rw (get-put_text s rest) refl

-- Only dated claims are signed.
put_claims : Bytes → Bytes → Claims → Result AuthError Bytes
put_claims secret kid c = elim c.iat [
  | none ↦ err invalid_token
  | some none ↦ err invalid_token
  | some (some iat) ↦ elim c.exp [
    | none ↦ err invalid_token
    | some end' ↦ ok (
        iat
        ∷ end'
        ∷ put_text secret (put_text kid (put_option c.capability (put_option c.client_id c.jti))))
  ]
]

-- What a token holds: its secret, its `kid`, its end and its claims.
record Contents : Type 0 where
  secret : Bytes
  kid : Bytes
  end' : ℕ
  claims : Claims

get_claims : Bytes → Result JwtError Contents
get_claims token = do
  iat ← get_number token
  end' ← get_number iat.1
  secret ← get_text end'.1
  kid ← get_text secret.1
  capability ← get_option kid.1
  client_id ← get_option capability.1
  ok (record {
    secret = secret.0;
    kid = kid.0;
    end' = end'.0;
    claims = record {
      iat = some (some iat.0);
      exp = some end'.0;
      capability = capability.0;
      client_id = client_id.0;
      jti = client_id.1;
    };
  })

check_contents : ℕ → Contents → Result KeyError ApiKey → Result JwtError (ApiKey × Claims)
check_contents now t (err e) = err (unverifiable e)
check_contents now t (ok key) =
    if bytes_eq key.key_secret t.secret
    then (if ltb now t.end' then ok (key, t.claims) else err expired)
    else err bad_signature

parse_toy : (Option Bytes → Result KeyError ApiKey) → ℕ → Bytes → Result JwtError (ApiKey × Claims)
parse_toy find now token = get_claims token >>= λ t. check_contents now t (find (some t.kid))

abbrev toy : Jwt
toy = record { sign = put_claims; parse_with_claims = parse_toy }

get-put_claims :
    (secret kid token : Bytes) (c : Claims) (end' : ℕ)
    → put_claims secret kid c ≡ ok token
    → c.exp ≡ some end'
    → get_claims token
      ≡ ok (record {
        secret = secret;
        kid = kid;
        end' = end';
        claims = record c { exp = some end' };
      })
unfolding put_claims get_claims get_number
get-put_claims secret kid token c end' h e = go c.iat c.exp refl refl
  where
    go :
        (i : Option (Option ℕ)) (x : Option ℕ)
        → c.iat ≡ i
        → c.exp ≡ x
        → get_claims token
          ≡ ok (record {
            secret = secret;
            kid = kid;
            end' = end';
            claims = record c { exp = some end' };
          })
    go none x p q = absurd (ground (arith, h, p))
    go (some none) x p q = absurd (ground (arith, h, p))
    go (some (some iat)) none p q = absurd (ground (arith, e, q))
    go (some (some iat)) (some x) p q =
        let same : x ≡ end' = ground (arith, e, q) in
        let t : token
            ≡ iat
              ∷ x
              ∷ put_text secret
                  (put_text kid (put_option c.capability (put_option c.client_id c.jti))) =
          ground (arith, h, p, q) in
        rw (t, same)
          (rw (get-put_text secret _) (
            rw (get-put_text kid _) (
              rw (get-put_option c.capability _)
                (rw (get-put_option c.client_id c.jti) (ground (arith, p))))))

found_key :
    (now : ℕ) (t : Contents) (key : ApiKey) (claims : Claims) (r : Result KeyError ApiKey)
    → check_contents now t r ≡ ok (key, claims)
    → r ≡ ok key
unfolding check_contents
found_key now t key claims (err e) h = absurd (ground (arith, h))
found_key now t key claims (ok k) h = ground (arith, h)

toy-IsJwt : IsJwt toy
unfolding parse_toy
toy-IsJwt = record {
  found = λ find now token key claims h. found find now token key claims (get_claims token) refl h;
  round_trip = λ secret kid token claims end' find key now signed exp at same early. (
    end',
    rw (get-put_claims secret kid token claims end' signed exp)
        (unfold check_contents in rw (at, same, bytes_eq_refl secret) (ground (arith, early))),
    omega arith,
    omega arith,
  );
}
  where
    found :
        (find : Option Bytes → Result KeyError ApiKey) (now : ℕ) (token : Bytes) (key : ApiKey)
        (claims : Claims) (r : Result JwtError Contents)
        → get_claims token ≡ r
        → parse_toy find now token ≡ ok (key, claims)
        → (kid : Option Bytes) × (find kid ≡ ok key)
    found find now token key claims (err e) g h = absurd (ground (arith, g, h))
    found find now token key claims (ok t) g h =
        (some t.kid, found_key now t key claims (find (some t.kid)) (ground (arith, g, h)))

-- A capability as a text: 0 ends a pattern, 1 an operation, and other bytes are shifted.
shift : Bytes → Bytes → Bytes
shift [] rest = rest
shift (c ∷ s) rest = suc (suc c) ∷ shift s rest

put_ops : List Op → Bytes → Bytes
put_ops [] rest = rest
put_ops (o ∷ ops) rest = 1 ∷ shift o (put_ops ops rest)

put_capability : Capability → Bytes
put_capability [] = []
put_capability ((pattern, ops) ∷ c) = 0 ∷ shift pattern (put_ops ops (put_capability c))

-- A text is read from its end.
put_byte : ℕ → Bytes × List Op × Capability → Bytes × List Op × Capability
put_byte zero (cur, ops, c) = ([], [], (cur, ops) ∷ c)
put_byte (suc zero) (cur, ops, c) = ([], cur ∷ ops, c)
put_byte (suc (suc b)) (cur, ops, c) = (b ∷ cur, ops, c)

get_capability : Bytes → Bytes × List Op × Capability
get_capability [] = ([], [], [])
get_capability (b ∷ s) = put_byte b (get_capability s)

get-shift :
    (s rest : Bytes) (ops : List Op) (c : Capability)
    → get_capability rest ≡ ([], ops, c)
    → get_capability (shift s rest) ≡ (s, ops, c)
unfolding get_capability shift
get-shift [] rest ops c h = h
get-shift (x ∷ s) rest ops c h =
    ap (put_byte (suc (suc x))) (get-shift s rest ops c h) ∙ (unfold put_byte in refl)

get-put_ops :
    (ops : List Op) (rest : Bytes) (c : Capability)
    → get_capability rest ≡ ([], [], c)
    → get_capability (put_ops ops rest) ≡ ([], ops, c)
unfolding put_ops get_capability
get-put_ops [] rest c h = h
get-put_ops (o ∷ ops) rest c h =
    ap (put_byte 1) (get-shift o (put_ops ops rest) ops c (get-put_ops ops rest c h))
    ∙ (unfold put_byte in refl)

get-put_capability : (c : Capability) → get_capability (put_capability c) ≡ ([], [], c)
unfolding put_capability get_capability
get-put_capability [] = refl
get-put_capability ((pattern, ops) ∷ c) =
    ap (put_byte 0) (
      get-shift pattern (put_ops ops (put_capability c)) ops c
        (get-put_ops ops (put_capability c) c (get-put_capability c)))
    ∙ (unfold put_byte in refl)

decode : Bytes → Option Capability
decode s = some (get_capability s).2

abbrev texts : Json
texts = record { unmarshal = decode; marshal = put_capability }

texts-IsReadBack : (c : Capability) → IsReadBack texts c
unfolding decode
texts-IsReadBack c =
    ap (λ (x : Bytes × List Op × Capability). some x.2) (get-put_capability (canonical c))

abbrev key : ApiKey
key = record {
  app_id = text "app";
  key_id = text "k";
  key_secret = text "s";
  cap = (text "news:*", text "publish" ∷ text "subscribe" ∷ []) ∷ [];
  cap_raw = [];
  raw = text "app.k:s";
}

-- For all channels, to publish.
abbrev request : TokenRequest
request = record {
  key_name = text "app.k";
  ttl = pos 1000;
  capability = 0 ∷ 44 ∷ 1 ∷ 114 ∷ 119 ∷ 100 ∷ 110 ∷ 107 ∷ 117 ∷ 106 ∷ [];
  client_id = text "ann";
  timestamp = pos 0;
  nonce = [];
  mac = [];
}

abbrev minted : Result AuthError IssuedToken
minted = mint_token toy texts (new_authenticator (key ∷ [])) 5000000000 request

abbrev issued : IssuedToken
issued = elim minted [
  | ok i ↦ i
  | err e ↦ record { token = []; issued = 0; expires = 0; capability = [] }
]

is_minted : (minted ≡ ok issued) × (issued.expires ≡ 6000000000)
unfolding mint_token mint_with lookup new_authenticator insert bytes_eq token_lifetime duration_of
    narrowed_text decode canonical insert_resource add_sorted insert_op is_empty intersect
    intersect_onto intersect_row intersect_ops common_ops add_ops encode_resource intersect_loop
    intersect_ordered intersect_path intersect_qualifier intersect_resource last_is_star
    parse_resource qualifier_type cut join split split_pieces get_capability put_byte put_claims
is_minted = (refl, refl)

verify_token-mint_token_example :
    (p : Principal) × (verify_token toy texts
        (new_authenticator (key ∷ []))
        5500000000
        5500000000
        issued.token
      ≡ ok p)
    × IsGrantOf toy texts (key ∷ []) 5000000000 request issued p
verify_token-mint_token_example =
    verify_token-mint_token toy texts (key ∷ []) 5000000000 request issued 5500000000 5500000000
      toy-IsJwt (λ k requested at h. texts-IsReadBack (intersect requested k.cap)) is_minted.0
      (omega arith) (omega (arith, is_minted.1))

key-AllNamed : AllNamed key.cap
unfolding parse_resource split bytes_eq
key-AllNamed = (refl, tt)

keys-AllNamed : (k : ApiKey) → IsConfigured k (key ∷ []) → AllNamed k.cap
keys-AllNamed k (zero, at) =
    let same : key ≡ k = ground (arith, at) in
    subst (λ (x : ApiKey). AllNamed x.cap) same key-AllNamed
keys-AllNamed k (suc i, at) = absurd (ground (arith, at))

-- A request with the key.
abbrev with_key : Request
with_key = record {
  authorization = text "Basic YXBwLms6cw==";
  basic_auth = some (text "app.k", text "s");
  query_access_token = [];
  query_access_token_alias = [];
  query_key = [];
}

abbrev holder : Principal
holder = basic_principal toy texts (new_authenticator (key ∷ [])) key

key_accepted :
    authenticate toy texts (new_authenticator (key ∷ [])) (λ s. s) (λ s. none) 5 6 with_key
    ≡ ok holder
unfolding authenticate extract_token cut_prefix extract_key match_key new_authenticator bytes_eq
key_accepted = refl

no_claim :
    (claimed : Capability)
    → parse_text texts holder.capability_text ≡ some claimed
    → AllNamed claimed
unfolding decode get_capability
no_claim claimed h = let same : [] ≡ claimed = ground (arith, h) in subst AllNamed same tt

authenticate-permits_example :
    (k : ApiKey) × IsConfigured k (key ∷ [])
    × ((channel : Bytes) (op : Op)
        → permits holder.capability channel op ≡ true
        → permits k.cap channel op ≡ true)
authenticate-permits_example =
    authenticate-permits toy texts (key ∷ []) (λ s. s) (λ s. none) 5 6 with_key holder toy-IsJwt
      keys-AllNamed no_claim key_accepted
