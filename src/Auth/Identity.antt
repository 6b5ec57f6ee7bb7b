-- ===== src/Auth/Identity.antt =====
-- internal/auth/auth.go: `ResolveClientID` and `MessageClientID`; internal/realtime/presence.go:
-- `resolvePresenceClientID`. Which client id an operation is stamped with.
mod Tests
use ably_server.Base.{
  ◌≡◌, ◌≢◌, ◌↔◌, ◌⊎◌, refl, sym, ap, ◌∙◌, inl, inr, Bool, true, false, not, ◌&&◌, ◌||◌, [], ◌∷◌,
  Option, none, some, ℕ, Bytes, text, arith, if◌then◌else◌, Bool-cases, bytes_eq, bytes_eq_iff,
  bytes_eq_refl,
}
use ably_server.Storage.{is_blank}
use ably_server.Auth.Capability.{Capability}

pub data Method : Type 0 where
  method_basic method_token : Method

-- `capability_text` is the raw claim; `expires_at` is `none` for the zero time.
pub record Principal : Type 0 where
  pub method : Method
  pub capability_text : Bytes
  pub client_id : Bytes
  pub has_client_id : Bool
  pub capability : Capability
  pub expires_at : Option ℕ

abbrev pub wildcard_client_id : Bytes
wildcard_client_id = text "*"

abbrev pub is_wildcard : Bytes → Bool
is_wildcard c = bytes_eq c wildcard_client_id

abbrev by_method : Method → Option Bytes → Option Bytes → Option Bytes
by_method method_basic basic token = basic
by_method method_token basic token = token

-- A token's claim and the parameter of the request.
unfoldable pub resolve_claim : Bytes → Bytes → Option Bytes
resolve_claim claim param =
    if is_wildcard claim
    then (if is_blank param
        then some wildcard_client_id
        else if is_wildcard param
        then none
        else some param)
    else if is_blank param || bytes_eq param claim
    then some claim
    else none

-- ResolveClientID; `none` is ErrClientIDMismatch.
unfoldable pub resolve_client_id : Principal → Bytes → Option Bytes
resolve_client_id p param =
    by_method p.method (some (if is_blank param then wildcard_client_id else param)) (
      if p.has_client_id
      then resolve_claim p.client_id param
      else if is_blank param
      then some []
      else none)

-- MessageClientID; `none` is a refusal.
unfoldable pub message_client_id : Bytes → Bytes → Option Bytes
message_client_id connection operation =
    if is_blank connection
    then (if is_blank operation then some [] else none)
    else if is_wildcard connection
    then (if is_wildcard operation then none else some operation)
    else if is_blank operation || bytes_eq operation connection
    then some connection
    else none

-- resolvePresenceClientID
unfoldable pub presence_client_id : Bytes → Bytes → Option Bytes
presence_client_id connection member =
    if is_blank connection
    then none
    else if is_wildcard connection
    then (if is_blank member || is_wildcard member then none else some member)
    else if is_blank member || bytes_eq member connection
    then some connection
    else none

-- A client id that names someone.
pub record IsConcrete (s : Bytes) : Type 0 where
  pub named : is_blank s ≡ false
  pub single : is_wildcard s ≡ false

-- Whom a credential may speak for: a key and a token for any client speak for everybody, a token
-- with a client id for that one, a token without for nobody.
abbrev pub SpeaksFor : Principal → Bytes → Type 0
SpeaksFor p s =
    (p.method ≡ method_basic)
    ⊎ ((p.has_client_id ≡ true) × ((p.client_id ≡ wildcard_client_id) ⊎ (p.client_id ≡ s)))

stamp-cases :
    (c operation s : Bytes)
    → message_client_id c operation ≡ some s
    → (s ≡ []) ⊎ (IsConcrete s × ((c ≡ wildcard_client_id) ⊎ (c ≡ s)))
unfolding message_client_id
stamp-cases c operation s h = elim (Bool-cases (is_blank s)) [
  | inl nobody ↦ inl ((bytes_eq_iff s []).0 nobody)
  | inr named ↦ elim (Bool-cases (is_wildcard c)) [
    | inl any ↦
        let w : c ≡ wildcard_client_id = (bytes_eq_iff c wildcard_client_id).0 any in
        let single : is_wildcard s ≡ false =
          ground (arith, bytes_eq_iff c [], bytes_eq_iff operation s) in
        inr (record { named = named; single = single }, inl w)
    | inr one ↦
        let same : c ≡ s = ground (arith, bytes_eq_iff s []) in
        inr (record { named = named; single = ap is_wildcard (sym same) ∙ one }, inr same)
  ]
]

resolve_claim-cases :
    (claim param c : Bytes)
    → resolve_claim claim param ≡ some c
    → (claim ≡ wildcard_client_id) ⊎ (c ≡ claim)
unfolding resolve_claim
resolve_claim-cases claim param c h = ground (arith, bytes_eq_iff claim wildcard_client_id)

claim-cases :
    (p : Principal) (param c : Bytes)
    → resolve_client_id p param ≡ some c
    → (c ≡ []) ⊎ ((s : Bytes) → (c ≡ wildcard_client_id) ⊎ (c ≡ s) → SpeaksFor p s)
unfolding resolve_client_id
claim-cases p param c h = go p.method refl
  where
    go :
        (m : Method)
        → p.method ≡ m
        → (c ≡ []) ⊎ ((s : Bytes) → (c ≡ wildcard_client_id) ⊎ (c ≡ s) → SpeaksFor p s)
    go method_basic e = inr (λ s _. inl e)
    go method_token e = elim (Bool-cases p.has_client_id) [
      | inr without ↦ inl (ground arith)
      | inl carries ↦
          let found : resolve_claim p.client_id param ≡ some c = ground arith in
          elim (resolve_claim-cases p.client_id param c found) [
            | inl any ↦ inr (λ s _. inr (carries, inl any))
            | inr same ↦ inr (λ s o.
                inr (carries, elim o [ inl w ↦ inl (sym same ∙ w) | inr q ↦ inr (sym same ∙ q) ]))
          ]
    ]

pinned :
    (p : Principal) (param c : Bytes)
    → IsConcrete param
    → resolve_client_id p param ≡ some c
    → c ≡ param
unfolding resolve_client_id resolve_claim
pinned p param c v h = go p.method refl
  where
    go : (m : Method) → p.method ≡ m → c ≡ param
    go method_basic e = ground (arith, v.named)
    go method_token e = ground (arith, v.named, v.single, bytes_eq_iff param p.client_id)

-- What an operation is stamped with, on a connection whose client id was resolved from the
-- credential and the request's parameter, is no client id or the one of somebody whom the credential
-- speaks for, never the wildcard; with a parameter that names someone it is no other than that. A
-- presence operation is accepted exactly where a message would be stamped with a client id, and is
-- stamped alike.
pub message_client_id-resolve_client_id :
    (p : Principal) (param connection operation : Bytes)
    → resolve_client_id p param ≡ some connection
    → ((s : Bytes)
        → message_client_id connection operation ≡ some s
        → ((s ≡ []) ⊎ (IsConcrete s × SpeaksFor p s)) × (IsConcrete param → s ≡ param))
      × ((s : Bytes)
          → (presence_client_id connection operation ≡ some s)
            ↔ ((message_client_id connection operation ≡ some s) × (is_blank s ≡ false)))
unfolding message_client_id presence_client_id
message_client_id-resolve_client_id p param connection operation h = (
  λ s m. (
    elim (stamp-cases connection operation s m) [
      | inl nobody ↦ inl nobody
      | inr (v, o) ↦ elim (claim-cases p param connection h) [
        | inl nobody ↦ inl (ground (arith, bytes_eq_iff connection []))
        | inr speaks ↦ inr (v, speaks s o)
      ]
    ],
    λ v.
        let same = pinned p param connection v h in
        ground (arith, v.named, v.single, same, ap is_blank same, ap is_wildcard same),
  ),
  λ s. (ground (arith, bytes_eq_iff s []), ground (arith, bytes_eq_iff s [])),
)
