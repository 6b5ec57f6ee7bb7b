-- ===== src/Auth/Capability/Requests.antt =====
-- internal/auth/capability.go: `ParseCapability` and `ValidateCapability` on the decoded map. `none` is
-- text that is no JSON object of lists of strings.
use ably_server.Base.{
  ℕ, ◌≡◌, ◌↔◌, refl, inl, inr, Bool, true, false, not, ◌&&◌, ◌||◌, List, [], ◌∷◌, Option, none,
  some, Bytes, arith, ◌==◌, if◌then◌else◌, Option-cases, length, any, all, text, bytes_eq, Result,
  ok, err,
}
use ably_server.Auth.Capability.{Op, Capability, is_star}

abbrev pub Raw : Type 0
Raw = List (Bytes × List Bytes)

pub data CapabilityError : Type 0 where
  not_an_object no_operations mixed_wildcard invalid_operation : CapabilityError

abbrev pub parse_capability : Option Raw → Result CapabilityError Capability
parse_capability none = err not_an_object
parse_capability (some raw) = ok raw

abbrev pub valid_capability_ops : List Op
valid_capability_ops =
    text "publish"
    ∷ text "subscribe"
    ∷ text "presence"
    ∷ text "history"
    ∷ text "stats"
    ∷ text "message-subscribe"
    ∷ text "presence-subscribe"
    ∷ text "message-update-own"
    ∷ text "message-update-any"
    ∷ text "message-delete-own"
    ∷ text "message-delete-any"
    ∷ text "annotation-publish"
    ∷ text "annotation-subscribe"
    ∷ text "push-subscribe"
    ∷ text "push-admin"
    ∷ text "channel-metadata"
    ∷ text "channel-metadata:publishers"
    ∷ text "object-subscribe"
    ∷ text "object-publish"
    ∷ text "list-channels"
    ∷ text "privileged-headers"
    ∷ text "connection-metadata"
    ∷ []

pub is_valid_op : Op → Bool
is_valid_op o = any (λ v. bytes_eq v o) valid_capability_ops

-- The inner loop: the operations left of a list of `count`.
pub check_ops : ℕ → List Op → Option CapabilityError
check_ops count [] = none
check_ops count (o ∷ ops) =
    let rest = check_ops count ops in
    if is_star o
    then if count == 1 then rest else some mixed_wildcard
    else if is_valid_op o
    then rest
    else some invalid_operation

-- The outer loop; `none` is no violation.
pub check_resources : Raw → Option CapabilityError
unfolding check_ops
check_resources [] = none
check_resources ((resource, []) ∷ raw) = some no_operations
check_resources ((resource, o ∷ ops) ∷ raw) = elim (check_ops (length (o ∷ ops)) (o ∷ ops)) [
  | some e ↦ some e
  | none ↦ check_resources raw
]

pub validate_capability : Option Raw → Option CapabilityError
unfolding check_resources
validate_capability none = some not_an_object
validate_capability (some raw) = check_resources raw

-- The list of one resource: the wildcard alone, or valid operations, one at least.
abbrev pub is_well_formed : List Op → Bool
is_well_formed [] = false
is_well_formed (o ∷ []) = is_star o || is_valid_op o
is_well_formed (o ∷ p ∷ ops) = all (λ x. not (is_star x) && is_valid_op x) (o ∷ p ∷ ops)

abbrev is_none : Option CapabilityError → Bool
is_none none = true
is_none (some e) = false

check_ops_many :
    (count : ℕ) (ops : List Op)
    → (count == 1) ≡ false
    → is_none (check_ops count ops) ≡ all (λ x. not (is_star x) && is_valid_op x) ops
unfolding check_ops
check_ops_many count [] h = refl
check_ops_many count (o ∷ ops) h = ground (arith, check_ops_many count ops h)

check_ops-is_well_formed :
    (o : Op) (ops : List Op)
    → is_none (check_ops (length (o ∷ ops)) (o ∷ ops)) ≡ is_well_formed (o ∷ ops)
check_ops-is_well_formed o [] = unfold check_ops in ground arith
check_ops-is_well_formed o (p ∷ ops) =
    check_ops_many (length (o ∷ p ∷ ops)) (o ∷ p ∷ ops) (ground arith)

check_resources-is_none :
    (raw : Raw) → is_none (check_resources raw) ≡ all (λ r. is_well_formed r.1) raw
unfolding check_resources
check_resources-is_none [] = refl
check_resources-is_none ((resource, []) ∷ raw) = refl
check_resources-is_none ((resource, o ∷ ops) ∷ raw) =
    elim (Option-cases (check_ops (length (o ∷ ops)) (o ∷ ops))) [
      | inl e ↦ ground (arith, e, check_ops-is_well_formed o ops, check_resources-is_none raw)
      | inr (x, e) ↦ ground (arith, e, check_ops-is_well_formed o ops)
    ]

accepted :
    (r s : Raw)
    → some r ≡ some s
    → all (λ e. is_well_formed e.1) s ≡ true
    → check_resources r ≡ none
accepted r s e h = ground (arith, check_resources-is_none r, check_resources-is_none s)

-- A request is accepted exactly when it decodes and each of its resources lists the wildcard alone,
-- or only valid operations other than the wildcard, one at least.
validate_capability_iff :
    (raw : Option Raw)
    → (validate_capability raw ≡ none)
      ↔ ((r : Raw) × (raw ≡ some r) × (all (λ e. is_well_formed e.1) r ≡ true))
unfolding validate_capability
validate_capability_iff none = (λ h. absurd (cc), λ h. absurd (cc h.1))
validate_capability_iff (some r) =
    (λ h. (r, refl, ground (arith, check_resources-is_none r, h)), λ (s, e, h). accepted r s e h)
