-- ===== src/Auth/Capability/Narrowing.antt =====
-- internal/auth/capability.go: what an intersected capability permits.
use ably_server.Base.{
  ◌≤◌, ◌≡◌, refl, ◌∙◌, inl, inr, Bool, true, false, ◌&&◌, ◌||◌, List, [], ◌∷◌, ◌++◌, Option, none,
  some, Bytes, arith, Bool-cases, Option-cases, length, any-append, bytes_eq, bytes_eq_iff,
  bytes_eq_refl, split,
}
use ably_server.Auth.Capability.{
  Op, Capability, op_wildcard, grants, parse_resource, match_resource, permits, intersect_ops,
  intersect_resource, add_ops, add_common, intersect_row, intersect_onto, intersect,
}
use ably_server.Auth.Capability.Ops.{grants-intersect_ops}
use ably_server.Auth.Capability.ResourceMeets.{
  IsNamed, match_resource-intersect_resource, intersect_resource-none,
}

abbrev pub AllNamed : Capability → Type 0
AllNamed [] = Unit {0}
AllNamed ((pattern, ops) ∷ c) = IsNamed pattern × AllNamed c

-- No pattern has more segments than the channel.
abbrev pub AllWithin : Bytes → Capability → Type 0
AllWithin channel [] = Unit {0}
AllWithin channel ((pattern, ops) ∷ c) =
    (length (parse_resource pattern).1 ≤ length (split b':' channel)) × AllWithin channel c

grants-append : (a b : List Op) (o : Op) → grants (a ++ b) o ≡ (grants a o || grants b o)
grants-append a b o =
    ground (arith, any-append (λ x. bytes_eq x o) a b, any-append (λ x. bytes_eq x op_wildcard) a b)

module _ (channel : Bytes) (op : Op) where
  permits-add_ops :
      (joined : Bytes) (ops : List Op) (c : Capability)
      → permits (add_ops joined ops c) channel op
        ≡ ((match_resource joined channel && grants ops op) || permits c channel op)
  unfolding permits add_ops
  permits-add_ops joined ops [] = refl
  permits-add_ops joined ops ((pattern, granted) ∷ c) =
      elim (Bool-cases (bytes_eq pattern joined)) [
        | inl same ↦
            rw ((bytes_eq_iff pattern joined).0 same, bytes_eq_refl joined)
              (ground (arith, grants-append granted ops op))
        | inr other ↦ ground (arith, other, permits-add_ops joined ops c)
      ]

  abbrev pub resource_matches : Option Bytes → Bool
  resource_matches none = false
  resource_matches (some j) = match_resource j channel

  permits-add_common :
      (ops : List Op) (r : Option Bytes) (c : Capability)
      → permits (add_common ops r c) channel op
        ≡ ((resource_matches r && grants ops op) || permits c channel op)
  permits-add_common [] none c = refl
  permits-add_common [] (some j) c = ground arith
  permits-add_common (o ∷ ops) none c = refl
  permits-add_common (o ∷ ops) (some j) c = permits-add_ops j (o ∷ ops) c

  abbrev pub pair : Bytes → List Op → Bytes → List Op → Bool
  pair l l_ops r r_ops =
      resource_matches (intersect_resource l r) && grants l_ops op && grants r_ops op

  abbrev pub row : Bytes → List Op → Capability → Bool
  row l l_ops [] = false
  row l l_ops ((r, r_ops) ∷ other) = pair l l_ops r r_ops || row l l_ops other

  permits-intersect_row :
      (l : Bytes) (l_ops : List Op) (other out : Capability)
      → permits (intersect_row l l_ops other out) channel op
        ≡ (row l l_ops other || permits out channel op)
  unfolding intersect_row
  permits-intersect_row l l_ops [] out = refl
  permits-intersect_row l l_ops ((r, r_ops) ∷ other) out =
      permits-intersect_row l l_ops other
        (add_common (intersect_ops l_ops r_ops) (intersect_resource l r) out)
      ∙ ground (
        arith,
        permits-add_common (intersect_ops l_ops r_ops) (intersect_resource l r) out,
        grants-intersect_ops l_ops r_ops op,
      )

  abbrev pub table : Capability → Capability → Bool
  table [] other = false
  table ((l, l_ops) ∷ c) other = row l l_ops other || table c other

  pub permits-intersect_onto :
      (c other out : Capability)
      → permits (intersect_onto c other out) channel op ≡ (table c other || permits out channel op)
  unfolding intersect_onto
  permits-intersect_onto [] other out = refl
  permits-intersect_onto ((l, l_ops) ∷ c) other out =
      permits-intersect_onto c other (intersect_row l l_ops other out)
      ∙ ground (arith, permits-intersect_row l l_ops other out)

  resource_matches_sound :
      (l r : Bytes)
      → IsNamed l
      → IsNamed r
      → resource_matches (intersect_resource l r) ≡ true
      → (match_resource l channel ≡ true) × (match_resource r channel ≡ true)
  resource_matches_sound l r hl hr h = elim (Option-cases (intersect_resource l r)) [
    | inl e ↦ ground (arith, e)
    | inr (j, e) ↦ ground (arith, e, match_resource-intersect_resource l r j channel hl hr e)
  ]

  row_sound :
      (l : Bytes) (l_ops : List Op) (other : Capability)
      → IsNamed l
      → AllNamed other
      → row l l_ops other ≡ true
      → (match_resource l channel ≡ true)
        × (grants l_ops op ≡ true)
        × (permits other channel op ≡ true)
  unfolding permits
  row_sound l l_ops [] hl h e = ground arith
  row_sound l l_ops ((r, r_ops) ∷ other) hl h e =
      ground (arith, resource_matches_sound l r hl h.0, row_sound l l_ops other hl h.1)

  table_sound :
      (c other : Capability)
      → AllNamed c
      → AllNamed other
      → table c other ≡ true
      → (permits c channel op ≡ true) × (permits other channel op ≡ true)
  unfolding permits
  table_sound [] other hc h e = ground arith
  table_sound ((l, l_ops) ∷ c) other hc h e =
      ground (arith, row_sound l l_ops other hc.0 h, table_sound c other hc.1 h)

pub permits-none : (channel : Bytes) (op : Op) → permits [] channel op ≡ false
unfolding permits
permits-none channel op = refl

-- What an intersection permits, both capabilities permit, for patterns whose name part does not
-- open a bracket.
pub permits-intersect_sound :
    (c other : Capability) (channel : Bytes) (op : Op)
    → AllNamed c
    → AllNamed other
    → permits (intersect c other) channel op ≡ true
    → (permits c channel op ≡ true) × (permits other channel op ≡ true)
unfolding intersect
permits-intersect_sound c other channel op hc ho h =
    table_sound channel op c other hc ho
      (ground (arith, permits-intersect_onto channel op c other [], permits-none channel op))

module _ (channel : Bytes) (op : Op) where
  resource_matches_complete :
      (l r : Bytes)
      → IsNamed l
      → IsNamed r
      → length (parse_resource l).1 ≤ length (split b':' channel)
      → length (parse_resource r).1 ≤ length (split b':' channel)
      → (match_resource l channel && match_resource r channel) ≡ true
      → resource_matches channel op (intersect_resource l r) ≡ true
  resource_matches_complete l r hl hr kl kr h = elim (Option-cases (intersect_resource l r)) [
    | inl e ↦ ground (arith, intersect_resource-none l r channel e kl kr)
    | inr (j, e) ↦ ground (arith, e, match_resource-intersect_resource l r j channel hl hr e)
  ]

  row_complete :
      (l : Bytes) (l_ops : List Op) (other : Capability)
      → IsNamed l
      → AllNamed other
      → length (parse_resource l).1 ≤ length (split b':' channel)
      → AllWithin channel other
      → (match_resource l channel && grants l_ops op && permits other channel op) ≡ true
      → row channel op l l_ops other ≡ true
  unfolding permits
  row_complete l l_ops [] hl h kl k e = ground arith
  row_complete l l_ops ((r, r_ops) ∷ other) hl h kl k e =
      ground (
        arith,
        resource_matches_complete l r hl h.0 kl k.0,
        row_complete l l_ops other hl h.1 kl k.1,
      )

  table_complete :
      (c other : Capability)
      → AllNamed c
      → AllNamed other
      → AllWithin channel c
      → AllWithin channel other
      → (permits c channel op && permits other channel op) ≡ true
      → table channel op c other ≡ true
  unfolding permits
  table_complete [] other hc h kc k e = ground arith
  table_complete ((l, l_ops) ∷ c) other hc h kc k e =
      ground (arith, row_complete l l_ops other hc.0 h kc.0 k, table_complete c other hc.1 h kc.1 k)

-- What both capabilities permit, their intersection permits, on every channel with at least as many
-- segments as each pattern, for patterns whose name part does not open a bracket.
pub permits-intersect_complete :
    (c other : Capability) (channel : Bytes) (op : Op)
    → AllNamed c
    → AllNamed other
    → AllWithin channel c
    → AllWithin channel other
    → permits c channel op ≡ true
    → permits other channel op ≡ true
    → permits (intersect c other) channel op ≡ true
unfolding intersect
permits-intersect_complete c other channel op hc ho kc ko h k = ground (
  arith,
  permits-intersect_onto channel op c other [],
  table_complete channel op c other hc ho kc ko,
)
