-- ===== src/Auth/Capability/Tests.antt =====
-- internal/auth/capability.go on concrete input.
use ably_server.Base.{
  bytes_eq, ◌↔◌, ◌≡◌, refl, true, false, [], ◌∷◌, ◌++◌, arith, text, split, join, cut,
}
use ably_server.Auth.Capability.{
  Op, Capability, op_wildcard, allow_all, grants, parse_resource, match_resource, paths_match,
  permits, intersect, intersect_resource, intersect_path, intersect_ordered, intersect_loop,
  last_is_star, encode_resource, intersect_ops, qualifier_type, qualifier_matches, closed_bracket,
  intersect_qualifier, intersect_onto, intersect_row, add_ops, common_ops,
}
use ably_server.Auth.Capability.Paths.{Matches, paths_match_iff}
use ably_server.Auth.Capability.Narrowing.{
  AllNamed, permits-intersect_sound, permits-intersect_complete,
}
use ably_server.Auth.Capability.Brackets.{bracket_escapes}

abbrev publish : Op
publish = text "publish"

abbrev subscribe : Op
subscribe = text "subscribe"

-- Two capabilities: all on one namespace, and publish on its third level.
abbrev key : Capability
key = (text "orders:*", op_wildcard ∷ []) ∷ []

abbrev request : Capability
request = (text "*:eu:*", publish ∷ []) ∷ []

parsed : parse_resource (text "[meta=x]a:b") ≡ (text "meta", text "a" ∷ text "b" ∷ [])
unfolding parse_resource closed_bracket qualifier_type cut split bytes_eq
parsed = refl

narrowed : intersect key request ≡ ((text "orders:eu:*", publish ∷ []) ∷ [])
unfolding intersect intersect_onto intersect_row add_ops common_ops intersect_ops intersect_resource
    parse_resource closed_bracket qualifier_type cut split intersect_qualifier intersect_path
    intersect_ordered intersect_loop last_is_star encode_resource join bytes_eq
narrowed = refl

key-AllNamed : AllNamed key
unfolding parse_resource closed_bracket split bytes_eq
key-AllNamed = (refl, tt)

request-AllNamed : AllNamed request
unfolding parse_resource closed_bracket split bytes_eq
request-AllNamed = (refl, tt)

permits-intersect_sound_example :
    (permits key (text "orders:eu:1") publish ≡ true)
    × (permits request (text "orders:eu:1") publish ≡ true)
unfolding intersect intersect_onto intersect_row add_ops common_ops intersect_ops intersect_resource
    parse_resource closed_bracket qualifier_type cut split intersect_qualifier intersect_path
    intersect_ordered intersect_loop last_is_star encode_resource join permits match_resource
    paths_match qualifier_matches bytes_eq
permits-intersect_sound_example =
    permits-intersect_sound key request (text "orders:eu:1") publish key-AllNamed request-AllNamed
      refl

permits-intersect_complete_example :
    permits (intersect key request) (text "orders:eu:1") publish ≡ true
unfolding permits match_resource paths_match qualifier_matches parse_resource split bytes_eq
permits-intersect_complete_example =
    permits-intersect_complete key request (text "orders:eu:1") publish key-AllNamed
      request-AllNamed (omega arith, tt) (omega arith, tt) refl refl

bracket_escapes_example :
    (permits
        (intersect allow_all ((text "[][*]" ++ text "secret", publish ∷ []) ∷ []))
        (text "secret")
        publish
      ≡ grants (publish ∷ []) publish)
    × (permits ((text "[][*]" ++ text "secret", publish ∷ []) ∷ []) (text "secret") publish ≡ false)
bracket_escapes_example = bracket_escapes (text "secret") (publish ∷ []) publish

paths_match_iff_example :
    (paths_match (text "a" ∷ text "*" ∷ []) (text "a" ∷ text "b" ∷ []) ≡ true)
    ↔ Matches (text "a" ∷ text "*" ∷ []) (text "a" ∷ text "b" ∷ [])
paths_match_iff_example = paths_match_iff (text "a" ∷ text "*" ∷ []) (text "a" ∷ text "b" ∷ [])
