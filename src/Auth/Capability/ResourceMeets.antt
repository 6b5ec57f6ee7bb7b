-- ===== src/Auth/Capability/ResourceMeets.antt =====
-- internal/auth/capability.go: the resource that two patterns have in common.
use ably_server.Base.{
  ◌≤◌, ◌≡◌, ◌≢◌, refl, ap, ◌∙◌, ◌⊎◌, inl, inr, Bool, true, false, ◌&&◌, [], ◌∷◌, Option, none, some,
  Bytes, arith, Bool-cases, Option-cases, length, all, bytes_eq, bytes_eq_iff, split,
}
use ably_server.Auth.Capability.{
  Segments, is_star, parse_resource, qualifier_matches, paths_match, match_resource,
  intersect_qualifier, encode_resource, prepend, intersect_loop, intersect_ordered, intersect_path,
  intersect_resource,
}
use ably_server.Auth.Capability.PathMeets.{intersect_path-some, intersect_path-none}
use ably_server.Auth.Capability.Resources.{
  no_colon, plain, opens_bracket, parse_resource-IsParsed, parse_resource-encode_resource, IsParsed,
}

-- What a merge keeps of both paths.
module _ (P : Bytes → Bool) where
  all-loop :
      (l r m : Segments)
      → all P l ≡ true
      → all P r ≡ true
      → intersect_loop l r ≡ some m
      → all P m ≡ true
  unfolding intersect_loop
  all-loop [] r m h k e = ground arith
  all-loop (l ∷ ls) [] m h k e = ground arith
  all-loop (l ∷ []) (r ∷ rs) m h k e = ground arith
  all-loop (l ∷ l' ∷ ls) (r ∷ rs) m h k e = elim (Option-cases (intersect_loop (l' ∷ ls) rs)) [
    | inl none' ↦ ground arith
    | inr (m', some') ↦ ground (arith, all-loop (l' ∷ ls) rs m' (ground arith) (ground arith) some')
  ]

  all-intersect_path :
      (l r m : Segments)
      → all P l ≡ true
      → all P r ≡ true
      → intersect_path l r ≡ some m
      → all P m ≡ true
  unfolding intersect_path intersect_ordered
  all-intersect_path l r m h k e = ground (arith, all-loop l r m h k, all-loop r l m k h)

abbrev Begins : Segments → Type 0
Begins p = (opens_bracket p ≡ false) × (p ≢ [])

prepend-Begins :
    (x y : Bytes) (ps : Segments) (o : Option Segments) (m : Segments)
    → opens_bracket (x ∷ ps) ≡ false
    → prepend x o ≡ some m
    → Begins m
prepend-Begins [] y ps none m h e = ground arith
prepend-Begins (c ∷ x) y ps none m h e = ground arith
prepend-Begins [] y ps (some m') m h e =
    let same : [] ∷ m' ≡ m = ground arith in rw (← same) (refl, λ f. cc)
prepend-Begins (c ∷ x) y ps (some m') m h e =
    let same : (c ∷ x) ∷ m' ≡ m = ground arith in rw (← same) (h, λ f. cc)

loop-Begins : (l r m : Segments) → Begins l → Begins r → intersect_loop l r ≡ some m → Begins m
unfolding intersect_loop
loop-Begins [] r m h k e = absurd (h.1 refl)
loop-Begins (l ∷ ls) [] m h k e = ground arith
loop-Begins (l ∷ []) (r ∷ rs) m h k e = elim (Bool-cases (is_star l)) [
  | inl s ↦ let same : r ∷ rs ≡ m = ground arith in rw (← same) k
  | inr s ↦ prepend-Begins l r [] (some []) m h.0 (ground arith)
]
loop-Begins (l ∷ l' ∷ ls) (r ∷ rs) m h k e = elim (Bool-cases (is_star l)) [
  | inl s ↦ prepend-Begins r r rs (intersect_loop (l' ∷ ls) rs) m k.0 (ground arith)
  | inr s ↦ prepend-Begins l r (l' ∷ ls) (intersect_loop (l' ∷ ls) rs) m h.0 (ground arith)
]

intersect_path-Begins :
    (l r m : Segments) → Begins l → Begins r → intersect_path l r ≡ some m → Begins m
unfolding intersect_path intersect_ordered
intersect_path-Begins l r m h k e = ground (arith, loop-Begins l r m h k, loop-Begins r l m k h)

intersect_qualifier-some :
    (l r q : Bytes)
    → intersect_qualifier l r ≡ some q
    → ((q ≡ l) ⊎ (q ≡ r))
      × (qualifier_matches q [] ≡ (qualifier_matches l [] && qualifier_matches r []))
unfolding intersect_qualifier qualifier_matches
intersect_qualifier-some l r q e = ground (arith, bytes_eq_iff l r)

-- The name of the pattern does not itself open a bracket.
abbrev pub IsNamed : Bytes → Type 0
IsNamed r = opens_bracket (parse_resource r).1 ≡ false

intersect_resource-some :
    (l r j : Bytes)
    → intersect_resource l r ≡ some j
    → (q : Bytes) × (m : Segments) × (intersect_qualifier (parse_resource l).0 (parse_resource r).0
        ≡ some q)
      × (intersect_path (parse_resource l).1 (parse_resource r).1 ≡ some m)
      × (j ≡ encode_resource q m)
intersect_resource-some l r j e =
    elim (Option-cases (intersect_qualifier (parse_resource l).0 (parse_resource r).0)) [
      | inl eq ↦ absurd (unfold intersect_resource in ground (arith, e))
      | inr (q, eq) ↦
          elim (Option-cases (intersect_path (parse_resource l).1 (parse_resource r).1)) [
            | inl em ↦ absurd (unfold intersect_resource in ground (arith, e))
            | inr (m, em) ↦ (q, m, eq, em, unfold intersect_resource in ground (arith, e))
          ]
    ]

plain_side :
    {l r : Bytes} (q : Bytes) → plain l ≡ true → plain r ≡ true → (q ≡ l) ⊎ (q ≡ r) → plain q ≡ true
plain_side q h k (inl e) = rw e h
plain_side q h k (inr e) = rw e k

match_parts :
    (l r j q : Bytes) (m : Segments) (channel : Bytes)
    → parse_resource j ≡ (q, m)
    → qualifier_matches q []
      ≡ (qualifier_matches (parse_resource l).0 [] && qualifier_matches (parse_resource r).0 [])
    → paths_match m (split b':' channel) ≡ (
        paths_match (parse_resource l).1 (split b':' channel)
        && paths_match (parse_resource r).1 (split b':' channel))
    → match_resource j channel ≡ (match_resource l channel && match_resource r channel)
unfolding match_resource
match_parts l r j q m channel h k p = rw (h, k, p) (ground arith)

-- The common resource of two patterns matches exactly the channels that both match, for patterns
-- whose name part does not open a bracket.
pub match_resource-intersect_resource :
    (l r j channel : Bytes)
    → IsNamed l
    → IsNamed r
    → intersect_resource l r ≡ some j
    → match_resource j channel ≡ (match_resource l channel && match_resource r channel)
match_resource-intersect_resource l r j channel hl hr e =
    let (q, m, eq, em, ej) = intersect_resource-some l r j e in
    let (side, quals) = intersect_qualifier-some (parse_resource l).0 (parse_resource r).0 q eq in
    let vl = parse_resource-IsParsed l in
    let vr = parse_resource-IsParsed r in
    let begins = intersect_path-Begins _ _ m (hl, vl.cons) (hr, vr.cons) em in
    let plain_q : plain q ≡ true = plain_side q vl.qualifier vr.qualifier side in
    let v : IsParsed (q, m) = record {
      qualifier = plain_q;
      segments = all-intersect_path no_colon _ _ m vl.segments vr.segments em;
      cons = begins.1;
    } in
    let read = parse_resource-encode_resource q m v begins.0 in
    let paths = intersect_path-some _ _ m em (split b':' channel) in
    match_parts l r j q m channel (ap parse_resource ej ∙ read) quals paths

star_empty : is_star [] ≡ false
unfolding bytes_eq
star_empty = refl

no_qualifier :
    (l r : Bytes)
    → intersect_qualifier l r ≡ none
    → (qualifier_matches l [] && qualifier_matches r []) ≡ false
unfolding intersect_qualifier qualifier_matches
no_qualifier l r e =
    ground (arith, star_empty, bytes_eq_iff l r, bytes_eq_iff l [], bytes_eq_iff r [])

-- Where two patterns have no common resource, no channel with at least as many segments as both is
-- matched by both.
pub intersect_resource-none :
    (l r channel : Bytes)
    → intersect_resource l r ≡ none
    → length (parse_resource l).1 ≤ length (split b':' channel)
    → length (parse_resource r).1 ≤ length (split b':' channel)
    → (match_resource l channel && match_resource r channel) ≡ false
intersect_resource-none l r channel e hl hr =
    elim (Option-cases (intersect_qualifier (parse_resource l).0 (parse_resource r).0)) [
      | inl eq ↦
          unfold match_resource in
          ground (arith, no_qualifier (parse_resource l).0 (parse_resource r).0 eq)
      | inr (q, eq) ↦
          elim (Option-cases (intersect_path (parse_resource l).1 (parse_resource r).1)) [
            | inl em ↦
                unfold match_resource in
                ground (
                  arith,
                  intersect_path-none (parse_resource l).1 (parse_resource r).1 (split b':' channel)
                      em hl hr,
                )
            | inr (m, em) ↦ absurd (unfold intersect_resource in ground (arith, e))
          ]
    ]
