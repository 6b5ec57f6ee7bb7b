-- ===== src/Auth/Capability/Resources.antt =====
-- internal/auth/capability.go: reading and writing a resource.
use ably_server.Base.{
  ◌≡◌, ◌≢◌, refl, ap, ◌∙◌, inl, inr, Bool, true, false, not, ◌&&◌, [], ◌∷◌, ◌++◌, some, Bytes,
  arith, ◌==◌, if◌then◌else◌, Bool-cases, Option-cases, all, cut, split, split_pieces, join,
  contains, split-join,
}
use ably_server.Auth.Capability.{
  Segments, qualifier_type, parse_resource, closed_bracket, encode_resource,
}

-- A segment of a name.
abbrev pub no_colon : Bytes → Bool
no_colon p = if contains b':' p then false else true

-- A qualifier type: no bracket, parameter or query.
abbrev pub plain : Bytes → Bool
plain q = all (λ c. not (c == b']') && not (c == b'=') && not (c == b'?')) q

abbrev pub opens_bracket : Segments → Bool
opens_bracket [] = false
opens_bracket ([] ∷ ps) = false
opens_bracket ((c ∷ cs) ∷ ps) = c == b'['

qualifier_type-plain : (q : Bytes) → plain q ≡ true → qualifier_type q ≡ q
unfolding qualifier_type
qualifier_type-plain [] h = refl
qualifier_type-plain (c ∷ q) h = ground (arith, qualifier_type-plain q)

cut-plain : (q s : Bytes) → plain q ≡ true → cut b']' (q ++ b']' ∷ s) ≡ some (q, s)
unfolding cut
cut-plain [] s h = refl
cut-plain (c ∷ q) s h = ground (arith, cut-plain q s)

-- What `cut` and `qualifier_type` leave is plain.
cut-no_bracket : (s q n : Bytes) → cut b']' s ≡ some (q, n) → all (λ c. not (c == b']')) q ≡ true
unfolding cut
cut-no_bracket [] q n h = ground arith
cut-no_bracket (c ∷ s) q n h = elim (Option-cases (cut b']' s)) [
  | inl e ↦ ground arith
  | inr ((q', n'), e) ↦ ground (arith, cut-no_bracket s q' n' e)
]

plain-qualifier_type :
    (q : Bytes) → all (λ c. not (c == b']')) q ≡ true → plain (qualifier_type q) ≡ true
unfolding qualifier_type
plain-qualifier_type [] h = refl
plain-qualifier_type (c ∷ q) h = ground (arith, plain-qualifier_type q)

no_colon-split : (s : Bytes) → all no_colon (split b':' s) ≡ true
unfolding split split_pieces
no_colon-split [] = refl
no_colon-split (c ∷ s) = ground (arith, no_colon-split s)

split-cons : (s : Bytes) → split b':' s ≢ []
unfolding split
split-cons s h = cc

-- What reading a resource gives: a plain qualifier type and a path of segments, one at least.
pub record IsParsed (r : Bytes × Segments) : Type 0 where
  pub qualifier : plain r.0 ≡ true
  pub segments : all no_colon r.1 ≡ true
  pub cons : r.1 ≢ []

split-IsParsed : (q s : Bytes) → plain q ≡ true → IsParsed (q, split b':' s)
split-IsParsed q s h = record { qualifier = h; segments = no_colon-split s; cons = split-cons s }

pub parse_resource-IsParsed : (r : Bytes) → IsParsed (parse_resource r)
unfolding parse_resource
parse_resource-IsParsed [] = split-IsParsed [] [] refl
parse_resource-IsParsed (c ∷ r) = elim (Bool-cases (c == b'[')) [
  | inl bracket ↦ elim (Option-cases (cut b']' r)) [
    | inl e ↦ rw (bracket, e, closed_bracket) (split-IsParsed [] (c ∷ r) refl)
    | inr ((q, n), e) ↦
        rw (bracket, e, closed_bracket)
          (split-IsParsed (qualifier_type q) n (plain-qualifier_type q (cut-no_bracket r q n e)))
  ]
  | inr name ↦ rw name (split-IsParsed [] (c ∷ r) refl)
]

starts_bracket : Bytes → Bool
starts_bracket [] = false
starts_bracket (c ∷ cs) = c == b'['

parse_resource-name : (s : Bytes) → starts_bracket s ≡ false → parse_resource s ≡ ([], split b':' s)
unfolding parse_resource starts_bracket
parse_resource-name [] h = refl
parse_resource-name (c ∷ s) h = rw h

starts_bracket-join :
    (path : Segments) → opens_bracket path ≡ false → starts_bracket (join b':' path) ≡ false
unfolding starts_bracket join
starts_bracket-join [] h = refl
starts_bracket-join ([] ∷ []) h = refl
starts_bracket-join ([] ∷ q ∷ path) h = refl
starts_bracket-join ((c ∷ p) ∷ []) h = h
starts_bracket-join ((c ∷ p) ∷ q ∷ path) h = h

split-join_path :
    (path : Segments) → all no_colon path ≡ true → path ≢ [] → split b':' (join b':' path) ≡ path
split-join_path [] h k = absurd (k refl)
split-join_path (p ∷ path) h k = split-join b':' p path h

-- Reading what was written gives the qualifier and the path back, for a plain qualifier and a path
-- of segments, one at least, whose first does not open a bracket.
pub parse_resource-encode_resource :
    (q : Bytes) (path : Segments)
    → IsParsed (q, path)
    → opens_bracket path ≡ false
    → parse_resource (encode_resource q path) ≡ (q, path)
unfolding encode_resource
parse_resource-encode_resource [] path v h =
    parse_resource-name (join b':' path) (starts_bracket-join path h)
    ∙ ap (λ p. ([], p)) (split-join_path path v.segments v.cons)
parse_resource-encode_resource (c ∷ q) path v h =
    unfold parse_resource in
    rw (cut-plain (c ∷ q) (join b':' path) v.qualifier, closed_bracket)
      (rw (qualifier_type-plain (c ∷ q) v.qualifier, split-join_path path v.segments v.cons) refl)
