-- ===== src/Auth/Capability/Brackets.antt =====
-- internal/auth/capability.go: patterns whose name part opens a bracket.
use ably_server.Base.{
  ℕ, ◌≡◌, refl, ap, ◌∙◌, true, false, List, [], ◌∷◌, ◌++◌, some, Bytes, arith, text, bytes_eq,
  bytes_eq_refl, bytes_eq_iff, Bool-cases, ◌==◌, inl, inr, length, cut, split, split_pieces, join,
}
use ably_server.Auth.Capability.{
  Op, Segments, is_star, allow_all, grants, parse_resource, match_resource, permits,
  intersect_resource, qualifier_type, qualifier_matches, intersect_path, intersect_ordered,
  intersect_loop, last_is_star, encode_resource, intersect_qualifier, paths_match, intersect,
}
use ably_server.Auth.Capability.Narrowing.{permits-intersect_onto, resource_matches, permits-none}

match_self : (p : Segments) → paths_match p p ≡ true
unfolding paths_match
match_self [] = refl
match_self (x ∷ []) = ground (arith, bytes_eq_refl x)
match_self (x ∷ y ∷ p) = ground (arith, bytes_eq_refl x, match_self (y ∷ p))

join_cons :
    (c : ℕ) (s : Bytes) (p : Bytes) (ps : Segments)
    → c ≡ b':'
    → join b':' (p ∷ ps) ≡ s
    → join b':' ([] ∷ p ∷ ps) ≡ c ∷ s
unfolding join
join_cons c s p ps e h = rw (e, h)

join_head :
    (c : ℕ) (s : Bytes) (p : Bytes) (ps : Segments)
    → join b':' (p ∷ ps) ≡ s
    → join b':' ((c ∷ p) ∷ ps) ≡ c ∷ s
unfolding join
join_head c s p [] h = ap (◌∷◌ c) h
join_head c s p (q ∷ ps) h = ap (◌∷◌ c) h

-- Joining the pieces of a split text.
join-pieces : (s : Bytes) → join b':' ((split_pieces b':' s).0 ∷ (split_pieces b':' s).1) ≡ s
unfolding split_pieces
join-pieces [] = unfold join in refl
join-pieces (c ∷ s) = elim (Bool-cases (c == b':')) [
  | inl colon ↦
      rw colon (
        join_cons c s (split_pieces b':' s).0 (split_pieces b':' s).1 (ground arith)
          (join-pieces s))
  | inr other ↦
      rw other (join_head c s (split_pieces b':' s).0 (split_pieces b':' s).1 (join-pieces s))
]

abbrev first : Bytes → Bytes
first name = (split_pieces b':' name).0

abbrev others : Bytes → Segments
others name = (split_pieces b':' name).1

abbrev starred : Bytes → Bytes
starred name = text "[*]" ++ name

parse-pattern :
    (name : Bytes)
    → parse_resource (text "[][*]" ++ name) ≡ ([], starred (first name) ∷ others name)
unfolding parse_resource cut qualifier_type split split_pieces
parse-pattern name = refl

parse-all : parse_resource (text "*") ≡ ([], text "*" ∷ [])
unfolding parse_resource split split_pieces
parse-all = refl

parse-escaped : (name : Bytes) → parse_resource (starred name) ≡ (text "*", split b':' name)
unfolding parse_resource cut qualifier_type
parse-escaped name = refl

intersect-star :
    (x : Bytes) (xs : Segments)
    → is_star x ≡ false
    → intersect_path (text "*" ∷ []) (x ∷ xs) ≡ some (x ∷ xs)
unfolding intersect_path intersect_ordered intersect_loop last_is_star bytes_eq
intersect-star x [] h = ground arith
intersect-star x (y ∷ xs) h = ground arith

no_qualifiers : intersect_qualifier [] [] ≡ some []
unfolding intersect_qualifier bytes_eq
no_qualifiers = refl

starred-not_star : (x : Bytes) → is_star (starred x) ≡ false
unfolding bytes_eq
starred-not_star x = refl

path-star :
    (name : Bytes)
    → intersect_path (text "*" ∷ []) (starred (first name) ∷ others name)
      ≡ some (starred (first name) ∷ others name)
path-star name = intersect-star (starred (first name)) (others name) (starred-not_star (first name))

join-starred : (name : Bytes) → join b':' (starred (first name) ∷ others name) ≡ starred name
join-starred name = join_head b'[' (b'*' ∷ b']' ∷ name) (b'*' ∷ b']' ∷ first name) (others name) (
    join_head b'*' (b']' ∷ name) (b']' ∷ first name) (others name)
      (join_head b']' name (first name) (others name) (join-pieces name)))

starred-ne : (x : Bytes) → bytes_eq x (starred x) ≡ false
starred-ne x = elim (Bool-cases (bytes_eq x (starred x))) [
  | inl e ↦ absurd (omega (arith, ap length ((bytes_eq_iff x (starred x)).0 e)))
  | inr e ↦ e
]

no_match : (x : Bytes) (xs : Segments) → paths_match (starred x ∷ xs) (x ∷ xs) ≡ false
unfolding paths_match
no_match x [] = ground (arith, starred-ne x, starred-not_star x)
no_match x (y ∷ xs) = ground (arith, starred-ne x, starred-not_star x)

common : (name : Bytes) → intersect_resource (text "*") (text "[][*]" ++ name) ≡ some (starred name)
unfolding intersect_resource
common name =
    rw (parse-pattern name, parse-all, no_qualifiers, intersect_resource)
      (rw (parse-pattern name, parse-all, path-star name, intersect_resource)
        (unfold encode_resource in ap some (join-starred name)))

match-escaped : (name : Bytes) → match_resource (starred name) name ≡ true
unfolding match_resource qualifier_matches
match-escaped name =
    rw (parse-escaped name) (ground (arith, match_self (split b':' name), bytes_eq_refl (text "*")))

not-match-pattern : (name : Bytes) → match_resource (text "[][*]" ++ name) name ≡ false
unfolding match_resource
not-match-pattern name =
    rw (parse-pattern name) (unfold split in ground (arith, no_match (first name) (others name)))

-- The capability for all, intersected with one that has operations on "[][*]<name>" alone, permits on
-- the channel <name> exactly those operations, a wildcard covering all, where the latter permits none.
pub bracket_escapes :
    (name : Bytes) (ops : List Op) (op : Op)
    → (permits (intersect allow_all ((text "[][*]" ++ name, ops) ∷ [])) name op ≡ grants ops op)
      × (permits ((text "[][*]" ++ name, ops) ∷ []) name op ≡ false)
unfolding intersect
bracket_escapes name ops op = (
  permits-intersect_onto name op allow_all ((text "[][*]" ++ name, ops) ∷ []) []
      ∙ ground (
        arith,
        ap (resource_matches name op) (common name),
        match-escaped name,
        bytes_eq_refl (text "*"),
        permits-none name op,
      ),
  unfold permits in ground (arith, not-match-pattern name),
)
