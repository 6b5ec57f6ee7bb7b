-- ===== src/Auth/Capability/Paths.antt =====
-- internal/auth/capability.go: `pathsMatch` against the wildcard rules.
use ably_server.Base.{
  ◌≡◌, ◌↔◌, refl, inl, inr, true, false, [], ◌∷◌, Bytes, arith, Bool-cases, bytes_eq, bytes_eq_iff,
  bytes_eq_refl,
}
use ably_server.Auth.Capability.{Segments, is_star, paths_match}

-- The rules: a final "*" takes any rest, another "*" takes one segment, any other segment itself.
pub data Matches : Segments → Segments → Type 0 where
  done : Matches [] []
  rest : {p : Bytes} {cs : Segments} → is_star p ≡ true → Matches (p ∷ []) cs
  one :
      {p q c : Bytes} {ps cs : Segments}
      → is_star p ≡ true
      → Matches (q ∷ ps) cs
      → Matches (p ∷ q ∷ ps) (c ∷ cs)
  same :
      {p : Bytes} {ps cs : Segments} → is_star p ≡ false → Matches ps cs → Matches (p ∷ ps) (p ∷ cs)

paths_match_complete : {ps cs : Segments} → Matches ps cs → paths_match ps cs ≡ true
unfolding paths_match
paths_match_complete done = refl
paths_match_complete (rest {cs = []} s) = s
paths_match_complete (rest {cs = c ∷ cs} s) = rw s
paths_match_complete (one s m) = rw s (paths_match_complete m)
paths_match_complete (same {p = p} {ps = []} s m) = rw (s, bytes_eq_refl p) (paths_match_complete m)
paths_match_complete (same {p = p} {ps = q ∷ ps} s m) =
    rw (s, bytes_eq_refl p) (paths_match_complete m)

Matches-same :
    (p c : Bytes) (ps cs : Segments)
    → is_star p ≡ false
    → bytes_eq c p ≡ true
    → Matches ps cs
    → Matches (p ∷ ps) (c ∷ cs)
Matches-same p c ps cs s e m = rw ((bytes_eq_iff c p).0 e) (same s m)

paths_match_sound : (ps cs : Segments) → paths_match ps cs ≡ true → Matches ps cs
unfolding paths_match
paths_match_sound [] [] h = done
paths_match_sound [] (c ∷ cs) h = absurd (cc)
paths_match_sound (p ∷ []) [] h = rest h
paths_match_sound (p ∷ q ∷ ps) [] h = absurd (cc)
paths_match_sound (p ∷ []) (c ∷ cs) h = elim (Bool-cases (is_star p)) [
  | inl s ↦ rest s
  | inr s ↦ Matches-same p c [] cs s (ground arith) (paths_match_sound [] cs (ground arith))
]
paths_match_sound (p ∷ q ∷ ps) (c ∷ cs) h = elim (Bool-cases (is_star p)) [
  | inl s ↦ one s (paths_match_sound (q ∷ ps) cs (ground arith))
  | inr s ↦
      Matches-same p c (q ∷ ps) cs s (ground arith) (paths_match_sound (q ∷ ps) cs (ground arith))
]

-- The loop over the segments decides the wildcard rules, for every pattern and channel.
pub paths_match_iff : (ps cs : Segments) → (paths_match ps cs ≡ true) ↔ Matches ps cs
paths_match_iff ps cs = (paths_match_sound ps cs, paths_match_complete)
