-- ===== src/Auth/Capability/PathMeets.antt =====
-- internal/auth/capability.go: `intersectPath` against `pathsMatch`.
use ably_server.Base.{
  ◌≤◌, ◌<◌, ◌≡◌, refl, ◌∙◌, ◌⊎◌, inl, inr, Bool, true, false, ◌&&◌, ◌||◌, [], ◌∷◌, ◌++◌, none, some,
  Bytes, arith, ltb, Bool-cases, Option-cases, length, any, length-append, bytes_eq, bytes_eq_iff,
  bytes_eq_refl,
}
use ably_server.Auth.Capability.{
  Segments, is_star, op_wildcard, paths_match, intersect_loop, last_is_star, intersect_ordered,
  intersect_path,
}

-- A longer second path, absorbed by the final "*" of the first, or two paths of one length.
abbrev Fits : Segments → Segments → Type 0
Fits l r = (length l ≡ length r) ⊎ ((last_is_star l ≡ true) × (length l ≤ length r))

Fits-tail :
    (l l' r r' : Bytes) (ls rs : Segments)
    → Fits (l ∷ l' ∷ ls) (r ∷ r' ∷ rs)
    → Fits (l' ∷ ls) (r' ∷ rs)
unfolding last_is_star
Fits-tail l l' r r' ls rs (inl e) = inl (omega arith)
Fits-tail l l' r r' ls rs (inr (s, e)) = inr (s, omega arith)

length-intersect_loop :
    (l r m : Segments) → Fits l r → intersect_loop l r ≡ some m → length m ≡ length r
unfolding intersect_loop last_is_star
length-intersect_loop [] [] m f h = ground arith
length-intersect_loop [] (r ∷ rs) m f h = ground arith
length-intersect_loop (l ∷ ls) [] m f h = ground arith
length-intersect_loop (l ∷ []) (r ∷ []) m f h = ground arith
length-intersect_loop (l ∷ []) (r ∷ r' ∷ rs) m f h = ground arith
length-intersect_loop (l ∷ l' ∷ ls) (r ∷ []) m f h = ground arith
length-intersect_loop (l ∷ l' ∷ ls) (r ∷ r' ∷ rs) m f h =
    let g = Fits-tail l l' r r' ls rs f in
    elim (Option-cases (intersect_loop (l' ∷ ls) (r' ∷ rs))) [
      | inl e ↦ ground arith
      | inr (m', e) ↦ let k = length-intersect_loop (l' ∷ ls) (r' ∷ rs) m' g e in ground arith
    ]

-- One interior segment of a merged path.
match_step :
    (l l' r r' x y : Bytes) (ls rs ys cs : Segments)
    → ((is_star l ≡ true) × (x ≡ r)) ⊎ ((x ≡ l) × ((is_star r || bytes_eq l r) ≡ true))
    → ((c : Segments)
        → paths_match (y ∷ ys) c ≡ (paths_match (l' ∷ ls) c && paths_match (r' ∷ rs) c))
    → paths_match (x ∷ y ∷ ys) cs ≡ (paths_match (l ∷ l' ∷ ls) cs && paths_match (r ∷ r' ∷ rs) cs)
unfolding paths_match
match_step l l' r r' x y ls rs ys [] h ih = refl
match_step l l' r r' x y ls rs ys (c ∷ cs) h ih = ground (arith, ih cs, bytes_eq_iff l r)

star_match : (l : Bytes) (c : Segments) → is_star l ≡ true → paths_match (l ∷ []) c ≡ true
unfolding paths_match
star_match l [] h = h
star_match l (c ∷ cs) h = ground arith

-- A merged path matches what both paths match.
loop_some :
    (l r m : Segments)
    → Fits l r
    → intersect_loop l r ≡ some m
    → (c : Segments) → paths_match m c ≡ (paths_match l c && paths_match r c)
unfolding intersect_loop last_is_star
loop_some [] [] m f h c = ground arith
loop_some [] (r ∷ rs) m f h c = ground arith
loop_some (l ∷ ls) [] m f h c = ground arith
loop_some (l ∷ []) (r ∷ []) m f h c =
    ground (arith, star_match l c, star_match r c, bytes_eq_iff l r)
loop_some (l ∷ []) (r ∷ r' ∷ rs) m f h c = ground (arith, star_match l c)
loop_some (l ∷ l' ∷ ls) (r ∷ []) m f h c = ground arith
loop_some (l ∷ l' ∷ ls) (r ∷ r' ∷ rs) m f h c =
    let g = Fits-tail l l' r r' ls rs f in
    elim (Option-cases (intersect_loop (l' ∷ ls) (r' ∷ rs))) [
      | inl e ↦ ground arith
      | inr ([], e) ↦ let k = length-intersect_loop (l' ∷ ls) (r' ∷ rs) [] g e in ground arith
      | inr (y ∷ ys, e) ↦
          let ih = loop_some (l' ∷ ls) (r' ∷ rs) (y ∷ ys) g e in
          elim (Bool-cases (is_star l)) [
            | inl s ↦
                let same : m ≡ r ∷ y ∷ ys = ground arith in
                rw same (match_step l l' r r' r y ls rs ys c (inl (s, refl)) ih)
            | inr s ↦
                let same : m ≡ l ∷ y ∷ ys = ground arith in
                rw same (match_step l l' r r' l y ls rs ys c (inr (refl, ground arith)) ih)
          ]
    ]

none_later :
    (l l' r r' c : Bytes) (ls rs cs : Segments)
    → (paths_match (l' ∷ ls) cs && paths_match (r' ∷ rs) cs) ≡ false
    → (paths_match (l ∷ l' ∷ ls) (c ∷ cs) && paths_match (r ∷ r' ∷ rs) (c ∷ cs)) ≡ false
unfolding paths_match
none_later l l' r r' c ls rs cs h = ground arith

none_here :
    (l l' r r' c : Bytes) (ls rs cs : Segments)
    → is_star l ≡ false
    → (is_star r || bytes_eq l r) ≡ false
    → (paths_match (l ∷ l' ∷ ls) (c ∷ cs) && paths_match (r ∷ r' ∷ rs) (c ∷ cs)) ≡ false
unfolding paths_match
none_here l l' r r' c ls rs cs h k =
    ground (arith, bytes_eq_iff l r, bytes_eq_iff c l, bytes_eq_iff c r)

-- Where the merge fails no channel is matched by both paths.
loop_none :
    (l r c : Segments)
    → Fits l r
    → intersect_loop l r ≡ none
    → (paths_match l c && paths_match r c) ≡ false
unfolding intersect_loop last_is_star paths_match
loop_none [] [] c f h = ground arith
loop_none [] (r ∷ rs) c f h = ground arith
loop_none (l ∷ ls) [] c f h = ground arith
loop_none (l ∷ []) (r ∷ []) [] f h = ground arith
loop_none (l ∷ []) (r ∷ []) (c ∷ cs) f h =
    ground (arith, bytes_eq_iff l r, bytes_eq_iff c l, bytes_eq_iff c r)
loop_none (l ∷ []) (r ∷ r' ∷ rs) c f h = ground arith
loop_none (l ∷ l' ∷ ls) (r ∷ []) c f h = ground arith
loop_none (l ∷ l' ∷ ls) (r ∷ r' ∷ rs) [] f h = refl
loop_none (l ∷ l' ∷ ls) (r ∷ r' ∷ rs) (c ∷ cs) f h =
    let g = Fits-tail l l' r r' ls rs f in
    elim (Option-cases (intersect_loop (l' ∷ ls) (r' ∷ rs))) [
      | inl e ↦ none_later l l' r r' c ls rs cs (loop_none (l' ∷ ls) (r' ∷ rs) cs g e)
      | inr (m, e) ↦ none_here l l' r r' c ls rs cs (ground arith) (ground arith)
    ]

-- A path whose last segment is no "*" matches channels of its own length only.
length-match_exact :
    (l c : Segments) → last_is_star l ≡ false → paths_match l c ≡ true → length c ≡ length l
unfolding last_is_star paths_match
length-match_exact [] [] h k = refl
length-match_exact [] (c ∷ cs) h k = ground arith
length-match_exact (l ∷ []) [] h k = ground arith
length-match_exact (l ∷ l' ∷ ls) [] h k = ground arith
length-match_exact (l ∷ []) (c ∷ []) h k = refl
length-match_exact (l ∷ []) (c ∷ d ∷ cs) h k = ground arith
length-match_exact (l ∷ l' ∷ ls) (c ∷ cs) h k = ground (arith, length-match_exact (l' ∷ ls) cs h)

Fits-cases :
    (l r : Segments)
    → length l ≤ length r
    → Fits l r ⊎ ((last_is_star l ≡ false) × (length l < length r))
Fits-cases l r h = ground arith

ordered_some :
    (l r m : Segments)
    → length l ≤ length r
    → intersect_ordered l r ≡ some m
    → (c : Segments) → paths_match m c ≡ (paths_match l c && paths_match r c)
unfolding intersect_ordered
ordered_some l r m h e c = elim (Fits-cases l r h) [
  | inl f ↦ loop_some l r m f (ground arith) c
  | inr (s, k) ↦ ground arith
]

ordered_none :
    (l r c : Segments)
    → length l ≤ length r
    → intersect_ordered l r ≡ none
    → length r ≤ length c
    → (paths_match l c && paths_match r c) ≡ false
unfolding intersect_ordered
ordered_none l r c h e k = elim (Fits-cases l r h) [
  | inl f ↦ loop_none l r c f (ground arith)
  | inr (s, k') ↦ ground (arith, length-match_exact l c s)
]

and_comm : (a b : Bool) → (a && b) ≡ (b && a)
and_comm a b = ground arith

-- The path that the intersection returns matches exactly the channels that both paths match.
pub intersect_path-some :
    (l r m : Segments)
    → intersect_path l r ≡ some m
    → (c : Segments) → paths_match m c ≡ (paths_match l c && paths_match r c)
unfolding intersect_path
intersect_path-some l r m e c = elim (Bool-cases (ltb (length r) (length l))) [
  | inl swap ↦
      ordered_some r l m (ground arith) (ground arith) c
      ∙ and_comm (paths_match r c) (paths_match l c)
  | inr keep ↦ ordered_some l r m (ground arith) (ground arith) c
]

-- Where the intersection returns no path, no channel with at least as many segments as both paths
-- is matched by both.
pub intersect_path-none :
    (l r c : Segments)
    → intersect_path l r ≡ none
    → length l ≤ length c
    → length r ≤ length c
    → (paths_match l c && paths_match r c) ≡ false
unfolding intersect_path
intersect_path-none l r c e h k = elim (Bool-cases (ltb (length r) (length l))) [
  | inl swap ↦
      and_comm (paths_match l c) (paths_match r c)
      ∙ ordered_none r l c (ground arith) (ground arith) h
  | inr keep ↦ ordered_none l r c (ground arith) (ground arith) k
]

last_is_star-literal : (p : Segments) → any is_star p ≡ false → last_is_star p ≡ false
unfolding last_is_star
last_is_star-literal [] h = refl
last_is_star-literal (x ∷ []) h = ground arith
last_is_star-literal (x ∷ y ∷ p) h = ground (arith, last_is_star-literal (y ∷ p))

match_self : (p : Segments) → any is_star p ≡ false → paths_match p p ≡ true
unfolding paths_match
match_self [] h = refl
match_self (x ∷ []) h = ground (arith, bytes_eq_refl x)
match_self (x ∷ y ∷ p) h = ground (arith, bytes_eq_refl x, match_self (y ∷ p))

match_star : (p : Segments) → any is_star p ≡ false → paths_match (p ++ op_wildcard ∷ []) p ≡ true
unfolding paths_match
match_star [] h = bytes_eq_refl op_wildcard
match_star (x ∷ []) h = ground (arith, bytes_eq_refl x, bytes_eq_refl op_wildcard)
match_star (x ∷ y ∷ p) h = ground (arith, bytes_eq_refl x, match_star (y ∷ p))

-- Shorter channels can be lost: a path of literal segments, and the same path with a final "*",
-- both match the channel that the path spells, and their intersection is empty.
intersect_path_literal :
    (x : Bytes) (xs : Segments)
    → any is_star (x ∷ xs) ≡ false
    → (intersect_path (x ∷ xs) ((x ∷ xs) ++ op_wildcard ∷ []) ≡ none)
      × (paths_match (x ∷ xs) (x ∷ xs) ≡ true)
      × (paths_match ((x ∷ xs) ++ op_wildcard ∷ []) (x ∷ xs) ≡ true)
unfolding intersect_path intersect_ordered
intersect_path_literal x xs h = (
  ground (arith, length-append xs (op_wildcard ∷ []), last_is_star-literal (x ∷ xs) h),
  match_self (x ∷ xs) h,
  match_star (x ∷ xs) h,
)
