-- ===== src/Base/Text.antt =====
-- The functions of Go's `strings` that the server uses: Split, Join, Cut, LastIndexByte with the
-- slices around it, HasPrefix, CutSuffix.
use Prim.Native.Nat.{ℕ}
use mathlib.Core.Path.{◌≡◌, refl, ap}
use mathlib.Core.Bool.{Bool, true, false}
use mathlib.Core.List.{List, [], ◌∷◌, ◌++◌}
use mathlib.Core.Option.{Option, none, some}
use native.Mathlib.Omega.{arith}
use ably_server.Base.Tests.{◌==◌, if◌then◌else◌}
use ably_server.Base.Lists.{any, all}
use ably_server.Base.ByteStrings.{Bytes, bytes_eq}

-- The text before and after the last `c`: s[:i] and s[i+1:] for i = LastIndexByte(s, c).
unfoldable pub split_last : ℕ → Bytes → Option (Bytes × Bytes)
split_last c [] = none
split_last c (x ∷ xs) = elim (split_last c xs) [
  | some (p, q) ↦ some (x ∷ p, q)
  | none ↦ if x == c then some ([], xs) else none
]

split_last-none : (c : ℕ) (q : Bytes) → any (λ x. x == c) q ≡ false → split_last c q ≡ none
unfolding split_last
split_last-none c [] h = refl
split_last-none c (x ∷ q) h = ground (arith, split_last-none c q)

pub split_last-append :
    (c : ℕ) (p q : Bytes) → any (λ x. x == c) q ≡ false → split_last c (p ++ c ∷ q) ≡ some (p, q)
unfolding split_last
split_last-append c [] q h = ground (arith, split_last-none c q)
split_last-append c (x ∷ p) q h = rw (split_last-append c p q h)

-- The text before and after the first `c`: strings.Cut.
unfoldable pub cut : ℕ → Bytes → Option (Bytes × Bytes)
cut c [] = none
cut c (x ∷ xs) =
    let rest : Option (Bytes × Bytes) = elim (cut c xs) [
      | none ↦ none
      | some (p, q) ↦ some (x ∷ p, q)
    ] in
    if x == c then some ([], xs) else rest

-- strings.Split with a separator of one byte: the first piece and the others.
unfoldable pub split_pieces : ℕ → Bytes → Bytes × List Bytes
split_pieces c [] = ([], [])
split_pieces c (x ∷ xs) =
    let (p, ps) = split_pieces c xs in if x == c then ([], p ∷ ps) else (x ∷ p, ps)

unfoldable pub split : ℕ → Bytes → List Bytes
unfolding split_pieces
split c s = let (p, ps) = split_pieces c s in p ∷ ps

-- strings.Join with a separator of one byte
unfoldable pub join : ℕ → List Bytes → Bytes
join c [] = []
join c (p ∷ []) = p
join c (p ∷ q ∷ ps) = p ++ c ∷ join c (q ∷ ps)

abbrev pub contains : ℕ → Bytes → Bool
contains c s = any (λ x. x == c) s

split_pieces-append :
    (c : ℕ) (p s : Bytes)
    → contains c p ≡ false
    → split_pieces c (p ++ c ∷ s) ≡ (p, (split_pieces c s).0 ∷ (split_pieces c s).1)
unfolding split_pieces
split_pieces-append c [] s h = ground arith
split_pieces-append c (x ∷ p) s h =
    let f : contains c p ≡ false = ground arith in
    let e : (x == c) ≡ false = ground arith in rw (split_pieces-append c p s f, e)

split_pieces-free : (c : ℕ) (p : Bytes) → contains c p ≡ false → split_pieces c p ≡ (p, [])
unfolding split_pieces
split_pieces-free c [] h = refl
split_pieces-free c (x ∷ p) h =
    let f : contains c p ≡ false = ground arith in
    let e : (x == c) ≡ false = ground arith in rw (split_pieces-free c p f, e)

-- Splitting what was joined from pieces without the separator gives the pieces back.
pub split-join :
    (c : ℕ) (p : Bytes) (ps : List Bytes)
    → all (λ q. if contains c q then false else true) (p ∷ ps) ≡ true
    → split c (join c (p ∷ ps)) ≡ p ∷ ps
unfolding split join
split-join c p [] h = rw (split_pieces-free c p (ground arith))
split-join c p (q ∷ ps) h =
    rw (split_pieces-append c p (join c (q ∷ ps)) (ground arith))
      (ap (◌∷◌ p) (split-join c q ps (ground arith)))

-- strings.CutSuffix: the text without the suffix, if it has it.
unfoldable pub cut_suffix : Bytes → Bytes → Option Bytes
cut_suffix [] suffix = if bytes_eq [] suffix then some [] else none
cut_suffix (x ∷ xs) suffix =
    let rest : Option Bytes = elim (cut_suffix xs suffix) [ none ↦ none | some p ↦ some (x ∷ p) ] in
    if bytes_eq (x ∷ xs) suffix then some [] else rest
