-- ===== src/Base/ByteStrings.antt =====
-- Go strings: sequences of bytes, compared lexicographically, and the parts of `strings` and
-- `strconv` that the server uses on them.
use Prim.Native.Nat.{ℕ}
use Prim.Native.Char.{code}
use Prim.Native.String.{String}
use mathlib.Core.Path.{◌≡◌, refl}
use mathlib.Core.Logic.{◌↔◌, ◌⊎◌, inl, inr}
use mathlib.Core.Bool.{Bool, true, false, ◌&&◌}
use mathlib.Core.List.{List, [], ◌∷◌, ◌++◌}
use native.Mathlib.Omega.{arith}
use ably_server.Base.Tests.{ltb, ◌==◌, if◌then◌else◌}
use ably_server.Base.Lists.{length}

abbrev pub Bytes : Type 0
Bytes = List ℕ

-- The bytes of an ASCII text.
abbrev pub text : String → Bytes
text String.[] = []
text (String.◌∷◌ c s) = code c ∷ text s

-- a == b
unfoldable pub bytes_eq : Bytes → Bytes → Bool
bytes_eq [] [] = true
bytes_eq [] (y ∷ ys) = false
bytes_eq (x ∷ xs) [] = false
bytes_eq (x ∷ xs) (y ∷ ys) = x == y && bytes_eq xs ys

pub bytes_eq_iff : (a b : Bytes) → (bytes_eq a b ≡ true) ↔ (a ≡ b)
unfolding bytes_eq
bytes_eq_iff [] [] = (λ _. refl, λ _. refl)
bytes_eq_iff [] (y ∷ ys) = ground arith
bytes_eq_iff (x ∷ xs) [] = ground arith
bytes_eq_iff (x ∷ xs) (y ∷ ys) = ground (arith, bytes_eq_iff xs ys)

pub bytes_eq_refl : (a : Bytes) → bytes_eq a a ≡ true
bytes_eq_refl a = (bytes_eq_iff a a).1 refl

pub bytes_eq_comm : (a b : Bytes) → bytes_eq a b ≡ bytes_eq b a
unfolding bytes_eq
bytes_eq_comm [] [] = refl
bytes_eq_comm [] (y ∷ ys) = refl
bytes_eq_comm (x ∷ xs) [] = refl
bytes_eq_comm (x ∷ xs) (y ∷ ys) = ground (arith, bytes_eq_comm xs ys)

-- a < b, bytewise lexicographic
unfoldable pub lex_lt : Bytes → Bytes → Bool
lex_lt a [] = false
lex_lt [] (y ∷ ys) = true
lex_lt (x ∷ xs) (y ∷ ys) =
    let rest = lex_lt xs ys in if ltb x y then true else if x == y then rest else false

pub lex_lt_irrefl : (a : Bytes) → lex_lt a a ≡ false
unfolding lex_lt
lex_lt_irrefl [] = refl
lex_lt_irrefl (x ∷ xs) = ground (arith, lex_lt_irrefl xs)

pub lex_lt_trans : (a b c : Bytes) → lex_lt a b ≡ true → lex_lt b c ≡ true → lex_lt a c ≡ true
unfolding lex_lt
lex_lt_trans a [] c h k = ground arith
lex_lt_trans a (y ∷ ys) [] h k = ground arith
lex_lt_trans [] (y ∷ ys) (z ∷ zs) h k = refl
lex_lt_trans (x ∷ xs) (y ∷ ys) (z ∷ zs) h k = ground (arith, lex_lt_trans xs ys zs)

pub lex_lt_asymm : (a b : Bytes) → lex_lt a b ≡ true → lex_lt b a ≡ false
unfolding lex_lt
lex_lt_asymm [] [] h = refl
lex_lt_asymm [] (y ∷ ys) h = refl
lex_lt_asymm (x ∷ xs) [] h = ground arith
lex_lt_asymm (x ∷ xs) (y ∷ ys) h = ground (arith, lex_lt_asymm xs ys)

pub lex_trichotomy : (a b : Bytes) → (lex_lt a b ≡ true) ⊎ ((a ≡ b) ⊎ (lex_lt b a ≡ true))
unfolding lex_lt
lex_trichotomy [] [] = inr (inl refl)
lex_trichotomy [] (y ∷ ys) = inl refl
lex_trichotomy (x ∷ xs) [] = inr (inr refl)
lex_trichotomy (x ∷ xs) (y ∷ ys) = ground (arith, lex_trichotomy xs ys)

-- A common prefix does not count.
pub lex_lt-append_left : (p a b : Bytes) → lex_lt (p ++ a) (p ++ b) ≡ lex_lt a b
unfolding lex_lt
lex_lt-append_left [] a b = refl
lex_lt-append_left (x ∷ p) a b = ground (arith, lex_lt-append_left p a b)

-- Between texts of one length, what follows does not count.
pub lex_lt-append_right :
    (a b x y : Bytes) → length a ≡ length b → lex_lt a b ≡ true → lex_lt (a ++ x) (b ++ y) ≡ true
unfolding lex_lt
lex_lt-append_right a [] x y e h = ground arith
lex_lt-append_right [] (d ∷ b) x y e h = absurd (omega arith)
lex_lt-append_right (c ∷ a) (d ∷ b) x y e h =
    let e' : length a ≡ length b = omega arith in ground (arith, lex_lt-append_right a b x y e')
