-- ===== src/Base/Decimal.antt =====
-- Decimal numerals, as `strconv.Itoa`, `strconv.Atoi` and the verb `%0*d` of `fmt` write and
-- read them. Numbers that the server prints are not negative.
use Prim.Native.Nat.{ℕ, zero, suc, ◌+◌, ◌-◌, ◌*◌, ◌/◌, ◌%◌, ◌^◌, ◌≤◌, ◌<◌}
use native.Mathlib.Nat.{pow-suc}
use mathlib.Core.Path.{◌≡◌, refl, sym, ap, ◌∙◌}
use mathlib.Core.Logic.{inl, inr}
use mathlib.Core.Bool.{Bool, true, false, ◌&&◌}
use mathlib.Core.List.{[], ◌∷◌, ◌++◌, append_assoc}
use mathlib.Core.Option.{Option, none, some}
use native.Mathlib.Omega.{arith}
use ably_server.Base.Tests.{ltb, leb, ◌==◌, if◌then◌else◌, Bool-cases}
use ably_server.Base.Lists.{length, replicate, length-append, any, any-append}
use ably_server.Base.ByteStrings.{Bytes, lex_lt, lex_lt-append_left, lex_lt-append_right}

abbrev pub is_digit : ℕ → Bool
is_digit c = leb b'0' c && leb c b'9'

-- The fuel is one more than the number of digits left at most; `itoa` gives `n`.
itoa_fuel : ℕ → ℕ → Bytes
itoa_fuel zero n = (b'0' + n % 10) ∷ []
itoa_fuel (suc f) n =
    let more = itoa_fuel f (n / 10) ++ (b'0' + n % 10) ∷ [] in
    if ltb n 10 then (b'0' + n) ∷ [] else more

-- strconv.Itoa
unfoldable pub itoa : ℕ → Bytes
unfolding itoa_fuel
itoa n = itoa_fuel n n

-- fmt.Sprintf("%0*d", w, n)
unfoldable pub pad : ℕ → ℕ → Bytes
pad w n = replicate (w - length (itoa n)) b'0' ++ itoa n

-- Fuel beyond the number itself changes nothing.
itoa_fuel_enough : (f g n : ℕ) → n ≤ f → n ≤ g → itoa_fuel f n ≡ itoa_fuel g n
unfolding itoa_fuel
itoa_fuel_enough zero zero n h k = refl
itoa_fuel_enough zero (suc g) n h k = ground arith
itoa_fuel_enough (suc f) zero n h k = ground arith
itoa_fuel_enough (suc f) (suc g) n h k = elim (Bool-cases (ltb n 10)) [
  | inl small ↦ rw small
  | inr large ↦ rw (large, itoa_fuel_enough f g (n / 10) (ground arith) (ground arith))
]

-- The last digit of a numeral of two digits or more.
pub itoa_snoc : (n : ℕ) → 10 ≤ n → itoa n ≡ itoa (n / 10) ++ (b'0' + n % 10) ∷ []
unfolding itoa
itoa_snoc zero h = absurd (omega arith)
itoa_snoc (suc n) h =
    ground (arith, itoa_fuel_enough n (suc n / 10) (suc n / 10) (omega arith) (omega arith))

pub itoa_digit : (n : ℕ) → n < 10 → itoa n ≡ (b'0' + n) ∷ []
unfolding itoa
itoa_digit zero h = refl
itoa_digit (suc n) h = ground arith

-- The `w` low digits of `n`.
unfoldable pub digits : ℕ → ℕ → Bytes
digits zero n = []
digits (suc w) n = digits w (n / 10) ++ (b'0' + n % 10) ∷ []

pub length-digits : (w n : ℕ) → length (digits w n) ≡ w
unfolding digits
length-digits zero n = refl
length-digits (suc w) n =
    omega
      (arith, length-append (digits w (n / 10)) ((b'0' + n % 10) ∷ []), length-digits w (n / 10))

replicate_snoc {ℓ} : {A : Type ℓ} (k : ℕ) (a : A) → replicate (suc k) a ≡ replicate k a ++ a ∷ []
replicate_snoc zero a = refl
replicate_snoc (suc k) a = ap (◌∷◌ a) (replicate_snoc k a)

digits-zero : (w : ℕ) → digits w 0 ≡ replicate w b'0'
unfolding digits
digits-zero zero = refl
digits-zero (suc w) = rw (digits-zero w) (sym (replicate_snoc w b'0'))

digits_small : (w n : ℕ) → n < 10 → digits (suc w) n ≡ replicate w b'0' ++ (b'0' + n) ∷ []
unfolding digits
digits_small w n h =
    let e : n / 10 ≡ 0 = omega arith in
    let e' : n % 10 ≡ n = omega arith in rw (e, e', digits-zero w)

-- One digit more to print takes one zero less to fill.
pad_snoc : (w n : ℕ) → 10 ≤ n → pad (suc w) n ≡ pad w (n / 10) ++ (b'0' + n % 10) ∷ []
unfolding pad
pad_snoc w n h =
    let d : Bytes = (b'0' + n % 10) ∷ [] in
    let e : suc w - length (itoa n) ≡ w - length (itoa (n / 10)) =
      omega (arith, ap length (itoa_snoc n h), length-append (itoa (n / 10)) d) in
    rw (e, itoa_snoc n h) (sym (append_assoc _ (itoa (n / 10)) d))

pad_digit : (w n : ℕ) → n < 10 → pad (suc w) n ≡ replicate w b'0' ++ (b'0' + n) ∷ []
unfolding pad
pad_digit w n h = let e : suc w - 1 ≡ w = omega arith in rw (itoa_digit n h, e)

div_fits : (w n : ℕ) → n < 10 ^ suc w → n / 10 < 10 ^ w
div_fits w n h = omega (arith, pow-suc 10 w)

-- A number that fits the width is printed by its `w` digits.
pub pad-eq-digits : (w n : ℕ) → n < 10 ^ suc w → pad (suc w) n ≡ digits (suc w) n
unfolding digits
pad-eq-digits zero n h =
    pad_digit 0 n (omega (arith, pow-suc 10 0))
    ∙ sym (digits_small 0 n (omega (arith, pow-suc 10 0)))
pad-eq-digits (suc w) n h = elim (Bool-cases (ltb n 10)) [
  | inl small ↦ pad_digit (suc w) n (ground arith) ∙ sym (digits_small (suc w) n (ground arith))
  | inr large ↦
      pad_snoc (suc w) n (ground arith)
      ∙ ap (λ t. t ++ (b'0' + n % 10) ∷ []) (pad-eq-digits w (n / 10) (div_fits (suc w) n h))
]

-- Between numbers printed at one width, the order of the texts is the order of the numbers.
pub lex_lt-digits : (w a b : ℕ) → a < b → b < 10 ^ w → lex_lt (digits w a) (digits w b) ≡ true
unfolding digits
lex_lt-digits zero a b h k = ground arith
lex_lt-digits (suc w) a b h k = elim (Bool-cases (ltb (a / 10) (b / 10))) [
  | inl less ↦
      lex_lt-append_right (digits w (a / 10)) (digits w (b / 10)) _ _
        (length-digits w (a / 10) ∙ sym (length-digits w (b / 10)))
        (lex_lt-digits w (a / 10) (b / 10) (ground arith) (div_fits w b k))
  | inr same ↦
      let e : a / 10 ≡ b / 10 = ground arith in
      rw (e, lex_lt-append_left) (unfold lex_lt in ground arith)
]

-- The value of a run of digits, read from the left onto `acc`; `none` at another byte.
unfoldable pub digits_value : ℕ → Bytes → Option ℕ
digits_value acc [] = some acc
digits_value acc (c ∷ cs) =
    let rest = digits_value (acc * 10 + (c - b'0')) cs in if is_digit c then rest else none

digits_value_snoc :
    (acc n d : ℕ) (cs : Bytes)
    → d < 10
    → digits_value acc cs ≡ some n
    → digits_value acc (cs ++ (b'0' + d) ∷ []) ≡ some (n * 10 + d)
unfolding digits_value
digits_value_snoc acc n d [] h e = ground arith
digits_value_snoc acc n d (c ∷ cs) h e =
    ground (arith, digits_value_snoc (acc * 10 + (c - b'0')) n d cs h)

-- Reading the `w` digits of a number that fits gives the number.
pub digits_value-digits : (w n : ℕ) → n < 10 ^ w → digits_value 0 (digits w n) ≡ some n
unfolding digits
digits_value-digits zero n h = unfold digits_value in ground arith
digits_value-digits (suc w) n h =
    digits_value_snoc 0 (n / 10) (n % 10) (digits w (n / 10)) (omega arith)
      (digits_value-digits w (n / 10) (div_fits w n h))
    ∙ ap some (omega arith)

-- No byte of a numeral equals `c`, if `c` is no digit.
pub any-digits : (c w n : ℕ) → is_digit c ≡ false → any (λ x. x == c) (digits w n) ≡ false
unfolding digits
any-digits c zero n h = refl
any-digits c (suc w) n h =
    rw (any-append (λ x. x == c) (digits w (n / 10)) ((b'0' + n % 10) ∷ []))
      (ground (arith, any-digits c w (n / 10) h))

itoa_value : (f n : ℕ) → n ≤ f → digits_value 0 (itoa n) ≡ some n
itoa_value zero n h = rw (itoa_digit n (omega arith)) (unfold digits_value in ground arith)
itoa_value (suc f) n h = elim (Bool-cases (ltb n 10)) [
  | inl small ↦ rw (itoa_digit n (ground arith)) (unfold digits_value in ground arith)
  | inr large ↦ rw (itoa_snoc n (ground arith)) (
      digits_value_snoc 0 (n / 10) (n % 10) (itoa (n / 10)) (omega arith)
        (itoa_value f (n / 10) (ground arith))
      ∙ ap some (omega arith))
]

itoa_free : (c f n : ℕ) → n ≤ f → is_digit c ≡ false → any (λ x. x == c) (itoa n) ≡ false
itoa_free c zero n h d = rw (itoa_digit n (omega arith)) (ground arith)
itoa_free c (suc f) n h d = elim (Bool-cases (ltb n 10)) [
  | inl small ↦ rw (itoa_digit n (ground arith)) (ground arith)
  | inr large ↦
      rw
        (
          itoa_snoc n (ground arith),
          any-append (λ x. x == c) (itoa (n / 10)) ((b'0' + n % 10) ∷ []),
        )
        (ground (arith, itoa_free c f (n / 10)))
]

zeros_value : (k : ℕ) (s : Bytes) → digits_value 0 (replicate k b'0' ++ s) ≡ digits_value 0 s
unfolding digits_value
zeros_value zero s = refl
zeros_value (suc k) s = zeros_value k s

-- Reading what `%0*d` prints gives the number, at every width.
pub digits_value-pad : (w n : ℕ) → digits_value 0 (pad w n) ≡ some n
unfolding pad
digits_value-pad w n = zeros_value (w - length (itoa n)) (itoa n) ∙ itoa_value n n (omega arith)

pub digits_value-itoa : (n : ℕ) → digits_value 0 (itoa n) ≡ some n
digits_value-itoa n = itoa_value n n (omega arith)

zeros_free : (c k : ℕ) → is_digit c ≡ false → any (λ x. x == c) (replicate k b'0') ≡ false
zeros_free c zero d = refl
zeros_free c (suc k) d = ground (arith, zeros_free c k d)

pub any-pad : (c w n : ℕ) → is_digit c ≡ false → any (λ x. x == c) (pad w n) ≡ false
unfolding pad
any-pad c w n d =
    rw (any-append (λ x. x == c) (replicate (w - length (itoa n)) b'0') (itoa n))
      (ground (arith, zeros_free c (w - length (itoa n)) d, itoa_free c n n (omega arith) d))

pub any-itoa : (c n : ℕ) → is_digit c ≡ false → any (λ x. x == c) (itoa n) ≡ false
any-itoa c n d = itoa_free c n n (omega arith) d

-- The numbers that an `int64` holds.
abbrev pub max_int64 : ℕ
max_int64 = 9223372036854775807

-- `negsuc n` is -(n + 1).
pub data ℤ : Type 0 where
  pos : ℕ → ℤ
  negsuc : ℕ → ℤ

unfoldable pub positive : Option ℕ → Option ℤ
positive none = none
positive (some n) = if leb n max_int64 then some (pos n) else none

unfoldable pub negative : Option ℕ → Option ℤ
negative none = none
negative (some zero) = some (pos 0)
negative (some (suc n)) = if leb n max_int64 then some (negsuc n) else none

-- One digit at least.
unfoldable pub magnitude : Bytes → Option ℕ
magnitude [] = none
magnitude (c ∷ cs) = digits_value 0 (c ∷ cs)

-- strconv.Atoi (and ParseInt in base 10): an optional sign, digits, the range of an `int64`.
unfoldable pub atoi : Bytes → Option ℤ
unfolding positive negative magnitude digits_value
atoi [] = none
atoi (c ∷ cs) =
    if c == b'+'
    then positive (magnitude cs)
    else if c == b'-'
    then negative (magnitude cs)
    else positive (magnitude (c ∷ cs))

digit_positive : (c n : ℕ) (cs : Bytes) → digits_value 0 (c ∷ cs) ≡ some n → is_digit c ≡ true
unfolding digits_value
digit_positive c n cs h = ground arith

-- A run of digits is read as its value.
pub atoi-eq-some :
    (cs : Bytes) (n : ℕ)
    → 0 < length cs
    → n ≤ max_int64
    → digits_value 0 cs ≡ some n
    → atoi cs ≡ some (pos n)
atoi-eq-some [] n l b h = absurd (omega arith)
atoi-eq-some (c ∷ cs) n l b h =
    let d : is_digit c ≡ true = digit_positive c n cs h in unfold atoi in ground arith

atoi_samples :
    (atoi (b'-' ∷ b'1' ∷ b'2' ∷ []) ≡ some (negsuc 11))
    × (atoi (b'+' ∷ b'7' ∷ []) ≡ some (pos 7))
    × (atoi (b'-' ∷ []) ≡ none)
unfolding atoi
atoi_samples = (refl, refl, refl)

pub length-itoa_pos : (n : ℕ) → 0 < length (itoa n)
length-itoa_pos n = elim (Bool-cases (ltb n 10)) [
  | inl small ↦ rw (itoa_digit n (ground arith)) (omega arith)
  | inr large ↦
      rw (itoa_snoc n (ground arith))
        (omega (arith, length-append (itoa (n / 10)) ((b'0' + n % 10) ∷ [])))
]

pub length-pad_pos : (w n : ℕ) → 0 < length (pad w n)
unfolding pad
length-pad_pos w n =
    omega (arith, length-append (replicate (w - length (itoa n)) b'0') (itoa n), length-itoa_pos n)
