-- ===== src/Serial/Bounds.antt =====
-- internal/serial/serial.go: the text bounds of an inclusive range of timestamps.
use ably_server.Base.{
  ℕ, zero, suc, ◌+◌, ◌^◌, ◌/◌, ◌%◌, text, ◌<◌, ◌≡◌, refl, ap₂, sym, ◌∙◌, ◌⊎◌, inl, inr, Bool, false,
  not, ◌&&◌, ◌||◌, [], ◌∷◌, ◌++◌, Bytes, arith, ltb, leb, ◌==◌, Bool-cases, append_assoc, pad,
  digits, length-digits, pad-eq-digits, bytes_eq, bytes_eq_refl, lex_lt, lex_lt-append_left,
  lex_lt-append_right, lex_lt-digits, lex_lt_asymm, max_int64,
}
use ably_server.Serial.{Generator, format, timestamp_bounds, timestamp_width}
use ably_server.Serial.Order.{IsValid}

-- The range that the two texts bound, an empty text being no bound.
unfoldable pub in_bounds : Bytes × Bytes → Bytes → Bool
in_bounds (lower, upper) s =
    (bytes_eq lower [] || not (lex_lt s lower)) && (bytes_eq upper [] || lex_lt s upper)

abbrev rest : Generator → Bytes
rest g = pad 3 g.last_counter ++ b'@' ∷ g.series_id

bytes_eq-append_cons : (p : Bytes) (c : ℕ) → bytes_eq (p ++ c ∷ []) [] ≡ false
unfolding bytes_eq
bytes_eq-append_cons [] c = refl
bytes_eq-append_cons (x ∷ p) c = refl

lex_ge-format :
    (g : Generator) (t : ℕ)
    → IsValid g
    → (t < g.last_ts) ⊎ (t ≡ g.last_ts)
    → t < 10 ^ timestamp_width
    → lex_lt (digits 14 g.last_ts ++ b'-' ∷ rest g) (digits 14 t ++ b'-' ∷ []) ≡ false
lex_ge-format g t v (inl more) h =
    lex_lt_asymm (digits 14 t ++ b'-' ∷ []) (digits 14 g.last_ts ++ b'-' ∷ rest g) (
      lex_lt-append_right (digits 14 t) (digits 14 g.last_ts) _ _
        (length-digits 14 t ∙ sym (length-digits 14 g.last_ts))
        (lex_lt-digits 14 t g.last_ts more v.clock))
lex_ge-format g t v (inr same) h = rw (same, lex_lt-append_left) (unfold lex_lt in refl)

-- Against "<t>-" a serial compares as its timestamp against t.
lex_lt-format :
    (g : Generator) (t : ℕ)
    → IsValid g
    → t < 10 ^ timestamp_width
    → lex_lt (format g) (pad timestamp_width t ++ b'-' ∷ []) ≡ ltb g.last_ts t
unfolding format
lex_lt-format g t v h =
    rw (pad-eq-digits 13 g.last_ts v.clock, pad-eq-digits 13 t h)
      (elim (Bool-cases (ltb g.last_ts t)) [
        | inl less ↦
            lex_lt-append_right (digits 14 g.last_ts) (digits 14 t) _ _
              (length-digits 14 g.last_ts ∙ sym (length-digits 14 t))
              (lex_lt-digits 14 g.last_ts t (ground arith) h)
            ∙ sym less
        | inr less ↦
            lex_ge-format g t v
              (elim (Bool-cases (ltb t g.last_ts)) [
                | inl more ↦ inl (ground arith)
                | inr same ↦ inr (ground arith)
              ])
              h
            ∙ sym less
      ])

module _ (g : Generator) (v : IsValid g) where
  lower_test :
      (start : ℕ)
      → start < 10 ^ timestamp_width
      → (bytes_eq (timestamp_bounds start 0).0 []
          || not (lex_lt (format g) (timestamp_bounds start 0).0))
        ≡ leb start g.last_ts
  unfolding timestamp_bounds
  lower_test start h = ground (
    arith,
    bytes_eq-append_cons (pad timestamp_width start) b'-',
    lex_lt-format g start v h,
    bytes_eq_refl [],
  )

  upper_test :
      (end : ℕ)
      → end + 1 < 10 ^ timestamp_width
      → (bytes_eq (timestamp_bounds 0 end).1 [] || lex_lt (format g) (timestamp_bounds 0 end).1)
        ≡ (end == 0 || leb g.last_ts end)
  unfolding timestamp_bounds
  upper_test end h = ground (
    arith,
    bytes_eq-append_cons (pad timestamp_width (end + 1)) b'-',
    lex_lt-format g (end + 1) v h,
    bytes_eq_refl [],
  )

-- For every serial of a valid generator, and bounds of at most 14 digits, the text bounds hold
-- exactly for the timestamps of the inclusive range, zero being no bound.
in_bounds-timestamp_bounds :
    (g : Generator) (start end : ℕ)
    → IsValid g
    → start < 10 ^ timestamp_width
    → end + 1 < 10 ^ timestamp_width
    → in_bounds (timestamp_bounds start end) (format g)
      ≡ (leb start g.last_ts && (end == 0 || leb g.last_ts end))
unfolding in_bounds timestamp_bounds
in_bounds-timestamp_bounds g start end v h k =
    ap₂ ◌&&◌ (lower_test g v start h) (upper_test g v end k)

-- A digit is after the sign.
digits_minus : (w n : ℕ) (s t : Bytes) → lex_lt (digits (suc w) n ++ s) (b'-' ∷ t) ≡ false
unfolding digits lex_lt
digits_minus zero n s t = ground arith
digits_minus (suc w) n s t =
    rw (append_assoc (digits (suc w) (n / 10)) ((b'0' + n % 10) ∷ []) s)
      (digits_minus w (n / 10) ((b'0' + n % 10) ∷ s) t)

abbrev smallest_int64 : Bytes
smallest_int64 = text "9223372036854775808-"

format_minus : (g : Generator) → IsValid g → lex_lt (format g) (b'-' ∷ smallest_int64) ≡ false
unfolding format
format_minus g v =
    rw (pad-eq-digits 13 g.last_ts v.clock)
      (digits_minus 13 g.last_ts (b'-' ∷ rest g) smallest_int64)

-- An inclusive end at the largest `int64` excludes every serial, though no timestamp is later.
in_bounds-max_int64 :
    (g : Generator) (start : ℕ)
    → IsValid g
    → in_bounds (timestamp_bounds start max_int64) (format g) ≡ false
unfolding in_bounds timestamp_bounds
in_bounds-max_int64 g start v = unfold bytes_eq in ground (arith, format_minus g v)
