-- ===== src/Serial/Order.antt =====
-- internal/serial/serial.go: the lexicographic order of serials and the order of minting.
use ably_server.Base.{
  ℕ, ◌+◌, ◌^◌, ◌≤◌, ◌<◌, ◌≡◌, refl, sym, ◌∙◌, ◌⊎◌, inl, inr, true, List, [], ◌∷◌, ◌++◌, Bytes,
  arith, length, length-append, append_assoc, pad, digits, length-digits, pad-eq-digits, itoa,
  lex_lt, lex_lt-append_left, lex_lt-append_right, lex_lt-digits,
}
use ably_server.Serial.{
  Generator, advance, format, mint, message_serial, mint_all, timestamp_width, max_counter,
}

-- The counter has three digits and the clock at most 14.
pub record IsValid (g : Generator) : Type 0 where
  pub counter : g.last_counter ≤ max_counter
  pub clock : g.last_ts < 10 ^ timestamp_width

-- The serial of one generator is before that of another.
abbrev pub Precedes : Generator → Generator → Type 0
Precedes g h =
    (g.last_ts < h.last_ts) ⊎ ((g.last_ts ≡ h.last_ts) × (g.last_counter < h.last_counter))

advance-Precedes : (g : Generator) (now : ℕ) → Precedes g (advance g now)
unfolding advance
advance-Precedes g now = ground arith

abbrev pub body : Generator → Bytes
body g = digits 14 g.last_ts ++ b'-' ∷ digits 3 g.last_counter

pub format-body : (g : Generator) → IsValid g → format g ≡ body g ++ b'@' ∷ g.series_id
unfolding format
format-body g v =
    rw
      (
        pad-eq-digits 13 g.last_ts v.clock,
        pad-eq-digits 2 g.last_counter (omega (arith, v.counter)),
      )
      (sym (append_assoc (digits 14 g.last_ts) (b'-' ∷ digits 3 g.last_counter) _))

body-Precedes :
    (g h : Generator) → IsValid g → IsValid h → Precedes g h → lex_lt (body g) (body h) ≡ true
body-Precedes g h v w (inl less) =
    lex_lt-append_right (digits 14 g.last_ts) (digits 14 h.last_ts) _ _
      (length-digits 14 g.last_ts ∙ sym (length-digits 14 h.last_ts))
      (lex_lt-digits 14 g.last_ts h.last_ts less w.clock)
body-Precedes g h v w (inr (same, less)) =
    rw (same, lex_lt-append_left)
      (unfold lex_lt in
        lex_lt-digits 3 g.last_counter h.last_counter less (omega (arith, w.counter)))

length-body : (g : Generator) → length (body g) ≡ 18
length-body g = omega (
  arith,
  length-append (digits 14 g.last_ts) (b'-' ∷ digits 3 g.last_counter),
  length-digits 14 g.last_ts,
  length-digits 3 g.last_counter,
)

-- Serials of valid generators are ordered as the pairs of their clock and counter, whatever the
-- series ids.
pub format-Precedes :
    (g h : Generator) → IsValid g → IsValid h → Precedes g h → lex_lt (format g) (format h) ≡ true
format-Precedes g h v w p =
    rw (format-body g v, format-body h w)
      (lex_lt-append_right (body g) (body h) _ _ (length-body g ∙ sym (length-body h))
        (body-Precedes g h v w p))

advance-IsValid :
    (g : Generator) (now : ℕ)
    → IsValid g
    → now < 10 ^ timestamp_width
    → g.last_ts + 1 < 10 ^ timestamp_width
    → IsValid (advance g now)
unfolding advance
advance-IsValid g now v h k = ground arith

series-advance : (g : Generator) (now : ℕ) → (advance g now).series_id ≡ g.series_id
unfolding advance
series-advance g now = ground arith

-- Whatever the clock reads, behind the last serial or on the same millisecond included, the serial
-- that `mint` returns is after the generator's last one, and is the generator's last one
-- afterwards; the series id stays.
pub mint-lex_lt :
    (g : Generator) (now : ℕ)
    → IsValid g
    → now < 10 ^ timestamp_width
    → g.last_ts + 1 < 10 ^ timestamp_width
    → (lex_lt (format g) (mint g now).0 ≡ true)
      × ((mint g now).0 ≡ format (mint g now).1)
      × IsValid (mint g now).1
      × ((mint g now).1.series_id ≡ g.series_id)
unfolding mint
mint-lex_lt g now v h k =
    let w = advance-IsValid g now v h k in
    (format-Precedes g (advance g now) v w (advance-Precedes g now), refl, w, series-advance g now)

-- Each text is after the one before it, the first after `a`.
abbrev pub Ascending : Bytes → List Bytes → Type 0
Ascending a [] = Unit {0}
Ascending a (s ∷ ss) = (lex_lt a s ≡ true) × Ascending s ss

abbrev pub AllBelow : ℕ → List ℕ → Type 0
AllBelow b [] = Unit {0}
AllBelow b (x ∷ xs) = (x ≤ b) × AllBelow b xs

advance-le : (g : Generator) (now b : ℕ) → now ≤ b → g.last_ts ≤ b → (advance g now).last_ts ≤ b + 1
unfolding advance
advance-le g now b h k = ground arith

AllBelow-suc : (b : ℕ) (xs : List ℕ) → AllBelow b xs → AllBelow (b + 1) xs
AllBelow-suc b [] h = tt
AllBelow-suc b (x ∷ xs) h = (omega (arith, h.0), AllBelow-suc b xs h.1)

-- The serials of any run of clock readings, regressions and bursts included, ascend from the
-- generator's last serial, as long as the readings' bound and one synthetic millisecond for each
-- mint stay within 14 digits.
pub mint_all-Ascending :
    (g : Generator) (nows : List ℕ) (b : ℕ)
    → IsValid g
    → g.last_ts ≤ b
    → AllBelow b nows
    → b + length nows < 10 ^ timestamp_width
    → Ascending (format g) (mint_all g nows)
unfolding mint_all
mint_all-Ascending g [] b v l h room = tt
mint_all-Ascending g (now ∷ nows) b v l h room =
    let (less, same, w, _) = mint-lex_lt g now v (omega (arith, h.0)) (omega arith) in
    (
      less,
      rw same (
          mint_all-Ascending (mint g now).1 nows (b + 1) w (unfold mint in advance-le g now b h.0 l)
            (AllBelow-suc b nows h.1) (omega arith)),
    )

pad-3 : (i : ℕ) → i < 1000 → pad 3 i ≡ digits 3 i
pad-3 i h = pad-eq-digits 2 i h

-- Message serials are ordered by index within one publish of at most 1000 messages, and by channel
-- serial across publishes whose channel serials have one length.
message_serial-lex_lt :
    (cs cs' : Bytes) (i j : ℕ)
    → length cs ≡ length cs'
    → j < 1000
    → (lex_lt cs cs' ≡ true) ⊎ ((cs ≡ cs') × (i < j))
    → lex_lt (message_serial cs i) (message_serial cs' j) ≡ true
unfolding message_serial
message_serial-lex_lt cs cs' i j l h (inl less) = lex_lt-append_right cs cs' _ _ l less
message_serial-lex_lt cs cs' i j l h (inr (same, less)) =
    rw (same, lex_lt-append_left, pad-3 i (omega arith), pad-3 j h)
      (unfold lex_lt in lex_lt-digits 3 i j less h)

-- Beyond that the order breaks: in every publish, the serial of message 1000 sorts before that of
-- each message from 200 to 999.
pub message_serial_overflow :
    (cs : Bytes) (i : ℕ)
    → 200 ≤ i
    → i < 1000
    → lex_lt (message_serial cs 1000) (message_serial cs i) ≡ true
unfolding message_serial
message_serial_overflow cs i h k =
    rw (lex_lt-append_left, pad-3 i k) (unfold lex_lt pad itoa digits in ground arith)
