-- ===== src/Core/Name.antt =====
-- internal/core/name.go: channel names. A name is the bytes of its UTF-8 text: a line break of two or
-- three bytes is found at its first byte, which no other rune contains. The expression forbids line
-- breaks after the first rune only, and no line break starts within a rune: so the search starts at
-- the second byte.
pub mod Breaks
mod Tests
use ably_server.Base.{
  ℕ, ◌≡◌, refl, Bool, true, false, not, ◌&&◌, ◌||◌, ◌==◌, leb, [], ◌∷◌, ◌++◌, Bytes, arith,
}

-- Whether the rune that begins the text is one of lineBreakChars.
unfoldable pub breaks_at : Bytes → Bool
breaks_at [] = false
breaks_at (x ∷ []) = leb 10 x && leb x 13
breaks_at (x ∷ y ∷ []) = leb 10 x && leb x 13 || x == 194 && y == 133
breaks_at (x ∷ y ∷ z ∷ s) =
    leb 10 x && leb x 13 || x == 194 && y == 133 || x == 226 && y == 128 && (z == 168 || z == 169)

unfoldable pub has_line_break : Bytes → Bool
has_line_break [] = false
has_line_break (x ∷ s) = breaks_at (x ∷ s) || has_line_break s

-- ':', ',', '[' and the white space of a regular expression
unfoldable pub is_reserved : ℕ → Bool
is_reserved c =
    c == b':' || c == b',' || c == b'[' || c == b' ' || c == 9 || c == 10 || c == 12 || c == 13

-- ValidChannelName
unfoldable pub valid_channel_name : Bytes → Bool
valid_channel_name [] = false
valid_channel_name (c ∷ s) = not (is_reserved c) && not (has_line_break s)

breaks_at-nul :
    (x : ℕ) (s more : Bytes) → breaks_at (x ∷ s) ≡ false → breaks_at (x ∷ s ++ 0 ∷ more) ≡ false
unfolding breaks_at
breaks_at-nul x [] [] h = ground arith
breaks_at-nul x [] (m ∷ more) h = ground arith
breaks_at-nul x (y ∷ []) more h = ground arith
breaks_at-nul x (y ∷ z ∷ s) more h = h

starts-nul : (more : Bytes) → breaks_at (0 ∷ more) ≡ false
unfolding breaks_at
starts-nul [] = refl
starts-nul (x ∷ []) = refl
starts-nul (x ∷ y ∷ s) = refl

has_line_break-nul :
    (s more : Bytes)
    → has_line_break s ≡ false
    → has_line_break more ≡ false
    → has_line_break (s ++ 0 ∷ more) ≡ false
unfolding has_line_break
has_line_break-nul [] more h k = ground (arith, starts-nul more)
has_line_break-nul (x ∷ s) more h k =
    let first : breaks_at (x ∷ s) ≡ false = ground arith in
    let rest : has_line_break s ≡ false = ground arith in
    ground (arith, breaks_at-nul x s more first, has_line_break-nul s more rest k)

-- A name may hold a byte 0: it and a text without line breaks may follow any name.
pub valid_channel_name-nul :
    (name more : Bytes)
    → valid_channel_name name ≡ true
    → has_line_break more ≡ false
    → valid_channel_name (name ++ 0 ∷ more) ≡ true
unfolding valid_channel_name
valid_channel_name-nul [] more h k = absurd (ground arith)
valid_channel_name-nul (x ∷ name) more h k =
    let f : has_line_break name ≡ false = ground arith in
    ground (arith, has_line_break-nul name more f k)
