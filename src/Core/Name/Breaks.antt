-- ===== src/Core/Name/Breaks.antt =====
-- internal/core/name.go: what the names are that the expression accepts.
use ably_server.Base.{ℕ, ◌≡◌, refl, ap, ◌∙◌, true, ◌&&◌, [], ◌∷◌, ◌++◌, Bytes, arith, leb}
use ably_server.Core.Name.{breaks_at, has_line_break, is_reserved, valid_channel_name}

-- The line breaks of Unicode, in UTF-8.
pub data IsLineBreak : Bytes → Type 0 where
  line_feed : IsLineBreak (10 ∷ [])
  vertical_tab : IsLineBreak (11 ∷ [])
  form_feed : IsLineBreak (12 ∷ [])
  carriage_return : IsLineBreak (13 ∷ [])
  next_line : IsLineBreak (194 ∷ 133 ∷ [])
  line_separator : IsLineBreak (226 ∷ 128 ∷ 168 ∷ [])
  paragraph_separator : IsLineBreak (226 ∷ 128 ∷ 169 ∷ [])

-- What no name begins with: ':', ',', '[' and white space of ASCII but for the vertical tab.
pub data IsReserved : ℕ → Type 0 where
  colon : IsReserved b':'
  comma : IsReserved b','
  bracket : IsReserved b'['
  space : IsReserved b' '
  tab : IsReserved 9
  feed : IsReserved 10
  page : IsReserved 12
  return : IsReserved 13

-- A text that does not begin with a reserved character, and holds no line break after its first byte.
pub record IsChannelName (name : Bytes) : Type 0 where
  pub first : ℕ
  pub rest : Bytes
  pub spelled : name ≡ first ∷ rest
  pub free : IsReserved first → ⊥
  pub unbroken : (pre b post : Bytes) → IsLineBreak b → rest ≡ pre ++ (b ++ post) → ⊥

breaks_low : (x : ℕ) (post : Bytes) → (leb 10 x && leb x 13) ≡ true → breaks_at (x ∷ post) ≡ true
unfolding breaks_at
breaks_low x [] h = ground arith
breaks_low x (y ∷ []) h = ground arith
breaks_low x (y ∷ z ∷ s) h = ground arith

breaks_at-line_break : (b post : Bytes) → IsLineBreak b → breaks_at (b ++ post) ≡ true
unfolding breaks_at
breaks_at-line_break _ post line_feed = breaks_low 10 post refl
breaks_at-line_break _ post vertical_tab = breaks_low 11 post refl
breaks_at-line_break _ post form_feed = breaks_low 12 post refl
breaks_at-line_break _ post carriage_return = breaks_low 13 post refl
breaks_at-line_break _ [] next_line = refl
breaks_at-line_break _ (z ∷ post) next_line = refl
breaks_at-line_break _ post line_separator = refl
breaks_at-line_break _ post paragraph_separator = refl

starts-has : (s : Bytes) → breaks_at s ≡ true → has_line_break s ≡ true
unfolding has_line_break
starts-has [] h = absurd (unfold breaks_at in ground (arith, h))
starts-has (x ∷ s) h = ground (arith, h)

has_line_break-append : (pre s : Bytes) → has_line_break s ≡ true → has_line_break (pre ++ s) ≡ true
unfolding has_line_break
has_line_break-append [] s h = h
has_line_break-append (x ∷ pre) s h = ground (arith, has_line_break-append pre s h)

reserved_found : (c : ℕ) → IsReserved c → is_reserved c ≡ true
unfolding is_reserved
reserved_found _ colon = refl
reserved_found _ comma = refl
reserved_found _ bracket = refl
reserved_found _ space = refl
reserved_found _ tab = refl
reserved_found _ feed = refl
reserved_found _ page = refl
reserved_found _ return = refl

pub valid_channel_name-IsChannelName :
    (name : Bytes) → valid_channel_name name ≡ true → IsChannelName name
unfolding valid_channel_name
valid_channel_name-IsChannelName [] h = absurd (ground (arith, h))
valid_channel_name-IsChannelName (c ∷ s) h = record {
  first = c;
  rest = s;
  spelled = refl;
  free = λ r. absurd (ground (arith, h, reserved_found c r));
  unbroken = λ pre b post r e.
      let broken : has_line_break s ≡ true =
        ap has_line_break e
        ∙ has_line_break-append pre (b ++ post)
            (starts-has (b ++ post) (breaks_at-line_break b post r)) in
      absurd (ground (arith, h, broken));
}

-- A text that begins with a line break, and one that holds a line break.
abbrev Begins : Bytes → Type 0
Begins s = (b : Bytes) × (post : Bytes) × IsLineBreak b × (s ≡ b ++ post)

abbrev Holds : Bytes → Type 0
Holds s = (pre : Bytes) × (b : Bytes) × (post : Bytes) × IsLineBreak b × (s ≡ pre ++ (b ++ post))
