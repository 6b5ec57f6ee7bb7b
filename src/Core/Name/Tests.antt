-- ===== src/Core/Name/Tests.antt =====
-- internal/core/name.go on concrete input.
use ably_server.Base.{◌≡◌, refl, true, false, ◌∷◌, text}
use ably_server.Core.Name.{valid_channel_name, has_line_break, breaks_at, is_reserved}

-- The first rune may be a vertical tab or U+2028, a later one may not.
starts_with_tab : valid_channel_name (11 ∷ text "a") ≡ true
unfolding valid_channel_name has_line_break breaks_at is_reserved
starts_with_tab = refl

starts_with_separator : valid_channel_name (226 ∷ 128 ∷ 168 ∷ text "a") ≡ true
unfolding valid_channel_name has_line_break breaks_at is_reserved
starts_with_separator = refl

holds_separator : valid_channel_name (b'a' ∷ 226 ∷ 128 ∷ 168 ∷ text "a") ≡ false
unfolding valid_channel_name has_line_break breaks_at is_reserved
holds_separator = refl
