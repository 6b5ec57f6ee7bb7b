-- ===== src/Auth/TokenRequests/Lifetimes.antt =====
-- internal/auth/auth.go: `ValidateTTL` and the lifetime that `MintToken` gives, in nanoseconds. The
-- product of an int64 and a million wraps.
use ably_server.Base.{
  ℕ, zero, suc, ◌-◌, ◌*◌, ◌%◌, ◌^◌, ◌≤◌, ◌<◌, ◌≡◌, refl, Bool, false, arith, if◌then◌else◌, ltb, ℤ,
  pos, negsuc, Result, ok, err,
}
use ably_server.Protocol.Summaries.{to_word, from_word}
use ably_server.Auth.TokenRequests.{AuthError, invalid_ttl, millisecond}

abbrev pub default_token_ttl : ℕ
default_token_ttl = 3600000000000

abbrev pub max_token_ttl : ℕ
max_token_ttl = 86400000000000

-- time.Duration(ttl) * time.Millisecond
unfoldable pub duration_of : ℤ → ℤ
unfolding to_word from_word
duration_of ttl = from_word (to_word ttl * millisecond % 2 ^ 64)

abbrev pub is_excessive : ℤ → Bool
is_excessive (pos d) = ltb max_token_ttl d
is_excessive (negsuc d) = false

-- ValidateTTL
unfoldable pub validate_ttl : ℤ → Result AuthError (Unit {0})
validate_ttl (negsuc n) = err invalid_ttl
validate_ttl (pos n) = if is_excessive (duration_of (pos n)) then err invalid_ttl else ok tt

abbrev lifetime_of : ℤ → Result AuthError ℕ
lifetime_of (negsuc d) = ok default_token_ttl
lifetime_of (pos zero) = ok default_token_ttl
lifetime_of (pos (suc d)) = if is_excessive (pos (suc d)) then err invalid_ttl else ok (suc d)

-- The lifetime of a token, in MintToken.
unfoldable pub token_lifetime : ℤ → Result AuthError ℕ
token_lifetime ttl = lifetime_of (duration_of ttl)

lifetime_of_bounds : (d : ℤ) (n : ℕ) → lifetime_of d ≡ ok n → (0 < n) × (n ≤ max_token_ttl)
lifetime_of_bounds (negsuc d) n h = ground arith
lifetime_of_bounds (pos zero) n h = ground arith
lifetime_of_bounds (pos (suc d)) n h = ground arith

-- Whatever is asked for, a token lives for more than no time and at most a day.
pub token_lifetime_bounds :
    (ttl : ℤ) (n : ℕ) → token_lifetime ttl ≡ ok n → (0 < n) × (n ≤ max_token_ttl)
unfolding token_lifetime
token_lifetime_bounds ttl n h = lifetime_of_bounds (duration_of ttl) n h

-- A time to live whose nanoseconds do not fit an int64, but 64 bits, is not rejected as excessive, and
-- the token lives for the hour that it would live for if none were given.
pub validate_ttl_overflow :
    (t : ℕ)
    → 2 ^ 63 ≤ t * millisecond
    → t * millisecond < 2 ^ 64
    → (validate_ttl (pos t) ≡ ok tt) × (token_lifetime (pos t) ≡ ok default_token_ttl)
unfolding validate_ttl token_lifetime
validate_ttl_overflow t low high =
    let wraps : duration_of (pos t) ≡ negsuc (2 ^ 64 - 1 - t * millisecond) =
      unfold duration_of to_word from_word in ground arith in
    rw wraps (refl, refl)
