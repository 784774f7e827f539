-- ===== src/Auth/Hmac.antt =====
-- VerifySignalHMACWithTTL of internal/auth/auth.go, with the 64-bit arithmetic of its durations.
pub mod Window
use tradecast.Prelude.{
  ℕ, zero, suc, ◌-◌, ◌^◌, min, ℤ, pos, negsuc, ltb_ℤ, leb, ◌==◌, Bool, Option, none, some, ◌∷◌,
  ◌++◌, Text, text_eq, if◌then◌else◌,
}
use tradecast.Types.{Nanos}
use tradecast.Platform.{Platform}

-- A time.Duration is an int64.
abbrev pub duration_mod : ℕ
duration_mod = 2 ^ 63

-- time.Since: the difference of two instants, cut off at the ends of the int64 range
unfoldable pub since : Nanos → Nanos → ℤ
since now ts =
    if leb ts now
    then pos (min (now - ts) (duration_mod - 1))
    else negsuc (min (ts - now) duration_mod - 1)

-- `-d`: the least int64 is its own negative.
unfoldable pub negate : ℤ → ℤ
negate (pos zero) = pos 0
negate (pos (suc n)) = negsuc n
negate (negsuc n) = if suc n == duration_mod then negsuc n else pos (suc n)

pub data HmacError : Type 0 where
  invalid_timestamp too_old invalid_signature : HmacError

-- "%s:%s:%s:%s"
abbrev pub signed_message : Text → Text → Text → Text → Text
signed_message ticket kind symbol timestamp =
    ticket ++ (b':' ∷ kind ++ (b':' ∷ symbol ++ (b':' ∷ timestamp)))

unfoldable pub generate_signal_hmac : Platform → Text → Text → Text → Text → Text → Text
generate_signal_hmac p secret ticket kind symbol timestamp =
    p.hmac_hex secret (signed_message ticket kind symbol timestamp)

-- `age > ttl` after `if age < 0 { age = -age }`
unfoldable pub is_too_old : Nanos → Nanos → Nanos → Bool
unfolding since negate
is_too_old now ts ttl =
    let age = since now ts in ltb_ℤ (pos ttl) (if ltb_ℤ age (pos 0) then negate age else age)

-- `none`: verified
unfoldable pub verify_signal_hmac :
    Platform → Nanos → Text → Text → Text → Text → Text → Text → Nanos → Option HmacError
verify_signal_hmac p now secret ticket kind symbol timestamp signature ttl =
    elim (p.parse_rfc3339 timestamp) [
      | none ↦ some invalid_timestamp
      | some ts ↦
          if is_too_old now ts ttl
          then some too_old
          else if text_eq (p.hmac_hex secret (signed_message ticket kind symbol timestamp))
              signature
          then none
          else some invalid_signature
    ]
