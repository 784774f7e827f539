-- ===== src/Auth/Hmac/Window.antt =====
-- Which timestamps and signatures VerifySignalHMACWithTTL accepts.
use tradecast.Prelude.{
  ◌+◌, ◌-◌, ◌≤◌, ◌<◌, ◌≡◌, ◌↔◌, ◌⊎◌, true, false, some, none, Text, text_eq, text_eq_iff, arith,
  Option-cases, inl, inr,
}
use tradecast.Types.{Nanos}
use tradecast.Platform.{Platform}
use tradecast.Auth.Hmac.{
  duration_mod, is_too_old, generate_signal_hmac, verify_signal_hmac, signed_message,
}

-- How far apart two instants are.
abbrev pub distance : Nanos → Nanos → Nanos
distance a b = (a - b) + (b - a)

is_too_old_iff :
    (now ts ttl : Nanos)
    → ttl < duration_mod - 1
    → (is_too_old now ts ttl ≡ false) ↔ ((distance now ts ≤ ttl) ⊎ (duration_mod ≤ ts - now))
unfolding is_too_old
is_too_old_iff now ts ttl h = ground arith

-- With a time to live below the largest duration, VerifySignalHMACWithTTL accepts exactly the
-- requests whose timestamp parses to an instant at most the time to live away, before or after, or
-- else 2 ^ 63 nanoseconds (292 years) or more in the future, and whose signature is the one that
-- GenerateSignalHMAC makes for the same texts.
pub verify_signal_hmac_iff :
    (p : Platform) (now : Nanos) (secret ticket kind symbol timestamp signature : Text)
    (ttl : Nanos)
    → ttl < duration_mod - 1
    → (verify_signal_hmac p now secret ticket kind symbol timestamp signature ttl ≡ none) ↔ (
        (ts : Nanos) × (p.parse_rfc3339 timestamp ≡ some ts)
        × ((distance now ts ≤ ttl) ⊎ (duration_mod ≤ ts - now))
        × (signature ≡ generate_signal_hmac p secret ticket kind symbol timestamp))
unfolding verify_signal_hmac generate_signal_hmac
verify_signal_hmac_iff p now secret ticket kind symbol timestamp signature ttl h =
    elim (Option-cases (p.parse_rfc3339 timestamp)) [
      | inl e ↦ (λ q. ground (arith, e), λ q. ground (arith, e, q.1))
      | inr (ts, e) ↦ (
        λ q. (ts, e, ground (arith, e, q, old ts, same), ground (arith, e, q, old ts, same)),
        λ q. ground (arith, e, q.1, q.2, q.3, old ts, old q.0, same),
      )
    ]
  where
    old :
        (t : Nanos)
        → (is_too_old now t ttl ≡ false) ↔ ((distance now t ≤ ttl) ⊎ (duration_mod ≤ t - now))
    old t = is_too_old_iff now t ttl h

    same :
        (text_eq (p.hmac_hex secret (signed_message ticket kind symbol timestamp)) signature ≡ true)
        ↔ (p.hmac_hex secret (signed_message ticket kind symbol timestamp) ≡ signature)
    same = text_eq_iff _ signature
