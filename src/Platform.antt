-- ===== src/Platform.antt =====
-- What the program calls and does not define, as a parameter: the hash functions, the parsers of
-- time and of identifiers, whose results the program only compares, and the array columns of
-- Postgres.
use tradecast.Prelude.{Option, Text, ℤ}
use tradecast.Types.{Uuid, Nanos}

pub record Platform : Type 0 where
  pub sha256_hex : Text → Text  -- hex.EncodeToString of sha256.Sum256
  pub hmac_hex : Text → Text → Text  -- HMAC-SHA256 in hex, of a secret and a message
  pub parse_rfc3339 : Text → Option Nanos  -- time.Parse(time.RFC3339, s)
  pub parse_uuid : Text → Option Uuid  -- uuid.Parse
  pub parse_duration : Text → Option ℤ  -- time.ParseDuration
  pub uuid_text : Uuid → Text  -- UUID.String
  -- what a TEXT[] column gives back for an array literal; none: the literal is refused
  pub text_array : Text → Option Text
