-- ===== src/Auth/Request.antt =====
-- What internal/auth/auth.go reads from the headers of a request. A header that is not sent reads
-- as the empty text; of a repeated header, `Get` returns the first.
pub mod Forwarded
mod Tests
use tradecast.Prelude.{
  ℕ, ◌≡◌, ◌==◌, Bool, false, true, ◌||◌, Option, none, some, List, [], ◌∷◌, Text, codes, before,
  is_empty, trim_space, if◌then◌else◌,
}
use tradecast.Auth.Middleware.{Call}

pub record Request : Type 0 where
  pub authorization : Text
  pub x_forwarded_for : Text
  pub x_real_ip : Text
  pub remote_addr : Text
  pub x_api_key : Text
  pub x_account_id : Text

-- `h[n:]` if h starts with the prefix, of n bytes
abbrev pub cut_prefix : Text → Text → Option Text
cut_prefix [] h = some h
cut_prefix (c ∷ prefix) [] = none
cut_prefix (c ∷ prefix) (d ∷ h) = if c == d then cut_prefix prefix h else none

abbrev pub or_empty : Option Text → Text
or_empty none = []
or_empty (some token) = token

unfoldable pub extract_bearer : Request → Text
extract_bearer r = or_empty (cut_prefix (codes "Bearer ") r.authorization)

-- whether a byte occurs in a text
abbrev pub occurs : ℕ → Text → Bool
occurs b [] = false
occurs b (c ∷ s) = c == b || occurs b s

-- `addr[:strings.LastIndex(addr, ":")]`, and `addr` where there is no colon
unfoldable pub without_port : Text → Text
without_port [] = []
without_port (c ∷ s) =
    let rest = without_port s in if occurs b':' s then c ∷ rest else if c == b':' then [] else c ∷ s

unfoldable pub real_ip : Request → Text
real_ip r =
    if is_empty r.x_forwarded_for
    then if is_empty r.x_real_ip then without_port r.remote_addr else r.x_real_ip
    else trim_space (before b',' r.x_forwarded_for)

-- the headers that APIKeyMiddleware reads
unfoldable pub call_of : Request → Call
call_of r = record { ip = real_ip r; api_key = r.x_api_key; account = r.x_account_id }
