-- ===== src/Store/Scopes.antt =====
-- scopesToArray and parsePostgresArray of internal/store/store.go.
pub mod RoundTrip
mod Tests
use tradecast.Prelude.{
  ℕ, ◌==◌, Bool, ◌||◌, List, [], ◌∷◌, ◌++◌, Text, codes, is_empty, trim, trim_space, if◌then◌else◌,
}

abbrev pub comma : ℕ
comma = b','

-- strings.Join(scopes, ",")
unfoldable pub join : List Text → Text
join [] = []
join (p ∷ []) = p
join (p ∷ q ∷ ps) = p ++ comma ∷ join (q ∷ ps)

unfoldable pub scopes_to_array : List Text → Text
unfolding join
scopes_to_array [] = codes "{}"
scopes_to_array (p ∷ ps) = b'{' ∷ join (p ∷ ps) ++ b'}' ∷ []

-- a byte goes to the front of the first part
abbrev push : ℕ → List Text → List Text
push c [] = (c ∷ []) ∷ []
push c (p ∷ ps) = (c ∷ p) ∷ ps

-- strings.Split(s, ",")
unfoldable pub split : Text → List Text
split [] = [] ∷ []
split (c ∷ s) = if c == comma then [] ∷ split s else push c (split s)

-- the loop of parsePostgresArray: parts are trimmed and the empty ones dropped
unfoldable pub keep_parts : List Text → List Text
keep_parts [] = []
keep_parts (p ∷ ps) =
    if is_empty (trim_space p) then keep_parts ps else trim_space p ∷ keep_parts ps

abbrev pub is_brace : ℕ → Bool
is_brace c = c == b'{' || c == b'}'

unfoldable pub parse_postgres_array : Text → List Text
unfolding split keep_parts
parse_postgres_array s =
    let body = trim is_brace s in if is_empty body then [] else keep_parts (split body)
