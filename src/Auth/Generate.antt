-- ===== src/Auth/Generate.antt =====
-- GenerateKey of internal/auth/auth.go.
use tradecast.Prelude.{
  ℕ, ◌+◌, ◌-◌, ◌/◌, ◌%◌, ltb, Option, none, some, List, [], ◌∷◌, Text, if◌then◌else◌,
}
use tradecast.Platform.{Platform}

-- a digit of hex.EncodeToString
unfoldable pub hex_digit : ℕ → ℕ
hex_digit n = if ltb n 10 then b'0' + n else b'a' + (n - 10)

unfoldable pub encode_to_string : List ℕ → Text
unfolding hex_digit
encode_to_string [] = []
encode_to_string (b ∷ bytes) = hex_digit (b / 16) ∷ hex_digit (b % 16) ∷ encode_to_string bytes

-- The plaintext and its hash. `bytes` is what rand.Read gives, or none if it fails.
unfoldable pub generate_key : Platform → Option (List ℕ) → Option (Text × Text)
generate_key p none = none
generate_key p (some bytes) =
    let plaintext = encode_to_string bytes in some (plaintext, p.sha256_hex plaintext)
