-- ===== src/Prelude/Codec.antt =====
-- What the program uses of `encoding/json`, for the documents of one Go type `A`.
use mathlib.Core.Option.{Option, none, some}
use tradecast.Prelude.Texts.{Text}

-- The bytes that the program stores as JSON.
--   doc v: what `json.Marshal` writes for a value `v` of the type
--   quoted b: what it writes for a `[]byte` that holds `b`: a JSON string, `b` in base64
--   other t: any other bytes; they are no document of the type
pub data Json {ℓ} (A : Type ℓ) : Type ℓ where
  doc : A → Json A
  quoted : Json A → Json A
  other : Text → Json A

-- `json.Unmarshal` into a struct or a slice of texts: a JSON string is refused.
abbrev pub unmarshal {ℓ} : {A : Type ℓ} → Json A → Option A
unmarshal (doc v) = some v
unmarshal (quoted b) = none
unmarshal (other t) = none
