-- ===== src/Admin/Keys/Rotate.antt =====
-- RotateKey of internal/admin/admin.go.
use tradecast.Prelude.{
  ℕ, ◌+◌, ◌-◌, ℤ, pos, negsuc, suc, Option, none, some, List, Text, codes, is_empty, Json,
  unmarshal, Result, ok, err, if◌then◌else◌, Bool,
}
use tradecast.Types.{Uuid, Nanos}
use tradecast.Platform.{Platform}
use tradecast.World.{World}
use tradecast.Store.{ApiKey, StoreError, Db}
use tradecast.Store.Keys.{RotateFaults, get_api_key_by_id, rotate_api_key}
use tradecast.Auth.Generate.{generate_key}
use tradecast.Admin.{Reply, replied, failed, panicked, with_id}
use tradecast.Admin.Keys.{key_or_none}

-- `t.Add(d)`, for instants more than 2 ^ 63 nanoseconds after the year 0
abbrev pub after : Nanos → ℤ → Nanos
after t (pos d) = t + d
after t (negsuc d) = t - suc d

-- A body that does not decode leaves the field empty.
abbrev pub rotate_after_or_default : Option Text → Text
rotate_after_or_default none = codes "24h"
rotate_after_or_default (some s) = if is_empty s then codes "24h" else s

abbrev pub rotated :
    Text
    → Nanos
    → World
    → Result StoreError (Option ApiKey) × Db
    → Reply (Uuid × Text × Nanos) × World
rotated plaintext rotate_at w (err _, db) = (failed 500 (codes "store error"), record w { db = db })
rotated plaintext rotate_at w (ok none, db) = (panicked, record w { db = db })
rotated plaintext rotate_at w (ok (some key), db) =
    (replied 201 (key.id, plaintext, rotate_at), record w { db = db })

-- with the old key found
unfoldable pub rotate_found :
    Platform
    → RotateFaults
    → Nanos
    → Uuid
    → Option (List ℕ)
    → Uuid
    → ℤ
    → ApiKey
    → World
    → Reply (Uuid × Text × Nanos) × World
rotate_found p f now new_id bytes id dur old w = elim (generate_key p bytes) [
  | none ↦ (failed 500 (codes "key generation failed"), w)
  | some (plaintext, hash) ↦ rotated plaintext (after now dur) w (
      rotate_api_key p.text_array f new_id now id hash old.owner old.note old.scopes
        old.max_machines (after now dur) w.db)
]

-- with the identifier parsed
unfoldable pub rotate_parsed :
    Platform
    → Bool
    → RotateFaults
    → Nanos
    → Uuid
    → Option (List ℕ)
    → Uuid
    → Json Text
    → World
    → Reply (Uuid × Text × Nanos) × World
unfolding rotate_found
rotate_parsed p read_fault f now new_id bytes id body w =
    elim (p.parse_duration (rotate_after_or_default (unmarshal body))) [
      | none ↦ (failed 400 (codes "invalid rotate_after"), w)
      | some dur ↦ elim (key_or_none (get_api_key_by_id read_fault id w.db)) [
        | none ↦ (failed 404 (codes "key not found"), w)
        | some old ↦ rotate_found p f now new_id bytes id dur old w
      ]
    ]

unfoldable pub rotate_key :
    Platform
    → Bool
    → RotateFaults
    → Nanos
    → Uuid
    → Option (List ℕ)
    → Text
    → Json Text
    → World
    → Reply (Uuid × Text × Nanos) × World
rotate_key p read_fault f now new_id bytes id_text body w =
    with_id (p.parse_uuid id_text) (codes "invalid key id") w
      (λ id. rotate_parsed p read_fault f now new_id bytes id body w)
