-- ===== src/Admin/Keys.antt =====
-- The handlers of API keys of internal/admin/admin.go.
pub mod Effects
pub mod Rotation
pub mod Rotate
use tradecast.Prelude.{
  ℕ, ◌+◌, ◌-◌, ℤ, pos, negsuc, suc, Bool, Option, none, some, List, [], ◌∷◌, Text, codes, text_eq,
  is_empty, Json, unmarshal, Result, ok, err, if◌then◌else◌,
}
use tradecast.Types.{Uuid, Nanos}
use tradecast.Platform.{Platform}
use tradecast.World.{World}
use tradecast.Cache.Keys.{delete_api_key_cache}
use tradecast.Store.{ApiKeyStatus, active, revoked, suspended, ApiKey, KeyRow, StoreError, Db}
use tradecast.Store.Keys.{
  RotateFaults, create_api_key, get_api_key_by_id, list_api_keys, set_api_key_status,
  set_api_key_max_machines, rotate_api_key,
}
use tradecast.Auth.Generate.{generate_key}
use tradecast.Admin.{Reply, replied, failed, panicked, Faults, is_below, listed, with_id, with_body}

pub record IssueRequest : Type 0 where
  pub owner : Text
  pub scopes : List Text
  pub note : Text
  pub max_machines : Option ℤ

abbrev pub scopes_or_default : List Text → List Text
scopes_or_default [] = codes "copy:receive" ∷ []
scopes_or_default (s ∷ ss) = s ∷ ss

-- the reply with a new key, from what the store answers
abbrev pub created :
    Text → World → Result StoreError (Option ApiKey) × Db → Reply (ApiKey × Text) × World
created plaintext w (err _, db) = (failed 500 (codes "store error"), record w { db = db })
created plaintext w (ok none, db) = (panicked, record w { db = db })
created plaintext w (ok (some key), db) = (replied 201 (key, plaintext), record w { db = db })

-- with the body decoded
unfoldable pub issue_decoded :
    Platform
    → Faults
    → Nanos
    → Uuid
    → Option (List ℕ)
    → IssueRequest
    → World
    → Reply (ApiKey × Text) × World
issue_decoded p f now id bytes req w =
    if is_empty req.owner
    then (failed 400 (codes "owner required"), w)
    else if is_below (pos 1) req.max_machines
    then (failed 400 (codes "max_machines must be >= 1 or null for unlimited"), w)
    else elim (generate_key p bytes) [
      | none ↦ (failed 500 (codes "key generation failed"), w)
      | some (plaintext, hash) ↦ created plaintext w (
          create_api_key p.text_array f.write f.read_back id now hash req.owner req.note
            (scopes_or_default req.scopes) req.max_machines w.db)
    ]

-- `id` is the identifier that uuid.New gives, `bytes` what rand.Read gives.
unfoldable pub issue_key :
    Platform
    → Faults
    → Nanos
    → Uuid
    → Option (List ℕ)
    → Json IssueRequest
    → World
    → Reply (ApiKey × Text) × World
unfolding issue_decoded
issue_key p f now id bytes body w = elim (unmarshal body) [
  | none ↦ (failed 400 (codes "owner required"), w)
  | some req ↦ issue_decoded p f now id bytes req w
]

-- The view leaves out the hash of the key.
pub record KeyView : Type 0 where
  pub id : Uuid
  pub owner : Text
  pub scopes : List Text
  pub status : ApiKeyStatus
  pub note : Text
  pub max_machines : Option ℤ
  pub rotate_at : Option Nanos
  pub created_at : Nanos
  pub last_used_at : Option Nanos

unfoldable pub view_of : ApiKey → KeyView
view_of k = record {
  id = k.id;
  owner = k.owner;
  scopes = k.scopes;
  status = k.status;
  note = k.note;
  max_machines = k.max_machines;
  rotate_at = k.rotate_at;
  created_at = k.created_at;
  last_used_at = k.last_used_at;
}

abbrev views : Result StoreError (List ApiKey) → Result StoreError (List KeyView)
views (err e) = err e
views (ok keys) = ok (tradecast.Prelude.map view_of keys)

unfoldable pub list_keys : (List KeyRow → List KeyRow) → Faults → World → Reply (List KeyView)
list_keys order f w = listed (codes "store error") (views (list_api_keys order f.read w.db))

-- the switch over the status
unfoldable pub parse_status : Text → Option ApiKeyStatus
parse_status s =
    if text_eq s (codes "active")
    then some active
    else if text_eq s (codes "revoked")
    then some revoked
    else if text_eq s (codes "suspended")
    then some suspended
    else none

-- `if err != nil || key == nil`
abbrev pub key_or_none : Result StoreError (Option ApiKey) → Option ApiKey
key_or_none (err _) = none
key_or_none (ok key) = key

-- after the UPDATE of a key: the reply, and the deletion of the key's entry in the cache
abbrev pub updated :
    {A : Type 0} → Faults → Text → A → World → Result StoreError Unit × Db → Reply A × World
updated f hash a w (err _, db) = (failed 500 (codes "store error"), record w { db = db })
updated f hash a w (ok _, db) =
    (replied 200 a, record w { db = db; lru = delete_api_key_cache f.cache hash w.lru })

-- the change of a key that has to be there
abbrev pub change_key :
    {A : Type 0}
    → Faults
    → Uuid
    → A
    → (Db → Result StoreError Unit × Db)
    → World
    → Option ApiKey
    → Reply A × World
change_key f id a change w none = (failed 404 (codes "key not found"), w)
change_key f id a change w (some key) = updated f key.key_hash a w (change w.db)

-- with the status parsed
unfoldable pub set_status_parsed :
    Faults → Uuid → World → Option ApiKeyStatus → Reply (Uuid × ApiKeyStatus) × World
set_status_parsed f id w none = (failed 400 (codes "status must be active|revoked|suspended"), w)
set_status_parsed f id w (some status) =
    change_key f id (id, status) (set_api_key_status f.write id status) w
      (key_or_none (get_api_key_by_id f.read id w.db))

unfoldable pub set_key_status :
    Platform → Faults → Text → Json Text → World → Reply (Uuid × ApiKeyStatus) × World
set_key_status p f id_text body w =
    with_id (p.parse_uuid id_text) (codes "invalid key id") w (λ id.
      with_body (unmarshal body) w (λ status. set_status_parsed f id w (parse_status status)))

-- with the identifier and the body parsed
unfoldable pub set_max_decoded : Faults → Uuid → Option ℤ → World → Reply (Uuid × Option ℤ) × World
set_max_decoded f id max w =
    if is_below (pos 1) max
    then (failed 400 (codes "max_machines must be >= 1 or null for unlimited"), w)
    else change_key f id (id, max) (set_api_key_max_machines f.write id max) w
        (key_or_none (get_api_key_by_id f.read id w.db))

unfoldable pub set_key_max_machines :
    Platform → Faults → Text → Json (Option ℤ) → World → Reply (Uuid × Option ℤ) × World
set_key_max_machines p f id_text body w =
    with_id (p.parse_uuid id_text) (codes "invalid key id") w
      (λ id. with_body (unmarshal body) w (λ max. set_max_decoded f id max w))
