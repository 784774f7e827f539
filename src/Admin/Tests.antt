-- ===== src/Admin/Tests.antt =====
-- The theorems on the admin's handlers at concrete inputs.
use tradecast.Prelude.{
  ◌≡◌, ◌≢◌, refl, false, none, some, [], ◌∷◌, pos, codes, doc, ok, find, any, ltb, text_eq,
  to_upper, trim_space, upper, arith, trim, if◌then◌else◌, update_where, count_where,
}
use tradecast.World.{World, empty_world}
use tradecast.Store.{KeyRow, ApiKeyStatus, active, revoked, ApiKey, empty_db}
use tradecast.Store.Keys.{
  RotateFaults, scan_api_key, get_api_key_by_id, set_api_key_status, rotate_api_key,
}
use tradecast.Store.Scopes.{parse_postgres_array, scopes_to_array}
use tradecast.Samples.{toy_platform, auth_config}
use tradecast.Auth.Keys
use tradecast.Auth.Keys.{to_cached, validate_key}
use tradecast.Auth.Keys.Validity.{row_of}
use tradecast.Symbols
use tradecast.Symbols.{Manager, sync}
use tradecast.Symbols.Sync.{IsSingle, consumers}
use tradecast.Symbols.Watched.{add_symbol-sync}
use tradecast.Admin.{replied, Faults}
use tradecast.Admin.Keys.{parse_status, set_status_parsed, set_key_status}
use tradecast.Admin.Keys.Effects.{set_key_status-revokes}
use tradecast.Admin.Keys.Rotation.{rotation, rotate_api_key-overlaps}
use tradecast.Admin.Symbols.{add_symbol}

abbrev key_row : KeyRow
key_row = record {
  id = 7;
  key_hash = codes "k";
  owner = codes "ann";
  scopes = codes "{copy:receive}";
  status = active;
  max_machines = some (pos 1);
  successor_key_id = none;
  rotate_at = none;
  note = [];
  created_at = 0;
  last_used_at = none;
}

abbrev world : World
world = record empty_world { db = record empty_db { api_keys = key_row ∷ [] } }

abbrev sound : Faults
sound = record { read = false; write = false; read_back = false; cache = false }

abbrev sound_keys : Keys.Faults
sound_keys = record { cache_get = false; db_get = false; cache_set = false; touch = false }

abbrev sound_rotation : RotateFaults
sound_rotation = record { begin = false; insert = false; link = false; commit = false; get = false }

replied_revoked :
    (set_key_status toy_platform sound (codes "7") (doc (codes "revoked")) world).0
    ≡ replied 200 (7, revoked)
unfolding set_key_status set_status_parsed get_api_key_by_id set_api_key_status parse_status text_eq
    find
replied_revoked = refl

key_found : row_of toy_platform (codes "k") world.db ≡ some key_row
unfolding find text_eq
key_found = refl

revoked_other : revoked ≢ active
revoked_other = ground arith

set_key_status-revokes_example :
    (validate_key toy_platform sound_keys auth_config 9
      (codes "k")
      (set_key_status toy_platform sound (codes "7") (doc (codes "revoked")) world).1).0
    ≡ ok none
set_key_status-revokes_example =
    set_key_status-revokes toy_platform sound (codes "7") (doc (codes "revoked")) world key_row
      revoked sound_keys auth_config 9 (codes "k") replied_revoked revoked_other key_found
      (λ now k. refl) refl

-- The key of `key_row` is rotated to the key with the plaintext "n".
abbrev successor : ApiKey
successor = record {
  id = 8;
  key_hash = codes "n";
  owner = codes "ann";
  scopes = codes "copy:receive" ∷ [];
  status = active;
  max_machines = none;
  successor_key_id = none;
  rotate_at = none;
  note = [];
  created_at = 5;
  last_used_at = none;
}

rotated_to_successor :
    (rotation toy_platform sound_rotation 8 5
      (codes "ann")
      []
      (codes "copy:receive" ∷ [])
      none
      100
      (codes "k")
      (codes "n")
      world
      key_row).0
    ≡ ok (some successor)
unfolding rotate_api_key get_api_key_by_id find text_eq any update_where scan_api_key
    parse_postgres_array trim scopes_to_array trim_space
rotated_to_successor = refl

rotate_api_key-overlaps_example :
    let after = record world {
      db =
          (rotation toy_platform sound_rotation 8 5
            (codes "ann")
            []
            (codes "copy:receive" ∷ [])
            none
            100
            (codes "k")
            (codes "n")
            world
            key_row).1;
    } in
    ((validate_key toy_platform sound_keys auth_config 60 (codes "k") after).0
      ≡ ok (if ltb 100 60 then none else some (to_cached toy_platform (scan_api_key key_row))))
    × ((validate_key toy_platform sound_keys auth_config 60 (codes "n") after).0
        ≡ ok (some (to_cached toy_platform successor)))
rotate_api_key-overlaps_example =
    rotate_api_key-overlaps toy_platform sound_rotation 8 5 (codes "ann") []
      (codes "copy:receive" ∷ []) none 100 (codes "k") (codes "n") world key_row sound_keys
      auth_config 60 successor rotated_to_successor key_found refl (λ now k. refl) refl

-- The admin adds " us30 " while no symbol is watched and the manager runs one consumer.
abbrev manager : Manager
manager = record { running = codes "EURUSD" ∷ []; symbols = codes "EURUSD" ∷ [] }

abbrev sound_sync : Symbols.Faults
sound_sync = record { cache_get = false; list = false; cache_set = false }

manager-IsSingle : IsSingle manager
unfolding count_where
manager-IsSingle s = ground arith

created_us30 :
    (add_symbol sound 5 30 (doc (codes " us30 ")) empty_world).0 ≡ replied 201 (codes "US30")
unfolding add_symbol to_upper upper trim_space tradecast.Store.Symbols.add_symbol
created_us30 = refl

add_symbol-sync_example :
    consumers
      (codes "US30")
      (sync
        (λ xs. xs)
        sound_sync
        9
        (manager, (add_symbol sound 5 30 (doc (codes " us30 ")) empty_world).1)).0
    ≡ 1
add_symbol-sync_example =
    add_symbol-sync (λ xs. xs) sound sound_sync 5 9 30 (doc (codes " us30 ")) empty_world
      (codes "US30") manager (λ x xs. refl) refl refl manager-IsSingle created_us30
