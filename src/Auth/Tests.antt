-- ===== src/Auth/Tests.antt =====
-- The theorems on authentication at concrete inputs.
use tradecast.Prelude.{
  ◌≡◌, ◌↔◌, ◌⊎◌, refl, false, true, none, some, [], ◌∷◌, pos, Text, codes, text_eq, trim_space,
  arith, ◌≤◌, ◌-◌, is_empty, leb, ok, any, find, count_where,
}
use tradecast.Types.{CachedKey}
use tradecast.World.{World, empty_world}
use tradecast.Store.{KeyRow, KeyMachine, active, empty_db}
use tradecast.Store.Keys.{scan_api_key}
use tradecast.Store.Machines.{
  RegisterFaults, register_machine, machines_of, is_machine, remove_machine,
}
use tradecast.Cache.Machines.{get_machine_allowed}
use tradecast.Cache.Keys.{get_auth_failures}
use tradecast.Samples.{toy_platform, auth_config}
use tradecast.Admin.{replied}
use tradecast.Admin.Machines.{remove_machine_handler}
use tradecast.Auth.Hmac.{duration_mod, verify_signal_hmac, generate_signal_hmac}
use tradecast.Auth.Hmac.Window.{distance, verify_signal_hmac_iff}
use tradecast.Auth.Keys.{to_cached, validate_key}
use tradecast.Auth.Keys.Validity.{
  IsOpaque, IsUsable, row_of, validate_key-IsOpaque, validate_key_iff,
}
use tradecast.Auth.Machines.{check_machine_binding}
use tradecast.Auth.Machines.Limit.{AllWithin, Visit, visit_all, visit_all-AllWithin}
use tradecast.Auth.Machines.Race.{
  Ask, looking, finished, in_step, interleave, with_row, race_exceeds,
}
use tradecast.Auth.Machines.Removal.{removed_still_allowed}
use tradecast.Auth.Middleware.{Call, Faults, passed, failures_or_zero, api_key_middleware}
use tradecast.Auth.Middleware.Gate.{InScope, api_key_middleware_iff}

abbrev key_row : KeyRow
key_row = record {
  id = 7;
  key_hash = codes "k";
  owner = codes "ann";
  scopes = codes "{signal:read}";
  status = active;
  max_machines = some (pos 1);
  successor_key_id = none;
  rotate_at = none;
  note = [];
  created_at = 0;
  last_used_at = none;
}

abbrev sound : tradecast.Auth.Keys.Faults
sound = record { cache_get = false; db_get = false; cache_set = false; touch = false }

abbrev sound_register : RegisterFaults
sound_register = record { lookup = false; touch = false; count = false; insert = false }

abbrev sound_machines : tradecast.Auth.Machines.Faults
sound_machines = record {
  count = false;
  cache_get = false;
  cache_set = false;
  registered = false;
  max = false;
  register = sound_register;
  touch = false;
}

-- a world with one key and no machine
abbrev one_key : World
one_key = record empty_world { db = record empty_db { api_keys = key_row ∷ [] } }

abbrev machine : KeyMachine
machine = record {
  id = 3;
  key_id = 7;
  account_number = codes "100";
  registered_at = 0;
  last_seen_at = 0;
}

abbrev one_machine : World
one_machine = record one_key { db = record one_key.db { key_machines = machine ∷ [] } }

abbrev cached : CachedKey
cached = record { id = codes "7"; owner = codes "ann"; scopes = []; status = codes "active" }

abbrev visit : Text → Visit
visit account = record { faults = sound_machines; now = 5; id = 9; key = cached; account = account }

verify_signal_hmac_iff_example :
    (verify_signal_hmac toy_platform 101_000_000_000 []
        (codes "1")
        (codes "OPEN")
        (codes "X")
        (codes "t")
        (codes "1:OPEN:X:t")
        30_000_000_000
      ≡ none)
    ↔ ((ts : tradecast.Types.Nanos) × (toy_platform.parse_rfc3339 (codes "t") ≡ some ts)
        × ((distance 101_000_000_000 ts ≤ 30_000_000_000) ⊎ (duration_mod ≤ ts - 101_000_000_000))
        × (codes "1:OPEN:X:t"
            ≡ generate_signal_hmac toy_platform []
                (codes "1")
                (codes "OPEN")
                (codes "X")
                (codes "t")))
verify_signal_hmac_iff_example =
    verify_signal_hmac_iff toy_platform 101_000_000_000 [] (codes "1") (codes "OPEN") (codes "X")
      (codes "t") (codes "1:OPEN:X:t") 30_000_000_000 (omega arith)

nothing_cached : IsOpaque empty_world.lru
nothing_cached now hash = refl

validate_key-IsOpaque_example :
    IsOpaque (validate_key toy_platform sound auth_config 5 (codes "k") one_key).1.lru
validate_key-IsOpaque_example =
    validate_key-IsOpaque toy_platform sound auth_config 5 (codes "k") one_key nothing_cached

validate_key_iff_example :
    ((validate_key toy_platform sound auth_config 5 (codes "k") one_key).0 ≡ ok (some cached)) ↔ (
      (r : KeyRow) × (row_of toy_platform (codes "k") one_key.db ≡ some r)
      × IsUsable 5 r
      × (to_cached toy_platform (scan_api_key r) ≡ cached))
validate_key_iff_example =
    validate_key_iff toy_platform sound auth_config 5 (codes "k") one_key cached nothing_cached refl

selected : row_of toy_platform (codes "k") one_key.db ≡ some key_row
unfolding find text_eq
selected = refl

one_key-AllWithin : AllWithin one_key.db
unfolding find count_where
one_key-AllWithin k = ground arith

visit_all-AllWithin_example :
    AllWithin (visit_all toy_platform (visit (codes "1") ∷ visit (codes "2") ∷ []) one_key).db
visit_all-AllWithin_example =
    visit_all-AllWithin toy_platform (visit (codes "1") ∷ visit (codes "2") ∷ []) one_key
      (refl, refl, (refl, refl, tt)) one_key-AllWithin

abbrev ask : Text → Ask
ask account = record {
  faults = sound_register;
  id = 9;
  now = 5;
  key = 7;
  account = account;
  max = some (pos 1);
}

differ : text_eq (codes "1") (codes "2") ≡ false
unfolding text_eq
differ = refl

none_registered : machines_of 7 one_key.db ≡ 0
unfolding count_where
none_registered = refl

unknown : (account : Text) → any (is_machine 7 account) one_key.db.key_machines ≡ false
unfolding any
unknown account = refl

race_exceeds_example :
    let a = ask (codes "1") in
    let b = ask (codes "2") in
    (interleave a b in_step (record { left = looking; right = looking; db = one_key.db }) ≡ record {
      left = finished (ok true);
      right = finished (ok true);
      db = with_row b (with_row a one_key.db);
    })
    × (machines_of 7 (with_row b (with_row a one_key.db)) ≡ 2)
race_exceeds_example =
    race_exceeds (ask (codes "1")) (ask (codes "2")) one_key.db 0 (refl, refl, refl)
      (refl, refl, refl) refl differ (unknown (codes "1")) (unknown (codes "2")) refl refl
      none_registered

known : any (is_machine 7 (codes "100")) one_machine.db.key_machines ≡ true
unfolding any text_eq
known = refl

uncached : get_machine_allowed false 5 (codes "7") (codes "100") one_machine.lru ≡ ok none
unfolding get_machine_allowed
uncached = refl

abbrev sound_admin : tradecast.Admin.Faults
sound_admin = record { read = false; write = false; read_back = false; cache = false }

-- The account has called, and the admin removes it.
removal :
    let seen =
      (check_machine_binding toy_platform sound_machines 5 9 cached (codes "100") one_machine).1 in
    (remove_machine_handler toy_platform sound_admin (codes "7") (codes "100") seen).0
    ≡ replied 200 (codes "100")
unfolding remove_machine_handler remove_machine check_machine_binding any
    tradecast.Auth.Machines.check_key tradecast.Auth.Machines.check_account get_machine_allowed
    tradecast.Auth.Machines.check_database tradecast.Store.Machines.is_machine_registered text_eq
    tradecast.Store.Machines.touch_machine_last_seen tradecast.Prelude.update_where
removal = refl

removed_still_allowed_example :
    let seen =
      (check_machine_binding toy_platform sound_machines 5 9 cached (codes "100") one_machine).1 in
    let gone = (remove_machine_handler toy_platform sound_admin (codes "7") (codes "100") seen).1 in
    (any (is_machine 7 (codes "100")) gone.db.key_machines ≡ false)
    × ((check_machine_binding toy_platform sound_machines 6 10 cached (codes "100") gone).0 ≡ none)
removed_still_allowed_example =
    removed_still_allowed toy_platform sound_machines sound_machines sound_admin 5 6 9 10 7 cached
      (codes "7") (codes "100") one_machine refl refl uncached refl refl refl known (ground arith)
      refl removal

abbrev sound_call : Faults
sound_call = record {
  failures = false;
  record_failure = false;
  key = sound;
  machine = sound_machines;
}

abbrev call : Call
call = record { ip = codes "10.0.0.1"; api_key = codes "k"; account = codes "100" }

api_key_middleware_iff_example :
    let checked = validate_key toy_platform sound auth_config 5 (codes "k") one_machine in
    ((api_key_middleware toy_platform sound_call auth_config 5 9 [] call one_machine).0
      ≡ passed cached)
    ↔ ((leb 10 (failures_or_zero (get_auth_failures false 5 (codes "10.0.0.1") one_machine.lru))
          ≡ false)
        × (is_empty (codes "k") ≡ false)
        × (checked.0 ≡ ok (some cached))
        × InScope cached []
        × ((check_machine_binding toy_platform sound_machines 5 9 cached
              (trim_space (codes "100"))
              checked.1).0
            ≡ none))
api_key_middleware_iff_example =
    api_key_middleware_iff toy_platform sound_call auth_config 5 9 [] call one_machine cached
