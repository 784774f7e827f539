-- ===== src/Store/Scopes/Tests.antt =====
-- The round trip of scopes at a concrete input.
use tradecast.Prelude.{
  refl, any, ◌≡◌, false, none, some, [], ◌∷◌, codes, arith, ok, text_eq, to_upper,
}
use tradecast.Store.{active, empty_db}
use tradecast.Store.Scopes.RoundTrip.{AllScopes, is_word}
use tradecast.Store.Keys.{insert_api_key, get_api_key_by_hash}
use tradecast.Store.Keys.Scopes.{get_api_key_by_hash-insert_api_key}

two_scopes : AllScopes (codes "signal:read" ∷ codes "c" ∷ [])
unfolding is_word text_eq to_upper
two_scopes = ground arith

inserted :
    (insert_api_key some false 7 5
      (codes "k")
      (codes "ann")
      []
      (codes "signal:read" ∷ codes "c" ∷ [])
      none
      empty_db).0
    ≡ ok tt
unfolding insert_api_key any
inserted = refl

get_api_key_by_hash-insert_api_key_example :
    get_api_key_by_hash false
      (codes "k")
      (insert_api_key some false 7 5
        (codes "k")
        (codes "ann")
        []
        (codes "signal:read" ∷ codes "c" ∷ [])
        none
        empty_db).1
    ≡ ok (
        some (record {
          id = 7;
          key_hash = codes "k";
          owner = codes "ann";
          scopes = codes "signal:read" ∷ codes "c" ∷ [];
          status = active;
          max_machines = none;
          successor_key_id = none;
          rotate_at = none;
          note = [];
          created_at = 5;
          last_used_at = none;
        }))
get_api_key_by_hash-insert_api_key_example =
    get_api_key_by_hash-insert_api_key some false 7 5 (codes "k") (codes "ann") []
      (codes "signal:read" ∷ codes "c" ∷ []) none empty_db (λ ps plain. refl) two_scopes inserted
