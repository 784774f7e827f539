-- ===== src/Store/Keys/Scopes.antt =====
-- The scopes of a key, written to the column of api_keys and read back.
use tradecast.Prelude.{
  ◌≡◌, refl, Bool, false, true, Option, none, some, List, Text, text_eq, text_eq_refl, ok, any,
  find, ◌||◌, ◌==◌, ℤ, arith, inl, inr, Bool-cases,
}
use tradecast.Types.{Uuid, Nanos}
use tradecast.Store.{KeyRow, active, Db}
use tradecast.Store.Scopes.{scopes_to_array}
use tradecast.Store.Scopes.RoundTrip.{AllScopes, parse_postgres_array-scopes_to_array}
use tradecast.Store.Keys.{scan_api_key, insert_api_key, get_api_key_by_hash}

-- Postgres gives back the array literals of plain scopes as they were written: it quotes only empty
-- elements, `null`, and elements with blanks, quotes, backslashes, braces or commas.
abbrev pub KeepsPlain : (Text → Option Text) → Type 0
KeepsPlain column =
    (ps : List Text) → AllScopes ps → column (scopes_to_array ps) ≡ some (scopes_to_array ps)

-- Where Postgres keeps the array literals of plain scopes, a key that was inserted is found by its
-- hash with the scopes that it was given, when these are not empty, not `null`, and made of letters,
-- digits and the marks `:_-.`, and with all else that it was given.
pub get_api_key_by_hash-insert_api_key :
    (column : Text → Option Text) (fault : Bool) (id : Uuid) (now : Nanos) (hash owner note : Text)
    (scopes : List Text) (max : Option ℤ) (db : Db)
    → KeepsPlain column
    → AllScopes scopes
    → (insert_api_key column fault id now hash owner note scopes max db).0 ≡ ok tt
    → get_api_key_by_hash false hash
        (insert_api_key column fault id now hash owner note scopes max db).1
      ≡ ok (
          some (record {
            id = id;
            key_hash = hash;
            owner = owner;
            scopes = scopes;
            status = active;
            max_machines = max;
            successor_key_id = none;
            rotate_at = none;
            note = note;
            created_at = now;
            last_used_at = none;
          }))
unfolding insert_api_key get_api_key_by_hash scan_api_key find
get_api_key_by_hash-insert_api_key column true id now hash owner note scopes max db kept plain h =
    absurd (ground (arith, h))
get_api_key_by_hash-insert_api_key column false id now hash owner note scopes max db kept plain h =
    let used = any (λ (r : KeyRow). r.id == id || text_eq r.key_hash hash) db.api_keys in
    let literal = kept scopes plain in
    elim (Bool-cases used) [
      | inl known ↦ absurd (ground (arith, h, literal, known))
      | inr unused ↦
          rw (literal, unused, text_eq_refl hash, parse_postgres_array-scopes_to_array scopes plain)
            refl
    ]
