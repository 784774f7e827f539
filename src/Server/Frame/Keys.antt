-- ===== src/Server/Frame/Keys.antt =====
-- The handlers of API keys leave the signals and the jobs alone.
use tradecast.Prelude.{
  ℕ, ℤ, pos, if-both, option-both, refl, Bool, Option, none, some, List, Text, Json, unmarshal,
  Result, ok, err, is_empty, arith,
}
use tradecast.Types.{Uuid, Nanos}
use tradecast.Platform.{Platform}
use tradecast.World.{World}
use tradecast.Store.{Db, ApiKey, ApiKeyStatus, StoreError}
use tradecast.Store.Keys.{
  RotateFaults, create_api_key, insert_api_key, get_api_key_by_id, set_api_key_status,
  set_api_key_max_machines, rotate_api_key, finish_rotation, link_successor,
}
use tradecast.Auth.Generate.{generate_key}
use tradecast.Admin
use tradecast.Admin.{Reply, is_below, with_id, with_body}
use tradecast.Admin.Keys.{
  IssueRequest, created, issue_decoded, issue_key, change_key, updated, set_status_parsed,
  set_key_status, set_max_decoded, set_key_max_machines, key_or_none, parse_status,
}
use tradecast.Admin.Keys.Rotate.{
  rotated, rotate_found, rotate_parsed, rotate_key, rotate_after_or_default,
}
use tradecast.Server.Frame.{
  KeepsSignals, Keeps, Keeps-refl, with_db, with_id-Keeps, with_body-Keeps, Kept,
}

create_api_key-KeepsSignals :
    (column : Text → Option Text) (f g : Bool) (id : Uuid) (now : Nanos) (hash owner note : Text)
    (scopes : List Text) (max : Option ℤ) (db : Db)
    → KeepsSignals db (create_api_key column f g id now hash owner note scopes max db).1
unfolding create_api_key insert_api_key
create_api_key-KeepsSignals column f g id now hash owner note scopes max db = ground arith

rotate_api_key-KeepsSignals :
    (column : Text → Option Text) (f : RotateFaults) (new_id : Uuid) (now : Nanos) (old : Uuid)
    (hash owner note : Text) (scopes : List Text) (max : Option ℤ) (at : Nanos) (db : Db)
    → KeepsSignals db (rotate_api_key column f new_id now old hash owner note scopes max at db).1
unfolding rotate_api_key insert_api_key finish_rotation link_successor
rotate_api_key-KeepsSignals column f new_id now old hash owner note scopes max at db = ground arith

created-Keeps :
    (plaintext : Text) (w : World) (r : Result StoreError (Option ApiKey) × Db)
    → KeepsSignals w.db r.1
    → Keeps w (created plaintext w r).1
created-Keeps plaintext w (err e, db) h = with_db w db h
created-Keeps plaintext w (ok none, db) h = with_db w db h
created-Keeps plaintext w (ok (some key), db) h = with_db w db h

issue_decoded-Keeps :
    (p : Platform) (f : Admin.Faults) (now : Nanos) (id : Uuid) (bytes : Option (List ℕ))
    (req : IssueRequest) (w : World)
    → Keeps w (issue_decoded p f now id bytes req w).1
unfolding issue_decoded
issue_decoded-Keeps p f now id bytes req w = if-both (Kept w) (is_empty req.owner) (Keeps-refl w) (
    if-both (Kept w) (is_below (pos 1) req.max_machines) (Keeps-refl w) (
      option-both (Kept w) (generate_key p bytes) (Keeps-refl w)
        (λ k. created-Keeps k.0 w _ (create_api_key-KeepsSignals _ _ _ _ _ _ _ _ _ _ _))))

pub issue_key-Keeps :
    (p : Platform) (f : Admin.Faults) (now : Nanos) (id : Uuid) (bytes : Option (List ℕ))
    (body : Json IssueRequest) (w : World)
    → Keeps w (issue_key p f now id bytes body w).1
unfolding issue_key
issue_key-Keeps p f now id bytes body w =
    option-both (Kept w) (unmarshal body) (Keeps-refl w)
      (λ req. issue_decoded-Keeps p f now id bytes req w)

updated-Keeps :
    {A : Type 0} (f : Admin.Faults) (hash : Text) (a : A) (w : World)
    (r : Result StoreError Unit × Db)
    → KeepsSignals w.db r.1
    → Keeps w (updated f hash a w r).1
updated-Keeps f hash a w (err e, db) h = with_db w db h
updated-Keeps f hash a w (ok u, db) h = (h, refl, refl, refl, refl)

change_key-Keeps :
    {A : Type 0} (f : Admin.Faults) (id : Uuid) (a : A) (change : Db → Result StoreError Unit × Db)
    (w : World) (key : Option ApiKey)
    → KeepsSignals w.db (change w.db).1
    → Keeps w (change_key f id a change w key).1
change_key-Keeps f id a change w none h = Keeps-refl w
change_key-Keeps f id a change w (some key) h = updated-Keeps f key.key_hash a w (change w.db) h

set_api_key_status-KeepsSignals :
    (f : Bool) (id : Uuid) (status : ApiKeyStatus) (db : Db)
    → KeepsSignals db (set_api_key_status f id status db).1
unfolding set_api_key_status
set_api_key_status-KeepsSignals f id status db = ground arith

set_api_key_max_machines-KeepsSignals :
    (f : Bool) (id : Uuid) (max : Option ℤ) (db : Db)
    → KeepsSignals db (set_api_key_max_machines f id max db).1
unfolding set_api_key_max_machines
set_api_key_max_machines-KeepsSignals f id max db = ground arith

set_status_parsed-Keeps :
    (f : Admin.Faults) (id : Uuid) (w : World) (status : Option ApiKeyStatus)
    → Keeps w (set_status_parsed f id w status).1
unfolding set_status_parsed
set_status_parsed-Keeps f id w none = Keeps-refl w
set_status_parsed-Keeps f id w (some status) =
    change_key-Keeps f id (id, status) (set_api_key_status f.write id status) w _
      (set_api_key_status-KeepsSignals f.write id status w.db)

pub set_key_status-Keeps :
    (p : Platform) (f : Admin.Faults) (id_text : Text) (body : Json Text) (w : World)
    → Keeps w (set_key_status p f id_text body w).1
unfolding set_key_status
set_key_status-Keeps p f id_text body w = with_id-Keeps (p.parse_uuid id_text) _ w _ (λ id.
    with_body-Keeps (unmarshal body) w _
      (λ status. set_status_parsed-Keeps f id w (parse_status status)))

pub set_key_max_machines-Keeps :
    (p : Platform) (f : Admin.Faults) (id_text : Text) (body : Json (Option ℤ)) (w : World)
    → Keeps w (set_key_max_machines p f id_text body w).1
unfolding set_key_max_machines set_max_decoded
set_key_max_machines-Keeps p f id_text body w = with_id-Keeps (p.parse_uuid id_text) _ w _ (λ id.
    with_body-Keeps (unmarshal body) w _ (λ max.
      if-both (Kept w) (is_below (pos 1) max) (Keeps-refl w) (
        change_key-Keeps f id (id, max) (set_api_key_max_machines f.write id max) w _
          (set_api_key_max_machines-KeepsSignals f.write id max w.db))))

rotated-Keeps :
    (plaintext : Text) (at : Nanos) (w : World) (r : Result StoreError (Option ApiKey) × Db)
    → KeepsSignals w.db r.1
    → Keeps w (rotated plaintext at w r).1
rotated-Keeps plaintext at w (err e, db) h = with_db w db h
rotated-Keeps plaintext at w (ok none, db) h = with_db w db h
rotated-Keeps plaintext at w (ok (some key), db) h = with_db w db h

rotate_found-Keeps :
    (p : Platform) (f : RotateFaults) (now : Nanos) (new_id : Uuid) (bytes : Option (List ℕ))
    (id : Uuid) (dur : ℤ) (old : ApiKey) (w : World)
    → Keeps w (rotate_found p f now new_id bytes id dur old w).1
unfolding rotate_found
rotate_found-Keeps p f now new_id bytes id dur old w =
    option-both (Kept w) (generate_key p bytes) (Keeps-refl w) (λ k.
      rotated-Keeps k.0 _ w _ (rotate_api_key-KeepsSignals _ f new_id now id _ _ _ _ _ _ w.db))

pub rotate_key-Keeps :
    (p : Platform) (g : Bool) (f : RotateFaults) (now : Nanos) (new_id : Uuid)
    (bytes : Option (List ℕ)) (id_text : Text) (body : Json Text) (w : World)
    → Keeps w (rotate_key p g f now new_id bytes id_text body w).1
unfolding rotate_key rotate_parsed
rotate_key-Keeps p g f now new_id bytes id_text body w =
    with_id-Keeps (p.parse_uuid id_text) _ w _ (λ id.
      option-both (Kept w) (p.parse_duration (rotate_after_or_default (unmarshal body)))
        (Keeps-refl w)
        (λ dur.
          option-both (Kept w) (key_or_none (get_api_key_by_id g id w.db)) (Keeps-refl w)
            (λ old. rotate_found-Keeps p f now new_id bytes id dur old w)))
