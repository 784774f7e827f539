-- ===== src/Admin/Keys/Rotation.antt =====
-- The old and the new key after RotateAPIKey of internal/store/store.go, as ValidateKey sees them.
use tradecast.Prelude.{
  ◌≡◌, refl, ap, sym, subst, ◌∙◌, inl, inr, true, false, Bool, none, some, List, [], ◌∷◌, Text,
  text_eq, text_eq_refl, ltb, Result, ok, err, find, any, ◌||◌, ◌==◌, ==_iff, text_eq_iff,
  update_where, find-update_where, arith, Bool-cases, Option-cases, Option, if◌then◌else◌, ℤ,
}
use tradecast.Types.{Uuid, Nanos}
use tradecast.Config.{AuthConfig}
use tradecast.Platform.{Platform}
use tradecast.World.{World}
use tradecast.Store.{KeyRow, ApiKey, active, Db, StoreError}
use tradecast.Store.Scopes.{scopes_to_array}
use tradecast.Store.Keys.{
  RotateFaults, scan_api_key, get_api_key_by_id, insert_api_key, link_successor, finish_rotation,
  rotate_api_key,
}
use tradecast.Auth.Keys.{Faults, to_cached, validate_key}
use tradecast.Auth.Keys.Validity.{IsOpaque, row_of, validate_key-found, accept_key-active}

-- A row that a query found is not one of those that a test refuses throughout the table.
find-any :
    {A : Type 0} (p q : A → Bool) (xs : List A) (x : A)
    → find p xs ≡ some x
    → any q xs ≡ false
    → (q x ≡ false) × (p x ≡ true)
unfolding find any
find-any p q [] x h n = absurd (ground (arith, h))
find-any p q (y ∷ ys) x h n = elim (Bool-cases (p y)) [
  | inl hit ↦
      let same : y ≡ x = ground (arith, h, hit) in
      (subst (λ z. q z ≡ false) same (ground (arith, n)), subst (λ z. p z ≡ true) same hit)
  | inr miss ↦ find-any p q ys x (ground (arith, h, miss)) (ground (arith, n))
]

abbrev new_row : Uuid → Nanos → Text → Text → Text → Text → Option ℤ → KeyRow
new_row id now hash owner note kept max = record {
  id = id;
  key_hash = hash;
  owner = owner;
  scopes = kept;
  status = active;
  max_machines = max;
  successor_key_id = none;
  rotate_at = none;
  note = note;
  created_at = now;
  last_used_at = none;
}

-- No row has the identifier or the hash.
abbrev IsUnused : Uuid → Text → Db → Type 0
IsUnused id hash db =
    any (λ (r : KeyRow). r.id == id || text_eq r.key_hash hash) db.api_keys ≡ false

insert-ok :
    (column : Text → Option Text) (fault : Bool) (id : Uuid) (now : Nanos) (hash owner note : Text)
    (scopes : List Text) (max : Option ℤ) (db : Db)
    → (insert_api_key column fault id now hash owner note scopes max db).0 ≡ ok tt
    → (kept : Text) × IsUnused id hash db
      × ((insert_api_key column fault id now hash owner note scopes max db).1
          ≡ record db { api_keys = new_row id now hash owner note kept max ∷ db.api_keys })
unfolding insert_api_key
insert-ok column true id now hash owner note scopes max db h = absurd (ground (arith, h))
insert-ok column false id now hash owner note scopes max db h =
    let used = any (λ (r : KeyRow). r.id == id || text_eq r.key_hash hash) db.api_keys in
    elim (Option-cases (column (scopes_to_array scopes))) [
      | inl refused ↦ absurd (ground (arith, h, refused))
      | inr (kept, e) ↦ elim (Bool-cases used) [
        | inl known ↦ absurd (ground (arith, h, e, known))
        | inr unused ↦ (kept, unused, rw (e, unused) refl)
      ]
    ]

finish-ok :
    (f : RotateFaults) (new_id old_id : Uuid) (rotate_at : Nanos) (db : Db)
    (r : Result StoreError Unit × Db) (k : ApiKey)
    → (finish_rotation f new_id old_id rotate_at db r).0 ≡ ok (some k)
    → (r.0 ≡ ok tt)
      × ((finish_rotation f new_id old_id rotate_at db r).1
          ≡ link_successor new_id rotate_at old_id r.1)
      × (get_api_key_by_id f.get new_id (link_successor new_id rotate_at old_id r.1) ≡ ok (some k))
unfolding finish_rotation
finish-ok f new_id old_id rotate_at db (err e, db') k h = absurd (ground (arith, h))
finish-ok f new_id old_id rotate_at db (ok u, db') k h = elim (Bool-cases (f.link || f.commit)) [
  | inl down ↦ absurd (ground (arith, h, down))
  | inr up ↦ (refl, rw up refl, (rw up at h))
]

module _ (p : Platform) (f : RotateFaults) (new_id : Uuid) (now : Nanos) (owner note : Text)
    (scopes : List Text) (max : Option ℤ) (rotate_at : Nanos) (old new : Text) (w : World)
    (r : KeyRow) where
  -- the rotation of the key `r` to a key with the plaintext `new`
  abbrev pub rotation : Result StoreError (Option ApiKey) × Db
  rotation =
      rotate_api_key p.text_array f new_id now r.id (p.sha256_hex new) owner note scopes max
        rotate_at w.db

  abbrev successor : Text → KeyRow
  successor kept = new_row new_id now (p.sha256_hex new) owner note kept max

  abbrev linked : KeyRow
  linked = record r { successor_key_id = some new_id; rotate_at = some rotate_at }

  abbrev grown : Text → Db
  grown kept = record w.db { api_keys = successor kept ∷ w.db.api_keys }

  abbrev inserted : Result StoreError Unit × Db
  inserted =
      insert_api_key p.text_array f.insert new_id now (p.sha256_hex new) owner note scopes max w.db

  rotation-begun :
      f.begin ≡ false → rotation ≡ finish_rotation f new_id r.id rotate_at w.db inserted
  unfolding rotate_api_key
  rotation-begun up = rw up refl

  rotate-ok :
      (k : ApiKey)
      → rotation.0 ≡ ok (some k)
      → (kept : Text) × IsUnused new_id (p.sha256_hex new) w.db
        × (rotation.1 ≡ link_successor new_id rotate_at r.id (grown kept))
        × (get_api_key_by_id f.get new_id (link_successor new_id rotate_at r.id (grown kept))
            ≡ ok (some k))
  unfolding rotate_api_key
  rotate-ok k h = elim (Bool-cases f.begin) [
    | inl down ↦ absurd (ground (arith, h, down))
    | inr up ↦
        let begun = rotation-begun up in
        let (done, link, get) =
          finish-ok f new_id r.id rotate_at w.db inserted k (ap (λ s. s.0) (sym begun) ∙ h) in
        let (kept, unused, insert) =
          insert-ok p.text_array f.insert new_id now (p.sha256_hex new) owner note scopes max w.db
            done in
        (
          kept,
          unused,
          ap (λ s. s.1) begun ∙ link ∙ ap (link_successor new_id rotate_at r.id) insert,
          ap (λ db. get_api_key_by_id f.get new_id (link_successor new_id rotate_at r.id db))
                (sym insert)
              ∙ get,
        )
  ]

  module _ (kept : Text) (found : row_of p old w.db ≡ some r)
      (unused : IsUnused new_id (p.sha256_hex new) w.db) where
    old-row :
        ((r.id == new_id) ≡ false)
        × (text_eq r.key_hash (p.sha256_hex new) ≡ false)
        × (text_eq r.key_hash (p.sha256_hex old) ≡ true)
    old-row =
        let (other, hit) =
          find-any (λ (x : KeyRow). text_eq x.key_hash (p.sha256_hex old))
            (λ (x : KeyRow). x.id == new_id || text_eq x.key_hash (p.sha256_hex new)) w.db.api_keys
            r found unused in
        (ground (arith, other), ground (arith, other), hit)

    hashes-differ : text_eq (p.sha256_hex new) (p.sha256_hex old) ≡ false
    hashes-differ =
        let (_, other, hit) = old-row in
        ground (
          arith,
          other,
          hit,
          text_eq_iff (p.sha256_hex new) (p.sha256_hex old),
          text_eq_iff r.key_hash (p.sha256_hex old),
          text_eq_iff r.key_hash (p.sha256_hex new),
        )

    row_of-old : row_of p old (link_successor new_id rotate_at r.id (grown kept)) ≡ some linked
    unfolding link_successor find
    row_of-old =
        find-update_where (λ x. text_eq x.key_hash (p.sha256_hex old)) (λ x. x.id == r.id)
          (λ x. record x { successor_key_id = some new_id; rotate_at = some rotate_at })
          (successor kept ∷ w.db.api_keys) (λ x. refl)
        ∙ rw (hashes-differ, found, (==_iff r.id r.id).1 refl) refl

    row_of-new :
        row_of p new (link_successor new_id rotate_at r.id (grown kept)) ≡ some (successor kept)
    unfolding link_successor find
    row_of-new =
        find-update_where (λ x. text_eq x.key_hash (p.sha256_hex new)) (λ x. x.id == r.id)
          (λ x. record x { successor_key_id = some new_id; rotate_at = some rotate_at })
          (successor kept ∷ w.db.api_keys) (λ x. refl)
        ∙ rw (text_eq_refl (p.sha256_hex new)) (let other = old-row.0 in ground (arith, other))

    got-successor :
        (k : ApiKey)
        → get_api_key_by_id f.get new_id (link_successor new_id rotate_at r.id (grown kept))
          ≡ ok (some k)
        → scan_api_key (successor kept) ≡ k
    unfolding get_api_key_by_id link_successor find update_where
    got-successor k h = let other = old-row.0 in ground (arith, h, other)

  module _ (g : Faults) (cfg : AuthConfig) (later : Nanos) where
    -- If RotateAPIKey answers with a key for the row of an active old key, then afterwards, as long
    -- as nothing else changes the tables, the query of ValidateKey does not fail and no cached key
    -- decodes: the old plaintext is valid, with the old owner and scopes, up to and at the time of
    -- the rotation, and refused after it; the new plaintext is valid at every time, as the new key.
    pub rotate_api_key-overlaps :
        (k : ApiKey)
        → rotation.0 ≡ ok (some k)
        → row_of p old w.db ≡ some r
        → r.status ≡ active
        → IsOpaque w.lru
        → g.db_get ≡ false
        → let after = record w { db = rotation.1 } in
          ((validate_key p g cfg later old after).0
            ≡ ok (if ltb rotate_at later then none else some (to_cached p (scan_api_key r))))
          × ((validate_key p g cfg later new after).0 ≡ ok (some (to_cached p k)))
    unfolding scan_api_key
    rotate_api_key-overlaps k h found live opaque up =
        let (kept, unused, link, get) = rotate-ok k h in
        let seen =
          λ (plaintext : Text) (x : KeyRow)
              (e : row_of p plaintext (link_successor new_id rotate_at r.id (grown kept)) ≡ some x)
              (alive : x.status ≡ active).
            validate_key-found p g cfg later plaintext
              (record w { db = link_successor new_id rotate_at r.id (grown kept) }) x opaque up e
            ∙ ap ok
                (accept_key-active p g cfg later plaintext (p.sha256_hex plaintext) x _ alive) in
        rw link (
          seen old linked (row_of-old kept found unused) live,
          seen new (successor kept) (row_of-new kept found unused) refl
              ∙ ap (λ (x : ApiKey). ok (some (to_cached p x)))
                  (got-successor kept found unused k get),
        )
