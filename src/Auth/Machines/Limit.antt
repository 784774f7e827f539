-- ===== src/Auth/Machines/Limit.antt =====
-- The machine limit of a key, as long as the requests come one after the other.
use tradecast.Prelude.{
  ℕ, suc, ◌≡◌, ◌⊎◌, inl, inr, refl, false, true, Bool, Option, none, some, List, [], ◌∷◌, ℤ, pos,
  ◌≤ℤ◌, Text, Result, ok, err, ◌==◌, any, count_where, arith, Bool-cases, count_where-update_where,
  is_empty, subst, ==_iff, if-both, option-both,
}
use tradecast.Types.{Uuid, Nanos, CachedKey}
use tradecast.Platform.{Platform}
use tradecast.World.{World}
use tradecast.Store.{Db, StoreError, KeyMachine, machine_limit, driver, unique_violation, not_found}
use tradecast.Store.Machines.{
  RegisterFaults, of_key, is_machine, machines_of, limit_of, is_full, register_machine,
  register_found, insert_machine, touch_machine, touch_machine_last_seen, get_max_machines,
  registered,
}
use tradecast.Auth.Machines.{
  Faults, BindingError, after_register, check_database, check_account, check_key,
  check_machine_binding,
}

-- `n` machines are not more than the limit allows.
abbrev pub Fits : Option ℤ → ℕ → Type 0
Fits none n = Unit
Fits (some m) n = pos n ≤ℤ m

-- No key has more machines than its limit.
abbrev pub AllWithin : Db → Type 0
AllWithin db = (k : Uuid) → Fits (limit_of k db) (machines_of k db)

-- `db'` has the keys of `db`, and at most one machine more, under a key that was not full.
record Grows (db db' : Db) : Type 0 where
  keys : db'.api_keys ≡ db.api_keys
  machines :
      (k : Uuid)
      → (machines_of k db' ≡ machines_of k db)
        ⊎ ((machines_of k db' ≡ suc (machines_of k db))
            × (is_full (machines_of k db) (limit_of k db) ≡ false))

Grows-refl : (db : Db) → Grows db db
Grows-refl db = record { keys = refl; machines = λ k. inl refl }

Fits-suc : (n : ℕ) (m : Option ℤ) → is_full n m ≡ false → Fits m (suc n)
Fits-suc n none h = tt
Fits-suc n (some m) h = ground (arith, h)

Grows-AllWithin : (db db' : Db) → Grows db db' → AllWithin db → AllWithin db'
Grows-AllWithin db db' g h k = rw g.keys (elim (g.machines k) [
  | inl same ↦ rw same (h k)
  | inr (more, room) ↦ rw more (Fits-suc (machines_of k db) (limit_of k db) room)
])

Grows-touch :
    (fault : Bool) (now : Nanos) (key : Uuid) (account : Text) (db : Db)
    → Grows db (touch_machine_last_seen fault now key account db)
unfolding touch_machine_last_seen
Grows-touch true now key account db = Grows-refl db
Grows-touch false now key account db = record {
  keys = refl;
  machines = λ k. inl (count_where-update_where (of_key k) _ _ db.key_machines (λ m. refl));
}

Grows-touch_machine :
    (fault : Bool) (now : Nanos) (id : Uuid) (db : Db) → Grows db (touch_machine fault now id db)
unfolding touch_machine
Grows-touch_machine true now id db = Grows-refl db
Grows-touch_machine false now id db = record {
  keys = refl;
  machines = λ k. inl (count_where-update_where (of_key k) _ _ db.key_machines (λ m. refl));
}

-- A new row of `key` counts for `key` alone.
counts_row :
    (row : KeyMachine) (ms : List KeyMachine) (limit : Uuid → Option ℤ)
    → is_full (count_where (of_key row.key_id) ms) (limit row.key_id) ≡ false
    → (k : Uuid)
    → (count_where (of_key k) (row ∷ ms) ≡ count_where (of_key k) ms)
      ⊎ ((count_where (of_key k) (row ∷ ms) ≡ suc (count_where (of_key k) ms))
          × (is_full (count_where (of_key k) ms) (limit k) ≡ false))
unfolding count_where
counts_row row ms limit room k = elim (Bool-cases (row.key_id == k)) [
  | inl same ↦ inr (
    ground (arith, same),
    subst (λ i. is_full (count_where (of_key i) ms) (limit i) ≡ false)
        ((==_iff row.key_id k).0 same) room,
  )
  | inr other ↦ inl (ground (arith, other))
]

Grows-insert :
    (fault : Bool) (id : Uuid) (now : Nanos) (key : Uuid) (account : Text) (db : Db)
    → is_full (machines_of key db) (limit_of key db) ≡ false
    → Grows db (registered (insert_machine fault id now key account db)).1
unfolding insert_machine
Grows-insert true id now key account db room = Grows-refl db
Grows-insert false id now key account db room =
    if-both (λ r. Grows db (registered r).1) (any (is_machine key account) db.key_machines)
      (Grows-refl db)
      (record { keys = refl; machines = counts_row _ db.key_machines (λ k. limit_of k db) room })

Grows-register_found :
    (f : RegisterFaults) (id : Uuid) (now : Nanos) (key : Uuid) (account : Text) (db : Db)
    (found : Option KeyMachine)
    → f.count ≡ false
    → Grows db (register_found f id now key account (limit_of key db) db found).1
unfolding register_found
Grows-register_found f id now key account db (some m) h = Grows-touch_machine f.touch now m.id db
Grows-register_found f id now key account db none h =
    rw h (elim (Bool-cases (is_full (machines_of key db) (limit_of key db))) [
      | inl full ↦ rw full (Grows-refl db)
      | inr room ↦ rw room (Grows-insert f.insert id now key account db room)
    ])

Grows-register_machine :
    (f : RegisterFaults) (id : Uuid) (now : Nanos) (key : Uuid) (account : Text) (db : Db)
    → f.count ≡ false
    → Grows db (register_machine f id now key account (limit_of key db) db).1
unfolding register_machine
Grows-register_machine f id now key account db h =
    if-both (λ (r : Result StoreError Bool × Db). Grows db r.1) f.lookup (Grows-refl db)
      (Grows-register_found f id now key account db _ h)

Grows-after_register :
    (f : Faults) (now : Nanos) (key_text account : Text) (w : World)
    (r : Result StoreError Bool × Db)
    → Grows w.db r.1
    → Grows w.db (after_register f now key_text account w r).1.db
unfolding after_register
Grows-after_register f now key_text account w (ok b, db) g = g
Grows-after_register f now key_text account w (err machine_limit, db) g = g
Grows-after_register f now key_text account w (err driver, db) g = g
Grows-after_register f now key_text account w (err unique_violation, db) g = g
Grows-after_register f now key_text account w (err not_found, db) g = g

get_max_machines_lem :
    (fault : Bool) (key : Uuid) (db : Db)
    → fault ≡ false
    → get_max_machines fault key db ≡ ok (limit_of key db)
unfolding get_max_machines
get_max_machines_lem fault key db h = rw h refl

Grows-check_database :
    (f : Faults) (now : Nanos) (id key : Uuid) (key_text account : Text) (w : World)
    (r : Result StoreError Bool)
    → f.max ≡ false
    → f.register.count ≡ false
    → Grows w.db (check_database f now id key key_text account w r).1.db
unfolding check_database
Grows-check_database f now id key key_text account w (err e) hm hc = Grows-refl w.db
Grows-check_database f now id key key_text account w (ok true) hm hc =
    Grows-touch f.touch now key account w.db
Grows-check_database f now id key key_text account w (ok false) hm hc =
    rw (get_max_machines_lem f.max key w.db hm) (
      Grows-after_register f now key_text account w _
        (Grows-register_machine f.register id now key account w.db hc))

Grows-check_account :
    (f : Faults) (now : Nanos) (id key : Uuid) (key_text account : Text) (w : World)
    (o : Option Bool)
    → f.max ≡ false
    → f.register.count ≡ false
    → Grows w.db (check_account f now id key key_text account w o).1.db
unfolding check_account
Grows-check_account f now id key key_text account w (some true) hm hc =
    Grows-touch f.touch now key account w.db
Grows-check_account f now id key key_text account w (some false) hm hc = Grows-refl w.db
Grows-check_account f now id key key_text account w none hm hc =
    Grows-check_database f now id key key_text account w _ hm hc

Grows-check_machine_binding :
    (p : Platform) (f : Faults) (now : Nanos) (id : Uuid) (ck : CachedKey) (account : Text)
    (w : World)
    → f.max ≡ false
    → f.register.count ≡ false
    → Grows w.db (check_machine_binding p f now id ck account w).1.db
unfolding check_machine_binding check_key
Grows-check_machine_binding p f now id ck account w hm hc =
    option-both (λ (r : Option BindingError × World). Grows w.db r.1.db) (p.parse_uuid ck.id)
      (Grows-refl w.db)
      (λ key.
        if-both (λ (r : Option BindingError × World). Grows w.db r.1.db) (is_empty account)
          (Grows-refl w.db) (Grows-check_account f now id key ck.id account w _ hm hc))

-- One request of a run: the faults that it meets, its clock, the identifier of a new row, the key
-- and the account.
pub record Visit : Type 0 where
  pub faults : Faults
  pub now : Nanos
  pub id : Uuid
  pub key : CachedKey
  pub account : Text

-- The world after requests that come one after the other.
abbrev pub visit_all : Platform → List Visit → World → World
visit_all p [] w = w
visit_all p (v ∷ vs) w =
    visit_all p vs (check_machine_binding p v.faults v.now v.id v.key v.account w).1

-- Neither the read of the limit nor the count fails.
abbrev pub Counts : List Visit → Type 0
Counts [] = Unit
Counts (v ∷ vs) = (v.faults.max ≡ false) × (v.faults.register.count ≡ false) × Counts vs

-- Requests that run one after the other, whatever other statements fail, never take a key beyond
-- its limit of machines, if no key was beyond it before and both the read of the limit and the
-- count of the machines succeed each time.
pub visit_all-AllWithin :
    (p : Platform) (vs : List Visit) (w : World)
    → Counts vs
    → AllWithin w.db
    → AllWithin (visit_all p vs w).db
visit_all-AllWithin p [] w h within = within
visit_all-AllWithin p (v ∷ vs) w (hm, hc, h) within = visit_all-AllWithin p vs _ h (
    Grows-AllWithin w.db _
      (Grows-check_machine_binding p v.faults v.now v.id v.key v.account w hm hc) within)
