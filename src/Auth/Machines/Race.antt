-- ===== src/Auth/Machines/Race.antt =====
-- RegisterMachine of internal/store/store.go, statement by statement, and two of its calls at once.
use tradecast.Prelude.{
  ℕ, suc, inl, inr, ◌≡◌, refl, false, true, Bool, Option, none, some, List, [], ◌∷◌, ℤ, pos, Text,
  text_eq, Result, ok, err, find, any, count_where, arith, Bool-cases, if◌then◌else◌, subst,
}
use tradecast.Types.{Uuid, Nanos}
use tradecast.Store.{Db, StoreError, KeyMachine, machine_limit, driver}
use tradecast.Store.Machines.{
  RegisterFaults, is_machine, machines_of, is_full, counted, insert_machine, touch_machine,
  registered,
}

-- What a call of RegisterMachine is asked.
pub record Ask : Type 0 where
  pub faults : RegisterFaults
  pub id : Uuid
  pub now : Nanos
  pub key : Uuid
  pub account : Text
  pub max : Option ℤ

-- The statement that the call runs next.
pub data Thread : Type 0 where
  looking counting inserting : Thread
  finished : Result StoreError Bool → Thread

abbrev pub found : Ask → Db → Option KeyMachine → Thread × Db
found a db (some m) = (finished (ok false), touch_machine a.faults.touch a.now m.id db)
found a db none = (counting, db)

abbrev pub inserted : Result StoreError Bool × Db → Thread × Db
inserted (r, db) = (finished r, db)

-- One statement of the call: the query for the row, the count, or the insert.
unfoldable pub advance : Ask → Thread × Db → Thread × Db
advance a (looking, db) =
    if a.faults.lookup
    then (finished (err driver), db)
    else found a db (find (is_machine a.key a.account) db.key_machines)
advance a (counting, db) =
    if is_full (counted a.faults.count a.key db) a.max
    then (finished (err machine_limit), db)
    else (inserting, db)
advance a (inserting, db) =
    inserted (registered (insert_machine a.faults.insert a.id a.now a.key a.account db))
advance a (finished r, db) = (finished r, db)

-- Two calls on one database.
pub record Both : Type 0 where
  pub left : Thread
  pub right : Thread
  pub db : Db

pub data Side : Type 0 where
  on_left on_right : Side

-- One call moves.
abbrev pub move : Ask → Ask → Side → Both → Both
move a b on_left s = let next = advance a (s.left, s.db) in record s { left = next.0; db = next.1 }
move a b on_right s =
    let next = advance b (s.right, s.db) in record s { right = next.0; db = next.1 }

abbrev pub interleave : Ask → Ask → List Side → Both → Both
interleave a b [] s = s
interleave a b (side ∷ sides) s = interleave a b sides (move a b side s)

find-any : {A : Type 0} (p : A → Bool) (xs : List A) → any p xs ≡ false → find p xs ≡ none
unfolding any find
find-any p [] h = refl
find-any p (x ∷ xs) h = elim (Bool-cases (p x)) [
  | inl yes_ ↦ ground (arith, yes_, h)
  | inr no_ ↦ rw no_ (find-any p xs (ground (arith, no_, h)))
]

-- None of the statements fails.
abbrev pub Sound : Ask → Type 0
Sound a = (a.faults.lookup ≡ false) × (a.faults.count ≡ false) × (a.faults.insert ≡ false)

-- The account of the call has no row.
abbrev pub IsNew : Ask → Db → Type 0
IsNew a db = any (is_machine a.key a.account) db.key_machines ≡ false

abbrev pub row_of : Ask → KeyMachine
row_of a = record {
  id = a.id;
  key_id = a.key;
  account_number = a.account;
  registered_at = a.now;
  last_seen_at = a.now;
}

abbrev pub with_row : Ask → Db → Db
with_row a db = record db { key_machines = row_of a ∷ db.key_machines }

advance-looking :
    (a : Ask) (db : Db) → Sound a → IsNew a db → advance a (looking, db) ≡ (counting, db)
unfolding advance
advance-looking a db (hl, hc, hi) new =
    rw (hl, find-any (is_machine a.key a.account) db.key_machines new) refl

advance-counting :
    (a : Ask) (db : Db) (m : ℕ)
    → Sound a
    → a.max ≡ some (pos (suc m))
    → machines_of a.key db ≡ m
    → advance a (counting, db) ≡ (inserting, db)
unfolding advance
advance-counting a db m (hl, hc, hi) limit n = rw (hc, limit, n) (ground arith)

advance-inserting :
    (a : Ask) (db : Db)
    → Sound a
    → IsNew a db
    → advance a (inserting, db) ≡ (finished (ok true), with_row a db)
unfolding advance insert_machine
advance-inserting a db (hl, hc, hi) new = rw (hi, new) refl

still-IsNew :
    (a b : Ask) (db : Db)
    → text_eq a.account b.account ≡ false
    → IsNew b db
    → IsNew b (with_row a db)
unfolding any
still-IsNew a b db other nb = ground (arith, other, nb)

two_rows :
    (a b : Ask) (db : Db) (m : ℕ)
    → a.key ≡ b.key
    → machines_of a.key db ≡ m
    → machines_of a.key (with_row b (with_row a db)) ≡ suc (suc m)
unfolding count_where
two_rows a b db m same n = ground (arith, same, n)

-- Each of the two moves in turn.
abbrev pub in_step : List Side
in_step = on_left ∷ on_right ∷ on_left ∷ on_right ∷ on_left ∷ on_right ∷ []

-- Two calls for one key, for two accounts that have no row, interleaved so that each counts before
-- the other inserts, both register their account when the key has one machine less than the limit
-- and no statement fails: the key ends with one machine more than its limit.
pub race_exceeds :
    (a b : Ask) (db : Db) (m : ℕ)
    → Sound a
    → Sound b
    → a.key ≡ b.key
    → text_eq a.account b.account ≡ false
    → IsNew a db
    → IsNew b db
    → a.max ≡ some (pos (suc m))
    → b.max ≡ some (pos (suc m))
    → machines_of a.key db ≡ m
    → (interleave a b in_step (record { left = looking; right = looking; db = db }) ≡ record {
      left = finished (ok true);
      right = finished (ok true);
      db = with_row b (with_row a db);
    })
      × (machines_of a.key (with_row b (with_row a db)) ≡ suc (suc m))
race_exceeds a b db m ha hb same other na nb la lb n = (
  rw
      (
        advance-looking a db ha na,
        advance-looking b db hb nb,
        advance-counting a db m ha la n,
        advance-counting b db m hb lb (subst (λ k. machines_of k db ≡ m) same n),
        advance-inserting a db ha na,
        advance-inserting b (with_row a db) hb (still-IsNew a b db other nb),
      )
      refl,
  two_rows a b db m same n,
)
