-- ===== src/Auth/Machines/Removal.antt =====
-- An account that the admin removes, while the machine cache still allows it.
use tradecast.Prelude.{
  inl, inr, ltb, ◌+◌, ◌≡◌, refl, true, false, Bool, none, some, List, [], ◌∷◌, Text, text_eq_refl,
  is_empty, ok, any, delete_where, arith, Bool-cases,
}
use tradecast.Types.{Uuid, Nanos, CachedKey}
use tradecast.Platform.{Platform}
use tradecast.World.{World}
use tradecast.Cache.Machines.{machine_cache_ttl, get_machine_allowed, set_machine_allowed}
use tradecast.Store.Machines.{is_machine, is_machine_registered, remove_machine}
use tradecast.Admin.{replied}
use tradecast.Admin
use tradecast.Admin.Machines.{remove_machine_handler}
use tradecast.Auth.Machines.{
  Faults, check_database, check_account, check_key, check_machine_binding,
}

any-delete_where : {A : Type 0} (p : A → Bool) (xs : List A) → any p (delete_where p xs) ≡ false
unfolding any delete_where
any-delete_where p [] = refl
any-delete_where p (x ∷ xs) = elim (Bool-cases (p x)) [
  | inl hit ↦ rw hit (any-delete_where p xs)
  | inr miss ↦ rw miss (ground (arith, miss, any-delete_where p xs))
]

-- A removal that is answered with 200 leaves no row of the account, and the cache as it was.
removed-gone :
    (p : Platform) (h : Admin.Faults) (id_text account : Text) (key : Uuid) (w : World)
    → p.parse_uuid id_text ≡ some key
    → (remove_machine_handler p h id_text account w).0 ≡ replied 200 account
    → let gone = (remove_machine_handler p h id_text account w).1 in
      (any (is_machine key account) gone.db.key_machines ≡ false) × (gone.lru ≡ w.lru)
unfolding remove_machine_handler remove_machine
removed-gone p h id_text account key w hp answered =
    ground (arith, hp, answered, any-delete_where (is_machine key account) w.db.key_machines)

get-set_machine_allowed :
    (now later : Nanos) (key account : Text) (lru : tradecast.Cache.Lru)
    → ltb later (now + machine_cache_ttl) ≡ true
    → get_machine_allowed false later key account
        (set_machine_allowed false now key account true machine_cache_ttl lru)
      ≡ ok (some true)
unfolding get_machine_allowed set_machine_allowed
get-set_machine_allowed now later key account lru h =
    rw (text_eq_refl key, text_eq_refl account, h) refl

-- A request for an account that is cached as allowed passes, whatever the database holds.
check_machine_binding-cached :
    (p : Platform) (f : Faults) (now : Nanos) (id key : Uuid) (ck : CachedKey) (account : Text)
    (w : World)
    → p.parse_uuid ck.id ≡ some key
    → is_empty account ≡ false
    → get_machine_allowed f.cache_get now ck.id account w.lru ≡ ok (some true)
    → (check_machine_binding p f now id ck account w).0 ≡ none
unfolding check_machine_binding check_key check_account
check_machine_binding-cached p f now id key ck account w hp ha hc = ground (arith, hp, ha, hc)

-- the cache after a request of a registered account that the cache did not know
check_machine_binding-lru :
    (p : Platform) (f : Faults) (now : Nanos) (id key : Uuid) (ck : CachedKey) (account : Text)
    (w : World)
    → p.parse_uuid ck.id ≡ some key
    → is_empty account ≡ false
    → get_machine_allowed f.cache_get now ck.id account w.lru ≡ ok none
    → f.registered ≡ false
    → any (is_machine key account) w.db.key_machines ≡ true
    → (check_machine_binding p f now id ck account w).1.lru
      ≡ set_machine_allowed f.cache_set now ck.id account true machine_cache_ttl w.lru
unfolding check_machine_binding check_key check_account check_database is_machine_registered
check_machine_binding-lru p f now id key ck account w hp ha hc hr hm =
    ground (arith, hp, ha, hc, hr, hm)

-- An account that was registered when it called at `now`, with nothing cached and no failure of the
-- cache or of the query, is then removed by the admin's request, which is answered with 200 and
-- leaves no row of the account. The account still passes at every time before `now` plus five
-- minutes: the handler does not reach the cache, so the limit and the row are not looked at.
pub removed_still_allowed :
    (p : Platform) (f g : Faults) (h : Admin.Faults) (now later : Nanos) (id id' key : Uuid)
    (ck : CachedKey) (id_text account : Text) (w : World)
    → p.parse_uuid ck.id ≡ some key
    → is_empty account ≡ false
    → get_machine_allowed f.cache_get now ck.id account w.lru ≡ ok none
    → f.registered ≡ false
    → f.cache_set ≡ false
    → g.cache_get ≡ false
    → any (is_machine key account) w.db.key_machines ≡ true
    → ltb later (now + machine_cache_ttl) ≡ true
    → p.parse_uuid id_text ≡ some key
    → let seen = (check_machine_binding p f now id ck account w).1 in
      (remove_machine_handler p h id_text account seen).0 ≡ replied 200 account
      → let seen = (check_machine_binding p f now id ck account w).1 in
        let gone = (remove_machine_handler p h id_text account seen).1 in
        (any (is_machine key account) gone.db.key_machines ≡ false)
        × ((check_machine_binding p g later id' ck account gone).0 ≡ none)
removed_still_allowed p f g h now later id id' key ck id_text account w hp ha hc hr hs hg hm hl hid
      answered =
    let seen = (check_machine_binding p f now id ck account w).1 in
    let (gone, lru) = removed-gone p h id_text account key seen hid answered in
    (
      gone,
      check_machine_binding-cached p g later id' key ck account _ hp ha (
          rw (hg, lru, check_machine_binding-lru p f now id key ck account w hp ha hc hr hm, hs)
            (get-set_machine_allowed now later ck.id account w.lru hl)),
    )
