-- ===== src/Cache/Names/Distinct.antt =====
-- No two entries of a Redis server of internal/cache/cache.go have the same name, so that a map for
-- each kind of key is what the server holds.
use mathlib.Core.List.{append_cancel_right}
use tradecast.Prelude.{
  ℕ, ◌≡◌, ◌↔◌, refl, ap, ap₂, [], ◌∷◌, ◌++◌, Text, codes, format_int, Lacks, IsInt64,
  format_int_inj, Lacks-format_int, arith,
}
use tradecast.Cache.Names.{
  CriticalKey, latest, queue, processing, dedup, dead_letter, symbol_list, critical_name, LruKey,
  api_key, auth_failures, blocked_jwt, machine, lru_name,
}

-- Two texts that end at the first such byte.
split_inj :
    (b : ℕ) (s s' t t' : Text)
    → Lacks b s
    → Lacks b s'
    → s ++ b ∷ t ≡ s' ++ b ∷ t'
    → (s ≡ s') × (t ≡ t')
split_inj b [] [] t t' h k e = (refl, ground (arith, e))
split_inj b [] (c ∷ s') t t' h k e = absurd (k.0 (ground (arith, e)))
split_inj b (c ∷ s) [] t t' h k e = absurd (h.0 (ground (arith, e)))
split_inj b (c ∷ s) (c' ∷ s') t t' h k e =
    let rest = split_inj b s s' t t' h.1 k.1 (ground (arith, e)) in
    let head : c ≡ c' = ground (arith, e) in (ap₂ (λ x y. x ∷ y) head rest.0, rest.1)

-- the tickets of an entry are of 64 bits
abbrev pub IsCritical : CriticalKey → Type 0
IsCritical (dedup ticket kind) = IsInt64 ticket
IsCritical (latest s) = Unit
IsCritical (queue s) = Unit
IsCritical (processing s) = Unit
IsCritical dead_letter = Unit
IsCritical symbol_list = Unit

critical_name_inj :
    (k k' : CriticalKey)
    → IsCritical k
    → IsCritical k'
    → critical_name k ≡ critical_name k'
    → k ≡ k'
unfolding critical_name
critical_name_inj (latest s) (latest s') h h' e =
    let ends : s ++ codes ":latest" ≡ s' ++ codes ":latest" = ground (arith, e) in
    ap latest (append_cancel_right s s' (codes ":latest") ends)
critical_name_inj (latest s) (queue s') h h' e = absurd (ground (arith, e))
critical_name_inj (latest s) (processing s') h h' e = absurd (ground (arith, e))
critical_name_inj (latest s) (dedup t' s') h h' e = absurd (ground (arith, e))
critical_name_inj (latest s) dead_letter h h' e = absurd (ground (arith, e))
critical_name_inj (latest s) symbol_list h h' e = absurd (ground (arith, e))
critical_name_inj (queue s) k' h h' e = ground (arith, e)
critical_name_inj (processing s) k' h h' e = ground (arith, e)
critical_name_inj (dedup t s) (dedup t' s') h h' e =
    let ends : format_int t ++ b':' ∷ s ≡ format_int t' ++ b':' ∷ s' = ground (arith, e) in
    let (same, kind) =
      split_inj b':' (format_int t) (format_int t') s s' (Lacks-format_int t) (Lacks-format_int t')
        ends in
    ap₂ dedup (format_int_inj t t' h h' same) kind
critical_name_inj (dedup t s) (latest s') h h' e = absurd (ground (arith, e))
critical_name_inj (dedup t s) (queue s') h h' e = absurd (ground (arith, e))
critical_name_inj (dedup t s) (processing s') h h' e = absurd (ground (arith, e))
critical_name_inj (dedup t s) dead_letter h h' e = absurd (ground (arith, e))
critical_name_inj (dedup t s) symbol_list h h' e = absurd (ground (arith, e))
critical_name_inj dead_letter k' h h' e = ground (arith, e)
critical_name_inj symbol_list k' h h' e = ground (arith, e)

-- the identifier of a key has no colon; that of a UUID has none
abbrev pub IsLru : LruKey → Type 0
IsLru (machine key account) = Lacks b':' key
IsLru (api_key s) = Unit
IsLru (auth_failures s) = Unit
IsLru (blocked_jwt s) = Unit

lru_name_inj : (k k' : LruKey) → IsLru k → IsLru k' → lru_name k ≡ lru_name k' → k ≡ k'
unfolding lru_name
lru_name_inj (api_key s) k' h h' e = ground (arith, e)
lru_name_inj (auth_failures s) k' h h' e = ground (arith, e)
lru_name_inj (blocked_jwt s) k' h h' e = ground (arith, e)
lru_name_inj (machine key account) (machine key' account') h h' e =
    let ends : key ++ b':' ∷ account ≡ key' ++ b':' ∷ account' = ground (arith, e) in
    let (same, rest) = split_inj b':' key key' account account' h h' ends in ap₂ machine same rest
lru_name_inj (machine key account) (api_key s) h h' e = absurd (ground (arith, e))
lru_name_inj (machine key account) (auth_failures s) h h' e = absurd (ground (arith, e))
lru_name_inj (machine key account) (blocked_jwt s) h h' e = absurd (ground (arith, e))

-- Two entries of the critical server, with tickets of 64 bits and any symbols and types, have the
-- same name exactly if they are the same entry; and so have two entries of the other server, with key
-- identifiers that have no colon in them and any hashes, addresses and accounts.
pub names_iff :
    (k k' : CriticalKey) (l l' : LruKey)
    → IsCritical k
    → IsCritical k'
    → IsLru l
    → IsLru l'
    → ((critical_name k ≡ critical_name k') ↔ (k ≡ k')) × ((lru_name l ≡ lru_name l') ↔ (l ≡ l'))
names_iff k k' l l' h h' i i' =
    ((critical_name_inj k k' h h', ap critical_name), (lru_name_inj l l' i i', ap lru_name))
