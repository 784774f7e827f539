-- ===== src/Cache/Machines.antt =====
-- The machine-binding cache of internal/cache/cache.go.
use tradecast.Prelude.{
  ℕ, ◌+◌, ◌==◌, Bool, Option, none, some, List, [], ◌∷◌, Text, text_eq, Result, ok, err, Fault,
  unavailable, any, if◌then◌else◌,
}
use tradecast.Types.{Nanos}
use tradecast.Cache.{Lru, assign, live}

-- MachineCacheTTL: five minutes
abbrev pub machine_cache_ttl : Nanos
machine_cache_ttl = 300_000_000_000

-- `ok none`: not cached
unfoldable pub get_machine_allowed : Bool → Nanos → Text → Text → Lru → Result Fault (Option Bool)
get_machine_allowed fault now key account c =
    if fault then err unavailable else ok (live now (c.machines key account))

unfoldable pub set_machine_allowed : Bool → Nanos → Text → Text → Bool → Nanos → Lru → Lru
set_machine_allowed fault now key account allowed ttl c =
    let entry = some (allowed, now + ttl) in
    if fault
    then c
    else record c { machines = assign key (assign account entry (c.machines key)) c.machines }

-- DEL of the entries of one key
forget : Text → List Text → Lru → Lru
unfolding any
forget key accounts c = record c {
  machines =
      assign key (λ a. if any (λ b. text_eq b a) accounts then none else c.machines key a)
        c.machines;
}

-- What one SCAN answers: the accounts of some keys that match the pattern, and the next cursor.
pub record Page : Type 0 where
  pub accounts : List Text
  pub next : ℕ

-- The SCAN loop, over the answers that Redis gives. The loop ends at cursor 0 or at an error; the
-- answers after that are not read.
unfoldable pub invalidate_machine_cache :
    List (Result Fault Page) → Text → Lru → Result Fault Unit × Lru
unfolding forget
invalidate_machine_cache [] key c = (ok tt, c)
invalidate_machine_cache (err e ∷ answers) key c = (err e, c)
invalidate_machine_cache (ok page ∷ answers) key c =
    let c' = forget key page.accounts c in
    let rest = invalidate_machine_cache answers key c' in
    if page.next == 0 then (ok tt, c') else rest
