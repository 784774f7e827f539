-- ===== src/Cache/Tests.antt =====
-- The names of the keys at concrete inputs.
use tradecast.Prelude.{◌≡◌, ◌↔◌, refl, codes, pos, negsuc, format_int, arith}
use tradecast.Prelude.Decimal.{digits}
use tradecast.Cache.Names.{dedup, queue, critical_name, machine, api_key, lru_name}
use tradecast.Cache.Names.Distinct.{names_iff}

negative : critical_name (dedup (negsuc 11) (codes "OPEN")) ≡ codes "dedup:-12:OPEN"
unfolding critical_name format_int digits
negative = refl

names_iff_example :
    ((critical_name (dedup (pos 12) (codes "OPEN")) ≡ critical_name (queue (codes "EURUSD")))
      ↔ (dedup (pos 12) (codes "OPEN") ≡ queue (codes "EURUSD")))
    × ((lru_name (machine (codes "7") (codes "1:2")) ≡ lru_name (api_key (codes "7")))
        ↔ (machine (codes "7") (codes "1:2") ≡ api_key (codes "7")))
names_iff_example =
    names_iff (dedup (pos 12) (codes "OPEN")) (queue (codes "EURUSD"))
      (machine (codes "7") (codes "1:2")) (api_key (codes "7")) (omega arith) tt
      ((λ e. omega (arith, e)), tt) tt
