-- ===== src/World/Frame.antt =====
-- What most operations leave alone: the signals and the jobs.
use tradecast.Prelude.{◌≡◌, refl, ◌∙◌}
use tradecast.World.{World}
use tradecast.Store.{Db}

-- The table of signals.
abbrev pub KeepsSignals : Db → Db → Type 0
KeepsSignals db db' = db'.signals ≡ db.signals

-- the same of the database in a result
abbrev pub Saved : {A : Type 0} → Db → A × Db → Type 0
Saved db r = KeepsSignals db r.1

-- The signals, the queues, the lists of jobs in work, the dead letters and the latest signals.
abbrev pub Keeps : World → World → Type 0
Keeps w w' =
    (w'.db.signals ≡ w.db.signals)
    × (w'.critical.queue ≡ w.critical.queue)
    × (w'.critical.processing ≡ w.critical.processing)
    × (w'.critical.dead_letter ≡ w.critical.dead_letter)
    × (w'.critical.latest ≡ w.critical.latest)

pub Keeps-refl : (w : World) → Keeps w w
Keeps-refl w = (refl, refl, refl, refl, refl)

pub with_db : (w : World) (db : Db) → KeepsSignals w.db db → Keeps w (record w { db = db })
with_db w db h = (h, refl, refl, refl, refl)

pub Keeps-trans : (w w' w'' : World) → Keeps w w' → Keeps w' w'' → Keeps w w''
Keeps-trans w w' w'' (a, b, c, d, e) (a', b', c', d', e') = (a' ∙ a, b' ∙ b, c' ∙ c, d' ∙ d, e' ∙ e)
