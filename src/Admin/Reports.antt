-- ===== src/Admin/Reports.antt =====
-- GetMetrics and ListSignals of internal/admin/admin.go.
use tradecast.Prelude.{
  ℕ, ℤ, pos, ltb_ℤ, is_nonpos, ◌||◌, List, Text, codes, atoi, Result, ok, err, Fault, if◌then◌else◌,
}
use tradecast.World.{World}
use tradecast.Cache.Queue.{dead_letter_depth}
use tradecast.Store.{SignalRow}
use tradecast.Store.Signals.{list_signals}
use tradecast.Store.Metrics
use tradecast.Store.Metrics.{Metrics, get_metrics}
use tradecast.Admin.{Reply, replied, Faults, listed}

abbrev pub depth_or_zero : Result Fault ℕ → ℕ
depth_or_zero (err _) = 0
depth_or_zero (ok n) = n

-- The counts of the tables, and the length of the dead letters in Redis. The store's GetMetrics
-- returns no error.
unfoldable pub report_metrics : Metrics.Faults → Faults → World → Reply (Metrics × ℕ)
report_metrics m f w =
    replied 200 (get_metrics m w.db, depth_or_zero (dead_letter_depth f.cache w.critical))

-- `limit <= 0 || limit > 200`
unfoldable pub clamp_limit : ℤ → ℤ
clamp_limit limit = if is_nonpos limit || ltb_ℤ (pos 200) limit then pos 50 else limit

-- `limit` and `offset` are the texts of the query; the errors of Atoi are dropped.
unfoldable pub report_signals :
    (List SignalRow → List SignalRow) → Faults → Text → Text → World → Reply (List SignalRow)
unfolding clamp_limit
report_signals order f limit offset w =
    listed (codes "store error")
      (list_signals order f.read (clamp_limit (atoi limit).0) (atoi offset).0 w.db)
