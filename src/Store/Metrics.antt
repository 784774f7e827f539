-- ===== src/Store/Metrics.antt =====
-- GetMetrics of internal/store/store.go.
use tradecast.Prelude.{ℕ, Bool, true, false, count_where, if◌then◌else◌}
use tradecast.Store.{
  DeliveryStatus, pending, delivered, failed, dead, ApiKeyStatus, active, revoked, suspended, Db,
}

pub record Metrics : Type 0 where
  pub total_signals : ℕ
  pub delivered_count : ℕ
  pub failed_count : ℕ
  pub dead_count : ℕ
  pub active_subscribers : ℕ
  pub total_api_keys : ℕ
  pub active_api_keys : ℕ

-- Which of the seven counts fail.
pub record Faults : Type 0 where
  pub signals : Bool
  pub delivered : Bool
  pub failed : Bool
  pub dead : Bool
  pub subscribers : Bool
  pub keys : Bool
  pub active_keys : Bool

abbrev pub is_delivered : DeliveryStatus → Bool
is_delivered delivered = true
is_delivered pending = false
is_delivered failed = false
is_delivered dead = false

abbrev pub is_failed : DeliveryStatus → Bool
is_failed failed = true
is_failed pending = false
is_failed delivered = false
is_failed dead = false

abbrev pub is_dead : DeliveryStatus → Bool
is_dead dead = true
is_dead pending = false
is_dead delivered = false
is_dead failed = false

abbrev pub is_active_status : ApiKeyStatus → Bool
is_active_status active = true
is_active_status revoked = false
is_active_status suspended = false

-- A count whose query fails stays 0: the errors are dropped.
abbrev pub counted_rows : Bool → ℕ → ℕ
counted_rows fault n = if fault then 0 else n

unfoldable pub get_metrics : Faults → Db → Metrics
get_metrics f db = record {
  total_signals = counted_rows f.signals (count_where (λ _. true) db.signals);
  delivered_count =
      counted_rows f.delivered (count_where (λ r. is_delivered r.status) db.delivery_log);
  failed_count = counted_rows f.failed (count_where (λ r. is_failed r.status) db.delivery_log);
  dead_count = counted_rows f.dead (count_where (λ r. is_dead r.status) db.delivery_log);
  active_subscribers = counted_rows f.subscribers (count_where (λ r. r.active) db.subscribers);
  total_api_keys = counted_rows f.keys (count_where (λ _. true) db.api_keys);
  active_api_keys =
      counted_rows f.active_keys (count_where (λ r. is_active_status r.status) db.api_keys);
}
