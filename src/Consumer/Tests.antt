-- ===== src/Consumer/Tests.antt =====
-- Runs of the worker, and the theorems at concrete inputs.
use tradecast.Prelude.{
  ◌^◌, float, text_eq, ◌+◌, ◌<◌, ◌≡◌, refl, false, true, none, some, [], ◌∷◌, Text, codes, doc,
  arith, min, pos, negsuc, ok, err, unavailable, List, ◌≤◌, ◌-◌, map,
}
use tradecast.Types.{Job}
use tradecast.World.{World, empty_world}
use tradecast.Cache.{empty_critical}
use tradecast.Cache.Queue.{Pipeline, of_job, dequeue_job, ack_job, nack_job, move_to_dead_letter}
use tradecast.Cache.Queue.Copies.{copies, held, moved, queue_ops-held}
use tradecast.Cache.Queue.Fifo.{
  Call, put, get, was_put, was_got, lines, perform_all, serve_all, perform_all-serve_all,
}
use tradecast.Samples.{worker_config, sample}
use tradecast.Auth.Hmac.{duration_mod, since}
use tradecast.Consumer.{Handler, run_handlers, consume_symbol, process_job, is_stale, backoff}
use tradecast.Consumer.Backoff.{backoff_overflow}
use tradecast.Consumer.Delivery.{outcomes, last_error, no_faults, remains, held-process_job}
use tradecast.Consumer.Drain.{consume_symbol-drains}
use tradecast.Consumer.Retry.{Lists, retry_loses_job}

abbrev job : Job
job = record {
  job_id = 2;
  signal_id = 1;
  signal = sample;
  attempts = 0;
  enqueued_at = 110_000_000_000;
}

abbrev worn : Job
worn = record job { attempts = 4 }

abbrev unreachable : Handler
unreachable j db = (some (codes "timeout"), db)

abbrev fine : Handler
fine j db = (none, db)

abbrev eurusd : Text
eurusd = codes "EURUSD"

-- One job waits in every queue, and nothing is processed.
abbrev queued : World
queued = record empty_world { critical = record empty_critical { queue = λ s. doc job ∷ [] } }

-- One worn job is processed for every symbol.
abbrev processed : World
processed = record empty_world {
  critical = record empty_critical { processing = λ s. doc worn ∷ [] };
}

retry_loses_job_example :
    let after =
      consume_symbol worker_config
        (fine ∷ unreachable ∷ [])
        eurusd
        ((no_faults, 8) ∷ (no_faults, 9) ∷ [])
        queued in
    Lists eurusd after.critical [] []
    × (after.critical.dead_letter ≡ [])
    × (after.db ≡ (run_handlers (fine ∷ unreachable ∷ []) job none queued.db).1)
retry_loses_job_example =
    retry_loses_job worker_config (fine ∷ unreachable ∷ []) 8 9 eurusd job (codes "timeout") queued
      (refl, refl) refl (omega arith)

one_processed : 0 < copies (doc worn) (processed.critical.processing eurusd)
one_processed = ground arith

held-process_job_example :
    copies (doc job) (doc worn ∷ [])
      + held
          (doc job)
          eurusd
          (process_job worker_config
            (fine ∷ [])
            no_faults
            8
            eurusd
            (doc worn)
            worn
            processed).critical
    ≡ held (doc job) eurusd processed.critical
      + copies (doc job) (
          remains worker_config
            (doc worn)
            worn
            (last_error (outcomes (fine ∷ []) worn processed.db) none))
held-process_job_example =
    held-process_job worker_config (fine ∷ []) 8 (doc job) (doc worn) eurusd worn processed
      one_processed

old : is_stale 200_000_000_000 60_000_000_000 (doc job) ≡ true
unfolding is_stale since
old = refl

-- The removal is executed, and the push is refused.
abbrev push_fails : Pipeline
push_fails = record { remove = false; push = true }

queue_ops-held_example :
    (held (doc worn) eurusd (dequeue_job true eurusd processed.critical).1
      ≡ held (doc worn) eurusd processed.critical)
    × (moved false (doc worn) (doc worn)
          + held (doc worn) eurusd (nack_job push_fails eurusd (doc worn) processed.critical)
        ≡ held (doc worn) eurusd processed.critical + 0)
    × (moved false (doc worn) (doc worn)
          + held
              (doc worn)
              eurusd
              (move_to_dead_letter push_fails eurusd (doc worn) processed.critical)
        ≡ held (doc worn) eurusd processed.critical + 0)
    × (0 + held (doc worn) eurusd (ack_job true eurusd (doc worn) processed.critical)
        ≡ held (doc worn) eurusd processed.critical)
queue_ops-held_example =
    queue_ops-held (doc worn) (doc worn) eurusd processed.critical true push_fails one_processed

abbrev calls : List Call
calls =
    put false eurusd (of_job worn)
    ∷ get false eurusd
    ∷ get true eurusd
    ∷ get false eurusd
    ∷ get false eurusd
    ∷ []

perform_all-serve_all_example :
    ((perform_all calls queued.critical).0
      ≡ was_put (ok tt)
        ∷ was_got (ok (some (doc job)))
        ∷ was_got (err unavailable)
        ∷ was_got (ok (some (doc worn)))
        ∷ was_got (ok none)
        ∷ [])
    × (lines (perform_all calls queued.critical).1 ≡ (serve_all calls (lines queued.critical)).1)
unfolding text_eq
perform_all-serve_all_example = perform_all-serve_all calls queued.critical

-- No wait at all after the fortieth.
backoff_overflow_example : backoff worker_config 250 40 ≡ negsuc (duration_mod - 1)
backoff_overflow_example = backoff_overflow worker_config 250 40 (omega arith)

-- 2 ^ 62 - 1 is rounded up to 2 ^ 62, so that its double is out of range.
rounded_up :
    (backoff (record worker_config { base_backoff = 2 ^ 62 - 1 }) 0 1 ≡ negsuc (duration_mod - 1))
    × (backoff worker_config 250 3 ≡ pos 8_250_000_000)
unfolding backoff float tradecast.Prelude.Float.nearest tradecast.Prelude.Float.exponent
rounded_up = (refl, refl)

-- The handler never succeeds: two rounds for the one job.
consume_symbol-drains_example :
    Lists eurusd
      (consume_symbol worker_config
        (unreachable ∷ [])
        eurusd
        (map (λ id. (no_faults, id)) (8 ∷ 9 ∷ []))
        queued).critical
      []
      []
consume_symbol-drains_example =
    consume_symbol-drains worker_config (unreachable ∷ []) eurusd (8 ∷ 9 ∷ []) queued (omega arith)
