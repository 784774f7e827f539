-- ===== src/Consumer/Retry.antt =====
-- The retry of a failed job. The bytes that json.Marshal wrote for the job are handed to
-- EnqueueJob, which marshals them once more.
use tradecast.Prelude.{
  ◌+◌, ◌<◌, ◌≡◌, refl, subst, ◌∙◌, false, Option, none, some, List, [], ◌∷◌, Text, text_eq_refl,
  Result, Fault, Json, doc, quoted, arith, pop_last, remove_first,
}
use tradecast.Types.{Uuid, Job}
use tradecast.Config.{WorkerConfig}
use tradecast.World.{World}
use tradecast.Cache.{Critical}
use tradecast.Cache.Queue.{dequeue_job, enqueue_job, ack_job, drop_processing}
use tradecast.Consumer.{
  Handler, Faults, run_handlers, attempted, retry, conclude, process_job, consume_once,
  consume_dequeued, consume_raw, consume_symbol,
}
use tradecast.Consumer.Delivery.{outcomes, last_error, no_faults, remains, run_handlers-last_error}

-- The worker's lists of a symbol: what waits in the queue, and what is processed.
abbrev pub Lists : Text → Critical → List (Json Job) → List (Json Job) → Type 0
Lists symbol c queued processed = (c.queue symbol ≡ queued) × (c.processing symbol ≡ processed)

pub dequeue_job-one :
    (symbol : Text) (c : Critical) (raw : Json Job)
    → Lists symbol c (raw ∷ []) []
    → ((dequeue_job false symbol c).0 ≡ Result.ok (some raw))
      × Lists symbol (dequeue_job false symbol c).1 [] (raw ∷ [])
      × ((dequeue_job false symbol c).1.dead_letter ≡ c.dead_letter)
unfolding dequeue_job pop_last
dequeue_job-one symbol c raw (q, p) = ground (arith, q, p, text_eq_refl symbol)

ack_job-one :
    (symbol : Text) (c : Critical) (raw : Json Job)
    → Lists symbol c [] (raw ∷ [])
    → Lists symbol (ack_job false symbol raw c) [] []
      × ((ack_job false symbol raw c).dead_letter ≡ c.dead_letter)
unfolding ack_job drop_processing remove_first
ack_job-one symbol c raw (q, p) = ground (arith, q, p, text_eq_refl symbol)

consume_dequeued-raw :
    (cfg : WorkerConfig) (hs : List Handler) (f : Faults) (id : Uuid) (symbol : Text) (w : World)
    (raw : Json Job) (r : Result Fault (Option (Json Job)) × Critical)
    → r.0 ≡ Result.ok (some raw)
    → consume_dequeued cfg hs f id symbol w r
      ≡ consume_raw cfg hs f id symbol raw (record w { critical = r.1 })
unfolding consume_dequeued
consume_dequeued-raw cfg hs f id symbol w raw (Result.ok (some x), c) h = ground (arith, h)
consume_dequeued-raw cfg hs f id symbol w raw (Result.ok none, c) h = cc
consume_dequeued-raw cfg hs f id symbol w raw (Result.err x, c) h = cc

module _ (cfg : WorkerConfig) (hs : List Handler) (id : Uuid) (symbol : Text) (job : Job) where
  -- the end of the work on a job that was dequeued
  concluded :
      (w : World) (last : Option Text)
      → Lists symbol w.critical [] (doc job ∷ [])
      → job.attempts + 1 < cfg.max_retries
      → let after = conclude cfg no_faults id symbol (doc job) job w last in
        Lists symbol after.critical (remains cfg (doc job) job last) []
        × (after.critical.dead_letter ≡ w.critical.dead_letter)
        × (after.db ≡ w.db)
  unfolding conclude retry enqueue_job
  concluded w none lists room =
      let acked = ack_job-one symbol w.critical (doc job) lists in (acked.0, acked.1, refl)
  concluded w (some e) lists room =
      ground (arith, room, ack_job-one symbol w.critical (doc job) lists, text_eq_refl symbol)

  -- one attempt at a job that was dequeued
  attempt :
      (w : World)
      → Lists symbol w.critical [] (doc job ∷ [])
      → job.attempts + 1 < cfg.max_retries
      → let after = consume_raw cfg hs no_faults id symbol (doc job) w in
        Lists symbol after.critical
          (remains cfg (doc job) job (last_error (outcomes hs job w.db) none))
          []
        × (after.critical.dead_letter ≡ w.critical.dead_letter)
        × (after.db ≡ (run_handlers hs job none w.db).1)
  unfolding consume_raw process_job
  attempt w lists room = rw (← run_handlers-last_error hs job none w.db) (
      concluded (record w { db = (run_handlers hs job none w.db).1 })
        (run_handlers hs job none w.db).0 lists room)

  -- the failed attempt
  retried :
      (e : Text) (w : World)
      → Lists symbol w.critical [] (doc job ∷ [])
      → last_error (outcomes hs job w.db) none ≡ some e
      → job.attempts + 1 < cfg.max_retries
      → let after = consume_raw cfg hs no_faults id symbol (doc job) w in
        Lists symbol after.critical (quoted (doc (attempted job)) ∷ []) []
        × (after.critical.dead_letter ≡ w.critical.dead_letter)
        × (after.db ≡ (run_handlers hs job none w.db).1)
  retried e w lists failed room =
      let done = attempt w lists room in
      (
        subst
            (λ left.
              Lists symbol (consume_raw cfg hs no_faults id symbol (doc job) w).critical left [])
            (ground (arith, failed, room)) done.0,
        done.1,
        done.2,
      )

-- bytes that hold no job are acknowledged, and no handler is called
discarded :
    (cfg : WorkerConfig) (hs : List Handler) (id : Uuid) (symbol : Text) (b : Json Job) (w : World)
    → Lists symbol w.critical [] (quoted b ∷ [])
    → let after = consume_raw cfg hs no_faults id symbol (quoted b) w in
      Lists symbol after.critical [] []
      × (after.critical.dead_letter ≡ w.critical.dead_letter)
      × (after.db ≡ w.db)
unfolding consume_raw
discarded cfg hs id symbol b w lists =
    let acked = ack_job-one symbol w.critical (quoted b) lists in (acked.0, acked.1, refl)

-- one round on a queue that holds one entry
round :
    (cfg : WorkerConfig) (hs : List Handler) (id : Uuid) (symbol : Text) (raw : Json Job)
    (w : World)
    → Lists symbol w.critical (raw ∷ []) []
    → consume_once cfg hs symbol (no_faults, id) w
      ≡ consume_raw cfg hs no_faults id symbol raw
          (record w { critical = (dequeue_job false symbol w.critical).1 })
unfolding consume_once
round cfg hs id symbol raw w lists =
    consume_dequeued-raw cfg hs no_faults id symbol w raw _
      (dequeue_job-one symbol w.critical raw lists).0

-- One round on a job that is alone in its symbol's lists, with attempts left: each handler is called
-- once, and nothing remains but the bytes for the next attempt, if a handler failed.
pub consume_once-one :
    (cfg : WorkerConfig) (hs : List Handler) (id : Uuid) (symbol : Text) (job : Job) (w : World)
    → Lists symbol w.critical (doc job ∷ []) []
    → job.attempts + 1 < cfg.max_retries
    → let after = consume_once cfg hs symbol (no_faults, id) w in
      Lists symbol after.critical
        (remains cfg (doc job) job (last_error (outcomes hs job w.db) none))
        []
      × (after.critical.dead_letter ≡ w.critical.dead_letter)
      × (after.db ≡ (run_handlers hs job none w.db).1)
consume_once-one cfg hs id symbol job w lists room =
    let taken = dequeue_job-one symbol w.critical (doc job) lists in
    let w1 = record w { critical = (dequeue_job false symbol w.critical).1 } in
    let done = attempt cfg hs id symbol job w1 taken.1 room in
    rw (round cfg hs id symbol (doc job) w lists) (done.0, done.1 ∙ taken.2, done.2)

-- A job that fails once is lost. Let it be alone in its symbol's lists, let the handlers fail, and
-- let attempts be left. Although no call to Redis or Postgres fails, after two rounds of the
-- worker the queue and the processing list are empty, no dead letter was added, and the database
-- is the one that the handlers left after a single call each: there was no second attempt.
pub retry_loses_job :
    (cfg : WorkerConfig) (hs : List Handler) (id id' : Uuid) (symbol : Text) (job : Job) (e : Text)
    (w : World)
    → Lists symbol w.critical (doc job ∷ []) []
    → last_error (outcomes hs job w.db) none ≡ some e
    → job.attempts + 1 < cfg.max_retries
    → let after = consume_symbol cfg hs symbol ((no_faults, id) ∷ (no_faults, id') ∷ []) w in
      Lists symbol after.critical [] []
      × (after.critical.dead_letter ≡ w.critical.dead_letter)
      × (after.db ≡ (run_handlers hs job none w.db).1)
unfolding consume_symbol
retry_loses_job cfg hs id id' symbol job e w lists failed room =
    let taken = dequeue_job-one symbol w.critical (doc job) lists in
    let w1 = record w { critical = (dequeue_job false symbol w.critical).1 } in
    let first = retried cfg hs id symbol job e w1 taken.1 failed room in
    let w2 = consume_raw cfg hs no_faults id symbol (doc job) w1 in
    let again = dequeue_job-one symbol w2.critical (quoted (doc (attempted job))) first.0 in
    let w3 = record w2 { critical = (dequeue_job false symbol w2.critical).1 } in
    let last = discarded cfg hs id' symbol (doc (attempted job)) w3 again.1 in
    rw (round cfg hs id symbol (doc job) w lists) (
      rw (round cfg hs id' symbol (quoted (doc (attempted job))) w2 first.0)
        (last.0, last.1 ∙ again.2 ∙ first.1 ∙ taken.2, last.2 ∙ first.2))
