-- ===== src/Consumer.antt =====
-- internal/queue/consumer.go: the worker. The notification handlers are a parameter: functions of
-- the job and the database that may fail with a message. The children prove what the worker does.
pub mod Delivery
pub mod Retry
pub mod Stale
pub mod Backoff
pub mod Drain
mod Tests
use tradecast.Prelude.{
  ℕ, suc, ◌+◌, ◌-◌, ◌*◌, ◌^◌, ◌≤◌, Bool, true, false, Option, none, some, ℤ, pos, negsuc, ltb_ℤ,
  List, [], ◌∷◌, ◌++◌, Text, text_eq, Json, doc, unmarshal, Result, ok, err, Fault, ltb, leb, any,
  float, if◌then◌else◌,
}
use tradecast.Types.{Uuid, Nanos, InboundSignal, Job}
use tradecast.Config.{WorkerConfig}
use tradecast.World.{World}
use tradecast.Cache.{Critical}
use tradecast.Cache.Queue.{
  Pipeline, of_bytes, enqueue_job, dequeue_job, ack_job, nack_job, move_to_dead_letter,
  get_all_processing_jobs,
}
use tradecast.Store.{Db}
use tradecast.Store.Deliveries.{insert_dead_letter}
use tradecast.Auth.Hmac.{since, duration_mod}

-- `none`: delivered. A failed handler may have changed the database.
abbrev pub Handler : Type 0
Handler = Job → Db → Option Text × Db

-- `if err := h(ctx, job); err != nil { lastErr = err }`
abbrev pub later : Option Text → Option Text → Option Text
later last none = last
later last (some e) = some e

-- the loop over the handlers, from the last error so far
unfoldable pub run_handlers : List Handler → Job → Option Text → Db → Option Text × Db
run_handlers [] job last db = (last, db)
run_handlers (h ∷ hs) job last db =
    let (e, db') = h job db in run_handlers hs job (later last e) db'

-- Which calls fail, and whether the context is cancelled while the worker waits to retry.
pub record Faults : Type 0 where
  pub dequeue : Bool
  pub ack : Bool
  pub move : Pipeline
  pub insert_dead : Bool
  pub cancelled : Bool
  pub enqueue : Bool

-- `job.Attempts++`
abbrev pub attempted : Job → Job
attempted job = record job { attempts = job.attempts + 1 }

-- A job out of attempts: to the dead letters of Redis and of Postgres.
unfoldable pub bury : Faults → Uuid → Text → Json Job → Job → Text → World → World
bury f id symbol raw job e w = record w {
  critical = move_to_dead_letter f.move symbol raw w.critical;
  db = (insert_dead_letter f.insert_dead id raw (some job.signal_id) e w.db).1;
}

-- Acknowledge, wait, and enqueue `updated`, the bytes that json.Marshal wrote for the job.
unfoldable pub retry : Faults → Text → Json Job → Job → World → World
retry f symbol raw job w =
    let acked = record w { critical = ack_job f.ack symbol raw w.critical } in
    let again = (enqueue_job f.enqueue symbol (of_bytes (doc job)) acked.critical).1 in
    if f.cancelled then acked else record acked { critical = again }

-- what follows the handlers; `db` is the database after them
unfoldable pub conclude :
    WorkerConfig → Faults → Uuid → Text → Json Job → Job → World → Option Text → World
conclude cfg f id symbol raw job w none = record w {
  critical = ack_job f.ack symbol raw w.critical;
}
conclude cfg f id symbol raw job w (some e) =
    if leb cfg.max_retries (attempted job).attempts
    then bury f id symbol raw (attempted job) e w
    else retry f symbol raw (attempted job) w

unfoldable pub process_job :
    WorkerConfig → List Handler → Faults → Uuid → Text → Json Job → Job → World → World
process_job cfg hs f id symbol raw job w =
    let (last, db) = run_handlers hs job none w.db in
    conclude cfg f id symbol raw job (record w { db = db }) last

-- what follows DequeueJob; malformed bytes are acknowledged, which discards them
unfoldable pub consume_raw :
    WorkerConfig → List Handler → Faults → Uuid → Text → Json Job → World → World
consume_raw cfg hs f id symbol raw w = elim (unmarshal raw) [
  | none ↦ record w { critical = ack_job f.ack symbol raw w.critical }
  | some job ↦ process_job cfg hs f id symbol raw job w
]

unfoldable pub consume_dequeued :
    WorkerConfig
    → List Handler
    → Faults
    → Uuid
    → Text
    → World
    → Result Fault (Option (Json Job)) × Critical
    → World
consume_dequeued cfg hs f id symbol w (err x, c) = record w { critical = c }
consume_dequeued cfg hs f id symbol w (ok none, c) = record w { critical = c }
consume_dequeued cfg hs f id symbol w (ok (some raw), c) =
    consume_raw cfg hs f id symbol raw (record w { critical = c })

-- one round of the loop of consumeSymbol
unfoldable pub consume_once : WorkerConfig → List Handler → Text → Faults × Uuid → World → World
consume_once cfg hs symbol (f, id) w =
    consume_dequeued cfg hs f id symbol w (dequeue_job f.dequeue symbol w.critical)

-- consumeSymbol: one round for each element, until the context is done
unfoldable pub consume_symbol :
    WorkerConfig → List Handler → Text → List (Faults × Uuid) → World → World
consume_symbol cfg hs symbol [] w = w
consume_symbol cfg hs symbol (x ∷ xs) w =
    consume_symbol cfg hs symbol xs (consume_once cfg hs symbol x w)

-- AddSymbol: the registered symbols, without repetition
unfoldable pub add_symbol : Text → List Text → List Text
add_symbol sym symbols = if any (λ s. text_eq s sym) symbols then symbols else symbols ++ sym ∷ []

-- `time.Since(job.EnqueuedAt) > c.cfg.StaleJobThreshold` for bytes that hold a job
unfoldable pub is_stale : Nanos → Nanos → Json Job → Bool
is_stale now threshold raw = elim (unmarshal raw) [
  | none ↦ false
  | some job ↦ ltb_ℤ (pos threshold) (since now job.enqueued_at)
]

-- the loop of reQueueStale over the jobs that LRANGE returned; beside a job stand
-- the commands of its NackJob that fail
unfoldable pub re_queue_all :
    Nanos → Nanos → Text → List (Json Job × Pipeline) → Critical → Critical
re_queue_all now threshold symbol [] c = c
re_queue_all now threshold symbol ((raw, f) ∷ rest) c =
    re_queue_all now threshold symbol rest
      (if is_stale now threshold raw then nack_job f symbol raw c else c)

-- each job with what fails of its NackJob
abbrev pub with_faults : (Json Job → Pipeline) → List (Json Job) → List (Json Job × Pipeline)
with_faults f [] = []
with_faults f (raw ∷ rest) = (raw, f raw) ∷ with_faults f rest

abbrev snapshot : Result Fault (List (Json Job)) → List (Json Job)
snapshot (ok jobs) = jobs
snapshot (err x) = []

unfoldable pub re_queue_stale :
    Bool → (Json Job → Pipeline) → Nanos → Nanos → Text → Critical → Critical
re_queue_stale fault nack_fault now threshold symbol c =
    re_queue_all now threshold symbol
      (with_faults nack_fault (snapshot (get_all_processing_jobs fault symbol c))) c

-- one tick of runCleanup over the registered symbols
unfoldable pub cleanup_tick :
    Bool → (Json Job → Pipeline) → Nanos → Nanos → List Text → Critical → Critical
cleanup_tick fault nack_fault now threshold [] c = c
cleanup_tick fault nack_fault now threshold (symbol ∷ rest) c =
    cleanup_tick fault nack_fault now threshold rest
      (re_queue_stale fault nack_fault now threshold symbol c)

-- time.Duration(f) of a whole float64 f; beyond int64, Go leaves the result open, and amd64 gives
-- the least int64
abbrev to_duration : ℕ → ℤ
to_duration n = if ltb n duration_mod then pos n else negsuc (duration_mod - 1)

-- `jitter` is what rand.Intn(500) returned, in milliseconds. The power of two and the jitter are
-- float64 values, and so is their product with the base, or it is beyond all of them; the base and
-- the sum are rounded.
unfoldable pub backoff : WorkerConfig → ℕ → ℕ → ℤ
backoff cfg jitter attempt =
    let d = to_duration (float (float cfg.base_backoff * 2 ^ attempt + jitter * 1_000_000)) in
    if ltb_ℤ (pos cfg.max_backoff) d then pos cfg.max_backoff else d
