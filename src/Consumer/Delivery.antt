-- ===== src/Consumer/Delivery.antt =====
-- What becomes of a job that the worker took: `processJob` of internal/queue/consumer.go.
use tradecast.Prelude.{
  ◌+◌, ◌≤◌, ◌<◌, ◌≡◌, refl, false, Option, none, some, List, [], ◌∷◌, Text, text_eq_refl, Json, doc,
  quoted, arith, leb, if◌then◌else◌,
}
use tradecast.Types.{Uuid, Job}
use tradecast.Config.{WorkerConfig}
use tradecast.World.{World}
use tradecast.Store.{Db}
use tradecast.Store.Deliveries.{insert_dead_letter}
use tradecast.Cache.{Critical}
use tradecast.Cache.Queue.{both_succeed, enqueue_job, ack_job, move_to_dead_letter, of_bytes}
use tradecast.Cache.Queue.Copies.{copies, held, held-ack_job, held-move_to_dead_letter}
use tradecast.Consumer.{
  Handler, Faults, run_handlers, later, attempted, bury, retry, conclude, process_job,
}

-- What the handlers return, one after the other, each on the database that the one before it left.
abbrev pub outcomes : List Handler → Job → Db → List (Option Text)
outcomes [] job db = []
outcomes (h ∷ hs) job db = (h job db).0 ∷ outcomes hs job (h job db).1

-- the last error of a list of outcomes
abbrev pub last_error : List (Option Text) → Option Text → Option Text
last_error [] last = last
last_error (o ∷ os) last = last_error os (later last o)

pub run_handlers-last_error :
    (hs : List Handler) (job : Job) (last : Option Text) (db : Db)
    → (run_handlers hs job last db).0 ≡ last_error (outcomes hs job db) last
unfolding run_handlers
run_handlers-last_error [] job last db = refl
run_handlers-last_error (h ∷ hs) job last db = run_handlers-last_error hs job _ _

abbrev pub no_faults : Faults
no_faults = record {
  dequeue = false;
  ack = false;
  move = both_succeed;
  insert_dead = false;
  cancelled = false;
  enqueue = false;
}

held-enqueue_job :
    (v : Json Job) (symbol : Text) (b : Json Job) (c : Critical)
    → held v symbol (enqueue_job false symbol (of_bytes b) c).1
      ≡ copies v (quoted b ∷ []) + held v symbol c
unfolding enqueue_job
held-enqueue_job v symbol b c = ground (arith, text_eq_refl symbol)

-- What processJob leaves of a job in the lists, by the last error of the handlers: nothing, the
-- dead job as it was taken, or the bytes that are enqueued for the next attempt.
abbrev pub remains : WorkerConfig → Json Job → Job → Option Text → List (Json Job)
remains cfg raw job none = []
remains cfg raw job (some e) =
    if leb cfg.max_retries (job.attempts + 1) then raw ∷ [] else quoted (doc (attempted job)) ∷ []

held-conclude :
    (cfg : WorkerConfig) (id : Uuid) (v raw : Json Job) (symbol : Text) (job : Job) (w : World)
    (last : Option Text)
    → 0 < copies raw (w.critical.processing symbol)
    → copies v (raw ∷ []) + held v symbol (conclude cfg no_faults id symbol raw job w last).critical
      ≡ held v symbol w.critical + copies v (remains cfg raw job last)
unfolding conclude bury retry
held-conclude cfg id v raw symbol job w none h =
    omega (arith, held-ack_job v raw symbol w.critical false h)
held-conclude cfg id v raw symbol job w (some e) h = ground (
  arith,
  held-ack_job v raw symbol w.critical false h,
  held-move_to_dead_letter v raw symbol w.critical both_succeed h,
  held-enqueue_job v symbol (doc (attempted job)) (ack_job false symbol raw w.critical),
)

-- If no call to Redis fails and the worker is not stopped, processJob takes a job of the
-- processing list away and leaves, counting every document in the queue, the processing list and
-- the dead letters: nothing if every handler succeeded, the job itself if the attempts are used up,
-- and otherwise the job with one attempt more, in the bytes that the retry enqueues.
pub held-process_job :
    (cfg : WorkerConfig) (hs : List Handler) (id : Uuid) (v raw : Json Job) (symbol : Text)
    (job : Job) (w : World)
    → 0 < copies raw (w.critical.processing symbol)
    → copies v (raw ∷ [])
        + held v symbol (process_job cfg hs no_faults id symbol raw job w).critical
      ≡ held v symbol w.critical
        + copies v (remains cfg raw job (last_error (outcomes hs job w.db) none))
unfolding process_job
held-process_job cfg hs id v raw symbol job w h =
    rw (← run_handlers-last_error hs job none w.db) (held-conclude cfg id v raw symbol job _ _ h)

-- A job whose attempts are used up is the newest dead letter of Redis and of Postgres, there with
-- the last error of the handlers; its queue is as before.
pub process_job_dead :
    (cfg : WorkerConfig) (hs : List Handler) (id : Uuid) (raw : Json Job) (symbol : Text)
    (job : Job) (w : World) (e : Text)
    → last_error (outcomes hs job w.db) none ≡ some e
    → cfg.max_retries ≤ job.attempts + 1
    → let after = process_job cfg hs no_faults id symbol raw job w in
      (after.critical.dead_letter ≡ raw ∷ w.critical.dead_letter)
      × (after.critical.queue symbol ≡ w.critical.queue symbol)
      × (after.db.dead_letters
          ≡ record {
            id = id;
            job_payload = raw;
            signal_id = some job.signal_id;
            failure_reason = e;
          }
            ∷ (run_handlers hs job none w.db).1.dead_letters)
unfolding process_job conclude bury move_to_dead_letter insert_dead_letter
process_job_dead cfg hs id raw symbol job w e last full =
    ground (arith, last, full, run_handlers-last_error hs job none w.db)
