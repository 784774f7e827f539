-- ===== src/Cache/Queue.antt =====
-- The BRPOPLPUSH queues of internal/cache/cache.go.
pub mod Fifo
pub mod Copies
use tradecast.Prelude.{
  false, ℕ, ◌≡◌, Bool, Option, none, some, List, [], ◌∷◌, Text, text_eq, Json, doc, quoted, Result,
  ok, err, Fault, unavailable, pop_last, remove_first, length, if◌then◌else◌,
}
use tradecast.Types.{Job, Json-discrete}
use tradecast.Cache.{Critical, assign}

-- The `any` that `EnqueueJob` is given: a job, or bytes that hold one.
pub data Payload : Type 0 where
  of_job : Job → Payload
  of_bytes : Json Job → Payload

-- json.Marshal of such a value
abbrev pub marshal : Payload → Json Job
marshal (of_job j) = doc j
marshal (of_bytes b) = quoted b

unfoldable pub enqueue_job : Bool → Text → Payload → Critical → Result Fault Unit × Critical
enqueue_job fault symbol job c =
    if fault
    then (err unavailable, c)
    else (ok tt, record c { queue = assign symbol (marshal job ∷ c.queue symbol) c.queue })

-- `ok none`: the wait ran out on an empty queue
unfoldable pub take :
    Text → Critical → Option (List (Json Job) × Json Job) → Option (Json Job) × Critical
take symbol c none = (none, c)
take symbol c (some (rest, raw)) = (
  some raw,
  record c {
    queue = assign symbol rest c.queue;
    processing = assign symbol (raw ∷ c.processing symbol) c.processing;
  },
)

unfoldable pub dequeue_job : Bool → Text → Critical → Result Fault (Option (Json Job)) × Critical
unfolding take pop_last
dequeue_job fault symbol c =
    let (raw, c') = take symbol c (pop_last (c.queue symbol)) in
    if fault then (err unavailable, c) else (ok raw, c')

-- LREM processing 1 raw
unfoldable pub drop_processing : Text → Json Job → Critical → Critical
unfolding remove_first
drop_processing symbol raw c =
    let kept = remove_first (λ r. Json-discrete r raw) (c.processing symbol) in
    record c { processing = assign symbol kept c.processing }

unfoldable pub ack_job : Bool → Text → Json Job → Critical → Critical
unfolding drop_processing
ack_job fault symbol raw c = if fault then c else drop_processing symbol raw c

-- Which commands of a pipeline fail: it is no transaction, so each is executed or refused by itself.
pub record Pipeline : Type 0 where
  pub remove : Bool
  pub push : Bool

unfoldable pub nack_job : Pipeline → Text → Json Job → Critical → Critical
unfolding drop_processing
nack_job f symbol raw c =
    let d = if f.remove then c else drop_processing symbol raw c in
    if f.push then d else record d { queue = assign symbol (raw ∷ d.queue symbol) d.queue }

unfoldable pub move_to_dead_letter : Pipeline → Text → Json Job → Critical → Critical
unfolding drop_processing
move_to_dead_letter f symbol raw c =
    let d = if f.remove then c else drop_processing symbol raw c in
    if f.push then d else record d { dead_letter = raw ∷ d.dead_letter }

abbrev pub both_succeed : Pipeline
both_succeed = record { remove = false; push = false }

unfoldable pub get_all_processing_jobs : Bool → Text → Critical → Result Fault (List (Json Job))
get_all_processing_jobs fault symbol c = if fault then err unavailable else ok (c.processing symbol)

unfoldable pub queue_depth : Bool → Text → Critical → Result Fault ℕ
queue_depth fault symbol c = if fault then err unavailable else ok (length (c.queue symbol))

unfoldable pub dead_letter_depth : Bool → Critical → Result Fault ℕ
dead_letter_depth fault c = if fault then err unavailable else ok (length c.dead_letter)
