-- ===== src/Consumer/Drain.antt =====
-- The loop of consumeSymbol (internal/queue/consumer.go) works off the queue of its symbol.
use tradecast.Prelude.{
  ℕ, ◌+◌, ◌-◌, ◌*◌, ◌≤◌, ◌≡◌, refl, ◌∙◌, false, Option, none, some, Option-cases, inl, inr, List,
  [], ◌∷◌, map, length, Text, text_eq_refl, Json, doc, quoted, other, arith, pop_last, remove_first,
}
use tradecast.Types.{Uuid, Job}
use tradecast.Config.{WorkerConfig}
use tradecast.World.{World}
use tradecast.Cache.{assign}
use tradecast.Cache.Queue.{dequeue_job, ack_job, drop_processing, move_to_dead_letter, enqueue_job}
use tradecast.Consumer.{
  Handler, bury, retry, conclude, process_job, consume_raw, consume_dequeued, consume_once,
  consume_symbol,
}
use tradecast.Consumer.Delivery.{no_faults}
use tradecast.Consumer.Retry.{Lists}

-- How often the worker can still take a document: a job twice, because it may be enqueued again, in
-- bytes that are then no job.
abbrev pub weight : Json Job → ℕ
weight (doc job) = 2
weight (quoted b) = 1
weight (other t) = 1

abbrev pub load : List (Json Job) → ℕ
load [] = 0
load (x ∷ xs) = weight x + load xs

weight_pos : (x : Json Job) → 1 ≤ weight x
weight_pos (doc j) = omega arith
weight_pos (quoted b) = omega arith
weight_pos (other t) = omega arith

load-length : (xs : List (Json Job)) → load xs ≤ 2 * length xs
load-length [] = omega arith
load-length (doc j ∷ xs) = omega (arith, load-length xs)
load-length (quoted b ∷ xs) = omega (arith, load-length xs)
load-length (other t ∷ xs) = omega (arith, load-length xs)

load_zero : (xs : List (Json Job)) → load xs ≤ 0 → xs ≡ []
load_zero [] h = refl
load_zero (doc j ∷ xs) h = absurd (omega (arith, h))
load_zero (quoted b ∷ xs) h = absurd (omega (arith, h))
load_zero (other t ∷ xs) h = absurd (omega (arith, h))

pop_last-none : (xs : List (Json Job)) → pop_last xs ≡ none → xs ≡ []
unfolding pop_last
pop_last-none [] h = refl
pop_last-none (x ∷ xs) h = ground (arith, h)

load-pop_last :
    (xs ys : List (Json Job)) (y : Json Job)
    → pop_last xs ≡ some (ys, y)
    → load xs ≡ load ys + weight y
unfolding pop_last
load-pop_last [] ys y h = ground arith
load-pop_last (x ∷ xs) ys y h = elim (Option-cases (pop_last xs)) [
  | inl e ↦ ground (arith, e, pop_last-none xs e)
  | inr (p, e) ↦ ground (arith, e, load-pop_last xs p.0 p.1)
]

-- The lists after a document was taken, worked on and left.
abbrev Left : Text → List (Json Job) → List (Json Job) → ℕ → World → Type 0
Left symbol rest processed most w =
    (load (w.critical.queue symbol) ≤ load rest + most) × (w.critical.processing symbol ≡ processed)

module _ (cfg : WorkerConfig) (hs : List Handler) (symbol : Text) (id : Uuid) where
  conclude-Left :
      (raw : Json Job) (job : Job) (w : World) (last : Option Text)
      (rest processed : List (Json Job))
      → Lists symbol w.critical rest (raw ∷ processed)
      → Left symbol rest processed 1 (conclude cfg no_faults id symbol raw job w last)
  unfolding conclude bury retry ack_job drop_processing remove_first move_to_dead_letter enqueue_job
  conclude-Left raw job w none rest processed (q, p) = ground (arith, q, p, text_eq_refl symbol)
  conclude-Left raw job w (some e) rest processed (q, p) = ground (arith, q, p, text_eq_refl symbol)

  ack-Left :
      (raw : Json Job) (w : World) (rest processed : List (Json Job))
      → Lists symbol w.critical rest (raw ∷ processed)
      → Left symbol rest processed 0 (record w { critical = ack_job false symbol raw w.critical })
  unfolding ack_job drop_processing remove_first
  ack-Left raw w rest processed (q, p) = ground (arith, q, p, text_eq_refl symbol)

  consume_raw-Left :
      (raw : Json Job) (w : World) (rest processed : List (Json Job))
      → Lists symbol w.critical rest (raw ∷ processed)
      → Left symbol rest processed (weight raw - 1) (consume_raw cfg hs no_faults id symbol raw w)
  unfolding consume_raw process_job
  consume_raw-Left (doc job) w rest processed h = conclude-Left (doc job) job _ _ rest processed h
  consume_raw-Left (quoted b) w rest processed h = ack-Left (quoted b) w rest processed h
  consume_raw-Left (other t) w rest processed h = ack-Left (other t) w rest processed h

  -- One round: the load goes down, and the processing list is as before.
  consume_once_lem :
      (w : World)
      → (load ((consume_once cfg hs symbol (no_faults, id) w).critical.queue symbol)
          ≤ load (w.critical.queue symbol) - 1)
        × ((consume_once cfg hs symbol (no_faults, id) w).critical.processing symbol
            ≡ w.critical.processing symbol)
  unfolding consume_once consume_dequeued dequeue_job
  consume_once_lem w = elim (Option-cases (pop_last (w.critical.queue symbol))) [
    | inl e ↦ rw e (ground (arith, pop_last-none (w.critical.queue symbol) e))
    | inr ((rest, raw), e) ↦
        let popped = load-pop_last (w.critical.queue symbol) rest raw e in
        let (less, same) =
          consume_raw-Left raw
            (record w {
              critical = record w.critical {
                queue = assign symbol rest w.critical.queue;
                processing =
                    assign symbol (raw ∷ w.critical.processing symbol) w.critical.processing;
              };
            })
            rest (w.critical.processing symbol)
            (ground (arith, text_eq_refl symbol), ground (arith, text_eq_refl symbol)) in
        rw e (omega (arith, popped, less, weight_pos raw), same)
  ]

drains :
    (cfg : WorkerConfig) (hs : List Handler) (symbol : Text) (ids : List Uuid) (w : World)
    → load (w.critical.queue symbol) ≤ length ids
    → Lists symbol
        (consume_symbol cfg hs symbol (map (λ id. (no_faults, id)) ids) w).critical
        []
        (w.critical.processing symbol)
unfolding consume_symbol
drains cfg hs symbol [] w h = (load_zero (w.critical.queue symbol) h, refl)
drains cfg hs symbol (id ∷ ids) w h =
    let (less, same) = consume_once_lem cfg hs symbol id w in
    let w' = consume_once cfg hs symbol (no_faults, id) w in
    let (empty, kept) = drains cfg hs symbol ids w' (omega (arith, less, h)) in (empty, kept ∙ same)

-- Without faults, whatever the handlers do, twice as many rounds as jobs wait leave the queue of the
-- symbol empty and its processing list as it was, if nothing else uses the lists meanwhile.
-- `ids` are the ids that the rounds give to dead letters.
pub consume_symbol-drains :
    (cfg : WorkerConfig) (hs : List Handler) (symbol : Text) (ids : List Uuid) (w : World)
    → 2 * length (w.critical.queue symbol) ≤ length ids
    → Lists symbol
        (consume_symbol cfg hs symbol (map (λ id. (no_faults, id)) ids) w).critical
        []
        (w.critical.processing symbol)
consume_symbol-drains cfg hs symbol ids w enough =
    drains cfg hs symbol ids w (omega (arith, load-length (w.critical.queue symbol)))
