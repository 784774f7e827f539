-- ===== src/Cache/Queue/Fifo.antt =====
-- EnqueueJob and DequeueJob of internal/cache/cache.go as a first-in-first-out queue for each symbol.
use std.Path.{fun_ext}
use mathlib.Core.List.{reverse-cons, reverse-reverse}
use tradecast.Prelude.{
  ◌≡◌, refl, ap, ap₂, sym, ◌∙◌, Bool, false, true, Option, some, none, List, [], ◌∷◌, ◌++◌, Text,
  text_eq, Json, Result, ok, err, Fault, unavailable, pop_last, pop_last-concat, reverse,
  if◌then◌else◌,
}
use tradecast.Types.{Job}
use tradecast.Cache.{Critical, assign}
use tradecast.Cache.Queue.{Payload, marshal, enqueue_job, dequeue_job, take}

-- A call of a client, for a symbol; the Boolean says whether Redis fails.
pub data Call : Type 0 where
  put : Bool → Text → Payload → Call
  get : Bool → Text → Call

pub data Answer : Type 0 where
  was_put : Result Fault Unit → Answer
  was_got : Result Fault (Option (Json Job)) → Answer

-- What a client sees: for each symbol the jobs that wait, the oldest first, and the jobs that were
-- taken, the last one first.
pub record Lines : Type 0 where
  pub waiting : Text → List (Json Job)
  pub taken : Text → List (Json Job)

-- The abstract queue: a call that fails changes nothing, a job that is put waits behind all others,
-- and the oldest one is taken.
abbrev pub first_out : Text → Lines → List (Json Job) → Answer × Lines
first_out symbol q [] = (was_got (ok none), q)
first_out symbol q (raw ∷ rest) = (
  was_got (ok (some raw)),
  record {
    waiting = assign symbol rest q.waiting;
    taken = assign symbol (raw ∷ q.taken symbol) q.taken;
  },
)

abbrev pub serve : Call → Lines → Answer × Lines
serve (put true symbol job) q = (was_put (err unavailable), q)
serve (put false symbol job) q = (
  was_put (ok tt),
  record q { waiting = assign symbol (q.waiting symbol ++ marshal job ∷ []) q.waiting },
)
serve (get true symbol) q = (was_got (err unavailable), q)
serve (get false symbol) q = first_out symbol q (q.waiting symbol)

abbrev pub serve_all : List Call → Lines → List Answer × Lines
serve_all [] q = ([], q)
serve_all (x ∷ xs) q =
    let (a, q') = serve x q in let (rest, last) = serve_all xs q' in (a ∷ rest, last)

-- the call as cache.go makes it
abbrev pub perform : Call → Critical → Answer × Critical
perform (put fault symbol job) c = let (r, c') = enqueue_job fault symbol job c in (was_put r, c')
perform (get fault symbol) c = let (r, c') = dequeue_job fault symbol c in (was_got r, c')

abbrev pub perform_all : List Call → Critical → List Answer × Critical
perform_all [] c = ([], c)
perform_all (x ∷ xs) c =
    let (a, c') = perform x c in let (rest, last) = perform_all xs c' in (a ∷ rest, last)

abbrev lines_of : (Text → List (Json Job)) → (Text → List (Json Job)) → Lines
lines_of waiting taken = record { waiting = waiting; taken = taken }

abbrev pub lines : Critical → Lines
lines c = lines_of (λ s. reverse (c.queue s)) c.processing

reverse-if :
    (b : Bool) (xs ys : List (Json Job))
    → reverse (if b then xs else ys) ≡ (if b then reverse xs else reverse ys)
reverse-if true xs ys = refl
reverse-if false xs ys = refl

reverse-assign :
    (symbol : Text) (jobs : List (Json Job)) (q : Text → List (Json Job))
    → (λ s. reverse (assign symbol jobs q s)) ≡ assign symbol (reverse jobs) (λ s. reverse (q s))
reverse-assign symbol jobs q = fun_ext (λ s. reverse-if (text_eq symbol s) jobs (q s))

pop_last-reverse :
    (raw : Json Job) (rest xs : List (Json Job))
    → reverse xs ≡ raw ∷ rest
    → pop_last xs ≡ some (reverse rest, raw)
pop_last-reverse raw rest xs h =
    rw (sym (reverse-reverse xs) ∙ ap reverse h ∙ reverse-cons raw rest)
      (pop_last-concat (reverse rest) raw)

-- Two lists, the first with another queue in the place of one symbol.
lines-queue :
    (symbol : Text) (jobs waiting : List (Json Job)) (queue taken : Text → List (Json Job))
    → reverse jobs ≡ waiting
    → lines_of (λ s. reverse (assign symbol jobs queue s)) taken
      ≡ lines_of (assign symbol waiting (λ s. reverse (queue s))) taken
lines-queue symbol jobs waiting queue taken h =
    ap (λ w. lines_of w taken)
      (reverse-assign symbol jobs queue ∙ ap (λ js. assign symbol js (λ s. reverse (queue s))) h)

-- The two answer the same, and leave the same lines.
abbrev Agree : Answer × Critical → Answer × Lines → Type 0
Agree (a, c) (b, q) = (a ≡ b) × (lines c ≡ q)

perform-first_out :
    (symbol : Text) (c : Critical) (jobs : List (Json Job))
    → reverse (c.queue symbol) ≡ jobs
    → Agree (perform (get false symbol) c) (first_out symbol (lines c) jobs)
unfolding dequeue_job take pop_last
perform-first_out symbol c [] h =
    rw (sym (reverse-reverse (c.queue symbol)) ∙ ap reverse h) (refl, refl)
perform-first_out symbol c (raw ∷ rest) h = rw (pop_last-reverse raw rest (c.queue symbol) h) (
  refl,
  lines-queue symbol (reverse rest) rest c.queue
      (assign symbol (raw ∷ c.processing symbol) c.processing) (reverse-reverse rest),
)

perform-serve : (x : Call) (c : Critical) → Agree (perform x c) (serve x (lines c))
unfolding enqueue_job dequeue_job
perform-serve (put true symbol job) c = (refl, refl)
perform-serve (put false symbol job) c = (
  refl,
  lines-queue symbol (marshal job ∷ c.queue symbol) _ c.queue c.processing
      (reverse-cons (marshal job) (c.queue symbol)),
)
perform-serve (get true symbol) c = (refl, refl)
perform-serve (get false symbol) c = perform-first_out symbol c _ refl

-- Any sequence of calls of EnqueueJob and DequeueJob, for any symbols and with any failures, is
-- answered as first-in-first-out queues answer it, one for each symbol, which start with the jobs
-- that wait: a call that fails changes nothing, a job that is put waits behind all others of its
-- symbol, a call on an empty queue gets nothing, and otherwise the oldest job of the symbol is
-- got. In the end the same jobs wait, in the same order, and the processing list of each symbol
-- holds the jobs that were got before those that it held.
pub perform_all-serve_all :
    (xs : List Call) (c : Critical)
    → ((perform_all xs c).0 ≡ (serve_all xs (lines c)).0)
      × (lines (perform_all xs c).1 ≡ (serve_all xs (lines c)).1)
perform_all-serve_all [] c = (refl, refl)
perform_all-serve_all (x ∷ xs) c =
    let (same, left) = perform-serve x c in
    let (answers, last) = perform_all-serve_all xs (perform x c).1 in
    (
      ap₂ ◌∷◌ same (answers ∙ ap (λ q. (serve_all xs q).0) left),
      last ∙ ap (λ q. (serve_all xs q).1) left,
    )
