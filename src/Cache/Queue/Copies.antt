-- ===== src/Cache/Queue/Copies.antt =====
-- How many copies of a job the queue operations of internal/cache/cache.go leave.
use tradecast.Prelude.{
  ℕ, suc, ◌+◌, ◌≡◌, ◌<◌, refl, sym, Bool, true, false, some, none, List, [], ◌∷◌, Text,
  text_eq_refl, Json, ite, Option-cases, inl, inr, pop_last, remove_first, arith, ◌≢◌,
  if◌then◌else◌,
}
use tradecast.Types.{Job, Json-discrete}
use tradecast.Cache.{Critical}
use tradecast.Cache.Queue.{Pipeline, dequeue_job, ack_job, nack_job, move_to_dead_letter}

abbrev pub copies : Json Job → List (Json Job) → ℕ
copies v [] = 0
copies v (x ∷ xs) = ite (Json-discrete x v) (suc (copies v xs)) (copies v xs)

-- How often the three lists that a symbol's worker uses hold `v`.
abbrev pub held : Json Job → Text → Critical → ℕ
held v symbol c =
    copies v (c.queue symbol) + copies v (c.processing symbol) + copies v c.dead_letter

pop_last-none : (xs : List (Json Job)) → pop_last xs ≡ none → xs ≡ []
unfolding pop_last
pop_last-none [] h = refl
pop_last-none (x ∷ xs) h = ground (arith, h)

copies-pop_last :
    (v : Json Job) (xs ys : List (Json Job)) (y : Json Job)
    → pop_last xs ≡ some (ys, y)
    → copies v xs ≡ copies v ys + copies v (y ∷ [])
unfolding pop_last
copies-pop_last v [] ys y h = ground arith
copies-pop_last v (x ∷ xs) ys y h = elim (Option-cases (pop_last xs)) [
  | inl e ↦ ground (arith, e, pop_last-none xs e)
  | inr (p, e) ↦ ground (arith, e, copies-pop_last v xs p.0 p.1)
]

copies-remove_first_self :
    (raw : Json Job) (xs : List (Json Job))
    → 0 < copies raw xs
    → copies raw xs ≡ suc (copies raw (remove_first (λ r. Json-discrete r raw) xs))
unfolding remove_first
copies-remove_first_self raw [] h = omega arith
copies-remove_first_self raw (x ∷ xs) h = ground (arith, copies-remove_first_self raw xs)

copies-remove_first_ne :
    (v raw : Json Job) (xs : List (Json Job))
    → v ≢ raw
    → copies v (remove_first (λ r. Json-discrete r raw) xs) ≡ copies v xs
unfolding remove_first
copies-remove_first_ne v raw [] h = refl
copies-remove_first_ne v raw (x ∷ xs) h = ground (arith, copies-remove_first_ne v raw xs)

pub copies-remove_first :
    (v raw : Json Job) (xs : List (Json Job))
    → 0 < copies raw xs
    → copies v xs ≡ copies v (raw ∷ []) + copies v (remove_first (λ r. Json-discrete r raw) xs)
copies-remove_first v raw xs h = elim (Json-discrete raw v) [
  | yes e ↦ rw (sym e) (ground (arith, copies-remove_first_self raw xs h))
  | no n ↦ ground (arith, copies-remove_first_ne v raw xs (λ q. n (sym q)))
]

pub held-dequeue_job :
    (v : Json Job) (symbol : Text) (c : Critical) (fault : Bool)
    → held v symbol (dequeue_job fault symbol c).1 ≡ held v symbol c
unfolding dequeue_job
held-dequeue_job v symbol c true = refl
held-dequeue_job v symbol c false = elim (Option-cases (pop_last (c.queue symbol))) [
  | inl e ↦ ground (arith, e)
  | inr (p, e) ↦ ground (arith, e, text_eq_refl symbol, copies-pop_last v (c.queue symbol) p.0 p.1)
]

-- the copies of `v` that a command on `raw` moves, if it does not fail
abbrev pub moved : Bool → Json Job → Json Job → ℕ
moved fault v raw = if fault then 0 else copies v (raw ∷ [])

pub held-nack_job :
    (v raw : Json Job) (symbol : Text) (c : Critical) (f : Pipeline)
    → 0 < copies raw (c.processing symbol)
    → moved f.remove v raw + held v symbol (nack_job f symbol raw c)
      ≡ held v symbol c + moved f.push v raw
unfolding nack_job
held-nack_job v raw symbol c f h =
    ground (arith, text_eq_refl symbol, copies-remove_first v raw (c.processing symbol) h)

pub held-move_to_dead_letter :
    (v raw : Json Job) (symbol : Text) (c : Critical) (f : Pipeline)
    → 0 < copies raw (c.processing symbol)
    → moved f.remove v raw + held v symbol (move_to_dead_letter f symbol raw c)
      ≡ held v symbol c + moved f.push v raw
unfolding move_to_dead_letter
held-move_to_dead_letter v raw symbol c f h =
    ground (arith, text_eq_refl symbol, copies-remove_first v raw (c.processing symbol) h)

pub held-ack_job :
    (v raw : Json Job) (symbol : Text) (c : Critical) (fault : Bool)
    → 0 < copies raw (c.processing symbol)
    → moved fault v raw + held v symbol (ack_job fault symbol raw c) ≡ held v symbol c
unfolding ack_job
held-ack_job v raw symbol c fault h =
    ground (arith, text_eq_refl symbol, copies-remove_first v raw (c.processing symbol) h)

-- For each document, the number of its copies in a symbol's queue, in its processing list and in
-- the dead letters together: DequeueJob, failing or not, keeps it. NackJob and MoveToDeadLetter of
-- a job in the processing list take away one copy of the job if their removal is executed and add
-- one if their push is, each whatever becomes of the other: the job is neither lost nor copied if
-- both are executed, lost if only the removal is, copied if only the push is. AckJob takes away one
-- copy of its job if it does not fail. The copies of other documents stay as many as they were.
pub queue_ops-held :
    (v raw : Json Job) (symbol : Text) (c : Critical) (fault : Bool) (f : Pipeline)
    → 0 < copies raw (c.processing symbol)
    → (held v symbol (dequeue_job fault symbol c).1 ≡ held v symbol c)
      × (moved f.remove v raw + held v symbol (nack_job f symbol raw c)
          ≡ held v symbol c + moved f.push v raw)
      × (moved f.remove v raw + held v symbol (move_to_dead_letter f symbol raw c)
          ≡ held v symbol c + moved f.push v raw)
      × (moved fault v raw + held v symbol (ack_job fault symbol raw c) ≡ held v symbol c)
queue_ops-held v raw symbol c fault f h = (
  held-dequeue_job v symbol c fault,
  held-nack_job v raw symbol c f h,
  held-move_to_dead_letter v raw symbol c f h,
  held-ack_job v raw symbol c fault h,
)
