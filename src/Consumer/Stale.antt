-- ===== src/Consumer/Stale.antt =====
-- The cleanup of stale jobs: `reQueueStale` of internal/queue/consumer.go.
use mathlib.Core.List.{append_assoc, reverse-cons}
use tradecast.Prelude.{
  ◌≡◌, refl, sym, ◌∙◌, false, true, List, [], ◌∷◌, ◌++◌, Text, text_eq_refl, Json, doc, arith,
  remove_first, select, delete_where, reverse, Bool-cases, inl, inr,
}
use tradecast.Types.{Nanos, Job, Json-discrete}
use tradecast.Cache.{Critical}
use tradecast.Cache.Queue.{
  both_succeed, nack_job, ack_job, drop_processing, get_all_processing_jobs, dequeue_job,
}
use tradecast.Consumer.Retry.{dequeue_job-one}
use tradecast.Consumer.{is_stale, re_queue_all, re_queue_stale, with_faults}

module _ (now threshold : Nanos) where
  abbrev AllFresh : List (Json Job) → Type 0
  AllFresh [] = Unit
  AllFresh (x ∷ xs) = (is_stale now threshold x ≡ false) × AllFresh xs

  AllFresh-concat :
      (xs : List (Json Job)) (y : Json Job)
      → AllFresh xs
      → is_stale now threshold y ≡ false
      → AllFresh (xs ++ y ∷ [])
  AllFresh-concat [] y h k = (k, tt)
  AllFresh-concat (x ∷ xs) y h k = (h.0, AllFresh-concat xs y h.1 k)

  -- LREM of a stale job passes over the fresh ones before it.
  remove_first-fresh :
      (kept rest : List (Json Job)) (x : Json Job)
      → AllFresh kept
      → is_stale now threshold x ≡ true
      → remove_first (λ r. Json-discrete r x) (kept ++ x ∷ rest) ≡ kept ++ rest
  unfolding remove_first
  remove_first-fresh [] rest x h k = ground (arith, k)
  remove_first-fresh (y ∷ kept) rest x h k =
      ground (arith, h.0, k, remove_first-fresh kept rest x h.1 k)

  abbrev Lists : Text → Critical → List (Json Job) → List (Json Job) → Type 0
  Lists symbol c queued processed = (c.queue symbol ≡ queued) × (c.processing symbol ≡ processed)

  nack_job-Lists :
      (symbol : Text) (c : Critical) (x : Json Job) (queued kept rest : List (Json Job))
      → AllFresh kept
      → is_stale now threshold x ≡ true
      → Lists symbol c queued (kept ++ x ∷ rest)
      → Lists symbol (nack_job both_succeed symbol x c) (x ∷ queued) (kept ++ rest)
  unfolding nack_job drop_processing
  nack_job-Lists symbol c x queued kept rest h k (q, p) =
      ground (arith, q, p, text_eq_refl symbol, remove_first-fresh kept rest x h k)

  re_queue_all-Lists :
      (symbol : Text) (c : Critical) (queued kept xs : List (Json Job))
      → AllFresh kept
      → Lists symbol c queued (kept ++ xs)
      → Lists symbol
          (re_queue_all now threshold symbol (with_faults (λ _. both_succeed) xs) c)
          (reverse (select (is_stale now threshold) xs) ++ queued)
          (kept ++ delete_where (is_stale now threshold) xs)
  unfolding re_queue_all select delete_where
  re_queue_all-Lists symbol c queued kept [] h lists = lists
  re_queue_all-Lists symbol c queued kept (x ∷ xs) h lists =
      elim (Bool-cases (is_stale now threshold x)) [
        | inl old ↦
            rw (old, re_queue_all)
              (rw (reverse-cons x (select (is_stale now threshold) xs), append_assoc)
                (re_queue_all-Lists symbol (nack_job both_succeed symbol x c) (x ∷ queued) kept xs h
                  (nack_job-Lists symbol c x queued kept xs h old lists)))
        | inr young ↦
            rw (young, re_queue_all)
              (rw (sym (append_assoc kept (x ∷ []) (delete_where (is_stale now threshold) xs))) (
                re_queue_all-Lists symbol c queued (kept ++ x ∷ []) xs
                  (AllFresh-concat kept x h young)
                  (lists.0, lists.1 ∙ sym (append_assoc kept (x ∷ []) xs))))
      ]

-- If no call fails, reQueueStale moves exactly the stale jobs of a symbol from its processing list
-- to its queue, where they wait behind all others; the rest of the processing list stays in order.
pub re_queue_stale_moves :
    (now threshold : Nanos) (symbol : Text) (c : Critical)
    → let after = re_queue_stale false (λ _. both_succeed) now threshold symbol c in
      let stale = is_stale now threshold in
      (after.queue symbol ≡ reverse (select stale (c.processing symbol)) ++ c.queue symbol)
      × (after.processing symbol ≡ delete_where stale (c.processing symbol))
unfolding re_queue_stale get_all_processing_jobs
re_queue_stale_moves now threshold symbol c =
    re_queue_all-Lists now threshold symbol c (c.queue symbol) [] (c.processing symbol) tt
      (refl, refl)

-- A job counts as stale from the time when it was enqueued, not when it was taken. Let a job that
-- waited longer than the threshold be alone in its queue. The worker takes it; the cleanup runs
-- while the handlers are at work; they succeed and the worker acknowledges the job. Then the job
-- is in the queue once more, to be delivered a second time.
pub stale_job_twice :
    (now threshold : Nanos) (symbol : Text) (c : Critical) (job : Job)
    → c.queue symbol ≡ doc job ∷ []
    → c.processing symbol ≡ []
    → is_stale now threshold (doc job) ≡ true
    → let taken = (dequeue_job false symbol c).1 in
      let cleaned = re_queue_stale false (λ _. both_succeed) now threshold symbol taken in
      (ack_job false symbol (doc job) cleaned).queue symbol ≡ doc job ∷ []
unfolding ack_job drop_processing select
stale_job_twice now threshold symbol c job q p old =
    let taken = dequeue_job-one symbol c (doc job) (q, p) in
    (re_queue_stale_moves now threshold symbol (dequeue_job false symbol c).1).0
    ∙ rw (taken.1.0, taken.1.1) (rw (old, select) refl)
