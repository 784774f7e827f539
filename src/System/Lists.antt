-- ===== src/System/Lists.antt =====
-- The Redis operations of internal/cache/cache.go keep the jobs genuine.
use tradecast.Prelude.{
  if◌then◌else◌, subst, Bool, Bool-cases, inl, inr, Option, none, some, Option-cases, List, [], ◌∷◌,
  Text, text_eq, text_eq_iff, Json, doc, Result, ok, err, Fault, pop_last, remove_first, Every,
  Every-remove_first, Every-pop_last, if-both,
}
use tradecast.Types.{Uuid, Nanos, InboundSignal, Job, Json-discrete}
use tradecast.Config.{AuthConfig}
use tradecast.Platform.{Platform}
use tradecast.Cache.{Critical, assign}
use tradecast.Cache.Queue.{
  Payload, Pipeline, marshal, enqueue_job, dequeue_job, drop_processing, ack_job, nack_job,
  move_to_dead_letter, get_all_processing_jobs,
}
use tradecast.Cache.Signals.{set_latest_signal}
use tradecast.Store.{SignalRow}
use tradecast.Consumer.{is_stale, re_queue_all, re_queue_stale, cleanup_tick, with_faults}
use tradecast.System.Genuine.{IsGenuine, Genuine, Latest, IsSound}

-- What holds of a new value at its key, and of all others, holds of a map after SET.
assign-both {ℓ} :
    {V : Type ℓ} (P : Text → V → Type 0) (k : Text) (v : V) (m : Text → V)
    → P k v
    → ((s : Text) → P s (m s))
    → (s : Text) → P s (assign k v m s)
assign-both P k v m h hs s = elim (Bool-cases (text_eq k s)) [
  | inl e ↦ rw e (subst (λ s'. P s' v) ((text_eq_iff k s).0 e) h)
  | inr e ↦ rw e (hs s)
]

module _ (p : Platform) (cfg : AuthConfig) (rows : List SignalRow) where
  abbrev Sound : Critical → Type 0
  Sound c = IsSound p cfg rows c

  abbrev Jobs : Text → List (Json Job) → Type 0
  Jobs symbol jobs = Every (Genuine p cfg rows symbol) jobs

  pub enqueue_job-Sound :
      (fault : Bool) (symbol : Text) (job : Payload) (c : Critical)
      → IsSound p cfg rows c
      → Genuine p cfg rows symbol (marshal job)
      → IsSound p cfg rows (enqueue_job fault symbol job c).1
  unfolding enqueue_job
  enqueue_job-Sound fault symbol job c s g =
      if-both (λ (r : Result Fault Unit × Critical). Sound r.1) fault s
        (record {
          queued =
              assign-both Jobs symbol (marshal job ∷ c.queue symbol) c.queue (g, s.queued symbol)
                s.queued;
          processed = s.processed;
          dead = s.dead;
          latest = s.latest;
        })

  -- what a consumer gets from DequeueJob
  abbrev pub Fetched : Text → Result Fault (Option (Json Job)) → Type 0
  Fetched symbol (err x) = Unit
  Fetched symbol (ok none) = Unit
  Fetched symbol (ok (some raw)) = Genuine p cfg rows symbol raw

  pub dequeue_job-Sound :
      (fault : Bool) (symbol : Text) (c : Critical)
      → IsSound p cfg rows c
      → IsSound p cfg rows (dequeue_job fault symbol c).1
        × Fetched symbol (dequeue_job fault symbol c).0
  unfolding dequeue_job
  dequeue_job-Sound fault symbol c s =
      if-both (λ (r : Result Fault (Option (Json Job)) × Critical). Sound r.1 × Fetched symbol r.0)
        fault (s, tt)
        (elim (Option-cases (pop_last (c.queue symbol))) [
          | inl e ↦ rw e (s, tt)
          | inr ((rest, raw), e) ↦
              let (left, last) = Every-pop_last _ _ rest raw e (s.queued symbol) in
              rw e (
                record {
                  queued = assign-both Jobs symbol rest c.queue left s.queued;
                  processed =
                      assign-both Jobs symbol (raw ∷ c.processing symbol) c.processing
                        (last, s.processed symbol) s.processed;
                  dead = s.dead;
                  latest = s.latest;
                },
                last,
              )
        ])

  drop_processing-Sound :
      (symbol : Text) (raw : Json Job) (c : Critical)
      → IsSound p cfg rows c
      → IsSound p cfg rows (drop_processing symbol raw c)
  unfolding drop_processing
  drop_processing-Sound symbol raw c s = record {
    processed =
        assign-both Jobs symbol (remove_first (λ r. Json-discrete r raw) (c.processing symbol))
          c.processing
          (Every-remove_first _ (λ r. Json-discrete r raw) (c.processing symbol)
            (s.processed symbol))
          s.processed;
    queued = s.queued;
    dead = s.dead;
    latest = s.latest;
  }

  pub ack_job-Sound :
      (fault : Bool) (symbol : Text) (raw : Json Job) (c : Critical)
      → IsSound p cfg rows c
      → IsSound p cfg rows (ack_job fault symbol raw c)
  unfolding ack_job
  ack_job-Sound fault symbol raw c s = if-both Sound fault s (drop_processing-Sound symbol raw c s)

  nack_job-Sound :
      (f : Pipeline) (symbol : Text) (raw : Json Job) (c : Critical)
      → IsSound p cfg rows c
      → Genuine p cfg rows symbol raw
      → IsSound p cfg rows (nack_job f symbol raw c)
  unfolding nack_job
  nack_job-Sound f symbol raw c s g =
      let d = if f.remove then c else drop_processing symbol raw c in
      let kept = if-both Sound f.remove s (drop_processing-Sound symbol raw c s) in
      if-both Sound f.push kept (record {
        queued =
            assign-both Jobs symbol (raw ∷ d.queue symbol) d.queue (g, kept.queued symbol)
              kept.queued;
        processed = kept.processed;
        dead = kept.dead;
        latest = kept.latest;
      })

  pub move_to_dead_letter-Sound :
      (f : Pipeline) (symbol : Text) (raw : Json Job) (c : Critical)
      → IsSound p cfg rows c
      → Genuine p cfg rows symbol raw
      → IsSound p cfg rows (move_to_dead_letter f symbol raw c)
  unfolding move_to_dead_letter
  move_to_dead_letter-Sound f symbol raw c s g =
      let kept = if-both Sound f.remove s (drop_processing-Sound symbol raw c s) in
      if-both Sound f.push kept (record {
        dead = ((symbol, g), kept.dead);
        queued = kept.queued;
        processed = kept.processed;
        latest = kept.latest;
      })

  pub set_latest_signal-Sound :
      (fault : Bool) (symbol : Text) (id : Uuid) (sig : InboundSignal) (c : Critical)
      → IsSound p cfg rows c
      → IsGenuine p cfg rows symbol id sig
      → IsSound p cfg rows (set_latest_signal fault symbol sig c)
  unfolding set_latest_signal
  set_latest_signal-Sound fault symbol id sig c s g = if-both Sound fault s (record {
    latest = assign-both (Latest p cfg rows) symbol (some (doc sig)) c.latest (id, g) s.latest;
    queued = s.queued;
    processed = s.processed;
    dead = s.dead;
  })

  re_queue_all-Sound :
      (now threshold : Nanos) (symbol : Text) (f : Json Job → Pipeline) (jobs : List (Json Job))
      (c : Critical)
      → IsSound p cfg rows c
      → Every (Genuine p cfg rows symbol) jobs
      → IsSound p cfg rows (re_queue_all now threshold symbol (with_faults f jobs) c)
  unfolding re_queue_all
  re_queue_all-Sound now threshold symbol f [] c s h = s
  re_queue_all-Sound now threshold symbol f (raw ∷ jobs) c s h =
      re_queue_all-Sound now threshold symbol f jobs _
        (if-both Sound (is_stale now threshold raw) (nack_job-Sound (f raw) symbol raw c s h.0) s)
        h.1

  re_queue_stale-Sound :
      (fault : Bool) (f : Json Job → Pipeline) (now threshold : Nanos) (symbol : Text)
      (c : Critical)
      → IsSound p cfg rows c
      → IsSound p cfg rows (re_queue_stale fault f now threshold symbol c)
  unfolding re_queue_stale get_all_processing_jobs
  re_queue_stale-Sound fault f now threshold symbol c s = elim (Bool-cases fault) [
    | inl e ↦ rw e (re_queue_all-Sound now threshold symbol f [] c s tt)
    | inr e ↦
        rw e
          (re_queue_all-Sound now threshold symbol f (c.processing symbol) c s (s.processed symbol))
  ]

  pub cleanup_tick-Sound :
      (fault : Bool) (f : Json Job → Pipeline) (now threshold : Nanos) (symbols : List Text)
      (c : Critical)
      → IsSound p cfg rows c
      → IsSound p cfg rows (cleanup_tick fault f now threshold symbols c)
  unfolding cleanup_tick
  cleanup_tick-Sound fault f now threshold [] c s = s
  cleanup_tick-Sound fault f now threshold (symbol ∷ symbols) c s =
      cleanup_tick-Sound fault f now threshold symbols _
        (re_queue_stale-Sound fault f now threshold symbol c s)
