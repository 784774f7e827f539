-- ===== src/System/Tests.antt =====
-- A history of the server and the worker, and the theorems at concrete inputs.
use tradecast.Prelude.{
  ◌≡◌, refl, false, none, List, [], ◌∷◌, ◌++◌, codes, text_eq, doc, arith, Text, trim_space,
  to_upper, before, format_int, pop_last,
}
use tradecast.Types.{Uuid, Job, InboundSignal}
use tradecast.World.{World, empty_world}
use tradecast.Samples.{toy_platform, auth_config, worker_config, sample, at_second}
use tradecast.Samples.Server.{tokens, http, context, bodies}
use tradecast.Samples.Worker.{wire, envs, settings}
use tradecast.Signal.{
  Pending, normalized, stored, job_for, receive, receive_signal, validate, is_signal_type,
  is_direction, normalize_symbol, admit, persist, publish, get_pending,
}
use tradecast.Signal.Ingest.{IsAuthentic}
use tradecast.Consumer.{run_handlers, consume_once}
use tradecast.Consumer.Retry.{Lists}
use tradecast.Consumer.Delivery.{no_faults}
use tradecast.Worker.{handlers}
use tradecast.Server.{Method}
use tradecast.Server.{serve, dispatch, guarded, lookup, match_path, takes}
use tradecast.Server.Respond
use tradecast.Server.Respond.{respond, handle_served, request_of}
use tradecast.Auth.Hmac.{verify_signal_hmac, is_too_old}
use tradecast.Cache.Queue.{enqueue_job, dequeue_job}
use tradecast.Cache.Signals.{set_latest_signal, get_latest_signal, set_dedup, eq_ℤ}
use tradecast.Store.Signals.{column, insert_signal}
use tradecast.System.{System, Event, request, fetch, proceed, taken, proceed_nth, step, run}
use tradecast.System.Pieces.{working, advance}
use tradecast.System.Growth.{Holds}
use tradecast.System.Sound.{IsEmpty, run-IsSafe}
use tradecast.System.Genuine.{HasRow}
use tradecast.System.Delivered.{IsSent, delivered-IsSent, polled-IsSent}
use tradecast.System.Relay.{posted, respond-consume_once}

abbrev quiet : System
quiet = record {
  world = empty_world;
  flights = [];
  manager = record { running = []; symbols = [] };
}

quiet-IsEmpty : IsEmpty quiet
quiet-IsEmpty = record {
  signals = refl;
  queue = λ symbol. refl;
  processing = λ symbol. refl;
  dead_letter = refl;
  latest = λ symbol. refl;
  flights = refl;
}

abbrev eurusd : Text
eurusd = codes "EURUSD"

-- a signal is posted, the worker takes its job and decodes it
abbrev history : List Event
history =
    request context (http Method.post (codes "signal" ∷ []))
    ∷ fetch false eurusd
    ∷ proceed 0 no_faults 8 envs
    ∷ []

run-IsSafe_example :
    Holds toy_platform auth_config
      (run toy_platform wire worker_config settings tokens auth_config history quiet).world
      (run toy_platform wire worker_config settings tokens auth_config history quiet).flights
run-IsSafe_example =
    run-IsSafe toy_platform auth_config tokens wire worker_config settings history quiet
      quiet-IsEmpty

abbrev sent : InboundSignal
sent = record sample { symbol = eurusd }

abbrev job : Job
job = job_for (at_second 110) 1 sent

in_work :
    (run toy_platform wire worker_config settings tokens auth_config history quiet).flights
    ≡ [] ++ working eurusd (doc job) job (handlers toy_platform wire settings envs) none ∷ []
unfolding run step taken proceed_nth advance respond handle_served serve dispatch guarded lookup
    match_path takes Respond.run text_eq request_of bodies receive receive_signal validate
    is_signal_type is_direction normalize_symbol trim_space to_upper before verify_signal_hmac
    is_too_old format_int admit set_dedup eq_ℤ persist insert_signal publish set_latest_signal
    enqueue_job dequeue_job pop_last
in_work = refl

delivered-IsSent_example :
    IsSent toy_platform auth_config job.signal
    × (job.signal.symbol ≡ eurusd)
    × HasRow job.signal_id
        (column (stored job.signal))
        (run toy_platform wire worker_config settings tokens auth_config history
          quiet).world.db.signals
delivered-IsSent_example =
    delivered-IsSent toy_platform auth_config (omega arith) tokens wire worker_config settings
      history quiet quiet-IsEmpty [] [] eurusd (doc job) job
      (handlers toy_platform wire settings envs) none in_work

shown :
    get_pending false
      (codes "eurusd")
      (run toy_platform wire worker_config settings tokens auth_config history quiet).world
    ≡ Pending.found (doc sent)
unfolding run step taken proceed_nth advance respond handle_served serve dispatch guarded lookup
    match_path takes Respond.run text_eq request_of bodies receive receive_signal validate
    is_signal_type is_direction normalize_symbol trim_space to_upper before verify_signal_hmac
    is_too_old format_int admit set_dedup eq_ℤ persist insert_signal publish set_latest_signal
    enqueue_job dequeue_job pop_last get_pending get_latest_signal
shown = refl

polled-IsSent_example :
    (sig : InboundSignal) × (doc sent ≡ doc sig)
    × IsSent toy_platform auth_config sig
    × (sig.symbol ≡ to_upper (codes "eurusd"))
    × ((id : Uuid) × HasRow id
          (column (stored sig))
          (run toy_platform wire worker_config settings tokens auth_config history
            quiet).world.db.signals)
polled-IsSent_example =
    polled-IsSent toy_platform auth_config (omega arith) tokens wire worker_config settings history
      quiet quiet-IsEmpty false (codes "eurusd") (doc sent) shown

authentic :
    IsAuthentic toy_platform auth_config
      (at_second 110)
      (request_of (posted (http Method.get [])))
      sample
unfolding request_of bodies validate is_signal_type is_direction text_eq normalize_symbol trim_space
    to_upper before verify_signal_hmac is_too_old format_int
authentic = record { headers = refl; body = refl; valid = refl; verified = refl }

abbrev served : World
served =
    (respond toy_platform tokens auth_config context (posted (http Method.get [])) empty_world).1

respond-consume_once_example :
    (served.db.signals
      ≡ record {
        id = 1;
        signal = column (stored (normalized sample));
        received_at = 110_000_000_000;
      }
        ∷ [])
    × ((consume_once worker_config
          (handlers toy_platform wire settings envs)
          (normalized sample).symbol
          (no_faults, 8)
          served).db
        ≡ (run_handlers
            (handlers toy_platform wire settings envs)
            (job_for (at_second 110) 1 (normalized sample))
            none
            served.db).1)
    × ((run_handlers
            (handlers toy_platform wire settings envs)
            (job_for (at_second 110) 1 (normalized sample))
            none
            served.db).0
          ≡ none
        → Lists
            (normalized sample).symbol
            (consume_once worker_config
              (handlers toy_platform wire settings envs)
              (normalized sample).symbol
              (no_faults, 8)
              served).critical
            []
            [])
respond-consume_once_example =
    respond-consume_once toy_platform tokens auth_config worker_config
      (handlers toy_platform wire settings envs) 8 context (http Method.get []) sample empty_world
      refl authentic refl (refl, refl) (omega arith)
