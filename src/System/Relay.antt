-- ===== src/System/Relay.antt =====
-- A signal on its way: from POST /signal of cmd/server/main.go, through the queue, to the handlers of
-- the worker of internal/queue/consumer.go.
use tradecast.Prelude.{
  ◌<◌, ◌≡◌, refl, ap, sym, subst, ◌∙◌, none, List, [], ◌∷◌, codes, doc, text_eq,
}
use tradecast.Types.{Uuid, InboundSignal}
use tradecast.Config.{AuthConfig, WorkerConfig}
use tradecast.Platform.{Platform}
use tradecast.World.{World}
use tradecast.Auth.Jwt.{Tokens}
use tradecast.Store.Signals.{column}
use tradecast.Signal.{normalized, stored, job_for, receive}
use tradecast.Signal.Ingest.{IsAuthentic}
use tradecast.Signal.Accept
use tradecast.Signal.Accept.{IsAccepted, receive-IsAccepted}
use tradecast.Signal.Replay.{IsFresh}
use tradecast.Consumer.{Handler, run_handlers, consume_once}
use tradecast.Consumer.Delivery.{no_faults, remains, run_handlers-last_error}
use tradecast.Consumer.Retry.{Lists, consume_once-one}
use tradecast.Server.{Method, lookup, match_path, takes, dispatch, guarded, serve}
use tradecast.Server.Respond.{Http, Context, env_of, request_of, run, handle_served, respond}

-- POST /signal
abbrev pub posted : Http → Http
posted h = record h { method = Method.post; path = codes "signal" ∷ [] }

pub respond-posted :
    (p : Platform) (t : Tokens) (cfg : AuthConfig) (x : Context) (h : Http) (w : World)
    → (respond p t cfg x (posted h) w).1
      ≡ (receive p x.signal cfg (env_of x) (request_of (posted h)) w).1
unfolding respond handle_served serve dispatch guarded lookup match_path takes run text_eq
respond-posted p t cfg x h w = refl

-- what such a POST leaves behind
pub respond-IsAccepted :
    (p : Platform) (t : Tokens) (cfg : AuthConfig) (x : Context) (h : Http) (sig : InboundSignal)
    (w : World)
    → x.signal ≡ Accept.no_faults
    → IsAuthentic p cfg (env_of x) (request_of (posted h)) sig
    → IsFresh (env_of x) sig w
    → IsAccepted (env_of x) (normalized sig) w (
      (receive p Accept.no_faults cfg (env_of x) (request_of (posted h)) w).0,
      (respond p t cfg x (posted h) w).1,
    )
respond-IsAccepted p t cfg x h sig w up authentic fresh =
    let e = env_of x in
    let r = request_of (posted h) in
    let same : (receive p Accept.no_faults cfg e r w).1 ≡ (respond p t cfg x (posted h) w).1 =
      sym (respond-posted p t cfg x h w ∙ ap (λ f. (receive p f cfg e r w).1) up) in
    subst (λ v. IsAccepted e (normalized sig) w ((receive p Accept.no_faults cfg e r w).0, v)) same
      (receive-IsAccepted p cfg e r sig w authentic fresh)

-- If no call fails: a POST of an authentic signal that is no duplicate, for a symbol of which no job
-- waits or is in work, and then one round of the worker for that symbol, call each handler once, one
-- after the other, for exactly that signal under its normal symbol, which is then the newest row of
-- the table, with the lot as the column rounds it; if no handler fails, no job of the symbol
-- remains. The worker may have any handlers, and is to be configured for more than one attempt.
pub respond-consume_once :
    (p : Platform) (t : Tokens) (cfg : AuthConfig) (worker : WorkerConfig) (hs : List Handler)
    (id : Uuid) (x : Context) (h : Http) (sig : InboundSignal) (w : World)
    → x.signal ≡ Accept.no_faults
    → IsAuthentic p cfg (env_of x) (request_of (posted h)) sig
    → IsFresh (env_of x) sig w
    → Lists (normalized sig).symbol w.critical [] []
    → 1 < worker.max_retries
    → let sent = normalized sig in
      let job = job_for (env_of x) x.id sent in
      let stored_in = (respond p t cfg x (posted h) w).1 in
      let after = consume_once worker hs sent.symbol (no_faults, id) stored_in in
      (stored_in.db.signals
        ≡ record { id = x.id; signal = column (stored sent); received_at = x.now } ∷ w.db.signals)
      × (after.db ≡ (run_handlers hs job none stored_in.db).1)
      × ((run_handlers hs job none stored_in.db).0 ≡ none → Lists sent.symbol after.critical [] [])
respond-consume_once p t cfg worker hs id x h sig w up authentic fresh (q, pr) room =
    let sent = normalized sig in
    let job = job_for (env_of x) x.id sent in
    let stored_in = (respond p t cfg x (posted h) w).1 in
    let after = consume_once worker hs sent.symbol (no_faults, id) stored_in in
    let received = respond-IsAccepted p t cfg x h sig w up authentic fresh in
    let queued : Lists sent.symbol stored_in.critical (doc job ∷ []) [] = (
      received.job ∙ ap (λ js. doc job ∷ js) q,
      ap (λ m. m sent.symbol) received.processing ∙ pr,
    ) in
    let done = consume_once-one worker hs id sent.symbol job stored_in queued room in
    (
      received.row,
      done.2,
      λ quiet.
          subst (λ last. Lists sent.symbol after.critical (remains worker (doc job) job last) [])
            (sym (run_handlers-last_error hs job none stored_in.db) ∙ quiet) done.0,
    )
