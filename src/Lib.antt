-- ===== src/Lib.antt =====
-- Tradecast relays trading signals. An expert advisor posts a signal to the server, which checks
-- its signature, stores it and puts a job onto a queue in Redis. The worker takes the jobs and hands
-- them to its notification handlers. Subscribers and receivers prove themselves by API keys, which
-- may be bound to a number of trading accounts ("machines").
--
-- Parts and files:
-- - Signal: internal/signal/handler.go. `receive` is Receive, in the steps `receive_signal`,
--   `verify`, `admit`, `persist` and `publish`; `get_pending` is GetPending.
-- - Consumer: internal/queue/consumer.go. `consume_once` is one round of consumeSymbol,
--   `process_job` processJob, `re_queue_stale` reQueueStale.
-- - Auth: internal/auth/auth.go. Auth.Hmac is the signature check, Auth.Keys ValidateKey,
--   Auth.Machines CheckMachineBinding, Auth.Middleware APIKeyMiddleware,
--   Auth.Jwt the tokens of the admin, Auth.Request realIP and extractBearer, Auth.Generate the
--   making of keys.
-- - Admin: internal/admin/admin.go, a file for each group of handlers: Session, Keys, Machines,
--   Subscribers, Symbols, Reports. Admin.Symbols.add_symbol is AddSymbol; Admin.Keys.Rotate is
--   RotateKey.
-- - Notify: internal/notify. `notify` is what Handle of telegram, whatsapp and webhook do alike;
--   `handle` in Telegram, Whatsapp, Webhook and Mt4copier is Handle of that package. Worker:
--   cmd/worker/main.go, the handlers in the order of their registration. Server:
--   cmd/server/main.go, the routes with what stands in front of each handler (`serve`), and each
--   request with its handler (`respond`). Server.Frame says which handlers leave the signals and the
--   jobs alone.
-- - System: the server and the worker together. An event is a request, or a step of one of the
--   worker's goroutines: a consumer takes a job, a goroutine does the next piece of work on its job
--   (`advance`, the body of consumeSymbol and processJob cut at its calls), the cleanup or the symbol
--   manager ticks, or the worker stops at once. `run` is a history of events in any order. A request
--   is one event: two requests are not interleaved.
-- - Store: internal/store/store.go. A table is the list of its rows. Store.Migrate is Migrate, over
--   any type of database. Cache: internal/cache/cache.go.
--   Critical is the Redis instance of signals and queues, Lru the one of keys and counters; an
--   entry that expires carries the time of its end. Each kind of key has a map of its own;
--   Cache.Names has the names under which the servers keep them.
-- - Symbols: internal/symbols/manager.go.
-- - Config: the records of internal/config/config.go that the parts read, and Config.Load, which is
--   Load. Health: internal/health/health.go. Types and World: the data and the state that
--   the parts share. Platform: hashing, parsing of timestamps and UUIDs, and what a
--   TEXT[] column makes of an array literal, which are parameters.
--   Auth.Jwt.Tokens: the packages jwt and bcrypt, and Notify.Wire: net/http and the formatting of
--   messages, parameters too.
-- - Samples and the modules called Tests: concrete runs.
--
-- How the state is passed: an operation takes the world and returns its answer with the world after
-- it. Every call of Redis or Postgres may fail; which ones do is a Boolean argument, gathered in a
-- record of faults per operation. The two commands of a pipeline fail independently (`Pipeline`). The clock, new identifiers and the jitter are arguments. A JSON
-- document is the value that it decodes to, a byte slice that was marshalled as a string, or
-- something else (Prelude.Codec).
--
-- Bounds: durations wrap or saturate at 63 bits where the Go code does; prices are
-- fixed-point integers, of which the table of signals keeps eight decimals and of lots four
-- (Store.Signals.column). The backoff is computed in float64, with its rounding (Prelude.Float). Loops are structural recursion on the list that they walk, and the worker's loop on the
-- list of its rounds' inputs, so that no fuel is needed. Calls that the Go code starts in a
-- goroutine of its own (the updates of last_seen and last_used) run at once.
--
-- Not modelled: the wiring in cmd but for the handlers and the routes, which is input and output: the
-- log of requests, listening and shutdown; connecting to Postgres and Redis; log lines; the
-- expert advisors in mql4 and mql5, the dashboard and the deployment, which are not Go.
pub mod Prelude
pub mod Types
pub mod Cache
pub mod Store
pub mod Config
pub mod Platform
pub mod World
pub mod Auth
pub mod Signal
pub mod Consumer
pub mod Symbols
pub mod Notify
pub mod Worker
pub mod Admin
pub mod Server
pub mod System
pub mod Health
pub mod Samples
