-- ===== src/Signal/Polling.antt =====
-- GET /pending/{symbol} against what POST /signal stored.
use tradecast.Prelude.{
  Lacks, ◌≡◌, ◌⊎◌, inl, inr, refl, false, none, List, [], ◌∷◌, Text, text_eq_iff, doc, to_upper,
  is_empty, arith, subst,
}
use tradecast.Types.{InboundSignal}
use tradecast.Config.{AuthConfig}
use tradecast.Platform.{Platform}
use tradecast.World.{World, empty_world}
use tradecast.Cache.Queue.{enqueue_job}
use tradecast.Cache.Signals.{set_dedup, set_latest_signal, get_latest_signal}
use tradecast.Store.Signals.{insert_signal}
use tradecast.Signal.{
  Faults, Env, Request, normalized, normalize_symbol, admit, persist, publish, receive, get_pending,
  found, no_content,
}
use tradecast.Signal.Ingest.{IsAuthentic, receive_cases}
use tradecast.Signal.Replay.{IsFresh}
use tradecast.Signal.Accept.{no_faults, receive-IsAccepted}
use tradecast.Signal.Validation.{normalize_symbol-normal}

-- After an accepted signal, polling its normal symbol, in capitals or not, returns that signal.
pub get_pending-receive :
    (p : Platform) (cfg : AuthConfig) (e : Env) (r : Request) (sig : InboundSignal) (w : World)
    (path : Text)
    → IsAuthentic p cfg e r sig
    → IsFresh e sig w
    → to_upper path ≡ normalize_symbol sig.symbol
    → is_empty (to_upper path) ≡ false
    → get_pending false path (receive p no_faults cfg e r w).1 ≡ found (doc (normalized sig))
unfolding get_pending get_latest_signal
get_pending-receive p cfg e r sig w path authentic fresh same full =
    rw (full, same) (rw (receive-IsAccepted p cfg e r sig w authentic fresh).latest)

-- Only symbols without a dot have a latest signal.
abbrev IsDotFree : World → Type 0
IsDotFree w = (s : Text) → (w.critical.latest s ≡ none) ⊎ Lacks b'.' s

latest-admit :
    (f : Faults) (cfg : AuthConfig) (e : Env) (sig : InboundSignal) (w : World) (s : Text)
    → ((admit f cfg e sig w).1.critical.latest s ≡ w.critical.latest s) ⊎ (sig.symbol ≡ s)
unfolding admit set_dedup persist publish set_latest_signal enqueue_job insert_signal
latest-admit f cfg e sig w s = ground (arith, text_eq_iff sig.symbol s)

admit-IsDotFree :
    (f : Faults) (cfg : AuthConfig) (e : Env) (sig : InboundSignal) (w : World)
    → IsDotFree w
    → IsDotFree (admit f cfg e (normalized sig) w).1
admit-IsDotFree f cfg e sig w h s = elim (latest-admit f cfg e (normalized sig) w s) [
  | inl same ↦ rw same (h s)
  | inr here ↦ inr (subst (Lacks b'.') here (normalize_symbol-normal sig.symbol).0)
]

receive-IsDotFree :
    (p : Platform) (f : Faults) (cfg : AuthConfig) (e : Env) (r : Request) (w : World)
    → IsDotFree w
    → IsDotFree (receive p f cfg e r w).1
receive-IsDotFree p f cfg e r w h = elim (receive_cases p f cfg e r w) [
  | inl (same, _, _) ↦ rw same h
  | inr (sig, _, same) ↦ rw same (admit-IsDotFree f cfg e sig w h)
]

-- The requests that a server handles one after the other.
pub serve : Platform → AuthConfig → List (Faults × Env × Request) → World → World
serve p cfg [] w = w
serve p cfg ((f, e, r) ∷ rest) w = serve p cfg rest (receive p f cfg e r w).1

serve-IsDotFree :
    (p : Platform) (cfg : AuthConfig) (inputs : List (Faults × Env × Request)) (w : World)
    → IsDotFree w
    → IsDotFree (serve p cfg inputs w)
unfolding serve
serve-IsDotFree p cfg [] w h = h
serve-IsDotFree p cfg ((f, e, r) ∷ rest) w h =
    serve-IsDotFree p cfg rest _ (receive-IsDotFree p f cfg e r w h)

dotted-full : (s : Text) → ¬ Lacks b'.' s → is_empty s ≡ false
dotted-full [] h = absurd (h tt)
dotted-full (c ∷ s) h = refl

-- Whatever was posted since the start, polling a symbol that has a dot in it, as brokers name
-- symbols with a suffix, never returns a signal.
pub get_pending_dotted :
    (p : Platform) (cfg : AuthConfig) (inputs : List (Faults × Env × Request)) (path : Text)
    → ¬ Lacks b'.' (to_upper path)
    → get_pending false path (serve p cfg inputs empty_world) ≡ no_content
unfolding get_pending get_latest_signal
get_pending_dotted p cfg inputs path dotted =
    elim (serve-IsDotFree p cfg inputs empty_world (λ s. inl refl) (to_upper path)) [
      | inl e ↦ rw (dotted-full (to_upper path) dotted, e)
      | inr l ↦ absurd (dotted l)
    ]
