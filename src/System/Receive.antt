-- ===== src/System/Receive.antt =====
-- POST /signal of internal/signal/handler.go adds none but genuine jobs.
use tradecast.Prelude.{
  arith, refl, Bool-cases, inl, inr, List, ◌∷◌, Result, ok, err, Fault, Bool, true, false,
}
use tradecast.Types.{InboundSignal}
use tradecast.Config.{AuthConfig}
use tradecast.Platform.{Platform}
use tradecast.World.{World}
use tradecast.Cache.{Critical}
use tradecast.Cache.Queue.{of_job}
use tradecast.Cache.Signals.{set_latest_signal, set_dedup}
use tradecast.Store.{SignalRow}
use tradecast.Store.Signals.{column, insert_signal}
use tradecast.Signal.{
  Faults, Env, Request, normalized, stored, job_for, receive, admit, persist, publish,
}
use tradecast.Signal.Ingest.{receive_cases}
use tradecast.System.Genuine.{IsSigned, IsGenuine}
use tradecast.System.Pieces.{Flight}
use tradecast.System.Lists.{enqueue_job-Sound, set_latest_signal-Sound}
use tradecast.System.Growth.{Holds, Keeps-Holds, IsSound-cons, Holds-cons}

module _ (p : Platform) (cfg : AuthConfig) (f : Faults) (e : Env) (flights : List Flight) where
  publish-Holds :
      (sig : InboundSignal) (w : World)
      → IsSigned p cfg sig
      → Holds p cfg w flights
      → Holds p cfg
          (publish f e sig w (insert_signal f.insert e.signal_id e.now (stored sig) w.db)).1
          flights
  unfolding publish insert_signal
  publish-Holds sig w signed h = elim (Bool-cases f.insert) [
    | inl down ↦ rw down (Keeps-Holds p cfg w _ flights (refl, refl, refl, refl, refl) h)
    | inr up ↦
        let row : SignalRow = record {
          id = e.signal_id;
          signal = column (stored sig);
          received_at = e.now;
        } in
        let genuine : IsGenuine p cfg (row ∷ w.db.signals) sig.symbol e.signal_id sig = record {
          signed = signed;
          place = refl;
          row = inl (refl, refl);
        } in
        let grown = IsSound-cons p cfg row w.db.signals w.critical h.lists in
        let shown =
          set_latest_signal-Sound p cfg (row ∷ w.db.signals) f.latest sig.symbol e.signal_id sig
            w.critical grown genuine in
        rw up (
          Holds-cons p cfg row w.db.signals w flights _ sig refl h signed refl (
            enqueue_job-Sound p cfg (row ∷ w.db.signals) f.enqueue sig.symbol
              (of_job (job_for e e.signal_id sig))
              (set_latest_signal f.latest sig.symbol sig w.critical) shown genuine))
  ]

  persist-Holds :
      (sig : InboundSignal) (w : World) (r : Result Fault Bool × Critical)
      → IsSigned p cfg sig
      → Holds p cfg (record w { critical = r.1 }) flights
      → Holds p cfg (persist f e sig w r).1 flights
  unfolding persist
  persist-Holds sig w (ok true, c) signed h = publish-Holds sig _ signed h
  persist-Holds sig w (ok false, c) signed h = h
  persist-Holds sig w (err x, c) signed h = h

  -- a mark changes none of the lists
  set_dedup-Holds :
      (sig : InboundSignal) (w : World)
      → Holds p cfg w flights
      → Holds p cfg
          (record w {
            critical =
                (set_dedup f.dedup e.now sig.ticket_id sig.signal_type cfg.deduplicate_ttl
                  w.critical).1;
          })
          flights
  unfolding set_dedup
  set_dedup-Holds sig w h =
      Keeps-Holds p cfg w _ flights (refl, ground arith, ground arith, ground arith, ground arith) h

  pub receive-Holds :
      (r : Request) (w : World)
      → Holds p cfg w flights
      → Holds p cfg (receive p f cfg e r w).1 flights
  unfolding admit
  receive-Holds r w h = elim (receive_cases p f cfg e r w) [
    | inl (same, low, high) ↦ rw same h
    | inr (sig, authentic, same) ↦
        let signed : IsSigned p cfg (normalized sig) = record {
          env = e;
          request = r;
          sent = sig;
          authentic = authentic;
          normal = refl;
        } in
        rw same (persist-Holds (normalized sig) w _ signed (set_dedup-Holds (normalized sig) w h))
  ]
