-- ===== src/Signal/Tests.antt =====
-- Runs of the signal handlers, and the theorems at concrete inputs.
use tradecast.Prelude.{
  Lacks, pos, ◌≡◌, ◌⊎◌, inl, refl, false, true, none, [], ◌∷◌, codes, text_eq, to_upper, trim_space,
  before, format_int, arith, ◌<◌, ◌≤◌, is_empty,
}
use tradecast.Types.{InboundSignal}
use tradecast.World.{empty_world}
use tradecast.Auth.Hmac.{verify_signal_hmac, is_too_old}
use tradecast.Samples.{toy_platform, auth_config, sample, request, at_second}
use tradecast.Signal.{
  Faults, duplicate, validate, is_signal_type, is_direction, normalize_symbol, normalized, receive,
  admit, get_pending, no_content, status,
}
use tradecast.Signal.Ingest.{IsAuthentic, receive_cases}
use tradecast.Signal.Replay.{receive_once, receive_loses}
use tradecast.Signal.Accept.{no_faults, IsAccepted}
use tradecast.Signal.Altered.{altered, receive-altered}
use tradecast.Signal.Polling.{get_pending_dotted, serve}

sample_symbol : normalize_symbol sample.symbol ≡ codes "EURUSD"
unfolding normalize_symbol trim_space to_upper before
sample_symbol = refl

-- A symbol that starts with a dot passes the validation and is normalized to the empty text.
dot_is_valid :
    (validate (record sample { symbol = codes ".x" }) ≡ none) × (normalize_symbol (codes ".x") ≡ [])
unfolding validate is_signal_type is_direction text_eq normalize_symbol trim_space to_upper before
dot_is_valid = (refl, refl)

sample-IsAuthentic : IsAuthentic toy_platform auth_config (at_second 110) request sample
unfolding validate is_signal_type is_direction text_eq normalize_symbol trim_space to_upper before
    verify_signal_hmac is_too_old format_int
sample-IsAuthentic = record { headers = refl; body = refl; valid = refl; verified = refl }

abbrev failed_insert : Faults
failed_insert = record { dedup = false; insert = true; latest = false; enqueue = false }

later-IsAuthentic : IsAuthentic toy_platform auth_config (at_second 120) request sample
unfolding validate is_signal_type is_direction text_eq normalize_symbol trim_space to_upper before
    verify_signal_hmac is_too_old format_int
later-IsAuthentic = record { headers = refl; body = refl; valid = refl; verified = refl }

receive_cases_example :
    ((receive toy_platform no_faults auth_config (at_second 110) request empty_world).1
        ≡ empty_world)
      × (400
          ≤ status
              (receive toy_platform no_faults auth_config (at_second 110) request empty_world).0)
      × (status (receive toy_platform no_faults auth_config (at_second 110) request empty_world).0
          < 500)
    ⊎ ((sig : InboundSignal) × IsAuthentic toy_platform auth_config (at_second 110) request sig
        × (receive toy_platform no_faults auth_config (at_second 110) request empty_world
            ≡ admit no_faults auth_config (at_second 110) (normalized sig) empty_world))
receive_cases_example =
    receive_cases toy_platform no_faults auth_config (at_second 110) request empty_world

receive_once_example :
    receive toy_platform failed_insert auth_config
      (at_second 120)
      request
      (receive toy_platform no_faults auth_config (at_second 110) request empty_world).1
    ≡ (
      duplicate,
      (receive toy_platform no_faults auth_config (at_second 110) request empty_world).1,
    )
receive_once_example =
    receive_once toy_platform no_faults failed_insert auth_config (at_second 110) (at_second 120)
      request request sample sample empty_world sample-IsAuthentic later-IsAuthentic refl refl refl
      refl (omega arith)

receive_loses_example :
    ((receive toy_platform failed_insert auth_config
        (at_second 110)
        request
        empty_world).1.critical.queue
      ≡ empty_world.critical.queue)
    × (receive toy_platform no_faults auth_config
          (at_second 120)
          request
          (receive toy_platform failed_insert auth_config (at_second 110) request empty_world).1
        ≡ (
          duplicate,
          (receive toy_platform failed_insert auth_config (at_second 110) request empty_world).1,
        ))
receive_loses_example =
    receive_loses toy_platform failed_insert no_faults auth_config (at_second 110) (at_second 120)
      request request sample sample empty_world sample-IsAuthentic later-IsAuthentic refl refl refl
      refl (omega arith) (inl refl)

path_matches : to_upper (codes "eurusd") ≡ normalize_symbol sample.symbol
unfolding normalize_symbol trim_space to_upper before
path_matches = refl

path_full : is_empty (to_upper (codes "eurusd")) ≡ false
unfolding to_upper
path_full = refl

dotted : ¬ Lacks b'.' (to_upper (codes "x.m"))
unfolding to_upper
dotted h = h.1.0 refl

get_pending_dotted_example :
    get_pending false
      (codes "x.m")
      (serve toy_platform auth_config ((no_faults, at_second 110, request) ∷ []) empty_world)
    ≡ no_content
get_pending_dotted_example =
    get_pending_dotted toy_platform auth_config ((no_faults, at_second 110, request) ∷ [])
      (codes "x.m") dotted

-- the sample with the other direction and another price
abbrev opposite : InboundSignal
opposite = record sample { direction = codes "SELL"; price = pos 1 }

opposite_valid : validate opposite ≡ none
unfolding validate is_signal_type is_direction text_eq
opposite_valid = refl

receive-altered_example :
    IsAccepted (at_second 110) (normalized opposite) empty_world (
      receive toy_platform no_faults auth_config
        (at_second 110)
        (altered request opposite)
        empty_world)
    × (receive toy_platform no_faults auth_config
          (at_second 120)
          request
          (receive toy_platform no_faults auth_config
            (at_second 110)
            (altered request opposite)
            empty_world).1
        ≡ (
          duplicate,
          (receive toy_platform no_faults auth_config
              (at_second 110)
              (altered request opposite)
              empty_world).1,
        ))
receive-altered_example =
    receive-altered toy_platform no_faults auth_config (at_second 110) (at_second 120) request
      sample opposite empty_world sample-IsAuthentic later-IsAuthentic refl
      (record { ticket = refl; kind = refl; symbol = refl }) opposite_valid (omega arith)
