-- ===== src/Signal/Validation.antt =====
-- What `validate` and `normalizeSymbol` of internal/signal/handler.go accept and produce.
use tradecast.Prelude.{
  Lacks, ℕ, ◌≡◌, ◌≢◌, ◌↔◌, ◌⊎◌, inl, inr, true, ◌==◌, none, [], ◌∷◌, Text, codes, text_eq_iff,
  is_empty, before, to_upper, trim_space, IsPos, Bool-cases, arith, to_upper_idem, to_upper-before,
}
use tradecast.Types.{InboundSignal}
use tradecast.Signal.{validate, is_signal_type, is_direction, normalize_symbol}

abbrev pub IsSignalType : Text → Type 0
IsSignalType t =
    (t ≡ codes "OPEN") ⊎ ((t ≡ codes "MODIFY") ⊎ ((t ≡ codes "CLOSE") ⊎ (t ≡ codes "PARTIAL")))

abbrev pub IsDirection : Text → Type 0
IsDirection d = (d ≡ codes "BUY") ⊎ (d ≡ codes "SELL")

-- The checks that a signal has to pass.
pub record IsValid (sig : InboundSignal) : Type 0 where
  pub ticket : IsPos sig.ticket_id
  pub kind : IsSignalType sig.signal_type
  pub symbol : sig.symbol ≢ []
  pub direction : IsDirection sig.direction
  pub price : IsPos sig.price
  pub lot : IsPos sig.lot

is_signal_type_iff : (t : Text) → (is_signal_type t ≡ true) ↔ IsSignalType t
unfolding is_signal_type
is_signal_type_iff t = ground (
  arith,
  text_eq_iff t (codes "OPEN"),
  text_eq_iff t (codes "MODIFY"),
  text_eq_iff t (codes "CLOSE"),
  text_eq_iff t (codes "PARTIAL"),
)

is_direction_iff : (d : Text) → (is_direction d ≡ true) ↔ IsDirection d
unfolding is_direction
is_direction_iff d = ground (arith, text_eq_iff d (codes "BUY"), text_eq_iff d (codes "SELL"))

is_empty_iff : (s : Text) → (is_empty s ≡ true) ↔ (s ≡ [])
is_empty_iff [] = ground arith
is_empty_iff (c ∷ s) = ground arith

-- `validate` accepts exactly the signals with a positive ticket, price and lot, one of the four
-- types, a symbol that is not the empty text, and the direction BUY or SELL.
pub validate_iff : (sig : InboundSignal) → (validate sig ≡ none) ↔ IsValid sig
unfolding validate
validate_iff sig = (
  λ h. record {
    ticket = ground (arith, h);
    kind = (is_signal_type_iff _).0 (ground (arith, h));
    symbol = λ e. ground (arith, h, (is_empty_iff sig.symbol).1 e);
    direction = (is_direction_iff _).0 (ground (arith, h));
    price = ground (arith, h);
    lot = ground (arith, h);
  },
  λ v. ground (
    arith,
    (is_signal_type_iff _).1 v.kind,
    (is_direction_iff _).1 v.direction,
    is_empty_iff sig.symbol,
    v.symbol,
    v.ticket,
    v.price,
    v.lot,
  ),
)

before-Lacks : (b : ℕ) (s : Text) → Lacks b (before b s)
unfolding before
before-Lacks b [] = tt
before-Lacks b (c ∷ s) = elim (Bool-cases (c == b)) [
  | inl e ↦ rw e tt
  | inr e ↦ rw e (ground (arith, e), before-Lacks b s)
]

-- The text that `normalizeSymbol` returns has no dot in it and no lower-case letter.
pub normalize_symbol-normal :
    (s : Text)
    → Lacks b'.' (normalize_symbol s) × (to_upper (normalize_symbol s) ≡ normalize_symbol s)
unfolding normalize_symbol
normalize_symbol-normal s =
    (before-Lacks b'.' _, to_upper-before b'.' _ (to_upper_idem (trim_space s)))
