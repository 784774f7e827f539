-- ===== src/Notify/Outcomes.antt =====
-- When the handlers of internal/notify report an error.
use tradecast.Prelude.{
  ◌≡◌, ◌↔◌, false, Option, none, some, List, [], ◌∷◌, Text, select, map, arith, Bool-cases, inl,
  inr,
}
use tradecast.Types.{Job}
use tradecast.Store.{Subscriber, SubscriberRow, Db}
use tradecast.Store.Subscribers.{scan_subscriber, list_active_subscribers}
use tradecast.Consumer.{later}
use tradecast.Notify.{Env, Visit, address, deliver_to, deliver, deliver_listed, notify}

-- A subscriber that has an address got the message.
abbrev pub SentTo : (Subscriber → Text → Option Text) → Subscriber → Option Text → Type 0
SentTo send sub none = Unit
SentTo send sub (some a) = send sub a ≡ none

-- So did all of a list that have the channel and the address under `key`.
abbrev pub AllSent : Text → Text → (Subscriber → Text → Option Text) → List Subscriber → Type 0
AllSent channel key send [] = Unit
AllSent channel key send (sub ∷ subs) =
    SentTo send sub (address channel key sub) × AllSent channel key send subs

-- the subscribers that the query of the handlers answers with
abbrev pub active_subscribers : Env → List SubscriberRow → List Subscriber
active_subscribers env rows = map scan_subscriber (env.order (select (λ r. r.active) rows))

pub later_iff : (last e : Option Text) → (later last e ≡ none) ↔ ((last ≡ none) × (e ≡ none))
later_iff last none = ground arith
later_iff last (some e) = ground arith

module _ (channel key : Text) (job : Job) (visit : Subscriber → Visit)
    (send : Subscriber → Text → Option Text) where
  deliver_to_iff :
      (sub : Subscriber) (to last : Option Text) (db : Db)
      → ((deliver_to channel job visit send sub to (last, db)).0 ≡ none)
        ↔ ((last ≡ none) × SentTo send sub to)
  unfolding deliver_to
  deliver_to_iff sub none last db = ground arith
  deliver_to_iff sub (some a) last db = later_iff last (send sub a)

  deliver_iff :
      (subs : List Subscriber) (state : Option Text × Db)
      → ((deliver channel key job visit send subs state).0 ≡ none)
        ↔ ((state.0 ≡ none) × AllSent channel key send subs)
  unfolding deliver
  deliver_iff [] state = ground arith
  deliver_iff (sub ∷ subs) (last, db) = ground (
    arith,
    deliver_to_iff sub (address channel key sub) last db,
    deliver_iff subs (deliver_to channel job visit send sub (address channel key sub) (last, db)),
  )

-- The loop over the subscribers of a channel reports no error exactly if the query succeeded and
-- every active subscriber of the channel with an address was sent the message, whether or not the
-- statements on the log failed.
pub notify_iff :
    (channel key : Text) (env : Env) (send : Subscriber → Text → Option Text) (job : Job) (db : Db)
    → ((notify channel key env send job db).0 ≡ none) ↔ (
        (env.list_fault ≡ false) × AllSent channel key send (active_subscribers env db.subscribers))
unfolding notify list_active_subscribers deliver_listed
notify_iff channel key env send job db = elim (Bool-cases env.list_fault) [
  | inl down ↦ rw down (ground arith)
  | inr up ↦ rw up (
      ground (
        arith,
        deliver_iff channel key job env.visit send (active_subscribers env db.subscribers)
            (none, db),
      ))
]
