-- ===== src/Notify/Mt4copier.antt =====
-- internal/notify/mt4copier/mt4copier.go: a log entry for the receivers that poll.
use tradecast.Prelude.{
  ◌++◌, ◌&&◌, Bool, true, false, Option, none, some, List, [], ◌∷◌, Text, codes, text_eq, Result,
  ok, err, find, any, if◌then◌else◌,
}
use tradecast.Types.{Job}
use tradecast.Store.{ConfigValue, Subscriber, Db, StoreError}
use tradecast.Store.Subscribers.{list_active_subscribers}
use tradecast.Store.Deliveries.{insert_delivery_log, mark_delivered}
use tradecast.Consumer.{Handler, later}
use tradecast.Notify.{Visit, Env}

-- an element of the array that is the symbol
abbrev pub is_symbol : Text → Option Text → Bool
is_symbol symbol none = false
is_symbol symbol (some s) = text_eq s symbol

-- An array that is not empty filters; anything else lets every symbol through.
abbrev pub passes_filter : Text → Option (Text × ConfigValue) → Bool
passes_filter symbol (some (_, ConfigValue.items (i ∷ is))) = any (is_symbol symbol) (i ∷ is)
passes_filter symbol (some (_, ConfigValue.items [])) = true
passes_filter symbol (some (_, ConfigValue.text _)) = true
passes_filter symbol (some (_, ConfigValue.other_value)) = true
passes_filter symbol none = true

unfoldable pub wants : Text → Subscriber → Bool
wants symbol sub =
    text_eq sub.channel (codes "mt4")
    && passes_filter symbol (find (λ entry. text_eq entry.0 (codes "symbols")) sub.config)

-- the error of MarkDelivered
abbrev pub mark_error : Text → Result StoreError Unit → Option Text
mark_error message (ok _) = none
mark_error message (err _) = some message

-- one round of the loop, for a subscriber that wants the symbol
unfoldable pub copy_to : Job → Text → Visit → Subscriber → Option Text × Db → Option Text × Db
copy_to job message v sub (last, db) =
    let logged =
      insert_delivery_log v.insert_fault v.log_id job.signal_id sub.id (codes "mt4") db in
    let marked = mark_delivered v.mark_fault v.now logged.0 logged.1 in
    (later last (mark_error message marked.0), marked.1)

unfoldable pub copy : Env → Job → List Subscriber → Option Text × Db → Option Text × Db
unfolding copy_to wants
copy env job [] state = state
copy env job (sub ∷ subs) state = copy env job subs (
    if wants job.signal.symbol sub
    then copy_to job env.driver_message (env.visit sub) sub state
    else state)

-- the loop over the rows of the query, or its error
unfoldable pub copy_listed : Env → Job → Db → Result StoreError (List Subscriber) → Option Text × Db
copy_listed env job db (err _) = (some (codes "list subscribers: " ++ env.driver_message), db)
copy_listed env job db (ok subs) = copy env job subs (none, db)

unfoldable pub handle : Env → Handler
handle env job db = copy_listed env job db (list_active_subscribers env.order env.list_fault db)
