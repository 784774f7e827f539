-- ===== src/Notify/Log.antt =====
-- What the handlers of internal/notify write to the delivery log.
use tradecast.Prelude.{
  ◌≡◌, refl, false, Option, none, some, List, [], ◌∷◌, Text, ◌==◌, any, update_where, arith,
  Bool-cases, ◌∙◌, sym, ap, subst, inl, inr,
}
use tradecast.Types.{Uuid, Job}
use tradecast.Store.{DeliveryRow, DeliveryStatus, delivered, failed, pending, Subscriber, Db}
use tradecast.Store.Subscribers.{list_active_subscribers}
use tradecast.Store.Deliveries.{insert_delivery_log, mark_delivered, mark_failed}
use tradecast.Notify.{
  Env, Visit, address, mark, log_send, deliver_to, deliver, deliver_listed, notify,
}
use tradecast.Notify.Outcomes.{active_subscribers}

update_where-none :
    (id : Uuid) (f : DeliveryRow → DeliveryRow) (log : List DeliveryRow)
    → any (λ r. r.id == id) log ≡ false
    → update_where (λ r. r.id == id) f log ≡ log
unfolding any update_where
update_where-none id f [] h = refl
update_where-none id f (r ∷ log) h = ground (arith, h, update_where-none id f log)

-- An UPDATE by the identifier of the newest row, which no other row has.
update_where-newest :
    (r : DeliveryRow) (f : DeliveryRow → DeliveryRow) (log : List DeliveryRow)
    → any (λ x. x.id == r.id) log ≡ false
    → update_where (λ x. x.id == r.id) f (r ∷ log) ≡ f r ∷ log
unfolding update_where
update_where-newest r f log h = ground (arith, update_where-none r.id f log h)

abbrev pub status_of : Option Text → DeliveryStatus
status_of none = delivered
status_of (some e) = failed

module _ (channel key : Text) (job : Job) (visit : Subscriber → Visit)
    (send : Subscriber → Text → Option Text) where
  -- The finished entry of a subscriber: delivered, or failed with the error of the send.
  abbrev pub entry : Subscriber → Text → DeliveryRow
  entry sub to = record {
    id = (visit sub).log_id;
    signal_id = job.signal_id;
    subscriber_id = sub.id;
    channel = channel;
    status = status_of (send sub to);
    attempts = 1;
    last_attempted_at = some (visit sub).now;
    error = send sub to;
  }

  abbrev pub add_entry : Subscriber → Option Text → List DeliveryRow → List DeliveryRow
  add_entry sub none log = log
  add_entry sub (some to) log = entry sub to ∷ log

  -- The log with an entry for each subscriber that has an address, the newest first.
  abbrev pub with_entries : List Subscriber → List DeliveryRow → List DeliveryRow
  with_entries [] log = log
  with_entries (sub ∷ subs) log = with_entries subs (add_entry sub (address channel key sub) log)

  -- At an address no statement fails, and the identifier is new.
  abbrev pub IsSound : Subscriber → Option Text → List DeliveryRow → Type 0
  IsSound sub none log = Unit
  IsSound sub (some to) log =
      ((visit sub).insert_fault ≡ false)
      × ((visit sub).mark_fault ≡ false)
      × (any (λ r. r.id == (visit sub).log_id) log ≡ false)

  abbrev pub AllSound : List Subscriber → List DeliveryRow → Type 0
  AllSound [] log = Unit
  AllSound (sub ∷ subs) log =
      IsSound sub (address channel key sub) log
      × AllSound subs (add_entry sub (address channel key sub) log)

  abbrev with_log : Db → List DeliveryRow → Db
  with_log db log = record db { delivery_log = log }

  abbrev pending_entry : Subscriber → DeliveryRow
  pending_entry sub = record {
    id = (visit sub).log_id;
    signal_id = job.signal_id;
    subscriber_id = sub.id;
    channel = channel;
    status = pending;
    attempts = 0;
    last_attempted_at = none;
    error = none;
  }

  mark-entry :
      (sub : Subscriber) (to : Text) (outcome : Option Text) (db : Db)
      → send sub to ≡ outcome
      → (visit sub).mark_fault ≡ false
      → any (λ r. r.id == (visit sub).log_id) db.delivery_log ≡ false
      → mark
          (visit sub)
          (visit sub).log_id
          outcome
          (with_log db (pending_entry sub ∷ db.delivery_log))
        ≡ with_log db (entry sub to ∷ db.delivery_log)
  unfolding mark mark_delivered mark_failed
  mark-entry sub to none db e hm new =
      rw (hm, e) (ap (with_log db) (update_where-newest (pending_entry sub) _ db.delivery_log new))
  mark-entry sub to (some x) db e hm new =
      rw (hm, e) (ap (with_log db) (update_where-newest (pending_entry sub) _ db.delivery_log new))

  log_send-entry :
      (sub : Subscriber) (to : Text) (db : Db)
      → IsSound sub (some to) db.delivery_log
      → log_send channel job (visit sub) sub (send sub to) db
        ≡ with_log db (entry sub to ∷ db.delivery_log)
  unfolding log_send insert_delivery_log
  log_send-entry sub to db (hi, hm, new) = rw hi (mark-entry sub to (send sub to) db refl hm new)

  deliver_to-entry :
      (sub : Subscriber) (to last : Option Text) (db : Db)
      → IsSound sub to db.delivery_log
      → (deliver_to channel job visit send sub to (last, db)).1
        ≡ with_log db (add_entry sub to db.delivery_log)
  unfolding deliver_to
  deliver_to-entry sub none last db h = refl
  deliver_to-entry sub (some to) last db h = log_send-entry sub to db h

  deliver-entries :
      (subs : List Subscriber) (state : Option Text × Db)
      → AllSound subs state.1.delivery_log
      → (deliver channel key job visit send subs state).1
        ≡ with_log state.1 (with_entries subs state.1.delivery_log)
  unfolding deliver
  deliver-entries [] state h = refl
  deliver-entries (sub ∷ subs) (last, db) (now, rest) =
      let to = address channel key sub in
      let added = deliver_to-entry sub to last db now in
      deliver-entries subs (deliver_to channel job visit send sub to (last, db))
        (subst (λ d. AllSound subs d.delivery_log) (sym added) rest)
      ∙ ap (λ d. with_log d (with_entries subs d.delivery_log)) added

  subscribers-mark :
      (v : Visit) (id : Uuid) (outcome : Option Text) (db : Db)
      → (mark v id outcome db).subscribers ≡ db.subscribers
  unfolding mark mark_delivered mark_failed
  subscribers-mark v id none db = ground arith
  subscribers-mark v id (some e) db = ground arith

  subscribers-deliver_to :
      (sub : Subscriber) (to last : Option Text) (db : Db)
      → (deliver_to channel job visit send sub to (last, db)).1.subscribers ≡ db.subscribers
  unfolding deliver_to log_send insert_delivery_log
  subscribers-deliver_to sub none last db = refl
  subscribers-deliver_to sub (some to) last db =
      subscribers-mark (visit sub) _ (send sub to) _ ∙ ground arith

  subscribers-deliver :
      (subs : List Subscriber) (state : Option Text × Db)
      → (deliver channel key job visit send subs state).1.subscribers ≡ state.1.subscribers
  unfolding deliver
  subscribers-deliver [] state = refl
  subscribers-deliver (sub ∷ subs) (last, db) =
      subscribers-deliver subs _ ∙ subscribers-deliver_to sub (address channel key sub) last db

-- Whatever fails, the loop of a channel leaves the subscribers as they were.
pub subscribers-notify :
    (channel key : Text) (env : Env) (send : Subscriber → Text → Option Text) (job : Job) (db : Db)
    → (notify channel key env send job db).1.subscribers ≡ db.subscribers
unfolding notify list_active_subscribers deliver_listed
subscribers-notify channel key env send job db = elim (Bool-cases env.list_fault) [
  | inl down ↦ rw down refl
  | inr up ↦ rw up (subscribers-deliver channel key job env.visit send _ (none, db))
]

-- If no statement fails and each identifier of the log is new when it is drawn, the loop of a
-- channel adds one entry to the delivery log for each active subscriber of the channel that has an
-- address, and for no other, and changes nothing else in the database. The entry has one attempt,
-- and is delivered if the send succeeded, and otherwise failed, with the error of the send.
pub notify-entries :
    (channel key : Text) (env : Env) (send : Subscriber → Text → Option Text) (job : Job) (db : Db)
    → env.list_fault ≡ false
    → let subs = active_subscribers env db.subscribers in
      AllSound channel key job env.visit send subs db.delivery_log
      → (notify channel key env send job db).1 ≡ record db {
        delivery_log = with_entries channel key job env.visit send subs db.delivery_log;
      }
unfolding notify list_active_subscribers deliver_listed
notify-entries channel key env send job db up sound = rw up (
    deliver-entries channel key job env.visit send (active_subscribers env db.subscribers)
      (none, db) sound)
