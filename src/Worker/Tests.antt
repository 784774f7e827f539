-- ===== src/Worker/Tests.antt =====
-- The notification handlers at concrete inputs.
use tradecast.Prelude.{
  ◌≡◌, ◌↔◌, refl, true, none, [], ◌∷◌, codes, text_eq, doc, find, any, select, arith,
}
use tradecast.Types.{Job}
use tradecast.Store.{ConfigValue, SubscriberRow, Db, empty_db}
use tradecast.Store.Subscribers.{scan_subscriber}
use tradecast.Consumer.{run_handlers}
use tradecast.Samples.{toy_platform, sample}
use tradecast.Samples.Worker.{wire, visit, env, envs, settings}
use tradecast.Notify.{address, notify}
use tradecast.Notify.Log.{AllSound, with_entries, notify-entries}
use tradecast.Notify.Outcomes.{active_subscribers}
use tradecast.Worker.{handlers}
use tradecast.Worker.Delivers.{
  ByTelegram, ByWhatsapp, ByWebhook, ByMt4copier, run_handlers-delivers,
}

abbrev row : SubscriberRow
row = record {
  id = 20;
  key_id = 7;
  channel = codes "telegram";
  config = doc ((codes "chat_id", ConfigValue.text (codes "55")) ∷ []);
  active = true;
  created_at = 0;
}

abbrev one_subscriber : Db
one_subscriber = record empty_db { subscribers = row ∷ [] }

abbrev job : Job
job = record { job_id = 1; signal_id = 2; signal = sample; attempts = 0; enqueued_at = 3 }

run_handlers-delivers_example :
    ((run_handlers (handlers toy_platform wire settings envs) job none one_subscriber).0 ≡ none) ↔ (
      ByTelegram toy_platform wire settings envs job (row ∷ [])
      × ByWhatsapp toy_platform wire settings envs job (row ∷ [])
      × ByWebhook toy_platform wire settings envs job (row ∷ [])
      × ByMt4copier toy_platform wire settings envs job (row ∷ []))
run_handlers-delivers_example =
    run_handlers-delivers toy_platform wire settings envs job one_subscriber

all_sound :
    AllSound
      (codes "telegram")
      (codes "chat_id")
      job
      (λ sub. visit)
      (λ sub to. none)
      (active_subscribers env (row ∷ []))
      []
unfolding scan_subscriber address any select text_eq find
all_sound = ground arith

notify-entries_example :
    (notify (codes "telegram") (codes "chat_id") env (λ sub to. none) job one_subscriber).1
    ≡ record one_subscriber {
      delivery_log =
          with_entries
            (codes "telegram")
            (codes "chat_id")
            job
            (λ sub. visit)
            (λ sub to. none)
            (active_subscribers env (row ∷ []))
            [];
    }
notify-entries_example =
    notify-entries (codes "telegram") (codes "chat_id") env (λ sub to. none) job one_subscriber refl
      all_sound
