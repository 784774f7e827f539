-- ===== src/Worker/Delivers.antt =====
-- When the worker counts a job as delivered.
use tradecast.Prelude.{
  ◌≡◌, ◌↔◌, ◌⊎◌, ◌∙◌, inl, inr, refl, false, true, Option, none, List, [], ◌∷◌, Text, codes,
  is_empty, arith, Bool-cases,
}
use tradecast.Types.{Job}
use tradecast.Platform.{Platform}
use tradecast.Config.{NotifyConfig}
use tradecast.Store.{Subscriber, SubscriberRow, Db}
use tradecast.Store.Subscribers.{list_active_subscribers}
use tradecast.Store.Deliveries.{mark_delivered}
use tradecast.Consumer.{Handler, later, run_handlers}
use tradecast.Notify.{Wire, Env, Visit, config_text}
use tradecast.Notify.Telegram
use tradecast.Notify.Whatsapp
use tradecast.Notify.Webhook
use tradecast.Notify.Mt4copier
use tradecast.Notify.Mt4copier.{wants, copy, copy_to, copy_listed}
use tradecast.Notify.Outcomes.{AllSent, active_subscribers, later_iff, notify_iff}
use tradecast.Notify.Log.{subscribers-notify}
use tradecast.Worker.{Envs, handlers}

-- Each handler of a list reports no error, on the database that the one before it left.
abbrev AllQuiet : List Handler → Job → Db → Type 0
AllQuiet [] job db = Unit
AllQuiet (h ∷ hs) job db = ((h job db).0 ≡ none) × AllQuiet hs job (h job db).1

run_handlers_iff :
    (hs : List Handler) (job : Job) (last : Option Text) (db : Db)
    → ((run_handlers hs job last db).0 ≡ none) ↔ ((last ≡ none) × AllQuiet hs job db)
unfolding run_handlers
run_handlers_iff [] job last db = ground arith
run_handlers_iff (h ∷ hs) job last db = ground (
  arith,
  later_iff last (h job db).0,
  run_handlers_iff hs job (later last (h job db).0) (h job db).1,
)

-- MarkDelivered did not fail for any subscriber that wants the symbol.
abbrev pub AllMarked : Env → Text → List Subscriber → Type 0
AllMarked env symbol [] = Unit
AllMarked env symbol (sub ∷ subs) =
    ((wants symbol sub ≡ false) ⊎ ((env.visit sub).mark_fault ≡ false)) × AllMarked env symbol subs

copy_to_iff :
    (job : Job) (message : Text) (v : Visit) (sub : Subscriber) (state : Option Text × Db)
    → ((copy_to job message v sub state).0 ≡ none) ↔ ((state.0 ≡ none) × (v.mark_fault ≡ false))
unfolding copy_to mark_delivered
copy_to_iff job message v sub (last, db) = elim (Bool-cases v.mark_fault) [
  | inl down ↦ rw down (ground arith)
  | inr up ↦ rw up (ground arith)
]

copy_iff :
    (env : Env) (job : Job) (subs : List Subscriber) (state : Option Text × Db)
    → ((copy env job subs state).0 ≡ none)
      ↔ ((state.0 ≡ none) × AllMarked env job.signal.symbol subs)
unfolding copy
copy_iff env job [] state = ground arith
copy_iff env job (sub ∷ subs) state = elim (Bool-cases (wants job.signal.symbol sub)) [
  | inl wanted ↦ rw wanted (
      ground (
        arith,
        wanted,
        copy_to_iff job env.driver_message (env.visit sub) sub state,
        copy_iff env job subs (copy_to job env.driver_message (env.visit sub) sub state),
      ))
  | inr other ↦ rw other (ground (arith, other, copy_iff env job subs state))
]

mt4copier_iff :
    (env : Env) (job : Job) (db : Db) (rows : List SubscriberRow)
    → db.subscribers ≡ rows
    → ((Mt4copier.handle env job db).0 ≡ none)
      ↔ ((env.list_fault ≡ false) × AllMarked env job.signal.symbol (active_subscribers env rows))
unfolding Mt4copier.handle list_active_subscribers copy_listed
mt4copier_iff env job db rows same = rw (← same) (elim (Bool-cases env.list_fault) [
  | inl down ↦ rw down (ground arith)
  | inr up ↦
      rw up (ground (arith, copy_iff env job (active_subscribers env db.subscribers) (none, db)))
])

module _ (p : Platform) (wire : Wire) (cfg : NotifyConfig) (envs : Envs) (job : Job) where
  -- Every active subscriber of Telegram with a chat got the message, or there is no bot.
  abbrev pub ByTelegram : List SubscriberRow → Type 0
  ByTelegram rows =
      (is_empty cfg.telegram_token ≡ true)
      ⊎ ((envs.telegram.list_fault ≡ false)
          × AllSent (codes "telegram") (codes "chat_id")
              (λ sub chat_id.
                Telegram.send wire (envs.telegram.visit sub).call cfg.telegram_token
                  cfg.telegram_base_url chat_id (Telegram.format_message wire job.signal))
              (active_subscribers envs.telegram rows))

  -- Every active subscriber of WhatsApp with a phone got the message.
  abbrev pub ByWhatsapp : List SubscriberRow → Type 0
  ByWhatsapp rows =
      (envs.whatsapp.list_fault ≡ false)
      × AllSent (codes "whatsapp") (codes "phone")
          (λ sub phone.
            Whatsapp.send wire (envs.whatsapp.visit sub).call cfg phone
              (Whatsapp.format_plain wire job.signal))
          (active_subscribers envs.whatsapp rows)

  -- Every active subscriber with a webhook got the payload.
  abbrev pub ByWebhook : List SubscriberRow → Type 0
  ByWebhook rows =
      (envs.webhook.list_fault ≡ false)
      × AllSent (codes "webhook") (codes "url")
          (λ sub url.
            Webhook.send p wire (envs.webhook.visit sub).call url
              (config_text (codes "secret") sub.config)
              (wire.payload job.signal_id job.signal envs.sent_at))
          (active_subscribers envs.webhook rows)

  -- MarkDelivered did not fail for any active MT4 subscriber that wants the symbol. Nothing is said
  -- of the entry: `copy` drops the error of the insertion, and to mark a missing row is no error.
  abbrev pub ByMt4copier : List SubscriberRow → Type 0
  ByMt4copier rows =
      (envs.mt4copier.list_fault ≡ false)
      × AllMarked envs.mt4copier job.signal.symbol (active_subscribers envs.mt4copier rows)

  telegram_iff :
      (db : Db)
      → ((Telegram.handle wire cfg.telegram_token cfg.telegram_base_url envs.telegram job db).0
          ≡ none)
        ↔ ByTelegram db.subscribers
  unfolding Telegram.handle
  telegram_iff db = elim (Bool-cases (is_empty cfg.telegram_token)) [
    | inl off ↦ rw off (ground arith)
    | inr on ↦
        let sent =
          notify_iff (codes "telegram") (codes "chat_id") envs.telegram
            (λ sub chat_id.
              Telegram.send wire (envs.telegram.visit sub).call cfg.telegram_token
                cfg.telegram_base_url chat_id (Telegram.format_message wire job.signal))
            job db in
        rw on (λ h. inr (sent.0 h), λ q. elim q [ inl off ↦ cc (off) | inr all ↦ sent.1 all ])
  ]

  subscribers-telegram :
      (db : Db)
      → let after =
          Telegram.handle wire cfg.telegram_token cfg.telegram_base_url envs.telegram job db in
        after.1.subscribers ≡ db.subscribers
  unfolding Telegram.handle
  subscribers-telegram db = elim (Bool-cases (is_empty cfg.telegram_token)) [
    | inl off ↦ rw off refl
    | inr on ↦ rw on (subscribers-notify _ _ envs.telegram _ job db)
  ]

  whatsapp_iff :
      (db : Db) (rows : List SubscriberRow)
      → db.subscribers ≡ rows
      → ((Whatsapp.handle wire cfg envs.whatsapp job db).0 ≡ none) ↔ ByWhatsapp rows
  unfolding Whatsapp.handle
  whatsapp_iff db rows same = rw (← same) (notify_iff _ _ envs.whatsapp _ job db)

  webhook_iff :
      (db : Db) (rows : List SubscriberRow)
      → db.subscribers ≡ rows
      → ((Webhook.handle p wire envs.sent_at envs.webhook job db).0 ≡ none) ↔ ByWebhook rows
  unfolding Webhook.handle
  webhook_iff db rows same = rw (← same) (notify_iff _ _ envs.webhook _ job db)

  subscribers-whatsapp :
      (db : Db) → (Whatsapp.handle wire cfg envs.whatsapp job db).1.subscribers ≡ db.subscribers
  unfolding Whatsapp.handle
  subscribers-whatsapp db = subscribers-notify _ _ envs.whatsapp _ job db

  subscribers-webhook :
      (db : Db)
      → (Webhook.handle p wire envs.sent_at envs.webhook job db).1.subscribers ≡ db.subscribers
  unfolding Webhook.handle
  subscribers-webhook db = subscribers-notify _ _ envs.webhook _ job db

  -- The worker's handlers together report no error for a job, so that it is acknowledged, exactly
  -- if all four succeed for the subscribers that were there at the start: each active subscriber
  -- of Telegram (unless there is no bot token), of WhatsApp and of a webhook that has an address
  -- was sent the signal, MarkDelivered did not fail for any active MT4 subscriber that wants the
  -- symbol (whether or not the entry that it marks was ever inserted), and no query for the
  -- subscribers failed.
  pub run_handlers-delivers :
      (db : Db)
      → ((run_handlers (handlers p wire cfg envs) job none db).0 ≡ none) ↔ (
          ByTelegram db.subscribers
          × ByWhatsapp db.subscribers
          × ByWebhook db.subscribers
          × ByMt4copier db.subscribers)
  unfolding handlers
  run_handlers-delivers db =
      let tg =
        (Telegram.handle wire cfg.telegram_token cfg.telegram_base_url envs.telegram job db).1 in
      let wa = (Whatsapp.handle wire cfg envs.whatsapp job tg).1 in
      let wb = (Webhook.handle p wire envs.sent_at envs.webhook job wa).1 in
      let same_tg = subscribers-telegram db in
      let same_wa = subscribers-whatsapp tg ∙ same_tg in
      let same_wb = subscribers-webhook wa ∙ same_wa in
      let by_wa = whatsapp_iff tg db.subscribers same_tg in
      let by_wb = webhook_iff wa db.subscribers same_wa in
      let by_mt4 = mt4copier_iff envs.mt4copier job wb db.subscribers same_wb in
      let quiet = run_handlers_iff (handlers p wire cfg envs) job none db in
      (
        λ h.
            let (t, rest) = (quiet.0 h).1 in
            let (a, rest') = rest in
            let (b, rest'') = rest' in
            ((telegram_iff db).0 t, by_wa.0 a, by_wb.0 b, by_mt4.0 rest''.0),
        λ (t, a, b, m).
            quiet.1 (refl, ((telegram_iff db).1 t, (by_wa.1 a, (by_wb.1 b, (by_mt4.1 m, tt))))),
      )
