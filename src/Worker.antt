-- ===== src/Worker.antt =====
-- cmd/worker/main.go: the handlers that the worker is built with.
pub mod Delivers
pub mod Frame
mod Tests
use tradecast.Prelude.{List, [], ◌∷◌}
use tradecast.Types.{Nanos}
use tradecast.Platform.{Platform}
use tradecast.Config.{NotifyConfig}
use tradecast.Consumer.{Handler}
use tradecast.Notify.{Wire, Env}
use tradecast.Notify.Telegram
use tradecast.Notify.Whatsapp
use tradecast.Notify.Webhook
use tradecast.Notify.Mt4copier

-- What each of the handlers meets for a job, and the time of the webhook's payload.
pub record Envs : Type 0 where
  pub telegram : Env
  pub whatsapp : Env
  pub webhook : Env
  pub mt4copier : Env
  pub sent_at : Nanos

-- the handlers in the order of RegisterHandler
unfoldable pub handlers : Platform → Wire → NotifyConfig → Envs → List Handler
handlers p wire cfg envs =
    Telegram.handle wire cfg.telegram_token cfg.telegram_base_url envs.telegram
    ∷ Whatsapp.handle wire cfg envs.whatsapp
    ∷ Webhook.handle p wire envs.sent_at envs.webhook
    ∷ Mt4copier.handle envs.mt4copier
    ∷ []
