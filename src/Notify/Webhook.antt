-- ===== src/Notify/Webhook.antt =====
-- internal/notify/webhook/webhook.go
use tradecast.Prelude.{
  ◌++◌, ◌&&◌, leb, ltb, Option, none, some, List, [], ◌∷◌, Text, codes, is_empty, Result,
  if◌then◌else◌,
}
use tradecast.Types.{Nanos}
use tradecast.Platform.{Platform}
use tradecast.Consumer.{Handler}
use tradecast.Notify.{Request, Response, Wire, Env, config_text, notify, exchange}

-- the signature of the body, if the subscriber has a secret
unfoldable pub signature_headers : Platform → Text → Text → List (Text × Text)
signature_headers p secret body =
    if is_empty secret
    then []
    else (codes "X-MT4Signal-Signature", codes "sha256=" ++ p.hmac_hex secret body) ∷ []

abbrev pub check_status : Wire → Response → Option Text
check_status wire response =
    if leb 200 response.status && ltb response.status 300
    then none
    else some (codes "webhook status " ++ wire.decimal response.status)

unfoldable pub send :
    Platform → Wire → (Request → Result Text Response) → Text → Text → Text → Option Text
unfolding exchange
send p wire call url secret body =
    exchange wire call (codes "webhook: ") (check_status wire) (record {
      method = codes "POST";
      url = url;
      headers =
          (codes "Content-Type", codes "application/json")
          ∷ (codes "User-Agent", codes "MT4Signal/1.0")
          ∷ signature_headers p secret body;
      body = body;
    })

-- `now` is the time of the payload.
unfoldable pub handle : Platform → Wire → Nanos → Env → Handler
unfolding notify
handle p wire now env job db =
    let body = wire.payload job.signal_id job.signal now in
    notify (codes "webhook") (codes "url") env
      (λ sub url.
        send p wire (env.visit sub).call url (config_text (codes "secret") sub.config) body)
      job db
