-- ===== src/Notify/Whatsapp.antt =====
-- internal/notify/whatsapp/whatsapp.go
use tradecast.Prelude.{
  ◌++◌, ◌==◌, ◌&&◌, leb, ltb, Option, none, some, [], ◌∷◌, Text, codes, text_eq, Result, format_int,
  if◌then◌else◌,
}
use tradecast.Types.{InboundSignal}
use tradecast.Config.{NotifyConfig}
use tradecast.Consumer.{Handler}
use tradecast.Notify.{Request, Response, Wire, Env, notify, exchange}
use tradecast.Notify.Telegram.{type_emoji, level_line}

unfoldable pub format_plain : Wire → InboundSignal → Text
format_plain wire sig =
    (type_emoji sig.signal_type ++ codes " " ++ sig.signal_type ++ codes " Signal\n")
    ++ (sig.direction ++ codes " " ++ sig.symbol ++ codes "\nPrice: ")
    ++ (wire.fixed 5 sig.price ++ codes "  Lot: " ++ wire.fixed 2 sig.lot)
    ++ level_line wire (codes "\nSL: ") [] sig.sl
    ++ level_line wire (codes "\nTP: ") [] sig.tp
    ++ (codes "\nTicket: " ++ format_int sig.ticket_id)

abbrev pub check_twilio : Wire → Response → Option Text
check_twilio wire response =
    if leb 200 response.status && ltb response.status 300
    then none
    else some (codes "twilio " ++ wire.decimal response.status ++ codes ": " ++ response.body)

unfoldable pub twilio :
    Wire → (Request → Result Text Response) → NotifyConfig → Text → Text → Option Text
unfolding exchange
twilio wire call cfg to msg = exchange wire call (codes "twilio: ") (check_twilio wire) (record {
  method = codes "POST";
  url =
      codes "https://api.twilio.com/2010-04-01/Accounts/"
      ++ cfg.twilio_sid
      ++ codes "/Messages.json";
  headers =
      (
        codes "Authorization",
        codes "Basic " ++ wire.base64 (cfg.twilio_sid ++ codes ":" ++ cfg.twilio_token),
      )
      ∷ (codes "Content-Type", codes "application/x-www-form-urlencoded")
      ∷ [];
  body = wire.query (
      (codes "From", codes "whatsapp:" ++ cfg.twilio_from)
      ∷ (codes "To", codes "whatsapp:" ++ to)
      ∷ (codes "Body", msg)
      ∷ []);
})

abbrev pub check_callmebot : Wire → Response → Option Text
check_callmebot wire response =
    if response.status == 200
    then none
    else some (codes "callmebot " ++ wire.decimal response.status)

unfoldable pub callmebot :
    Wire → (Request → Result Text Response) → NotifyConfig → Text → Text → Option Text
unfolding exchange
callmebot wire call cfg phone msg =
    exchange wire call (codes "callmebot: ") (check_callmebot wire) (record {
      method = codes "GET";
      url =
          codes "https://api.callmebot.com/whatsapp.php?"
          ++ wire.query (
              (codes "phone", phone)
              ∷ (codes "text", msg)
              ∷ (codes "apikey", cfg.call_me_bot_api_key)
              ∷ []);
      headers = [];
      body = [];
    })

-- the switch over the provider
unfoldable pub send :
    Wire → (Request → Result Text Response) → NotifyConfig → Text → Text → Option Text
unfolding twilio callmebot
send wire call cfg phone msg =
    if text_eq cfg.whats_app_provider (codes "twilio")
    then twilio wire call cfg phone msg
    else if text_eq cfg.whats_app_provider (codes "callmebot")
    then callmebot wire call cfg phone msg
    else some (codes "unknown provider: " ++ cfg.whats_app_provider)

unfoldable pub handle : Wire → NotifyConfig → Env → Handler
unfolding notify
handle wire cfg env job db =
    notify (codes "whatsapp") (codes "phone") env
      (λ sub phone. send wire (env.visit sub).call cfg phone (format_plain wire job.signal)) job db
