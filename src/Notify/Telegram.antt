-- ===== src/Notify/Telegram.antt =====
-- internal/notify/telegram/telegram.go
use tradecast.Prelude.{
  ◌++◌, ◌==◌, Option, none, some, List, [], ◌∷◌, Text, codes, text_eq, is_empty, Result, format_int,
  if◌then◌else◌,
}
use tradecast.Types.{InboundSignal}
use tradecast.Consumer.{Handler}
use tradecast.Notify.{Request, Response, Wire, Env, notify, exchange}

unfoldable pub type_emoji : Text → Text
type_emoji t =
    if text_eq t (codes "OPEN")
    then codes "🟢"
    else if text_eq t (codes "CLOSE")
    then codes "🔴"
    else if text_eq t (codes "MODIFY")
    then codes "🔵"
    else if text_eq t (codes "PARTIAL")
    then codes "🟡"
    else codes "⚪"

unfoldable pub dir_emoji : Text → Text
dir_emoji d = if text_eq d (codes "BUY") then codes "📈" else codes "📉"

-- a line that is there if the level is
abbrev pub level_line : Wire → Text → Text → Option tradecast.Prelude.ℤ → Text
level_line wire opening closing none = []
level_line wire opening closing (some x) = opening ++ (wire.fixed 5 x ++ closing)

unfoldable pub format_message : Wire → InboundSignal → Text
unfolding type_emoji dir_emoji
format_message wire sig =
    (type_emoji sig.signal_type ++ codes " *" ++ sig.signal_type ++ codes "*\n")
    ++ (dir_emoji sig.direction ++ codes " *" ++ sig.direction ++ codes " " ++ sig.symbol)
    ++ (codes "*\n💰 `" ++ wire.fixed 5 sig.price ++ codes "`  📦 `" ++ wire.fixed 2 sig.lot)
    ++ codes "` lot"
    ++ level_line wire (codes "\n🛑 SL `") (codes "`") sig.sl
    ++ level_line wire (codes "  🎯 TP `") (codes "`") sig.tp
    ++ (codes "\n🎫 `" ++ format_int sig.ticket_id ++ codes "`  🕐 `" ++ wire.clock sig.timestamp)
    ++ codes "`"

abbrev pub check_status : Wire → Response → Option Text
check_status wire response =
    if response.status == 200
    then none
    else some (codes "telegram status " ++ wire.decimal response.status)

unfoldable pub send :
    Wire → (Request → Result Text Response) → Text → Text → Text → Text → Option Text
unfolding exchange
send wire call token base_url chat_id text =
    exchange wire call (codes "telegram: ") (check_status wire) (record {
      method = codes "POST";
      url = base_url ++ codes "/bot" ++ token ++ codes "/sendMessage";
      headers = (codes "Content-Type", codes "application/json") ∷ [];
      body = wire.strings (
          (codes "chat_id", chat_id)
          ∷ (codes "text", text)
          ∷ (codes "parse_mode", codes "Markdown")
          ∷ []);
    })

unfoldable pub handle : Wire → Text → Text → Env → Handler
unfolding notify
handle wire token base_url env job db =
    if is_empty token
    then (none, db)
    else notify (codes "telegram") (codes "chat_id") env
        (λ sub chat_id.
          send wire (env.visit sub).call token base_url chat_id (format_message wire job.signal))
        job db
