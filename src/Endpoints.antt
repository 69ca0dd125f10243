-- ===== src/Endpoints.antt =====
-- The thin ends of the services: the gRPC interceptor that logs (inventory and payment,
-- internal/transport/grpc/interceptors/logging.go), the health endpoints (platform/grpc/health,
-- order/internal/transport/http/health) and the Telegram client (notification/internal/client/http/telegram).
-- gRPC, the bot and what a line does to the state outside are parameters.
use rocket_maintenance.Common.{
  String, Option, none, some, Result, ok, err, Action, Fault, failed, panicked,
}
use rocket_maintenance.Common.Int64.{Int64}

module _ {W E B : Type 0} (log : Option E → W → W) where
  -- The line behind the handler: with no error, or with its error. A panic passes it by.
  abbrev pub logged : Result (Fault E) B × W → Result (Fault E) B × W
  logged (ok b, w) = (ok b, log none w)
  logged (err (failed e), w) = (err (failed e), log (some e) w)
  logged (err (panicked r), w) = (err (panicked r), w)

  unfoldable pub unary_logging :
      {A : Type 0} → (A → Action W (Fault E) B) → A → Action W (Fault E) B
  unary_logging handler req w = logged (handler req w)

-- The answer of the health service, and the one message that `Watch` sends.
pub data ServingStatus : Type 0 where
  unknown_status serving not_serving service_unknown : ServingStatus

unfoldable pub check : ServingStatus
check = serving

unfoldable pub watch :
    {W E : Type 0} → (ServingStatus → Action W E (Unit {0})) → Action W E (Unit {0})
watch send = send serving

-- `HealthCheck`: an error of the write is logged.
module _ {W E : Type 0} (write : String → Action W E (Unit {0})) (log : E → W → W) where
  abbrev pub wrote : Result E (Unit {0}) × W → W
  wrote (ok _, w) = w
  wrote (err e, w) = log e w

  unfoldable pub health_check : W → W
  health_check w = wrote (write "SERVING" w)

-- bot.SendMessageParams
pub record SendMessageParams : Type 0 where
  pub chat_id : Int64
  pub text : String
  pub parse_mode : String

abbrev pub dropped : {E M : Type 0} → Result E M → Result E (Unit {0})
dropped (ok _) = ok tt
dropped (err e) = err e

-- `SendMessage`: the message that the bot returns is dropped. The parse mode is models.ParseModeMarkdownV1.
unfoldable pub send_message :
    {W E M : Type 0} → (SendMessageParams → Action W E M) → Int64 → String → Action W E (Unit {0})
send_message bot chat_id text w =
    let (r, w₁) = bot (record { chat_id = chat_id; text = text; parse_mode = "Markdown" }) w in
    (dropped r, w₁)
