-- ===== src/Notification.antt =====
-- notification/internal: the events (model/), their conversion (converter/kafka, converter/telegram),
-- the chats and the sending (service/telegram) and the two consumers (service/consumer). The Telegram
-- client is a parameter, as is the print of a duration; the mutex makes each operation one step.
pub mod Chats
pub mod Delivery
mod Tests
use Prim.Native.String.{◌++◌}
use rocket_maintenance.Common.{
  ℕ, String, Bool, true, false, ◌||◌, List, [], ◌∷◌, ◌==◌, if◌then◌else◌, Result, ok, err, map_err,
  Action, Fault, failed, in_failure, pure, lift, on_err, ◌>>=◌, ◌>>◌, Error, new_error, wrap,
}
use rocket_maintenance.Common.Int64.{Int64}
use rocket_maintenance.Common.Uuids.{Uuid, UuidLib, must_parse}
use rocket_maintenance.Proto.{PaidOrderRecord, AssembledShipRecord, ProtoLib}
use rocket_maintenance.Kafka.{Bytes, Message, MessageHandler}

pub record PaidOrder : Type 0 where
  pub event_id : Uuid
  pub order_id : Uuid
  pub user_id : Uuid
  pub payment_method : String
  pub transaction_id : Uuid

pub record PaidOrderNotification : Type 0 where
  pub order_id : String
  pub user_id : String
  pub payment_method : String
  pub transaction_id : String

-- `BuildTime` is a `time.Duration`: a signed count of nanoseconds.
pub record AssembledShip : Type 0 where
  pub event_id : Uuid
  pub order_id : Uuid
  pub user_id : Uuid
  pub build_time : Int64

pub record AssembledShipNotification : Type 0 where
  pub order_id : String
  pub user_id : String
  pub build_time : Int64

-- templates/order_paid.tmpl and templates/ship_assembled.tmpl, executed. The print of a duration is a
-- parameter, and writing to a buffer does not fail.
unfoldable pub order_paid_text : PaidOrderNotification → String
order_paid_text n =
    "💳 **ЗАКАЗ ОПЛАЧЕН!**\n\n🧾 **Событие:** Оплата подтверждена  \n📦 **Order ID:** "
    ++ (n.order_id
        ++ ("\n👤 **User ID:** "
            ++ (n.user_id
                ++ ("\n\n🏦 **Способ оплаты:** "
                    ++ (n.payment_method
                        ++ ("\n🔁 **Transaction ID:** "
                            ++ (n.transaction_id
                                ++ ("\n\n🟢 **Статус:** Платёж принят, заказ переведён в работу."))))))))

unfoldable pub ship_assembled_text : (Int64 → String) → AssembledShipNotification → String
ship_assembled_text print_duration n =
    "🚀 **КОРАБЛЬ СОБРАН И ГОТОВ К СТАРТУ!**\n\n🧾 **Событие:** Сборка завершена  \n📦 **Order ID:** "
    ++ (n.order_id
        ++ ("\n👤 **User ID:** "
            ++ (n.user_id
                ++ ("\n\n⏱\u{fe0f} **Время сборки:** "
                    ++ (print_duration n.build_time
                        ++ ("\n\n✅ **Статус:** Все системы прошли первичную проверку, корабль передан в ангар подготовки."))))))

module _ {W S : Type 0} (uuids : UuidLib W) (proto : ProtoLib) where
  unfoldable pub paid_order_to_model : Bytes → Action W (Fault (Error S)) PaidOrder
  paid_order_to_model bytes = do
    pb ← lift (
        map_err (λ e. failed (wrap "failed to unmarshal protobuf" (new_error e)))
          (proto.unmarshal_paid bytes))
    ev ← lift (must_parse uuids pb.event_uuid)
    ord ← lift (must_parse uuids pb.order_uuid)
    user ← lift (must_parse uuids pb.user_uuid)
    tx ← lift (must_parse uuids pb.transaction_uuid)
    pure (record {
      event_id = ev;
      order_id = ord;
      user_id = user;
      payment_method = pb.payment_method;
      transaction_id = tx;
    })

  unfoldable pub assembled_ship_to_model : Bytes → Action W (Fault (Error S)) AssembledShip
  assembled_ship_to_model bytes = do
    pb ← lift (
        map_err (λ e. failed (wrap "failed to unmarshal protobuf" (new_error e)))
          (proto.unmarshal_ship bytes))
    ev ← lift (must_parse uuids pb.event_uuid)
    ord ← lift (must_parse uuids pb.order_uuid)
    user ← lift (must_parse uuids pb.user_uuid)
    pure (record { event_id = ev; order_id = ord; user_id = user; build_time = pb.build_time_sec })

module _ {W : Type 0} (uuids : UuidLib W) where
  unfoldable pub build_paid_order : PaidOrder → String
  unfolding order_paid_text
  build_paid_order event = order_paid_text (record {
    order_id = uuids.to_string event.order_id;
    user_id = uuids.to_string event.user_id;
    payment_method = event.payment_method;
    transaction_id = uuids.to_string event.transaction_id;
  })

  unfoldable pub build_ship_assembled : (Int64 → String) → AssembledShip → String
  unfolding ship_assembled_text
  build_ship_assembled print_duration event = ship_assembled_text print_duration (record {
    order_id = uuids.to_string event.order_id;
    user_id = uuids.to_string event.user_id;
    build_time = event.build_time;
  })

abbrev pub is_known : Int64 → List Int64 → Bool
is_known c [] = false
is_known c (x ∷ xs) = c == x || is_known c xs

-- `AddChatID` on the map of the chats, which is the list of its keys.
unfoldable pub add_chat_id : Int64 → List Int64 → List Int64
add_chat_id c storage = if is_known c storage then storage else c ∷ storage

-- The service: its storage, the client's `SendMessage`, and the order in which a map is iterated.
pub record Telegram (W S : Type 0) : Type 0 where
  pub uuids : UuidLib W
  pub proto : ProtoLib
  pub print_duration : Int64 → String
  pub storage : W → List Int64
  pub send_message : Int64 → String → Action W (Error S) (Unit {0})
  pub iteration : List Int64 → List Int64

-- The loop over the chats.
unfoldable pub send_each :
    {W S : Type 0}
    → (Int64 → String → Action W (Error S) (Unit {0}))
    → String
    → List Int64
    → Action W (Error S) (Unit {0})
send_each send msg [] = pure tt
send_each send msg (c ∷ cs) = do send c msg; send_each send msg cs

module _ {W S : Type 0} (tg : Telegram W S) where
  unfoldable pub notify_paid_order : PaidOrder → Action W (Error S) (Unit {0})
  unfolding build_paid_order send_each
  notify_paid_order event w =
      send_each tg.send_message (build_paid_order tg.uuids event) (tg.iteration (tg.storage w)) w

  unfoldable pub notify_ship_assembled : AssembledShip → Action W (Error S) (Unit {0})
  unfolding build_ship_assembled send_each
  notify_ship_assembled event w =
      send_each tg.send_message (build_ship_assembled tg.uuids tg.print_duration event)
        (tg.iteration (tg.storage w)) w

  unfoldable pub order_paid_handler : MessageHandler W (Error S)
  unfolding paid_order_to_model notify_paid_order
  order_paid_handler msg = do
    event ←
        on_err (paid_order_to_model tg.uuids tg.proto msg.value)
          (in_failure (wrap "converter paid_order_to_model error"))
    on_err (notify_paid_order event) failed

  unfoldable pub order_assembled_handler : MessageHandler W (Error S)
  unfolding assembled_ship_to_model notify_ship_assembled
  order_assembled_handler msg = do
    event ←
        on_err (assembled_ship_to_model tg.uuids tg.proto msg.value)
          (in_failure (wrap "converter assembled_ship_to_model error"))
    on_err (notify_ship_assembled event) failed
