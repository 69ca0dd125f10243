-- ===== src/Order/Events.antt =====
-- What the order service tells other services and hears from them: converter/kafka.go, the producer
-- (service/producer/order/producer.go) and the consumer (service/consumer/order/consumer.go) of
-- order/internal.
use rocket_maintenance.Common.{
  String, Result, map_err, Action, Fault, failed, in_failure, pure, lift, on_err, ◌>>=◌, new_error,
  wrap,
}
use rocket_maintenance.Common.Uuids.{Uuid, UuidLib, must_parse, raw}
use rocket_maintenance.Proto.{PaidOrderRecord, ProtoLib}
use rocket_maintenance.Kafka.{Bytes, MessageHandler}
use rocket_maintenance.Order.Model.{
  OrderError, PaidOrder, AssembledShip, PaymentMethod, other_method,
}

-- `string(m)`
abbrev pub method_text : PaymentMethod → String
method_text PaymentMethod.unknown = "PAYMENT_METHOD_UNKNOWN"
method_text PaymentMethod.card = "PAYMENT_METHOD_CARD"
method_text PaymentMethod.sbp = "PAYMENT_METHOD_SBP"
method_text PaymentMethod.credit_card = "PAYMENT_METHOD_CREDIT_CARD"
method_text PaymentMethod.investor_money = "PAYMENT_METHOD_INVESTOR_MONEY"
method_text (other_method s) = s

module _ {W : Type 0} (uuids : UuidLib W) (proto : ProtoLib) where
  abbrev pub paid_order_record : PaidOrder → PaidOrderRecord
  paid_order_record m = record {
    event_uuid = uuids.to_string m.event_id;
    order_uuid = uuids.to_string m.order_id;
    user_uuid = uuids.to_string m.user_id;
    payment_method = method_text m.payment_method;
    transaction_uuid = uuids.to_string m.transaction_id;
  }

  unfoldable pub paid_order_to_model : PaidOrder → Result OrderError Bytes
  paid_order_to_model m =
      map_err (λ e. wrap "failed to unmarshal protobuf" (new_error e))
        (proto.marshal_paid (paid_order_record m))

  unfoldable pub send_order_paid :
      (Bytes → Bytes → Action W OrderError (Unit {0})) → PaidOrder → Action W OrderError (Unit {0})
  unfolding paid_order_to_model
  send_order_paid send event = do
    payload ←
        lift (map_err (wrap "converter paid_order_to_proto error") (paid_order_to_model event))
    on_err (send (raw event.order_id) payload) (wrap "producer to order.paid topic error")

  unfoldable pub assembled_ship_to_model : Bytes → Action W (Fault OrderError) AssembledShip
  assembled_ship_to_model bytes = do
    pb ← lift (
        map_err (λ e. failed (wrap "failed to unmarshal protobuf" (new_error e)))
          (proto.unmarshal_ship bytes))
    ev ← lift (must_parse uuids pb.event_uuid)
    ord ← lift (must_parse uuids pb.order_uuid)
    user ← lift (must_parse uuids pb.user_uuid)
    pure (record { event_id = ev; order_id = ord; user_id = user; build_time = pb.build_time_sec })

  unfoldable pub ship_assembled_handler :
      (Uuid → Action W OrderError (Unit {0})) → MessageHandler W OrderError
  unfolding assembled_ship_to_model
  ship_assembled_handler complete msg = do
    payload ←
        on_err (assembled_ship_to_model msg.value)
          (in_failure (wrap "converter assembled_ship_to_model error"))
    on_err (complete payload.order_id) failed
