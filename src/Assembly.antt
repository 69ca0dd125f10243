-- ===== src/Assembly.antt =====
-- assembly/internal: the events (model/), their conversion (converter/kafka.go) and the service that
-- turns a paid order into an assembled ship (service/assembly/service.go). The clock and the timer
-- are parameters; log lines are left out.
pub mod Codec
pub mod Handler
pub mod Wire
mod Tests
use rocket_maintenance.Common.{
  ℕ, String, Result, ok, err, map_err, Action, Fault, failed, in_failure, pure, lift, on_err, ◌>>=◌,
  ◌>>◌, Error, new_error, wrap,
}
use rocket_maintenance.Common.Int64.{Int64, add64, neg64, quot64}
use rocket_maintenance.Common.Uuids.{Uuid, UuidLib, must_parse, raw}
use rocket_maintenance.Proto.{PaidOrderRecord, AssembledShipRecord, ProtoLib}
use rocket_maintenance.Kafka.{Bytes, Message, MessageHandler}

pub record PaidOrder : Type 0 where
  pub event_id : Uuid
  pub order_id : Uuid
  pub user_id : Uuid
  pub payment_method : String
  pub transaction_id : Uuid

-- `BuildTime` is a `time.Duration`: a signed count of nanoseconds.
pub record AssembledShip : Type 0 where
  pub event_id : Uuid
  pub order_id : Uuid
  pub user_id : Uuid
  pub build_time : Int64

-- `d.Milliseconds() / 1000`
abbrev pub whole_seconds : Int64 → Int64
whole_seconds d = quot64 (quot64 d 1000000) 1000

module _ {W : Type 0} (uuids : UuidLib W) where
  abbrev pub assembled_ship_record : AssembledShip → AssembledShipRecord
  assembled_ship_record m = record {
    event_uuid = uuids.to_string m.event_id;
    order_uuid = uuids.to_string m.order_id;
    user_uuid = uuids.to_string m.user_id;
    build_time_sec = whole_seconds m.build_time;
  }

-- The error variables of the package are none; those of other packages are their texts.
module _ {W S : Type 0} (uuids : UuidLib W) (proto : ProtoLib) where
  -- The conversion behind `Unmarshal`.
  unfoldable pub paid_order_of : PaidOrderRecord → Action W (Fault (Error S)) PaidOrder
  paid_order_of pb = do
    ev ← lift (must_parse uuids pb.event_uuid)
    ord ← lift (must_parse uuids pb.order_uuid)
    user ← lift (must_parse uuids pb.user_uuid)
    tx ← lift (must_parse uuids pb.transaction_uuid)
    pure (record {
      event_id = ev;
      order_id = ord;
      user_id = user;
      payment_method = pb.payment_method;
      transaction_id = tx;
    })

  unfoldable pub paid_order_to_model : Bytes → Action W (Fault (Error S)) PaidOrder
  unfolding paid_order_of
  paid_order_to_model bytes = do
    pb ← lift (
        map_err (λ e. failed (wrap "failed to unmarshal protobuf" (new_error e)))
          (proto.unmarshal_paid bytes))
    paid_order_of pb

  unfoldable pub assembled_ship_to_payload : AssembledShip → Result (Error S) Bytes
  assembled_ship_to_payload m =
      map_err (λ e. wrap "failed to mashal protobuf" (new_error e))
        (proto.marshal_ship (assembled_ship_record uuids m))

-- `kafka.Producer` for the topic order.assembled, the clock and the timer: `wait` is the `select` on
-- the context and a new timer, with the context's error if that is done first; `now` is the
-- monotonic reading in nanoseconds.
pub record Outside (W S : Type 0) : Type 0 where
  pub uuids : UuidLib W
  pub proto : ProtoLib
  pub send : Bytes → Bytes → Action W (Error S) (Unit {0})
  pub now : W → Int64 × W
  pub wait : Action W (Error S) (Unit {0})

module _ {W S : Type 0} (out : Outside W S) where
  unfoldable pub send_assembled_ship : PaidOrder → Int64 → Action W (Error S) (Unit {0})
  unfolding assembled_ship_to_payload
  send_assembled_ship event build_time = do
    payload ← lift (
        map_err (wrap "converter assembled_ship_to_proto error") (
          assembled_ship_to_payload out.uuids out.proto (record {
            event_id = event.event_id;
            order_id = event.order_id;
            user_id = event.user_id;
            build_time = build_time;
          })))
    on_err (out.send (raw event.order_id) payload) (wrap "produce to order.assembled topic error")

  abbrev pub clock : Action W (Fault (Error S)) Int64
  clock w = let (t, w') = out.now w in (ok t, w')

  -- `paidOrderHandler` behind the wait: the build took as long as the wait did.
  unfoldable pub finish : PaidOrder → Int64 → Action W (Fault (Error S)) (Unit {0})
  unfolding send_assembled_ship
  finish event start = do
    end ← clock
    on_err (send_assembled_ship event (add64 end (neg64 start))) failed

  -- `paidOrderHandler` behind the decoding.
  unfoldable pub assemble : PaidOrder → Action W (Fault (Error S)) (Unit {0})
  unfolding finish
  assemble event = do start ← clock; on_err out.wait failed; finish event start

  unfoldable pub paid_order_handler : MessageHandler W (Error S)
  unfolding paid_order_to_model assemble
  paid_order_handler msg = do
    event ←
        on_err (paid_order_to_model out.uuids out.proto msg.value)
          (in_failure (wrap "converter paid_order_to_model error"))
    assemble event
