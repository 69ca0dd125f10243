-- ===== src/Assembly/Codec.antt =====
-- What one service writes, the other reads: the two kinds of event between order and assembly.
use rocket_maintenance.Common.{◌≡◌, refl, ◌<◌, ◌/◌, ok, map_err-eq-ok, ℕ, false, arith}
use rocket_maintenance.Common.Int64.{Int64, sign_bit, quot64, is_negative}
use rocket_maintenance.Common.Uuids.{UuidLib}
use rocket_maintenance.Proto.{ProtoLib}
use rocket_maintenance.Kafka.{Bytes}
use rocket_maintenance.Order.Model
use rocket_maintenance.Order.Events
use rocket_maintenance.Assembly.{
  AssembledShip, paid_order_of, paid_order_to_model, assembled_ship_to_payload, whole_seconds,
  assembled_ship_record,
}

module _ {W : Type 0} (uuids : UuidLib W) (proto : ProtoLib) where
  -- A paid order that the order service encodes is read by the assembly service with the same four
  -- ids and with the text of its payment method.
  pub paid_order_to_model-paid_order_to_model :
      {S : Type 0} (m : Model.PaidOrder) (b : Bytes) (w : W)
      → Events.paid_order_to_model uuids proto m ≡ ok b
      → paid_order_to_model {S = S} uuids proto b w ≡ (
        ok (record {
          event_id = m.event_id;
          order_id = m.order_id;
          user_id = m.user_id;
          payment_method = Events.method_text m.payment_method;
          transaction_id = m.transaction_id;
        }),
        w,
      )
  unfolding paid_order_to_model paid_order_of Events.paid_order_to_model
  paid_order_to_model-paid_order_to_model m b w h =
      let back =
        proto.unmarshal-marshal_paid (Events.paid_order_record uuids proto m) b
          (map_err-eq-ok _ _ h) in
      rw
        (
          back,
          paid_order_of,
          uuids.parse-to_string m.event_id,
          uuids.parse-to_string m.order_id,
          uuids.parse-to_string m.user_id,
          uuids.parse-to_string m.transaction_id,
        )
        refl

  pub assembled_ship_to_model-assembled_ship_to_payload :
      {S : Type 0} (m : AssembledShip) (b : Bytes) (w : W)
      → assembled_ship_to_payload {S = S} uuids proto m ≡ ok b
      → Events.assembled_ship_to_model uuids proto b w ≡ (
        ok (record {
          event_id = m.event_id;
          order_id = m.order_id;
          user_id = m.user_id;
          build_time = whole_seconds m.build_time;
        }),
        w,
      )
  unfolding assembled_ship_to_payload Events.assembled_ship_to_model
  assembled_ship_to_model-assembled_ship_to_payload m b w h =
      let back =
        proto.unmarshal-marshal_ship (assembled_ship_record uuids m) b (map_err-eq-ok _ _ h) in
      rw
        (
          back,
          uuids.parse-to_string m.event_id,
          uuids.parse-to_string m.order_id,
          uuids.parse-to_string m.user_id,
        )
        refl

quot64-eq : (d : Int64) (n : ℕ) → d < sign_bit → quot64 d n ≡ d / n
quot64-eq d n h = let positive : is_negative d ≡ false = ground arith in rw positive refl

-- The whole seconds of a time that is not negative.
pub whole_seconds-eq : (d : Int64) → d < sign_bit → whole_seconds d ≡ d / 1000000000
whole_seconds-eq d h =
    let milliseconds : d / 1000000 < sign_bit = omega (arith, h) in
    rw (quot64-eq d 1000000 h, quot64-eq (d / 1000000) 1000 milliseconds) (omega arith)
