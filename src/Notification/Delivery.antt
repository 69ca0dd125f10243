-- ===== src/Notification/Delivery.antt =====
-- From an event of another service to the chats.
use rocket_maintenance.Common.{
  ◌≡◌, refl, sym, ◌∙◌, List, ok, map_err-eq-ok, failed, in_failure, wrap, on_err, on_err-eq-ok,
  on_err->>=-of-ok,
}
use rocket_maintenance.Common.Int64.{Int64}
use rocket_maintenance.Common.Uuids.{UuidLib}
use rocket_maintenance.Proto.{ProtoLib}
use rocket_maintenance.Kafka.{Bytes, Message}
use rocket_maintenance.Order.Model
use rocket_maintenance.Order.Events
use rocket_maintenance.Assembly
use rocket_maintenance.Notification.{
  PaidOrder, AssembledShip, Telegram, assembled_ship_to_model, ship_assembled_text,
  build_ship_assembled, notify_ship_assembled, order_assembled_handler,
}
use rocket_maintenance.Notification.Chats.{count, Delivered, send_each_ok}

abbrev heard : Model.PaidOrder → PaidOrder
heard m = record {
  event_id = m.event_id;
  order_id = m.order_id;
  user_id = m.user_id;
  payment_method = Events.method_text m.payment_method;
  transaction_id = m.transaction_id;
}

abbrev heard_ship : Assembly.AssembledShip → AssembledShip
heard_ship m = record {
  event_id = m.event_id;
  order_id = m.order_id;
  user_id = m.user_id;
  build_time = Assembly.whole_seconds m.build_time;
}

module _ {W : Type 0} (uuids : UuidLib W) (proto : ProtoLib) where
  assembled_ship_to_model-encoded :
      {S : Type 0} (m : Assembly.AssembledShip) (b : Bytes) (w : W)
      → Assembly.assembled_ship_to_payload {S = S} uuids proto m ≡ ok b
      → assembled_ship_to_model {S = S} uuids proto b w ≡ (ok (heard_ship m), w)
  unfolding assembled_ship_to_model Assembly.assembled_ship_to_payload
  assembled_ship_to_model-encoded m b w h =
      let back =
        proto.unmarshal-marshal_ship (Assembly.assembled_ship_record uuids m) b
          (map_err-eq-ok _ _ h) in
      rw
        (
          back,
          uuids.parse-to_string m.event_id,
          uuids.parse-to_string m.order_id,
          uuids.parse-to_string m.user_id,
        )
        refl

-- The iteration over a map meets each of its keys once.
abbrev pub MeetsAll : (List Int64 → List Int64) → Type 0
MeetsAll iteration = (xs : List Int64) (c : Int64) → count c (iteration xs) ≡ count c xs

module _ {W S : Type 0} (tg : Telegram W S) where
  -- If the iteration over a map meets each key once and the handler of a ship that the assembly
  -- service announced succeeds, every chat of the storage was sent, as often as it is there, the
  -- text with the order, the user and the build time, whose whole seconds are printed as if they
  -- were nanoseconds.
  pub order_assembled_handler_ok :
      (m : Assembly.AssembledShip) (msg : Message) (w : W) {w' : W}
      → MeetsAll tg.iteration
      → Assembly.assembled_ship_to_payload {S = S} tg.uuids tg.proto m ≡ ok msg.value
      → order_assembled_handler tg msg w ≡ (ok tt, w')
      → (ids : List Int64) × ((c : Int64) → count c ids ≡ count c (tg.storage w))
        × Delivered tg.send_message
            (ship_assembled_text tg.print_duration (record {
              order_id = tg.uuids.to_string m.order_id;
              user_id = tg.uuids.to_string m.user_id;
              build_time = Assembly.whole_seconds m.build_time;
            }))
            ids
            w
            w'
  unfolding order_assembled_handler notify_ship_assembled build_ship_assembled
  order_assembled_handler_ok m msg w all h done =
      let handled =
        on_err->>=-of-ok (assembled_ship_to_model tg.uuids tg.proto msg.value)
          (in_failure (wrap "converter assembled_ship_to_model error"))
          (λ event. on_err (notify_ship_assembled tg event) failed) w
          (assembled_ship_to_model-encoded tg.uuids tg.proto m msg.value w h) in
      let sent =
        on_err-eq-ok (notify_ship_assembled tg (heard_ship m)) failed w (sym handled ∙ done) in
      (
        tg.iteration (tg.storage w),
        all (tg.storage w),
        send_each_ok tg.send_message
            (build_ship_assembled tg.uuids tg.print_duration (heard_ship m))
            (tg.iteration (tg.storage w)) w sent,
      )
