-- ===== src/Assembly/Handler.antt =====
-- From a paid order to its completion, through the assembly service.
use rocket_maintenance.Common.{
  ◌≡◌, sym, ap, ◌∙◌, ok, err, map_err, map_err-eq-ok, Action, failed, in_failure, Error, wrap, lift,
  on_err, >>=-eq-ok, on_err-eq-ok, on_err->>=-of-ok, on_err->>=-of-err,
}
use rocket_maintenance.Common.Int64.{Int64, add64, neg64}
use rocket_maintenance.Common.Uuids.{Uuid, raw}
use rocket_maintenance.Kafka.{Bytes, Message}
use rocket_maintenance.Order.Model
use rocket_maintenance.Order.Events
use rocket_maintenance.Assembly.{
  PaidOrder, AssembledShip, Outside, paid_order_to_model, assembled_ship_to_payload,
  send_assembled_ship, finish, assemble, paid_order_handler,
}
use rocket_maintenance.Assembly.Codec.{
  paid_order_to_model-paid_order_to_model, assembled_ship_to_model-assembled_ship_to_payload,
}

-- The paid order as the assembly service has it.
abbrev pub received : Model.PaidOrder → PaidOrder
received m = record {
  event_id = m.event_id;
  order_id = m.order_id;
  user_id = m.user_id;
  payment_method = Events.method_text m.payment_method;
  transaction_id = m.transaction_id;
}

abbrev pub ship_of : PaidOrder → Int64 → AssembledShip
ship_of event t = record {
  event_id = event.event_id;
  order_id = event.order_id;
  user_id = event.user_id;
  build_time = t;
}

module _ {W S : Type 0} (out : Outside W S) where
  handler-received :
      (m : Model.PaidOrder) (msg : Message) (w : W)
      → Events.paid_order_to_model out.uuids out.proto m ≡ ok msg.value
      → paid_order_handler out msg w ≡ assemble out (received m) w
  unfolding paid_order_handler
  handler-received m msg w h =
      on_err->>=-of-ok (paid_order_to_model out.uuids out.proto msg.value)
        (in_failure (wrap "converter paid_order_to_model error")) (assemble out) w
        (paid_order_to_model-paid_order_to_model out.uuids out.proto m msg.value w h)

  -- What was sent, when the sending succeeded.
  sent :
      (event : PaidOrder) (t : Int64) (w : W) {w' : W}
      → send_assembled_ship out event t w ≡ (ok tt, w')
      → (b : Bytes) × (assembled_ship_to_payload {S = S} out.uuids out.proto (ship_of event t)
          ≡ ok b)
        × (out.send (raw event.order_id) b w ≡ (ok tt, w'))
  unfolding send_assembled_ship
  sent event t w h =
      let (b, w₁, e, k) =
        >>=-eq-ok
          (lift (
            map_err (wrap "converter assembled_ship_to_proto error")
              (assembled_ship_to_payload out.uuids out.proto (ship_of event t))))
          (λ payload.
            on_err (out.send (raw event.order_id) payload)
              (wrap "produce to order.assembled topic error"))
          w h in
      (
        b,
        map_err-eq-ok _ _ (ap (λ p. p.0) e),
        on_err-eq-ok (out.send (raw event.order_id) b)
            (wrap "produce to order.assembled topic error") w (rw (sym (ap (λ p. p.1) e)) at k),
      )

  -- The time between the two readings of the clock, around a wait that ends in the state `waited`.
  abbrev pub elapsed : W → W → Int64
  elapsed w waited = add64 (out.now waited).0 (neg64 (out.now w).0)

  assembled :
      (event : PaidOrder) (w : W) {w' : W}
      → assemble out event w ≡ (ok tt, w')
      → (waited : W) × (out.wait (out.now w).1 ≡ (ok tt, waited))
        × (send_assembled_ship out event (elapsed w waited) (out.now waited).1 ≡ (ok tt, w'))
  unfolding assemble finish
  assembled event w h =
      let (u, waited, e, k) =
        >>=-eq-ok (on_err out.wait failed) (λ _. finish out event (out.now w).0) (out.now w).1 h in
      (
        waited,
        on_err-eq-ok out.wait failed (out.now w).1 e,
        on_err-eq-ok (send_assembled_ship out event (elapsed w waited)) failed (out.now waited).1 k,
      )

  -- When the assembly service's handler of a message that the order service made succeeds, it has
  -- read the clock, waited, read the clock again and sent one ship, under the key of the order,
  -- each in the state that the call before it left. The ship is the paid order's, with the time
  -- that the clock measured, and the order service's handler of it completes that very order.
  pub paid_order_handler-ship_assembled_handler :
      (m : Model.PaidOrder) (msg : Message) (w : W) {w' : W}
      (complete : Uuid → Action W Model.OrderError (Unit {0})) (ship : Message) (v : W)
      → Events.paid_order_to_model out.uuids out.proto m ≡ ok msg.value
      → paid_order_handler out msg w ≡ (ok tt, w')
      → (b : Bytes) × (waited : W) × (out.wait (out.now w).1 ≡ (ok tt, waited))
        × (assembled_ship_to_payload {S = S} out.uuids out.proto (record {
          event_id = m.event_id;
          order_id = m.order_id;
          user_id = m.user_id;
          build_time = elapsed w waited;
        })
            ≡ ok b)
        × (out.send (raw m.order_id) b (out.now waited).1 ≡ (ok tt, w'))
        × (Events.ship_assembled_handler out.uuids out.proto complete (record ship { value = b }) v
            ≡ on_err (complete m.order_id) failed v)
  unfolding Events.ship_assembled_handler
  paid_order_handler-ship_assembled_handler m msg w complete ship v h done =
      let (waited, wait, s) = assembled (received m) w (sym (handler-received m msg w h) ∙ done) in
      let t = elapsed w waited in
      let (b, e, k) = sent (received m) t (out.now waited).1 s in
      (
        b,
        waited,
        wait,
        e,
        k,
        on_err->>=-of-ok (Events.assembled_ship_to_model out.uuids out.proto b)
            (in_failure (wrap "converter assembled_ship_to_model error"))
            (λ payload. on_err (complete payload.order_id) failed) v
            (assembled_ship_to_model-assembled_ship_to_payload out.uuids out.proto
              (ship_of (received m) t) b v e),
      )

  -- When the order service announces a paid order without an error, it has sent one message, under
  -- the key of the order, and the assembly service's handler of that message assembles for exactly
  -- the ids and the payment method of that order.
  pub send_order_paid-paid_order_handler :
      (send : Bytes → Bytes → Action W Model.OrderError (Unit {0})) (m : Model.PaidOrder) (w : W)
      {w' : W} (msg : Message) (v : W)
      → Events.send_order_paid out.uuids out.proto send m w ≡ (ok tt, w')
      → (b : Bytes) × (send (raw m.order_id) b w ≡ (ok tt, w'))
        × (paid_order_handler out (record msg { value = b }) v ≡ assemble out (received m) v)
  unfolding Events.send_order_paid
  send_order_paid-paid_order_handler send m w msg v h =
      let (b, w₁, e, k) =
        >>=-eq-ok
          (lift (
            map_err (wrap "converter paid_order_to_proto error")
              (Events.paid_order_to_model out.uuids out.proto m)))
          (λ payload.
            on_err (send (raw m.order_id) payload) (wrap "producer to order.paid topic error"))
          w h in
      (
        b,
        on_err-eq-ok (send (raw m.order_id) b) (wrap "producer to order.paid topic error") w
            (rw (sym (ap (λ p. p.1) e)) at k),
        handler-received m (record msg { value = b }) v (map_err-eq-ok _ _ (ap (λ p. p.0) e)),
      )

  -- When the context is done before the timer, the handler fails with the context's error, and
  -- nothing is sent.
  pub paid_order_handler-cancelled :
      (m : Model.PaidOrder) (msg : Message) (w : W) {e : Error S} {w₁ : W}
      → Events.paid_order_to_model out.uuids out.proto m ≡ ok msg.value
      → out.wait (out.now w).1 ≡ (err e, w₁)
      → paid_order_handler out msg w ≡ (err (failed e), w₁)
  unfolding assemble
  paid_order_handler-cancelled m msg w h cancelled =
      handler-received m msg w h
      ∙ on_err->>=-of-err out.wait failed (λ _. finish out (received m) (out.now w).0) (out.now w).1
          cancelled
