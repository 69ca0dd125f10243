-- ===== src/Assembly/Tests.antt =====
-- The assembly service with a clock that ticks by three seconds and a topic in memory.
use rocket_maintenance.Common.{
  ◌+◌, ◌≡◌, refl, List, [], ◌∷◌, ok, err, Action, failed, Error, new_error, on_err,
}
use rocket_maintenance.Common.Int64.{Int64}
use rocket_maintenance.Common.Uuids.{Uuid, UuidLib, raw}
use rocket_maintenance.Kafka.{Bytes}
use rocket_maintenance.Order.InMemory.{print, count, parse-print}
use rocket_maintenance.Order.Model.{OrderError}
use rocket_maintenance.Order.Events
use rocket_maintenance.Assembly.Wire.{proto, paid_order, carrying}
use rocket_maintenance.Assembly.{
  Outside, paid_order_handler, paid_order_to_model, paid_order_of, assemble, finish,
  send_assembled_ship, assembled_ship_to_payload,
}
use rocket_maintenance.Assembly.Handler.{
  elapsed, received, send_order_paid-paid_order_handler, paid_order_handler-ship_assembled_handler,
}

record World : Type 0 where
  time : Int64
  sent : List (Bytes × Bytes)

abbrev uuids : UuidLib World
uuids = record {
  to_string = print;
  parse = λ s. ok (count s);
  random = λ w. (0, w);
  parse-to_string = parse-print;
}

abbrev send : Bytes → Bytes → Action World (Error (Unit {0})) (Unit {0})
send k v w = (ok tt, record w { sent = (k, v) ∷ w.sent })

abbrev tick : World → Int64 × World
tick w = (w.time, record w { time = w.time + 3000000000 })

abbrev elapsing : Outside World (Unit {0})
elapsing = record { uuids = uuids; proto = proto; send = send; now = tick; wait = λ w. (ok tt, w) }

abbrev cancelled : Outside World (Unit {0})
cancelled = record elapsing { wait = λ w. (err (new_error "context canceled"), w) }

abbrev idle : World
idle = record { time = 0; sent = [] }

paid_bytes : Events.paid_order_to_model uuids proto paid_order ≡ ok (1 ∷ (2 ∷ (3 ∷ (4 ∷ []))))
unfolding Events.paid_order_to_model
paid_bytes = refl

-- The ship is sent under the sixteen bytes of the order's id, with a build time of three seconds.
handled :
    paid_order_handler elapsing (carrying (1 ∷ (2 ∷ (3 ∷ (4 ∷ []))))) idle
    ≡ (ok tt, record { time = 6000000000; sent = (raw 2, 1 ∷ (2 ∷ (3 ∷ (3 ∷ [])))) ∷ [] })
unfolding paid_order_handler paid_order_to_model paid_order_of assemble finish send_assembled_ship
    assembled_ship_to_payload
handled = refl

abbrev finishing : Uuid → Action World OrderError (Unit {0})
finishing id w = (ok tt, record w { time = id })

paid_order_handler-ship_assembled_handler_example :
    (b : Bytes) × (waited : World) × (elapsing.wait (tick idle).1 ≡ (ok tt, waited))
    × (assembled_ship_to_payload {S = Unit {0}} uuids proto (record {
      event_id = paid_order.event_id;
      order_id = 2;
      user_id = paid_order.user_id;
      build_time = elapsed elapsing idle waited;
    })
        ≡ ok b)
    × (send (raw 2) b (tick waited).1
        ≡ (ok tt, record { time = 6000000000; sent = (raw 2, 1 ∷ (2 ∷ (3 ∷ (3 ∷ [])))) ∷ [] }))
    × (Events.ship_assembled_handler uuids proto finishing (record (carrying []) { value = b }) idle
        ≡ on_err (finishing 2) failed idle)
paid_order_handler-ship_assembled_handler_example =
    paid_order_handler-ship_assembled_handler elapsing paid_order
      (carrying (1 ∷ (2 ∷ (3 ∷ (4 ∷ []))))) idle finishing (carrying []) idle paid_bytes handled

abbrev order_send : Bytes → Bytes → Action World OrderError (Unit {0})
order_send k v w = (ok tt, record w { sent = (k, v) ∷ w.sent })

announced :
    Events.send_order_paid uuids proto order_send paid_order idle
    ≡ (ok tt, record idle { sent = (raw 2, 1 ∷ (2 ∷ (3 ∷ (4 ∷ [])))) ∷ [] })
unfolding Events.send_order_paid Events.paid_order_to_model
announced = refl

send_order_paid-paid_order_handler_example :
    (b : Bytes) × (order_send (raw 2) b idle
      ≡ (ok tt, record idle { sent = (raw 2, 1 ∷ (2 ∷ (3 ∷ (4 ∷ [])))) ∷ [] }))
    × (paid_order_handler elapsing (record (carrying []) { value = b }) idle
        ≡ assemble elapsing (received paid_order) idle)
send_order_paid-paid_order_handler_example =
    send_order_paid-paid_order_handler elapsing order_send paid_order idle (carrying []) idle
      announced

-- A ship that took ten seconds is read back with a build time of ten nanoseconds.
build_time_read :
    Events.assembled_ship_to_model uuids proto (1 ∷ (2 ∷ (3 ∷ (10 ∷ [])))) idle
    ≡ (ok (record { event_id = 1; order_id = 2; user_id = 3; build_time = 10 }), idle)
unfolding Events.assembled_ship_to_model
build_time_read = refl
