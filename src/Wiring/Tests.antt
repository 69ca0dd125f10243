-- ===== src/Wiring/Tests.antt =====
-- The start of the order service with libraries that do not fail, and of the assembly service.
use rocket_maintenance.Common.{ℕ, ◌≡◌, refl, String, false, List, [], ◌∷◌, Result, ok}
use rocket_maintenance.Wiring.{Container, empty, has, lazily, opened}
use rocket_maintenance.Wiring.Laws.{IsSound}
use rocket_maintenance.Wiring.Order
use rocket_maintenance.Wiring.Order.Sound.{get_all-IsSound}
use rocket_maintenance.Wiring.Assembly

abbrev World : Type 0
World = ℕ

abbrev fine : World → Result String (Unit {0}) × World
fine w = (ok tt, w)

abbrev calls : Order.Calls World
calls = record {
  new_pool = fine;
  ping = fine;
  dial_inventory = fine;
  dial_payment = fine;
  new_producer = fine;
  new_group = fine;
  inventory_address = "inventory:50051";
  payment_address = "payment:50052";
}

-- What `initTables`, `initServer` and `run` ask for.
abbrev asked : List Order.Part
asked = Order.migrator ∷ Order.handler ∷ Order.router ∷ Order.order_consumer ∷ []

abbrev started : Container Order.Part World
started = (Order.get_all calls asked (empty 0)).1

starts : Order.get_all calls asked (empty 0) ≡ (ok tt, started)
unfolding Order.get_all Order.get Order.get_migrator Order.get_db_pool Order.get_handler
    Order.get_service Order.get_repository Order.get_inventory_client Order.get_payment_client
    Order.get_order_producer Order.get_paid_producer Order.get_sync_producer Order.get_converter
    Order.get_router Order.get_order_consumer Order.get_assembled_consumer Order.get_consumer_group
    lazily opened
starts = refl

registers :
    started.registered
    ≡ "PGX Pool" ∷ "Migrator" ∷ "Inventory Service" ∷ "Payment Service" ∷ "Kafka sync producer"
      ∷ "Kafka consumer group" ∷ []
unfolding Order.get_all Order.get Order.get_migrator Order.get_db_pool Order.get_handler
    Order.get_service Order.get_repository Order.get_inventory_client Order.get_payment_client
    Order.get_order_producer Order.get_paid_producer Order.get_sync_producer Order.get_converter
    Order.get_router Order.get_order_consumer Order.get_assembled_consumer Order.get_consumer_group
    lazily opened
registers = refl

get_all-IsSound_example : IsSound Order.tag Order.name started
get_all-IsSound_example = get_all-IsSound calls asked 0 started starts

abbrev brokers : Assembly.Calls World
brokers = record { new_group = fine; new_producer = fine }

-- The service is asked for behind its consumer group, and is nil.
abbrev grouped : Container Assembly.Part World
grouped = (Assembly.get_service brokers (Assembly.get_consumer_group brokers (empty 0)).1).1

no_service : has Assembly.tag Assembly.service grouped.built ≡ false
unfolding Assembly.get_service Assembly.get_consumer_group lazily opened
no_service = refl
