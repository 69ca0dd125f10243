-- ===== src/Wiring/Order.antt =====
-- order/internal/app/di.go.
pub mod Sound
use rocket_maintenance.Common.{
  ℕ, suc, ◌≤◌, ◌≡◌, refl, String, Bool, true, false, List, [], ◌∷◌, Result, ok, err, ◌>>=◌, ◌>>◌,
  arith,
}
use Prim.Native.String.{◌++◌}
use rocket_maintenance.Wiring.{
  Container, Getter, construct, register, call, opened, lazily, empty, has, set,
}
use rocket_maintenance.Wiring.Laws.{
  IsSound, Grown, Grows, Adds, Adds-construct, Adds-register, Adds-call, Adds->>, Grows-construct,
  Grows->>, Grows-weaken, Grows-lazily, names_of, Once,
}

-- The parts, numbered so that each comes behind those that it needs.
pub data Part : Type 0 where
  db_pool migrator repository inventory_client payment_client converter sync_producer paid_producer
        order_producer service handler router consumer_group assembled_consumer order_consumer :
      Part

abbrev pub tag : Part → ℕ
tag db_pool = 0
tag migrator = 1
tag repository = 2
tag inventory_client = 3
tag payment_client = 4
tag converter = 5
tag sync_producer = 6
tag paid_producer = 7
tag order_producer = 8
tag service = 9
tag handler = 10
tag router = 11
tag consumer_group = 12
tag assembled_consumer = 13
tag order_consumer = 14

-- What each part registers at the closer.
abbrev pub name : Part → List String
name db_pool = "PGX Pool" ∷ []
name migrator = "Migrator" ∷ []
name inventory_client = "Inventory Service" ∷ []
name payment_client = "Payment Service" ∷ []
name sync_producer = "Kafka sync producer" ∷ []
name consumer_group = "Kafka consumer group" ∷ []
name _ = []

-- The calls of libraries that can fail, by what they do outside and the addresses that a panic names.
pub record Calls (W : Type 0) : Type 0 where
  pub new_pool : W → Result String (Unit {0}) × W
  pub ping : W → Result String (Unit {0}) × W
  pub dial_inventory : W → Result String (Unit {0}) × W
  pub dial_payment : W → Result String (Unit {0}) × W
  pub new_producer : W → Result String (Unit {0}) × W
  pub new_group : W → Result String (Unit {0}) × W
  pub inventory_address : String
  pub payment_address : String

abbrev pub pool_failed : String → String
pool_failed e = "failed to create pg pool: " ++ (e ++ "\n")

abbrev pub ping_failed : String → String
ping_failed e = "failed to ping db: " ++ (e ++ "\n")

module _ {W : Type 0} (calls : Calls W) where
  unfoldable pub get_db_pool : Getter Part W
  get_db_pool =
      lazily tag db_pool
        (construct >> (opened calls.new_pool pool_failed "PGX Pool" >> call calls.ping ping_failed))

  unfoldable pub get_migrator : Getter Part W
  unfolding get_db_pool
  get_migrator = lazily tag migrator (get_db_pool >> register "Migrator")

  unfoldable pub get_repository : Getter Part W
  unfolding get_db_pool
  get_repository = lazily tag repository (get_db_pool >> construct)

  unfoldable pub get_inventory_client : Getter Part W
  get_inventory_client = lazily tag inventory_client (
      construct
      >> opened calls.dial_inventory
          (λ e.
            "failed to connect to inventory service " ++ (calls.inventory_address ++ (": " ++ e)))
          "Inventory Service")

  unfoldable pub get_payment_client : Getter Part W
  get_payment_client = lazily tag payment_client (
      construct
      >> opened calls.dial_payment
          (λ e. "failed to connect to payment service " ++ (calls.payment_address ++ (": " ++ e)))
          "Payment Service")

  unfoldable pub get_converter : Getter Part W
  get_converter = lazily tag converter (construct >> construct)

  unfoldable pub get_sync_producer : Getter Part W
  get_sync_producer = lazily tag sync_producer (
      construct
      >> opened calls.new_producer (λ e. "failed to create sync producer: " ++ (e ++ "\n"))
          "Kafka sync producer")

  unfoldable pub get_paid_producer : Getter Part W
  unfolding get_sync_producer
  get_paid_producer = lazily tag paid_producer (get_sync_producer >> construct)

  unfoldable pub get_order_producer : Getter Part W
  unfolding get_paid_producer get_converter
  get_order_producer = lazily tag order_producer ((get_paid_producer >> get_converter) >> construct)

  unfoldable pub get_service : Getter Part W
  unfolding get_repository get_inventory_client get_payment_client get_order_producer
  get_service = lazily tag service (
      (get_repository >> get_inventory_client >> get_payment_client >> get_order_producer)
      >> construct)

  unfoldable pub get_handler : Getter Part W
  unfolding get_service
  get_handler = lazily tag handler (get_service >> construct)

  unfoldable pub get_router : Getter Part W
  get_router = lazily tag router (construct >> construct)

  unfoldable pub get_consumer_group : Getter Part W
  get_consumer_group = lazily tag consumer_group (
      construct
      >> opened calls.new_group (λ e. "failed to create consumer group: " ++ (e ++ "\n"))
          "Kafka consumer group")

  unfoldable pub get_assembled_consumer : Getter Part W
  unfolding get_consumer_group
  get_assembled_consumer = lazily tag assembled_consumer (get_consumer_group >> construct)

  unfoldable pub get_order_consumer : Getter Part W
  unfolding get_assembled_consumer get_converter get_service
  get_order_consumer =
      lazily tag order_consumer
        ((get_assembled_consumer >> get_converter >> get_service) >> construct)

  -- The getter of a part, and a sequence of calls of getters.
  unfoldable pub get : Part → Getter Part W
  get db_pool = get_db_pool
  get migrator = get_migrator
  get repository = get_repository
  get inventory_client = get_inventory_client
  get payment_client = get_payment_client
  get converter = get_converter
  get sync_producer = get_sync_producer
  get paid_producer = get_paid_producer
  get order_producer = get_order_producer
  get service = get_service
  get handler = get_handler
  get router = get_router
  get consumer_group = get_consumer_group
  get assembled_consumer = get_assembled_consumer
  get order_consumer = get_order_consumer

  unfoldable pub get_all : List Part → Getter Part W
  unfolding get
  get_all [] = construct
  get_all (p ∷ ps) = get p >> get_all ps
