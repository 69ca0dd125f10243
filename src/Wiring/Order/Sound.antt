-- ===== src/Wiring/Order/Sound.antt =====
-- The getters of the order service keep its container sound (order/internal/app/di.go).
use rocket_maintenance.Common.{◌≡◌, refl, List, [], ◌∷◌, ok, arith}
use rocket_maintenance.Wiring.{Container, call, opened, empty}
use rocket_maintenance.Wiring.Laws.{
  IsSound, Grows, Adds-construct, Adds-register, Adds-call, Adds->>, Adds-opened, Grows-construct,
  Grows->>, Grows-weaken, Grows-lazily,
}
use rocket_maintenance.Wiring.Order.{
  Part, tag, name, Calls, get, get_all, pool_failed, ping_failed, db_pool, migrator, repository,
  inventory_client, payment_client, converter, sync_producer, paid_producer, order_producer,
  service, handler, router, consumer_group, assembled_consumer, order_consumer, get_db_pool,
  get_migrator, get_repository, get_inventory_client, get_payment_client, get_converter,
  get_sync_producer, get_paid_producer, get_order_producer, get_service, get_handler, get_router,
  get_consumer_group, get_assembled_consumer, get_order_consumer,
}

module _ {W : Type 0} (calls : Calls W) where
  get_db_pool-Grows : Grows tag name 1 (get_db_pool calls)
  unfolding get_db_pool
  get_db_pool-Grows = Grows-lazily tag name db_pool _ _ (Grows-construct tag name 0) (
      Adds->> ("PGX Pool" ∷ []) [] (opened calls.new_pool pool_failed "PGX Pool")
        (call calls.ping ping_failed) (Adds-opened calls.new_pool pool_failed "PGX Pool")
        (Adds-call calls.ping ping_failed))

  get_migrator-Grows : Grows tag name 2 (get_migrator calls)
  unfolding get_migrator
  get_migrator-Grows =
      Grows-lazily tag name migrator _ _
        (Grows-weaken tag name 1 1 _ (omega arith) get_db_pool-Grows) (Adds-register "Migrator")

  get_repository-Grows : Grows tag name 3 (get_repository calls)
  unfolding get_repository
  get_repository-Grows =
      Grows-lazily tag name repository _ _
        (Grows-weaken tag name 1 2 _ (omega arith) get_db_pool-Grows) Adds-construct

  get_inventory_client-Grows : Grows tag name 4 (get_inventory_client calls)
  unfolding get_inventory_client
  get_inventory_client-Grows =
      Grows-lazily tag name inventory_client _ _ (Grows-construct tag name 3)
        (Adds-opened _ _ "Inventory Service")

  get_payment_client-Grows : Grows tag name 5 (get_payment_client calls)
  unfolding get_payment_client
  get_payment_client-Grows =
      Grows-lazily tag name payment_client _ _ (Grows-construct tag name 4)
        (Adds-opened _ _ "Payment Service")

  get_converter-Grows : Grows tag name 6 (get_converter calls)
  unfolding get_converter
  get_converter-Grows =
      Grows-lazily tag name converter _ _ (Grows-construct tag name 5) Adds-construct

  get_sync_producer-Grows : Grows tag name 7 (get_sync_producer calls)
  unfolding get_sync_producer
  get_sync_producer-Grows =
      Grows-lazily tag name sync_producer _ _ (Grows-construct tag name 6)
        (Adds-opened _ _ "Kafka sync producer")

  get_paid_producer-Grows : Grows tag name 8 (get_paid_producer calls)
  unfolding get_paid_producer
  get_paid_producer-Grows =
      Grows-lazily tag name paid_producer _ _
        (Grows-weaken tag name 7 7 _ (omega arith) get_sync_producer-Grows) Adds-construct

  get_order_producer-Grows : Grows tag name 9 (get_order_producer calls)
  unfolding get_order_producer
  get_order_producer-Grows =
      Grows-lazily tag name order_producer _ _
        (Grows->> tag name 8 _ _ (Grows-weaken tag name 8 8 _ (omega arith) get_paid_producer-Grows)
          (Grows-weaken tag name 6 8 _ (omega arith) get_converter-Grows))
        Adds-construct

  get_service-Grows : Grows tag name 10 (get_service calls)
  unfolding get_service
  get_service-Grows =
      Grows-lazily tag name service _ _
        (Grows->> tag name 9 _ _
          (Grows->> tag name 9 _ _
            (Grows->> tag name 9 _ _
              (Grows-weaken tag name 3 9 _ (omega arith) get_repository-Grows)
              (Grows-weaken tag name 4 9 _ (omega arith) get_inventory_client-Grows))
            (Grows-weaken tag name 5 9 _ (omega arith) get_payment_client-Grows))
          (Grows-weaken tag name 9 9 _ (omega arith) get_order_producer-Grows))
        Adds-construct

  get_handler-Grows : Grows tag name 11 (get_handler calls)
  unfolding get_handler
  get_handler-Grows =
      Grows-lazily tag name handler _ _
        (Grows-weaken tag name 10 10 _ (omega arith) get_service-Grows) Adds-construct

  get_router-Grows : Grows tag name 12 (get_router calls)
  unfolding get_router
  get_router-Grows = Grows-lazily tag name router _ _ (Grows-construct tag name 11) Adds-construct

  get_consumer_group-Grows : Grows tag name 13 (get_consumer_group calls)
  unfolding get_consumer_group
  get_consumer_group-Grows =
      Grows-lazily tag name consumer_group _ _ (Grows-construct tag name 12)
        (Adds-opened _ _ "Kafka consumer group")

  get_assembled_consumer-Grows : Grows tag name 14 (get_assembled_consumer calls)
  unfolding get_assembled_consumer
  get_assembled_consumer-Grows =
      Grows-lazily tag name assembled_consumer _ _
        (Grows-weaken tag name 13 13 _ (omega arith) get_consumer_group-Grows) Adds-construct

  get_order_consumer-Grows : Grows tag name 15 (get_order_consumer calls)
  unfolding get_order_consumer
  get_order_consumer-Grows =
      Grows-lazily tag name order_consumer _ _
        (Grows->> tag name 14 _ _
          (Grows->> tag name 14 _ _
            (Grows-weaken tag name 14 14 _ (omega arith) get_assembled_consumer-Grows)
            (Grows-weaken tag name 6 14 _ (omega arith) get_converter-Grows))
          (Grows-weaken tag name 10 14 _ (omega arith) get_service-Grows))
        Adds-construct

  get-Grows : (p : Part) → Grows tag name 15 (get calls p)
  unfolding get
  get-Grows db_pool = Grows-weaken tag name 1 15 _ (omega arith) get_db_pool-Grows
  get-Grows migrator = Grows-weaken tag name 2 15 _ (omega arith) get_migrator-Grows
  get-Grows repository = Grows-weaken tag name 3 15 _ (omega arith) get_repository-Grows
  get-Grows inventory_client = Grows-weaken tag name 4 15 _ (omega arith) get_inventory_client-Grows
  get-Grows payment_client = Grows-weaken tag name 5 15 _ (omega arith) get_payment_client-Grows
  get-Grows converter = Grows-weaken tag name 6 15 _ (omega arith) get_converter-Grows
  get-Grows sync_producer = Grows-weaken tag name 7 15 _ (omega arith) get_sync_producer-Grows
  get-Grows paid_producer = Grows-weaken tag name 8 15 _ (omega arith) get_paid_producer-Grows
  get-Grows order_producer = Grows-weaken tag name 9 15 _ (omega arith) get_order_producer-Grows
  get-Grows service = Grows-weaken tag name 10 15 _ (omega arith) get_service-Grows
  get-Grows handler = Grows-weaken tag name 11 15 _ (omega arith) get_handler-Grows
  get-Grows router = Grows-weaken tag name 12 15 _ (omega arith) get_router-Grows
  get-Grows consumer_group = Grows-weaken tag name 13 15 _ (omega arith) get_consumer_group-Grows
  get-Grows assembled_consumer =
      Grows-weaken tag name 14 15 _ (omega arith) get_assembled_consumer-Grows
  get-Grows order_consumer = Grows-weaken tag name 15 15 _ (omega arith) get_order_consumer-Grows

  get_all-Grows : (ps : List Part) → Grows tag name 15 (get_all calls ps)
  unfolding get_all
  get_all-Grows [] = Grows-construct tag name 15
  get_all-Grows (p ∷ ps) =
      Grows->> tag name 15 (get calls p) (get_all calls ps) (get-Grows p) (get_all-Grows ps)

  -- After every sequence of calls of getters on an empty container of the order service that does
  -- not panic, each part is built once, and the closer holds exactly the functions of the built
  -- parts, in the order in which these were built.
  pub get_all-IsSound :
      (ps : List Part) (w : W) (c : Container Part W)
      → get_all calls ps (empty w) ≡ (ok tt, c)
      → IsSound tag name c
  get_all-IsSound ps w c e =
      (get_all-Grows ps (empty w) c (record { names = refl; once = tt }) e).sound
