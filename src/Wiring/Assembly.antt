-- ===== src/Wiring/Assembly.antt =====
-- assembly/internal/app/di.go.
use rocket_maintenance.Common.{◌≡◌, refl, Bool, true, false, ok, ℕ, String, Result, ◌>>◌}
use Prim.Native.String.{◌++◌}
use rocket_maintenance.Wiring.{Container, Getter, construct, opened, lazily, has, set}

pub data Part : Type 0 where
  consumer_group paid_consumer sync_producer assembled_producer converter service : Part

abbrev pub tag : Part → ℕ
tag consumer_group = 0
tag paid_consumer = 1
tag sync_producer = 2
tag assembled_producer = 3
tag converter = 4
tag service = 5

pub record Calls (W : Type 0) : Type 0 where
  pub new_group : W → Result String (Unit {0}) × W
  pub new_producer : W → Result String (Unit {0}) × W

module _ {W : Type 0} (calls : Calls W) where
  unfoldable pub get_consumer_group : Getter Part W
  get_consumer_group = lazily tag consumer_group (
      construct
      >> opened calls.new_group (λ e. "failed to create consumer group: " ++ (e ++ "\n"))
          "Kafka consumer group")

  unfoldable pub get_paid_consumer : Getter Part W
  unfolding get_consumer_group
  get_paid_consumer = lazily tag paid_consumer (get_consumer_group >> construct)

  unfoldable pub get_sync_producer : Getter Part W
  get_sync_producer = lazily tag sync_producer (
      construct
      >> opened calls.new_producer (λ e. "failed to create sync producer: " ++ (e ++ "\n"))
          "Kafka sync producer")

  unfoldable pub get_assembled_producer : Getter Part W
  unfolding get_sync_producer
  get_assembled_producer = lazily tag assembled_producer (get_sync_producer >> construct)

  unfoldable pub get_converter : Getter Part W
  get_converter = lazily tag converter (construct >> construct)

  -- `AssemblyService` builds the service when the consumer group is nil, not when the service is.
  unfoldable pub get_service : Getter Part W
  unfolding get_paid_consumer get_assembled_producer get_converter
  get_service c = elim (has tag consumer_group c.built) [
    | true ↦ (ok tt, c)
    | false ↦ (get_paid_consumer >> get_assembled_producer >> get_converter >> set service) c
  ]

  -- Once the consumer group is there, the getter builds nothing: a service that is nil stays nil.
  pub get_service-nil :
      (c : Container Part W) (s : Bool)
      → has tag consumer_group c.built ≡ true
      → has tag service c.built ≡ s
      → (get_service c ≡ (ok tt, c)) × (has tag service (get_service c).1.built ≡ s)
  unfolding get_service
  get_service-nil c s h k = rw (h, get_service) (refl, k)
