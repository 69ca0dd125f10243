-- ===== src/Wiring/Notification.antt =====
-- notification/internal/app/di.go.
use rocket_maintenance.Common.{ℕ, String, Result, ◌>>◌}
use Prim.Native.String.{◌++◌}
use rocket_maintenance.Wiring.{Getter, construct, opened, lazily}

pub data Part : Type 0 where
  converter bot client service paid_group paid_kafka_consumer paid_consumer assembled_group
        assembled_kafka_consumer assembled_consumer :
      Part

abbrev pub tag : Part → ℕ
tag converter = 0
tag bot = 1
tag client = 2
tag service = 3
tag paid_group = 4
tag paid_kafka_consumer = 5
tag paid_consumer = 6
tag assembled_group = 7
tag assembled_kafka_consumer = 8
tag assembled_consumer = 9

pub record Calls (W : Type 0) : Type 0 where
  pub new_bot : W → Result String (Unit {0}) × W
  pub new_paid_group : W → Result String (Unit {0}) × W
  pub new_assembled_group : W → Result String (Unit {0}) × W

module _ {W : Type 0} (calls : Calls W) where
  unfoldable pub get_converter : Getter Part W
  get_converter = lazily tag converter (construct >> construct)

  unfoldable pub get_bot : Getter Part W
  get_bot = lazily tag bot (
      construct
      >> opened calls.new_bot (λ e. "failed to create telegram bot: " ++ (e ++ "\n"))
          "Telegram Bot")

  unfoldable pub get_client : Getter Part W
  unfolding get_bot
  get_client = lazily tag client (get_bot >> construct)

  unfoldable pub get_service : Getter Part W
  unfolding get_client
  get_service = lazily tag service (get_client >> construct)

  unfoldable pub get_paid_group : Getter Part W
  get_paid_group = lazily tag paid_group (
      construct
      >> opened calls.new_paid_group
          (λ e. "failed to create order.paid consumer group: " ++ (e ++ "\n"))
          "Kafka order.paid consumer group")

  unfoldable pub get_paid_kafka_consumer : Getter Part W
  unfolding get_paid_group
  get_paid_kafka_consumer = lazily tag paid_kafka_consumer (get_paid_group >> construct)

  unfoldable pub get_paid_consumer : Getter Part W
  unfolding get_paid_kafka_consumer get_converter get_service
  get_paid_consumer =
      lazily tag paid_consumer
        ((get_paid_kafka_consumer >> get_converter >> get_service) >> construct)

  unfoldable pub get_assembled_group : Getter Part W
  get_assembled_group = lazily tag assembled_group (
      construct
      >> opened calls.new_assembled_group
          (λ e. "failed to create order.assembled consumer group: " ++ (e ++ "\n"))
          "Kafka order.assembled consumer group")

  unfoldable pub get_assembled_kafka_consumer : Getter Part W
  unfolding get_assembled_group
  get_assembled_kafka_consumer =
      lazily tag assembled_kafka_consumer (get_assembled_group >> construct)

  unfoldable pub get_assembled_consumer : Getter Part W
  unfolding get_assembled_kafka_consumer get_converter get_service
  get_assembled_consumer =
      lazily tag assembled_consumer
        ((get_assembled_kafka_consumer >> get_converter >> get_service) >> construct)
