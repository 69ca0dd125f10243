-- ===== src/Wiring/Inventory.antt =====
-- inventory/internal/app/di.go. The indexes are created behind the client.
use rocket_maintenance.Common.{ℕ, String, Result, ◌>>◌}
use Prim.Native.String.{◌++◌}
use rocket_maintenance.Wiring.{Getter, construct, call, opened, lazily}

pub data Part : Type 0 where
  mongo collection repository service handler server : Part

abbrev pub tag : Part → ℕ
tag mongo = 0
tag collection = 1
tag repository = 2
tag service = 3
tag handler = 4
tag server = 5

pub record Calls (W : Type 0) : Type 0 where
  pub connect : W → Result String (Unit {0}) × W
  pub ping : W → Result String (Unit {0}) × W
  pub ensure_indexes : W → Result String (Unit {0}) × W

module _ {W : Type 0} (calls : Calls W) where
  unfoldable pub get_mongo : Getter Part W
  get_mongo = lazily tag mongo (
      construct
      >> (opened calls.connect (λ e. "failed to create mongodb client: " ++ (e ++ "\n"))
            "Mongo Client"
          >> call calls.ping (λ e. "failed to ping database: " ++ (e ++ "\n"))))

  unfoldable pub get_collection : Getter Part W
  unfolding get_mongo
  get_collection =
      lazily tag collection
        (get_mongo >> call calls.ensure_indexes (λ e. "failed to ensure indexes: " ++ (e ++ "\n")))

  unfoldable pub get_repository : Getter Part W
  unfolding get_collection
  get_repository = lazily tag repository (get_collection >> construct)

  unfoldable pub get_service : Getter Part W
  unfolding get_repository
  get_service = lazily tag service (get_repository >> construct)

  unfoldable pub get_handler : Getter Part W
  unfolding get_service
  get_handler = lazily tag handler (get_service >> construct)

  unfoldable pub get_server : Getter Part W
  unfolding get_handler
  get_server = lazily tag server (get_handler >> construct)
