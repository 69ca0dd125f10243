-- ===== src/Wiring/Payment.antt =====
-- payment/internal/app/di.go.
use rocket_maintenance.Common.{ℕ, ◌>>◌}
use rocket_maintenance.Wiring.{Getter, construct, lazily}

pub data Part : Type 0 where
  service handler server : Part

abbrev pub tag : Part → ℕ
tag service = 0
tag handler = 1
tag server = 2

module _ {W : Type 0} where
  unfoldable pub get_service : Getter Part W
  get_service = lazily tag service (construct >> construct)

  unfoldable pub get_handler : Getter Part W
  unfolding get_service
  get_handler = lazily tag handler (get_service >> construct)

  unfoldable pub get_server : Getter Part W
  unfolding get_handler
  get_server = lazily tag server (get_handler >> construct)
