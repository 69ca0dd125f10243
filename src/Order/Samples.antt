-- ===== src/Order/Samples.antt =====
-- A first order and its environment, for examples.
use rocket_maintenance.Common.{◌≡◌, refl, none, [], ◌∷◌, arith}
use rocket_maintenance.Common.Uuids.{Uuid}
use rocket_maintenance.Order.Model.{CreateOrderParams, PayOrderParams, card}
use rocket_maintenance.Order.Part.{Part}
use rocket_maintenance.Order.Table.{OrderTable}
use rocket_maintenance.Order.Repository.{order_by_id, repository}
use rocket_maintenance.Order.Repository.Laws.{order_table}
use rocket_maintenance.Order.Service
use rocket_maintenance.Order.Lifecycle.{Quiet}
use rocket_maintenance.Order.InMemory.{World, service, engine}

abbrev pub engine_part : Part
engine_part = record {
  id = "1";
  name = "engine";
  description = "";
  price_cents = 12500050;
  stock_quantity = 10;
  category = 1;
  dimensions = none;
  manufacturer = none;
  tags = [];
  metadata = [];
  created_at = none;
  updated_at = none;
}

abbrev pub start : World
start = record { rows = λ _. none; next = 5; parts = engine_part ∷ []; sent = [] }

abbrev pub request : CreateOrderParams
request = record { user_id = 9; part_ids = 1 ∷ [] }

abbrev pub ordered : World
ordered = (Service.create service request start).1

abbrev pub table : OrderTable (repository engine)
table = order_table engine

abbrev pub payment : PayOrderParams
payment = record { id = 5; user_id = 0; payment_method = card }

pub quiet-read :
    (id k : Uuid) (w : World) → table.row (service.repo.order_by_id id w).1 k ≡ table.row w k
unfolding order_by_id
quiet-read id k w = ground arith

abbrev pub quiet : Quiet service table
quiet = record {
  read = quiet-read;
  list = λ _ _ _. refl;
  charge = λ _ _ _. refl;
  draw = λ _ _. refl;
  send = λ _ _ _. refl;
}
