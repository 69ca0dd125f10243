-- ===== src/Order/Client/Tests.antt =====
-- The order service in front of the inventory's handler and of the payment's.
use rocket_maintenance.Common.{ℕ, ◌≡◌, refl, String, List, [], ◌∷◌, map, none, some, ok}
use rocket_maintenance.Proto.{Status, internal}
use rocket_maintenance.Inventory.Model
use rocket_maintenance.Inventory.Service.{PartRepository, list_parts}
use rocket_maintenance.Inventory.Transport.{list_parts_handler, convert_all}
use rocket_maintenance.Inventory.Converter.{
  part_from_model, pb_part, category_from_model, dimensions_from_model, manufacturer_from_model,
  metadata_from_model,
}
use rocket_maintenance.Inventory.Tests.{times, engine}
use rocket_maintenance.Order.Part
use rocket_maintenance.Order.Model.{Order, pending_payment}
use rocket_maintenance.Order.Repository.{order_by_id}
use rocket_maintenance.Order.InMemory.{World, service}
use rocket_maintenance.Order.Client.{
  inventory_client, parts_list_to_model, part_to_model, parts_filter_to_pb, dimensions_to_model,
  manufacturer_to_model, metadata_to_model, ts_to_time_ptr,
}
use rocket_maintenance.Order.Client.Parts.{seen}
use rocket_maintenance.Order.Client.Listing.{as_grpc, asked, inventory_client-list_parts_handler}

-- A part with both of its times.
abbrev known : Model.Part
known = record engine { created_at = some 7; updated_at = some 8 }

abbrev shelf : PartRepository ℕ
shelf = record { part_by_id = λ _ w. (ok known, w); list = λ _ w. (ok (known ∷ []), w) }

abbrev crash : String → Status
crash r = record { code = internal; text = r }

abbrev everything : Part.PartsFilter
everything = record {
  ids = [];
  names = [];
  categories = [];
  manufacturer_countries = [];
  tags = [];
}

lists :
    (inventory_client times (as_grpc (list_parts_handler times shelf) crash)).list_parts everything
      0
    ≡ (ok (seen known ∷ []), 0)
unfolding inventory_client list_parts_handler list_parts convert_all part_from_model pb_part
    parts_list_to_model part_to_model parts_filter_to_pb dimensions_to_model manufacturer_to_model
    metadata_to_model ts_to_time_ptr category_from_model dimensions_from_model
    manufacturer_from_model metadata_from_model
lists = refl

inventory_client-list_parts_handler_example :
    (qs : List Model.Part) × (shelf.list (asked everything) 0 ≡ (ok qs, 0))
    × ((seen known ∷ []) ≡ map seen qs)
inventory_client-list_parts_handler_example =
    inventory_client-list_parts_handler times shelf crash everything 0 lists

abbrev pending_order : Order
pending_order = record {
  id = 5;
  user_id = 9;
  part_ids = 1 ∷ [];
  total_price = 100;
  transaction_id = none;
  payment_method = none;
  status = pending_payment;
}

abbrev waiting : World
waiting = record {
  rows = λ _. some (record {
    user_id = 9;
    part_ids = 1 ∷ [];
    total_price = 100;
    transaction_id = none;
    payment_method = none;
    status = pending_payment;
  });
  next = 6;
  parts = [];
  sent = [];
}

reads_waiting : service.repo.order_by_id 5 waiting ≡ (ok pending_order, waiting)
unfolding order_by_id
reads_waiting = refl

abbrev fresh : World → String × World
fresh w = ("1111111", w)
