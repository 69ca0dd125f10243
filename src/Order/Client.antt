-- ===== src/Order/Client.antt =====
-- order/internal/client: the gRPC clients of the inventory and payment services (grpc/) and their
-- conversions (converter/inventory.go, converter/patment.go). The generated clients are parameters.
pub mod Chain
pub mod Parts
pub mod Listing
mod Tests
use rocket_maintenance.Common.{
  ℕ, String, List, [], ◌∷◌, map, Option, none, some, Action, ◌>>=◌, pure, on_err, new_error,
}
use rocket_maintenance.Common.Uuids.{UuidLib}
use rocket_maintenance.Proto.{
  PbPart, PbDimensions, PbManufacturer, PbValue, PbPartsFilter, PbTimestamp, TimeLib, PbMethod,
  PbPayOrderRequest, PbPayOrderResponse, Status, unset_value,
}
use rocket_maintenance.Order.Model.{PaymentMethod, PayOrderParams, other_method, OrderError}
use rocket_maintenance.Order.Part.{Part, Dimensions, Manufacturer, Value, PartsFilter, Time}
use rocket_maintenance.Order.Ports.{InventoryClient, PaymentClient}

unfoldable pub dimensions_to_model : Option PbDimensions → Option Dimensions
dimensions_to_model none = none
dimensions_to_model (some d) =
    some (record { length = d.length; width = d.width; height = d.height; weight = d.weight })

unfoldable pub manufacturer_to_model : Option PbManufacturer → Option Manufacturer
manufacturer_to_model none = none
manufacturer_to_model (some m) =
    some (record { name = m.name; country = m.country; website = m.website })

-- An entry with nil or with an unset value is left out.
unfoldable pub metadata_to_model : List (String × Option PbValue) → List (String × Value)
metadata_to_model [] = []
metadata_to_model ((k, none) ∷ es) = metadata_to_model es
metadata_to_model ((k, some (PbValue.text s)) ∷ es) = (k, Value.text s) ∷ metadata_to_model es
metadata_to_model ((k, some (PbValue.int n)) ∷ es) = (k, Value.int n) ∷ metadata_to_model es
metadata_to_model ((k, some (PbValue.double d)) ∷ es) = (k, Value.double d) ∷ metadata_to_model es
metadata_to_model ((k, some (PbValue.bool b)) ∷ es) = (k, Value.bool b) ∷ metadata_to_model es
metadata_to_model ((k, some unset_value) ∷ es) = metadata_to_model es

unfoldable pub ts_to_time_ptr : TimeLib → Option PbTimestamp → Option Time
ts_to_time_ptr times none = none
ts_to_time_ptr times (some ts) = some (times.as_time ts)

abbrev pub zero_part : Part
zero_part = record {
  id = "";
  name = "";
  description = "";
  price_cents = 0;
  stock_quantity = 0;
  category = 0;
  dimensions = none;
  manufacturer = none;
  tags = [];
  metadata = [];
  created_at = none;
  updated_at = none;
}

unfoldable pub part_to_model : TimeLib → Option PbPart → Part
unfolding dimensions_to_model manufacturer_to_model metadata_to_model ts_to_time_ptr
part_to_model times none = zero_part
part_to_model times (some p) = record {
  id = p.uuid;
  name = p.name;
  description = p.description;
  price_cents = p.price_cents;
  stock_quantity = p.stock_quantity;
  category = p.category;
  dimensions = dimensions_to_model p.dimensions;
  manufacturer = manufacturer_to_model p.manufacturer;
  tags = p.tags;
  metadata = metadata_to_model p.metadata;
  created_at = ts_to_time_ptr times p.created_at;
  updated_at = ts_to_time_ptr times p.updated_at;
}

unfoldable pub parts_list_to_model : TimeLib → List (Option PbPart) → List Part
unfolding part_to_model
parts_list_to_model times = map (part_to_model times)

unfoldable pub parts_filter_to_pb : PartsFilter → PbPartsFilter
parts_filter_to_pb f = record {
  uuids = f.ids;
  names = f.names;
  categories = f.categories;
  manufacturer_countries = f.manufacturer_countries;
  tags = f.tags;
}

unfoldable pub payment_method_to_pb : PaymentMethod → PbMethod
payment_method_to_pb PaymentMethod.unknown = PbMethod.unknown
payment_method_to_pb PaymentMethod.card = PbMethod.card
payment_method_to_pb PaymentMethod.sbp = PbMethod.sbp
payment_method_to_pb PaymentMethod.credit_card = PbMethod.credit_card
payment_method_to_pb PaymentMethod.investor_money = PbMethod.investor_money
payment_method_to_pb (other_method _) = PbMethod.unknown

-- The text of a gRPC status, as the error that the service sees.
abbrev pub status_error : Status → OrderError
status_error s = new_error s.text

module _ {W : Type 0} (uuids : UuidLib W) where
  unfoldable pub pay_order_params_to_pb : PayOrderParams → PbPayOrderRequest
  unfolding payment_method_to_pb
  pay_order_params_to_pb params = record {
    order_uuid = uuids.to_string params.id;
    user_uuid = uuids.to_string params.user_id;
    payment_method = payment_method_to_pb params.payment_method;
  }

  -- The payment client's `PayOrder`, over the generated client.
  unfoldable pub payment_client :
      (Option PbPayOrderRequest → Action W Status PbPayOrderResponse) → PaymentClient W
  unfolding pay_order_params_to_pb
  payment_client grpc = record {
    pay_order = λ params. do
      paid ← on_err (grpc (some (pay_order_params_to_pb params))) status_error
      pure paid.transaction_uuid;
  }

-- The inventory client's `ListParts`, over the generated client.
unfoldable pub inventory_client :
    {W : Type 0}
    → TimeLib
    → (Option PbPartsFilter → Action W Status (List (Option PbPart)))
    → InventoryClient W
unfolding parts_filter_to_pb parts_list_to_model
inventory_client times grpc = record {
  list_parts = λ filter. do
    parts ← on_err (grpc (some (parts_filter_to_pb filter))) status_error
    pure (parts_list_to_model times parts);
}
