-- ===== src/Inventory/Converter.antt =====
-- inventory/internal/converter/part.go. A failure is a panic, with its text.
use rocket_maintenance.Common.{
  ℕ, String, List, [], ◌∷◌, map, Option, none, some, Result, ok, err, Fault, panicked, ◌==◌,
  if◌then◌else◌,
}
use rocket_maintenance.Proto.{PbPart, PbDimensions, PbManufacturer, PbValue, PbPartsFilter, TimeLib}
use rocket_maintenance.Inventory.Model.{
  Category, Time, Dimensions, Manufacturer, Value, Part, PartsFilter, nil_value, other,
}

unfoldable pub category_from_model : Category → ℕ
category_from_model c =
    if c == 0
    then 0
    else if c == 1
    then 1
    else if c == 2
    then 2
    else if c == 3
    then 3
    else if c == 4
    then 4
    else 0

unfoldable pub category_to_model : ℕ → Category
category_to_model c =
    if c == 0
    then 0
    else if c == 1
    then 1
    else if c == 2
    then 2
    else if c == 3
    then 3
    else if c == 4
    then 4
    else 0

unfoldable pub categories_to_model : List ℕ → List Category
unfolding category_to_model
categories_to_model = map category_to_model

unfoldable pub dimensions_from_model : Option Dimensions → Option PbDimensions
dimensions_from_model none = none
dimensions_from_model (some d) =
    some (record { length = d.length; width = d.width; height = d.height; weight = d.weight })

unfoldable pub manufacturer_from_model : Option Manufacturer → Option PbManufacturer
manufacturer_from_model none = none
manufacturer_from_model (some m) =
    some (record { name = m.name; country = m.country; website = m.website })

-- An entry with nil or with a value of another type is left out.
unfoldable pub metadata_from_model : List (String × Value) → List (String × Option PbValue)
metadata_from_model [] = []
metadata_from_model ((k, nil_value) ∷ es) = metadata_from_model es
metadata_from_model ((k, Value.text s) ∷ es) = (k, some (PbValue.text s)) ∷ metadata_from_model es
metadata_from_model ((k, Value.int n) ∷ es) = (k, some (PbValue.int n)) ∷ metadata_from_model es
metadata_from_model ((k, Value.double d) ∷ es) =
    (k, some (PbValue.double d)) ∷ metadata_from_model es
metadata_from_model ((k, Value.bool b) ∷ es) = (k, some (PbValue.bool b)) ∷ metadata_from_model es
metadata_from_model ((k, other _) ∷ es) = metadata_from_model es

-- The message, once both times are read through their pointers.
unfoldable pub pb_part : TimeLib → Part → Time → Time → PbPart
unfolding category_from_model dimensions_from_model manufacturer_from_model metadata_from_model
pb_part times p created updated = record {
  uuid = p.id;
  name = p.name;
  description = p.description;
  price_cents = p.price_cents;
  stock_quantity = p.stock_quantity;
  category = category_from_model p.category;
  dimensions = dimensions_from_model p.dimensions;
  manufacturer = manufacturer_from_model p.manufacturer;
  tags = p.tags;
  metadata = metadata_from_model p.metadata;
  created_at = some (times.new created);
  updated_at = some (times.new updated);
}

abbrev pub nil_pointer : String
nil_pointer = "invalid memory address or nil pointer dereference"

unfoldable pub part_from_model : {E : Type 0} → TimeLib → Part → Result (Fault E) PbPart
unfolding pb_part
part_from_model times p = elim p.created_at [
  | none ↦ err (panicked nil_pointer)
  | some created ↦ elim p.updated_at [
    | none ↦ err (panicked nil_pointer)
    | some updated ↦ ok (pb_part times p created updated)
  ]
]

unfoldable pub parts_filter_to_model : Option PbPartsFilter → PartsFilter
unfolding categories_to_model
parts_filter_to_model none = record {
  ids = [];
  names = [];
  categories = [];
  manufacturer_countries = [];
  tags = [];
}
parts_filter_to_model (some f) = record {
  ids = f.uuids;
  names = f.names;
  categories = categories_to_model f.categories;
  manufacturer_countries = f.manufacturer_countries;
  tags = f.tags;
}
