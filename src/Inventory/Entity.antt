-- ===== src/Inventory/Entity.antt =====
-- inventory/internal/repository/part: the stored form of a part (model.go), its conversion and the
-- query of a filter (converter.go). `strings.ToLower` is a parameter.
use rocket_maintenance.Common.{
  String, List, [], ◌∷◌, ◌++◌, map, is_empty, Option, none, some, if◌then◌else◌,
}
use rocket_maintenance.Common.Int64.{Int64}
use rocket_maintenance.Inventory.Text.{trim_space}
use rocket_maintenance.Inventory.Model.{
  Category, Float64, Time, Dimensions, Manufacturer, Value, Part, PartsFilter,
}

pub record DimensionsEntity : Type 0 where
  pub length : Float64
  pub width : Float64
  pub height : Float64
  pub weight : Float64

pub record ManufacturerEntity : Type 0 where
  pub name : String
  pub country : String
  pub country_norm : String
  pub website : String

pub record PartEntity : Type 0 where
  pub id : String
  pub name : String
  pub description : String
  pub price_cents : Int64
  pub stock_quantity : Int64
  pub category : Category
  pub dimensions : Option DimensionsEntity
  pub manufacturer : Option ManufacturerEntity
  pub tags : List String
  pub metadata : List (String × Value)
  pub created_at : Option Time
  pub updated_at : Option Time

abbrev pub dimensions_to_model : Option DimensionsEntity → Option Dimensions
dimensions_to_model none = none
dimensions_to_model (some d) =
    some (record { length = d.length; width = d.width; height = d.height; weight = d.weight })

abbrev pub manufacturer_to_model : Option ManufacturerEntity → Option Manufacturer
manufacturer_to_model none = none
manufacturer_to_model (some m) =
    some (record { name = m.name; country = m.country; website = m.website })

unfoldable pub entity_to_model : PartEntity → Part
entity_to_model e = record {
  id = e.id;
  name = e.name;
  description = e.description;
  price_cents = e.price_cents;
  stock_quantity = e.stock_quantity;
  category = e.category;
  dimensions = dimensions_to_model e.dimensions;
  manufacturer = manufacturer_to_model e.manufacturer;
  tags = e.tags;
  metadata = e.metadata;
  created_at = e.created_at;
  updated_at = e.updated_at;
}

abbrev pub dimensions_entity : Option Dimensions → Option DimensionsEntity
dimensions_entity none = none
dimensions_entity (some d) =
    some (record { length = d.length; width = d.width; height = d.height; weight = d.weight })

-- The conditions of the query, one to a key: the value under the key is one of the list.
pub data Condition : Type 0 where
  id_in name_in tags_in country_norm_in : List String → Condition
  category_in : List Category → Condition

abbrev pub unless_empty : {A : Type 0} → (List A → Condition) → List A → List Condition
unless_empty c xs = if is_empty xs then [] else c xs ∷ []

module _ (to_lower : String → String) where
  unfoldable pub normalize_country : String → String
  normalize_country s = to_lower (trim_space s)

  abbrev pub manufacturer_entity : Option Manufacturer → Option ManufacturerEntity
  unfolding normalize_country
  manufacturer_entity none = none
  manufacturer_entity (some m) = some (record {
    name = m.name;
    country = m.country;
    country_norm = normalize_country m.country;
    website = m.website;
  })

  unfoldable pub entity_from_model : Part → PartEntity
  unfolding normalize_country
  entity_from_model p = record {
    id = p.id;
    name = p.name;
    description = p.description;
    price_cents = p.price_cents;
    stock_quantity = p.stock_quantity;
    category = p.category;
    dimensions = dimensions_entity p.dimensions;
    manufacturer = manufacturer_entity p.manufacturer;
    tags = p.tags;
    metadata = p.metadata;
    created_at = p.created_at;
    updated_at = p.updated_at;
  }

  unfoldable pub build_mongo_filter : PartsFilter → List Condition
  unfolding normalize_country
  build_mongo_filter f =
      unless_empty id_in f.ids
      ++ (unless_empty name_in f.names
          ++ (unless_empty category_in f.categories
              ++ (unless_empty tags_in f.tags
                  ++ unless_empty country_norm_in
                      (map normalize_country f.manufacturer_countries))))
