-- ===== src/Inventory/Model.antt =====
-- inventory/internal/model: the part, the filter and the two errors. Floating-point fields and times
-- are only copied: they are their bit patterns. A nil slice or map is read like an empty one.
use rocket_maintenance.Common.{ℕ, String, Bool, ◌&&◌, List, Option, is_empty, Error, Sentinels}
use rocket_maintenance.Common.Int64.{Int64}

-- An int32: the constants are 0 to 4 in the order unknown, engine, fuel, porthole, wing.
abbrev pub Category : Type 0
Category = ℕ

abbrev pub Float64 : Type 0
Float64 = ℕ

abbrev pub Time : Type 0
Time = ℕ

pub record Dimensions : Type 0 where
  pub length : Float64
  pub width : Float64
  pub height : Float64
  pub weight : Float64

pub record Manufacturer : Type 0 where
  pub name : String
  pub country : String
  pub website : String

-- A value of type `any`: nil, the four types that the converters know, and any other.
pub data Value : Type 0 where
  nil_value : Value
  text : String → Value
  int : Int64 → Value
  double : Float64 → Value
  bool : Bool → Value
  other : ℕ → Value

pub record Part : Type 0 where
  pub id : String
  pub name : String
  pub description : String
  pub price_cents : Int64
  pub stock_quantity : Int64
  pub category : Category
  pub dimensions : Option Dimensions
  pub manufacturer : Option Manufacturer
  pub tags : List String
  pub metadata : List (String × Value)
  pub created_at : Option Time
  pub updated_at : Option Time

pub record PartsFilter : Type 0 where
  pub ids : List String
  pub names : List String
  pub categories : List Category
  pub manufacturer_countries : List String
  pub tags : List String

unfoldable pub empty : PartsFilter → Bool
empty f =
    is_empty f.ids
    && (is_empty f.names
        && (is_empty f.categories && (is_empty f.manufacturer_countries && is_empty f.tags)))

pub data Sentinel : Type 0 where
  part_not_found invalid_argument : Sentinel

abbrev tag : Sentinel → ℕ
tag part_not_found = 0
tag invalid_argument = 1

abbrev message_of : Sentinel → String
message_of part_not_found = "part not found"
message_of invalid_argument = "invalid argument"

instance abbrev pub inventory_sentinels : Sentinels Sentinel
inventory_sentinels = record { tag = tag; text = message_of }

abbrev pub InventoryError : Type 0
InventoryError = Error Sentinel
