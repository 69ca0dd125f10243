-- ===== src/Proto.antt =====
-- The messages of shared/proto, as the generated Go structs hold them. A nil message is `none` where
-- it is used; an enum is an int32 that may be outside its constants.
use rocket_maintenance.Common.{◌≡◌, ℕ, String, Bool, List, Option, Result, ok}
use rocket_maintenance.Common.Int64.{Int64}

-- payment/v1
pub data PbMethod : Type 0 where
  unknown card sbp credit_card investor_money : PbMethod
  other_enum : ℕ → PbMethod

pub record PbPayOrderRequest : Type 0 where
  pub order_uuid : String
  pub user_uuid : String
  pub payment_method : PbMethod

pub record PbPayOrderResponse : Type 0 where
  pub transaction_uuid : String

-- A gRPC status: the codes that the services answer with, and those of the transport.
pub data Code : Type 0 where
  canceled invalid_argument not_found internal : Code
  other_code : ℕ → Code

pub record Status : Type 0 where
  pub code : Code
  pub text : String

-- assembly/v1
pub record PaidOrderRecord : Type 0 where
  pub event_uuid : String
  pub order_uuid : String
  pub user_uuid : String
  pub payment_method : String
  pub transaction_uuid : String

pub record AssembledShipRecord : Type 0 where
  pub event_uuid : String
  pub order_uuid : String
  pub user_uuid : String
  pub build_time_sec : Int64

-- google.golang.org/protobuf: a payload that `Marshal` made is read back by `Unmarshal`. Each gives a
-- value or the text of an error (`Marshal` refuses text that is not UTF-8).
pub record ProtoLib : Type 0 where
  pub marshal_paid : PaidOrderRecord → Result String (List ℕ)
  pub unmarshal_paid : List ℕ → Result String PaidOrderRecord
  pub marshal_ship : AssembledShipRecord → Result String (List ℕ)
  pub unmarshal_ship : List ℕ → Result String AssembledShipRecord
  pub unmarshal-marshal_paid :
      (p : PaidOrderRecord) (b : List ℕ) → marshal_paid p ≡ ok b → unmarshal_paid b ≡ ok p
  pub unmarshal-marshal_ship :
      (p : AssembledShipRecord) (b : List ℕ) → marshal_ship p ≡ ok b → unmarshal_ship b ≡ ok p

-- inventory/v1: floating-point numbers are bit patterns, a map is the list of its entries.
pub record PbTimestamp : Type 0 where
  pub seconds : Int64
  pub nanos : ℕ

-- The oneof of a `Value`, which may be unset.
pub data PbValue : Type 0 where
  text : String → PbValue
  int : Int64 → PbValue
  double : ℕ → PbValue
  bool : Bool → PbValue
  unset_value : PbValue

pub record PbDimensions : Type 0 where
  pub length : ℕ
  pub width : ℕ
  pub height : ℕ
  pub weight : ℕ

pub record PbManufacturer : Type 0 where
  pub name : String
  pub country : String
  pub website : String

-- A category is an int32 whose constants are 0 to 4, in the order of the model's. A message pointer
-- and an entry of the metadata may be nil.
pub record PbPart : Type 0 where
  pub uuid : String
  pub name : String
  pub description : String
  pub price_cents : Int64
  pub stock_quantity : Int64
  pub category : ℕ
  pub dimensions : Option PbDimensions
  pub manufacturer : Option PbManufacturer
  pub tags : List String
  pub metadata : List (String × Option PbValue)
  pub created_at : Option PbTimestamp
  pub updated_at : Option PbTimestamp

pub record PbPartsFilter : Type 0 where
  pub uuids : List String
  pub names : List String
  pub categories : List ℕ
  pub manufacturer_countries : List String
  pub tags : List String

-- `timestamppb.New` and `AsTime`: a time is its bit pattern, and comes back as the same instant.
pub record TimeLib : Type 0 where
  pub new : ℕ → PbTimestamp
  pub as_time : PbTimestamp → ℕ
  pub as_time-new : (t : ℕ) → as_time (new t) ≡ t
