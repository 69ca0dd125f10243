-- ===== src/Order/Model.antt =====
-- order/internal/model: the order, its statuses and payment methods, the parts that the inventory
-- reports, and the errors of the service.
use rocket_maintenance.Common.{ℕ, String, Bool, true, false, List, Option, Error, Sentinels}
use rocket_maintenance.Common.Int64.{Int64}
use rocket_maintenance.Common.Uuids.{Uuid}

-- The string type `PaymentMethod`: its five constants, and any other string.
pub data PaymentMethod : Type 0 where
  unknown card sbp credit_card investor_money : PaymentMethod
  other_method : String → PaymentMethod

-- The string type `OrderStatus`: its four constants, the empty string and any other string.
pub data OrderStatus : Type 0 where
  pending_payment paid completed cancelled unset : OrderStatus
  other_status : String → OrderStatus

-- `s == StatusPaid` and `s != ""`
abbrev pub is_paid : OrderStatus → Bool
is_paid paid = true
is_paid _ = false

abbrev pub is_set : OrderStatus → Bool
is_set unset = false
is_set _ = true

pub record Order : Type 0 where
  pub id : Uuid
  pub user_id : Uuid
  pub part_ids : List Uuid
  pub total_price : Int64
  pub transaction_id : Option Uuid
  pub payment_method : Option PaymentMethod
  pub status : OrderStatus

pub record CreateOrderParams : Type 0 where
  pub user_id : Uuid
  pub part_ids : List Uuid

pub record CreateOrderResult : Type 0 where
  pub id : Uuid
  pub total_price : Int64

pub record PayOrderParams : Type 0 where
  pub id : Uuid
  pub user_id : Uuid
  pub payment_method : PaymentMethod

pub record PayOrderResult : Type 0 where
  pub transaction_id : Uuid

pub record PaidOrder : Type 0 where
  pub event_id : Uuid
  pub order_id : Uuid
  pub user_id : Uuid
  pub payment_method : PaymentMethod
  pub transaction_id : Uuid

-- `BuildTime` is a `time.Duration`: a signed count of nanoseconds.
pub record AssembledShip : Type 0 where
  pub event_id : Uuid
  pub order_id : Uuid
  pub user_id : Uuid
  pub build_time : Int64

-- The sentinel errors of error.go.
pub data Sentinel : Type 0 where
  validation order_not_found order_conflict rate_limited bad_gateway : Sentinel
  service_unavailable unauthorized forbidden : Sentinel
  parts_out_of_stock unknown_status part_not_found : Sentinel

abbrev pub tag : Sentinel → ℕ
tag validation = 0
tag order_not_found = 1
tag order_conflict = 2
tag rate_limited = 3
tag bad_gateway = 4
tag service_unavailable = 5
tag unauthorized = 6
tag forbidden = 7
tag parts_out_of_stock = 8
tag unknown_status = 9
tag part_not_found = 10

abbrev pub text : Sentinel → String
text validation = "validation error"
text order_not_found = "order not found"
text order_conflict = "order conflict"
text rate_limited = "rate limited"
text bad_gateway = "bad gateway"
text service_unavailable = "service unavailable"
text unauthorized = "unauthorized user"
text forbidden = "forbidden"
text parts_out_of_stock = "parts out of stock"
text unknown_status = "unknown status"
text part_not_found = "part not found"

instance abbrev pub order_sentinels : Sentinels Sentinel
order_sentinels = record { tag = tag; text = text }

abbrev pub OrderError : Type 0
OrderError = Error Sentinel
