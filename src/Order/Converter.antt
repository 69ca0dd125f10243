-- ===== src/Order/Converter.antt =====
-- order/internal/converter/order.go: between the model and the generated OpenAPI types.
pub mod Money
use mathlib.Core.List
use rocket_maintenance.Common.{
  ℕ, ◌==◌, String, Bool, true, false, Option, none, some, List, [], ◌∷◌, ◌++◌, if◌then◌else◌,
}
use rocket_maintenance.Common.Int64.{Int64, is_negative, neg64, quot64, rem64}
use rocket_maintenance.Common.Bytes.{Bytes, show_int, show_int2}
use rocket_maintenance.Common.Uuids.{Uuid}
use rocket_maintenance.Order.Part.{Category}
use rocket_maintenance.Order.Model.{
  Order, OrderStatus, PaymentMethod, other_method, CreateOrderParams, CreateOrderResult,
  PayOrderParams, PayOrderResult,
}

-- The generated string types: their constants are the same strings as the model's.
pub data OapiMethod : Type 0 where
  unknown card sbp credit_card investor_money : OapiMethod
  other : String → OapiMethod

pub data OapiStatus : Type 0 where
  pending_payment paid completed cancelled : OapiStatus

pub record CreateOrderRequest : Type 0 where
  pub user_uuid : Uuid
  pub part_uuids : List Uuid

pub record CreateOrderResponse : Type 0 where
  pub uuid : Uuid
  pub total_price : Bytes

pub record PayOrderRequest : Type 0 where
  pub payment_method : OapiMethod

pub record PayOrderResponse : Type 0 where
  pub transaction_uuid : Uuid

-- `OptNil…`: a value, whether it is set, and whether it is null.
pub record OptNil (A : Type 0) : Type 0 where
  pub value : A
  pub set : Bool
  pub null : Bool

pub record OapiOrder : Type 0 where
  pub order_uuid : Uuid
  pub user_uuid : Uuid
  pub part_uuids : List Uuid
  pub total_price : Bytes
  pub transaction_uuid : OptNil Uuid
  pub payment_method : OptNil OapiMethod
  pub status : OapiStatus

unfoldable pub oapi_to_payment_method : OapiMethod → PaymentMethod
oapi_to_payment_method OapiMethod.unknown = PaymentMethod.unknown
oapi_to_payment_method OapiMethod.card = PaymentMethod.card
oapi_to_payment_method OapiMethod.sbp = PaymentMethod.sbp
oapi_to_payment_method OapiMethod.credit_card = PaymentMethod.credit_card
oapi_to_payment_method OapiMethod.investor_money = PaymentMethod.investor_money
oapi_to_payment_method (OapiMethod.other _) = PaymentMethod.unknown

-- `CategoryToPB`, which nothing calls: any other number is unknown.
unfoldable pub category_to_pb : Category → ℕ
category_to_pb c =
    if c == 1 then 1 else if c == 2 then 2 else if c == 3 then 3 else if c == 4 then 4 else 0

-- The conversion `orderv1.PaymentMethod(*pm)` keeps the string.
unfoldable pub cast_method : PaymentMethod → OapiMethod
cast_method PaymentMethod.unknown = OapiMethod.unknown
cast_method PaymentMethod.card = OapiMethod.card
cast_method PaymentMethod.sbp = OapiMethod.sbp
cast_method PaymentMethod.credit_card = OapiMethod.credit_card
cast_method PaymentMethod.investor_money = OapiMethod.investor_money
cast_method (other_method s) = OapiMethod.other s

unfoldable pub create_order_request_to_params : CreateOrderRequest → CreateOrderParams
create_order_request_to_params req = record { user_id = req.user_uuid; part_ids = req.part_uuids }

-- `%s%d.%02d`
unfoldable pub format_cents : Int64 → Bytes
format_cents cents =
    let abs = if is_negative cents then neg64 cents else cents in
    let sign : Bytes = if is_negative cents then b'-' ∷ [] else [] in
    sign ++ (show_int (quot64 abs 100) ++ (b'.' ∷ show_int2 (rem64 abs 100)))

unfoldable pub create_order_result_to_response : CreateOrderResult → CreateOrderResponse
unfolding format_cents
create_order_result_to_response res = record {
  uuid = res.id;
  total_price = format_cents res.total_price;
}

-- The user is filled in by the service.
unfoldable pub pay_order_request_to_params : Uuid → PayOrderRequest → PayOrderParams
unfolding oapi_to_payment_method
pay_order_request_to_params id req = record {
  id = id;
  user_id = 0;
  payment_method = oapi_to_payment_method req.payment_method;
}

unfoldable pub pay_order_result_to_response : PayOrderResult → PayOrderResponse
pay_order_result_to_response res = record { transaction_uuid = res.transaction_id }

unfoldable pub transaction_id_to_opt_nil : Option Uuid → OptNil Uuid
transaction_id_to_opt_nil none = record { value = 0; set = true; null = true }
transaction_id_to_opt_nil (some id) = record { value = id; set = true; null = false }

-- The zero value of the string type stands beside a null.
unfoldable pub payment_method_to_opt_nil : Option PaymentMethod → OptNil OapiMethod
unfolding cast_method
payment_method_to_opt_nil none = record { value = OapiMethod.other ""; set = true; null = true }
payment_method_to_opt_nil (some pm) = record { value = cast_method pm; set = true; null = false }

unfoldable pub order_status_to_oapi : OrderStatus → OapiStatus
order_status_to_oapi OrderStatus.pending_payment = OapiStatus.pending_payment
order_status_to_oapi OrderStatus.paid = OapiStatus.paid
order_status_to_oapi OrderStatus.completed = OapiStatus.completed
order_status_to_oapi OrderStatus.cancelled = OapiStatus.cancelled
order_status_to_oapi _ = OapiStatus.pending_payment

-- A nil order gives nil.
unfoldable pub order_to_oapi : Order → OapiOrder
unfolding format_cents transaction_id_to_opt_nil payment_method_to_opt_nil order_status_to_oapi
order_to_oapi m = record {
  order_uuid = m.id;
  user_uuid = m.user_id;
  part_uuids = m.part_ids;
  total_price = format_cents m.total_price;
  transaction_uuid = transaction_id_to_opt_nil m.transaction_id;
  payment_method = payment_method_to_opt_nil m.payment_method;
  status = order_status_to_oapi m.status;
}
