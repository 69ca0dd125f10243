-- ===== src/Order/Transport.antt =====
-- order/internal/transport/http/order/v1/order.go: the HTTP handlers and their error mapping.
pub mod Codes
pub mod Encoders
pub mod Lines
mod Tests
use rocket_maintenance.Common.{
  ℕ, String, Bool, true, false, is, message, if◌then◌else◌, Result, ok, err, Error, Action,
}
use rocket_maintenance.Common.Uuids.{Uuid}
use rocket_maintenance.Order.Model.{
  OrderError, Order, order_sentinels, validation, part_not_found, parts_out_of_stock, bad_gateway,
  service_unavailable, order_not_found, order_conflict, CreateOrderResult, PayOrderResult,
}
use rocket_maintenance.Order.Ports.{Service}
use rocket_maintenance.Order.Service
use rocket_maintenance.Order.Converter.{
  CreateOrderRequest, CreateOrderResponse, PayOrderRequest, PayOrderResponse, OapiOrder,
  create_order_request_to_params, create_order_result_to_response, pay_order_request_to_params,
  pay_order_result_to_response, order_to_oapi,
}

-- The generated error types; each has a code and a message.
pub data ErrorKind : Type 0 where
  bad_request validation_failed not_found conflict bad_gateway_failed unavailable : ErrorKind
  internal unauthorized forbidden rate_limited : ErrorKind

pub record ErrorBody : Type 0 where
  pub kind : ErrorKind
  pub code : ℕ
  pub text : String

pub data Response (A : Type 0) : Type 0 where
  success : A → Response A
  failure : ErrorBody → Response A

abbrev body : ErrorKind → ℕ → OrderError → ErrorBody
body kind code e = record { kind = kind; code = code; text = message e }

unfoldable pub map_error_to_create_order_res : OrderError → ErrorBody
map_error_to_create_order_res e =
    if is e validation
    then body validation_failed 400 e
    else if is e part_not_found
    then body not_found 404 e
    else if is e parts_out_of_stock
    then body validation_failed 422 e
    else if is e bad_gateway
    then body bad_gateway_failed 502 e
    else if is e service_unavailable
    then body unavailable 503 e
    else body internal 500 e

unfoldable pub map_error_to_pay_order_res : OrderError → ErrorBody
map_error_to_pay_order_res e =
    if is e validation
    then body validation_failed 400 e
    else if is e order_not_found
    then body not_found 404 e
    else if is e order_conflict
    then body conflict 409 e
    else if is e bad_gateway
    then body bad_gateway_failed 502 e
    else if is e service_unavailable
    then body unavailable 503 e
    else body internal 500 e

unfoldable pub map_error_to_get_order_res : OrderError → ErrorBody
map_error_to_get_order_res e =
    if is e order_not_found then body not_found 404 e else body internal 500 e

unfoldable pub map_error_to_cancel_order_res : OrderError → ErrorBody
map_error_to_cancel_order_res e =
    if is e order_not_found
    then body not_found 404 e
    else if is e order_conflict
    then body conflict 409 e
    else body internal 500 e

abbrev invalid_uuid : ErrorBody
invalid_uuid = record { kind = bad_request; code = 400; text = "invalid order_uuid" }

abbrev pub respond :
    {A B : Type 0} → (A → B) → (OrderError → ErrorBody) → Result OrderError A → Response B
respond f g (ok a) = success (f a)
respond f g (err e) = failure (g e)

module _ {W : Type 0} (svc : Service W) where
  -- `uuid.Parse(params.OrderUUID.String())`, and the handler behind it.
  unfoldable pub with_order_id :
      {B : Type 0} → Uuid → (Uuid → W → Response B × W) → W → Response B × W
  with_order_id id handler w = elim (svc.uuids.parse (svc.uuids.to_string id)) [
    | ok parsed ↦ handler parsed w
    | err _ ↦ (failure invalid_uuid, w)
  ]

  unfoldable pub create_order : CreateOrderRequest → W → Response CreateOrderResponse × W
  unfolding create_order_request_to_params map_error_to_create_order_res
  create_order req w =
      let (r, w') = Service.create svc (create_order_request_to_params req) w in
      (respond create_order_result_to_response map_error_to_create_order_res r, w')

  unfoldable pub pay_order : Uuid → PayOrderRequest → W → Response PayOrderResponse × W
  unfolding pay_order_request_to_params map_error_to_pay_order_res with_order_id
  pay_order order_uuid req = with_order_id order_uuid λ id w.
      let (r, w') = Service.pay svc (pay_order_request_to_params id req) w in
      (respond pay_order_result_to_response map_error_to_pay_order_res r, w')

  unfoldable pub get_order_by_uuid : Uuid → W → Response OapiOrder × W
  unfolding map_error_to_get_order_res with_order_id
  get_order_by_uuid order_uuid = with_order_id order_uuid λ id w.
      let (r, w') = Service.order_by_id svc id w in
      (respond order_to_oapi map_error_to_get_order_res r, w')

  -- No content on success.
  unfoldable pub cancel_order : Uuid → W → Response (Unit {0}) × W
  unfolding map_error_to_cancel_order_res with_order_id
  cancel_order order_uuid = with_order_id order_uuid λ id w.
      let (r, w') = Service.cancel svc id w in
      (respond (λ _. tt) map_error_to_cancel_order_res r, w')
