-- ===== src/Payment.antt =====
-- payment/internal: the validation and the service (service/payment/service.go, model/payment.go),
-- the converters (converter/payment.go) and the gRPC handler (transport/grpc/payment/v1/payment.go)
-- with its interceptor against nil requests.
pub mod Outcome
mod Tests
use text.Mathlib.Text.{◌==◌ as str_eq}
use rocket_maintenance.Common.{
  ℕ, String, Bool, true, false, ◌||◌, Option, none, some, Error, Sentinels, new_error, wrap, is,
  message, Result, ok, err, Action, lift, on_err, ◌>>=◌, if◌then◌else◌,
}
use rocket_maintenance.Proto.{
  PbMethod, other_enum, PbPayOrderRequest, PbPayOrderResponse, Status, canceled, invalid_argument,
  internal,
}

-- An int: the five constants, and any other value.
pub data Method : Type 0 where
  unknown card sbp credit_card investor_money : Method
  other_int : ℕ → Method

pub record Params : Type 0 where
  pub order_id : String
  pub user_id : String
  pub method : Method

-- The only error variable that the handler tests for is `context.Canceled`.
pub data Sentinel : Type 0 where
  context_canceled : Sentinel

instance abbrev pub payment_sentinels : Sentinels Sentinel
payment_sentinels = record { tag = λ _. 0; text = λ _. "context canceled" }

abbrev pub PaymentError : Type 0
PaymentError = Error Sentinel

abbrev pub is_unknown : Method → Bool
is_unknown Method.unknown = true
is_unknown _ = false

unfoldable pub validate : Params → Result PaymentError (Unit {0})
validate p =
    if str_eq p.order_id ""
    then err (new_error "order_id is required")
    else if str_eq p.user_id ""
    then err (new_error "user_id is required")
    else if is_unknown p.method
    then err (new_error "payment_method is unknown")
    else ok tt

unfoldable pub method_from_pb : PbMethod → Result PaymentError Method
method_from_pb PbMethod.unknown = err (new_error "payment_method unknown")
method_from_pb PbMethod.card = ok Method.card
method_from_pb PbMethod.sbp = ok Method.sbp
method_from_pb PbMethod.credit_card = ok Method.credit_card
method_from_pb PbMethod.investor_money = ok Method.investor_money
method_from_pb (other_enum _) = err (new_error "payment_method unsupported")

unfoldable pub params_from_request : PbPayOrderRequest → Result PaymentError Params
unfolding method_from_pb
params_from_request req = elim (method_from_pb req.payment_method) [
  | ok m ↦ ok (record { order_id = req.order_uuid; user_id = req.user_uuid; method = m })
  | err e ↦ err e
]

unfoldable pub pay_order_params_from_pb : Option PbPayOrderRequest → Result PaymentError Params
unfolding params_from_request
pay_order_params_from_pb none = err (new_error "request is nil")
pay_order_params_from_pb (some req) = params_from_request req

-- The result is the transaction's id.
unfoldable pub pay_order_resp_to_pb : String → PbPayOrderResponse
pay_order_resp_to_pb tx = record { transaction_uuid = tx }

unfoldable pub is_validation_error : PaymentError → Bool
is_validation_error e =
    str_eq (message e) "order_uuid is required"
    || (str_eq (message e) "user_uuid is required"
        || (str_eq (message e) "payment_method is unknown"
            || (str_eq (message e) "payment_method unsupported"
                || str_eq (message e) "request is nil")))

-- The handler calls it with an error only.
unfoldable pub map_error : PaymentError → Status
unfolding is_validation_error
map_error e =
    if is e context_canceled
    then record { code = canceled; text = "request canceled" }
    else if is_validation_error e
    then record { code = invalid_argument; text = message e }
    else record { code = internal; text = "internal error" }

-- What the handler makes of the service's result.
unfoldable pub answer :
    {W : Type 0} → Result PaymentError String × W → Result Status PbPayOrderResponse × W
unfolding map_error pay_order_resp_to_pb
answer (ok tx, w) = (ok (pay_order_resp_to_pb tx), w)
answer (err e, w) = (err (map_error e), w)

-- `uuid.NewString` is a parameter.
module _ {W : Type 0} (new_string : W → String × W) where
  unfoldable pub service_pay_order : Params → Action W PaymentError String
  unfolding validate
  service_pay_order p w = elim (validate p) [
    | ok _ ↦ let (tx, w') = new_string w in (ok tx, w')
    | err e ↦ (err (wrap "payment.service.PayOrder" e), w)
  ]

  unfoldable pub handle_pay_order : Option PbPayOrderRequest → Action W Status PbPayOrderResponse
  unfolding pay_order_params_from_pb service_pay_order answer
  handle_pay_order req w = elim (pay_order_params_from_pb req) [
    | err e ↦ (err (record { code = invalid_argument; text = message e }), w)
    | ok cmd ↦ answer (service_pay_order cmd w)
  ]

-- `RejectNilRequest`: the handler is not called for a nil request.
unfoldable pub reject_nil_request :
    {W A : Type 0}
    → (Option PbPayOrderRequest → Action W Status A)
    → Option PbPayOrderRequest
    → Action W Status A
reject_nil_request handler none w =
    (err (record { code = invalid_argument; text = "request is nil" }), w)
reject_nil_request handler (some req) w = handler (some req) w
