-- ===== src/Payment/Tests.antt =====
-- The payment service with a counter for the fresh ids.
use rocket_maintenance.Common.{ℕ, suc, ◌≡◌, refl, String, some}
use rocket_maintenance.Proto.{PbMethod, PbPayOrderRequest, internal}
use rocket_maintenance.Payment.{
  handle_pay_order, reject_nil_request, pay_order_params_from_pb, params_from_request,
  method_from_pb, validate, service_pay_order, answer, map_error, is_validation_error,
}
use rocket_maintenance.Payment.Outcome.{charged, refused, reply_of, handle_pay_order-reply}

abbrev counter : ℕ → String × ℕ
counter n = ("transaction", suc n)

abbrev by_card : PbPayOrderRequest
by_card = record { order_uuid = "order"; user_uuid = "user"; payment_method = PbMethod.card }

abbrev without_user : PbPayOrderRequest
without_user = record { order_uuid = "order"; user_uuid = ""; payment_method = PbMethod.card }

without_user_reply :
    reply_of (handle_pay_order counter (some without_user) 0) ≡ (refused internal, 0)
unfolding handle_pay_order pay_order_params_from_pb params_from_request method_from_pb
    service_pay_order validate answer map_error is_validation_error
without_user_reply = refl

handle_pay_order-reply_example :
    reply_of (reject_nil_request (handle_pay_order counter) (some by_card) 0)
    ≡ (charged "transaction", 1)
handle_pay_order-reply_example = handle_pay_order-reply counter by_card 0
