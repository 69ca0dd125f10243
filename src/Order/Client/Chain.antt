-- ===== src/Order/Client/Chain.antt =====
-- A payment from the order service's API to the payment service's handler.
use rocket_maintenance.Common.{
  ◌≡◌, refl, ap, ◌∙◌, String, Bool, true, false, some, ok, err, arith, ◌>>=◌, ◌>>◌, pure, lift,
  map_err, on_err->>=-of-ok, on_err->>=-of-err, new_error, wrap, sentinel,
}
use rocket_maintenance.Common.Uuids.{Uuid, UuidLib}
use rocket_maintenance.Proto.{PbMethod, PbPayOrderRequest, invalid_argument}
use rocket_maintenance.Payment.{
  handle_pay_order, reject_nil_request, pay_order_params_from_pb, params_from_request,
  method_from_pb,
}
use rocket_maintenance.Order.Model.{Order, PayOrderParams, pending_payment, bad_gateway}
use rocket_maintenance.Order.Ports.{Service}
use rocket_maintenance.Order.Service
use rocket_maintenance.Order.Converter.{
  OapiMethod, PayOrderRequest, pay_order_request_to_params, oapi_to_payment_method,
}
use rocket_maintenance.Order.Transport.{pay_order, map_error_to_pay_order_res}
use rocket_maintenance.Order.Transport.Codes.{code_of, with_order_id-eq}
use rocket_maintenance.Order.Client.{
  payment_client, pay_order_params_to_pb, payment_method_to_pb, status_error,
}

-- A method of the API that the payment service charges by.
abbrev pub is_payable : OapiMethod → Bool
is_payable OapiMethod.unknown = false
is_payable (OapiMethod.other _) = false
is_payable _ = true

-- `Pay` of an order that is pending payment.
pay-charge :
    {W : Type 0} (svc : Service W) (params : PayOrderParams) (ord : Order) (w asked : W)
    → svc.repo.order_by_id params.id w ≡ (ok ord, asked)
    → ord.status ≡ pending_payment
    → Service.pay svc params w ≡ Service.charge svc params ord asked
unfolding Service.pay Service.payable
pay-charge svc params ord w asked h pending =
    on_err->>=-of-ok (svc.repo.order_by_id params.id) (wrap Service.pay_op)
      (λ ord. lift (Service.payable ord.status) >> Service.charge svc params ord) w h
    ∙ ap (λ s. (lift (Service.payable s) >> Service.charge svc params ord) asked) pending

module _ {W : Type 0} (new_string : W → String × W) where
  -- The order service with the payment service behind its client.
  abbrev pub connected : Service W → Service W
  connected svc = record svc {
    payment = payment_client svc.uuids (reject_nil_request (handle_pay_order new_string));
  }

  to_pb-unpayable :
      (m : OapiMethod)
      → is_payable m ≡ false
      → payment_method_to_pb (oapi_to_payment_method m) ≡ PbMethod.unknown
  unfolding payment_method_to_pb oapi_to_payment_method
  to_pb-unpayable OapiMethod.unknown h = refl
  to_pb-unpayable (OapiMethod.other _) h = refl
  to_pb-unpayable OapiMethod.card h = absurd (ground arith)
  to_pb-unpayable OapiMethod.sbp h = absurd (ground arith)
  to_pb-unpayable OapiMethod.credit_card h = absurd (ground arith)
  to_pb-unpayable OapiMethod.investor_money h = absurd (ground arith)

  handle-unknown :
      (req : PbPayOrderRequest) (w : W)
      → req.payment_method ≡ PbMethod.unknown
      → handle_pay_order new_string (some req) w
        ≡ (err (record { code = invalid_argument; text = "payment_method unknown" }), w)
  unfolding handle_pay_order pay_order_params_from_pb params_from_request method_from_pb
  handle-unknown req w h = rw h refl

  client-unknown :
      (uuids : UuidLib W) (params : PayOrderParams) (w : W)
      → payment_method_to_pb params.payment_method ≡ PbMethod.unknown
      → (payment_client uuids (reject_nil_request (handle_pay_order new_string))).pay_order params w
        ≡ (err (new_error "payment_method unknown"), w)
  unfolding payment_client reject_nil_request pay_order_params_to_pb
  client-unknown uuids params w h =
      on_err->>=-of-err
        (reject_nil_request (handle_pay_order new_string)
          (some (pay_order_params_to_pb uuids params)))
        status_error (λ paid. pure paid.transaction_uuid) w
        (handle-unknown (pay_order_params_to_pb uuids params) w h)

  charge-unknown :
      (svc : Service W) (params : PayOrderParams) (ord : Order) (w : W)
      → payment_method_to_pb params.payment_method ≡ PbMethod.unknown
      → Service.charge (connected svc) params ord w
        ≡ (err (wrap Service.pay_op (sentinel bad_gateway)), w)
  unfolding Service.charge
  charge-unknown svc params ord w h =
      on_err->>=-of-err
        ((connected svc).payment.pay_order (record params { user_id = ord.user_id }))
        (λ _. wrap Service.pay_op (sentinel bad_gateway))
        (λ receipt.
          lift (map_err (λ e. wrap Service.pay_op (new_error e)) (svc.uuids.parse receipt))
          >>= λ tx. Service.settle (connected svc) params ord tx)
        w (client-unknown svc.uuids (record params { user_id = ord.user_id }) w h)

  -- A payment of a pending order by a method that the API does not name, or by the unknown one, is
  -- answered by 502, and nothing but the read has happened.
  pub pay_order-unpayable :
      (svc : Service W) (id : Uuid) (req : PayOrderRequest) (ord : Order) (w asked : W)
      → svc.repo.order_by_id id w ≡ (ok ord, asked)
      → ord.status ≡ pending_payment
      → is_payable req.payment_method ≡ false
      → (code_of (pay_order (connected svc) id req w).0 ≡ some 502)
        × ((pay_order (connected svc) id req w).1 ≡ asked)
  unfolding pay_order map_error_to_pay_order_res pay_order_request_to_params
  pay_order-unpayable svc id req ord w asked h pending m =
      let params = pay_order_request_to_params id req in
      let paid =
        pay-charge (connected svc) params ord w asked h pending
        ∙ charge-unknown svc params ord asked (to_pb-unpayable req.payment_method m) in
      rw (with_order_id-eq (connected svc) id) (rw paid (refl, refl))
