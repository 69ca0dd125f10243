-- ===== src/Payment/Outcome.antt =====
-- What a caller of the payment service gets.
use Prim.Native.String.{String}
use text.Mathlib.Text.{◌==◌ as str_eq}
use rocket_maintenance.Common.{
  ◌≡◌, refl, Bool, true, false, some, Result, ok, err, if◌then◌else◌, ◌||◌, Bool-cases, inl, inr,
  new_error,
}
use rocket_maintenance.Proto.{
  PbMethod, other_enum, PbPayOrderRequest, PbPayOrderResponse, Status, Code, invalid_argument,
  internal,
}
use rocket_maintenance.Payment.{
  Params, Method, validate, map_error, service_pay_order, handle_pay_order, reject_nil_request,
  answer, pay_order_resp_to_pb, is_unknown, pay_order_params_from_pb,
}

-- A method that the service charges by.
abbrev pub is_supported : PbMethod → Bool
is_supported PbMethod.unknown = false
is_supported (other_enum _) = false
is_supported _ = true

-- What a caller gets: the transaction's id, or a code.
pub data Reply : Type 0 where
  charged : String → Reply
  refused : Code → Reply

abbrev pub reply_of : {W : Type 0} → Result Status PbPayOrderResponse × W → Reply × W
reply_of (ok r, w) = (charged r.transaction_uuid, w)
reply_of (err s, w) = (refused s.code, w)

-- The reply to a request with a supported method, and what it leaves: only a charge draws an id.
abbrev pub expected_charge : {W : Type 0} → (W → String × W) → String → String → W → Reply × W
expected_charge new_string order user w =
    if str_eq order "" || str_eq user ""
    then (refused internal, w)
    else (charged (new_string w).0, (new_string w).1)

abbrev pub expected : {W : Type 0} → (W → String × W) → PbPayOrderRequest → W → Reply × W
expected new_string req w =
    if is_supported req.payment_method
    then expected_charge new_string req.order_uuid req.user_uuid w
    else (refused invalid_argument, w)

validate-ok :
    (p : Params)
    → str_eq p.order_id "" ≡ false
    → str_eq p.user_id "" ≡ false
    → is_unknown p.method ≡ false
    → validate p ≡ ok tt
unfolding validate
validate-ok p a b c = rw (a, b, c) refl

validate-no_order :
    (p : Params) → str_eq p.order_id "" ≡ true → validate p ≡ err (new_error "order_id is required")
unfolding validate
validate-no_order p a = rw a refl

validate-no_user :
    (p : Params)
    → str_eq p.order_id "" ≡ false
    → str_eq p.user_id "" ≡ true
    → validate p ≡ err (new_error "user_id is required")
unfolding validate
validate-no_user p a b = rw (a, b) refl

-- An error of the service has the name of the operation before it, so it is none of the texts that
-- the handler takes for an invalid argument.
module _ {W : Type 0} (new_string : W → String × W) where
  -- What the handler answers for a charge that is asked for.
  charge-reply :
      (p : Params) (w : W)
      → is_unknown p.method ≡ false
      → reply_of (answer (service_pay_order new_string p w))
        ≡ expected_charge new_string p.order_id p.user_id w
  unfolding service_pay_order answer map_error pay_order_resp_to_pb
  charge-reply p w known = elim (Bool-cases (str_eq p.order_id "")) [
    | inl a ↦ rw (validate-no_order p a, service_pay_order, a) refl
    | inr a ↦ elim (Bool-cases (str_eq p.user_id "")) [
      | inl b ↦ rw (validate-no_user p a b, service_pay_order, a, b) refl
      | inr b ↦ rw (validate-ok p a b known, service_pay_order, a, b) refl
    ]
  ]

  -- Behind the interceptor, a request whose method is one of the four and that names an order and a
  -- user is answered with the id that is drawn for it, once; any other request draws none, and is
  -- refused: an unsupported method is an invalid argument, and an empty id an internal error.
  pub handle_pay_order-reply :
      (req : PbPayOrderRequest) (w : W)
      → reply_of (reject_nil_request (handle_pay_order new_string) (some req) w)
        ≡ expected new_string req w
  unfolding handle_pay_order reject_nil_request pay_order_params_from_pb
  handle_pay_order-reply req w = split req.order_uuid req.user_uuid req.payment_method
    where
      split :
          (o u : String) (m : PbMethod)
          → let r : PbPayOrderRequest = record {
            order_uuid = o;
            user_uuid = u;
            payment_method = m;
          } in
            reply_of (reject_nil_request (handle_pay_order new_string) (some r) w)
            ≡ expected new_string r w
      split o u PbMethod.unknown = refl
      split o u (other_enum _) = refl
      split o u PbMethod.card =
          charge-reply (record { order_id = o; user_id = u; method = Method.card }) w refl
      split o u PbMethod.sbp =
          charge-reply (record { order_id = o; user_id = u; method = Method.sbp }) w refl
      split o u PbMethod.credit_card =
          charge-reply (record { order_id = o; user_id = u; method = Method.credit_card }) w refl
      split o u PbMethod.investor_money =
          charge-reply (record { order_id = o; user_id = u; method = Method.investor_money }) w refl
