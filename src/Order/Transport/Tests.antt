-- ===== src/Order/Transport/Tests.antt =====
-- Answers as they are written, on concrete requests.
use rocket_maintenance.Common.{ℕ, ◌≡◌, refl, String, Option, none, some, Bool, true, false, [], ok}
use rocket_maintenance.Order.Converter.{
  card, CreateOrderRequest, PayOrderRequest, create_order_request_to_params,
}
use rocket_maintenance.Order.Service
use rocket_maintenance.Order.InMemory.{service}
use rocket_maintenance.Order.Samples.{start, ordered}
use rocket_maintenance.Order.Transport.Codes.{code_of}
use rocket_maintenance.Order.Transport.Encoders.{
  ResponseWriter, span_ok, write_json, write_status, encode_create_order_response,
  encode_pay_order_response, encode_get_order_response, encode_cancel_order_response, encode_error,
  create_order_status,
}
use rocket_maintenance.Order.Transport.Lines.{written, handlers-lines}
use rocket_maintenance.Order.Transport.{
  success, create_order, pay_order, get_order_by_uuid, cancel_order, map_error_to_create_order_res,
}

-- What a client has received: the content type, the status and whether a body was sent.
record Received : Type 0 where
  content_type : Option String
  status : ℕ
  with_body : Bool

abbrev silent : Received
silent = record { content_type = none; status = 0; with_body = false }

abbrev writer : (A : Type 0) → ResponseWriter Received String A
writer A = record {
  set_content_type = λ t v. record v { content_type = some t };
  write_header = λ code v. record v { status = code };
  set_status = λ _ _ v. v;
  status_text = λ _. "";
  write = λ _ v. (ok tt, record v { with_body = true });
}

abbrev no_parts : CreateOrderRequest
no_parts = record { user_uuid = 9; part_uuids = [] }

abbrev by_card : PayOrderRequest
by_card = record { payment_method = card }

-- A request without parts: the body says 400 and the status line 422.
no_parts-line :
    (code_of (create_order service no_parts start).0 ≡ some 400)
    × ((encode_create_order_response (writer _) (create_order service no_parts start).0 silent).1
        ≡ record {
          content_type = some "application/json; charset=utf-8";
          status = 422;
          with_body = true;
        })
unfolding create_order Service.create create_order_request_to_params map_error_to_create_order_res
    encode_create_order_response encode_error create_order_status write_json
no_parts-line = (refl, refl)

handlers-lines_example :
    let created = (create_order service no_parts ordered).0 in
    let payed = (pay_order service 5 by_card ordered).0 in
    let got = (get_order_by_uuid service 5 ordered).0 in
    let dropped = (cancel_order service 5 ordered).0 in
    (encode_create_order_response (writer _) created silent
      ≡ written (writer _) (λ a. write_json (writer _) 201 span_ok (success a)) created silent)
    × (encode_pay_order_response (writer _) payed silent
        ≡ written (writer _) (λ a. write_json (writer _) 200 span_ok (success a)) payed silent)
    × (encode_get_order_response (writer _) got silent
        ≡ written (writer _) (λ a. write_json (writer _) 200 span_ok (success a)) got silent)
    × (encode_cancel_order_response (writer _) dropped silent
        ≡ written
            (writer _)
            (λ _ u. (ok tt, write_status (writer (Unit {0})) 204 span_ok u))
            dropped
            silent)
handlers-lines_example = handlers-lines service writer no_parts 5 by_card ordered silent
