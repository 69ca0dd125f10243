-- ===== src/Order/Transport/Encoders.antt =====
-- shared/pkg/openapi/order/v1/oas_response_encoders_gen.go: how an answer of a handler is written.
use rocket_maintenance.Common.{ℕ, String, Option, none, some, err, Action, ok, on_err}
use rocket_maintenance.Order.Transport.{
  ErrorKind, bad_request, validation_failed, not_found, conflict, bad_gateway_failed, unavailable,
  internal, unauthorized, forbidden, rate_limited, ErrorBody, Response, success, failure,
}

pub data SpanStatus : Type 0 where
  span_ok span_error : SpanStatus

pub data EncodeError (E : Type 0) : Type 0 where
  write_failed : E → EncodeError E
  unexpected_response : EncodeError E

-- The response writer and the span of a request: `write` encodes a body as JSON and writes it.
pub record ResponseWriter (W E A : Type 0) : Type 0 where
  pub set_content_type : String → W → W
  pub write_header : ℕ → W → W
  pub set_status : SpanStatus → String → W → W
  pub status_text : ℕ → String
  pub write : Response A → Action W E Unit

module _ {W E A : Type 0} (out : ResponseWriter W E A) where
  -- The status line and the span's status.
  abbrev pub write_status : ℕ → SpanStatus → W → W
  write_status code s w = out.set_status s (out.status_text code) (out.write_header code w)

  unfoldable pub write_json : ℕ → SpanStatus → Response A → Action W (EncodeError E) Unit
  write_json code s r w =
      on_err (out.write r) write_failed
        (write_status code s (out.set_content_type "application/json; charset=utf-8" w))

  -- A case of a switch over the error types, or its default.
  unfoldable pub encode_error : Option ℕ → ErrorBody → Action W (EncodeError E) Unit
  unfolding write_json
  encode_error (some code) b w = write_json code span_error (failure b) w
  encode_error none b w = (err unexpected_response, w)

unfoldable pub create_order_status : ErrorKind → Option ℕ
create_order_status bad_request = some 400
create_order_status unauthorized = some 401
create_order_status forbidden = some 403
create_order_status not_found = some 404
create_order_status validation_failed = some 422
create_order_status rate_limited = some 429
create_order_status internal = some 500
create_order_status bad_gateway_failed = some 502
create_order_status unavailable = some 503
create_order_status conflict = none

unfoldable pub pay_order_status : ErrorKind → Option ℕ
pay_order_status bad_request = some 400
pay_order_status unauthorized = some 401
pay_order_status forbidden = some 403
pay_order_status not_found = some 404
pay_order_status conflict = some 409
pay_order_status validation_failed = some 422
pay_order_status rate_limited = some 429
pay_order_status internal = some 500
pay_order_status bad_gateway_failed = some 502
pay_order_status unavailable = some 503

unfoldable pub get_order_status : ErrorKind → Option ℕ
get_order_status bad_request = some 400
get_order_status unauthorized = some 401
get_order_status forbidden = some 403
get_order_status not_found = some 404
get_order_status rate_limited = some 429
get_order_status internal = some 500
get_order_status _ = none

unfoldable pub cancel_order_status : ErrorKind → Option ℕ
cancel_order_status bad_request = some 400
cancel_order_status unauthorized = some 401
cancel_order_status forbidden = some 403
cancel_order_status not_found = some 404
cancel_order_status conflict = some 409
cancel_order_status rate_limited = some 429
cancel_order_status internal = some 500
cancel_order_status _ = none

module _ {W E A : Type 0} (out : ResponseWriter W E A) where
  unfoldable pub encode_create_order_response : Response A → Action W (EncodeError E) Unit
  unfolding create_order_status encode_error write_json
  encode_create_order_response (success a) = write_json out 201 span_ok (success a)
  encode_create_order_response (failure b) = encode_error out (create_order_status b.kind) b

  unfoldable pub encode_pay_order_response : Response A → Action W (EncodeError E) Unit
  unfolding pay_order_status encode_error write_json
  encode_pay_order_response (success a) = write_json out 200 span_ok (success a)
  encode_pay_order_response (failure b) = encode_error out (pay_order_status b.kind) b

  unfoldable pub encode_get_order_response : Response A → Action W (EncodeError E) Unit
  unfolding get_order_status encode_error write_json
  encode_get_order_response (success a) = write_json out 200 span_ok (success a)
  encode_get_order_response (failure b) = encode_error out (get_order_status b.kind) b

  -- A cancellation that succeeds has no body.
  unfoldable pub encode_cancel_order_response : Response A → Action W (EncodeError E) Unit
  unfolding cancel_order_status encode_error
  encode_cancel_order_response (success _) w = (ok tt, write_status out 204 span_ok w)
  encode_cancel_order_response (failure b) w = encode_error out (cancel_order_status b.kind) b w
