-- ===== src/Order/Transport/Lines.antt =====
-- Which status line a client gets.
use rocket_maintenance.Common.{arith, ℕ, ok, ◌≡◌, refl, some, err, Result, Action}
use rocket_maintenance.Common.Uuids.{Uuid}
use rocket_maintenance.Order.Model.{OrderError}
use rocket_maintenance.Order.Ports.{Service}
use rocket_maintenance.Order.Service
use rocket_maintenance.Order.Converter.{
  create_order_result_to_response, pay_order_result_to_response, order_to_oapi, CreateOrderRequest,
  PayOrderRequest,
}
use rocket_maintenance.Order.Transport.Codes.{with_order_id-eq}
use rocket_maintenance.Order.Transport.Encoders.{
  span_ok, span_error, EncodeError, ResponseWriter, write_json, write_status, encode_error,
  create_order_status, pay_order_status, get_order_status, cancel_order_status,
  encode_create_order_response, encode_pay_order_response, encode_get_order_response,
  encode_cancel_order_response,
}
use rocket_maintenance.Order.Transport.{
  ErrorKind, validation_failed, ErrorBody, Response, respond, success, failure, create_order,
  pay_order, get_order_by_uuid, cancel_order, map_error_to_create_order_res,
  map_error_to_pay_order_res, map_error_to_get_order_res, map_error_to_cancel_order_res,
}

-- The status of an error: its code, but 422 for every validation error.
abbrev pub status_of : ErrorBody → ℕ
status_of b = line b.kind b.code
  where
    line : ErrorKind → ℕ → ℕ
    line validation_failed _ = 422
    line _ code = code

-- How an answer is written: a success by `done`, an error with its status and its body.
abbrev pub written :
    {W E A : Type 0} (out : ResponseWriter W E A)
    → (A → Action W (EncodeError E) Unit)
    → Response A
    → Action W (EncodeError E) Unit
written out done (success a) = done a
written out done (failure b) = write_json out (status_of b) span_error (failure b)

create_error-line :
    (e : OrderError)
    → let b = map_error_to_create_order_res e in create_order_status b.kind ≡ some (status_of b)
unfolding map_error_to_create_order_res create_order_status
create_error-line e = ground arith

pay_error-line :
    (e : OrderError)
    → let b = map_error_to_pay_order_res e in pay_order_status b.kind ≡ some (status_of b)
unfolding map_error_to_pay_order_res pay_order_status
pay_error-line e = ground arith

get_error-line :
    (e : OrderError)
    → let b = map_error_to_get_order_res e in get_order_status b.kind ≡ some (status_of b)
unfolding map_error_to_get_order_res get_order_status
get_error-line e = ground arith

cancel_error-line :
    (e : OrderError)
    → let b = map_error_to_cancel_order_res e in cancel_order_status b.kind ≡ some (status_of b)
unfolding map_error_to_cancel_order_res cancel_order_status
cancel_error-line e = ground arith

-- An answer of a handler with its errors by `g` is written with the status of the error.
module _ {V E A B : Type 0} (out : ResponseWriter V E B) (f : A → B) (v : V) where
  create_result-line :
      (r : Result OrderError A)
      → let b = respond f map_error_to_create_order_res r in
        encode_create_order_response out b v
        ≡ written out (λ a. write_json out 201 span_ok (success a)) b v
  unfolding encode_create_order_response encode_error
  create_result-line (ok a) = refl
  create_result-line (err e) = rw (create_error-line e) refl

  pay_result-line :
      (r : Result OrderError A)
      → let b = respond f map_error_to_pay_order_res r in
        encode_pay_order_response out b v
        ≡ written out (λ a. write_json out 200 span_ok (success a)) b v
  unfolding encode_pay_order_response encode_error
  pay_result-line (ok a) = refl
  pay_result-line (err e) = rw (pay_error-line e) refl

  get_result-line :
      (r : Result OrderError A)
      → let b = respond f map_error_to_get_order_res r in
        encode_get_order_response out b v
        ≡ written out (λ a. write_json out 200 span_ok (success a)) b v
  unfolding encode_get_order_response encode_error
  get_result-line (ok a) = refl
  get_result-line (err e) = rw (get_error-line e) refl

  cancel_result-line :
      (r : Result OrderError A)
      → let b = respond f map_error_to_cancel_order_res r in
        encode_cancel_order_response out b v
        ≡ written out (λ _ u. (ok tt, write_status out 204 span_ok u)) b v
  unfolding encode_cancel_order_response encode_error
  cancel_result-line (ok a) = refl
  cancel_result-line (err e) = rw (cancel_error-line e) refl

module _ {W V E : Type 0} (svc : Service W) (out : (A : Type 0) → ResponseWriter V E A) where
  -- Whatever the four handlers answer, the generated encoder of the operation has a case for it: a
  -- success is written as JSON with 201 for a creation and 200 for a payment and a read, and
  -- without a body with 204 for a cancellation, and an error is written with the HTTP status that
  -- its body's code says, except that a validation error is written with 422 whatever its code
  -- says.
  pub handlers-lines :
      (req : CreateOrderRequest) (id : Uuid) (paying : PayOrderRequest) (w : W) (v : V)
      → let created = (create_order svc req w).0 in
        let payed = (pay_order svc id paying w).0 in
        let got = (get_order_by_uuid svc id w).0 in
        let dropped = (cancel_order svc id w).0 in
        (encode_create_order_response (out _) created v
          ≡ written (out _) (λ a. write_json (out _) 201 span_ok (success a)) created v)
        × (encode_pay_order_response (out _) payed v
            ≡ written (out _) (λ a. write_json (out _) 200 span_ok (success a)) payed v)
        × (encode_get_order_response (out _) got v
            ≡ written (out _) (λ a. write_json (out _) 200 span_ok (success a)) got v)
        × (encode_cancel_order_response (out _) dropped v
            ≡ written
                (out _)
                (λ _ u. (ok tt, write_status (out (Unit {0})) 204 span_ok u))
                dropped
                v)
  unfolding create_order pay_order get_order_by_uuid cancel_order
  handlers-lines req id paying w v = (
    create_result-line (out _) create_order_result_to_response v _,
    rw (with_order_id-eq svc id) (pay_result-line (out _) pay_order_result_to_response v _),
    rw (with_order_id-eq svc id)
        (get_result-line (out _) order_to_oapi v (Service.order_by_id svc id w).0),
    rw (with_order_id-eq svc id)
        (cancel_result-line (out _) (λ _. tt) v (Service.cancel svc id w).0),
  )
