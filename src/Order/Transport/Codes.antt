-- ===== src/Order/Transport/Codes.antt =====
-- Which code a client gets.
use rocket_maintenance.Common.{
  ℕ, ◌≡◌, ◌≢◌, ◌⊎◌, inl, inr, refl, true, false, List, [], Option, none, some, map, length,
  is_empty, if◌then◌else◌, ◌==◌, not, ◌||◌, Result, ok, err, arith, Bool-cases, ==→ne, wrap,
  sentinel,
}
use rocket_maintenance.Common.Uuids.{Uuid, nil}
use rocket_maintenance.Order.Model.{
  Order, OrderStatus, OrderError, order_sentinels, pending_payment, paid, completed, cancelled,
  unset, other_status, CreateOrderParams, PayOrderResult,
}
use rocket_maintenance.Order.Part.{Part}
use rocket_maintenance.Order.Ports.{Service}
use rocket_maintenance.Order.Service
use rocket_maintenance.Order.Service.Create.{ended_ids, create_unlisted, create_refused}
use rocket_maintenance.Order.Service.Status.{cancel_refused, cancel_refusal}
use rocket_maintenance.Order.Service.Pay.{pay_refused, refusal}
use rocket_maintenance.Order.Converter.{
  CreateOrderRequest, PayOrderRequest, create_order_request_to_params, pay_order_request_to_params,
  pay_order_result_to_response,
}
use rocket_maintenance.Order.Transport.{
  Response, success, failure, create_order, pay_order, cancel_order, respond,
  map_error_to_pay_order_res, map_error_to_cancel_order_res, map_error_to_create_order_res,
  with_order_id,
}

abbrev pub code_of : {A : Type 0} → Response A → Option ℕ
code_of (success _) = none
code_of (failure b) = some b.code

-- The code that a cancellation is refused with.
abbrev pub cancel_code : OrderStatus → ℕ
cancel_code paid = 409
cancel_code completed = 409
cancel_code _ = 500

-- The code that a paid-for order is refused with.
abbrev pub pay_code : OrderStatus → ℕ
pay_code paid = 409
pay_code cancelled = 409
pay_code _ = 500

pay_code-refusal :
    {A : Type 0} (f : PayOrderResult → A) (s : OrderStatus)
    → s ≢ pending_payment
    → code_of
        (respond f map_error_to_pay_order_res (err (wrap Service.pay_op (sentinel (refusal s)))))
      ≡ some (pay_code s)
unfolding map_error_to_pay_order_res
pay_code-refusal f pending_payment n = absurd (n refl)
pay_code-refusal f paid n = refl
pay_code-refusal f completed n = refl
pay_code-refusal f cancelled n = refl
pay_code-refusal f unset n = refl
pay_code-refusal f (other_status _) n = refl

cancel_code-refusal :
    (s : OrderStatus)
    → s ≢ pending_payment
    → code_of (
        respond
          (λ (_ : Unit {0}). tt)
          map_error_to_cancel_order_res
          (err (wrap Service.cancel_op (sentinel (cancel_refusal s)))))
      ≡ some (cancel_code s)
unfolding map_error_to_cancel_order_res
cancel_code-refusal pending_payment n = absurd (n refl)
cancel_code-refusal paid n = refl
cancel_code-refusal completed n = refl
cancel_code-refusal cancelled n = refl
cancel_code-refusal unset n = refl
cancel_code-refusal (other_status _) n = refl

module _ {W : Type 0} (svc : Service W) where
  -- The id of a request is a UUID, so its print is parsed: 400 is never answered for it.
  pub with_order_id-eq :
      {B : Type 0} (id : Uuid) (handler : Uuid → W → Response B × W) (w : W)
      → with_order_id svc id handler w ≡ handler id w
  unfolding with_order_id
  with_order_id-eq id handler w = rw (svc.uuids.parse-to_string id, with_order_id) refl

  -- A payment of an order that is not pending payment is answered by 409 if the order is paid or
  -- cancelled and by 500 otherwise, a completed order included, and nothing is called after the
  -- read.
  pub pay_order_refused :
      (id : Uuid) (req : PayOrderRequest) (ord : Order) (w asked : W)
      → svc.repo.order_by_id id w ≡ (ok ord, asked)
      → ord.status ≢ pending_payment
      → (code_of (pay_order svc id req w).0 ≡ some (pay_code ord.status))
        × ((pay_order svc id req w).1 ≡ asked)
  unfolding pay_order
  pay_order_refused id req ord w asked h n =
      let refused = pay_refused svc (pay_order_request_to_params id req) ord w asked h n in
      rw (with_order_id-eq id)
        (rw refused (pay_code-refusal pay_order_result_to_response ord.status n, refl))

  -- A cancellation of an order that is not pending payment is answered by 409 if the order is paid
  -- or completed and by 500 if it is cancelled already or its status is unknown, and nothing is
  -- written.
  pub cancel_order_refused :
      (id : Uuid) (ord : Order) (w read : W)
      → svc.repo.order_by_id id w ≡ (ok ord, read)
      → ord.status ≢ pending_payment
      → (code_of (cancel_order svc id w).0 ≡ some (cancel_code ord.status))
        × ((cancel_order svc id w).1 ≡ read)
  unfolding cancel_order
  cancel_order_refused id ord w read h n =
      rw (with_order_id-eq id)
        (rw (cancel_refused svc id ord w read h n) (cancel_code-refusal ord.status n, refl))

-- What the inventory's answer to a request to create an order leads to, when it leads to a refusal.
abbrev pub refusal_code : CreateOrderParams → Result OrderError (List Part) → Option ℕ
refusal_code params (err _) = some 502
refusal_code params (ok parts) =
    if not (length parts == length params.part_ids)
    then some 404
    else if not (is_empty (ended_ids parts))
    then some 422
    else none

module _ {W : Type 0} (svc : Service W) where
  -- A request with no user or no parts is answered by 400 and calls nothing.
  pub create_order_invalid :
      (req : CreateOrderRequest) (w : W)
      → (req.user_uuid ≡ nil) ⊎ (req.part_uuids ≡ [])
      → (code_of (create_order svc req w).0 ≡ some 400) × ((create_order svc req w).1 ≡ w)
  unfolding create_order Service.create
  create_order_invalid req w h =
      let bad : (req.user_uuid == nil || is_empty req.part_uuids) ≡ true = ground arith in
      rw bad (refl, refl)

  -- A request to create an order, with a user and with parts, is answered as the inventory's answer
  -- says: 502 if it is an error, 404 if the number of parts is wrong, else 422 if a part is out of
  -- stock, and nothing is stored.
  pub create_order_refused :
      (req : CreateOrderRequest) (answer : Result OrderError (List Part)) (c : ℕ) (w listed : W)
      → req.user_uuid ≢ nil
      → req.part_uuids ≢ []
      → svc.inventory.list_parts (Service.ids_filter (map svc.uuids.to_string req.part_uuids)) w
        ≡ (answer, listed)
      → refusal_code (create_order_request_to_params req) answer ≡ some c
      → (code_of (create_order svc req w).0 ≡ some c) × ((create_order svc req w).1 ≡ listed)
  unfolding create_order map_error_to_create_order_res
  create_order_refused req (err e) c w listed user parts list h =
      rw (create_unlisted svc (create_order_request_to_params req) e w listed user parts list)
        (h, refl)
  create_order_refused req (ok ps) c w listed user parts list h =
      elim (Bool-cases (length ps == length req.part_uuids)) [
        | inl same ↦
            let short : is_empty (ended_ids ps) ≡ false = ground arith in
            let it : some 422 ≡ some c = rw (same, short) at h in
            rw
              (create_refused svc (create_order_request_to_params req) ps w listed user parts list
                (inr (λ e. ground arith)))
              (rw same (it, refl))
        | inr wrong ↦
            let it : some 404 ≡ some c = rw wrong at h in
            rw
              (create_refused svc (create_order_request_to_params req) ps w listed user parts list
                (inl (==→ne _ _ wrong)))
              (rw wrong (it, refl))
      ]
