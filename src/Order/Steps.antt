-- ===== src/Order/Steps.antt =====
-- The requests of the order service (service/order/service.go) one call at a time: between two calls
-- of one request, the calls of others run. A request is what is left of it, and each step makes the
-- next call of the source and goes on as the source does with its result.
pub mod Finish
pub mod Alone
pub mod Schedules
pub mod Drift
mod Advance
mod Reliance
pub mod Races
pub mod DoubleCharge
mod Tests
use rocket_maintenance.Common.{
  ℕ, zero, suc, ◌+◌, String, List, [], ◌∷◌, Result, ok, err, map_err, Action, sentinel, wrap,
  new_error, is_empty, ◌==◌, ◌||◌, map, if◌then◌else◌,
}
use rocket_maintenance.Common.Int64.{Int64}
use rocket_maintenance.Common.Uuids.{Uuid, nil}
use rocket_maintenance.Order.Model.{
  Order, OrderStatus, OrderError, CreateOrderParams, CreateOrderResult, PayOrderParams,
  PayOrderResult, order_sentinels, pending_payment, paid, completed, cancelled, validation,
  bad_gateway, order_conflict, unknown_status,
}
use rocket_maintenance.Order.Part.{Part}
use rocket_maintenance.Order.Ports.{Service}
use rocket_maintenance.Order.Service
use rocket_maintenance.Order.Lifecycle.{Request, creates, pays, gets}

-- What a request ends with.
pub data Answer : Type 0 where
  created : CreateOrderResult → Answer
  charged : PayOrderResult → Answer
  found : Order → Answer
  done : Answer

-- Where a request stands, with the variables that are live there.
pub data Task : Type 0 where
  lists : CreateOrderParams → Task
  stores : CreateOrderParams → Int64 → Task
  reads_to_pay : PayOrderParams → Task
  charges : PayOrderParams → Order → Task
  settles : PayOrderParams → Order → Uuid → Task
  announces : PayOrderParams → Order → Uuid → Task
  reads : Uuid → Task
  reads_to_cancel : Uuid → Task
  cancels : Order → Task
  completes : Uuid → Task
  ended : Result OrderError Answer → Task

abbrev pub start : Request → Task
start (creates params) =
    if params.user_id == nil || is_empty params.part_ids
    then ended (err (wrap Service.create_op (sentinel validation)))
    else lists params
start (pays params) = reads_to_pay params
start (gets id) = reads id
start (Request.cancels id) = reads_to_cancel id
start (Request.completes id) = completes id

-- How many calls a request has left, at most.
abbrev pub left : Task → ℕ
left (lists _) = 2
left (stores _ _) = 1
left (reads_to_pay _) = 4
left (charges _ _) = 3
left (settles _ _ _) = 2
left (announces _ _ _) = 1
left (reads _) = 1
left (reads_to_cancel _) = 2
left (cancels _) = 1
left (completes _) = 1
left (ended _) = 0

-- How a request goes on, by the result of its call.
module _ {W : Type 0} where
  -- A call behind which nothing is left to do.
  abbrev pub ends : {A : Type 0} → String → (A → Answer) → Result OrderError A × W → Task × W
  ends op f (ok a, w) = (ended (ok (f a)), w)
  ends op f (err e, w) = (ended (err (wrap op e)), w)

  abbrev pub after_price : CreateOrderParams → Result OrderError Int64 → W → Task × W
  after_price params (ok total) w = (stores params total, w)
  after_price params (err e) w = (ended (err e), w)

  abbrev pub after_list : CreateOrderParams → Result OrderError (List Part) × W → Task × W
  after_list params (ok parts, w) = after_price params (Service.price_parts params parts) w
  after_list params (err _, w) = (ended (err (wrap Service.create_op (sentinel bad_gateway))), w)

  abbrev pub after_check : PayOrderParams → Order → Result OrderError (Unit {0}) → W → Task × W
  after_check params ord (ok _) w = (charges params ord, w)
  after_check params ord (err e) w = (ended (err e), w)

  abbrev pub after_read : PayOrderParams → Result OrderError Order × W → Task × W
  after_read params (ok ord, w) = after_check params ord (Service.payable ord.status) w
  after_read params (err e, w) = (ended (err (wrap Service.pay_op e)), w)

  abbrev pub after_parse : PayOrderParams → Order → Result String Uuid → W → Task × W
  after_parse params ord (ok tx) w = (settles params ord tx, w)
  after_parse params ord (err e) w = (ended (err (wrap Service.pay_op (new_error e))), w)

  abbrev pub after_charge :
      (String → Result String Uuid)
      → PayOrderParams
      → Order
      → Result OrderError String × W
      → Task × W
  after_charge parse params ord (ok receipt, w) = after_parse params ord (parse receipt) w
  after_charge parse params ord (err _, w) =
      (ended (err (wrap Service.pay_op (sentinel bad_gateway))), w)

  abbrev pub after_settle :
      PayOrderParams → Order → Uuid → Result OrderError (Unit {0}) × W → Task × W
  after_settle params ord tx (ok _, w) = (announces params ord tx, w)
  after_settle params ord tx (err e, w) = (ended (err (wrap Service.pay_op e)), w)

  abbrev pub after_status : Order → OrderStatus → W → Task × W
  after_status ord pending_payment w = (cancels ord, w)
  after_status ord paid w = (ended (err (wrap Service.cancel_op (sentinel order_conflict))), w)
  after_status ord completed w = (ended (err (wrap Service.cancel_op (sentinel order_conflict))), w)
  after_status ord _ w = (ended (err (wrap Service.cancel_op (sentinel unknown_status))), w)

  abbrev pub after_cancel_read : Result OrderError Order × W → Task × W
  after_cancel_read (ok ord, w) = after_status ord ord.status w
  after_cancel_read (err e, w) = (ended (err (wrap Service.cancel_op e)), w)

module _ {W : Type 0} (svc : Service W) where
  -- The next call of a request.
  unfoldable pub step : Task → W → Task × W
  step (lists params) w =
      after_list params
        (svc.inventory.list_parts (Service.ids_filter (map svc.uuids.to_string params.part_ids)) w)
  step (stores params total) w =
      ends Service.create_op (λ id. created (record { id = id; total_price = total }))
        (svc.repo.create (Service.new_order params total) w)
  step (reads_to_pay params) w = after_read params (svc.repo.order_by_id params.id w)
  step (charges params ord) w =
      after_charge svc.uuids.parse params ord
        (svc.payment.pay_order (record params { user_id = ord.user_id }) w)
  step (settles params ord tx) w =
      after_settle params ord tx
        (svc.repo.update (Service.mark_paid ord params.payment_method tx) w)
  step (announces params ord tx) w =
      let (ev, w') = svc.uuids.random w in
      ends Service.pay_op (λ _. charged (record { transaction_id = tx }))
        (svc.producer.send_order_paid (Service.paid_event ev ord params.payment_method tx) w')
  step (reads id) w = ends Service.order_by_id_op found (svc.repo.order_by_id id w)
  step (reads_to_cancel id) w = after_cancel_read (svc.repo.order_by_id id w)
  step (cancels ord) w =
      ends Service.cancel_op (λ _. done) (svc.repo.update (record ord { status = cancelled }) w)
  step (completes id) w =
      ends Service.complete_op (λ _. done) (svc.repo.update (Service.completed_order id) w)
  step (ended r) w = (ended r, w)

  -- The request at position `i` makes its next call.
  unfoldable pub step_at : ℕ → List Task → W → List Task × W
  unfolding step
  step_at i [] w = ([], w)
  step_at zero (t ∷ ts) w = ((step t w).0 ∷ ts, (step t w).1)
  step_at (suc i) (t ∷ ts) w = (t ∷ (step_at i ts w).0, (step_at i ts w).1)

  -- The requests in the order that a schedule picks them in.
  unfoldable pub run : List ℕ → List Task → W → List Task × W
  unfolding step_at
  run [] ts w = (ts, w)
  run (i ∷ is) ts w = run is (step_at i ts w).0 (step_at i ts w).1
