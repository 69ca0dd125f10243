-- ===== src/Order/Steps/Advance.antt =====
-- One step of a request of the order service (service/order/service.go) between the steps of others.
use rocket_maintenance.Common.{◌≡◌, refl, ap, ◌∙◌, List, ok, err, Result, arith, String}
use rocket_maintenance.Common.Int64.{Int64}
use rocket_maintenance.Common.Uuids.{Uuid}
use rocket_maintenance.Order.Model.{
  Order, OrderStatus, OrderError, CreateOrderParams, PayOrderParams, cancelled,
}
use rocket_maintenance.Order.Part.{Part}
use rocket_maintenance.Order.Ports.{Service}
use rocket_maintenance.Order.Table.{OrderTable}
use rocket_maintenance.Order.Service
use rocket_maintenance.Order.Lifecycle.{Quiet}
use rocket_maintenance.Order.Steps.{
  Answer, Task, lists, stores, reads_to_pay, charges, settles, announces, reads, reads_to_cancel,
  cancels, completes, ended, step, ends, after_price, after_list, after_check, after_read,
  after_parse, after_charge, after_settle, after_status, after_cancel_read,
}
use rocket_maintenance.Order.Steps.Drift.{
  Drift, same, Fits, create-Drift, update-Drift, paid-Advanced, cancelled-Advanced,
  completed-Advanced,
}

-- What follows a call leaves the state as the call does.
module _ {W : Type 0} where
  ends-1 :
      {A : Type 0} (op : String) (f : A → Answer) (r : Result OrderError A × W)
      → (ends op f r).1 ≡ r.1
  ends-1 op f (ok a, w) = refl
  ends-1 op f (err e, w) = refl

  after_price-1 :
      (p : CreateOrderParams) (r : Result OrderError Int64) (w : W) → (after_price p r w).1 ≡ w
  after_price-1 p (ok n) w = refl
  after_price-1 p (err e) w = refl

  after_list-1 :
      (p : CreateOrderParams) (r : Result OrderError (List Part) × W) → (after_list p r).1 ≡ r.1
  after_list-1 p (ok ps, w) = after_price-1 p (Service.price_parts p ps) w
  after_list-1 p (err e, w) = refl

  after_check-1 :
      (p : PayOrderParams) (o : Order) (r : Result OrderError (Unit {0})) (w : W)
      → (after_check p o r w).1 ≡ w
  after_check-1 p o (ok _) w = refl
  after_check-1 p o (err e) w = refl

  after_read-1 : (p : PayOrderParams) (r : Result OrderError Order × W) → (after_read p r).1 ≡ r.1
  after_read-1 p (ok o, w) = after_check-1 p o (Service.payable o.status) w
  after_read-1 p (err e, w) = refl

  after_parse-1 :
      (p : PayOrderParams) (o : Order) (r : Result String Uuid) (w : W)
      → (after_parse p o r w).1 ≡ w
  after_parse-1 p o (ok _) w = refl
  after_parse-1 p o (err e) w = refl

  after_charge-1 :
      (parse : String → Result String Uuid) (p : PayOrderParams) (o : Order)
      (r : Result OrderError String × W)
      → (after_charge parse p o r).1 ≡ r.1
  after_charge-1 parse p o (ok s, w) = after_parse-1 p o (parse s) w
  after_charge-1 parse p o (err e, w) = refl

  after_settle-1 :
      (p : PayOrderParams) (o : Order) (tx : Uuid) (r : Result OrderError (Unit {0}) × W)
      → (after_settle p o tx r).1 ≡ r.1
  after_settle-1 p o tx (ok _, w) = refl
  after_settle-1 p o tx (err e, w) = refl

  after_status-1 : (o : Order) (s : OrderStatus) (w : W) → (after_status o s w).1 ≡ w
  after_status-1 o s w = ground arith

  after_cancel_read-1 : (r : Result OrderError Order × W) → (after_cancel_read r).1 ≡ r.1
  after_cancel_read-1 (ok o, w) = after_status-1 o o.status w
  after_cancel_read-1 (err e, w) = refl

module _ {W : Type 0} (svc : Service W) (t : OrderTable svc.repo) (q : Quiet svc t) where
  pub step-Drift :
      (task : Task) (k : Uuid) (w : W)
      → Fits svc t w task
      → Drift (t.row w k) (t.row (step svc task w).1 k)
  unfolding step
  step-Drift (lists p) k w h =
      same (ap (λ w'. t.row w' k) (after_list-1 p (svc.inventory.list_parts _ w)) ∙ q.list _ k w)
  step-Drift (stores p total) k w h =
      let o = Service.new_order p total in
      rw
        (ends-1 Service.create_op (λ id. Answer.created (record { id = id; total_price = total }))
          (svc.repo.create o w))
        (create-Drift svc t o k w refl refl (svc.repo.create o w) refl)
  step-Drift (reads_to_pay p) k w h =
      same (ap (λ w'. t.row w' k) (after_read-1 p (svc.repo.order_by_id p.id w)) ∙ q.read _ k w)
  step-Drift (charges p o) k w h = same (
      ap (λ w'. t.row w' k) (after_charge-1 svc.uuids.parse p o (svc.payment.pay_order _ w))
      ∙ q.charge _ k w)
  step-Drift (settles p o tx) k w h =
      let upd = Service.mark_paid o p.payment_method tx in
      rw (after_settle-1 p o tx (svc.repo.update upd w))
        (update-Drift svc t upd k w refl (λ old. paid-Advanced svc t w o old p.payment_method tx h))
  step-Drift (announces p o tx) k w h =
      let (ev, w') = svc.uuids.random w in
      same (
        ap (λ w'. t.row w' k) (ends-1 Service.pay_op _ (svc.producer.send_order_paid _ w'))
        ∙ q.send _ k w'
        ∙ q.draw k w)
  step-Drift (reads id) k w h =
      same (ap (λ w'. t.row w' k) (ends-1 _ _ (svc.repo.order_by_id id w)) ∙ q.read _ k w)
  step-Drift (reads_to_cancel id) k w h =
      same (ap (λ w'. t.row w' k) (after_cancel_read-1 (svc.repo.order_by_id id w)) ∙ q.read _ k w)
  step-Drift (cancels o) k w h =
      let upd = record o { status = cancelled } in
      rw (ends-1 Service.cancel_op (λ _. Answer.done) (svc.repo.update upd w))
        (update-Drift svc t upd k w refl (λ old. cancelled-Advanced svc t w o old h))
  step-Drift (completes id) k w h =
      let upd = Service.completed_order id in
      rw (ends-1 Service.complete_op (λ _. Answer.done) (svc.repo.update upd w))
        (update-Drift svc t upd k w refl (λ old _. completed-Advanced svc t id old))
  step-Drift (ended r) k w h = same refl
