-- ===== src/Order/Steps/Reliance.antt =====
-- What a request of the order service relies on of the table between two of its calls, while others
-- write (service/order/service.go).
use rocket_maintenance.Common.{◌≡◌, refl, ◌∙◌, List, ok, err, Result, arith, String}
use rocket_maintenance.Common.Int64.{Int64}
use rocket_maintenance.Common.Uuids.{Uuid}
use rocket_maintenance.Order.Model.{
  Order, OrderStatus, OrderError, CreateOrderParams, PayOrderParams, pending_payment, paid,
  completed, cancelled,
}
use rocket_maintenance.Order.Part.{Part}
use rocket_maintenance.Order.Ports.{Service}
use rocket_maintenance.Order.Table.{OrderTable}
use rocket_maintenance.Order.Service
use rocket_maintenance.Order.Lifecycle.{Quiet}
use rocket_maintenance.Order.Lifecycle.Traces.{SameGoods-refl}
use rocket_maintenance.Order.Steps.{
  Answer, Task, lists, stores, reads_to_pay, charges, settles, announces, reads, reads_to_cancel,
  cancels, completes, ended, step, ends, after_price, after_list, after_check, after_read,
  after_parse, after_charge, after_settle, after_status, after_cancel_read,
}
use rocket_maintenance.Order.Steps.Drift.{Known, Fits}
use rocket_maintenance.Order.Lifecycle.Payments.{read-row}

module _ {W : Type 0} (svc : Service W) (t : OrderTable svc.repo) (q : Quiet svc t) where
  read-Known :
      (id : Uuid) (w : W) (r : Result OrderError Order × W)
      → svc.repo.order_by_id id w ≡ r
      → (o : Order) → r.0 ≡ ok o
      → Known svc t r.1 o
  read-Known id w (ok p, w') e o h =
      let it : p ≡ o = ground arith in
      (p, rw (← it) (read-row svc t q id p w w' e), rw (← it) (SameGoods-refl p))
  read-Known id w (err x, w') e o h = absurd (ground arith)

  Known-kept :
      (o : Order) (w w' : W) → t.row w' o.id ≡ t.row w o.id → Known svc t w o → Known svc t w' o
  Known-kept o w w' e (o', h, g) = (o', e ∙ h, g)

  -- What a request relies on behind a call, by the call's result.
  ends-Fits :
      {A : Type 0} (op : String) (f : A → Answer) (r : Result OrderError A × W)
      → Fits svc t (ends op f r).1 (ends op f r).0
  ends-Fits op f (ok a, w) = tt
  ends-Fits op f (err e, w) = tt

  price-Fits :
      (p : CreateOrderParams) (r : Result OrderError Int64) (w : W)
      → Fits svc t (after_price p r w).1 (after_price p r w).0
  price-Fits p (ok n) w = tt
  price-Fits p (err e) w = tt

  list-Fits :
      (p : CreateOrderParams) (r : Result OrderError (List Part) × W)
      → Fits svc t (after_list p r).1 (after_list p r).0
  list-Fits p (ok ps, w) = price-Fits p (Service.price_parts p ps) w
  list-Fits p (err e, w) = tt

  check-Fits :
      (p : PayOrderParams) (o : Order) (r : Result OrderError (Unit {0})) (w : W)
      → Known svc t w o
      → Fits svc t (after_check p o r w).1 (after_check p o r w).0
  check-Fits p o (ok _) w h = h
  check-Fits p o (err e) w h = tt

  read-Fits :
      (p : PayOrderParams) (r : Result OrderError Order × W)
      → ((o : Order) → r.0 ≡ ok o → Known svc t r.1 o)
      → Fits svc t (after_read p r).1 (after_read p r).0
  read-Fits p (ok o, w) h = check-Fits p o (Service.payable o.status) w (h o refl)
  read-Fits p (err e, w) h = tt

  parse-Fits :
      (p : PayOrderParams) (o : Order) (r : Result String Uuid) (w : W)
      → Known svc t w o
      → Fits svc t (after_parse p o r w).1 (after_parse p o r w).0
  parse-Fits p o (ok tx) w h = h
  parse-Fits p o (err e) w h = tt

  charge-Fits :
      (p : PayOrderParams) (o : Order) (r : Result OrderError String × W)
      → Known svc t r.1 o
      → Fits svc t (after_charge svc.uuids.parse p o r).1 (after_charge svc.uuids.parse p o r).0
  charge-Fits p o (ok s, w) h = parse-Fits p o (svc.uuids.parse s) w h
  charge-Fits p o (err e, w) h = tt

  settle-Fits :
      (p : PayOrderParams) (o : Order) (tx : Uuid) (r : Result OrderError (Unit {0}) × W)
      → Fits svc t (after_settle p o tx r).1 (after_settle p o tx r).0
  settle-Fits p o tx (ok _, w) = tt
  settle-Fits p o tx (err e, w) = tt

  status-Fits :
      (o : Order) (s : OrderStatus) (w : W)
      → Known svc t w o
      → Fits svc t (after_status o s w).1 (after_status o s w).0
  status-Fits o pending_payment w h = h
  status-Fits o paid w h = tt
  status-Fits o completed w h = tt
  status-Fits o cancelled w h = tt
  status-Fits o _ w h = tt

  cancel-Fits :
      (r : Result OrderError Order × W)
      → ((o : Order) → r.0 ≡ ok o → Known svc t r.1 o)
      → Fits svc t (after_cancel_read r).1 (after_cancel_read r).0
  cancel-Fits (ok o, w) h = status-Fits o o.status w (h o refl)
  cancel-Fits (err e, w) h = tt

  pub step-Fits :
      (task : Task) (w : W) → Fits svc t w task → Fits svc t (step svc task w).1 (step svc task w).0
  unfolding step
  step-Fits (lists p) w h = list-Fits p (svc.inventory.list_parts _ w)
  step-Fits (stores p total) w h = ends-Fits _ _ (svc.repo.create _ w)
  step-Fits (reads_to_pay p) w h =
      read-Fits p (svc.repo.order_by_id p.id w) (read-Known p.id w _ refl)
  step-Fits (charges p o) w h =
      charge-Fits p o (svc.payment.pay_order _ w) (Known-kept o w _ (q.charge _ o.id w) h)
  step-Fits (settles p o tx) w h = settle-Fits p o tx (svc.repo.update _ w)
  step-Fits (announces p o tx) w h =
      let (ev, w') = svc.uuids.random w in ends-Fits _ _ (svc.producer.send_order_paid _ w')
  step-Fits (reads id) w h = ends-Fits _ _ (svc.repo.order_by_id id w)
  step-Fits (reads_to_cancel id) w h =
      cancel-Fits (svc.repo.order_by_id id w) (read-Known id w _ refl)
  step-Fits (cancels o) w h = ends-Fits _ _ (svc.repo.update _ w)
  step-Fits (completes id) w h = ends-Fits _ _ (svc.repo.update _ w)
  step-Fits (ended r) w h = tt
