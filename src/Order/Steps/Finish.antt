-- ===== src/Order/Steps/Finish.antt =====
-- What is left of a request (service/order/service.go), done in one go: a step changes nothing of it.
use rocket_maintenance.Common.{
  ◌≡◌, refl, String, List, Result, ok, err, wrap, ◌>>=◌, ◌>>◌, on_err, lift, sentinel, new_error,
  map_err, pure, is_empty, ◌||◌, ◌==◌, Bool-cases, inl, inr,
}
use rocket_maintenance.Common.Int64.{Int64}
use rocket_maintenance.Common.Uuids.{Uuid, nil}
use rocket_maintenance.Order.Model.{
  Order, OrderStatus, OrderError, CreateOrderParams, PayOrderParams, pending_payment, paid,
  completed, cancelled, bad_gateway,
}
use rocket_maintenance.Order.Part.{Part}
use rocket_maintenance.Order.Ports.{Service}
use rocket_maintenance.Order.Service
use rocket_maintenance.Order.Lifecycle.{Request, creates, pays, gets, handle}
use rocket_maintenance.Order.Steps.{
  Answer, created, charged, found, done, Task, lists, stores, reads_to_pay, charges, settles,
  announces, reads, reads_to_cancel, cancels, completes, ended, start, ends, after_price,
  after_list, after_check, after_read, after_parse, after_charge, after_settle, after_status,
  after_cancel_read, step,
}

abbrev pub as_answer :
    {A W : Type 0} → (A → Answer) → Result OrderError A × W → Result OrderError Answer × W
as_answer f (ok a, w) = (ok (f a), w)
as_answer f (err e, w) = (err e, w)

as_answer-1 :
    {A W : Type 0} (f : A → Answer) (r : Result OrderError A × W) → (as_answer f r).1 ≡ r.1
as_answer-1 f (ok a, w) = refl
as_answer-1 f (err e, w) = refl

module _ {W : Type 0} (svc : Service W) where
  -- What the service's operations make of a request in one go.
  unfoldable pub serve : Request → W → Result OrderError Answer × W
  serve (creates p) w = as_answer created (Service.create svc p w)
  serve (pays p) w = as_answer charged (Service.pay svc p w)
  serve (gets id) w = as_answer found (Service.order_by_id svc id w)
  serve (Request.cancels id) w = as_answer (λ _. done) (Service.cancel svc id w)
  serve (Request.completes id) w = as_answer (λ _. done) (Service.complete svc id w)

  -- What they make of the rest of one.
  unfoldable pub finish : Task → W → Result OrderError Answer × W
  finish (lists p) w = as_answer created (Service.order_parts svc p w)
  finish (stores p total) w = as_answer created (Service.store svc p total w)
  finish (reads_to_pay p) w = as_answer charged (Service.pay svc p w)
  finish (charges p o) w = as_answer charged (Service.charge svc p o w)
  finish (settles p o tx) w = as_answer charged (Service.settle svc p o tx w)
  finish (announces p o tx) w = as_answer charged (Service.announce svc p o tx w)
  finish (reads id) w = as_answer found (Service.order_by_id svc id w)
  finish (reads_to_cancel id) w = as_answer (λ _. done) (Service.cancel svc id w)
  finish (cancels o) w = as_answer (λ _. done) (Service.cancel_status svc o pending_payment w)
  finish (completes id) w = as_answer (λ _. done) (Service.complete svc id w)
  finish (ended r) w = (r, w)

  abbrev pub Goes : Result OrderError Answer × W → Task × W → Type 0
  Goes r tw = finish tw.0 tw.1 ≡ r

  price-lem :
      (p : CreateOrderParams) (r : Result OrderError Int64) (w : W)
      → Goes (as_answer created ((lift r >>= Service.store svc p) w)) (after_price p r w)
  unfolding finish
  price-lem p (ok total) w = refl
  price-lem p (err e) w = refl

  -- Each call, by its result `r`.
  module _ (w₀ : W) where
    ends-lem :
        {A B : Type 0} (op : String) (h : A → B) (f : B → Answer) (r : Result OrderError A × W)
        → Goes
            (as_answer f ((on_err (λ (_ : W). r) (wrap op) >>= λ a. pure (h a)) w₀))
            (ends op (λ a. f (h a)) r)
    unfolding finish
    ends-lem op h f (ok a, w) = refl
    ends-lem op h f (err e, w) = refl

    last-lem :
        {A : Type 0} (op : String) (f : A → Answer) (r : Result OrderError A × W)
        → Goes (as_answer f (on_err (λ (_ : W). r) (wrap op) w₀)) (ends op f r)
    unfolding finish
    last-lem op f (ok a, w) = refl
    last-lem op f (err e, w) = refl

    list-lem :
        (p : CreateOrderParams) (r : Result OrderError (List Part) × W)
        → Goes
            (as_answer created (
              (on_err (λ (_ : W). r) (λ _. wrap Service.create_op (sentinel bad_gateway))
                  >>= λ parts. lift (Service.price_parts p parts) >>= Service.store svc p)
                w₀))
            (after_list p r)
    unfolding finish
    list-lem p (ok parts, w) = price-lem p (Service.price_parts p parts) w
    list-lem p (err e, w) = refl

    check-lem :
        (p : PayOrderParams) (o : Order) (r : Result OrderError (Unit {0})) (w : W)
        → Goes (as_answer charged ((lift r >> Service.charge svc p o) w)) (after_check p o r w)
    unfolding finish
    check-lem p o (ok _) w = refl
    check-lem p o (err e) w = refl

    read-lem :
        (p : PayOrderParams) (r : Result OrderError Order × W)
        → Goes
            (as_answer charged (
              (on_err (λ (_ : W). r) (wrap Service.pay_op) >>= λ o.
              lift (Service.payable o.status) >> Service.charge svc p o)
                w₀))
            (after_read p r)
    unfolding finish
    read-lem p (ok o, w) = check-lem p o (Service.payable o.status) w
    read-lem p (err e, w) = refl

    parse-lem :
        (p : PayOrderParams) (o : Order) (r : Result String Uuid) (w : W)
        → Goes
            (as_answer charged (
              (lift (map_err (λ e. wrap Service.pay_op (new_error e)) r) >>= Service.settle svc p o)
                w))
            (after_parse p o r w)
    unfolding finish
    parse-lem p o (ok tx) w = refl
    parse-lem p o (err e) w = refl

    charge-lem :
        (p : PayOrderParams) (o : Order) (r : Result OrderError String × W)
        → Goes
            (as_answer charged (
              (on_err (λ (_ : W). r) (λ _. wrap Service.pay_op (sentinel bad_gateway))
                  >>= λ receipt.
                      lift
                        (map_err (λ e. wrap Service.pay_op (new_error e)) (svc.uuids.parse receipt))
                      >>= Service.settle svc p o)
                w₀))
            (after_charge svc.uuids.parse p o r)
    unfolding finish
    charge-lem p o (ok receipt, w) = parse-lem p o (svc.uuids.parse receipt) w
    charge-lem p o (err e, w) = refl

    settle-lem :
        (p : PayOrderParams) (o : Order) (tx : Uuid) (r : Result OrderError (Unit {0}) × W)
        → Goes
            (as_answer charged
              ((on_err (λ (_ : W). r) (wrap Service.pay_op) >> Service.announce svc p o tx) w₀))
            (after_settle p o tx r)
    unfolding finish
    settle-lem p o tx (ok _, w) = refl
    settle-lem p o tx (err e, w) = refl

    status-lem :
        (o : Order) (s : OrderStatus) (w : W)
        → Goes (as_answer (λ _. done) (Service.cancel_status svc o s w)) (after_status o s w)
    unfolding finish Service.cancel_status
    status-lem o pending_payment w = refl
    status-lem o paid w = refl
    status-lem o completed w = refl
    status-lem o cancelled w = refl
    status-lem o _ w = refl

    cancel-lem :
        (r : Result OrderError Order × W)
        → Goes
            (as_answer
              (λ _. done)
              ((on_err (λ (_ : W). r) (wrap Service.cancel_op) >>= λ o.
                  Service.cancel_status svc o o.status)
                w₀))
            (after_cancel_read r)
    unfolding finish
    cancel-lem (ok o, w) = status-lem o o.status w
    cancel-lem (err e, w) = refl

  -- A step changes nothing of what a request comes to.
  pub finish-step : (t : Task) (w : W) → Goes (finish t w) (step svc t w)
  unfolding step finish Service.order_parts Service.store Service.pay Service.charge Service.settle
      Service.announce Service.order_by_id Service.cancel Service.cancel_status Service.complete
  finish-step (lists p) w = list-lem w p (svc.inventory.list_parts _ w)
  finish-step (stores p total) w = ends-lem w _ _ _ (svc.repo.create _ w)
  finish-step (reads_to_pay p) w = read-lem w p (svc.repo.order_by_id p.id w)
  finish-step (charges p o) w = charge-lem w p o (svc.payment.pay_order _ w)
  finish-step (settles p o tx) w = settle-lem w p o tx (svc.repo.update _ w)
  finish-step (announces p o tx) w =
      let (ev, w') = svc.uuids.random w in ends-lem w' _ _ _ (svc.producer.send_order_paid _ w')
  finish-step (reads id) w = last-lem w _ _ (svc.repo.order_by_id id w)
  finish-step (reads_to_cancel id) w = cancel-lem w (svc.repo.order_by_id id w)
  finish-step (cancels o) w = last-lem w _ _ (svc.repo.update _ w)
  finish-step (completes id) w = last-lem w _ _ (svc.repo.update _ w)
  finish-step (ended r) w = refl

  pub finish-start : (req : Request) (w : W) → finish (start req) w ≡ serve req w
  unfolding finish serve Service.create
  finish-start (creates p) w = elim (Bool-cases (p.user_id == nil || is_empty p.part_ids)) [
    | inl bad ↦ rw bad refl
    | inr good ↦ rw good refl
  ]
  finish-start (pays p) w = refl
  finish-start (gets id) w = refl
  finish-start (Request.cancels id) w = refl
  finish-start (Request.completes id) w = refl

  -- The state that a request leaves does not depend on how its answer is read.
  pub serve-handle : (req : Request) (w : W) → (serve req w).1 ≡ handle svc req w
  unfolding serve handle
  serve-handle (creates p) w = as_answer-1 created (Service.create svc p w)
  serve-handle (pays p) w = as_answer-1 charged (Service.pay svc p w)
  serve-handle (gets id) w = as_answer-1 found (Service.order_by_id svc id w)
  serve-handle (Request.cancels id) w = as_answer-1 (λ _. done) (Service.cancel svc id w)
  serve-handle (Request.completes id) w = as_answer-1 (λ _. done) (Service.complete svc id w)
