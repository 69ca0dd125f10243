-- ===== src/Order/Service/Pay.antt =====
-- What `Pay` has done by the time it succeeds, and when it refuses.
use rocket_maintenance.Common.{
  ◌≡◌, ◌≢◌, refl, ap, ◌∙◌, some, String, ok, err, on_err, map_err, lift, ◌>>=◌, ◌>>◌, >>=-eq-ok,
  on_err-eq-ok, arith, Result, Action, wrap, sentinel, new_error, pure,
}
use rocket_maintenance.Common.Uuids.{Uuid}
use rocket_maintenance.Order.Model.{
  Order, OrderStatus, OrderError, pending_payment, paid, cancelled, completed, unset, other_status,
  PayOrderParams, PayOrderResult, order_sentinels, Sentinel, order_conflict, unknown_status,
  bad_gateway,
}
use rocket_maintenance.Order.Ports.{Service}
use rocket_maintenance.Order.Table.{OrderTable, merge}
use rocket_maintenance.Order.Service.{
  pay, charge, settle, announce, payable, pay_op, mark_paid, paid_event,
}

-- `ok` from the `switch` means the first case.
payable-ok : (s : OrderStatus) {r : Unit {0}} → payable s ≡ ok r → s ≡ pending_payment
unfolding payable
payable-ok s h = ground arith

-- What an order that is not pending payment is refused with.
abbrev pub refusal : OrderStatus → Sentinel
refusal paid = order_conflict
refusal cancelled = order_conflict
refusal _ = unknown_status

-- The stages of a payment that succeeds, from the state `w` to the state `w'`: each call begins in the
-- state that the one before it has left, so that these are all the calls.
pub record PayRun {W : Type 0} (svc : Service W) (t : OrderTable svc.repo) (params : PayOrderParams)
    (r : PayOrderResult) (w w' : W) : Type 0 where
  pub ord : Order
  pub old : Order
  pub receipt : String
  pub tx : Uuid
  pub event_id : Uuid
  pub asked : W
  pub charged : W
  pub stored : W
  pub drawn : W
  pub read_call : svc.repo.order_by_id params.id w ≡ (ok ord, asked)
  pub read : t.row w params.id ≡ some ord
  pub key : ord.id ≡ params.id
  pub was_pending : ord.status ≡ pending_payment
  pub charge :
      svc.payment.pay_order (record params { user_id = ord.user_id }) asked ≡ (ok receipt, charged)
  pub parsed : svc.uuids.parse receipt ≡ ok tx
  pub returned : tx ≡ r.transaction_id
  pub update : svc.repo.update (mark_paid ord params.payment_method tx) charged ≡ (ok tt, stored)
  pub current : t.row charged ord.id ≡ some old
  pub written :
      t.row stored ord.id
      ≡ some (
          merge
            (record ord {
              transaction_id = some tx;
              payment_method = some params.payment_method;
              status = paid;
            })
            old)
  pub draw : svc.uuids.random stored ≡ (event_id, drawn)
  pub sent :
      svc.producer.send_order_paid
        (record {
          event_id = event_id;
          order_id = ord.id;
          user_id = ord.user_id;
          payment_method = params.payment_method;
          transaction_id = tx;
        })
        drawn
      ≡ (ok tt, w')

module _ {W : Type 0} (svc : Service W) where
  -- An announcement that succeeds has sent the event under the id that was drawn.
  announce_ok :
      (params : PayOrderParams) (ord : Order) (tx : Uuid) (r : PayOrderResult) (w w' : W)
      → announce svc params ord tx w ≡ (ok r, w')
      → let (event_id, drawn) = svc.uuids.random w in
        (tx ≡ r.transaction_id)
        × (svc.producer.send_order_paid (paid_event event_id ord params.payment_method tx) drawn
            ≡ (ok tt, w'))
  unfolding announce
  announce_ok params ord tx r w w' h =
      let (ev, drawn) = svc.uuids.random w in
      let send : Action W OrderError (Unit {0}) =
        on_err (svc.producer.send_order_paid (paid_event ev ord params.payment_method tx))
          (wrap pay_op) in
      let done : Action W OrderError PayOrderResult = pure (record { transaction_id = tx }) in
      let (u, w₁, e, k) = >>=-eq-ok send (λ _. done) drawn h in
      let (_, back) : (tx ≡ r.transaction_id) × (w₁ ≡ w') = ground arith in
      (
        ground arith,
        rw (← back) (on_err-eq-ok (svc.producer.send_order_paid _) (wrap pay_op) drawn e),
      )

  settle_ok :
      (params : PayOrderParams) (ord : Order) (tx : Uuid) (r : PayOrderResult) (w w' : W)
      → settle svc params ord tx w ≡ (ok r, w')
      → (stored : W) × (svc.repo.update (mark_paid ord params.payment_method tx) w
          ≡ (ok tt, stored))
        × (announce svc params ord tx stored ≡ (ok r, w'))
  unfolding settle
  settle_ok params ord tx r w w' h =
      let write : Action W OrderError (Unit {0}) =
        on_err (svc.repo.update (mark_paid ord params.payment_method tx)) (wrap pay_op) in
      let (u, stored, e, k) = >>=-eq-ok write (λ _. announce svc params ord tx) w h in
      (stored, on_err-eq-ok (svc.repo.update _) (wrap pay_op) w e, k)

  charge_ok :
      (params : PayOrderParams) (ord : Order) (r : PayOrderResult) (w w' : W)
      → charge svc params ord w ≡ (ok r, w')
      → (receipt : String) × (tx : Uuid) × (charged : W) × (svc.payment.pay_order
            (record params { user_id = ord.user_id })
            w
          ≡ (ok receipt, charged))
        × (svc.uuids.parse receipt ≡ ok tx)
        × (settle svc params ord tx charged ≡ (ok r, w'))
  unfolding charge
  charge_ok params ord r w w' h =
      let read_tx : String → Action W OrderError Uuid =
        λ s. lift (map_err (λ e. wrap pay_op (new_error e)) (svc.uuids.parse s)) in
      let call : Action W OrderError String =
        on_err (svc.payment.pay_order (record params { user_id = ord.user_id }))
          (λ _. wrap pay_op (sentinel bad_gateway)) in
      let (receipt, charged, e, k) =
        >>=-eq-ok call (λ s. read_tx s >>= settle svc params ord) w h in
      let (tx, parsed, e', k') = >>=-eq-ok (read_tx receipt) (settle svc params ord) charged k in
      (
        receipt,
        tx,
        charged,
        on_err-eq-ok (svc.payment.pay_order _) _ w e,
        ground arith,
        ground arith,
      )

  pay_stages :
      (params : PayOrderParams) (r : PayOrderResult) (w w' : W)
      → pay svc params w ≡ (ok r, w')
      → (ord : Order) × (asked : W) × (svc.repo.order_by_id params.id w ≡ (ok ord, asked))
        × (ord.status ≡ pending_payment)
        × (charge svc params ord asked ≡ (ok r, w'))
  unfolding pay
  pay_stages params r w w' h =
      let read : Action W OrderError Order =
        on_err (svc.repo.order_by_id params.id) (wrap pay_op) in
      let (ord, asked, e, k) =
        >>=-eq-ok read (λ o. lift (payable o.status) >> charge svc params o) w h in
      let (u, w₁, e', k') =
        >>=-eq-ok (lift (payable ord.status)) (λ _. charge svc params ord) asked k in
      (
        ord,
        asked,
        on_err-eq-ok (svc.repo.order_by_id params.id) (wrap pay_op) w e,
        payable-ok ord.status {r = u} (ground arith),
        ground arith,
      )

module _ {W : Type 0} (svc : Service W) (t : OrderTable svc.repo) where
  -- When `Pay` succeeds, it has made exactly these calls, each in the state that the one before it
  -- left: it read the order, which was pending payment, charged the order's user, whose receipt is
  -- the transaction id returned, updated the row, as it stood after the charge, to be paid with
  -- this transaction and method, drew an id and sent the event with the order's data under it.
  pub pay_ok :
      (params : PayOrderParams) (r : PayOrderResult) (w w' : W)
      → pay svc params w ≡ (ok r, w')
      → PayRun svc t params r w w'
  pay_ok params r w w' h =
      let (ord, asked, found, pending, k₁) = pay_stages svc params r w w' h in
      let (receipt, tx, charged, paid_for, parsed, k₂) = charge_ok svc params ord r asked w' k₁ in
      let (stored, done, k₃) = settle_ok svc params ord tx r charged w' k₂ in
      let (same, sent) = announce_ok svc params ord tx r stored w' k₃ in
      let (old, current, written) =
        t.update_ok (mark_paid ord params.payment_method tx) charged stored done refl in
      record {
        ord = ord;
        old = old;
        receipt = receipt;
        tx = tx;
        event_id = (svc.uuids.random stored).0;
        asked = asked;
        charged = charged;
        stored = stored;
        drawn = (svc.uuids.random stored).1;
        read_call = found;
        read = t.read_ok params.id w asked ord found;
        key = t.row_key w params.id ord (t.read_ok params.id w asked ord found);
        was_pending = pending;
        charge = paid_for;
        parsed = parsed;
        returned = same;
        update = done;
        current = current;
        written = written;
        draw = refl;
        sent = sent;
      }

module _ {W : Type 0} (svc : Service W) where
  -- `Pay` refuses an order that is not pending payment, with a conflict if it is paid or cancelled
  -- and with an unknown status otherwise, and calls nothing after the read.
  pub pay_refused :
      (params : PayOrderParams) (ord : Order) (w asked : W)
      → svc.repo.order_by_id params.id w ≡ (ok ord, asked)
      → ord.status ≢ pending_payment
      → pay svc params w ≡ (err (wrap pay_op (sentinel (refusal ord.status))), asked)
  unfolding pay
  pay_refused params ord w asked h n =
      ap
        (λ (a : Result OrderError Order × W).
          (on_err (λ (_ : W). a) (wrap pay_op) >>= λ o.
          lift (payable o.status) >> charge svc params o)
            w)
        h
      ∙ refuse ord.status n
    where
      refuse :
          (s : OrderStatus)
          → s ≢ pending_payment
          → (lift (payable s) >> charge svc params ord) asked
            ≡ (err (wrap pay_op (sentinel (refusal s))), asked)
      refuse pending_payment n = absurd (n refl)
      refuse paid n = refl
      refuse completed n = refl
      refuse cancelled n = refl
      refuse unset n = refl
      refuse (other_status _) n = refl
