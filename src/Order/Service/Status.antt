-- ===== src/Order/Service/Status.antt =====
-- What `Cancel` and `Complete` do to the stored order.
use rocket_maintenance.Common.{
  ◌≡◌, ◌≢◌, refl, ap, ◌∙◌, ok, err, on_err, ◌>>=◌, >>=-eq-ok, on_err-eq-ok, Result, wrap, sentinel,
  some, arith,
}
use rocket_maintenance.Common.Uuids.{Uuid}
use rocket_maintenance.Order.Model.{
  Order, OrderStatus, OrderError, Sentinel, pending_payment, paid, cancelled, completed, unset,
  other_status, order_conflict, unknown_status,
}
use rocket_maintenance.Order.Ports.{Service}
use rocket_maintenance.Order.Table.{OrderTable, merge}
use rocket_maintenance.Order.Service.{
  cancel, cancel_status, cancel_op, complete, complete_op, completed_order,
}

-- What a cancellation of an order that is not pending payment is refused with.
abbrev pub cancel_refusal : OrderStatus → Sentinel
cancel_refusal paid = order_conflict
cancel_refusal completed = order_conflict
cancel_refusal _ = unknown_status

module _ {W : Type 0} (svc : Service W) where
  -- `Cancel` refuses an order that is not pending payment and writes nothing.
  pub cancel_refused :
      (id : Uuid) (ord : Order) (w read : W)
      → svc.repo.order_by_id id w ≡ (ok ord, read)
      → ord.status ≢ pending_payment
      → cancel svc id w ≡ (err (wrap cancel_op (sentinel (cancel_refusal ord.status))), read)
  unfolding cancel
  cancel_refused id ord w read h n =
      ap
        (λ (a : Result OrderError Order × W).
          (on_err (λ (_ : W). a) (wrap cancel_op) >>= λ o. cancel_status svc o o.status) w)
        h
      ∙ refuse ord.status n
    where
      refuse :
          (s : OrderStatus)
          → s ≢ pending_payment
          → cancel_status svc ord s read
            ≡ (err (wrap cancel_op (sentinel (cancel_refusal s))), read)
      refuse pending_payment n = absurd (n refl)
      refuse paid n = refl
      refuse completed n = refl
      refuse cancelled n = refl
      refuse unset n = refl
      refuse (other_status _) n = refl

  cancel_status-ok :
      (ord : Order) (s : OrderStatus) (w w' : W)
      → cancel_status svc ord s w ≡ (ok tt, w')
      → (s ≡ pending_payment)
        × (svc.repo.update (record ord { status = cancelled }) w ≡ (ok tt, w'))
  unfolding cancel_status
  cancel_status-ok ord pending_payment w w' h = (
    refl,
    on_err-eq-ok (svc.repo.update (record ord { status = cancelled })) (wrap cancel_op) w h,
  )
  cancel_status-ok ord paid w w' h = absurd (ground arith)
  cancel_status-ok ord completed w w' h = absurd (ground arith)
  cancel_status-ok ord cancelled w w' h = absurd (ground arith)
  cancel_status-ok ord unset w w' h = absurd (ground arith)
  cancel_status-ok ord (other_status _) w w' h = absurd (ground arith)

module _ {W : Type 0} (svc : Service W) (t : OrderTable svc.repo) where
  -- When `Cancel` succeeds, the order read was pending payment, and the row as it stood when the
  -- write ran has become cancelled, with the data of the order that was read laid over it.
  pub cancel_ok :
      (id : Uuid) (w w' : W)
      → cancel svc id w ≡ (ok tt, w')
      → (ord : Order) × (old : Order) × (read : W) × (t.row w id ≡ some ord)
        × (ord.status ≡ pending_payment)
        × (t.row read ord.id ≡ some old)
        × (t.row w' ord.id ≡ some (merge (record ord { status = cancelled }) old))
  unfolding cancel
  cancel_ok id w w' h =
      let (ord, read, e, k) =
        >>=-eq-ok (on_err (svc.repo.order_by_id id) (wrap cancel_op))
          (λ o. cancel_status svc o o.status) w h in
      let (pending, written) = cancel_status-ok svc ord ord.status read w' k in
      let (old, before, after) =
        t.update_ok (record ord { status = cancelled }) read w' written refl in
      (
        ord,
        old,
        read,
        t.read_ok id w read ord (on_err-eq-ok (svc.repo.order_by_id id) (wrap cancel_op) w e),
        pending,
        before,
        after,
      )

  -- When `Complete` succeeds, the row existed and only its status has changed, to completed,
  -- whatever the status was.
  pub complete_ok :
      (id : Uuid) (w w' : W)
      → complete svc id w ≡ (ok tt, w')
      → (old : Order) × (t.row w id ≡ some old)
        × (t.row w' id ≡ some (record old { status = completed }))
  unfolding complete
  complete_ok id w w' h =
      t.update_ok (completed_order id) w w'
        (on_err-eq-ok (svc.repo.update (completed_order id)) (wrap complete_op) w h) refl
