-- ===== src/Order/Lifecycle/Payments.antt =====
-- `Pay` settles a pending order, or changes no row.
use rocket_maintenance.Common.{
  ◌≡◌, refl, sym, ap, ◌∙◌, some, ok, lift, map_err, ◌>>=◌, ◌>>◌, Action, Result, wrap, sentinel,
  new_error, String, pure, >>=_rule, on_err->>=_rule,
}
use rocket_maintenance.Common.Uuids.{Uuid}
use rocket_maintenance.Order.Model.{
  Order, OrderStatus, OrderError, PayOrderParams, pending_payment, bad_gateway,
}
use rocket_maintenance.Order.Ports.{Service}
use rocket_maintenance.Order.Table.{OrderTable}
use rocket_maintenance.Order.Service
use rocket_maintenance.Order.Lifecycle.{Move, same, Quiet}
use rocket_maintenance.Order.Lifecycle.Writes.{update-Wrote, Wrote-settled}

module _ {W : Type 0} (svc : Service W) (t : OrderTable svc.repo) (q : Quiet svc t) where
  -- The state behind a call that leaves the rows alone.
  pub behind :
      {E A : Type 0} (m : Action W E A) (k : Uuid) (w w₁ : W) {r : Result E A}
      → t.row (m w).1 k ≡ t.row w k
      → m w ≡ (r, w₁)
      → t.row w₁ k ≡ t.row w k
  behind {E} {A} m k w w₁ kept e = sym (ap (λ (r : Result E A × W). t.row r.1 k) e) ∙ kept

  -- The row of the order that was read, behind the read.
  pub read-row :
      (id : Uuid) (o : Order) (w w₁ : W)
      → svc.repo.order_by_id id w ≡ (ok o, w₁)
      → t.row w₁ o.id ≡ some o
  read-row id o w w₁ e =
      let found = t.read_ok id w w₁ o e in
      cc (
        found,
        behind (svc.repo.order_by_id id) id w w₁ (q.read id id w) e,
        ap (t.row w₁) (t.row_key w id o found),
      )

  announce-row :
      (params : PayOrderParams) (ord : Order) (tx k : Uuid) (w : W)
      → t.row (Service.announce svc params ord tx w).1 k ≡ t.row w k
  unfolding Service.announce
  announce-row params ord tx k w =
      let (ev, drawn) = svc.uuids.random w in
      let event = Service.paid_event ev ord params.payment_method tx in
      on_err->>=_rule (λ w'. t.row w' k ≡ t.row w k) (svc.producer.send_order_paid event)
        (wrap Service.pay_op) (λ _. pure (record { transaction_id = tx })) drawn
        (λ a w₁ e.
          behind (svc.producer.send_order_paid event) k drawn w₁ (q.send event k drawn) e
          ∙ q.draw k w)
        (λ x w₁ e.
          behind (svc.producer.send_order_paid event) k drawn w₁ (q.send event k drawn) e
          ∙ q.draw k w)

  settle-Move :
      (params : PayOrderParams) (ord : Order) (tx k : Uuid) (w : W)
      → t.row w ord.id ≡ some ord
      → ord.status ≡ pending_payment
      → Move (t.row w k) (t.row (Service.settle svc params ord tx w).1 k)
  unfolding Service.settle
  settle-Move params ord tx k w stored pending =
      let upd = Service.mark_paid ord params.payment_method tx in
      let wrote = update-Wrote svc t upd k w refl in
      let moved : (w₁ : W) → (svc.repo.update upd w).1 ≡ w₁ → Move (t.row w k) (t.row w₁ k) =
        λ w₁ e.
          rw (← e) (Wrote-settled svc t ord params.payment_method tx k w _ stored pending wrote) in
      on_err->>=_rule (λ w'. Move (t.row w k) (t.row w' k)) (svc.repo.update upd)
        (wrap Service.pay_op) (λ _. Service.announce svc params ord tx) w
        (λ a w₁ e.
          rw (announce-row params ord tx k w₁)
            (moved w₁ (ap (λ (r : Result OrderError (Unit {0}) × W). r.1) e)))
        (λ x w₁ e. moved w₁ (ap (λ (r : Result OrderError (Unit {0}) × W). r.1) e))

  charge-Move :
      (params : PayOrderParams) (ord : Order) (k : Uuid) (w : W)
      → t.row w ord.id ≡ some ord
      → ord.status ≡ pending_payment
      → Move (t.row w k) (t.row (Service.charge svc params ord w).1 k)
  unfolding Service.charge
  charge-Move params ord k w stored pending =
      let call = svc.payment.pay_order (record params { user_id = ord.user_id }) in
      let read_tx : String → Action W OrderError Uuid =
        λ s. lift (map_err (λ e. wrap Service.pay_op (new_error e)) (svc.uuids.parse s)) in
      let P : W → Type 0 = λ w'. Move (t.row w k) (t.row w' k) in
      let kept : (j : Uuid) → t.row (call w).1 j ≡ t.row w j =
        λ j. q.charge (record params { user_id = ord.user_id }) j w in
      on_err->>=_rule P call (λ _. wrap Service.pay_op (sentinel bad_gateway))
        (λ s. read_tx s >>= Service.settle svc params ord) w
        (λ s w₁ e.
          >>=_rule P (read_tx s) (Service.settle svc params ord) w₁
            (λ tx w₂ e₂.
              let there : w₁ ≡ w₂ = ap (λ (r : Result OrderError Uuid × W). r.1) e₂ in
              rw (← there) (
                rw (← behind call k w w₁ (kept k) e) (
                  settle-Move params ord tx k w₁ (behind call ord.id w w₁ (kept ord.id) e ∙ stored)
                    pending)))
            (λ x w₂ e₂.
              let there : w₁ ≡ w₂ = ap (λ (r : Result OrderError Uuid × W). r.1) e₂ in
              rw (← there) (same (behind call k w w₁ (kept k) e))))
        (λ x w₁ e. same (behind call k w w₁ (kept k) e))

  pub pay-Move :
      (params : PayOrderParams) (k : Uuid) (w : W)
      → Move (t.row w k) (t.row (Service.pay svc params w).1 k)
  unfolding Service.pay
  pay-Move params k w =
      let read = svc.repo.order_by_id params.id in
      let P : W → Type 0 = λ w'. Move (t.row w k) (t.row w' k) in
      on_err->>=_rule P read (wrap Service.pay_op)
        (λ o. lift (Service.payable o.status) >> Service.charge svc params o) w
        (λ o w₁ e. checked o w₁ e o.status refl)
        (λ x w₁ e. same (behind read k w w₁ (q.read params.id k w) e))
    where
      checked :
          (o : Order) (w₁ : W)
          → svc.repo.order_by_id params.id w ≡ (ok o, w₁)
          → (s : OrderStatus) → o.status ≡ s
          → Move
              (t.row w k)
              (t.row ((lift (Service.payable s) >> Service.charge svc params o) w₁).1 k)
      checked o w₁ e pending_payment p =
          rw (← behind (svc.repo.order_by_id params.id) k w w₁ (q.read params.id k w) e)
            (charge-Move params o k w₁ (read-row params.id o w w₁ e) p)
      checked o w₁ e _ p =
          same (behind (svc.repo.order_by_id params.id) k w w₁ (q.read params.id k w) e)
