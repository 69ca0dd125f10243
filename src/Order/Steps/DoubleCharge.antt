-- ===== src/Order/Steps/DoubleCharge.antt =====
-- Two payments of one order at the same time (service/order/service.go).
use rocket_maintenance.Common.{
  ◌≡◌, refl, sym, ℕ, ap, ◌∙◌, some, List, [], ◌∷◌, ok, String, Result, map,
}
use rocket_maintenance.Common.Uuids.{Uuid}
use rocket_maintenance.Order.Model.{Order, OrderStatus, PayOrderParams, pending_payment}
use rocket_maintenance.Order.Ports.{Service}
use rocket_maintenance.Order.Table.{OrderTable, merge}
use rocket_maintenance.Order.Service
use rocket_maintenance.Order.Lifecycle.{pays}
use rocket_maintenance.Order.Steps.{
  Task, reads_to_pay, charges, settles, announces, start, step, step_at, run, after_check,
  after_read, after_parse, after_charge, after_settle,
}

module _ {W : Type 0} (svc : Service W) where
  reads_pending :
      (p : PayOrderParams) (o : Order) (w w' : W)
      → svc.repo.order_by_id p.id w ≡ (ok o, w')
      → o.status ≡ pending_payment
      → step svc (reads_to_pay p) w ≡ (charges p o, w')
  unfolding step Service.payable
  reads_pending p o w w' e s =
      ap (after_read p) e ∙ ap (λ (s' : OrderStatus). after_check p o (Service.payable s') w') s

  charges_ok :
      (p : PayOrderParams) (o : Order) (receipt : String) (tx : Uuid) (w w' : W)
      → svc.payment.pay_order (record p { user_id = o.user_id }) w ≡ (ok receipt, w')
      → svc.uuids.parse receipt ≡ ok tx
      → step svc (charges p o) w ≡ (settles p o tx, w')
  unfolding step
  charges_ok p o receipt tx w w' e f =
      ap (after_charge svc.uuids.parse p o) e
      ∙ ap (λ (r : Result String Uuid). after_parse p o r w') f

  settles_ok :
      (p : PayOrderParams) (o : Order) (tx : Uuid) (w w' : W)
      → svc.repo.update (Service.mark_paid o p.payment_method tx) w ≡ (ok tt, w')
      → step svc (settles p o tx) w ≡ (announces p o tx, w')
  unfolding step
  settles_ok p o tx w w' e = ap (after_settle p o tx) e

  -- A step of the first request, then one of the second.
  both :
      (is : List ℕ) (s t s' t' : Task) (w w₁ w₂ : W)
      → step svc s w ≡ (s', w₁)
      → step svc t w₁ ≡ (t', w₂)
      → run svc (0 ∷ 1 ∷ is) (s ∷ t ∷ []) w ≡ run svc is (s' ∷ t' ∷ []) w₂
  unfolding run step_at
  both is s t s' t' w w₁ w₂ e f =
      ap (λ (r : Task × W). run svc is (r.0 ∷ (step svc t r.1).0 ∷ []) (step svc t r.1).1) e
      ∙ ap (λ (r : Task × W). run svc is (s' ∷ r.0 ∷ []) r.1) f

module _ {W : Type 0} (svc : Service W) (t : OrderTable svc.repo) where
  -- Two payments of one order whose calls run in turn, with both reads finding it pending and all
  -- calls successful, both charge and both reach the announcement, and the transaction that the
  -- first has recorded is overwritten by that of the second.
  pub both_pay :
      (p p' : PayOrderParams) (o o' : Order) (receipt receipt' : String) (tx tx' : Uuid)
      (w w₁ w₂ w₃ w₄ w₅ w₆ : W)
      → svc.repo.order_by_id p.id w ≡ (ok o, w₁)
      → o.status ≡ pending_payment
      → svc.repo.order_by_id p'.id w₁ ≡ (ok o', w₂)
      → o'.status ≡ pending_payment
      → svc.payment.pay_order (record p { user_id = o.user_id }) w₂ ≡ (ok receipt, w₃)
      → svc.uuids.parse receipt ≡ ok tx
      → svc.payment.pay_order (record p' { user_id = o'.user_id }) w₃ ≡ (ok receipt', w₄)
      → svc.uuids.parse receipt' ≡ ok tx'
      → svc.repo.update (Service.mark_paid o p.payment_method tx) w₄ ≡ (ok tt, w₅)
      → svc.repo.update (Service.mark_paid o' p'.payment_method tx') w₅ ≡ (ok tt, w₆)
      → p'.id ≡ p.id
      → (run svc (0 ∷ 1 ∷ 0 ∷ 1 ∷ 0 ∷ 1 ∷ []) (map start (pays p ∷ pays p' ∷ [])) w
          ≡ (announces p o tx ∷ announces p' o' tx' ∷ [], w₆))
        × ((a : Order) × (t.row w₅ p.id ≡ some a) × (a.transaction_id ≡ some tx))
        × ((b : Order) × (t.row w₆ p.id ≡ some b) × (b.transaction_id ≡ some tx'))
  unfolding run
  both_pay p p' o o' receipt receipt' tx tx' w w₁ w₂ w₃ w₄ w₅ w₆ read s read' s' pay f pay' f' write
        write' id =
      let (a, _, stored) = t.update_ok (Service.mark_paid o p.payment_method tx) w₄ w₅ write refl in
      let (b, _, stored') =
        t.update_ok (Service.mark_paid o' p'.payment_method tx') w₅ w₆ write' refl in
      let key : o.id ≡ p.id = t.row_key w p.id o (t.read_ok p.id w w₁ o read) in
      let key' : o'.id ≡ p.id = t.row_key w₁ p'.id o' (t.read_ok p'.id w₁ w₂ o' read') ∙ id in
      (
        both svc (0 ∷ 1 ∷ 0 ∷ 1 ∷ []) (reads_to_pay p) (reads_to_pay p') (charges p o)
              (charges p' o') w w₁ w₂ (reads_pending svc p o w w₁ read s)
              (reads_pending svc p' o' w₁ w₂ read' s')
            ∙ both svc (0 ∷ 1 ∷ []) (charges p o) (charges p' o') (settles p o tx)
                (settles p' o' tx') w₂ w₃ w₄ (charges_ok svc p o receipt tx w₂ w₃ pay f)
                (charges_ok svc p' o' receipt' tx' w₃ w₄ pay' f')
            ∙ both svc [] (settles p o tx) (settles p' o' tx') (announces p o tx)
                (announces p' o' tx') w₄ w₅ w₆ (settles_ok svc p o tx w₄ w₅ write)
                (settles_ok svc p' o' tx' w₅ w₆ write'),
        (merge (Service.mark_paid o p.payment_method tx) a, ap (t.row w₅) (sym key) ∙ stored, refl),
        (
          merge (Service.mark_paid o' p'.payment_method tx') b,
          ap (t.row w₆) (sym key') ∙ stored',
          refl,
        ),
      )
