-- ===== src/Order/Lifecycle/Moves.antt =====
-- Each operation of the order service makes one of the moves, or none.
use rocket_maintenance.Common.{
  ◌≡◌, inl, inr, refl, ap, some, ◌==◌, ==→eq, ==→ne, Bool-cases, lift, ◌>>=◌, Action, Result, wrap,
  sentinel, pure, >>=_rule, on_err->>=_rule, is_empty, ◌||◌, map, List,
}
use rocket_maintenance.Common.Int64.{Int64}
use rocket_maintenance.Common.Uuids.{Uuid, nil}
use rocket_maintenance.Order.Model.{
  Order, OrderStatus, OrderError, CreateOrderParams, pending_payment, cancelled, bad_gateway,
}
use rocket_maintenance.Order.Part.{Part, PartsFilter}
use rocket_maintenance.Order.Ports.{Service}
use rocket_maintenance.Order.Table.{OrderTable}
use rocket_maintenance.Order.Service
use rocket_maintenance.Order.Lifecycle.{
  Request, creates, pays, gets, cancels, completes, Move, same, opened, Quiet, handle,
}
use rocket_maintenance.Order.Lifecycle.Writes.{update-Wrote, Wrote-dropped, complete-Move}
use rocket_maintenance.Order.Lifecycle.Payments.{behind, read-row, pay-Move}

module _ {W : Type 0} (svc : Service W) (t : OrderTable svc.repo) (q : Quiet svc t) where
  cancel-Move : (id k : Uuid) (w : W) → Move (t.row w k) (t.row (Service.cancel svc id w).1 k)
  unfolding Service.cancel
  cancel-Move id k w =
      let read = svc.repo.order_by_id id in
      on_err->>=_rule (λ w'. Move (t.row w k) (t.row w' k)) read (wrap Service.cancel_op)
        (λ o. Service.cancel_status svc o o.status) w
        (λ o w₁ e.
          rw (← behind svc t q read k w w₁ (q.read id k w) e)
            (cancelled_by o w₁ (read-row svc t q id o w w₁ e) o.status refl))
        (λ x w₁ e. same (behind svc t q read k w w₁ (q.read id k w) e))
    where
      cancelled_by :
          (o : Order) (w₁ : W)
          → t.row w₁ o.id ≡ some o
          → (s : OrderStatus) → o.status ≡ s
          → Move (t.row w₁ k) (t.row (Service.cancel_status svc o s w₁).1 k)
      cancelled_by o w₁ stored pending_payment p =
          Wrote-dropped svc t o k w₁ _ stored p
            (update-Wrote svc t (record o { status = cancelled }) k w₁ refl)
      cancelled_by o w₁ stored _ p = same refl

  store-Move :
      (params : CreateOrderParams) (total : Int64) (k : Uuid) (w : W)
      → Move (t.row w k) (t.row (Service.store svc params total w).1 k)
  unfolding Service.store
  store-Move params total k w =
      let o = Service.new_order params total in
      on_err->>=_rule (λ w'. Move (t.row w k) (t.row w' k)) (svc.repo.create o)
        (wrap Service.create_op) (λ id. pure (record { id = id; total_price = total })) w
        (λ id w₁ e. elim (Bool-cases (k == id)) [
          | inl own ↦ rw (==→eq k id own) (
              opened (record o { id = id }) (t.create_ok o id w w₁ e).0 (t.create_ok o id w w₁ e).1
                refl refl)
          | inr other ↦ same (t.create_others o id k w w₁ e (==→ne k id other))
        ])
        (λ x w₁ e. elim (t.create_err o k w w₁ x e) [
          | inl kept ↦ same kept
          | inr (before, after) ↦ opened (record o { id = k }) before after refl refl
        ])

  create-Move :
      (params : CreateOrderParams) (k : Uuid) (w : W)
      → Move (t.row w k) (t.row (Service.create svc params w).1 k)
  unfolding Service.create
  create-Move params k w = elim (Bool-cases (params.user_id == nil || is_empty params.part_ids)) [
    | inl bad ↦ rw bad (same refl)
    | inr good ↦ rw good (
        on_err->>=_rule P list (λ _. wrap Service.create_op (sentinel bad_gateway))
          (λ parts. lift (Service.price_parts params parts) >>= Service.store svc params) w
          (λ parts w₁ e. rw (← behind svc t q list k w w₁ kept e) (
            >>=_rule (λ w'. Move (t.row w₁ k) (t.row w' k))
              (lift (Service.price_parts params parts)) (Service.store svc params) w₁
              (λ total w₂ e₂.
                rw (ap (λ (r : Result OrderError Int64 × W). r.1) e₂)
                  (store-Move params total k w₂))
              (λ x w₂ e₂. rw (ap (λ (r : Result OrderError Int64 × W). r.1) e₂) (same refl))))
          (λ x w₁ e. same (behind svc t q list k w w₁ kept e)))
  ]
    where
      filter : PartsFilter
      filter = Service.ids_filter (map svc.uuids.to_string params.part_ids)

      list : Action W OrderError (List Part)
      list = svc.inventory.list_parts filter

      P : W → Type 0
      P w' = Move (t.row w k) (t.row w' k)

      kept : t.row (list w).1 k ≡ t.row w k
      kept = q.list filter k w

  order_by_id-Move :
      (id k : Uuid) (w : W) → Move (t.row w k) (t.row (Service.order_by_id svc id w).1 k)
  unfolding Service.order_by_id
  order_by_id-Move id k w = same (q.read id k w)

  -- If nothing else writes to the table while a request runs, every request, however it ends,
  -- leaves each row as it was or makes one move of it: opened as pending, pending to paid, pending
  -- to cancelled, or any status to completed, with the goods unchanged.
  pub handle-Move :
      (req : Request) (k : Uuid) (w : W) → Move (t.row w k) (t.row (handle svc req w) k)
  unfolding handle
  handle-Move (creates p) k w = create-Move p k w
  handle-Move (pays p) k w = pay-Move svc t q p k w
  handle-Move (gets id) k w = order_by_id-Move id k w
  handle-Move (cancels id) k w = cancel-Move id k w
  handle-Move (completes id) k w = complete-Move svc t id k w
