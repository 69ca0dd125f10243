-- ===== src/Order/Lifecycle.antt =====
-- The life of an order: the moves that the five operations of the order service can make on a row,
-- when the operations run one after the other.
pub mod Writes
pub mod Payments
pub mod Moves
pub mod Traces
use rocket_maintenance.Common.{◌≡◌, Option, none, some, List, [], ◌∷◌}
use rocket_maintenance.Common.Uuids.{Uuid}
use rocket_maintenance.Order.Model.{
  Order, CreateOrderParams, PayOrderParams, pending_payment, paid, completed, cancelled, PaidOrder,
}
use rocket_maintenance.Order.Ports.{Service}
use rocket_maintenance.Order.Table.{OrderTable}
use rocket_maintenance.Order.Part.{PartsFilter}
use rocket_maintenance.Order.Service

-- The calls that reach the service: four over HTTP, and `Complete` from the queue.
pub data Request : Type 0 where
  creates : CreateOrderParams → Request
  pays : PayOrderParams → Request
  gets : Uuid → Request
  cancels : Uuid → Request
  completes : Uuid → Request

-- What was ordered, by whom and at what price.
pub record SameGoods (o o' : Order) : Type 0 where
  pub user_id : o'.user_id ≡ o.user_id
  pub part_ids : o'.part_ids ≡ o.part_ids
  pub total_price : o'.total_price ≡ o.total_price

-- A payment is on record.
pub record HasPayment (o : Order) : Type 0 where
  pub tx : Uuid
  pub recorded : o.transaction_id ≡ some tx
  pub method : (o.payment_method ≡ none) → ⊥

-- One step of a row. A completed order keeps the payment data that it had, also if it had none.
pub data Move (a b : Option Order) : Type 0 where
  same : b ≡ a → Move a b
  opened :
      (o : Order)
      → a ≡ none
      → b ≡ some o
      → o.status ≡ pending_payment
      → o.transaction_id ≡ none
      → Move a b
  settled :
      (o o' : Order)
      → a ≡ some o
      → b ≡ some o'
      → o.status ≡ pending_payment
      → o'.status ≡ paid
      → HasPayment o'
      → SameGoods o o'
      → Move a b
  dropped :
      (o o' : Order)
      → a ≡ some o
      → b ≡ some o'
      → o.status ≡ pending_payment
      → o'.status ≡ cancelled
      → SameGoods o o'
      → Move a b
  finished :
      (o o' : Order)
      → a ≡ some o
      → b ≡ some o'
      → o'.status ≡ completed
      → o'.transaction_id ≡ o.transaction_id
      → SameGoods o o'
      → Move a b

-- Nothing else writes to the table while an operation runs: the reads and the calls of the other
-- services leave its rows alone.
pub record Quiet {W : Type 0} (svc : Service W) (t : OrderTable svc.repo) : Type 0 where
  pub read : (id k : Uuid) (w : W) → t.row (svc.repo.order_by_id id w).1 k ≡ t.row w k
  pub list :
      (f : PartsFilter) (k : Uuid) (w : W) → t.row (svc.inventory.list_parts f w).1 k ≡ t.row w k
  pub charge :
      (p : PayOrderParams) (k : Uuid) (w : W) → t.row (svc.payment.pay_order p w).1 k ≡ t.row w k
  pub draw : (k : Uuid) (w : W) → t.row (svc.uuids.random w).1 k ≡ t.row w k
  pub send :
      (e : PaidOrder) (k : Uuid) (w : W) → t.row (svc.producer.send_order_paid e w).1 k ≡ t.row w k

module _ {W : Type 0} (svc : Service W) where
  -- The state that a request leaves, whatever it answers.
  unfoldable pub handle : Request → W → W
  handle (creates p) w = (Service.create svc p w).1
  handle (pays p) w = (Service.pay svc p w).1
  handle (gets id) w = (Service.order_by_id svc id w).1
  handle (cancels id) w = (Service.cancel svc id w).1
  handle (completes id) w = (Service.complete svc id w).1

  unfoldable pub handle_all : List Request → W → W
  unfolding handle
  handle_all [] w = w
  handle_all (r ∷ rs) w = handle_all rs (handle r w)
