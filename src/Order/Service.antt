-- ===== src/Order/Service.antt =====
-- order/internal/service/order/service.go: the five operations of the order service. Logging is left
-- out; the contexts with timeouts only make the calls under them fail.
pub mod Create
pub mod Pay
pub mod Status
pub mod Total
pub mod Twice
use Prim.Native.String.{◌++◌}
use mathlib.Core.List
use rocket_maintenance.Common.{
  String, true, false, ◌||◌, not, List, [], ◌∷◌, map, none, some, length, is_empty, if◌then◌else◌,
  ◌==◌, sentinel, new_error, wrap, wrap_with, Action, Result, ok, err, pure, fail, lift, map_err,
  on_err, ◌>>=◌, ◌>>◌,
}
use rocket_maintenance.Common.Int64.{Int64, add64, is_not_positive}
use rocket_maintenance.Common.Uuids.{Uuid, nil}
use rocket_maintenance.Order.Model.{
  Order, OrderStatus, PaymentMethod, pending_payment, paid, completed, cancelled, CreateOrderParams,
  CreateOrderResult, PayOrderParams, PayOrderResult, PaidOrder, OrderError, validation, bad_gateway,
  part_not_found, parts_out_of_stock, order_conflict, unknown_status,
}
use rocket_maintenance.Order.Part.{Part, PartsFilter}
use rocket_maintenance.Order.Ports.{Service}

-- `%v` of a `[]string`
unfoldable pub join_spaces : List String → String
join_spaces [] = ""
join_spaces (s ∷ []) = s
join_spaces (s ∷ t ∷ ts) = s ++ (" " ++ join_spaces (t ∷ ts))

unfoldable pub show_list : List String → String
unfolding join_spaces
show_list ss = "[" ++ (join_spaces ss ++ "]")

-- The loop over the parts: the total of the parts in stock, and the ids of the others.
unfoldable pub tally : List Part → Int64 → List String → Int64 × List String
tally [] total ended = (total, ended)
tally (p ∷ ps) total ended = elim (is_not_positive p.stock_quantity) [
  | true ↦ tally ps total (List.◌++◌ ended (p.id ∷ []))
  | false ↦ tally ps (add64 total p.price_cents) ended
]

-- The order that `Create` stores.
abbrev pub new_order : CreateOrderParams → Int64 → Order
new_order params total = record {
  id = nil;
  user_id = params.user_id;
  part_ids = params.part_ids;
  total_price = total;
  transaction_id = none;
  payment_method = none;
  status = pending_payment;
}

abbrev pub ids_filter : List String → PartsFilter
ids_filter ids = record {
  ids = ids;
  names = [];
  categories = [];
  manufacturer_countries = [];
  tags = [];
}

-- The checks between the inventory's answer and the write.
abbrev pub create_op : String
create_op = "order.service.Create"

unfoldable pub price_parts : CreateOrderParams → List Part → Result OrderError Int64
unfolding tally show_list
price_parts params parts =
    let (total, ended) = tally parts 0 [] in
    if not (length parts == length params.part_ids)
    then err (wrap create_op (sentinel part_not_found))
    else if not (is_empty ended)
    then err (wrap_with create_op (sentinel parts_out_of_stock) (show_list ended))
    else ok total

abbrev pub pay_op : String
pay_op = "order.service.Pay"

abbrev pub cancel_op : String
cancel_op = "order.service.Cancel"

abbrev pub order_by_id_op : String
order_by_id_op = "order.service.OrderByID"

abbrev pub complete_op : String
complete_op = "order.service.Complete"

-- The `switch` of `Pay`: `ok` is its empty first case.
unfoldable pub payable : OrderStatus → Result OrderError (Unit {0})
payable pending_payment = ok tt
payable paid = err (wrap pay_op (sentinel order_conflict))
payable cancelled = err (wrap pay_op (sentinel order_conflict))
payable _ = err (wrap pay_op (sentinel unknown_status))

-- The order as `Pay` changes it, and the event that it sends.
abbrev pub mark_paid : Order → PaymentMethod → Uuid → Order
mark_paid ord pm tx = record ord {
  transaction_id = some tx;
  payment_method = some pm;
  status = paid;
}

abbrev pub paid_event : Uuid → Order → PaymentMethod → Uuid → PaidOrder
paid_event ev ord pm tx = record {
  event_id = ev;
  order_id = ord.id;
  user_id = ord.user_id;
  payment_method = pm;
  transaction_id = tx;
}

-- The update that `Complete` sends: only the id and the status are set.
abbrev pub completed_order : Uuid → Order
completed_order id = record {
  id = id;
  user_id = nil;
  part_ids = [];
  total_price = 0;
  transaction_id = none;
  payment_method = none;
  status = completed;
}

module _ {W : Type 0} (svc : Service W) where
  -- `Create` from the write on.
  unfoldable pub store : CreateOrderParams → Int64 → Action W OrderError CreateOrderResult
  store params total = do
    id ← on_err (svc.repo.create (new_order params total)) (wrap create_op)
    pure (record { id = id; total_price = total })

  -- `Create` behind its validation.
  unfoldable pub order_parts : CreateOrderParams → Action W OrderError CreateOrderResult
  unfolding price_parts store
  order_parts params = do
    parts ←
        on_err (svc.inventory.list_parts (ids_filter (map svc.uuids.to_string params.part_ids)))
          (λ _. wrap create_op (sentinel bad_gateway))
    total ← lift (price_parts params parts)
    store params total

  unfoldable pub create : CreateOrderParams → Action W OrderError CreateOrderResult
  unfolding order_parts
  create params =
      if params.user_id == nil || is_empty params.part_ids
      then fail (wrap create_op (sentinel validation))
      else order_parts params

  -- `Pay` from the sending of the event on.
  unfoldable pub announce : PayOrderParams → Order → Uuid → Action W OrderError PayOrderResult
  announce params ord tx = do
    ev ← λ w. let (u, w') = svc.uuids.random w in (ok u, w')
    on_err (svc.producer.send_order_paid (paid_event ev ord params.payment_method tx)) (wrap pay_op)
    pure (record { transaction_id = tx })

  -- `Pay` from the write on.
  unfoldable pub settle : PayOrderParams → Order → Uuid → Action W OrderError PayOrderResult
  settle params ord tx = do
    on_err (svc.repo.update (mark_paid ord params.payment_method tx)) (wrap pay_op)
    announce params ord tx

  -- `Pay` from the call of the payment service on.
  unfoldable pub charge : PayOrderParams → Order → Action W OrderError PayOrderResult
  charge params ord = do
    receipt ←
        on_err (svc.payment.pay_order (record params { user_id = ord.user_id }))
          (λ _. wrap pay_op (sentinel bad_gateway))
    tx ← lift (map_err (λ e. wrap pay_op (new_error e)) (svc.uuids.parse receipt))
    settle params ord tx

  unfoldable pub pay : PayOrderParams → Action W OrderError PayOrderResult
  unfolding payable announce settle charge
  pay params = do
    ord ← on_err (svc.repo.order_by_id params.id) (wrap pay_op)
    lift (payable ord.status)
    charge params ord

  unfoldable pub order_by_id : Uuid → Action W OrderError Order
  order_by_id id = on_err (svc.repo.order_by_id id) (wrap order_by_id_op)

  -- The `switch` of `Cancel`.
  unfoldable pub cancel_status : Order → OrderStatus → Action W OrderError (Unit {0})
  cancel_status ord pending_payment =
      on_err (svc.repo.update (record ord { status = cancelled })) (wrap cancel_op)
  cancel_status ord paid = fail (wrap cancel_op (sentinel order_conflict))
  cancel_status ord completed = fail (wrap cancel_op (sentinel order_conflict))
  cancel_status ord _ = fail (wrap cancel_op (sentinel unknown_status))

  unfoldable pub cancel : Uuid → Action W OrderError (Unit {0})
  unfolding cancel_status
  cancel id = do
    ord ← on_err (svc.repo.order_by_id id) (wrap cancel_op)
    cancel_status ord ord.status

  unfoldable pub complete : Uuid → Action W OrderError (Unit {0})
  complete id = on_err (svc.repo.update (completed_order id)) (wrap complete_op)
