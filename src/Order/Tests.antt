-- ===== src/Order/Tests.antt =====
-- Runs of the order service in the environment of Order/InMemory, and its theorems at those runs.
use rocket_maintenance.Common.{
  ℕ, inl, ◌≡◌, ◌<◌, refl, inr, some, List, [], ◌∷◌, ok, err, wrap, wrap_with, sentinel, false,
  length, arith, if◌then◌else◌, ◌==◌,
}
use rocket_maintenance.Common.Int64.{sign_bit}
use rocket_maintenance.Common.Bytes.{Bytes, digits, show_nat, show_int, show_int2}
use rocket_maintenance.Order.Model.{
  Order, CreateOrderParams, card, pending_payment, paid, cancelled, completed, order_conflict,
  parts_out_of_stock, part_not_found,
}
use rocket_maintenance.Order.Part.{Part}
use rocket_maintenance.Order.Table.{merge}
use rocket_maintenance.Order.Repository.{create, order_by_id, update}
use rocket_maintenance.Order.Service
use rocket_maintenance.Order.Service.Create.{ended_ids, create_refused}
use rocket_maintenance.Order.Service.Pay.{PayRun, pay_ok, pay_refused}
use rocket_maintenance.Order.Service.Twice.{create-twice}
use rocket_maintenance.Order.Service.Total.{create-total}
use rocket_maintenance.Order.Service.Status.{cancel_ok, complete_ok}
use rocket_maintenance.Order.Lifecycle.{Request, pays, cancels, completes, handle_all, handle, Move}
use rocket_maintenance.Order.Lifecycle.Moves.{handle-Move}
use rocket_maintenance.Order.Lifecycle.Traces.{Kept, handle_all-Kept}
use rocket_maintenance.Order.Converter.{
  OapiMethod, CreateOrderRequest, create_order_request_to_params, format_cents,
}
use rocket_maintenance.Order.Converter.Money.{read_money, read_money-format_cents}
use rocket_maintenance.Order.Transport.{create_order, pay_order, cancel_order}
use rocket_maintenance.Order.Transport.Codes.{
  code_of, pay_order_refused, cancel_order_refused, create_order_refused,
}
use rocket_maintenance.Order.InMemory.{World, service}
use rocket_maintenance.Order.Samples.{engine_part, start, request, ordered, table, payment, quiet}

creates_order :
    Service.create service request start ≡ (ok (record { id = 5; total_price = 12500050 }), ordered)
unfolding Service.create create
creates_order = refl

abbrev settled : World
settled = (Service.pay service payment ordered).1

pays_order : Service.pay service payment ordered ≡ (ok (record { transaction_id = 7 }), settled)
unfolding Service.pay Service.create create order_by_id update
pays_order = refl

pay_ok_example : PayRun service table payment (record { transaction_id = 7 }) ordered settled
pay_ok_example =
    pay_ok service table payment (record { transaction_id = 7 }) ordered settled pays_order

-- The order, once it is paid.
abbrev paid_order : Order
paid_order = record {
  id = 5;
  user_id = 9;
  part_ids = 1 ∷ [];
  total_price = 12500050;
  transaction_id = some 7;
  payment_method = some card;
  status = paid;
}

settled_row : table.row settled 5 ≡ some paid_order
unfolding Service.pay Service.create create order_by_id update
settled_row = refl

abbrev requests : List Request
requests = cancels 5 ∷ pays payment ∷ completes 5 ∷ cancels 5 ∷ []

handle_all-Kept_example : Kept paid_order (table.row (handle_all service requests settled) 5)
handle_all-Kept_example =
    handle_all-Kept service table quiet requests 5 paid_order settled settled_row (λ e. cc)

handle-Move_example :
    Move (table.row ordered 5) (table.row (handle service (pays payment) ordered) 5)
handle-Move_example = handle-Move service table quiet (pays payment) 5 ordered

reads_settled : service.repo.order_by_id 5 settled ≡ (ok paid_order, settled)
unfolding Service.pay Service.create create order_by_id update
reads_settled = refl

pay_refused_example :
    Service.pay service payment settled
    ≡ (err (wrap Service.pay_op (sentinel order_conflict)), settled)
pay_refused_example = pay_refused service payment paid_order settled settled reads_settled (λ e. cc)

pay_order_refused_example :
    (code_of (pay_order service 5 (record { payment_method = OapiMethod.card }) settled).0
      ≡ some 409)
    × ((pay_order service 5 (record { payment_method = OapiMethod.card }) settled).1 ≡ settled)
pay_order_refused_example =
    pay_order_refused service 5 (record { payment_method = OapiMethod.card }) paid_order settled
      settled reads_settled (λ e. cc)

cancel_order_refused_example :
    (code_of (cancel_order service 5 settled).0 ≡ some 409)
    × ((cancel_order service 5 settled).1 ≡ settled)
cancel_order_refused_example =
    cancel_order_refused service 5 paid_order settled settled reads_settled (λ e. cc)

abbrev dropped : World
dropped = (Service.cancel service 5 ordered).1

cancels_order : Service.cancel service 5 ordered ≡ (ok tt, dropped)
unfolding Service.cancel Service.cancel_status Service.create create order_by_id update
cancels_order = refl

abbrev CancelRun : Type 0
CancelRun =
    (ord : Order) × (old : Order) × (read : World) × (table.row ordered 5 ≡ some ord)
    × (ord.status ≡ pending_payment)
    × (table.row read ord.id ≡ some old)
    × (table.row dropped ord.id ≡ some (merge (record ord { status = cancelled }) old))

cancel_ok_example : CancelRun
cancel_ok_example = cancel_ok service table 5 ordered dropped cancels_order

-- The assembly's message arrives for an order that is cancelled.
abbrev revived : World
revived = (Service.complete service 5 dropped).1

completes_cancelled : Service.complete service 5 dropped ≡ (ok tt, revived)
unfolding Service.complete Service.cancel Service.cancel_status Service.create create order_by_id
    update
completes_cancelled = refl

complete_ok_example :
    (old : Order) × (table.row dropped 5 ≡ some old)
    × (table.row revived 5 ≡ some (record old { status = completed }))
complete_ok_example = complete_ok service table 5 dropped revived completes_cancelled

abbrev ended_part : Part
ended_part = record engine_part { stock_quantity = 0 }

abbrev empty_store : World
empty_store = record start { parts = ended_part ∷ [] }

create_refused_example : Service.create service request empty_store ≡ (
  if length (ended_part ∷ []) == length request.part_ids
      then err (
          wrap_with Service.create_op
            (sentinel parts_out_of_stock)
            (Service.show_list (ended_ids (ended_part ∷ []))))
      else err (wrap Service.create_op (sentinel part_not_found)),
  empty_store,
)
create_refused_example =
    create_refused service request (ended_part ∷ []) empty_store empty_store (omega arith) (λ e. cc)
      refl (inr (λ e. cc))

abbrev http_request : CreateOrderRequest
http_request = record { user_uuid = 9; part_uuids = 1 ∷ [] }

create_order_refused_example :
    (code_of (create_order service http_request empty_store).0 ≡ some 422)
    × ((create_order service http_request empty_store).1 ≡ empty_store)
unfolding create_order_request_to_params
create_order_refused_example =
    create_order_refused service http_request (ok (ended_part ∷ [])) 422 empty_store empty_store
      (omega arith) (λ e. cc) refl refl

read_money-format_cents_example : read_money (format_cents 12500050) ≡ (false, some 12500050)
read_money-format_cents_example = read_money-format_cents 12500050 (omega arith) (omega arith)

abbrev least_text : Bytes
least_text =
    b'-' ∷ b'-' ∷ b'9' ∷ b'2' ∷ b'2' ∷ b'3' ∷ b'3' ∷ b'7' ∷ b'2' ∷ b'0' ∷ b'3' ∷ b'6' ∷ b'8' ∷ b'5'
    ∷ b'4' ∷ b'7' ∷ b'7' ∷ b'5' ∷ b'8' ∷ b'.' ∷ b'-' ∷ b'8' ∷ []

-- The least int64 has no positive counterpart, and is printed with three minus signs.
least_amount : format_cents sign_bit ≡ least_text
unfolding format_cents show_int show_int2 show_nat digits
least_amount = refl

create-total_example : (◌≡◌ {A = ℕ} 12500050 12500050) × (12500050 < sign_bit)
create-total_example =
    create-total service table request (record { id = 5; total_price = 12500050 })
      (engine_part ∷ []) 12500050 start start ordered creates_order refl (omega arith, tt)
      (omega arith)

-- The part "1" twice.
abbrev twice : CreateOrderParams
twice = record request { part_ids = 1 ∷ 1 ∷ [] }

create-twice_example :
    Service.create service twice start
    ≡ (err (wrap Service.create_op (sentinel part_not_found)), start)
create-twice_example =
    create-twice service twice [] (1 ∷ []) 1 (engine_part ∷ []) start start (omega arith) refl
      (inl refl) refl (tt, tt) (inl refl, tt)
