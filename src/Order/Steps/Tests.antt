-- ===== src/Order/Steps/Tests.antt =====
-- Interleaved requests of the order service in the environment of Order/InMemory.
use rocket_maintenance.Common.{ℕ, ◌≡◌, refl, some, List, [], ◌∷◌, ok, map, arith}
use rocket_maintenance.Order.Model.{Order, card}
use rocket_maintenance.Order.Repository.{create, order_by_id, update}
use rocket_maintenance.Order.Service
use rocket_maintenance.Order.Lifecycle.{Request, creates, pays, cancels}
use rocket_maintenance.Order.Lifecycle.Traces.{RowIsSound}
use rocket_maintenance.Order.InMemory.{World, service}
use rocket_maintenance.Order.Samples.{request, ordered, table, payment, quiet}
use rocket_maintenance.Order.Steps.{
  Answer, charged, done, Task, ended, step, step_at, run, announces, settles, charges, stores,
  lists,
}
use rocket_maintenance.Order.Steps
use rocket_maintenance.Order.Steps.Races.{Follows, interleaved-Follows, interleaved-RowIsSound}
use rocket_maintenance.Order.Steps.DoubleCharge.{both_pay}

abbrev requests : List Request
requests = creates request ∷ pays payment ∷ cancels 5 ∷ []

-- A payment and a cancellation of one order, call by call in turn.
abbrev race : List Request
race = pays payment ∷ cancels 5 ∷ []

abbrev turns : List ℕ
turns = 0 ∷ 1 ∷ 0 ∷ 1 ∷ 0 ∷ 0 ∷ []

abbrev pending_order : Order
pending_order = record (Service.new_order request 12500050) { id = 5 }

ordered_row : table.row ordered 5 ≡ some pending_order
unfolding Service.create create
ordered_row = refl

interleaved-Follows_example :
    Follows pending_order (table.row (run service turns (map Steps.start race) ordered).1 5)
interleaved-Follows_example =
    interleaved-Follows service table quiet turns race 5 pending_order ordered ordered_row

interleaved-RowIsSound_example :
    RowIsSound (table.row (run service turns (map Steps.start race) ordered).1 5)
interleaved-RowIsSound_example = interleaved-RowIsSound service table quiet turns race 5 ordered (
    rw ordered_row
      (record { paid_has_payment = λ p. absurd (ground arith); pending_has_none = λ _. refl }))

-- Both requests succeed: the cancellation is answered, and then the row is marked as paid.
both_succeed : run service turns (map Steps.start race) ordered ≡ (
  ended (ok (charged (record { transaction_id = 7 }))) ∷ ended (ok done) ∷ [],
  (Service.settle service payment pending_order 7 (Service.cancel service 5 ordered).1).1,
)
unfolding run step_at step Service.settle Service.announce Service.cancel Service.cancel_status
    Service.create Service.payable create order_by_id update
both_succeed = refl

abbrev once_paid : World
once_paid = (service.repo.update (Service.mark_paid pending_order card 7) ordered).1

reads_pending : service.repo.order_by_id 5 ordered ≡ (ok pending_order, ordered)
unfolding Service.create create order_by_id
reads_pending = refl

pays_once :
    service.repo.update (Service.mark_paid pending_order card 7) ordered ≡ (ok tt, once_paid)
unfolding Service.create create update
pays_once = refl

abbrev twice_paid : World
twice_paid = (service.repo.update (Service.mark_paid pending_order card 7) once_paid).1

pays_twice :
    service.repo.update (Service.mark_paid pending_order card 7) once_paid ≡ (ok tt, twice_paid)
unfolding Service.create create update
pays_twice = refl

both_pay_example :
    (run service
        (0 ∷ 1 ∷ 0 ∷ 1 ∷ 0 ∷ 1 ∷ [])
        (map Steps.start (pays payment ∷ pays payment ∷ []))
        ordered
      ≡ (announces payment pending_order 7 ∷ announces payment pending_order 7 ∷ [], twice_paid))
    × ((a : Order) × (table.row once_paid 5 ≡ some a) × (a.transaction_id ≡ some 7))
    × ((b : Order) × (table.row twice_paid 5 ≡ some b) × (b.transaction_id ≡ some 7))
both_pay_example =
    both_pay service table payment payment pending_order pending_order "1111111" "1111111" 7 7
      ordered ordered ordered ordered ordered once_paid twice_paid reads_pending refl reads_pending
      refl refl refl refl refl pays_once pays_twice refl
