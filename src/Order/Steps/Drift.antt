-- ===== src/Order/Steps/Drift.antt =====
-- What one step of one request of the order service does to a row, between the steps of others
-- (service/order/service.go).
use rocket_maintenance.Common.{
  ◌≡◌, ◌≢◌, inl, inr, refl, ap, ◌∙◌, sym, Option, none, some, ok, err, Result, ◌==◌, ==→eq, ==→ne,
  Bool-cases, arith, true,
}
use rocket_maintenance.Common.Uuids.{Uuid}
use rocket_maintenance.Order.Model.{
  Order, OrderError, PaymentMethod, pending_payment, paid, cancelled, is_set,
}
use rocket_maintenance.Order.Ports.{Service}
use rocket_maintenance.Order.Table.{OrderTable, merge}
use rocket_maintenance.Order.Service
use rocket_maintenance.Order.Lifecycle.{SameGoods, HasPayment}
use rocket_maintenance.Order.Lifecycle.Traces.{SameGoods-trans}
use rocket_maintenance.Order.Lifecycle.Writes.{update-Wrote}
use rocket_maintenance.Order.Steps.{
  Task, lists, stores, reads_to_pay, charges, settles, announces, reads, reads_to_cancel, cancels,
  completes, ended,
}

-- What a row is after a write to it, whatever was read before the write.
pub record Advanced (o o' : Order) : Type 0 where
  pub goods : SameGoods o o'
  pub not_pending : o'.status ≢ pending_payment
  pub has_payment : o'.status ≡ paid → HasPayment o'
  pub keeps_payment : o.transaction_id ≢ none → o'.transaction_id ≢ none

pub data Drift (a b : Option Order) : Type 0 where
  same : b ≡ a → Drift a b
  opened :
      (o : Order)
      → a ≡ none
      → b ≡ some o
      → o.status ≡ pending_payment
      → o.transaction_id ≡ none
      → Drift a b
  wrote : (o o' : Order) → a ≡ some o → b ≡ some o' → Advanced o o' → Drift a b

module _ {W : Type 0} (svc : Service W) (t : OrderTable svc.repo) where
  -- The row of an order that a request has read, however it was written since.
  abbrev pub Known : W → Order → Type 0
  Known w o = (o' : Order) × (t.row w o.id ≡ some o') × SameGoods o o'

  -- What a request relies on between two calls.
  abbrev pub Fits : W → Task → Type 0
  Fits w (charges p o) = Known w o
  Fits w (settles p o tx) = Known w o
  Fits w (cancels o) = Known w o
  Fits w _ = Unit

  Drift-Known :
      (o : Order) (w w' : W) → Drift (t.row w o.id) (t.row w' o.id) → Known w o → Known w' o
  Drift-Known o w w' (same e) (o', h, g) = (o', e ∙ h, g)
  Drift-Known o w w' (opened p e f s x) (o', h, g) = absurd (ground arith)
  Drift-Known o w w' (wrote p p' e f x) (o', h, g) =
      let it : p ≡ o' = ground arith in (p', f, SameGoods-trans g (rw it at x.goods))

  pub Drift-Fits :
      (task : Task) (w w' : W)
      → ((k : Uuid) → Drift (t.row w k) (t.row w' k))
      → Fits w task
      → Fits w' task
  Drift-Fits (charges p o) w w' d h = Drift-Known o w w' (d o.id) h
  Drift-Fits (settles p o tx) w w' d h = Drift-Known o w w' (d o.id) h
  Drift-Fits (cancels o) w w' d h = Drift-Known o w w' (d o.id) h
  Drift-Fits (lists p) w w' d h = tt
  Drift-Fits (stores p total) w w' d h = tt
  Drift-Fits (reads_to_pay p) w w' d h = tt
  Drift-Fits (announces p o tx) w w' d h = tt
  Drift-Fits (reads id) w w' d h = tt
  Drift-Fits (reads_to_cancel id) w w' d h = tt
  Drift-Fits (completes id) w w' d h = tt
  Drift-Fits (ended r) w w' d h = tt

  -- The four writes.
  pub create-Drift :
      (o : Order) (k : Uuid) (w : W)
      → o.status ≡ pending_payment
      → o.transaction_id ≡ none
      → (r : Result OrderError Uuid × W) → svc.repo.create o w ≡ r
      → Drift (t.row w k) (t.row r.1 k)
  create-Drift o k w s x (ok id, w') e = elim (Bool-cases (k == id)) [
    | inl own ↦
        rw (==→eq k id own) (
          opened (record o { id = id }) (t.create_ok o id w w' e).0 (t.create_ok o id w w' e).1 s x)
    | inr other ↦ same (t.create_others o id k w w' e (==→ne k id other))
  ]
  create-Drift o k w s x (err y, w') e = elim (t.create_err o k w w' y e) [
    | inl kept ↦ same kept
    | inr (before, after) ↦ opened (record o { id = k }) before after s x
  ]

  pub update-Drift :
      (upd : Order) (k : Uuid) (w : W)
      → is_set upd.status ≡ true
      → ((old : Order) → t.row w upd.id ≡ some old → Advanced old (merge upd old))
      → Drift (t.row w k) (t.row (svc.repo.update upd w).1 k)
  update-Drift upd k w s adv = elim (update-Wrote svc t upd k w s) [
    | inl kept ↦ same kept
    | inr (old, own, before, after) ↦
        wrote old (merge upd old) before after (adv old (ap (t.row w) (sym own) ∙ before))
  ]

  pub paid-Advanced :
      (w : W) (o old : Order) (pm : PaymentMethod) (tx : Uuid)
      → Known w o
      → t.row w o.id ≡ some old
      → Advanced old (merge (Service.mark_paid o pm tx) old)
  paid-Advanced w o old pm tx (o', h, g) e =
      let it : o' ≡ old = ground arith in
      record {
        goods = record { user_id = refl; part_ids = ground arith; total_price = ground arith };
        not_pending = λ p. absurd (ground arith);
        has_payment = λ _. record { tx = tx; recorded = refl; method = λ x. absurd (ground arith) };
        keeps_payment = λ _ x. absurd (ground arith);
      }

  pub cancelled-Advanced :
      (w : W) (o old : Order)
      → Known w o
      → t.row w o.id ≡ some old
      → Advanced old (merge (record o { status = cancelled }) old)
  cancelled-Advanced w o old (o', h, g) e =
      let it : o' ≡ old = ground arith in
      record {
        goods = record { user_id = refl; part_ids = ground arith; total_price = ground arith };
        not_pending = λ p. absurd (ground arith);
        has_payment = λ p. absurd (ground arith);
        keeps_payment = λ n x. n (ground arith);
      }

  pub completed-Advanced :
      (id : Uuid) (old : Order) → Advanced old (merge (Service.completed_order id) old)
  completed-Advanced id old = record {
    goods = record { user_id = refl; part_ids = refl; total_price = refl };
    not_pending = λ p. absurd (ground arith);
    has_payment = λ p. absurd (ground arith);
    keeps_payment = λ n. n;
  }
