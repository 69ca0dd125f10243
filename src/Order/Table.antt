-- ===== src/Order/Table.antt =====
-- What the order service relies on of its repository: the view of the `orders` table, and what each
-- call does to it. The repository's theorems fill these records (Order/Repository).
use rocket_maintenance.Common.{
  ◌≡◌, ◌≢◌, ◌⊎◌, true, Option, some, none, is_empty, Option, ok, err, is, if◌then◌else◌, ◌==◌,
}
use rocket_maintenance.Common.Uuids.{Uuid}
use rocket_maintenance.Order.Model.{Order, OrderError, order_not_found, is_set, order_sentinels}
use rocket_maintenance.Order.Ports.{OrderRepository}

abbrev pub or_keep {ℓ} : {A : Type ℓ} → Option A → Option A → Option A
or_keep none old = old
or_keep (some a) old = some a

-- `upd` laid over a stored order: what `upd` leaves at its zero value stays as it was.
abbrev pub merge : Order → Order → Order
merge upd old = record {
  id = old.id;
  user_id = old.user_id;
  part_ids = if is_empty upd.part_ids then old.part_ids else upd.part_ids;
  total_price = if upd.total_price == 0 then old.total_price else upd.total_price;
  transaction_id = or_keep upd.transaction_id old.transaction_id;
  payment_method = or_keep upd.payment_method old.payment_method;
  status = if is_set upd.status then upd.status else old.status;
}

-- `row w id` is the committed row with that key. Other requests may write while a read is on its
-- way back, so a read says what was stored when it began.
pub record OrderTable {W : Type 0} (repo : OrderRepository W) : Type 0 where
  pub row : W → Uuid → Option Order
  -- a row stands under its own key
  pub row_key : (w : W) (id : Uuid) (o : Order) → row w id ≡ some o → o.id ≡ id
  pub read_ok :
      (id : Uuid) (w w' : W) (o : Order) → repo.order_by_id id w ≡ (ok o, w') → row w id ≡ some o
  pub read_not_found :
      (id : Uuid) (w w' : W) (e : OrderError)
      → repo.order_by_id id w ≡ (err e, w')
      → is e order_not_found ≡ true
      → row w id ≡ none
  pub create_ok :
      (o : Order) (id : Uuid) (w w' : W)
      → repo.create o w ≡ (ok id, w')
      → (row w id ≡ none) × (row w' id ≡ some (record o { id = id }))
  pub create_others :
      (o : Order) (id k : Uuid) (w w' : W)
      → repo.create o w ≡ (ok id, w')
      → k ≢ id
      → row w' k ≡ row w k
  -- an insertion that reports an error may have been committed
  pub create_err :
      (o : Order) (k : Uuid) (w w' : W) (e : OrderError)
      → repo.create o w ≡ (err e, w')
      → (row w' k ≡ row w k) ⊎ ((row w k ≡ none) × (row w' k ≡ some (record o { id = k })))
  -- an update with a status that succeeds has changed the one row
  pub update_ok :
      (upd : Order) (w w' : W)
      → repo.update upd w ≡ (ok tt, w')
      → is_set upd.status ≡ true
      → (old : Order) × (row w upd.id ≡ some old) × (row w' upd.id ≡ some (merge upd old))
  pub update_others :
      (upd : Order) (k : Uuid) (w : W) → k ≢ upd.id → row (repo.update upd w).1 k ≡ row w k
  -- a statement that fails has been applied whole, or not at all
  pub update_err :
      (upd : Order) (w w' : W) (e : OrderError)
      → repo.update upd w ≡ (err e, w')
      → (row w' upd.id ≡ row w upd.id)
        ⊎ ((old : Order) × (row w upd.id ≡ some old) × (row w' upd.id ≡ some (merge upd old)))
