-- ===== src/Order/Repository/Database.antt =====
-- PostgreSQL behind pgx, as the order repository uses it. A row of `orders` has the seven columns of
-- the struct `Order`.
use rocket_maintenance.Common.{
  ℕ, String, ◌≡◌, ◌≢◌, ◌⊎◌, List, Option, some, none, Option, Action, ok, err, ◌<◌,
}
use rocket_maintenance.Common.Int64.{Int64}
use rocket_maintenance.Common.Uuids.{Uuid}
use rocket_maintenance.Order.Model.{Order, OrderStatus, PaymentMethod}

-- The columns that `Insert` names.
pub record Columns : Type 0 where
  pub user_id : Uuid
  pub part_ids : List Uuid
  pub total_price : Int64
  pub transaction_id : Option Uuid
  pub payment_method : Option PaymentMethod
  pub status : OrderStatus

-- The `SetMap` of `Update`: a column that is not in the map is `none`.
pub record SetMap : Type 0 where
  pub part_ids : Option (List Uuid)
  pub total_price : Option Int64
  pub transaction_id : Option Uuid
  pub payment_method : Option PaymentMethod
  pub status : Option OrderStatus

-- `pgx.ErrNoRows`, and every other error of the driver.
pub data DbError : Type 0 where
  no_rows : DbError
  db_error : String → DbError

abbrev pub or_else {ℓ} : {A : Type ℓ} → Option A → A → A
or_else none a = a
or_else (some a) _ = a

abbrev pub or_null {ℓ} : {A : Type ℓ} → Option A → Option A → Option A
or_null none old = old
or_null (some a) _ = some a

-- `INSERT` writes the named columns; `UPDATE … SET` the columns of the map.
abbrev pub inserted : Uuid → Columns → Order
inserted id c = record {
  id = id;
  user_id = c.user_id;
  part_ids = c.part_ids;
  total_price = c.total_price;
  transaction_id = c.transaction_id;
  payment_method = c.payment_method;
  status = c.status;
}

abbrev pub updated : SetMap → Order → Order
updated s old = record {
  id = old.id;
  user_id = old.user_id;
  part_ids = or_else s.part_ids old.part_ids;
  total_price = or_else s.total_price old.total_price;
  transaction_id = or_null s.transaction_id old.transaction_id;
  payment_method = or_null s.payment_method old.payment_method;
  status = or_else s.status old.status;
}

-- The statements, and what SQL says of them: a key is unique, `RETURNING id` gives the generated key
-- of the new row, `RowsAffected` counts the rows that the `WHERE` met, and a statement is atomic. Its
-- error does not tell whether it was committed.
pub record Engine (W : Type 0) : Type 0 where
  pub row : W → Uuid → Option Order
  pub insert : Columns → Action W DbError Uuid
  pub select : Uuid → Action W DbError Order
  pub exec_update : SetMap → Uuid → Action W DbError ℕ
  pub row_key : (w : W) (id : Uuid) (o : Order) → row w id ≡ some o → o.id ≡ id
  pub select_ok : (id : Uuid) (w w' : W) (o : Order) → select id w ≡ (ok o, w') → row w id ≡ some o
  pub select_no_rows : (id : Uuid) (w w' : W) → select id w ≡ (err no_rows, w') → row w id ≡ none
  pub insert_ok :
      (c : Columns) (id : Uuid) (w w' : W)
      → insert c w ≡ (ok id, w')
      → (row w id ≡ none) × (row w' id ≡ some (inserted id c))
  pub insert_others :
      (c : Columns) (id k : Uuid) (w w' : W)
      → insert c w ≡ (ok id, w')
      → k ≢ id
      → row w' k ≡ row w k
  pub insert_err :
      (c : Columns) (k : Uuid) (w w' : W) (e : DbError)
      → insert c w ≡ (err e, w')
      → (row w' k ≡ row w k) ⊎ ((row w k ≡ none) × (row w' k ≡ some (inserted k c)))
  pub update_none :
      (s : SetMap) (id : Uuid) (w w' : W) → exec_update s id w ≡ (ok 0, w') → row w' id ≡ row w id
  pub update_rows :
      (s : SetMap) (id : Uuid) (w w' : W) (n : ℕ)
      → exec_update s id w ≡ (ok n, w')
      → 0 < n
      → (old : Order) × (row w id ≡ some old) × (row w' id ≡ some (updated s old))
  pub update_err :
      (s : SetMap) (id : Uuid) (w w' : W) (e : DbError)
      → exec_update s id w ≡ (err e, w')
      → (row w' id ≡ row w id)
        ⊎ ((old : Order) × (row w id ≡ some old) × (row w' id ≡ some (updated s old)))
  pub update_others :
      (s : SetMap) (id k : Uuid) (w : W) → k ≢ id → row (exec_update s id w).1 k ≡ row w k
