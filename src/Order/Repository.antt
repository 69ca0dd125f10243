-- ===== src/Order/Repository.antt =====
-- order/internal/repository/order/repository.go: the statements that the repository builds over the
-- table of order/migrations. The database is a parameter; `ToSql` on these builders cannot fail.
pub mod Database
pub mod Laws
use rocket_maintenance.Common.{
  true, false, ◌&&◌, Option, none, some, is_empty, if◌then◌else◌, ◌==◌, sentinel, new_error, Action,
  ℕ, err, ok, zero, suc, Result, on_err, pure, fail, ◌>>=◌, Bool, ◌||◌,
}
use rocket_maintenance.Common.Uuids.{Uuid, nil}
use rocket_maintenance.Order.Model.{Order, OrderError, order_not_found, is_paid, is_set}
use rocket_maintenance.Order.Ports.{OrderRepository}
use Database.{Columns, SetMap, DbError, no_rows, db_error, Engine}

abbrev is_none {ℓ} : {A : Type ℓ} → Option A → Bool
is_none none = true
is_none (some _) = false

-- `return err` of a driver's error; `ErrNoRows` has this text
abbrev pub driver_error : DbError → OrderError
driver_error no_rows = new_error "no rows in result set"
driver_error (db_error m) = new_error m

-- `errors.Is(err, pgx.ErrNoRows)`
abbrev pub select_error : DbError → OrderError
select_error no_rows = sentinel order_not_found
select_error (db_error m) = new_error m

columns : Order → Columns
columns o = record {
  user_id = o.user_id;
  part_ids = o.part_ids;
  total_price = o.total_price;
  transaction_id = o.transaction_id;
  payment_method = o.payment_method;
  status = o.status;
}

-- The map `set`: a field at its zero value is left out.
pub set_of : Order → SetMap
set_of o = record {
  part_ids = if is_empty o.part_ids then none else some o.part_ids;
  total_price = if o.total_price == 0 then none else some o.total_price;
  transaction_id = o.transaction_id;
  payment_method = o.payment_method;
  status = if is_set o.status then some o.status else none;
}

-- `len(set) == 0`
abbrev pub is_empty_set : SetMap → Bool
is_empty_set s =
    is_none s.part_ids
    && (is_none s.total_price
        && (is_none s.transaction_id && (is_none s.payment_method && is_none s.status)))

-- The answer of `Exec`: its error, or the test of `RowsAffected`.
abbrev pub rows_answer : Result DbError ℕ → Result OrderError (Unit {0})
rows_answer (ok zero) = err (sentinel order_not_found)
rows_answer (ok (suc _)) = ok tt
rows_answer (err e) = err (driver_error e)

module _ {W : Type 0} (db : Engine W) where
  unfoldable pub create : Order → Action W OrderError Uuid
  unfolding columns
  create o = on_err (db.insert (columns o)) driver_error

  unfoldable pub order_by_id : Uuid → Action W OrderError Order
  order_by_id id = on_err (db.select id) select_error

  -- What follows the building of the statement.
  pub run_update : Order → Action W OrderError (Unit {0})
  run_update upd w = let (r, w') = db.exec_update (set_of upd) upd.id w in (rows_answer r, w')

  unfoldable pub update : Order → Action W OrderError (Unit {0})
  unfolding run_update set_of
  update upd =
      if upd.id == nil
      then fail (new_error "empty order id")
      else if is_paid upd.status && (is_none upd.transaction_id || is_none upd.payment_method)
      then fail (new_error "setting status=PAID requires transaction_id and payment_method")
      else if is_empty_set (set_of upd)
      then pure tt
      else run_update upd

  abbrev pub repository : OrderRepository W
  repository = record { create = create; order_by_id = order_by_id; update = update }
