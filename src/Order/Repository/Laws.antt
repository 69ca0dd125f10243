-- ===== src/Order/Repository/Laws.antt =====
-- The repository over any engine gives what the order service relies on.
use rocket_maintenance.Common.{
  ℕ, ◌≡◌, ◌≢◌, ◌⊎◌, inl, inr, refl, ◌∙◌, ap, true, none, some, ok, err, is, arith, on_err-eq-ok,
  on_err-eq-err, Result, zero, suc,
}
use rocket_maintenance.Common.Uuids.{Uuid}
use rocket_maintenance.Order.Model.{Order, OrderError, order_not_found, is_set, order_sentinels}
use rocket_maintenance.Order.Table.{merge, OrderTable}
use rocket_maintenance.Order.Repository.Database.{DbError, Engine, updated}
use rocket_maintenance.Order.Repository.{
  driver_error, rows_answer, set_of, create, order_by_id, update, run_update, repository,
}

-- Writing the columns of the map is laying the non-zero fields over the row.
pub updated-set_of : (upd old : Order) → updated (set_of upd) old ≡ merge upd old
unfolding set_of
updated-set_of upd old = ground arith

rows_answer-ok : (r : Result DbError ℕ) → rows_answer r ≡ ok tt → (n : ℕ) × (r ≡ ok (suc n))
rows_answer-ok (ok zero) h = absurd (ground arith)
rows_answer-ok (ok (suc n)) h = (n, refl)
rows_answer-ok (err e) h = absurd (ground arith)

rows_answer-err :
    (r : Result DbError ℕ) (e : OrderError)
    → rows_answer r ≡ err e
    → (r ≡ ok 0) ⊎ ((x : DbError) × (r ≡ err x))
rows_answer-err (ok zero) e h = inl refl
rows_answer-err (ok (suc n)) e h = absurd (ground arith)
rows_answer-err (err x) e h = inr (x, refl)

module _ {W : Type 0} (db : Engine W) where
  pub read_ok :
      (id : Uuid) (w w' : W) (o : Order) → order_by_id db id w ≡ (ok o, w') → db.row w id ≡ some o
  unfolding order_by_id
  read_ok id w w' o h = db.select_ok id w w' o (on_err-eq-ok (db.select id) _ w h)

  pub read_not_found :
      (id : Uuid) (w w' : W) (e : OrderError)
      → order_by_id db id w ≡ (err e, w')
      → is e order_not_found ≡ true
      → db.row w id ≡ none
  unfolding order_by_id
  read_not_found id w w' e h n = ground (arith, db.select_no_rows id w w')

  pub create_ok :
      (o : Order) (id : Uuid) (w w' : W)
      → create db o w ≡ (ok id, w')
      → (db.row w id ≡ none) × (db.row w' id ≡ some (record o { id = id }))
  unfolding create
  create_ok o id w w' h = db.insert_ok _ id w w' (on_err-eq-ok (db.insert _) _ w h)

  pub create_others :
      (o : Order) (id k : Uuid) (w w' : W)
      → create db o w ≡ (ok id, w')
      → k ≢ id
      → db.row w' k ≡ db.row w k
  unfolding create
  create_others o id k w w' h = db.insert_others _ id k w w' (on_err-eq-ok (db.insert _) _ w h)

  pub create_err :
      (o : Order) (k : Uuid) (w w' : W) (e : OrderError)
      → create db o w ≡ (err e, w')
      → (db.row w' k ≡ db.row w k)
        ⊎ ((db.row w k ≡ none) × (db.row w' k ≡ some (record o { id = k })))
  unfolding create
  create_err o k w w' e h =
      let (x, failed) = on_err-eq-err (db.insert _) driver_error w h in
      db.insert_err _ k w w' x failed

  run_update_ok :
      (upd : Order) (w w' : W)
      → run_update db upd w ≡ (ok tt, w')
      → (old : Order) × (db.row w upd.id ≡ some old) × (db.row w' upd.id ≡ some (merge upd old))
  unfolding run_update
  run_update_ok upd w w' h =
      let r : Result DbError ℕ × W = db.exec_update (set_of upd) upd.id w in
      let (n, met) = rows_answer-ok r.0 (ap (λ (p : Result OrderError (Unit {0}) × W). p.0) h) in
      let (old, before, after) =
        db.update_rows (set_of upd) upd.id w w' (suc n) (ground arith) (omega arith) in
      (old, before, after ∙ ap some (updated-set_of upd old))

  run_update_err :
      (upd : Order) (w w' : W) (e : OrderError)
      → run_update db upd w ≡ (err e, w')
      → (db.row w' upd.id ≡ db.row w upd.id)
        ⊎ ((old : Order) × (db.row w upd.id ≡ some old) × (db.row w' upd.id ≡ some (merge upd old)))
  unfolding run_update
  run_update_err upd w w' e h =
      let r : Result DbError ℕ × W = db.exec_update (set_of upd) upd.id w in
      elim (rows_answer-err r.0 e (ap (λ (p : Result OrderError (Unit {0}) × W). p.0) h)) [
        | inl none_met ↦ inl (db.update_none (set_of upd) upd.id w w' (ground arith))
        | inr (x, failed) ↦ elim (db.update_err (set_of upd) upd.id w w' x (ground arith)) [
          | inl same ↦ inl same
          | inr (old, before, after) ↦ inr (old, before, after ∙ ap some (updated-set_of upd old))
        ]
      ]

  pub update_ok :
      (upd : Order) (w w' : W)
      → update db upd w ≡ (ok tt, w')
      → is_set upd.status ≡ true
      → (old : Order) × (db.row w upd.id ≡ some old) × (db.row w' upd.id ≡ some (merge upd old))
  unfolding update
  update_ok upd w w' h s = run_update_ok upd w w' (ground arith)

  pub update_others :
      (upd : Order) (k : Uuid) (w : W) → k ≢ upd.id → db.row (update db upd w).1 k ≡ db.row w k
  unfolding update
  update_others upd k w h = ground (arith, db.update_others (set_of upd) upd.id k w)

  pub update_err :
      (upd : Order) (w w' : W) (e : OrderError)
      → update db upd w ≡ (err e, w')
      → (db.row w' upd.id ≡ db.row w upd.id)
        ⊎ ((old : Order) × (db.row w upd.id ≡ some old) × (db.row w' upd.id ≡ some (merge upd old)))
  unfolding update
  update_err upd w w' e h = ground (arith, run_update_err upd w w' e)

  -- The repository over any engine fills what the service relies on.
  abbrev pub order_table : OrderTable (repository db)
  order_table = record {
    row = db.row;
    row_key = db.row_key;
    read_ok = read_ok;
    read_not_found = read_not_found;
    create_ok = create_ok;
    create_others = create_others;
    create_err = create_err;
    update_ok = update_ok;
    update_others = update_others;
    update_err = update_err;
  }
