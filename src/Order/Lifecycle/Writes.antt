-- ===== src/Order/Lifecycle/Writes.antt =====
-- What the order service writes to the table, as moves of a row.
use rocket_maintenance.Common.{
  ◌≡◌, ◌⊎◌, inl, inr, refl, true, some, ◌==◌, ==→eq, ==→ne, Bool-cases, ok, err, Result, arith,
}
use rocket_maintenance.Common.Uuids.{Uuid}
use rocket_maintenance.Order.Model.{
  Order, OrderError, PaymentMethod, pending_payment, cancelled, is_set,
}
use rocket_maintenance.Order.Ports.{Service}
use rocket_maintenance.Order.Table.{OrderTable, merge}
use rocket_maintenance.Order.Service
use rocket_maintenance.Order.Lifecycle.{Move, same, settled, dropped, finished}

module _ {W : Type 0} (svc : Service W) (t : OrderTable svc.repo) where
  -- An update with a status changes its own row by a merge, or nothing.
  abbrev pub Wrote : Order → W → W → Uuid → Type 0
  Wrote upd w w' k =
      (t.row w' k ≡ t.row w k)
      ⊎ ((old : Order) × (k ≡ upd.id)
          × (t.row w k ≡ some old)
          × (t.row w' k ≡ some (merge upd old)))

  pub update-Wrote :
      (upd : Order) (k : Uuid) (w : W)
      → is_set upd.status ≡ true
      → Wrote upd w (svc.repo.update upd w).1 k
  update-Wrote upd k w s = elim (Bool-cases (k == upd.id)) [
    | inl own ↦ rw (==→eq k upd.id own) (split (svc.repo.update upd w) refl)
    | inr other ↦ inl (t.update_others upd k w (==→ne k upd.id other))
  ]
    where
      split :
          (r : Result OrderError (Unit {0}) × W)
          → svc.repo.update upd w ≡ r
          → Wrote upd w r.1 upd.id
      split (ok u, w') e =
          let (old, before, after) = t.update_ok upd w w' e s in inr (old, refl, before, after)
      split (err x, w') e = elim (t.update_err upd w w' x e) [
        | inl kept ↦ inl kept
        | inr (old, before, after) ↦ inr (old, refl, before, after)
      ]

  -- What `Pay`, `Cancel` and `Complete` write, as moves of the row that they read.
  pub Wrote-settled :
      (ord : Order) (pm : PaymentMethod) (tx k : Uuid) (w w' : W)
      → t.row w ord.id ≡ some ord
      → ord.status ≡ pending_payment
      → Wrote (Service.mark_paid ord pm tx) w w' k
      → Move (t.row w k) (t.row w' k)
  Wrote-settled ord pm tx k w w' stored pending (inl kept) = same kept
  Wrote-settled ord pm tx k w w' stored pending (inr (old, own, before, after)) =
      let it : old ≡ ord = ground arith in
      settled old (merge (Service.mark_paid ord pm tx) old) before after (ground arith) refl
        (record { tx = tx; recorded = refl; method = λ e. cc }) (ground arith)

  pub Wrote-dropped :
      (ord : Order) (k : Uuid) (w w' : W)
      → t.row w ord.id ≡ some ord
      → ord.status ≡ pending_payment
      → Wrote (record ord { status = cancelled }) w w' k
      → Move (t.row w k) (t.row w' k)
  Wrote-dropped ord k w w' stored pending (inl kept) = same kept
  Wrote-dropped ord k w w' stored pending (inr (old, own, before, after)) =
      let it : old ≡ ord = ground arith in
      dropped old (merge (record ord { status = cancelled }) old) before after (ground arith) refl
        (ground arith)

  pub Wrote-finished :
      (id k : Uuid) (w w' : W)
      → Wrote (Service.completed_order id) w w' k
      → Move (t.row w k) (t.row w' k)
  Wrote-finished id k w w' (inl kept) = same kept
  Wrote-finished id k w w' (inr (old, own, before, after)) =
      finished old (merge (Service.completed_order id) old) before after refl refl
        (record { user_id = refl; part_ids = refl; total_price = refl })

  pub complete-Move :
      (id k : Uuid) (w : W) → Move (t.row w k) (t.row (Service.complete svc id w).1 k)
  unfolding Service.complete
  complete-Move id k w =
      Wrote-finished id k w _ (update-Wrote (Service.completed_order id) k w refl)
