-- ===== src/Order/Service/Create.antt =====
-- What `Create` has done by the time it succeeds, and what it refuses.
use rocket_maintenance.Common.{
  ◌⊎◌, inl, inr, ℕ, ◌+◌, ◌%◌, ◌<◌, ◌≡◌, ◌≢◌, refl, sym, ap, ◌∙◌, true, false, List, [], ◌∷◌, ◌++◌,
  map, some, none, String, ok, err, on_err, lift, ◌>>=◌, >>=-eq-ok, on_err-eq-ok, arith, Result,
  Action, wrap, wrap_with, sentinel, pure, length, is_empty, All, ◌==◌, ==→eq, Bool-cases,
  if◌then◌else◌, not, ◌||◌,
}
use mathlib.Core.List.{append-nil, append_assoc}
use mathlib.Core.Path.{subst}
use native.Mathlib.Nat.{zero-add}
use rocket_maintenance.Common.Int64.{Int64, modulus, sign_bit, is_not_positive, add64}
use rocket_maintenance.Common.Uuids.{Uuid, nil}
use rocket_maintenance.Order.Model.{
  OrderError, CreateOrderParams, CreateOrderResult, order_sentinels, bad_gateway, part_not_found,
  parts_out_of_stock,
}
use rocket_maintenance.Order.Part.{Part}
use rocket_maintenance.Order.Ports.{Service}
use rocket_maintenance.Order.Table.{OrderTable}
use rocket_maintenance.Order.Service.{
  create, order_parts, store, price_parts, tally, show_list, new_order, ids_filter, create_op,
}

-- The stock, read as a signed number, is positive.
abbrev pub InStock : Part → Type 0
InStock p = (0 < p.stock_quantity) × (p.stock_quantity < sign_bit)

-- The sum of the prices with no bound.
abbrev pub total_cents : List Part → ℕ
total_cents [] = 0
total_cents (p ∷ ps) = p.price_cents + total_cents ps

-- The ids of the parts that are out of stock, in order.
abbrev pub ended_ids : List Part → List String
ended_ids [] = []
ended_ids (p ∷ ps) = if is_not_positive p.stock_quantity then p.id ∷ ended_ids ps else ended_ids ps

tally-ended :
    (ps : List Part) (total : Int64) (ended : List String)
    → (tally ps total ended).1 ≡ ended ++ ended_ids ps
unfolding tally
tally-ended [] total ended = sym (append-nil ended)
tally-ended (p ∷ ps) total ended = elim (Bool-cases (is_not_positive p.stock_quantity)) [
  | inl out ↦
      rw (out, tally)
        (tally-ended ps total (ended ++ p.id ∷ []) ∙ append_assoc ended (p.id ∷ []) (ended_ids ps))
  | inr has ↦ rw (has, tally) (tally-ended ps (add64 total p.price_cents) ended)
]

tally-total :
    (ps : List Part) (total : Int64) (ended : List String)
    → total < modulus
    → ended_ids ps ≡ []
    → ((tally ps total ended).0 ≡ (total + total_cents ps) % modulus) × All InStock ps
unfolding tally
tally-total [] total ended h e = (omega arith, tt)
tally-total (p ∷ ps) total ended h e = elim (Bool-cases (is_not_positive p.stock_quantity)) [
  | inl out ↦ absurd (ground arith)
  | inr has ↦
      let (sum, stocked) =
        tally-total ps (add64 total p.price_cents) ended (omega arith) (ground arith) in
      rw (has, tally) (omega (arith, sum), (ground arith, stocked))
]

-- What the two checks say of the parts that the inventory has listed.
price_parts-ok :
    (params : CreateOrderParams) (parts : List Part) {total : Int64}
    → price_parts params parts ≡ ok total
    → (length parts ≡ length params.part_ids)
      × All InStock parts
      × (total ≡ total_cents parts % modulus)
unfolding price_parts
price_parts-ok params parts {total} h =
    let same : (length parts == length params.part_ids) ≡ true = ground arith in
    let none_ended : is_empty (tally parts 0 []).1 ≡ true = ground arith in
    let (sum, stocked) =
      tally-total parts 0 [] (omega arith) (ground (arith, tally-ended parts 0 [])) in
    (==→eq _ _ same, stocked, ground arith)

-- The answer to a request with a user and with parts, once the inventory has listed the parts: the
-- wrong number of parts is a missing part, else any part with no stock is named in the error.
pub price_parts-eq :
    (params : CreateOrderParams) (parts : List Part)
    → price_parts params parts ≡ (
        if not (length parts == length params.part_ids)
        then err (wrap create_op (sentinel part_not_found))
        else if not (is_empty (ended_ids parts))
        then err (wrap_with create_op (sentinel parts_out_of_stock) (show_list (ended_ids parts)))
        else ok (total_cents parts % modulus))
unfolding price_parts
price_parts-eq params parts =
    rw (tally-ended parts 0 []) (elim (Bool-cases (is_empty (ended_ids parts))) [
      | inl none_ended ↦
          let (sum, stocked) = tally-total parts 0 [] (omega arith) (ground arith) in
          rw (none_ended, sum, zero-add) refl
      | inr some_ended ↦ rw some_ended refl
    ])

module _ {W : Type 0} (svc : Service W) where
  store_ok :
      (params : CreateOrderParams) (total : Int64) (r : CreateOrderResult) (w w' : W)
      → store svc params total w ≡ (ok r, w')
      → (total ≡ r.total_price) × (svc.repo.create (new_order params total) w ≡ (ok r.id, w'))
  unfolding store
  store_ok params total r w w' h =
      let write : Action W OrderError Uuid =
        on_err (svc.repo.create (new_order params total)) (wrap create_op) in
      let (id, w₁, e, k) =
        >>=-eq-ok write (λ id. pure (record { id = id; total_price = total })) w h in
      let called = on_err-eq-ok (svc.repo.create (new_order params total)) (wrap create_op) w e in
      (ground arith, called ∙ ground arith)

  order_parts_ok :
      (params : CreateOrderParams) (r : CreateOrderResult) (w w' : W)
      → order_parts svc params w ≡ (ok r, w')
      → (parts : List Part) × (listed : W) × (svc.inventory.list_parts
            (ids_filter (map svc.uuids.to_string params.part_ids))
            w
          ≡ (ok parts, listed))
        × (price_parts params parts ≡ ok r.total_price)
        × (svc.repo.create (new_order params r.total_price) listed ≡ (ok r.id, w'))
  unfolding order_parts
  order_parts_ok params r w w' h =
      let list = svc.inventory.list_parts (ids_filter (map svc.uuids.to_string params.part_ids)) in
      let (parts, listed, e, k) =
        >>=-eq-ok (on_err list (λ _. wrap create_op (sentinel bad_gateway)))
          (λ parts. lift (price_parts params parts) >>= store svc params) w h in
      let (total, w₁, e₁, k₁) =
        >>=-eq-ok (lift (price_parts params parts)) (store svc params) listed k in
      let there : w₁ ≡ listed = sym (ap (λ (p : Result OrderError Int64 × W). p.1) e₁) in
      let (totals, written) = store_ok params total r w₁ w' k₁ in
      (
        parts,
        listed,
        on_err-eq-ok list _ w e,
        ap (λ (p : Result OrderError Int64 × W). p.0) e₁ ∙ ap ok totals,
        subst (λ x. svc.repo.create (new_order params x) listed ≡ (ok r.id, w')) totals
            (subst (λ x. svc.repo.create (new_order params total) x ≡ (ok r.id, w')) there written),
      )

module _ {W : Type 0} (svc : Service W) where
  -- A request with a user and with parts for which the inventory lists the wrong number of parts or
  -- a part out of stock is refused and nothing is stored: as a missing part if the number is wrong,
  -- and otherwise with the ids of all the parts out of stock.
  pub create_refused :
      (params : CreateOrderParams) (parts : List Part) (w listed : W)
      → params.user_id ≢ nil
      → params.part_ids ≢ []
      → svc.inventory.list_parts (ids_filter (map svc.uuids.to_string params.part_ids)) w
        ≡ (ok parts, listed)
      → (length parts ≢ length params.part_ids) ⊎ (ended_ids parts ≢ [])
      → create svc params w ≡ (
        if length parts == length params.part_ids
            then err
                (wrap_with create_op (sentinel parts_out_of_stock) (show_list (ended_ids parts)))
            else err (wrap create_op (sentinel part_not_found)),
        listed,
      )
  unfolding create order_parts
  create_refused params parts w listed user some_parts list bad =
      let good : (params.user_id == nil || is_empty params.part_ids) ≡ false =
        ground (arith, user, some_parts) in
      rw good (
        ap
          (λ (r : Result OrderError (List Part) × W).
            (on_err (λ (_ : W). r) (λ _. wrap create_op (sentinel bad_gateway)) >>= λ ps.
            lift (price_parts params ps) >>= store svc params)
              w)
          list
        ∙ rw (price_parts-eq params parts) (ground arith))

  -- If the inventory cannot be asked, nothing is stored.
  pub create_unlisted :
      (params : CreateOrderParams) (e : OrderError) (w listed : W)
      → params.user_id ≢ nil
      → params.part_ids ≢ []
      → svc.inventory.list_parts (ids_filter (map svc.uuids.to_string params.part_ids)) w
        ≡ (err e, listed)
      → create svc params w ≡ (err (wrap create_op (sentinel bad_gateway)), listed)
  unfolding create order_parts
  create_unlisted params e w listed user some_parts list =
      let good : (params.user_id == nil || is_empty params.part_ids) ≡ false =
        ground (arith, user, some_parts) in
      rw good (
        ap
          (λ (r : Result OrderError (List Part) × W).
            (on_err (λ (_ : W). r) (λ _. wrap create_op (sentinel bad_gateway)) >>= λ ps.
            lift (price_parts params ps) >>= store svc params)
              w)
          list)

module _ {W : Type 0} (svc : Service W) (t : OrderTable svc.repo) where
  pub create_ok :
      (params : CreateOrderParams) (r : CreateOrderResult) (w w' : W)
      → create svc params w ≡ (ok r, w')
      → (params.user_id ≢ nil)
        × (params.part_ids ≢ [])
        × ((parts : List Part) × (listed : W) × (svc.inventory.list_parts
                (ids_filter (map svc.uuids.to_string params.part_ids))
                w
              ≡ (ok parts, listed))
            × (length parts ≡ length params.part_ids)
            × All InStock parts
            × (r.total_price ≡ total_cents parts % modulus)
            × (t.row listed r.id ≡ none)
            × (t.row w' r.id ≡ some (record (new_order params r.total_price) { id = r.id })))
  unfolding create
  create_ok params r w w' h =
      let good : (params.user_id == nil || is_empty params.part_ids) ≡ false = ground arith in
      let (parts, listed, e, priced, written) = order_parts_ok svc params r w w' (rw good at h) in
      let (same, stocked, total) = price_parts-ok params parts priced in
      let (fresh, stored) = t.create_ok (new_order params r.total_price) r.id listed w' written in
      (ground arith, λ e. ground arith, (parts, listed, e, same, stocked, total, fresh, stored))
