-- ===== src/Order/Service/Total.antt =====
-- When the total that `Create` computes is the sum of the prices (service/order/service.go).
use rocket_maintenance.Common.{
  ℕ, ◌*◌, ◌%◌, ◌<◌, ◌≤◌, ◌≡◌, ap, List, [], ◌∷◌, map, ok, length, All, arith,
}
use native.Mathlib.Nat.{suc-mul}
use rocket_maintenance.Common.Int64.{modulus, sign_bit}
use rocket_maintenance.Order.Model.{CreateOrderParams, CreateOrderResult}
use rocket_maintenance.Order.Part.{Part}
use rocket_maintenance.Order.Ports.{Service}
use rocket_maintenance.Order.Table.{OrderTable}
use rocket_maintenance.Order.Service.{create, ids_filter}
use rocket_maintenance.Order.Service.Create.{total_cents, create_ok}

total_cents-bound :
    (parts : List Part) (bound : ℕ)
    → All (λ p. p.price_cents ≤ bound) parts
    → total_cents parts ≤ length parts * bound
total_cents-bound [] bound h = omega arith
total_cents-bound (p ∷ ps) bound (h, hs) =
    omega (arith, total_cents-bound ps bound hs, suc-mul (length ps) bound)

module _ {W : Type 0} (svc : Service W) (t : OrderTable svc.repo) where
  -- When `Create` succeeds and no part that the inventory has listed costs more than a bound, whose
  -- product with the number of parts is below 2 ^ 63, the total is the sum of the prices, with no
  -- overflow, and is not negative.
  pub create-total :
      (params : CreateOrderParams) (r : CreateOrderResult) (parts : List Part) (bound : ℕ)
      (w listed w' : W)
      → create svc params w ≡ (ok r, w')
      → svc.inventory.list_parts (ids_filter (map svc.uuids.to_string params.part_ids)) w
        ≡ (ok parts, listed)
      → All (λ p. p.price_cents ≤ bound) parts
      → length params.part_ids * bound < sign_bit
      → (r.total_price ≡ total_cents parts) × (r.total_price < sign_bit)
  create-total params r parts bound w listed w' h list small few =
      let (_, _, (ps, l, e, same, _, total, _, _)) = create_ok svc t params r w w' h in
      let it : ps ≡ parts = ground arith in
      let exact = total_cents-bound parts bound small in
      let counted : length parts ≡ length params.part_ids = rw (← it) same in
      let summed : r.total_price ≡ total_cents parts % modulus = rw (← it) total in
      let within : total_cents parts < sign_bit =
        omega (arith, exact, few, ap (λ (n : ℕ). n * bound) counted) in
      (omega (arith, summed, within), omega (arith, summed, within))
