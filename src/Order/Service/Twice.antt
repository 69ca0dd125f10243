-- ===== src/Order/Service/Twice.antt =====
-- A request that names a part twice (service/order/service.go).
use rocket_maintenance.Common.{
  ◌<◌, ◌≡◌, ◌≢◌, inl, refl, ap, ◌∙◌, List, [], ◌∷◌, ◌++◌, map, ok, err, wrap, sentinel, length,
  length-append, length-map, All, In, Distinct, Distinct-length, All-again, In-map, String, arith,
  ◌==◌, false,
}
use mathlib.Core.List.{map-append}
use rocket_maintenance.Common.Uuids.{Uuid, nil}
use rocket_maintenance.Order.Model.{CreateOrderParams, order_sentinels, part_not_found}
use rocket_maintenance.Order.Part.{Part}
use rocket_maintenance.Order.Ports.{Service}
use rocket_maintenance.Order.Service.{create, ids_filter, create_op}
use rocket_maintenance.Order.Service.Create.{create_refused}

-- Distinct parts among those asked for are fewer than the ids, when an id is asked for twice.
few-parts :
    (to_string : Uuid → String) (a b : List Uuid) (i : Uuid) (parts : List Part)
    → In i (a ++ b)
    → Distinct (map (λ p. p.id) parts)
    → All (λ id. In id (map to_string (a ++ (i ∷ b)))) (map (λ p. p.id) parts)
    → length parts < length (a ++ (i ∷ b))
few-parts to_string a b i parts twice d asked =
    let ids = map (λ p. p.id) parts in
    let again : In (to_string i) (map to_string a ++ map to_string b) =
      rw (map-append to_string a b) at (In-map to_string i (a ++ b) twice) in
    let among : All (λ id. In id (map to_string a ++ map to_string b)) ids =
      All-again (to_string i) (map to_string a) (map to_string b) ids again
        (rw (map-append to_string a (i ∷ b)) at asked) in
    let bound = Distinct-length ids (map to_string a ++ map to_string b) d among in
    omega (
      arith,
      bound,
      length-map parts (λ (p : Part). p.id),
      length-append (map to_string a) (map to_string b),
      length-map a to_string,
      length-map b to_string,
      length-append a (i ∷ b),
    )

module _ {W : Type 0} (svc : Service W) where
  -- A request with a user that names a part twice is refused as a missing part and nothing is
  -- stored, if the inventory lists distinct parts that were asked for.
  pub create-twice :
      (params : CreateOrderParams) (a b : List Uuid) (i : Uuid) (parts : List Part) (w listed : W)
      → params.user_id ≢ nil
      → params.part_ids ≡ a ++ (i ∷ b)
      → In i (a ++ b)
      → svc.inventory.list_parts (ids_filter (map svc.uuids.to_string params.part_ids)) w
        ≡ (ok parts, listed)
      → Distinct (map (λ p. p.id) parts)
      → All (λ id. In id (map svc.uuids.to_string params.part_ids)) (map (λ p. p.id) parts)
      → create svc params w ≡ (err (wrap create_op (sentinel part_not_found)), listed)
  create-twice params a b i parts w listed user ids twice list d asked =
      let fewer : length parts < length (a ++ (i ∷ b)) =
        few-parts svc.uuids.to_string a b i parts twice d (rw ids at asked) in
      let counted : length params.part_ids ≡ length (a ++ (i ∷ b)) = ap length ids in
      let short : (length parts == length params.part_ids) ≡ false = ground arith in
      let some_parts : params.part_ids ≢ [] =
        λ e. absurd (omega (arith, fewer, counted, ap length e)) in
      create_refused svc params parts w listed user some_parts list
        (inl (λ e. absurd (omega (arith, fewer, counted, e))))
      ∙ rw short refl
