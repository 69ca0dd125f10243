-- ===== src/Inventory/Transport.antt =====
-- inventory/internal/transport/grpc/inventory/v1/inventory.go. A handler may panic.
pub mod Answers
pub mod Replies
use rocket_maintenance.Common.{
  String, true, false, List, [], ◌∷◌, ◌++◌, Option, Result, ok, err, Action, Fault, failed, lift,
  on_err, ◌>>=◌, pure, is, if◌then◌else◌,
}
use rocket_maintenance.Proto.{
  PbPart, PbPartsFilter, TimeLib, Status, not_found, internal, invalid_argument as bad_argument,
}
use rocket_maintenance.Inventory.Model.{
  Part, InventoryError, inventory_sentinels, part_not_found, invalid_argument,
}
use rocket_maintenance.Inventory.Service.{PartRepository, part, list_parts}
use rocket_maintenance.Inventory.Converter.{part_from_model, parts_filter_to_model}

unfoldable pub map_error : InventoryError → Status
map_error e =
    if is e invalid_argument
    then record { code = bad_argument; text = "invalid argument" }
    else if is e part_not_found
    then record { code = not_found; text = "part not found" }
    else record { code = internal; text = "internal error" }

-- The loop of `ListParts`, with the parts so far.
unfoldable pub convert_all : TimeLib → List PbPart → List Part → Result (Fault Status) (List PbPart)
unfolding part_from_model
convert_all times out [] = ok out
convert_all times out (p ∷ ps) = elim (part_from_model times p) [
  | ok pb ↦ convert_all times (out ++ (pb ∷ [])) ps
  | err f ↦ err f
]

module _ {W : Type 0} (times : TimeLib) (repo : PartRepository W) where
  unfoldable pub get_part : String → Action W (Fault Status) PbPart
  unfolding map_error part_from_model
  get_part uuid = do
    p ← on_err (part repo uuid) (λ e. failed (map_error e))
    lift (part_from_model times p)

  unfoldable pub list_parts_handler : Option PbPartsFilter → Action W (Fault Status) (List PbPart)
  unfolding map_error convert_all
  list_parts_handler filter = do
    parts ← on_err (list_parts repo (parts_filter_to_model filter)) (λ e. failed (map_error e))
    lift (convert_all times [] parts)
