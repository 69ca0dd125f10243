-- ===== src/Inventory/Service.antt =====
-- inventory/internal/service/part/service.go. The deadline of a call enters as an error of it.
use text.Mathlib.Text.{◌==◌ as str_eq}
use rocket_maintenance.Common.{
  String, List, Action, fail, on_err, if◌then◌else◌, sentinel, new_error, wrap, join,
}
use rocket_maintenance.Inventory.Model.{Part, PartsFilter, InventoryError, invalid_argument}
use rocket_maintenance.Inventory.Text.{trim_space}

pub record PartRepository (W : Type 0) : Type 0 where
  pub part_by_id : String → Action W InventoryError Part
  pub list : PartsFilter → Action W InventoryError (List Part)

module _ {W : Type 0} (repo : PartRepository W) where
  unfoldable pub part : String → Action W InventoryError Part
  part part_id =
      if str_eq (trim_space part_id) ""
      then fail (join (sentinel invalid_argument) (new_error "uuid must be non-empty"))
      else on_err (repo.part_by_id (trim_space part_id)) (wrap "inventory.service.Part")

  unfoldable pub list_parts : PartsFilter → Action W InventoryError (List Part)
  list_parts filter = on_err (repo.list filter) (wrap "inventory.service.ListParts")
