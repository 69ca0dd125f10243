-- ===== src/Inventory/Repository/Stored.antt =====
-- What is stored and what is read back.
use rocket_maintenance.Common.{◌≡◌, refl, ℕ, String, List, [], ◌∷◌, is_empty, arith}
use rocket_maintenance.Inventory.Model.{Part, PartsFilter, empty}
use rocket_maintenance.Inventory.Entity.{entity_to_model, entity_from_model, build_mongo_filter}

-- A part is read back from its stored form as it was.
pub entity_to_model-entity_from_model :
    (to_lower : String → String) (p : Part) → entity_to_model (entity_from_model to_lower p) ≡ p
unfolding entity_to_model entity_from_model
entity_to_model-entity_from_model to_lower p = ground arith

-- The query has no condition exactly when the filter is empty: then all parts are listed.
pub build_mongo_filter-empty :
    (to_lower : String → String) (f : PartsFilter)
    → is_empty (build_mongo_filter to_lower f) ≡ empty f
unfolding build_mongo_filter empty
build_mongo_filter-empty to_lower f =
    split f.ids f.names f.categories f.tags f.manufacturer_countries
  where
    split :
        (i n : List String) (c : List ℕ) (t m : List String)
        → let g : PartsFilter = record {
          ids = i;
          names = n;
          categories = c;
          manufacturer_countries = m;
          tags = t;
        } in
          is_empty (build_mongo_filter to_lower g) ≡ empty g
    split (_ ∷ _) n c t m = refl
    split [] (_ ∷ _) c t m = refl
    split [] [] (_ ∷ _) t m = refl
    split [] [] [] (_ ∷ _) [] = refl
    split [] [] [] (_ ∷ _) (_ ∷ _) = refl
    split [] [] [] [] (_ ∷ _) = refl
    split [] [] [] [] [] = refl
