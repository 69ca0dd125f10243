-- ===== src/Inventory/Tests.antt =====
-- The inventory over a collection in memory that holds what was inserted, with a clock.
use text.Mathlib.Text.{◌==◌ as str_eq}
use rocket_maintenance.Common.{
  suc, ◌≡◌, ◌⊎◌, ◌≢◌, refl, String, List, [], ◌∷◌, ◌++◌, map, none, some, ok, err, panicked, arith,
  sentinel, All,
}
use rocket_maintenance.Proto.{TimeLib}
use rocket_maintenance.Inventory.Model.{Part, PartsFilter, Time, Value, other, part_not_found}
use rocket_maintenance.Inventory.Entity.{
  PartEntity, entity_to_model, entity_from_model, build_mongo_filter, normalize_country, id_in,
  country_norm_in,
}
use rocket_maintenance.Inventory.Repository.{
  Collection, no_documents, list, part_by_id, create_batch, documents, insert_documents, decode_all,
}
use rocket_maintenance.Inventory.Repository.Batch.{create_batch_ok, IsReady, Ticks, dated}
use rocket_maintenance.Inventory.Service.{PartRepository}
use rocket_maintenance.Inventory.Converter.{nil_pointer, parts_filter_to_model}
use rocket_maintenance.Inventory.Transport.{list_parts_handler}
use rocket_maintenance.Inventory.Transport.Answers.{list_parts_panics}

abbrev pub times : TimeLib
times = record {
  new = λ t. record { seconds = t; nanos = 0 };
  as_time = λ ts. ts.seconds;
  as_time-new = λ t. refl;
}

-- Lower case is not needed here: the countries are in lower case.
abbrev pub to_lower : String → String
to_lower s = s

abbrev pub engine : Part
engine = record {
  id = "p1";
  name = "engine";
  description = "";
  price_cents = 100;
  stock_quantity = 2;
  category = 1;
  dimensions = none;
  manufacturer = some (record { name = "orion"; country = " japan "; website = "" });
  tags = "fast" ∷ [];
  metadata = ("fuel", Value.text "plasma") ∷ (("warranty_years", other 5) ∷ []);
  created_at = none;
  updated_at = none;
}

pub record Store : Type 0 where
  pub clock : Time
  pub rows : List PartEntity

abbrev pub collection : Collection Store
collection = record {
  find_one = λ id w. (err no_documents, w);
  find = λ q w. (ok (record { documents = map ok w.rows; error = none }), w);
  insert_many = λ ds w. (ok tt, record w { rows = w.rows ++ ds });
  now = λ w. (suc w.clock, record w { clock = suc w.clock });
}

abbrev pub repository : PartRepository Store
repository = record { part_by_id = part_by_id collection; list = list to_lower collection }

abbrev fresh : Store
fresh = record { clock = 6; rows = [] }

abbrev stored : PartEntity
stored = entity_from_model to_lower (record engine { created_at = some 7 })

abbrev filled : Store
filled = record { clock = 7; rows = stored ∷ [] }

abbrev in_japan : PartsFilter
in_japan = record {
  ids = "p1" ∷ [];
  names = [];
  categories = [];
  manufacturer_countries = "japan " ∷ [];
  tags = [];
}

query :
    build_mongo_filter to_lower in_japan ≡ id_in ("p1" ∷ []) ∷ (country_norm_in ("japan" ∷ []) ∷ [])
unfolding build_mongo_filter normalize_country
query = refl

batch : create_batch to_lower collection (none ∷ (some engine ∷ [])) fresh ≡ (ok tt, filled)
unfolding create_batch documents insert_documents entity_from_model
batch = refl

ticks : Ticks collection
ticks w e = ground arith

create_batch_ok_example :
    (ds : List PartEntity) × All IsReady ds
    × (map (λ d. d.id) ds ≡ "p1" ∷ [])
    × (ds ≡ map (entity_from_model to_lower) (dated collection (none ∷ (some engine ∷ [])) fresh).0)
    × (map entity_to_model ds ≡ (dated collection (none ∷ (some engine ∷ [])) fresh).0)
    × (((ds ≡ []) × (filled ≡ record fresh { clock = 7 }))
        ⊎ ((ds ≢ []) × (collection.insert_many ds (record fresh { clock = 7 }) ≡ (ok tt, filled))))
create_batch_ok_example =
    create_batch_ok to_lower collection (none ∷ (some engine ∷ [])) fresh ticks batch

listed_all :
    list to_lower collection (parts_filter_to_model none) filled
    ≡ (ok (record engine { created_at = some 7 } ∷ []), filled)
unfolding list decode_all entity_to_model entity_from_model
listed_all = refl

-- A part that was created without a time of update is listed once and panics.
list_parts_panics_example :
    list_parts_handler times repository none filled ≡ (err (panicked nil_pointer), filled)
list_parts_panics_example =
    list_parts_panics times repository none (record engine { created_at = some 7 } ∷ []) filled
      listed_all refl

missing : part_by_id collection "p9" filled ≡ (err (sentinel part_not_found), filled)
unfolding part_by_id
missing = refl
