-- ===== src/Inventory/Bootstrap.antt =====
-- inventory/internal/repository/part/init.go: the sample parts. Lengths and weights are the bit patterns
-- of their float64; a metadata value of type int is none of the types that the converters know.
use rocket_maintenance.Common.{
  ◌≡◌, ◌≢◌, refl, ap, ◌∙◌, String, true, false, List, [], ◌∷◌, ◌++◌, map, Option, some, ok, Action,
  wrap, on_err, >>=-of-ok, arith,
}
use package.text.Mathlib.Text.{◌==◌ as str_eq}
use rocket_maintenance.Inventory.Model.{Part, Time, text, double, bool, other, InventoryError}
use rocket_maintenance.Inventory.Entity.{PartEntity, entity_from_model}
use rocket_maintenance.Inventory.Repository.Batch.{documents-next}
use rocket_maintenance.Inventory.Repository.{
  Collection, as_error, create_batch, documents, insert_documents, stamped, is_zero_time,
}

abbrev pub engine : String → Time → Part
engine id now = record {
  id = id;
  name = "HyperDrive Engine Mk1";
  description = "Основной гипердрайв для малых космических кораблей.";
  price_cents = 12500050;
  stock_quantity = 10;
  category = 1;
  dimensions = some (record {
    length = 4643000109586448384;
    width = 4640537203540230144;
    height = 4639129828656676864;
    weight = 4659255289491488768;
  });
  manufacturer = some (record {
    name = "Andromeda Drives Inc.";
    country = "USA";
    website = "https://andromeda-drives.example.com";
  });
  tags = "engine" ∷ "hyperdrive" ∷ "mk1" ∷ "small-ship" ∷ [];
  metadata =
      ("max_thrust_kn", double 4650687894887858176)
      ∷ ("warranty_years", other 5)
      ∷ ("military_grade", bool true)
      ∷ ("fuel_type", text "quantum-plasma")
      ∷ [];
  created_at = some now;
  updated_at = some now;
}

abbrev pub fuel_cell : String → Time → Part
fuel_cell id now = record {
  id = id;
  name = "Quantum Fuel Cell QF-200";
  description = "Топливная ячейка для гипердрайвов серии QF.";
  price_cents = 780000;
  stock_quantity = 120;
  category = 2;
  dimensions = some (record {
    length = 4635329916471083008;
    width = 4630826316843712512;
    height = 4630122629401935872;
    weight = 4631530004285489152;
  });
  manufacturer = some (record {
    name = "Sirius Energy Systems";
    country = "Germany";
    website = "https://sirius-energy.example.com";
  });
  tags = "fuel" ∷ "quantum" ∷ "cell" ∷ "qf-series" ∷ [];
  metadata =
      ("capacity_kwh", double 4643000109586448384)
      ∷ ("compatible_engine", text "HyperDrive Engine Mk1")
      ∷ ("hazard_class", other 3)
      ∷ [];
  created_at = some now;
  updated_at = some now;
}

abbrev pub porthole : String → Time → Part
porthole id now = record {
  id = id;
  name = "Panoramic Porthole PX-360";
  description = "Панорамный иллюминатор с круговым обзором 360°.";
  price_cents = 1520000;
  stock_quantity = 35;
  category = 3;
  dimensions = some (record {
    length = 4638144666238189568;
    width = 4638144666238189568;
    height = 4622945017495814144;
    weight = 4634274385308418048;
  });
  manufacturer = some (record {
    name = "Orion Optics";
    country = "Japan";
    website = "https://orion-optics.example.com";
  });
  tags = "porthole" ∷ "glass" ∷ "panoramic" ∷ "px-360" ∷ [];
  metadata =
      ("glass_type", text "triplex-titanium")
      ∷ ("max_pressure_bar", double 4638144666238189568)
      ∷ ("radiation_protection", bool true)
      ∷ [];
  created_at = some now;
  updated_at = some now;
}

abbrev pub samples : String → String → String → Time → List Part
samples a b c now = engine a now ∷ fuel_cell b now ∷ porthole c now ∷ []

-- `PartsBootstrap`: `now` is `time.Now` and `new_string` is `uuid.NewString`.
module _ {W : Type 0} (now : W → Time × W) (new_string : W → String × W)
    (batch : List (Option Part) → Action W InventoryError (Unit {0})) where
  unfoldable pub parts_bootstrap : Action W InventoryError (Unit {0})
  parts_bootstrap w =
      let (t, w₁) = now w in
      let (a, w₂) = new_string w₁ in
      let (b, w₃) = new_string w₂ in
      let (c, w₄) = new_string w₃ in batch (map some (samples a b c t)) w₄

module _ {W : Type 0} (to_lower : String → String) (coll : Collection W) where
  -- A part with an id and a time of creation is stored as it is.
  documents-stamped :
      (docs : List PartEntity) (p : Part) (ps : List (Option Part)) (w : W)
      → str_eq p.id "" ≡ false
      → is_zero_time p.created_at ≡ false
      → documents to_lower coll docs (some p ∷ ps) w
        ≡ documents to_lower coll (docs ++ (entity_from_model to_lower p ∷ [])) ps w
  documents-stamped docs p ps w has_id set =
      let same : stamped coll p w ≡ (p, w) = rw set refl in
      documents-next to_lower coll docs p ps w has_id
      ∙ ap
          (λ (r : Part × W).
            documents to_lower coll (docs ++ (entity_from_model to_lower r.0 ∷ [])) ps r.1)
          same

  documents-samples :
      (a b c : String) (t : Time) (w : W)
      → t ≢ 0
      → str_eq a "" ≡ false
      → str_eq b "" ≡ false
      → str_eq c "" ≡ false
      → documents to_lower coll [] (map some (samples a b c t)) w
        ≡ (ok (map (entity_from_model to_lower) (samples a b c t)), w)
  unfolding documents
  documents-samples a b c t w n ea eb ec =
      let set : is_zero_time (some t) ≡ false = ground arith in
      let first_two = map (entity_from_model to_lower) (engine a t ∷ fuel_cell b t ∷ []) in
      documents-stamped [] (engine a t) (map some (fuel_cell b t ∷ porthole c t ∷ [])) w ea set
      ∙ (documents-stamped (entity_from_model to_lower (engine a t) ∷ []) (fuel_cell b t)
            (some (porthole c t) ∷ []) w eb set
          ∙ documents-stamped first_two (porthole c t) [] w ec set)

  -- When the clock does not show zero and the three new ids are not empty, the bootstrap inserts
  -- the three sample parts in one call, as they are and under these ids, whatever is stored
  -- already.
  pub parts_bootstrap-insert :
      (now : W → Time × W) (new_string : W → String × W) (a b c : String) (t : Time)
      (w w₁ w₂ w₃ w₄ : W)
      → now w ≡ (t, w₁)
      → t ≢ 0
      → new_string w₁ ≡ (a, w₂)
      → new_string w₂ ≡ (b, w₃)
      → new_string w₃ ≡ (c, w₄)
      → str_eq a "" ≡ false
      → str_eq b "" ≡ false
      → str_eq c "" ≡ false
      → parts_bootstrap now new_string (create_batch to_lower coll) w
        ≡ on_err
            (coll.insert_many (map (entity_from_model to_lower) (samples a b c t)))
            (λ e. wrap "repository.CreateBatch" (as_error e))
            w₄
  unfolding parts_bootstrap create_batch insert_documents
  parts_bootstrap-insert now new_string a b c t w w₁ w₂ w₃ w₄ clock n i j k ea eb ec =
      rw (clock, i, j, k)
        (>>=-of-ok (documents to_lower coll [] (map some (samples a b c t))) (insert_documents coll)
          w₄ (documents-samples a b c t w₄ n ea eb ec))
