-- ===== src/Order/Client/Parts.antt =====
-- A part of the inventory, as the order service sees it.
use rocket_maintenance.Common.{
  ◌≡◌, refl, sym, ap, ◌∙◌, ℕ, String, List, [], ◌∷◌, Option, none, some, Result, ok, err, arith,
  leb, if◌then◌else◌, Option-cases, inl, inr,
}
use rocket_maintenance.Proto.{PbPart, TimeLib}
use rocket_maintenance.Inventory.Model
use rocket_maintenance.Inventory.Converter.{
  part_from_model, pb_part, category_from_model, dimensions_from_model, manufacturer_from_model,
  metadata_from_model,
}
use rocket_maintenance.Order.Part
use rocket_maintenance.Order.Client.{
  part_to_model, dimensions_to_model, manufacturer_to_model, metadata_to_model, ts_to_time_ptr,
}

-- The values of the four known types, in their order.
abbrev pub carried : List (String × Model.Value) → List (String × Part.Value)
carried [] = []
carried ((k, Model.Value.text s) ∷ es) = (k, Part.Value.text s) ∷ carried es
carried ((k, Model.Value.int n) ∷ es) = (k, Part.Value.int n) ∷ carried es
carried ((k, Model.Value.double d) ∷ es) = (k, Part.Value.double d) ∷ carried es
carried ((k, Model.Value.bool b) ∷ es) = (k, Part.Value.bool b) ∷ carried es
carried ((k, _) ∷ es) = carried es

abbrev pub seen_dimensions : Option Model.Dimensions → Option Part.Dimensions
seen_dimensions none = none
seen_dimensions (some d) =
    some (record { length = d.length; width = d.width; height = d.height; weight = d.weight })

abbrev pub seen_manufacturer : Option Model.Manufacturer → Option Part.Manufacturer
seen_manufacturer none = none
seen_manufacturer (some m) =
    some (record { name = m.name; country = m.country; website = m.website })

-- All fields, with a category that is no constant read as unknown.
abbrev pub seen : Model.Part → Part.Part
seen p = record {
  id = p.id;
  name = p.name;
  description = p.description;
  price_cents = p.price_cents;
  stock_quantity = p.stock_quantity;
  category = if leb p.category 4 then p.category else 0;
  dimensions = seen_dimensions p.dimensions;
  manufacturer = seen_manufacturer p.manufacturer;
  tags = p.tags;
  metadata = carried p.metadata;
  created_at = p.created_at;
  updated_at = p.updated_at;
}

category_from_model-eq : (c : ℕ) → category_from_model c ≡ (if leb c 4 then c else 0)
unfolding category_from_model
category_from_model-eq c = ground arith

dimensions_to_model-dimensions_from_model :
    (d : Option Model.Dimensions)
    → dimensions_to_model (dimensions_from_model d) ≡ seen_dimensions d
unfolding dimensions_to_model dimensions_from_model
dimensions_to_model-dimensions_from_model none = refl
dimensions_to_model-dimensions_from_model (some d) = refl

manufacturer_to_model-manufacturer_from_model :
    (m : Option Model.Manufacturer)
    → manufacturer_to_model (manufacturer_from_model m) ≡ seen_manufacturer m
unfolding manufacturer_to_model manufacturer_from_model
manufacturer_to_model-manufacturer_from_model none = refl
manufacturer_to_model-manufacturer_from_model (some m) = refl

metadata_to_model-metadata_from_model :
    (es : List (String × Model.Value)) → metadata_to_model (metadata_from_model es) ≡ carried es
unfolding metadata_to_model metadata_from_model
metadata_to_model-metadata_from_model [] = refl
metadata_to_model-metadata_from_model ((k, Model.Value.text s) ∷ es) =
    ap (λ r. (k, Part.Value.text s) ∷ r) (metadata_to_model-metadata_from_model es)
metadata_to_model-metadata_from_model ((k, Model.Value.int n) ∷ es) =
    ap (λ r. (k, Part.Value.int n) ∷ r) (metadata_to_model-metadata_from_model es)
metadata_to_model-metadata_from_model ((k, Model.Value.double d) ∷ es) =
    ap (λ r. (k, Part.Value.double d) ∷ r) (metadata_to_model-metadata_from_model es)
metadata_to_model-metadata_from_model ((k, Model.Value.bool b) ∷ es) =
    ap (λ r. (k, Part.Value.bool b) ∷ r) (metadata_to_model-metadata_from_model es)
metadata_to_model-metadata_from_model ((k, Model.nil_value) ∷ es) =
    metadata_to_model-metadata_from_model es
metadata_to_model-metadata_from_model ((k, Model.other _) ∷ es) =
    metadata_to_model-metadata_from_model es

ts_to_time_ptr-new : (times : TimeLib) (t : ℕ) → ts_to_time_ptr times (some (times.new t)) ≡ some t
unfolding ts_to_time_ptr
ts_to_time_ptr-new times t = ap some (times.as_time-new t)

part_to_model-pb_part :
    (times : TimeLib) (p : Model.Part) (created updated : ℕ)
    → part_to_model times (some (pb_part times p created updated))
      ≡ record (seen p) { created_at = some created; updated_at = some updated }
unfolding part_to_model pb_part
part_to_model-pb_part times p created updated =
    rw
      (
        category_from_model-eq p.category,
        dimensions_to_model-dimensions_from_model p.dimensions,
        manufacturer_to_model-manufacturer_from_model p.manufacturer,
        metadata_to_model-metadata_from_model p.metadata,
        ts_to_time_ptr-new times created,
        ts_to_time_ptr-new times updated,
      )
      refl

abbrev value : {E A : Type 0} → Result E A → Option A
value (ok a) = some a
value (err _) = none

-- A part that the inventory answers with is read by the order service with all its fields, except that
-- a category that is no constant becomes unknown and that metadata of types other than text, int64,
-- float64 and bool is dropped.
pub part_to_model-part_from_model :
    {E : Type 0} (times : TimeLib) (p : Model.Part) (pb : PbPart)
    → part_from_model {E = E} times p ≡ ok pb
    → part_to_model times (some pb) ≡ seen p
unfolding part_to_model part_from_model
part_to_model-part_from_model {E} times p pb h = elim (Option-cases p.created_at) [
  | inl c ↦ absurd (ground arith)
  | inr (created, c) ↦ elim (Option-cases p.updated_at) [
    | inl u ↦ absurd (ground arith)
    | inr (updated, u) ↦
        let e : ok (pb_part times p created updated) ≡ ok pb = rw (c, u) at h in
        sym (ap (λ r. part_to_model times (value r)) e)
        ∙ (part_to_model-pb_part times p created updated ∙ rw (c, u) refl)
  ]
]
