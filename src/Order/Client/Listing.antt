-- ===== src/Order/Client/Listing.antt =====
-- The order service's listing of parts, through the inventory's handler.
use rocket_maintenance.Common.{
  ◌≡◌, refl, sym, ap, ◌∙◌, ℕ, String, List, [], ◌∷◌, map, Option, some, Result, ok, err, arith, leb,
  if◌then◌else◌, Fault, failed, panicked, Action, pure, on_err, >>=-eq-ok, on_err-eq-ok,
}
use rocket_maintenance.Proto.{PbPart, PbPartsFilter, Status, TimeLib}
use rocket_maintenance.Inventory.Model
use rocket_maintenance.Inventory.Converter.{
  parts_filter_to_model, categories_to_model, category_to_model,
}
use rocket_maintenance.Inventory.Service.{PartRepository}
use rocket_maintenance.Inventory.Transport.{list_parts_handler}
use rocket_maintenance.Inventory.Transport.Answers.{Converted, list_parts_ok}
use rocket_maintenance.Order.Part
use rocket_maintenance.Order.Client.{
  inventory_client, parts_list_to_model, parts_filter_to_pb, status_error,
}
use rocket_maintenance.Order.Client.Parts.{seen, part_to_model-part_from_model}

seen_all :
    (times : TimeLib) (ps : List Model.Part) (pbs : List PbPart)
    → Converted times ps pbs
    → parts_list_to_model times (map some pbs) ≡ map seen ps
unfolding parts_list_to_model
seen_all times [] [] c = refl
seen_all times [] (_ ∷ _) c = absurd c
seen_all times (_ ∷ _) [] c = absurd c
seen_all times (p ∷ ps) (pb ∷ pbs) (e, c) =
    ap (λ q. q ∷ parts_list_to_model times (map some pbs))
      (part_to_model-part_from_model times p pb e)
    ∙ ap (λ r. seen p ∷ r) (seen_all times ps pbs c)

from_ok : {E A : Type 0} {a b : A} → ◌≡◌ {A = Result E A} (ok a) (ok b) → a ≡ b
from_ok h = ground arith

-- The inventory's handler as the generated client calls it: a panic ends the call with an error.
abbrev pub as_grpc :
    {W : Type 0}
    → (Option PbPartsFilter → Action W (Fault Status) (List PbPart))
    → (String → Status)
    → Option PbPartsFilter
    → Action W Status (List (Option PbPart))
as_grpc handler crash f w = elim (handler f w).0 [
  | ok pbs ↦ (ok (map some pbs), (handler f w).1)
  | err (failed s) ↦ (err s, (handler f w).1)
  | err (panicked r) ↦ (err (crash r), (handler f w).1)
]

as_grpc-ok :
    {W : Type 0} (handler : Option PbPartsFilter → Action W (Fault Status) (List PbPart))
    (crash : String → Status) (f : Option PbPartsFilter) (w : W) {xs : List (Option PbPart)}
    {w' : W}
    → as_grpc handler crash f w ≡ (ok xs, w')
    → (pbs : List PbPart) × (handler f w ≡ (ok pbs, w')) × (xs ≡ map some pbs)
as_grpc-ok {W} handler crash f w {xs} {w'} h = split (handler f w) refl h
  where
    split :
        (r : Result (Fault Status) (List PbPart) × W)
        → handler f w ≡ r
        → as_grpc (λ _ _. r) crash f w ≡ (ok xs, w')
        → (pbs : List PbPart) × (handler f w ≡ (ok pbs, w')) × (xs ≡ map some pbs)
    split (ok pbs, v) e k = (pbs, ground arith, ground arith)
    split (err (failed s), v) e k = absurd (ground arith)
    split (err (panicked s), v) e k = absurd (ground arith)

-- The filter as the inventory reads it: a category that is no constant is read as unknown.
abbrev pub asked : Part.PartsFilter → Model.PartsFilter
asked f = record {
  ids = f.ids;
  names = f.names;
  categories = map (λ c. if leb c 4 then c else 0) f.categories;
  manufacturer_countries = f.manufacturer_countries;
  tags = f.tags;
}

category_to_model-eq : (c : ℕ) → category_to_model c ≡ (if leb c 4 then c else 0)
unfolding category_to_model
category_to_model-eq c = ground arith

categories_to_model-eq :
    (cs : List ℕ) → categories_to_model cs ≡ map (λ c. if leb c 4 then c else 0) cs
unfolding categories_to_model
categories_to_model-eq [] = refl
categories_to_model-eq (c ∷ cs) =
    ap (λ x. x ∷ categories_to_model cs) (category_to_model-eq c)
    ∙ ap (λ r. (if leb c 4 then c else 0) ∷ r) (categories_to_model-eq cs)

parts_filter_to_model-parts_filter_to_pb :
    (f : Part.PartsFilter) → parts_filter_to_model (some (parts_filter_to_pb f)) ≡ asked f
unfolding parts_filter_to_model parts_filter_to_pb
parts_filter_to_model-parts_filter_to_pb f = rw (categories_to_model-eq f.categories) refl

-- When the order service's listing succeeds, the inventory's repository was asked once, for the
-- filter with its categories that are no constants read as unknown, and the parts are what it gave,
-- each as the order service sees it: a category that is no constant is unknown, and metadata of
-- types other than text, int64, float64 and bool is dropped.
pub inventory_client-list_parts_handler :
    {W : Type 0} (times : TimeLib) (repo : PartRepository W) (crash : String → Status)
    (f : Part.PartsFilter) (w : W) {ps : List Part.Part} {w' : W}
    → (inventory_client times (as_grpc (list_parts_handler times repo) crash)).list_parts f w
      ≡ (ok ps, w')
    → (qs : List Model.Part) × (repo.list (asked f) w ≡ (ok qs, w')) × (ps ≡ map seen qs)
unfolding inventory_client
inventory_client-list_parts_handler times repo crash f w {ps} {w'} h =
    let grpc = as_grpc (list_parts_handler times repo) crash in
    let (pbs, w₁, e, k) =
      >>=-eq-ok (on_err (grpc (some (parts_filter_to_pb f))) status_error)
        (λ parts. pure (parts_list_to_model times parts)) w h in
    let answered = on_err-eq-ok (grpc (some (parts_filter_to_pb f))) status_error w e in
    let (ms, handled, same) =
      as_grpc-ok (list_parts_handler times repo) crash (some (parts_filter_to_pb f)) w answered in
    let (qs, listed, converted) =
      list_parts_ok times repo (some (parts_filter_to_pb f)) w handled in
    (
      qs,
      sym (ap (λ g. repo.list g w) (parts_filter_to_model-parts_filter_to_pb f))
          ∙ (listed ∙ ap (λ v. (ok qs, v)) (ap (λ r. r.1) k)),
      from_ok (ap (λ r. r.0) (sym k))
          ∙ (ap (parts_list_to_model times) same ∙ seen_all times qs ms converted),
    )
