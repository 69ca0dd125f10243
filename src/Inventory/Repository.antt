-- ===== src/Inventory/Repository.antt =====
-- inventory/internal/repository/part/repository.go, over a collection of MongoDB, which is a parameter.
pub mod Stored
pub mod Batch
use rocket_maintenance.Common.{
  ℕ, String, Bool, true, false, ◌||◌, List, [], ◌∷◌, ◌++◌, map, is_empty, Option, none, some, ◌==◌,
  if◌then◌else◌, Result, ok, err, map_err, Action, pure, fail, lift, on_err, ◌>>=◌, ◌>>◌, sentinel,
  new_error, wrap,
}
use text.Mathlib.Text.{◌==◌ as str_eq}
use rocket_maintenance.Common.Int64.{Int64}
use rocket_maintenance.Inventory.Text.{trim_space}
use rocket_maintenance.Inventory.Model.{
  Category, Float64, Time, Dimensions, Manufacturer, Value, Part, PartsFilter, InventoryError,
  part_not_found,
}
use rocket_maintenance.Inventory.Entity.{
  PartEntity, Condition, entity_to_model, entity_from_model, build_mongo_filter,
}

-- `ErrNoDocuments`, or the text of another error.
pub data MongoError : Type 0 where
  no_documents : MongoError
  mongo_error : String → MongoError

-- What a cursor gives: the documents, each decoded or not, and its error behind them.
pub record Cursor : Type 0 where
  pub documents : List (Result String PartEntity)
  pub error : Option String

pub record Collection (W : Type 0) : Type 0 where
  pub find_one : String → Action W MongoError PartEntity
  pub find : List Condition → Action W MongoError Cursor
  pub insert_many : List PartEntity → Action W MongoError (Unit {0})
  pub now : W → Time × W

abbrev pub as_error : MongoError → InventoryError
as_error no_documents = new_error "mongo: no documents in result"
as_error (mongo_error e) = new_error e

abbrev pub part_error : MongoError → InventoryError
part_error no_documents = sentinel part_not_found
part_error e = wrap "repository.PartByID" (as_error e)

-- The loop of `List`, with the parts so far.
unfoldable pub decode_all :
    List Part → Option String → List (Result String PartEntity) → Result InventoryError (List Part)
unfolding entity_to_model
decode_all out none [] = ok out
decode_all out (some e) [] = err (wrap "repository.List cursor" (new_error e))
decode_all out e (ok ent ∷ docs) = decode_all (out ++ (entity_to_model ent ∷ [])) e docs
decode_all out e (err x ∷ docs) = err (wrap "repository.List decode" (new_error x))

abbrev pub is_zero_time : Option Time → Bool
is_zero_time none = true
is_zero_time (some t) = t == 0

module _ {W : Type 0} (coll : Collection W) where
  unfoldable pub part_by_id : String → Action W InventoryError Part
  unfolding entity_to_model
  part_by_id id = do ent ← on_err (coll.find_one id) part_error; pure (entity_to_model ent)

  -- `p.CreatedAt` as it is stored.
  abbrev pub stamped : Part → W → Part × W
  stamped p w =
      if is_zero_time p.created_at
      then (let (t, w') = coll.now w in (record p { created_at = some t }, w'))
      else (p, w)

  -- `CreateBatch` behind the loop.
  unfoldable pub insert_documents : List PartEntity → Action W InventoryError (Unit {0})
  insert_documents [] = pure tt
  insert_documents (d ∷ ds) =
      on_err (coll.insert_many (d ∷ ds)) (λ e. wrap "repository.CreateBatch" (as_error e))

module _ {W : Type 0} (to_lower : String → String) (coll : Collection W) where
  unfoldable pub list : PartsFilter → Action W InventoryError (List Part)
  unfolding build_mongo_filter decode_all
  list filter = do
    cur ←
        on_err (coll.find (build_mongo_filter to_lower filter))
          (λ e. wrap "repository.List" (as_error e))
    lift (decode_all [] cur.error cur.documents)

  -- The loop of `CreateBatch`, with the documents so far.
  unfoldable pub documents :
      List PartEntity → List (Option Part) → Action W InventoryError (List PartEntity)
  unfolding entity_from_model
  documents docs [] w = (ok docs, w)
  documents docs (none ∷ ps) w = documents docs ps w
  documents docs (some p ∷ ps) w = elim (str_eq p.id "") [
    | true ↦ (err (new_error "repository.CreateBatch: part ID is empty"), w)
    | false ↦
        documents (docs ++ (entity_from_model to_lower (stamped coll p w).0 ∷ [])) ps
          (stamped coll p w).1
  ]

  unfoldable pub create_batch : List (Option Part) → Action W InventoryError (Unit {0})
  unfolding documents insert_documents
  create_batch parts = do docs ← documents [] parts; insert_documents coll docs
