-- ===== src/Inventory/Repository/Batch.antt =====
-- What a batch of parts inserts.
use text.Mathlib.Text.{◌==◌ as str_eq}
use text.Mathlib.TextEquality.{eq_iff}
use rocket_maintenance.Common.{
  ◌≡◌, ◌≢◌, ◌⊎◌, inl, inr, refl, sym, ap, ◌∙◌, String, false, if◌then◌else◌, ◌==◌, List, [], ◌∷◌,
  ◌++◌, map, Option, none, some, ok, arith, All, Bool-cases, >>=-eq-ok, on_err-eq-ok, wrap,
}
use mathlib.Core.List.{append_assoc, append-nil, map-append}
use rocket_maintenance.Inventory.Model.{Time, Part}
use rocket_maintenance.Inventory.Entity.{PartEntity, entity_to_model, entity_from_model}
use rocket_maintenance.Inventory.Repository.{
  Collection, as_error, is_zero_time, stamped, documents, insert_documents, create_batch,
}
use rocket_maintenance.Inventory.Repository.Stored.{entity_to_model-entity_from_model}

-- The ids of the parts that are not nil.
abbrev pub ids_of : List (Option Part) → List String
ids_of [] = []
ids_of (none ∷ ps) = ids_of ps
ids_of (some p ∷ ps) = p.id ∷ ids_of ps

-- A document that is ready: it has an id and a time of creation that is not zero.
abbrev pub IsReady : PartEntity → Type 0
IsReady d = (d.id ≢ "") × (is_zero_time d.created_at ≡ false)

-- The clock never shows the zero time.
abbrev pub Ticks : {W : Type 0} → Collection W → Type 0
Ticks {W} coll = (w : W) → (coll.now w).0 ≢ 0

-- The parts that are not nil, each with a time of creation: the clock is read for those that have
-- none or the zero time.
module _ {W : Type 0} (coll : Collection W) where
  abbrev pub date : Option Time → Part → W → Part × W
  date none p w = (record p { created_at = some (coll.now w).0 }, (coll.now w).1)
  date (some t) p w =
      if t == 0 then (record p { created_at = some (coll.now w).0 }, (coll.now w).1) else (p, w)

  abbrev pub dated : List (Option Part) → W → List Part × W
  dated [] w = ([], w)
  dated (none ∷ ps) w = dated ps w
  dated (some p ∷ ps) w =
      let (q, w₁) = date p.created_at p w in let (qs, w₂) = dated ps w₁ in (q ∷ qs, w₂)

  date-stamped : (p : Part) (w : W) → date p.created_at p w ≡ stamped coll p w
  date-stamped p w = split p.created_at
    where
      split :
          (c : Option Time)
          → date c p w ≡ (
              if is_zero_time c
              then (record p { created_at = some (coll.now w).0 }, (coll.now w).1)
              else (p, w))
      split none = refl
      split (some t) = refl

stamped-ready :
    {W : Type 0} (coll : Collection W) (p : Part) (w : W)
    → Ticks coll
    → (is_zero_time (stamped coll p w).0.created_at ≡ false) × ((stamped coll p w).0.id ≡ p.id)
stamped-ready coll p w t = elim (Bool-cases (is_zero_time p.created_at)) [
  | inl z ↦ let n = t w in ground arith
  | inr z ↦ ground arith
]

All-snoc :
    {A : Type 0} (P : A → Type 0) (xs : List A) (y : A) → All P xs → P y → All P (xs ++ (y ∷ []))
All-snoc P [] y ps p = (p, tt)
All-snoc P (x ∷ xs) y (px, ps) p = (px, All-snoc P xs y ps p)

not_empty : (s : String) → str_eq s "" ≡ false → s ≢ ""
not_empty s h e = let t = (eq_iff s "").1 e in absurd (ground arith)

module _ {W : Type 0} (to_lower : String → String) (coll : Collection W) where
  pub documents-next :
      (docs : List PartEntity) (p : Part) (ps : List (Option Part)) (w : W)
      → str_eq p.id "" ≡ false
      → documents to_lower coll docs (some p ∷ ps) w
        ≡ documents to_lower coll
            (docs ++ (entity_from_model to_lower (stamped coll p w).0 ∷ []))
            ps
            (stamped coll p w).1
  unfolding documents
  documents-next docs p ps w has_id = rw (has_id, documents) refl

  documents-ok :
      (docs : List PartEntity) (ps : List (Option Part)) (w : W) {ds : List PartEntity} {w' : W}
      → Ticks coll
      → All IsReady docs
      → documents to_lower coll docs ps w ≡ (ok ds, w')
      → All IsReady ds × (map (λ d. d.id) ds ≡ map (λ d. d.id) docs ++ ids_of ps)
  unfolding documents entity_from_model
  documents-ok docs [] w {ds} t ready h =
      let same : docs ≡ ds = ground arith in
      rw (sym same) (ready, sym (append-nil (map (λ d. d.id) docs)))
  documents-ok docs (none ∷ ps) w t ready h = documents-ok docs ps w t ready h
  documents-ok docs (some p ∷ ps) w {ds} {w'} t ready h = elim (Bool-cases (str_eq p.id "")) [
    | inl empty_id ↦ absurd (ground arith)
    | inr has_id ↦
        let d = entity_from_model to_lower (stamped coll p w).0 in
        let (stamp, id) = stamped-ready coll p w t in
        let d_ready : IsReady d = (λ e. not_empty p.id has_id (sym id ∙ e), stamp) in
        let rest : documents to_lower coll (docs ++ (d ∷ [])) ps (stamped coll p w).1
            ≡ (ok ds, w') =
          sym (documents-next docs p ps w has_id) ∙ h in
        let (all, ids) =
          documents-ok (docs ++ (d ∷ [])) ps (stamped coll p w).1 t
            (All-snoc IsReady docs d ready d_ready) rest in
        (
          all,
          ids
              ∙ (ap (λ l. l ++ ids_of ps) (map-append (λ d. d.id) docs (d ∷ []))
                  ∙ (append_assoc (map (λ d. d.id) docs) (d.id ∷ []) (ids_of ps)
                      ∙ ap (λ i. map (λ d. d.id) docs ++ (i ∷ ids_of ps)) id)),
        )
  ]

  documents-dated :
      (docs : List PartEntity) (ps : List (Option Part)) (w : W) {ds : List PartEntity} {w' : W}
      → documents to_lower coll docs ps w ≡ (ok ds, w')
      → (ds ≡ docs ++ map (entity_from_model to_lower) (dated coll ps w).0)
        × (w' ≡ (dated coll ps w).1)
  unfolding documents
  documents-dated docs [] w h = (ground (arith, append-nil docs), ground arith)
  documents-dated docs (none ∷ ps) w h = documents-dated docs ps w h
  documents-dated docs (some p ∷ ps) w {ds} {w'} h = elim (Bool-cases (str_eq p.id "")) [
    | inl empty_id ↦ absurd (ground arith)
    | inr has_id ↦
        let same = date-stamped coll p w in
        let d = entity_from_model to_lower (date coll p.created_at p w).0 in
        let rest : documents to_lower coll (docs ++ (d ∷ [])) ps (date coll p.created_at p w).1
            ≡ (ok ds, w') =
          ap
            (λ (r : Part × W).
              documents to_lower coll (docs ++ (entity_from_model to_lower r.0 ∷ [])) ps r.1)
            same
          ∙ sym (documents-next docs p ps w has_id)
          ∙ h in
        let (all, left) =
          documents-dated (docs ++ (d ∷ [])) ps (date coll p.created_at p w).1 rest in
        (
          all
              ∙ append_assoc docs (d ∷ []) (
                  map (entity_from_model to_lower)
                    (dated coll ps (date coll p.created_at p w).1).0),
          left,
        )
  ]

  read_back : (ps : List Part) → map entity_to_model (map (entity_from_model to_lower) ps) ≡ ps
  read_back [] = refl
  read_back (p ∷ ps) =
      let one = entity_to_model-entity_from_model to_lower p in let rest = read_back ps in cc

  -- If the clock never shows the zero time and a batch is created, the documents are the parts that
  -- are not nil, in their order, each of which reads back with all its data, dated by the clock if
  -- it had no time of creation, and each with an id that is not empty and a time of creation. They
  -- have been inserted in one call, and nothing else was called but the clock; if there is none,
  -- nothing was inserted.
  pub create_batch_ok :
      (ps : List (Option Part)) (w : W) {w' : W}
      → Ticks coll
      → create_batch to_lower coll ps w ≡ (ok tt, w')
      → (ds : List PartEntity) × All IsReady ds
        × (map (λ d. d.id) ds ≡ ids_of ps)
        × (ds ≡ map (entity_from_model to_lower) (dated coll ps w).0)
        × (map entity_to_model ds ≡ (dated coll ps w).0)
        × (((ds ≡ []) × (w' ≡ (dated coll ps w).1))
            ⊎ ((ds ≢ []) × (coll.insert_many ds (dated coll ps w).1 ≡ (ok tt, w'))))
  unfolding create_batch insert_documents
  create_batch_ok ps w {w'} t h =
      let (ds, w₁, e, k) = >>=-eq-ok (documents to_lower coll [] ps) (insert_documents coll) w h in
      let (ready, ids) = documents-ok [] ps w t tt e in
      let (all, left) = documents-dated [] ps w e in
      (
        ds,
        ready,
        ids,
        all,
        ap (map entity_to_model) all ∙ read_back (dated coll ps w).0,
        inserted ds (dated coll ps w).1 (ap (insert_documents coll ds) (sym left) ∙ k),
      )
    where
      inserted :
          (ds : List PartEntity) (w₁ : W) {w' : W}
          → insert_documents coll ds w₁ ≡ (ok tt, w')
          → ((ds ≡ []) × (w' ≡ w₁)) ⊎ ((ds ≢ []) × (coll.insert_many ds w₁ ≡ (ok tt, w')))
      inserted [] w₁ k = inl (refl, ground arith)
      inserted (d ∷ ds) w₁ k = inr (
        λ e. ground arith,
        on_err-eq-ok (coll.insert_many (d ∷ ds)) (λ e. wrap "repository.CreateBatch" (as_error e))
            w₁ k,
      )
