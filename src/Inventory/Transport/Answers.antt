-- ===== src/Inventory/Transport/Answers.antt =====
-- What the inventory answers, and when it panics.
use mathlib.Core.Path.{subst}
use mathlib.Core.List.{append_assoc, append-nil}
use rocket_maintenance.Common.{
  map_err, ◌≡◌, refl, sym, ap, ◌∙◌, Bool, true, false, ◌||◌, List, [], ◌∷◌, ◌++◌, Option, none,
  some, ok, err, failed, panicked, arith, Bool-cases, Option-cases, inl, inr, >>=-eq-ok,
  on_err-eq-ok, on_err->>=-of-ok, on_err, lift, wrap,
}
use rocket_maintenance.Proto.{PbPart, PbPartsFilter, TimeLib, Status}
use rocket_maintenance.Inventory.Model.{Part, inventory_sentinels}
use rocket_maintenance.Inventory.Service.{PartRepository, list_parts}
use rocket_maintenance.Inventory.Converter.{
  part_from_model, parts_filter_to_model, nil_pointer, pb_part,
}
use rocket_maintenance.Inventory.Transport.{map_error, convert_all, list_parts_handler}

-- A part one of whose times is not set.
abbrev pub lacks_time : Part → Bool
lacks_time p = elim p.created_at [
  | none ↦ true
  | some _ ↦ elim p.updated_at [ none ↦ true | some _ ↦ false ]
]

abbrev pub any_lacks_time : List Part → Bool
any_lacks_time [] = false
any_lacks_time (p ∷ ps) = lacks_time p || any_lacks_time ps

pub part_from_model-lacks :
    {E : Type 0} (times : TimeLib) (p : Part)
    → lacks_time p ≡ true
    → part_from_model {E = E} times p ≡ err (panicked nil_pointer)
unfolding part_from_model
part_from_model-lacks times p h = ground arith

pub part_from_model-has :
    {E : Type 0} (times : TimeLib) (p : Part)
    → lacks_time p ≡ false
    → (pb : PbPart) × (part_from_model {E = E} times p ≡ ok pb)
unfolding part_from_model
part_from_model-has times p h = elim (Option-cases p.created_at) [
  | inl c ↦ absurd (ground arith)
  | inr (created, c) ↦ elim (Option-cases p.updated_at) [
    | inl u ↦ absurd (ground arith)
    | inr (updated, u) ↦ (pb_part times p created updated, ground arith)
  ]
]

convert_all-lacks :
    (times : TimeLib) (out : List PbPart) (ps : List Part)
    → any_lacks_time ps ≡ true
    → convert_all times out ps ≡ err (panicked nil_pointer)
unfolding convert_all
convert_all-lacks times out [] h = absurd (ground arith)
convert_all-lacks times out (p ∷ ps) h = elim (Bool-cases (lacks_time p)) [
  | inl l ↦ rw (part_from_model-lacks {E = Status} times p l, convert_all) refl
  | inr l ↦
      let (pb, e) = part_from_model-has {E = Status} times p l in
      rw (e, convert_all) (convert_all-lacks times (out ++ (pb ∷ [])) ps (ground arith))
]

-- What is converted, part by part.
abbrev pub Converted : TimeLib → List Part → List PbPart → Type 0
Converted times [] [] = Unit
Converted times [] (_ ∷ _) = ⊥
Converted times (_ ∷ _) [] = ⊥
Converted times (p ∷ ps) (pb ∷ pbs) =
    (part_from_model {E = Status} times p ≡ ok pb) × Converted times ps pbs

convert_all-ok :
    (times : TimeLib) (out : List PbPart) (ps : List Part) {pbs : List PbPart}
    → convert_all times out ps ≡ ok pbs
    → (later : List PbPart) × (pbs ≡ out ++ later) × Converted times ps later
unfolding convert_all
convert_all-ok times out [] {pbs} h = ([], ground (arith, append-nil out), tt)
convert_all-ok times out (p ∷ ps) {pbs} h = elim (Bool-cases (lacks_time p)) [
  | inl l ↦ absurd (let e = part_from_model-lacks {E = Status} times p l in ground arith)
  | inr l ↦
      let (pb, e) = part_from_model-has {E = Status} times p l in
      let next : convert_all times (out ++ (pb ∷ [])) ps ≡ ok pbs = rw (e, convert_all) at h in
      let (later, eq, all) = convert_all-ok times (out ++ (pb ∷ [])) ps next in
      (pb ∷ later, eq ∙ append_assoc out (pb ∷ []) later, (e, all))
]

module _ {W : Type 0} (times : TimeLib) (repo : PartRepository W) where
  -- When a part that is listed lacks one of its times, the handler panics.
  pub list_parts_panics :
      (f : Option PbPartsFilter) (ps : List Part) (w : W) {w' : W}
      → repo.list (parts_filter_to_model f) w ≡ (ok ps, w')
      → any_lacks_time ps ≡ true
      → list_parts_handler times repo f w ≡ (err (panicked nil_pointer), w')
  unfolding list_parts_handler list_parts
  list_parts_panics f ps w {w'} h lacks =
      on_err->>=-of-ok (list_parts repo (parts_filter_to_model f)) (λ e. failed (map_error e))
        (λ parts. lift (convert_all times [] parts)) w {a = ps} {w₁ = w'}
        (ap (λ r. (map_err (wrap "inventory.service.ListParts") r.0, r.1)) h)
      ∙ ap (λ r. (r, w')) (convert_all-lacks times [] ps lacks)

  -- When the handler answers with parts, they are the repository's, converted one by one.
  pub list_parts_ok :
      (f : Option PbPartsFilter) (w : W) {pbs : List PbPart} {w' : W}
      → list_parts_handler times repo f w ≡ (ok pbs, w')
      → (ps : List Part) × (repo.list (parts_filter_to_model f) w ≡ (ok ps, w'))
        × Converted times ps pbs
  unfolding list_parts_handler list_parts
  list_parts_ok f w h =
      let (ps, w₁, e, k) =
        >>=-eq-ok (on_err (list_parts repo (parts_filter_to_model f)) (λ e. failed (map_error e)))
          (λ parts. lift (convert_all times [] parts)) w h in
      let listed =
        on_err-eq-ok (repo.list (parts_filter_to_model f)) (wrap "inventory.service.ListParts") w (
          on_err-eq-ok (list_parts repo (parts_filter_to_model f)) (λ e. failed (map_error e)) w
            e) in
      let (later, eq, all) = convert_all-ok times [] ps (ap (λ r. r.0) k) in
      (ps, listed ∙ ap (λ v. (ok ps, v)) (ap (λ r. r.1) k), subst (Converted times ps) (sym eq) all)
