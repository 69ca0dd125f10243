-- ===== src/Order/Steps/Schedules.antt =====
-- Every schedule of the order service's requests that picks a request often enough ends it, whatever
-- the others do and whatever the calls return (service/order/service.go has no loop over its calls).
use rocket_maintenance.Common.{
  ℕ, zero, suc, ◌+◌, ◌≡◌, ◌≢◌, refl, ap, ◌∙◌, List, [], ◌∷◌, Option, none, some, Result, ◌≤◌, ◌==◌,
  ==→eq, ==→ne, Bool-cases, inl, inr, if◌then◌else◌, arith,
}
use rocket_maintenance.Order.Model.{OrderError}
use rocket_maintenance.Order.Ports.{Service}
use rocket_maintenance.Order.Steps.{Answer, Task, ended, left, step, step_at, run}
use rocket_maintenance.Order.Steps.Alone.{step-left, left-ended}

abbrev pub get_elem? {ℓ} : {A : Type ℓ} → List A → ℕ → Option A
get_elem? [] i = none
get_elem? (x ∷ xs) zero = some x
get_elem? (x ∷ xs) (suc i) = get_elem? xs i

-- How often a schedule picks a request.
abbrev pub picks : ℕ → List ℕ → ℕ
picks i [] = 0
picks i (j ∷ js) = (if j == i then 1 else 0) + picks i js

module _ {W : Type 0} (svc : Service W) where
  picked :
      (i : ℕ) (ts : List Task) (t : Task) (w : W)
      → get_elem? ts i ≡ some t
      → get_elem? (step_at svc i ts w).0 i ≡ some (step svc t w).0
  unfolding step_at
  picked i [] t w h = absurd (ground arith)
  picked zero (s ∷ ts) t w h = ground arith
  picked (suc i) (s ∷ ts) t w h = picked i ts t w h

  not_picked :
      (i j : ℕ) (ts : List Task) (w : W)
      → j ≢ i
      → get_elem? (step_at svc j ts w).0 i ≡ get_elem? ts i
  unfolding step_at
  not_picked i j [] w n = refl
  not_picked zero zero (s ∷ ts) w n = absurd (n refl)
  not_picked zero (suc j) (s ∷ ts) w n = refl
  not_picked (suc i) zero (s ∷ ts) w n = refl
  not_picked (suc i) (suc j) (s ∷ ts) w n = not_picked i j ts w (λ e. n (ap suc e))

  -- In every schedule that picks a request at least as often as it has calls left, the request ends
  -- with an answer, whatever the others do and the calls return.
  pub run-ends :
      (is : List ℕ) (i : ℕ) (ts : List Task) (t : Task) (w : W)
      → get_elem? ts i ≡ some t
      → left t ≤ picks i is
      → (r : Result OrderError Answer) × (get_elem? (run svc is ts w).0 i ≡ some (ended r))
  unfolding run
  run-ends [] i ts t w h n = let (r, e) = left-ended svc t n in (r, ground arith)
  run-ends (j ∷ is) i ts t w h n = elim (Bool-cases (j == i)) [
    | inl own ↦
        let at_i = ==→eq j i own in
        run-ends is i _ (step svc t w).0 _ (rw at_i (picked i ts t w h))
          (let s = step-left svc t w in ground arith)
    | inr other ↦ run-ends is i _ t _ (not_picked i j ts w (==→ne j i other) ∙ h) (ground arith)
  ]
