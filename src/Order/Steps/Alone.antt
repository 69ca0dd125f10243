-- ===== src/Order/Steps/Alone.antt =====
-- Requests that run one after the other, each with all of its steps in a row, do what the operations
-- of the order service do (service/order/service.go).
use rocket_maintenance.Common.{
  ℕ, zero, suc, ◌≡◌, refl, ap, ◌∙◌, List, [], ◌∷◌, ◌++◌, map, Result, ◌≤◌, ◌-◌, arith,
}
use rocket_maintenance.Order.Model.{OrderError}
use rocket_maintenance.Order.Ports.{Service}
use rocket_maintenance.Order.Lifecycle.{Request, handle_all}
use rocket_maintenance.Order.Steps.{
  Answer, Task, lists, stores, reads_to_pay, charges, settles, announces, reads, reads_to_cancel,
  cancels, completes, ended, start, left, step, step_at, run,
}
use rocket_maintenance.Order.Steps.Finish.{serve, finish, finish-step, finish-start, serve-handle}

abbrev pub repeat : ℕ → List ℕ
repeat zero = []
repeat (suc n) = zero ∷ repeat n

-- The schedule in which each request makes all its calls before the next one begins.
unfoldable pub serial : List Request → List ℕ
serial [] = []
serial (req ∷ reqs) = repeat (left (start req)) ++ map suc (serial reqs)

module _ {W : Type 0} (svc : Service W) where
  -- Every call brings a request nearer to its end.
  pub step-left : (t : Task) (w : W) → left (step svc t w).0 ≤ left t - 1
  unfolding step
  step-left (lists p) w = ground arith
  step-left (stores p total) w = ground arith
  step-left (reads_to_pay p) w = ground arith
  step-left (charges p o) w = ground arith
  step-left (settles p o tx) w = ground arith
  step-left (announces p o tx) w = ground arith
  step-left (reads id) w = ground arith
  step-left (reads_to_cancel id) w = ground arith
  step-left (cancels o) w = ground arith
  step-left (completes id) w = ground arith
  step-left (ended r) w = ground arith

  run-append :
      (is js : List ℕ) (ts : List Task) (w : W)
      → run svc (is ++ js) ts w ≡ run svc js (run svc is ts w).0 (run svc is ts w).1
  unfolding run
  run-append [] js ts w = refl
  run-append (i ∷ is) js ts w = run-append is js _ _

  -- A schedule that never picks the first request leaves it where it is.
  run-later :
      (is : List ℕ) (t : Task) (ts : List Task) (w : W)
      → run svc (map suc is) (t ∷ ts) w ≡ (t ∷ (run svc is ts w).0, (run svc is ts w).1)
  unfolding run step_at
  run-later [] t ts w = refl
  run-later (i ∷ is) t ts w = run-later is t _ _

  pub left-ended : (t : Task) → left t ≤ 0 → (r : Result OrderError Answer) × (t ≡ ended r)
  left-ended (ended r) h = (r, refl)
  left-ended (lists p) h = absurd (ground arith)
  left-ended (stores p total) h = absurd (ground arith)
  left-ended (reads_to_pay p) h = absurd (ground arith)
  left-ended (charges p o) h = absurd (ground arith)
  left-ended (settles p o tx) h = absurd (ground arith)
  left-ended (announces p o tx) h = absurd (ground arith)
  left-ended (reads id) h = absurd (ground arith)
  left-ended (reads_to_cancel id) h = absurd (ground arith)
  left-ended (cancels o) h = absurd (ground arith)
  left-ended (completes id) h = absurd (ground arith)

  run-repeat :
      (n : ℕ) (t : Task) (ts : List Task) (w : W)
      → left t ≤ n
      → run svc (repeat n) (t ∷ ts) w ≡ (ended (finish svc t w).0 ∷ ts, (finish svc t w).1)
  unfolding run step_at finish
  run-repeat zero t ts w h = let (r, e) = left-ended t h in rw e refl
  run-repeat (suc n) t ts w h =
      run-repeat n (step svc t w).0 ts (step svc t w).1 (let s = step-left t w in omega arith)
      ∙ ap (λ (r : Result OrderError Answer × W). (ended r.0 ∷ ts, r.1)) (finish-step svc t w)

  -- The answers of requests that the service's operations serve one after the other.
  unfoldable pub answers : List Request → W → List (Result OrderError Answer)
  answers [] w = []
  answers (req ∷ reqs) w = (serve svc req w).0 ∷ answers reqs (serve svc req w).1

  -- Requests whose calls run without interleaving give the answers of the service's operations one
  -- after the other, and leave the state that these leave.
  pub run-serial :
      (reqs : List Request) (w : W)
      → run svc (serial reqs) (map start reqs) w
        ≡ (map ended (answers reqs w), handle_all svc reqs w)
  unfolding serial answers handle_all run
  run-serial [] w = refl
  run-serial (req ∷ reqs) w =
      let t = start req in
      let ts = map start reqs in
      let (r, w₁) = serve svc req w in
      run-append (repeat (left t)) (map suc (serial reqs)) (t ∷ ts) w
      ∙ ap (λ (s : List Task × W). run svc (map suc (serial reqs)) s.0 s.1)
          (run-repeat (left t) t ts w (omega arith))
      ∙ ap
          (λ (s : Result OrderError Answer × W).
            run svc (map suc (serial reqs)) (ended s.0 ∷ ts) s.1)
          (finish-start svc req w)
      ∙ run-later (serial reqs) (ended r) ts w₁
      ∙ ap (λ (s : List Task × W). (ended r ∷ s.0, s.1)) (run-serial reqs w₁)
      ∙ ap (λ w₂. (map ended (answers (req ∷ reqs) w), handle_all svc reqs w₂))
          (serve-handle svc req w)
