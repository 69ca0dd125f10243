-- ===== src/Order/Steps/Races.antt =====
-- What no interleaving of the requests of the order service breaks (service/order/service.go).
use rocket_maintenance.Common.{
  ℕ, zero, suc, ◌≡◌, ◌≢◌, inl, inr, refl, ◌∙◌, Option, none, some, List, [], ◌∷◌, arith, map, All,
  ◌==◌, ◌||◌, is_empty, Bool-cases,
}
use rocket_maintenance.Common.Uuids.{Uuid, nil}
use rocket_maintenance.Order.Model.{Order, pending_payment}
use rocket_maintenance.Order.Ports.{Service}
use rocket_maintenance.Order.Table.{OrderTable}
use rocket_maintenance.Order.Lifecycle.{SameGoods, Quiet, Request, creates, pays, gets}
use rocket_maintenance.Order.Lifecycle.Traces.{SameGoods-refl, SameGoods-trans, RowIsSound}
use rocket_maintenance.Order.Steps.{Task, start, step_at, run}
use rocket_maintenance.Order.Steps.Drift.{Drift, same, opened, wrote, Fits, Drift-Fits}
use rocket_maintenance.Order.Steps.Advance.{step-Drift}
use rocket_maintenance.Order.Steps.Reliance.{step-Fits}

-- What is left of a stored order at any later time.
pub record Later (o o' : Order) : Type 0 where
  pub goods : SameGoods o o'
  pub not_reopened : o.status ≢ pending_payment → o'.status ≢ pending_payment
  pub keeps_payment : o.transaction_id ≢ none → o'.transaction_id ≢ none

Later-refl : (o : Order) → Later o o
Later-refl o = record { goods = SameGoods-refl o; not_reopened = λ n. n; keeps_payment = λ n. n }

Later-trans : {a b c : Order} → Later a b → Later b c → Later a c
Later-trans x y = record {
  goods = SameGoods-trans x.goods y.goods;
  not_reopened = λ n. y.not_reopened (x.not_reopened n);
  keeps_payment = λ n. y.keeps_payment (x.keeps_payment n);
}

-- A row behind a stored order.
abbrev pub Follows : Order → Option Order → Type 0
Follows o b = (o' : Order) × (b ≡ some o') × Later o o'

Drift-Follows : (o : Order) (a b : Option Order) → a ≡ some o → Drift a b → Follows o b
Drift-Follows o a b h (same e) = (o, e ∙ h, Later-refl o)
Drift-Follows o a b h (opened p e f s x) = absurd (ground arith)
Drift-Follows o a b h (wrote p p' e f x) =
    let it : p ≡ o = ground arith in
    (
      p',
      f,
      rw (← it) (record {
        goods = x.goods;
        not_reopened = λ _. x.not_pending;
        keeps_payment = x.keeps_payment;
      }),
    )

Drift-RowIsSound : (a b : Option Order) → RowIsSound a → Drift a b → RowIsSound b
Drift-RowIsSound a b v (same e) = rw e v
Drift-RowIsSound a b v (opened o e f s x) =
    rw f (record { paid_has_payment = λ p. absurd (ground arith); pending_has_none = λ _. x })
Drift-RowIsSound a b v (wrote o o' e f x) =
    rw f (record {
      paid_has_payment = x.has_payment;
      pending_has_none = λ p. absurd (x.not_pending p);
    })

module _ {W : Type 0} (svc : Service W) (t : OrderTable svc.repo) (q : Quiet svc t) where
  step_at-Drift :
      (i : ℕ) (ts : List Task) (k : Uuid) (w : W)
      → All (Fits svc t w) ts
      → Drift (t.row w k) (t.row (step_at svc i ts w).1 k)
  unfolding step_at
  step_at-Drift i [] k w h = same refl
  step_at-Drift zero (task ∷ ts) k w h = step-Drift svc t q task k w h.0
  step_at-Drift (suc i) (task ∷ ts) k w h = step_at-Drift i ts k w h.1

  All-Fits :
      (ts : List Task) (w w' : W)
      → ((k : Uuid) → Drift (t.row w k) (t.row w' k))
      → All (Fits svc t w) ts
      → All (Fits svc t w') ts
  All-Fits [] w w' d h = tt
  All-Fits (task ∷ ts) w w' d (h, hs) = (Drift-Fits svc t task w w' d h, All-Fits ts w w' d hs)

  step_at-Fits :
      (i : ℕ) (ts : List Task) (w : W)
      → All (Fits svc t w) ts
      → All (Fits svc t (step_at svc i ts w).1) (step_at svc i ts w).0
  unfolding step_at
  step_at-Fits i [] w h = tt
  step_at-Fits zero (task ∷ ts) w (h, hs) =
      (step-Fits svc t q task w h, All-Fits ts w _ (λ k. step-Drift svc t q task k w h) hs)
  step_at-Fits (suc i) (task ∷ ts) w (h, hs) =
      (Drift-Fits svc t task w _ (λ k. step_at-Drift i ts k w hs) h, step_at-Fits i ts w hs)

  run-Follows :
      (is : List ℕ) (ts : List Task) (k : Uuid) (o : Order) (w : W)
      → All (Fits svc t w) ts
      → t.row w k ≡ some o
      → Follows o (t.row (run svc is ts w).1 k)
  unfolding run
  run-Follows [] ts k o w h e = (o, e, Later-refl o)
  run-Follows (i ∷ is) ts k o w h e =
      let (o₁, e₁, l₁) = Drift-Follows o _ _ e (step_at-Drift i ts k w h) in
      let (o₂, e₂, l₂) = run-Follows is _ k o₁ _ (step_at-Fits i ts w h) e₁ in
      (o₂, e₂, Later-trans l₁ l₂)

  run-RowIsSound :
      (is : List ℕ) (ts : List Task) (k : Uuid) (w : W)
      → All (Fits svc t w) ts
      → RowIsSound (t.row w k)
      → RowIsSound (t.row (run svc is ts w).1 k)
  unfolding run
  run-RowIsSound [] ts k w h v = v
  run-RowIsSound (i ∷ is) ts k w h v =
      run-RowIsSound is _ k _ (step_at-Fits i ts w h)
        (Drift-RowIsSound _ _ v (step_at-Drift i ts k w h))

  start-Fits : (req : Request) (w : W) → Fits svc t w (start req)
  start-Fits (creates p) w = elim (Bool-cases (p.user_id == nil || is_empty p.part_ids)) [
    | inl bad ↦ rw bad tt
    | inr good ↦ rw good tt
  ]
  start-Fits (pays p) w = tt
  start-Fits (gets id) w = tt
  start-Fits (Request.cancels id) w = tt
  start-Fits (Request.completes id) w = tt

  All-start : (reqs : List Request) (w : W) → All (Fits svc t w) (map start reqs)
  All-start [] w = tt
  All-start (req ∷ reqs) w = (start-Fits req w, All-start reqs w)

  -- If only the service's own writes touch the table, then over every interleaving of the calls of
  -- any requests an order that is stored stays stored with the same user, parts and price, never
  -- goes back to pending payment, and if it has a transaction on record it keeps having one, which
  -- may be another.
  pub interleaved-Follows :
      (is : List ℕ) (reqs : List Request) (k : Uuid) (o : Order) (w : W)
      → t.row w k ≡ some o
      → Follows o (t.row (run svc is (map start reqs) w).1 k)
  interleaved-Follows is reqs k o w e = run-Follows is _ k o w (All-start reqs w) e

  -- If only the service's own writes touch the table and a row is sound, it is sound after every
  -- interleaving of the calls of any requests: a paid order has its transaction and its method on
  -- record, and a pending one has no transaction.
  pub interleaved-RowIsSound :
      (is : List ℕ) (reqs : List Request) (k : Uuid) (w : W)
      → RowIsSound (t.row w k)
      → RowIsSound (t.row (run svc is (map start reqs) w).1 k)
  interleaved-RowIsSound is reqs k w v = run-RowIsSound is _ k w (All-start reqs w) v
