-- ===== src/App/Progress.antt =====
-- That the goroutines of a run stop: they have few steps of their own, and what they can wait for.
use rocket_maintenance.Common.{
  ◌≡◌, ◌⊎◌, inl, inr, refl, Bool, true, false, Option, ℕ, zero, suc, ◌+◌, ◌≤◌, arith,
}
use rocket_maintenance.App.Run.{
  Worker, serving, sending, gone, Waiter, waiting, stopping, returned, Running, launched, Acts,
  gives_up, hands_over, sees_context, sees_close, shuts_down, Happens, signal, serve_ends,
  serve_fails, call_begins, call_ends, Runs, here, acting, meanwhile,
}

-- How many steps of its own each goroutine has left, at most.
abbrev worker_left : {E : Type 0} → Worker E → ℕ
worker_left (gone _) = 0
worker_left _ = 1

abbrev wait_left : {E : Type 0} → Waiter E → ℕ
wait_left waiting = 2
wait_left (stopping _) = 1
wait_left (returned _) = 0

abbrev steps_left : {E : Type 0} → Running E → ℕ
steps_left s = worker_left s.worker + wait_left s.waiter

module _ {E : Type 0} (grpc : Bool) (context_error : E) where
  Acts-steps_left :
      (s s' : Running E) → Acts grpc context_error s s' → suc (steps_left s') ≤ steps_left s
  Acts-steps_left s _ (gives_up e w c) = ground arith
  Acts-steps_left s _ (hands_over e w m) = ground arith
  Acts-steps_left s _ (sees_context m c) = ground arith
  Acts-steps_left s _ (sees_close r k w m) = ground arith
  Acts-steps_left s _ (shuts_down r m f) = ground arith

  Happens-steps_left :
      (s s' : Running E) → Happens grpc context_error s s' → steps_left s' ≤ steps_left s
  Happens-steps_left s _ (signal c) = ground arith
  Happens-steps_left s _ (serve_ends w) = ground arith
  Happens-steps_left s _ (serve_fails e w) = ground arith
  Happens-steps_left s _ (call_begins k w m) = ground arith
  Happens-steps_left s _ (call_ends n o) = ground arith

  Runs-bound :
      (s s' : Running E) (n : ℕ) → Runs grpc context_error s n s' → n + steps_left s' ≤ steps_left s
  Runs-bound s _ _ here = omega arith
  Runs-bound s s' m (acting n s₁ rs step e) =
      let before = Runs-bound s s₁ n rs in
      let last = Acts-steps_left s₁ s' step in omega (arith, before, last, e)
  Runs-bound s s' n (meanwhile _ s₁ rs step) =
      let before = Runs-bound s s₁ n rs in
      let last = Happens-steps_left s₁ s' step in omega (arith, before, last)

  -- What the main goroutine waits for, when it cannot act in a context that is done.
  pub data Settled (s : Running E) : Type 0 where
    has_returned : (r : Option E) → s.waiter ≡ returned r → Settled s
    awaits_calls :
        (r : Option E) (n : ℕ) → s.waiter ≡ stopping r → grpc ≡ true → s.calls ≡ suc n → Settled s

  stopping-Settled :
      (s : Running E) (r : Option E)
      → ((s' : Running E) → Acts grpc context_error s s' → ⊥)
      → s.waiter ≡ stopping r
      → (g : Bool) → grpc ≡ g
      → (o : ℕ) → s.calls ≡ o
      → Settled s
  stopping-Settled s r stuck m false g o e = absurd (stuck _ (shuts_down r m (inl g)))
  stopping-Settled s r stuck m true g zero e = absurd (stuck _ (shuts_down r m (inr e)))
  stopping-Settled s r stuck m true g (suc n) e = awaits_calls r n m g e

  waiter-Settled :
      (s : Running E)
      → s.cancelled ≡ true
      → ((s' : Running E) → Acts grpc context_error s s' → ⊥)
      → (m : Waiter E) → s.waiter ≡ m
      → Settled s
  waiter-Settled s c stuck waiting h = absurd (stuck _ (sees_context h c))
  waiter-Settled s c stuck (stopping r) h = stopping-Settled s r stuck h grpc refl s.calls refl
  waiter-Settled s c stuck (returned r) h = has_returned r h

  -- A goroutine that is not in its call and cannot act is gone.
  worker-gone :
      (s : Running E)
      → s.cancelled ≡ true
      → ((s' : Running E) → Acts grpc context_error s s' → ⊥)
      → (w : Worker E) → s.worker ≡ w
      → (s.worker ≡ serving) ⊎ ((r : Option E) × (s.worker ≡ gone r))
  worker-gone s c stuck serving h = inl h
  worker-gone s c stuck (sending e) h = absurd (stuck _ (gives_up e h c))
  worker-gone s c stuck (gone r) h = inr (r, h)

  -- In a run of the inventory, the payment or the assembly service, the two goroutines make at most
  -- three steps. When the context is done and neither can make one, the run has returned, or it is
  -- in `GracefulStop`, where a client's call is still open; and the other goroutine is in the call
  -- that serves, or it has ended: it is not blocked on the channel.
  pub Runs-stops :
      (s : Running E) (n : ℕ)
      → Runs grpc context_error launched n s
      → s.cancelled ≡ true
      → ((s' : Running E) → Acts grpc context_error s s' → ⊥)
      → (n ≤ 3) × Settled s × ((s.worker ≡ serving) ⊎ ((r : Option E) × (s.worker ≡ gone r)))
  Runs-stops s n rs c stuck =
      let bound = Runs-bound launched s n rs in
      (
        omega (arith, bound),
        waiter-Settled s c stuck s.waiter refl,
        worker-gone s c stuck s.worker refl,
      )
