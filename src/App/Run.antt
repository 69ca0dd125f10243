-- ===== src/App/Run.antt =====
-- `run` of the inventory, payment and assembly services (internal/app/app.go): a goroutine makes the one
-- call that serves, and the main one waits for its error or for the context, and shuts down before it
-- returns. google.golang.org/grpc is a parameter: of it, the calls that it is handling are counted.
use rocket_maintenance.Common.{◌≡◌, ◌⊎◌, Bool, true, false, Option, none, some, ℕ, suc, ◌+◌}

-- The goroutine: in its call, blocked on the channel with the call's error, or gone, with what the
-- call returned (nil, or an error that does not count, is none).
pub data Worker (E : Type 0) : Type 0 where
  serving : Worker E
  sending : E → Worker E
  gone : Option E → Worker E

-- The main goroutine: in its `select`, in the deferred `gracefulShutdown`, or returned.
pub data Waiter (E : Type 0) : Type 0 where
  waiting : Waiter E
  stopping returned : Option E → Waiter E

pub record Running (E : Type 0) : Type 0 where
  pub cancelled : Bool
  pub worker : Worker E
  pub waiter : Waiter E
  pub calls : ℕ

abbrev pub launched : {E : Type 0} → Running E
launched = record { cancelled = false; worker = serving; waiter = waiting; calls = 0 }

-- `grpc` says whether the service is a server of gRPC, as the inventory and the payment services are.
-- Then the goroutine closes the channel when it ends, and the shutdown is `GracefulStop`, which blocks
-- until all pending calls are finished. The assembly service does not close the channel, and its
-- shutdown is `CloseAll` with a timeout, which returns. `context_error` is what `ctx.Err` returns.
module _ {E : Type 0} (grpc : Bool) (context_error : E) where
  -- The steps of the two goroutines.
  pub data Acts (s : Running E) : Running E → Type 0 where
    gives_up :
        (e : E)
        → s.worker ≡ sending e
        → s.cancelled ≡ true
        → Acts s (record s { worker = gone (some e) })
    hands_over :
        (e : E)
        → s.worker ≡ sending e
        → s.waiter ≡ waiting
        → Acts s (record s { worker = gone (some e); waiter = stopping (some e) })
    sees_context :
        s.waiter ≡ waiting
        → s.cancelled ≡ true
        → Acts s (record s { waiter = stopping (some context_error) })
    sees_close :
        (r : Option E)
        → grpc ≡ true
        → s.worker ≡ gone r
        → s.waiter ≡ waiting
        → Acts s (record s { waiter = stopping none })
    shuts_down :
        (r : Option E)
        → s.waiter ≡ stopping r
        → (grpc ≡ false) ⊎ (s.calls ≡ 0)
        → Acts s (record s { waiter = returned r })

  -- What happens around them: the end of the context, of the call that serves, and the calls of
  -- clients, of which none begins behind the beginning of the shutdown.
  pub data Happens (s : Running E) : Running E → Type 0 where
    signal : s.cancelled ≡ false → Happens s (record s { cancelled = true })
    serve_ends : s.worker ≡ serving → Happens s (record s { worker = gone none })
    serve_fails : (e : E) → s.worker ≡ serving → Happens s (record s { worker = sending e })
    call_begins :
        grpc ≡ true
        → s.worker ≡ serving
        → s.waiter ≡ waiting
        → Happens s (record s { calls = suc s.calls })
    call_ends : (n : ℕ) → s.calls ≡ suc n → Happens s (record s { calls = n })

  -- `s` comes to `s'`, with `n` steps of the two goroutines.
  pub data Runs (s : Running E) : ℕ → Running E → Type 0 where
    here : Runs s 0 s
    acting :
        (n : ℕ) (s' : Running E) {m : ℕ} {s'' : Running E}
        → Runs s n s'
        → Acts s' s''
        → m ≡ n + 1
        → Runs s m s''
    meanwhile :
        (n : ℕ) (s' : Running E) {s'' : Running E} → Runs s n s' → Happens s' s'' → Runs s n s''
