-- ===== src/App/Stop.antt =====
-- How `run` returns (internal/app/app.go of the inventory, payment and assembly services).
use rocket_maintenance.Common.{◌≡◌, refl, ap, Bool, true, Option, none, some, ℕ, arith}
use rocket_maintenance.App.Run.{
  gone, Waiter, waiting, stopping, returned, Running, launched, Acts, gives_up, hands_over,
  sees_context, sees_close, shuts_down, Happens, signal, serve_ends, serve_fails, call_begins,
  call_ends, Runs, here, acting, meanwhile,
}

-- What `run` returns, or will return behind its shutdown.
abbrev pub result : {E : Type 0} → Waiter E → Option (Option E)
result waiting = none
result (stopping r) = some r
result (returned r) = some r

module _ {E : Type 0} (grpc : Bool) (context_error : E) where
  -- What the result of a run says of the call that serves and of the context.
  pub data Outcome (s : Running E) : Option E → Type 0 where
    by_context : s.cancelled ≡ true → Outcome s (some context_error)
    by_error : (e : E) → s.worker ≡ gone (some e) → Outcome s (some e)
    by_end : grpc ≡ true → s.worker ≡ gone none → Outcome s none
    by_lost_error :
        (e : E) → grpc ≡ true → s.worker ≡ gone (some e) → s.cancelled ≡ true → Outcome s none

  -- A step from `s` to `s'` undoes neither the end of the context nor that of the goroutine.
  record Keeps (s s' : Running E) : Type 0 where
    cancelled : s.cancelled ≡ true → s'.cancelled ≡ true
    gone : (r : Option E) → s.worker ≡ gone r → s'.worker ≡ gone r

  Acts-Keeps : (s s' : Running E) → Acts grpc context_error s s' → Keeps s s'
  Acts-Keeps s _ (gives_up e w c) = record {
    cancelled = λ h. h;
    gone = λ r' h. absurd (ground arith);
  }
  Acts-Keeps s _ (hands_over e w m) = record {
    cancelled = λ h. h;
    gone = λ r' h. absurd (ground arith);
  }
  Acts-Keeps s _ (sees_context m c) = record { cancelled = λ h. h; gone = λ r h. h }
  Acts-Keeps s _ (sees_close r k w m) = record { cancelled = λ h. h; gone = λ r' h. h }
  Acts-Keeps s _ (shuts_down r m f) = record { cancelled = λ h. h; gone = λ r' h. h }

  Happens-Keeps : (s s' : Running E) → Happens grpc context_error s s' → Keeps s s'
  Happens-Keeps s _ (signal c) = record { cancelled = λ _. refl; gone = λ r h. h }
  Happens-Keeps s _ (serve_ends w) = record {
    cancelled = λ h. h;
    gone = λ r h. absurd (ground arith);
  }
  Happens-Keeps s _ (serve_fails e w) = record {
    cancelled = λ h. h;
    gone = λ r h. absurd (ground arith);
  }
  Happens-Keeps s _ (call_begins k w m) = record { cancelled = λ h. h; gone = λ r h. h }
  Happens-Keeps s _ (call_ends n o) = record { cancelled = λ h. h; gone = λ r h. h }

  Outcome-Keeps : (r : Option E) (s s' : Running E) → Keeps s s' → Outcome s r → Outcome s' r
  Outcome-Keeps _ s s' n (by_context c) = by_context (n.cancelled c)
  Outcome-Keeps _ s s' n (by_error e w) = by_error e (n.gone (some e) w)
  Outcome-Keeps _ s s' n (by_end k w) = by_end k (n.gone none w)
  Outcome-Keeps _ s s' n (by_lost_error e k w c) =
      by_lost_error e k (n.gone (some e) w) (n.cancelled c)

  -- An error that nobody took was given up for the context.
  record IsSound (s : Running E) : Type 0 where
    answered : (r : Option E) → result s.waiter ≡ some r → Outcome s r
    lost : (e : E) → s.worker ≡ gone (some e) → s.waiter ≡ waiting → s.cancelled ≡ true

  closed :
      (r : Option E) (s : Running E)
      → grpc ≡ true
      → IsSound s
      → s.worker ≡ gone r
      → s.waiter ≡ waiting
      → Outcome s none
  closed none s k v w m = by_end k w
  closed (some e) s k v w m = by_lost_error e k w (v.lost e w m)

  -- The result that stood before a step stands behind it.
  kept :
      (r : Option E) (s s' : Running E)
      → Keeps s s'
      → IsSound s
      → result s.waiter ≡ some r
      → Outcome s' r
  kept r s s' n v h = Outcome-Keeps r s s' n (v.answered r h)

  Acts-IsSound : (s s' : Running E) → Acts grpc context_error s s' → IsSound s → IsSound s'
  Acts-IsSound s _ (gives_up e w c) v = record {
    answered = λ r h. kept r s _ (Acts-Keeps s _ (gives_up e w c)) v h;
    lost = λ e' w' m. c;
  }
  Acts-IsSound s _ (hands_over e w m) v = record {
    answered = λ r h. let it : some e ≡ r = ground arith in rw (← it) (by_error e refl);
    lost = λ e' w' m'. absurd (ground arith);
  }
  Acts-IsSound s _ (sees_context m c) v = record {
    answered = λ r h. let it : some context_error ≡ r = ground arith in rw (← it) (by_context c);
    lost = λ e' w' m'. absurd (ground arith);
  }
  Acts-IsSound s _ (sees_close r k w m) v = record {
    answered = λ r' h.
        let it : none ≡ r' = ground arith in
        rw (← it)
          (Outcome-Keeps none s _ (Acts-Keeps s _ (sees_close r k w m)) (closed r s k v w m));
    lost = λ e' w' m'. absurd (ground arith);
  }
  Acts-IsSound s _ (shuts_down r m f) v = record {
    answered = λ r' h. kept r' s _ (Acts-Keeps s _ (shuts_down r m f)) v (rw m h);
    lost = λ e' w' m'. absurd (ground arith);
  }

  Happens-IsSound : (s s' : Running E) → Happens grpc context_error s s' → IsSound s → IsSound s'
  Happens-IsSound s _ (signal c) v = record {
    answered = λ r h. kept r s _ (Happens-Keeps s _ (signal c)) v h;
    lost = λ e w m. refl;
  }
  Happens-IsSound s _ (serve_ends w) v = record {
    answered = λ r h. kept r s _ (Happens-Keeps s _ (serve_ends w)) v h;
    lost = λ e w' m. absurd (ground arith);
  }
  Happens-IsSound s _ (serve_fails e w) v = record {
    answered = λ r h. kept r s _ (Happens-Keeps s _ (serve_fails e w)) v h;
    lost = λ e' w' m. absurd (ground arith);
  }
  Happens-IsSound s _ (call_begins k w m) v = record {
    answered = λ r h. kept r s _ (Happens-Keeps s _ (call_begins k w m)) v h;
    lost = v.lost;
  }
  Happens-IsSound s _ (call_ends n o) v = record {
    answered = λ r h. kept r s _ (Happens-Keeps s _ (call_ends n o)) v h;
    lost = v.lost;
  }

  Runs-IsSound :
      (s s' : Running E) (n : ℕ) → Runs grpc context_error s n s' → IsSound s → IsSound s'
  Runs-IsSound s _ _ here v = v
  Runs-IsSound s s' m (acting n s₁ rs step e) v = Acts-IsSound s₁ s' step (Runs-IsSound s s₁ n rs v)
  Runs-IsSound s s' n (meanwhile _ s₁ rs step) v =
      Happens-IsSound s₁ s' step (Runs-IsSound s s₁ n rs v)

  -- When a run of the inventory, the payment or the assembly service has returned, it returned the
  -- error of the context, which is done, or the error of its serving call, or nil, with the channel
  -- closed, either because the call ended well or because its error was given up when the context
  -- was done.
  pub Runs-Outcome :
      (s : Running E) (n : ℕ) (r : Option E)
      → Runs grpc context_error launched n s
      → s.waiter ≡ returned r
      → Outcome s r
  Runs-Outcome s n r rs h =
      (Runs-IsSound launched s n rs (record {
        answered = λ r' h'. absurd (ground arith);
        lost = λ e w m. absurd (ground arith);
      })).answered
        r (ap result h)
