-- ===== src/App/Tests.antt =====
-- A service that cannot read its configuration, one whose listener fails, and runs of the rest.
use rocket_maintenance.Common.{
  ℕ, ◌≡◌, ◌≤◌, ◌⊎◌, inr, refl, String, Bool, true, false, List, [], ◌∷◌, Option, none, some, ok,
  err, failed, panicked, new_error, arith,
}
use rocket_maintenance.Config.{Process, ConfigError}
use rocket_maintenance.Logger.{Zap, Globals, fresh, init}
use rocket_maintenance.App.{State, Step, nil_dereference, new, main}
use rocket_maintenance.App.Start.{main-unconfigured}
use rocket_maintenance.App.Run.{
  serving, sending, gone, waiting, stopping, returned, Running, launched, Acts, signal, serve_fails,
  call_begins, call_ends, gives_up, sees_context, shuts_down, Runs, here, acting, meanwhile,
}
use rocket_maintenance.App.Stop.{Outcome, Runs-Outcome}
use rocket_maintenance.App.Progress.{Settled, Runs-stops}

-- Lines are collected; a logger is whether its lines are written.
abbrev zap : Zap Bool (List String)
zap = record {
  stdout = λ _. true;
  nop = false;
  with = λ _ z. z;
  write = λ _ _ _ msg _ w. msg ∷ w;
  sync = λ _ w. (ok tt, w);
}

abbrev lower : String → String
lower s = s

abbrev text : String → String
text s = s

abbrev embed : ConfigError → String
embed _ = "config"

abbrev missing : ConfigError
missing = new_error "required environment variable is not set"

abbrev started : State (Unit {0}) Bool (List String)
started = record { process = record { env = λ _. none; cfg = none }; logging = fresh; outside = [] }

main-unconfigured_example :
    main zap text
      (new zap lower embed (λ p. (err missing, p)) (λ _. "info") (λ _. true) [])
      (λ s. (ok tt, s))
      "❌ Order server error"
      started
    ≡ (err (panicked nil_dereference), started)
main-unconfigured_example =
    main-unconfigured zap lower text embed (λ p. (err missing, p)) (λ _. "info") (λ _. true) []
      (λ s. (ok tt, s)) "❌ Order server error" started missing started.process refl refl

abbrev loaded : Process (Unit {0})
loaded = record { env = λ _. none; cfg = some tt }

abbrev logging : Globals Bool
logging = init zap lower "info" true fresh

abbrev port_taken : Step (Unit {0}) Bool (List String) String
port_taken s = (err (failed "address already in use"), s)

abbrev listening : State (Unit {0}) Bool (List String)
listening = record { process = loaded; logging = logging; outside = [] }

-- A client's call is open when a signal arrives, and then the listener fails: nobody takes its error,
-- and the shutdown waits for the call.
abbrev calling : Running String
calling = record { cancelled = false; worker = serving; waiter = waiting; calls = 1 }

abbrev signalled : Running String
signalled = record { cancelled = true; worker = serving; waiter = waiting; calls = 1 }

abbrev failing : Running String
failing = record { cancelled = true; worker = sending "broken"; waiter = waiting; calls = 1 }

abbrev answered : Running String
answered = record {
  cancelled = true;
  worker = sending "broken";
  waiter = stopping (some "context canceled");
  calls = 1;
}

abbrev draining : Running String
draining = record {
  cancelled = true;
  worker = gone (some "broken");
  waiter = stopping (some "context canceled");
  calls = 1;
}

abbrev over : Running String
over = record {
  cancelled = true;
  worker = gone (some "broken");
  waiter = returned (some "context canceled");
  calls = 0;
}

abbrev Steps : ℕ → Running String → Type 0
Steps n s = Runs true "context canceled" launched n s

run_to_failing : Steps 0 failing
run_to_failing =
    meanwhile 0 signalled
      (meanwhile 0 calling (meanwhile 0 launched here (call_begins refl refl refl)) (signal refl))
      (serve_fails "broken" refl)

run_to_draining : Steps 2 draining
run_to_draining =
    acting 1 answered (acting 0 failing run_to_failing (sees_context refl refl) refl)
      (gives_up "broken" refl refl) refl

whole_run : Steps 3 over
whole_run =
    acting 2 (record draining { calls = 0 })
      (meanwhile 2 draining run_to_draining (call_ends 0 refl))
      (shuts_down (some "context canceled") refl (inr refl)) refl

Runs-Outcome_example : Outcome true "context canceled" over (some "context canceled")
Runs-Outcome_example =
    Runs-Outcome true "context canceled" over 3 (some "context canceled") whole_run refl

stuck : (s : Running String) → Acts true "context canceled" draining s → ⊥
stuck _ (Acts.gives_up e w c) = absurd (ground arith)
stuck _ (Acts.hands_over e w m) = absurd (ground arith)
stuck _ (Acts.sees_context m c) = absurd (ground arith)
stuck _ (Acts.sees_close r k w m) = absurd (ground arith)
stuck _ (Acts.shuts_down r m f) = absurd (ground arith)

Runs-stops_example :
    (2 ≤ 3)
    × Settled true "context canceled" draining
    × ((draining.worker ≡ serving) ⊎ ((r : Option String) × (draining.worker ≡ gone r)))
Runs-stops_example = Runs-stops true "context canceled" draining 2 run_to_draining refl stuck
