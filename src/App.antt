-- ===== src/App.antt =====
-- How a service starts (*/internal/app/app.go, */cmd). What the last steps of a start do (the tables,
-- the listener, the server, the sample data, the bot) and what runs then are parameters here.
pub mod Start
pub mod Run
pub mod Stop
pub mod Progress
pub mod Group
mod Tests
use rocket_maintenance.Common.{
  String, Bool, List, [], ◌∷◌, ◌++◌, Option, none, some, Result, ok, err, Action, Fault, failed,
  panicked, in_failure, map_err, ◌>>=◌, ◌>>◌,
}
use rocket_maintenance.Config.{Process, ConfigError}
use rocket_maintenance.Logger.{Zap, Globals, Context, Field, Level, error_level, log_global, init}

-- The state of the process: its environment and configuration, its logger, and everything outside.
pub record State (C Z X : Type 0) : Type 0 where
  pub process : Process C
  pub logging : Globals Z
  pub outside : X

abbrev pub nil_dereference : String
nil_dereference = "invalid memory address or nil pointer dereference"

abbrev pub Step : Type 0 → Type 0 → Type 0 → Type 0 → Type 0
Step C Z X E = Action (State C Z X) (Fault E) (Unit {0})

-- `initConfig`
unfoldable pub init_config :
    {C Z X E : Type 0}
    → (ConfigError → E)
    → Action (Process C) ConfigError (Unit {0})
    → Step C Z X E
init_config embed load s =
    let (r, p) = load s.process in (map_err (λ e. failed (embed e)) r, record s { process = p })

-- `initLogger`, with the two fields that it reads from `config.C()`
unfoldable pub init_logger :
    {C Z X E : Type 0} → Zap Z X → (String → String) → (C → String) → (C → Bool) → Step C Z X E
unfolding init
init_logger zap to_lower level as_json s = elim s.process.cfg [
  | none ↦ (err (panicked nil_dereference), s)
  | some c ↦ (ok tt, record s { logging = init zap to_lower (level c) (as_json c) s.logging })
]

module _ {C Z X E : Type 0} where
  -- The loop of `init`: it ends at the first error.
  unfoldable pub run_inits : List (Step C Z X E) → Step C Z X E
  run_inits [] s = (ok tt, s)
  run_inits (f ∷ fs) s = (f >> run_inits fs) s

-- `New`: `rest` are the steps behind the logger's. Setting the closer's logger and the container of the
-- parts changes nothing that is modelled.
unfoldable pub new :
    {C Z X E : Type 0}
    → Zap Z X
    → (String → String)
    → (ConfigError → E)
    → Action (Process C) ConfigError (Unit {0})
    → (C → String)
    → (C → Bool)
    → List (Step C Z X E)
    → Step C Z X E
unfolding init_config init_logger run_inits
new zap to_lower embed load level as_json rest =
    run_inits (init_config embed load ∷ init_logger zap to_lower level as_json ∷ rest)

-- `context.Background` carries no fields.
abbrev pub background : Context
background = record { trace_id = none; user_id = none }

module _ {C Z X E : Type 0} (zap : Zap Z X) (text : E → String) where
  -- `logger.Error` with the error as its field
  unfoldable pub log_error : String → E → Step C Z X E
  unfolding log_global
  log_error msg e s =
      let line : Field = record { key = "error"; value = text e } in
      let (r, x) = log_global zap error_level s.logging background msg (line ∷ []) s.outside in
      (r, record s { outside = x })

  abbrev pub or_log :
      String → Result (Fault E) (Unit {0}) × State C Z X → Result (Fault E) (Unit {0}) × State C Z X
  or_log msg (ok _, s) = (ok tt, s)
  or_log msg (err (failed e), s) = log_error msg e s
  or_log msg (err (panicked r), s) = (err (panicked r), s)

  abbrev pub run_app :
      Step C Z X E
      → String
      → Result (Fault E) (Unit {0}) × State C Z X
      → Result (Fault E) (Unit {0}) × State C Z X
  run_app run msg (ok _, s) = or_log msg (run s)
  run_app run msg (err e, s) = or_log "❌ Failed to create an application" (err e, s)

  -- `main`: `new` is `app.New`, `run` is `Run`, and `msg` says which service it was.
  unfoldable pub main : Step C Z X E → Step C Z X E → String → Step C Z X E
  unfolding log_error
  main new run msg s = run_app run msg (new s)
