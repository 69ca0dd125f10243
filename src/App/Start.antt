-- ===== src/App/Start.antt =====
-- How a failed start ends (*/internal/app/app.go, */cmd).
use rocket_maintenance.Common.{
  ◌≡◌, refl, ap, ◌∙◌, String, Bool, List, [], ◌∷◌, none, some, Result, ok, err, Action, Fault,
  failed, panicked, ◌>>◌, >>=-of-ok, map_err,
}
use rocket_maintenance.Config.{Process, ConfigError}
use rocket_maintenance.Logger.{
  Zap, error_level, log_global, log, init, threshold, fields_from_context,
}
use rocket_maintenance.App.{
  State, Step, nil_dereference, init_config, init_logger, run_inits, new, log_error, run_app, main,
}

module _ {C Z X E : Type 0} (zap : Zap Z X) (to_lower : String → String) (text : E → String)
    (embed : ConfigError → E) (load : Action (Process C) ConfigError (Unit {0}))
    (level : C → String) (as_json : C → Bool) where
  new-unconfigured :
      (rest : List (Step C Z X E)) (s : State C Z X) (e : ConfigError) (p : Process C)
      → load s.process ≡ (err e, p)
      → new zap to_lower embed load level as_json rest s
        ≡ (err (failed (embed e)), record s { process = p })
  unfolding new run_inits init_config
  new-unconfigured rest s e p h =
      ap
        (λ (r : Result ConfigError (Unit {0}) × Process C).
          ◌>>◌ {W = State C Z X} {E = Fault E}
            (λ s. (map_err (λ e. failed (embed e)) r.0, record s { process = r.1 }))
            (run_inits (init_logger zap to_lower level as_json ∷ rest)) s)
        h

  log_error-nil :
      (msg : String) (e : E) (s : State C Z X)
      → s.logging.global_logger ≡ none
      → log_error zap text msg e s ≡ (err (panicked nil_dereference), s)
  unfolding log_error log_global log
  log_error-nil msg e s g = rw g refl

  log_error-line :
      (msg : String) (e : E) (s : State C Z X) (z : Z)
      → s.logging.global_logger ≡ some z
      → log_error zap text msg e s ≡ (
        ok tt,
        record s {
          outside =
              zap.write
                (threshold s.logging)
                z
                error_level
                msg
                (record { key = "error"; value = text e } ∷ [])
                s.outside;
        },
      )
  unfolding log_error log_global log fields_from_context
  log_error-line msg e s z g = rw g refl

  -- When a process whose logger is not set cannot load its configuration, `main` panics on the nil
  -- logger: the error that it was to log is lost, and nothing else is done.
  pub main-unconfigured :
      (rest : List (Step C Z X E)) (run : Step C Z X E) (msg : String) (s : State C Z X)
      (e : ConfigError) (p : Process C)
      → s.logging.global_logger ≡ none
      → load s.process ≡ (err e, p)
      → main zap text (new zap to_lower embed load level as_json rest) run msg s
        ≡ (err (panicked nil_dereference), record s { process = p })
  unfolding main
  main-unconfigured rest run msg s e p g h =
      ap (run_app zap text run msg) (new-unconfigured rest s e p h)
      ∙ log_error-nil _ (embed e) (record s { process = p }) g

  new-configured :
      (rest : List (Step C Z X E)) (s : State C Z X) (p : Process C) (c : C)
      → load s.process ≡ (ok tt, p)
      → p.cfg ≡ some c
      → new zap to_lower embed load level as_json rest s
        ≡ run_inits rest
            (record s { process = p; logging = init zap to_lower (level c) (as_json c) s.logging })
  unfolding new run_inits init_config init_logger
  new-configured rest s p c h k =
      ap
        (λ (r : Result ConfigError (Unit {0}) × Process C).
          ◌>>◌ {W = State C Z X} {E = Fault E}
            (λ s. (map_err (λ e. failed (embed e)) r.0, record s { process = r.1 }))
            (run_inits (init_logger zap to_lower level as_json ∷ rest)) s)
        h
      ∙ >>=-of-ok (init_logger zap to_lower level as_json) (λ _. run_inits rest)
          (record s { process = p }) (simp k refl)

  pub main-configured :
      (rest : List (Step C Z X E)) (run : Step C Z X E) (msg : String) (s s' : State C Z X) (e : E)
      (p : Process C) (c : C) (z : Z)
      → load s.process ≡ (ok tt, p)
      → p.cfg ≡ some c
      → run_inits rest
          (record s { process = p; logging = init zap to_lower (level c) (as_json c) s.logging })
        ≡ (err (failed e), s')
      → s'.logging.global_logger ≡ some z
      → main zap text (new zap to_lower embed load level as_json rest) run msg s ≡ (
        ok tt,
        record s' {
          outside =
              zap.write
                (threshold s'.logging)
                z
                error_level
                "❌ Failed to create an application"
                (record { key = "error"; value = text e } ∷ [])
                s'.outside;
        },
      )
  unfolding main
  main-configured rest run msg s s' e p c z h k bad g =
      ap (run_app zap text run msg) (new-configured rest s p c h k ∙ bad)
      ∙ log_error-line _ e s' z g
