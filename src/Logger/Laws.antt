-- ===== src/Logger/Laws.antt =====
-- What the lines of the logger need and carry (platform/logger/logger.go).
use rocket_maintenance.Common.{◌≡◌, refl, String, Bool, false, some}
use rocket_maintenance.Logger.{Zap, Globals, parse_level, init, set_level}

module _ {Z W : Type 0} (zap : Zap Z W) (to_lower : String → String) where
  -- `Init` runs once: later ones change nothing, while `SetLevel` takes effect from then on.
  pub init-set_level :
      (level level' level'' : String) (as_json as_json' : Bool) (g : Globals Z)
      → g.init_once ≡ false
      → let g' =
          set_level zap to_lower level''
            (init zap to_lower level' as_json' (init zap to_lower level as_json g)) in
        (g'.global_logger ≡ some (zap.stdout as_json))
        × (g'.dynamic_level ≡ some (parse_level to_lower level''))
  unfolding init set_level
  init-set_level level level' level'' as_json as_json' g h = rw h (refl, refl)
