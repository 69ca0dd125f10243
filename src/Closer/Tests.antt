-- ===== src/Closer/Tests.antt =====
-- Three functions to close: one is fine, one fails and one panics.
use rocket_maintenance.Common.{
  ◌≡◌, ◌↔◌, refl, false, [], ◌∷◌, none, some, Result, ok, err, Fault, failed, panicked, Error,
  new_error, map,
}
use mathlib.Core.List.Perm.{swap}
use rocket_maintenance.Closer.{Closer, started, report, closing_error, channel_closed, close_all}
use rocket_maintenance.Closer.Shutdown.{close_all-nil, failures}

data Part : Type 0 where
  server database consumer : Part

abbrev run : Part → Result (Fault (Error (Unit {0}))) (Unit {0})
run server = ok tt
run database = err (failed (new_error "connection busy"))
run consumer = err (panicked "nil map")

abbrev closer : Closer Part
closer = record { funcs = server ∷ (database ∷ (consumer ∷ [])); called = false }

abbrev busy : Error (Unit {0})
busy = new_error "connection busy"

abbrev recovered : Error (Unit {0})
recovered = new_error "panic recovered in closer"

-- The consumer is started first, yet the error of the database may arrive first.
reports : failures (map run (started closer.funcs)) ≡ recovered ∷ (busy ∷ [])
unfolding started report
reports = refl

close_all-nil_example :
    ((close_all closer (closing_error busy ∷ (closing_error recovered ∷ (channel_closed ∷ [])))).0
      ≡ some none)
    ↔ ((run server ≡ ok tt) × ((run database ≡ ok tt) × ((run consumer ≡ ok tt) × Unit {0})))
unfolding started report
close_all-nil_example =
    close_all-nil run closer (busy ∷ (recovered ∷ [])) refl refl (swap recovered busy [])
