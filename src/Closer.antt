-- ===== src/Closer.antt =====
-- platform/closer/closer.go: the functions that close the parts of an application. They run at the
-- same time, so that the order in which their errors arrive, and whether the context is done before
-- they all have ended, are an explicit sequence. Log lines and signals are left out.
pub mod Shutdown
pub mod Named
mod Tests
use Prim.Native.String.{◌++◌}
use mathlib.Core.List
use rocket_maintenance.Common.{
  String, Bool, true, false, List, [], ◌∷◌, Action, is_empty, Option, none, some, Result, ok, err,
  Fault, failed, panicked, Error, new_error, if◌then◌else◌,
}

-- The registered functions, and whether `once` has run. `F` stands for a function.
pub record Closer (F : Type 0) : Type 0 where
  pub funcs : List F
  pub called : Bool

module _ {F : Type 0} where
  unfoldable pub add : List F → Closer F → Closer F
  add f c = record c { funcs = List.◌++◌ c.funcs f }

  -- The functions in the order in which they are started.
  unfoldable pub started : List F → List F
  started [] = []
  started (f ∷ fs) = List.◌++◌ (started fs) (f ∷ [])

-- What the goroutine of a function puts on the channel of errors.
unfoldable pub report : {S : Type 0} → Result (Fault (Error S)) (Unit {0}) → List (Error S)
report (ok _) = []
report (err (failed e)) = e ∷ []
report (err (panicked _)) = new_error "panic recovered in closer" ∷ []

-- What the `select` of the collecting loop takes next.
pub data CloseEvent (S : Type 0) : Type 0 where
  closing_error context_done : Error S → CloseEvent S
  channel_closed : CloseEvent S

abbrev pub or_first : {A : Type 0} → Option A → A → A
or_first none e = e
or_first (some r) e = r

-- The collecting loop, with `result` so far: `none` while it waits, `some` of what is returned.
unfoldable pub collect :
    {S : Type 0} → Option (Error S) → List (CloseEvent S) → Option (Option (Error S))
collect result [] = none
collect result (context_done e ∷ _) = some (some (or_first result e))
collect result (channel_closed ∷ _) = some result
collect result (closing_error e ∷ events) = collect (some (or_first result e)) events

unfoldable pub close_all :
    {F S : Type 0} → Closer F → List (CloseEvent S) → Option (Option (Error S)) × Closer F
unfolding collect
close_all c events = if c.called then (some none, c) else (
  if is_empty c.funcs then some none else collect none events,
  record { funcs = []; called = true },
)

-- What the `select` of `handleSignals` takes: a signal, or the end of a `CloseAll`.
pub data Wake : Type 0 where
  signal_received closer_done : Wake

-- `handleSignals`, which only logs what `CloseAll` returns.
unfoldable pub handle_signals : {F S : Type 0} → Wake → Closer F → List (CloseEvent S) → Closer F
unfolding close_all
handle_signals signal_received c events = (close_all c events).1
handle_signals closer_done c events = c

-- The function that `AddNamed` registers for `f`: `info` and `error` are the lines of the logger, and
-- `took` is the print of the time since the start.
module _ {W S : Type 0} (info error : String → W → W) (text : Error S → String)
    (took : W → String) where
  abbrev pub reported :
      String → Result (Fault (Error S)) (Unit {0}) × W → Result (Fault (Error S)) (Unit {0}) × W
  reported name (ok _, w) = (ok tt, info ("✅ " ++ (name ++ (" успешно закрыт за " ++ took w))) w)
  reported name (err (failed e), w) = (
    err (failed e),
    error
        ("❌ Ошибка при закрытии "
          ++ (name ++ (": " ++ (text e ++ (" (заняло " ++ (took w ++ ")"))))))
        w,
  )
  reported name (err (panicked r), w) = (err (panicked r), w)

  unfoldable pub named :
      String → Action W (Fault (Error S)) (Unit {0}) → Action W (Fault (Error S)) (Unit {0})
  named name f w = reported name (f (info ("🧩 Закрываем " ++ (name ++ "...")) w))

  unfoldable pub add_named :
      String
      → Action W (Fault (Error S)) (Unit {0})
      → Closer (Action W (Fault (Error S)) (Unit {0}))
      → Closer (Action W (Fault (Error S)) (Unit {0}))
  unfolding add named
  add_named name f = add (named name f ∷ [])
