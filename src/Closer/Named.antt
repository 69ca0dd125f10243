-- ===== src/Closer/Named.antt =====
-- Functions registered with a name, and shutdowns by a signal (platform/closer/closer.go).
use rocket_maintenance.Common.{
  ◌≡◌, refl, String, false, List, none, some, Result, ok, err, Fault, failed, panicked, Error,
  Action,
}
use Prim.Native.String
use rocket_maintenance.Closer.{
  Closer, CloseEvent, signal_received, close_all, handle_signals, reported, named,
}

module _ {W S : Type 0} (info error : String → W → W) (text : Error S → String)
    (took : W → String) where
  reported-0 :
      (name : String) (r : Result (Fault (Error S)) (Unit {0}) × W)
      → (reported info error text took name r).0 ≡ r.0
  reported-0 name (ok _, w) = refl
  reported-0 name (err (failed e), w) = refl
  reported-0 name (err (panicked r), w) = refl

  -- A named function returns what the function behind the name returns once the first line is written.
  pub named-result :
      (name : String) (f : Action W (Fault (Error S)) (Unit {0})) (w : W)
      → (named info error text took name f w).0
        ≡ (f (info (String.◌++◌ "🧩 Закрываем " (String.◌++◌ name "...")) w)).0
  unfolding named
  named-result name f w = reported-0 name (f _)

-- Whichever comes first, a signal or a call of `CloseAll`, the other finds nothing to close.
pub close_all-handle_signals :
    {F S : Type 0} (c : Closer F) (before behind : List (CloseEvent S))
    → c.called ≡ false
    → ((close_all (handle_signals signal_received c before) behind).0 ≡ some none)
      × (handle_signals signal_received (close_all c before).1 behind ≡ (close_all c before).1)
unfolding close_all handle_signals
close_all-handle_signals c before behind n = rw n (refl, refl)
