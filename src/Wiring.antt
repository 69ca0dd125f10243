-- ===== src/Wiring.antt =====
-- The containers that build the parts of a service (*/internal/app/di.go): each getter builds its part
-- at the first call, behind the parts that it needs, and some register a function at the closer. `P`
-- stands for the parts of a service, and `W` for everything outside. A call of a library that fails
-- makes the getter panic.
pub mod Laws
pub mod Order
pub mod Inventory
pub mod Payment
pub mod Assembly
pub mod Notification
mod Tests
use mathlib.Core.List
use rocket_maintenance.Common.{
  ℕ, ◌==◌, ◌||◌, String, Bool, true, false, List, [], ◌∷◌, Result, ok, err, Action, map_err, ◌>>=◌,
  ◌>>◌, if◌then◌else◌,
}

-- The parts that are not nil, and the names of the functions at the closer, both in the order in which
-- they came.
pub record Container (P W : Type 0) : Type 0 where
  pub built : List P
  pub registered : List String
  pub outside : W

abbrev pub empty : {P W : Type 0} → W → Container P W
empty w = record { built = []; registered = []; outside = w }

abbrev pub Getter : Type 0 → Type 0 → Type 0
Getter P W = Action (Container P W) String (Unit {0})

abbrev pub has : {P : Type 0} → (P → ℕ) → P → List P → Bool
has tag p [] = false
has tag p (q ∷ qs) = (tag q == tag p) || has tag p qs

module _ {P W : Type 0} where
  -- A constructor that only fills a struct.
  abbrev pub construct : Getter P W
  construct c = (ok tt, c)

  -- `closer.AddNamed`
  abbrev pub register : String → Getter P W
  register name c = (ok tt, record c { registered = List.◌++◌ c.registered (name ∷ []) })

  -- A call of a library, with the text of the panic by its error.
  abbrev pub call : (W → Result String (Unit {0}) × W) → (String → String) → Getter P W
  call f text c = let (r, w) = f c.outside in (map_err text r, record c { outside = w })

  -- A call of a library whose result gets a function at the closer at once.
  unfoldable pub opened :
      (W → Result String (Unit {0}) × W) → (String → String) → String → Getter P W
  opened f text name = call f text >> register name

  abbrev pub set : P → Getter P W
  set p c = (ok tt, record c { built = List.◌++◌ c.built (p ∷ []) })

  -- `if d.p == nil { ...; d.p = ... }`, with the numbers of the parts.
  unfoldable pub lazily : (P → ℕ) → P → Getter P W → Getter P W
  lazily tag p build c = elim (has tag p c.built) [ true ↦ (ok tt, c) | false ↦ (build >> set p) c ]
