-- ===== src/Common/Errors.antt =====
-- Go's `error` values: package-level sentinels, `errors.New`, the `%s: %w` and `%s: %w %v` of
-- `fmt.Errorf` and `errors.Join`, with `errors.Is` as a walk over the tree.
use Prim.Native.Nat.{ℕ}
use Prim.Native.String.{String, ◌++◌}
use mathlib.Core.Bool.{Bool, false, ◌||◌}
use rocket_maintenance.Common.Tests.{◌==◌}

pub data Error (S : Type 0) : Type 0 where
  sentinel : S → Error S
  new_error : String → Error S
  wrap : String → Error S → Error S
  wrap_with : String → Error S → String → Error S
  join : Error S → Error S → Error S

-- The package-level error variables of one package: told apart by a number, as pointers are told
-- apart by their addresses, and each with its text.
pub record Sentinels (S : Type 0) : Type 0 where
  pub tag : S → ℕ
  pub text : S → String

module _ {S : Type 0} ⦃s : Sentinels S⦄ where
  -- `errors.Is(err, target)` for a sentinel target.
  abbrev pub is : Error S → S → Bool
  is (sentinel e) t = s.tag e == s.tag t
  is (new_error _) t = false
  is (wrap _ e) t = is e t
  is (wrap_with _ e _) t = is e t
  is (join a b) t = is a t || is b t

  -- `err.Error()`: `%s: %w` puts the prefix before the wrapped text; `errors.Join` puts a line break
  -- between the texts.
  abbrev pub message : Error S → String
  message (sentinel e) = s.text e
  message (new_error m) = m
  message (wrap op e) = op ++ (": " ++ message e)
  message (wrap_with op e rest) = op ++ (": " ++ (message e ++ (" " ++ rest)))
  message (join a b) = message a ++ ("\n" ++ message b)
