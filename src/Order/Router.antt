-- ===== src/Order/Router.antt =====
-- shared/pkg/openapi/order/v1/oas_router_gen.go: which handler a request is given to.
pub mod Cuts
pub mod Patterns
pub mod Find
pub mod Found
mod Tests
use rocket_maintenance.Common.{
  ℕ, Bool, true, false, List, [], ◌∷◌, Option, none, some, ◌==◌, ◌||◌, if◌then◌else◌,
}
use rocket_maintenance.Common.Bytes.{Bytes}

pub data Method : Type 0 where
  get post other_method : Method

-- An operation with the text that stands for the order's id in the path.
pub data Call : Type 0 where
  create_order : Call
  get_order_by_uuid pay_order cancel_order : Bytes → Call

-- `elemIsEscaped` goes to the handler; a method that is not allowed is answered by the allowed one.
pub data Routed : Type 0 where
  handled : Call → Bool → Routed
  not_allowed : Method → Routed
  not_found : Routed

-- `if l := len(p); len(elem) >= l && elem[0:l] == p { elem = elem[l:] }`
unfoldable pub cut : Bytes → Bytes → Option Bytes
cut [] s = some s
cut (c ∷ p) [] = none
cut (c ∷ p) (d ∷ s) = let rest = cut p s in if c == d then rest else none

-- `elem[:idx]` and `elem[idx:]` for the first slash, or for the end.
unfoldable pub until_slash : Bytes → Bytes × Bytes
until_slash [] = ([], [])
until_slash (c ∷ s) = let (a, b) = until_slash s in if c == b'/' then ([], c ∷ s) else (c ∷ a, b)

unfoldable pub contains_percent : Bytes → Bool
contains_percent [] = false
contains_percent (c ∷ s) = c == b'%' || contains_percent s

unfoldable pub cut_prefix : Bytes → Bytes → Option Bytes
unfolding cut
cut_prefix [] path = some path
cut_prefix (c ∷ p) path = cut (c ∷ p) path

abbrev pub orders : Bytes
orders =
    b'/' ∷ b'a' ∷ b'p' ∷ b'i' ∷ b'/' ∷ b'v' ∷ b'1' ∷ b'/' ∷ b'o' ∷ b'r' ∷ b'd' ∷ b'e' ∷ b'r' ∷ b's'
    ∷ []

abbrev pub cancel : Bytes
cancel = b'c' ∷ b'a' ∷ b'n' ∷ b'c' ∷ b'e' ∷ b'l' ∷ []

abbrev pub pay : Bytes
pay = b'p' ∷ b'a' ∷ b'y' ∷ []

abbrev pub slash : Bytes
slash = b'/' ∷ []

module _ (escaped : Bool) where
  unfoldable pub on_post : Method → Call → Routed
  on_post post c = handled c escaped
  on_post _ c = not_allowed post

  unfoldable pub on_get : Method → Call → Routed
  on_get get c = handled c escaped
  on_get _ c = not_allowed get

module _ (m : Method) (escaped : Bool) where
  -- Behind the last word nothing may follow.
  unfoldable pub serve_leaf : Option Bytes → Call → Routed
  unfolding on_post
  serve_leaf (some []) c = on_post escaped m c
  serve_leaf (some (_ ∷ _)) c = not_found
  serve_leaf none c = not_found

  unfoldable pub serve_action : Bytes → Bytes → Routed
  unfolding serve_leaf cut
  serve_action id [] = not_found
  serve_action id (c ∷ s) =
      if c == b'c'
      then serve_leaf (cut cancel (c ∷ s)) (cancel_order id)
      else if c == b'p'
      then serve_leaf (cut pay (c ∷ s)) (pay_order id)
      else not_found

  unfoldable pub serve_order : Bytes → Bytes → Routed
  unfolding on_get serve_action
  serve_order id [] = on_get escaped m (get_order_by_uuid id)
  serve_order id (c ∷ s) = if c == b'/' then serve_action id s else not_found

  unfoldable pub serve_orders : Bytes → Routed
  unfolding on_post serve_order until_slash
  serve_orders [] = on_post escaped m create_order
  serve_orders (c ∷ s) =
      let (id, rest) = until_slash s in if c == b'/' then serve_order id rest else not_found

  unfoldable pub serve_rest : Option Bytes → Routed
  unfolding serve_orders
  serve_rest (some s) = serve_orders s
  serve_rest none = not_found

  unfoldable pub serve_elem : Option Bytes → Routed
  unfolding serve_rest cut
  serve_elem none = not_found
  serve_elem (some []) = not_found
  serve_elem (some (c ∷ s)) = serve_rest (cut orders (c ∷ s))

-- The decoded path of a request and, where it has one, the path as it was sent.
pub record Request : Type 0 where
  pub method : Method
  pub path : Bytes
  pub raw_path : Bytes

module _ (normalize_escaped_path : Bytes → Option Bytes) where
  -- `elem` and `elemIsEscaped`
  unfoldable pub path_of : Request → Bytes × Bool
  unfolding contains_percent
  path_of r = path_from r.raw_path
    where
      path_from : Bytes → Bytes × Bool
      path_from [] = (r.path, false)
      path_from (c ∷ s) = elim (normalize_escaped_path (c ∷ s)) [
        | some normalized ↦ (normalized, contains_percent normalized)
        | none ↦ (r.path, false)
      ]

  unfoldable pub serve_http : Bytes → Request → Routed
  unfolding path_of cut_prefix serve_elem
  serve_http prefix r =
      let (elem, escaped) = path_of r in serve_elem r.method escaped (cut_prefix prefix elem)
