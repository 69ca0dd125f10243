-- ===== src/Order/Router/Find.antt =====
-- shared/pkg/openapi/order/v1/oas_router_gen.go: FindPath, which names the operation of a request.
use rocket_maintenance.Common.{
  ◌≡◌, refl, Bool, [], ◌∷◌, Option, none, some, ◌==◌, if◌then◌else◌, Bool-cases, inl, inr, arith,
}
use rocket_maintenance.Common.Bytes.{Bytes}
use rocket_maintenance.Order.Router.{
  Method, get, post, Call, create_order, get_order_by_uuid, pay_order, cancel_order, Routed,
  handled, not_allowed, not_found, cut, until_slash, cut_prefix, orders, cancel, pay, on_post,
  on_get, serve_leaf, serve_action, serve_order, serve_orders, serve_rest, serve_elem, Request,
  path_of,
}

unfoldable pub find_post : Method → Call → Option Call
find_post post c = some c
find_post _ c = none

unfoldable pub find_get : Method → Call → Option Call
find_get get c = some c
find_get _ c = none

module _ (m : Method) where
  unfoldable pub find_leaf : Option Bytes → Call → Option Call
  unfolding find_post
  find_leaf (some []) c = find_post m c
  find_leaf (some (_ ∷ _)) c = none
  find_leaf none c = none

  unfoldable pub find_action : Bytes → Bytes → Option Call
  unfolding find_leaf cut
  find_action id [] = none
  find_action id (c ∷ s) =
      if c == b'c'
      then find_leaf (cut cancel (c ∷ s)) (cancel_order id)
      else if c == b'p'
      then find_leaf (cut pay (c ∷ s)) (pay_order id)
      else none

  unfoldable pub find_order : Bytes → Bytes → Option Call
  unfolding find_get find_action
  find_order id [] = find_get m (get_order_by_uuid id)
  find_order id (c ∷ s) = if c == b'/' then find_action id s else none

  unfoldable pub find_orders : Bytes → Option Call
  unfolding find_post find_order until_slash
  find_orders [] = find_post m create_order
  find_orders (c ∷ s) =
      let (id, rest) = until_slash s in if c == b'/' then find_order id rest else none

  unfoldable pub find_rest : Option Bytes → Option Call
  unfolding find_orders
  find_rest (some s) = find_orders s
  find_rest none = none

  unfoldable pub find_elem : Option Bytes → Option Call
  unfolding find_rest cut
  find_elem none = none
  find_elem (some []) = none
  find_elem (some (c ∷ s)) = find_rest (cut orders (c ∷ s))

-- The parameter `path_unescape` is net/url's.
module _ (path_unescape : Bytes → Option Bytes) where
  unfoldable pub unescape : Bytes → Bytes
  unescape arg = elim (path_unescape arg) [ some s ↦ s | none ↦ arg ]

  -- `r.args[:r.count]`, each argument unescaped.
  unfoldable pub unescape_args : Call → Call
  unfolding unescape
  unescape_args create_order = create_order
  unescape_args (get_order_by_uuid id) = get_order_by_uuid (unescape id)
  unescape_args (pay_order id) = pay_order (unescape id)
  unescape_args (cancel_order id) = cancel_order (unescape id)

  -- The deferred function, which is registered only if the path was sent escaped.
  unfoldable pub deferred : Bytes → Option Call → Option Call
  unfolding unescape_args
  deferred [] call = call
  deferred (_ ∷ _) none = none
  deferred (_ ∷ _) (some c) = some (unescape_args c)

module _ (normalize path_unescape : Bytes → Option Bytes) where
  unfoldable pub find_path : Bytes → Request → Option Call
  unfolding path_of cut_prefix find_elem deferred
  find_path prefix r =
      let (elem, _) = path_of normalize r in
      deferred path_unescape r.raw_path (find_elem r.method (cut_prefix prefix elem))

-- The call of a request that is given to a handler.
abbrev pub call_of : Routed → Option Call
call_of (handled c _) = some c
call_of (not_allowed _) = none
call_of not_found = none

module _ (m : Method) (escaped : Bool) where
  find_post-call_of : (c : Call) → find_post m c ≡ call_of (on_post escaped m c)
  unfolding find_post on_post
  find_post-call_of c = ground arith

  find_get-call_of : (c : Call) → find_get m c ≡ call_of (on_get escaped m c)
  unfolding find_get on_get
  find_get-call_of c = ground arith

  find_leaf-call_of :
      (o : Option Bytes) (c : Call) → find_leaf m o c ≡ call_of (serve_leaf m escaped o c)
  unfolding find_leaf serve_leaf
  find_leaf-call_of none c = refl
  find_leaf-call_of (some []) c = find_post-call_of c
  find_leaf-call_of (some (_ ∷ _)) c = refl

  find_action-call_of : (id s : Bytes) → find_action m id s ≡ call_of (serve_action m escaped id s)
  unfolding find_action serve_action
  find_action-call_of id [] = refl
  find_action-call_of id (c ∷ s) =
      let at_cancel = find_leaf-call_of (cut cancel (c ∷ s)) (cancel_order id) in
      let at_pay = find_leaf-call_of (cut pay (c ∷ s)) (pay_order id) in
      elim (Bool-cases (c == b'c')) [
        | inl it ↦ rw it at_cancel
        | inr other ↦ elim (Bool-cases (c == b'p')) [
          | inl it ↦ rw (other, it) at_pay
          | inr none_of ↦ rw (other, none_of) refl
        ]
      ]

  find_order-call_of : (id s : Bytes) → find_order m id s ≡ call_of (serve_order m escaped id s)
  unfolding find_order serve_order
  find_order-call_of id [] = find_get-call_of (get_order_by_uuid id)
  find_order-call_of id (c ∷ s) = elim (Bool-cases (c == b'/')) [
    | inl it ↦ rw it (find_action-call_of id s)
    | inr other ↦ rw other refl
  ]

  find_orders-call_of : (s : Bytes) → find_orders m s ≡ call_of (serve_orders m escaped s)
  unfolding find_orders serve_orders
  find_orders-call_of [] = find_post-call_of create_order
  find_orders-call_of (c ∷ s) = elim (Bool-cases (c == b'/')) [
    | inl it ↦ rw it (find_order-call_of (until_slash s).0 (until_slash s).1)
    | inr other ↦ rw other refl
  ]

  find_rest-call_of : (o : Option Bytes) → find_rest m o ≡ call_of (serve_rest m escaped o)
  unfolding find_rest serve_rest
  find_rest-call_of none = refl
  find_rest-call_of (some s) = find_orders-call_of s

  pub find_elem-call_of : (o : Option Bytes) → find_elem m o ≡ call_of (serve_elem m escaped o)
  unfolding find_elem serve_elem
  find_elem-call_of none = refl
  find_elem-call_of (some []) = refl
  find_elem-call_of (some (c ∷ s)) = find_rest-call_of (cut orders (c ∷ s))
