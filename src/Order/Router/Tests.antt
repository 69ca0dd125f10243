-- ===== src/Order/Router/Tests.antt =====
-- Requests as they are routed.
use rocket_maintenance.Common.{◌≡◌, ◌↔◌, refl, Bool, true, false, [], ◌∷◌, ◌++◌, Option, some}
use rocket_maintenance.Common.Bytes.{Bytes}
use rocket_maintenance.Order.Router.{
  Method, Call, get, post, other_method, cancel_order, get_order_by_uuid, Routed, handled,
  not_allowed, not_found, cut, contains_percent, cut_prefix, orders, cancel, on_post, on_get,
  until_slash, serve_leaf, serve_action, serve_order, serve_orders, serve_rest, serve_elem, Request,
  path_of, serve_http,
}
use rocket_maintenance.Order.Router.Find.{
  find_get, find_order, find_orders, find_rest, find_elem, unescape, unescape_args, deferred,
  find_path,
}
use rocket_maintenance.Order.Router.Found.{Reads, find_path-pattern}
use rocket_maintenance.Order.Router.Patterns.{suffix, method_of, is_named}

abbrev as_sent : Bytes → Option Bytes
as_sent s = some s

abbrev seven : Bytes
seven = b'7' ∷ []

-- POST /api/v1/orders/7/cancel
abbrev cancels_seven : Request
cancels_seven = record {
  method = post;
  path = orders ++ (b'/' ∷ b'7' ∷ b'/' ∷ cancel);
  raw_path = [];
}

abbrev routed : Method → Bytes → Bytes → Routed
routed m path raw = serve_http as_sent [] (record { method = m; path = path; raw_path = raw })

-- Routes of a cancellation, of a wrong method, of a slash at the end, and of an id with an escape.
routes :
    (serve_http as_sent [] cancels_seven ≡ handled (cancel_order seven) false)
    × (routed get cancels_seven.path [] ≡ not_allowed post)
    × (routed other_method (orders ++ (b'/' ∷ seven)) [] ≡ not_allowed get)
    × (routed post (cancels_seven.path ++ (b'/' ∷ [])) [] ≡ not_found)
    × (routed post (orders ++ (b'x' ∷ [])) [] ≡ not_found)
    × (routed get (orders ++ (b'/' ∷ [])) [] ≡ handled (get_order_by_uuid []) false)
    × (routed get [] (orders ++ (b'/' ∷ b'%' ∷ b'2' ∷ b'F' ∷ []))
        ≡ handled (get_order_by_uuid (b'%' ∷ b'2' ∷ b'F' ∷ [])) true)
unfolding serve_http path_of contains_percent cut_prefix cut serve_elem serve_rest serve_orders
    serve_order serve_action serve_leaf on_post on_get until_slash
routes = (refl, refl, refl, refl, refl, refl, refl)

-- GET of an id that is sent escaped.
abbrev reads_escaped : Request
reads_escaped = record {
  method = get;
  path = [];
  raw_path = orders ++ (b'/' ∷ b'%' ∷ b'3' ∷ b'7' ∷ []);
}

abbrev to_seven : Bytes → Option Bytes
to_seven _ = some seven

find_path-pattern_example :
    (find_path as_sent to_seven [] reads_escaped ≡ some (get_order_by_uuid seven)) ↔ (
      (c : Call) × (e : Bool) × (serve_http as_sent [] reads_escaped ≡ handled c e)
      × (reads_escaped.method ≡ method_of c)
      × (path_of as_sent reads_escaped ≡ ([] ++ (orders ++ suffix c), e))
      × (is_named c ≡ true)
      × Reads to_seven reads_escaped.raw_path c (get_order_by_uuid seven))
find_path-pattern_example =
    find_path-pattern as_sent to_seven [] reads_escaped (get_order_by_uuid seven)

-- The argument comes back unescaped.
finds_escaped : find_path as_sent to_seven [] reads_escaped ≡ some (get_order_by_uuid seven)
unfolding find_path deferred unescape_args unescape find_elem find_rest find_orders find_order
    find_get path_of contains_percent cut_prefix cut until_slash
finds_escaped = refl
