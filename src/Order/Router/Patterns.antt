-- ===== src/Order/Router/Patterns.antt =====
-- The paths and methods of the API description, which are those that reach a handler.
use mathlib.Core.List.{append-nil}
use rocket_maintenance.Common.{
  ◌≡◌, refl, ap, sym, ◌∙◌, ◌↔◌, Bool, true, [], ◌∷◌, ◌++◌, Option, none, some, ◌==◌, inl, inr,
  Bool-cases, ==→eq, arith,
}
use rocket_maintenance.Common.Bytes.{Bytes}
use rocket_maintenance.Order.Router.Cuts.{
  no_slash, cut-eq-some, cut-append, until_slash-append, until_slash-all, until_slash-parts,
  cut_prefix-cut,
}
use rocket_maintenance.Order.Router.{
  Method, get, post, Call, create_order, get_order_by_uuid, pay_order, cancel_order, handled,
  not_found, cut, until_slash, cut_prefix, orders, cancel, pay, on_post, on_get, serve_leaf,
  serve_action, serve_order, serve_orders, serve_rest, serve_elem, Request, path_of, serve_http,
}

-- What follows `/api/v1/orders` in the path of an operation.
abbrev pub suffix : Call → Bytes
suffix create_order = []
suffix (get_order_by_uuid id) = b'/' ∷ id
suffix (pay_order id) = b'/' ∷ (id ++ (b'/' ∷ pay))
suffix (cancel_order id) = b'/' ∷ (id ++ (b'/' ∷ cancel))

abbrev pub method_of : Call → Method
method_of (get_order_by_uuid _) = get
method_of _ = post

-- The text for the id has no slash.
abbrev pub is_named : Call → Bool
is_named create_order = true
is_named (get_order_by_uuid id) = no_slash id
is_named (pay_order id) = no_slash id
is_named (cancel_order id) = no_slash id

module _ (m : Method) (escaped : Bool) where
  -- A request with the method and the path of an operation reaches its handler.
  serve_orders-suffix :
      (c : Call)
      → m ≡ method_of c
      → is_named c ≡ true
      → serve_orders m escaped (suffix c) ≡ handled c escaped
  unfolding serve_orders serve_order serve_action serve_leaf on_post on_get cut
  serve_orders-suffix create_order h named = rw h refl
  serve_orders-suffix (get_order_by_uuid id) h named = rw (until_slash-all id named, h) refl
  serve_orders-suffix (pay_order id) h named = rw (until_slash-append id pay named, h) refl
  serve_orders-suffix (cancel_order id) h named = rw (until_slash-append id cancel named, h) refl

  -- A call is the one that the method and the rest of the path name.
  abbrev Fits : Bytes → Call → Type 0
  Fits s c = (m ≡ method_of c) × (s ≡ suffix c) × (is_named c ≡ true)

  move-Fits : {s t : Bytes} {c c' : Call} → t ≡ s → c ≡ c' → Fits s c → Fits t c'
  move-Fits p q fits = rw (p, sym q) fits

  on_post-eq-handled :
      (c c' : Call) (e : Bool)
      → on_post escaped m c ≡ handled c' e
      → (m ≡ post) × (c ≡ c') × (escaped ≡ e)
  unfolding on_post
  on_post-eq-handled c c' e h = ground arith

  on_get-eq-handled :
      (c c' : Call) (e : Bool)
      → on_get escaped m c ≡ handled c' e
      → (m ≡ get) × (c ≡ c') × (escaped ≡ e)
  unfolding on_get
  on_get-eq-handled c c' e h = ground arith

  serve_leaf-eq-handled :
      (o : Option Bytes) (c c' : Call) (e : Bool)
      → serve_leaf m escaped o c ≡ handled c' e
      → (o ≡ some []) × (m ≡ post) × (c ≡ c') × (escaped ≡ e)
  unfolding serve_leaf
  serve_leaf-eq-handled none c c' e h = ground arith
  serve_leaf-eq-handled (some []) c c' e h =
      let (a, b, d) = on_post-eq-handled c c' e h in (refl, a, b, d)
  serve_leaf-eq-handled (some (_ ∷ _)) c c' e h = ground arith

  -- The last word of a path, behind the id and a slash.
  leaf-Fits :
      (word s : Bytes) (c c' : Call) (e : Bool)
      → serve_leaf m escaped (cut word s) c ≡ handled c' e
      → (s ≡ word) × (m ≡ post) × (c ≡ c') × (escaped ≡ e)
  leaf-Fits word s c c' e h =
      let (cut_all, a, b, d) = serve_leaf-eq-handled (cut word s) c c' e h in
      (cut-eq-some word s cut_all ∙ append-nil word, a, b, d)

  serve_action-Fits :
      (id s : Bytes) (c : Call) (e : Bool)
      → no_slash id ≡ true
      → serve_action m escaped id s ≡ handled c e
      → Fits (b'/' ∷ (id ++ (b'/' ∷ s))) c × (escaped ≡ e)
  unfolding serve_action
  serve_action-Fits id [] c e named h = ground arith
  serve_action-Fits id (x ∷ s) c e named h = elim (Bool-cases (x == b'c')) [
    | inl it ↦
        let k : serve_leaf m escaped (cut cancel (x ∷ s)) (cancel_order id) ≡ handled c e =
          rw it at h in
        let (word, a, b, d) = leaf-Fits cancel (x ∷ s) (cancel_order id) c e k in
        (move-Fits (ap (λ k. b'/' ∷ (id ++ (b'/' ∷ k))) word) b (a, refl, named), d)
    | inr other ↦ elim (Bool-cases (x == b'p')) [
      | inl it ↦
          let k : serve_leaf m escaped (cut pay (x ∷ s)) (pay_order id) ≡ handled c e =
            rw (other, it) at h in
          let (word, a, b, d) = leaf-Fits pay (x ∷ s) (pay_order id) c e k in
          (move-Fits (ap (λ k. b'/' ∷ (id ++ (b'/' ∷ k))) word) b (a, refl, named), d)
      | inr none_of ↦ let k : not_found ≡ handled c e = rw (other, none_of) at h in ground arith
    ]
  ]

  serve_order-Fits :
      (id s : Bytes) (c : Call) (e : Bool)
      → no_slash id ≡ true
      → serve_order m escaped id s ≡ handled c e
      → Fits (b'/' ∷ (id ++ s)) c × (escaped ≡ e)
  unfolding serve_order
  serve_order-Fits id [] c e named h =
      let (a, b, d) = on_get-eq-handled (get_order_by_uuid id) c e h in
      (move-Fits (ap (λ k. b'/' ∷ k) (append-nil id)) b (a, refl, named), d)
  serve_order-Fits id (x ∷ s) c e named h = elim (Bool-cases (x == b'/')) [
    | inl it ↦
        let k : serve_action m escaped id s ≡ handled c e = rw it at h in
        let (fits, d) = serve_action-Fits id s c e named k in
        (move-Fits (ap (λ y. b'/' ∷ (id ++ (y ∷ s))) (==→eq x b'/' it)) refl fits, d)
    | inr other ↦ let k : not_found ≡ handled c e = rw other at h in ground arith
  ]

  serve_orders-Fits :
      (s : Bytes) (c : Call) (e : Bool)
      → serve_orders m escaped s ≡ handled c e
      → Fits s c × (escaped ≡ e)
  unfolding serve_orders
  serve_orders-Fits [] c e h =
      let (a, b, d) = on_post-eq-handled create_order c e h in (move-Fits refl b (a, refl, refl), d)
  serve_orders-Fits (x ∷ s) c e h =
      let (whole, free) = until_slash-parts s in
      elim (Bool-cases (x == b'/')) [
        | inl it ↦
            let k : serve_order m escaped (until_slash s).0 (until_slash s).1 ≡ handled c e =
              rw it at h in
            let (fits, d) = serve_order-Fits (until_slash s).0 (until_slash s).1 c e free k in
            let eq = ==→eq x b'/' it in (move-Fits (rw (eq, whole) refl) refl fits, d)
        | inr other ↦ let k : not_found ≡ handled c e = rw other at h in ground arith
      ]

  serve_elem-pattern :
      (c : Call)
      → m ≡ method_of c
      → is_named c ≡ true
      → serve_elem m escaped (some (orders ++ suffix c)) ≡ handled c escaped
  unfolding serve_elem serve_rest cut
  serve_elem-pattern = serve_orders-suffix

  serve_rest-Fits :
      (o : Option Bytes) (c : Call) (e : Bool)
      → serve_rest m escaped o ≡ handled c e
      → (t : Bytes) × (o ≡ some t) × Fits t c × (escaped ≡ e)
  unfolding serve_rest
  serve_rest-Fits none c e h = ground arith
  serve_rest-Fits (some t) c e h = let (fits, d) = serve_orders-Fits t c e h in (t, refl, fits, d)

  serve_elem-Fits :
      (o : Option Bytes) (c : Call) (e : Bool)
      → serve_elem m escaped o ≡ handled c e
      → (s : Bytes) × (o ≡ some (orders ++ s)) × Fits s c × (escaped ≡ e)
  unfolding serve_elem
  serve_elem-Fits none c e h = ground arith
  serve_elem-Fits (some []) c e h = ground arith
  serve_elem-Fits (some (x ∷ s)) c e h =
      let (t, cut_t, fits, d) = serve_rest-Fits (cut orders (x ∷ s)) c e h in
      (t, ap some (cut-eq-some orders (x ∷ s) cut_t), fits, d)

module _ (normalize : Bytes → Option Bytes) where
  pub serve_http-pattern :
      (prefix : Bytes) (r : Request) (c : Call) (e : Bool)
      → (serve_http normalize prefix r ≡ handled c e) ↔ (
          (r.method ≡ method_of c)
          × (path_of normalize r ≡ (prefix ++ (orders ++ suffix c), e))
          × (is_named c ≡ true))
  unfolding serve_http
  serve_http-pattern prefix r c e = (
    λ h.
        let (elem, escaped) = path_of normalize r in
        let (s, cut_s, (a, b, named), d) =
          serve_elem-Fits r.method escaped (cut_prefix prefix elem) c e h in
        let whole : elem ≡ prefix ++ (orders ++ s) =
          cut-eq-some prefix elem (sym (cut_prefix-cut prefix elem) ∙ cut_s) in
        let eq : elem ≡ prefix ++ (orders ++ suffix c) =
          whole ∙ ap (λ k. prefix ++ (orders ++ k)) b in
        (a, cc, named),
    λ (a, path, named). rw path (
        rw (cut_prefix-cut prefix, cut-append prefix (orders ++ suffix c))
          (serve_elem-pattern r.method e c a named)),
  )
