-- ===== src/Order/Router/Found.antt =====
-- Which operation FindPath finds, and which id.
use rocket_maintenance.Common.{
  ℕ, ◌≡◌, refl, ap, sym, ◌∙◌, ◌↔◌, ◌⊎◌, inl, inr, true, [], ◌∷◌, ◌++◌, Option, none, some,
  Option-cases, Bool, arith,
}
use rocket_maintenance.Common.Bytes.{Bytes}
use rocket_maintenance.Order.Router.{
  Call, create_order, get_order_by_uuid, pay_order, cancel_order, Routed, handled, not_allowed,
  not_found, cut_prefix, orders, Request, path_of, serve_http,
}
use rocket_maintenance.Order.Router.Find.{
  unescape, unescape_args, deferred, find_path, call_of, find_elem-call_of,
}
use rocket_maintenance.Order.Router.Patterns.{suffix, method_of, is_named, serve_http-pattern}

call_of-eq-some : (x : Routed) {c : Call} → call_of x ≡ some c → (e : Bool) × (x ≡ handled c e)
call_of-eq-some (handled c' e) h = (e, ground arith)
call_of-eq-some (not_allowed _) h = absurd (ground arith)
call_of-eq-some not_found h = absurd (ground arith)

module _ (path_unescape : Bytes → Option Bytes) where
  -- What stands for the id in a path, and what is made of it: the same text if the path was not sent
  -- escaped, and else the text without the escapes, if these are valid.
  abbrev pub Decodes : Bytes → Bytes → Bytes → Type 0
  Decodes [] id id' = id ≡ id'
  Decodes (_ ∷ _) id id' = (path_unescape id ≡ some id') ⊎ ((path_unescape id ≡ none) × (id ≡ id'))

  -- The same operation, with the id that is made of the text in the path.
  pub data Reads (raw : Bytes) : Call → Call → Type 0 where
    reads_create : Reads raw create_order create_order
    reads_get :
        (id id' : Bytes)
        → Decodes raw id id'
        → Reads raw (get_order_by_uuid id) (get_order_by_uuid id')
    reads_pay : (id id' : Bytes) → Decodes raw id id' → Reads raw (pay_order id) (pay_order id')
    reads_cancel :
        (id id' : Bytes) → Decodes raw id id' → Reads raw (cancel_order id) (cancel_order id')

  unescape-some :
      (id : Bytes) {s : Bytes} → path_unescape id ≡ some s → unescape path_unescape id ≡ s
  unfolding unescape
  unescape-some id h = rw (unescape, h) refl

  unescape-none : (id : Bytes) → path_unescape id ≡ none → unescape path_unescape id ≡ id
  unfolding unescape
  unescape-none id h = rw (unescape, h) refl

  unescape-Decodes : (x : ℕ) (raw id : Bytes) → Decodes (x ∷ raw) id (unescape path_unescape id)
  unescape-Decodes x raw id = elim (Option-cases (path_unescape id)) [
    | inl it ↦ inr (it, sym (unescape-none id it))
    | inr (s, it) ↦ inl (it ∙ ap some (sym (unescape-some id it)))
  ]

  Decodes-unescape :
      (x : ℕ) (raw id : Bytes) {id' : Bytes}
      → Decodes (x ∷ raw) id id'
      → unescape path_unescape id ≡ id'
  Decodes-unescape x raw id (inl it) = unescape-some id it
  Decodes-unescape x raw id (inr (it, same)) = unescape-none id it ∙ same

  unescape_args-Reads :
      (x : ℕ) (raw : Bytes) (c : Call) → Reads (x ∷ raw) c (unescape_args path_unescape c)
  unfolding unescape_args
  unescape_args-Reads x raw create_order = reads_create
  unescape_args-Reads x raw (get_order_by_uuid id) = reads_get id _ (unescape-Decodes x raw id)
  unescape_args-Reads x raw (pay_order id) = reads_pay id _ (unescape-Decodes x raw id)
  unescape_args-Reads x raw (cancel_order id) = reads_cancel id _ (unescape-Decodes x raw id)

  Reads-refl : (c : Call) → Reads [] c c
  Reads-refl create_order = reads_create
  Reads-refl (get_order_by_uuid id) = reads_get id id refl
  Reads-refl (pay_order id) = reads_pay id id refl
  Reads-refl (cancel_order id) = reads_cancel id id refl

  deferred-eq-some :
      (raw : Bytes) (o : Option Call) {d : Call}
      → deferred path_unescape raw o ≡ some d
      → (c : Call) × (o ≡ some c) × Reads raw c d
  unfolding deferred
  deferred-eq-some [] o {d} h = (d, h, Reads-refl d)
  deferred-eq-some (x ∷ raw) none h = absurd (ground arith)
  deferred-eq-some (x ∷ raw) (some c) {d} h =
      let same : unescape_args path_unescape c ≡ d = ground arith in
      (c, refl, rw (← same) (unescape_args-Reads x raw c))

  Reads-deferred :
      (raw : Bytes) (c d : Call) → Reads raw c d → deferred path_unescape raw (some c) ≡ some d
  unfolding deferred unescape_args
  Reads-deferred [] _ _ reads_create = refl
  Reads-deferred [] _ _ (reads_get id id' h) = ap (λ k. some (get_order_by_uuid k)) h
  Reads-deferred [] _ _ (reads_pay id id' h) = ap (λ k. some (pay_order k)) h
  Reads-deferred [] _ _ (reads_cancel id id' h) = ap (λ k. some (cancel_order k)) h
  Reads-deferred (x ∷ raw) _ _ reads_create = refl
  Reads-deferred (x ∷ raw) _ _ (reads_get id id' h) =
      ap (λ k. some (get_order_by_uuid k)) (Decodes-unescape x raw id h)
  Reads-deferred (x ∷ raw) _ _ (reads_pay id id' h) =
      ap (λ k. some (pay_order k)) (Decodes-unescape x raw id h)
  Reads-deferred (x ∷ raw) _ _ (reads_cancel id id' h) =
      ap (λ k. some (cancel_order k)) (Decodes-unescape x raw id h)

module _ (normalize path_unescape : Bytes → Option Bytes) where
  -- What `FindPath` finds is what `ServeHTTP` gives to a handler, behind the deferred function.
  find_path-serve_http :
      (prefix : Bytes) (r : Request)
      → find_path normalize path_unescape prefix r
        ≡ deferred path_unescape r.raw_path (call_of (serve_http normalize prefix r))
  unfolding find_path serve_http
  find_path-serve_http prefix r =
      let (elem, escaped) = path_of normalize r in
      ap (deferred path_unescape r.raw_path)
        (find_elem-call_of r.method escaped (cut_prefix prefix elem))

  -- `FindPath` finds an operation exactly if `ServeHTTP` gives the request to its handler, that is,
  -- if the method is the operation's and the path, normalized if it was sent escaped, is the prefix
  -- of the server followed by the path of the API description. The id that it finds is the text in
  -- that path, without its escapes if the path was sent escaped and they are valid.
  pub find_path-pattern :
      (prefix : Bytes) (r : Request) (d : Call)
      → (find_path normalize path_unescape prefix r ≡ some d) ↔ (
          (c : Call) × (e : Bool) × (serve_http normalize prefix r ≡ handled c e)
          × (r.method ≡ method_of c)
          × (path_of normalize r ≡ (prefix ++ (orders ++ suffix c), e))
          × (is_named c ≡ true)
          × Reads path_unescape r.raw_path c d)
  find_path-pattern prefix r d = (
    λ h.
        let (c, o, reads) =
          deferred-eq-some path_unescape r.raw_path (call_of (serve_http normalize prefix r))
            (sym (find_path-serve_http prefix r) ∙ h) in
        let (e, served) = call_of-eq-some (serve_http normalize prefix r) o in
        let (m, path, named) = (serve_http-pattern normalize prefix r c e).0 served in
        (c, e, served, m, path, named, reads),
    λ (c, e, served, _, _, _, reads).
        find_path-serve_http prefix r
        ∙ ap (λ x. deferred path_unescape r.raw_path (call_of x)) served
        ∙ Reads-deferred path_unescape r.raw_path c d reads,
  )
