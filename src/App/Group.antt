-- ===== src/App/Group.antt =====
-- `run` of the order and notification services (internal/app/app.go), which wait for two functions in an
-- errgroup, and the shutdown that is deferred there. The library errgroup is a parameter.
use rocket_maintenance.Common.{
  ◌≡◌, refl, ap, ◌∙◌, Bool, true, false, List, [], ◌∷◌, Option, none, some, if◌then◌else◌, All, ◌⊎◌,
  inl, arith,
}
use rocket_maintenance.Closer.{Closer, CloseEvent, close_all}

-- `eg.Wait` by what each function has returned so far: none for one that runs, and else its error or
-- nil. It waits for all of them.
pub record Group (E : Type 0) : Type 0 where
  pub wait : Option (Option E) → Option (Option E) → Option (Option E)
  pub wait_left : (r : Option (Option E)) → wait none r ≡ none
  pub wait_right : (r : Option (Option E)) → wait r none ≡ none
  pub wait_ok : wait (some none) (some none) ≡ some none
  pub wait_err :
      (a b : Option E)
      → (a ≡ none → b ≡ none → ⊥)
      → (e : E) × (wait (some a) (some b) ≡ some (some e)) × ((a ≡ some e) ⊎ (b ≡ some e))

-- What happens while the order service runs, and what its two goroutines have returned by then.
pub data Event (E : Type 0) : Type 0 where
  context_done : Event E
  consumer_returns server_returns : Option E → Event E

pub record Returned (E : Type 0) : Type 0 where
  pub consumer : Option (Option E)
  pub server : Option (Option E)

abbrev pub or_keep : {A : Type 0} → Option A → A → Option A
or_keep (some a) b = some a
or_keep none b = some b

-- A goroutine returns once. The end of the context reaches neither of them by itself: the call of the
-- consumer may return for it, and nothing stops the server.
abbrev pub note : {E : Type 0} → Event E → Returned E → Returned E
note context_done r = r
note (consumer_returns e) r = record r { consumer = or_keep r.consumer e }
note (server_returns e) r = record r { server = or_keep r.server e }

unfoldable pub returned_by : {E : Type 0} → List (Event E) → Returned E → Returned E
returned_by [] r = r
returned_by (e ∷ es) r = returned_by es (note e r)

abbrev pub is_server : {E : Type 0} → Event E → Bool
is_server (server_returns _) = true
is_server _ = false

-- What `ListenAndServe` returned, less `http.ErrServerClosed`.
unfoldable pub listen_result : {E : Type 0} → (E → Bool) → Option E → Option E
listen_result is_closed none = none
listen_result is_closed (some e) = if is_closed e then none else some e

-- The result of the goroutine around `ListenAndServe`.
abbrev pub goroutine : {E : Type 0} → (E → Bool) → Option (Option E) → Option (Option E)
goroutine is_closed none = none
goroutine is_closed (some r) = some (listen_result is_closed r)

module _ {E : Type 0} (group : Group E) where
  wait-one :
      (a b : Option E)
      → (r : Option E) × (group.wait (some a) (some b) ≡ some r) × ((r ≡ a) ⊎ (r ≡ b))
  wait-one none none = (none, group.wait_ok, inl refl)
  wait-one (some x) b =
      let (e, w, from) = group.wait_err (some x) b (λ p _. absurd (ground arith)) in
      (some e, w, ground arith)
  wait-one none (some y) =
      let (e, w, from) = group.wait_err none (some y) (λ _ p. absurd (ground arith)) in
      (some e, w, ground arith)

module _ {F S : Type 0} where
  close_all-closed :
      (closer : Closer F) (events : List (CloseEvent S))
      → closer.called ≡ false
      → (close_all closer events).1 ≡ record { funcs = []; called = true }
  unfolding close_all
  close_all-closed closer events n = rw n refl

module _ {E F S : Type 0} (group : Group E) where
  -- The deferred `gracefulShutdown`, which only logs what `CloseAll` returns.
  abbrev pub shut_down :
      Closer F → List (CloseEvent S) → Option (Option E) → Option (Option E) × Closer F
  shut_down closer events none = (none, closer)
  shut_down closer events (some r) = (some r, (close_all closer events).1)

  -- `run` of the order service: none as long as it has not returned.
  unfoldable pub run_order :
      (E → Bool)
      → Closer F
      → List (CloseEvent S)
      → Option (Option E)
      → Option (Option E)
      → Option (Option E) × Closer F
  unfolding listen_result
  run_order is_closed closer events consumer server =
      shut_down closer events (group.wait consumer (goroutine is_closed server))

  -- `run` of the order service behind the events so far.
  unfoldable pub order_runs :
      (E → Bool) → Closer F → List (CloseEvent S) → List (Event E) → Option (Option E) × Closer F
  unfolding returned_by run_order
  order_runs is_closed closer closing events =
      let r = returned_by events (record { consumer = none; server = none }) in
      run_order is_closed closer closing r.consumer r.server

  -- `run` of the notification service, with its two consumers.
  unfoldable pub run_notification :
      Closer F
      → List (CloseEvent S)
      → Option (Option E)
      → Option (Option E)
      → Option (Option E) × Closer F
  run_notification closer events paid assembled =
      shut_down closer events (group.wait paid assembled)

  pub run_notification_ok :
      (closer : Closer F) (events : List (CloseEvent S)) (a b : Option E)
      → closer.called ≡ false
      → (r : Option E) × (run_notification closer events (some a) (some b)
          ≡ (some r, record { funcs = []; called = true }))
        × ((r ≡ a) ⊎ (r ≡ b))
  unfolding run_notification
  run_notification_ok closer events a b n =
      let (r, w, from) = wait-one group a b in
      (
        r,
        ap (shut_down closer events) w
            ∙ ap (λ (c : Closer F). (some r, c)) (close_all-closed closer events n),
        from,
      )

returned_by-server :
    {E : Type 0} (es : List (Event E)) (r : Returned E)
    → r.server ≡ none
    → All (λ e. is_server e ≡ false) es
    → (returned_by es r).server ≡ none
unfolding returned_by
returned_by-server [] r h a = h
returned_by-server (context_done ∷ es) r h (_, a) = returned_by-server es r h a
returned_by-server (consumer_returns e ∷ es) r h (_, a) =
    returned_by-server es (note (consumer_returns e) r) h a
returned_by-server (server_returns e ∷ es) r h (n, a) = absurd (ground arith)

module _ {E F S : Type 0} (group : Group E) where
  -- Over every sequence of events in which `ListenAndServe` does not return, the end of the context
  -- and the return of the consumer included, the run of the order service does not return and none
  -- of the registered functions is closed.
  pub order_runs-listening :
      (is_closed : E → Bool) (closer : Closer F) (closing : List (CloseEvent S))
      (events : List (Event E))
      → All (λ e. is_server e ≡ false) events
      → order_runs group is_closed closer closing events ≡ (none, closer)
  unfolding order_runs run_order
  order_runs-listening is_closed closer closing events h =
      let r = returned_by events (record { consumer = none; server = none }) in
      ap (λ s. shut_down group closer closing (group.wait r.consumer (goroutine is_closed s)))
        (returned_by-server events (record { consumer = none; server = none }) refl h)
      ∙ ap (shut_down group closer closing) (group.wait_right r.consumer)
