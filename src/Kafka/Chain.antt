-- ===== src/Kafka/Chain.antt =====
-- The order of the middlewares, and what the recovery from panics does to a claim.
use rocket_maintenance.Common.{
  ◌≡◌, refl, ap, ◌∙◌, String, true, List, [], ◌∷◌, ◌++◌, Result, ok, err, Fault, failed, panicked,
  if◌then◌else◌,
}
use rocket_maintenance.Kafka.{
  Message, MessageHandler, Middleware, ConsumerMessage, ClaimEvent, waiting, returned,
  consume_claim, to_message, recovery, wrap_down, new_group_handler, backwards,
}
use rocket_maintenance.Kafka.Claims.{
  delivered, is_ended, results, world_after, acknowledged, is_calm, consume_claim-calm,
}

-- The first middleware is the outermost.
abbrev pub nested : {W E : Type 0} → MessageHandler W E → List (Middleware W E) → MessageHandler W E
nested handler [] = handler
nested handler (m ∷ ms) = m (nested handler ms)

wrap_down-append :
    {W E : Type 0} (ms ns : List (Middleware W E)) (handler : MessageHandler W E)
    → wrap_down (ms ++ ns) handler ≡ wrap_down ns (wrap_down ms handler)
unfolding wrap_down
wrap_down-append [] ns handler = refl
wrap_down-append (m ∷ ms) ns handler = wrap_down-append ms ns (m handler)

-- The middlewares are wrapped round the handler so that the first one given is the outermost.
pub new_group_handler-nested :
    {W E : Type 0} (handler : MessageHandler W E) (ms : List (Middleware W E))
    → new_group_handler handler ms ≡ nested handler ms
unfolding new_group_handler wrap_down
new_group_handler-nested handler [] = refl
new_group_handler-nested handler (m ∷ ms) =
    wrap_down-append (backwards ms) (m ∷ []) handler ∙ ap m (new_group_handler-nested handler ms)

-- The messages whose handler returned nil or panicked.
abbrev pub not_failed :
    {E : Type 0} → List (ConsumerMessage × Result (Fault E) (Unit {0})) → List ConsumerMessage
not_failed [] = []
not_failed ((m, ok _) ∷ rs) = m ∷ not_failed rs
not_failed ((m, err (failed _)) ∷ rs) = not_failed rs
not_failed ((m, err (panicked _)) ∷ rs) = m ∷ not_failed rs

module _ {W E : Type 0} (log : String → W → W) where
  -- The handler's own result under the recovery, with the state behind the log line of a panic.
  abbrev pub observed :
      MessageHandler W E
      → List ConsumerMessage
      → W
      → List (ConsumerMessage × Result (Fault E) (Unit {0}))
  observed handler [] w = []
  observed handler (m ∷ ms) w =
      (m, (handler (to_message m) w).0)
      ∷ observed handler ms (recovery log handler (to_message m) w).1

  -- What a result becomes.
  abbrev recovered : Result (Fault E) (Unit {0}) → Result (Fault E) (Unit {0})
  recovered (err (failed e)) = err (failed e)
  recovered _ = ok tt

  recovery-recovered :
      (handler : MessageHandler W E) (msg : Message) (w : W)
      → (recovery log handler msg w).0 ≡ recovered (handler msg w).0
  unfolding recovery
  recovery-recovered handler msg w = split (handler msg w).0 (handler msg w).1 refl
    where
      split :
          (r : Result (Fault E) (Unit {0})) (w₁ : W)
          → handler msg w ≡ (r, w₁)
          → (recovery log handler msg w).0 ≡ recovered r
      split (ok _) w₁ e = rw (e, recovery) refl
      split (err (failed x)) w₁ e = rw (e, recovery) refl
      split (err (panicked x)) w₁ e = rw (e, recovery) refl

  calm-recovered :
      (m : ConsumerMessage) (r : Result (Fault E) (Unit {0}))
      (rs : List (ConsumerMessage × Result (Fault E) (Unit {0})))
      → is_calm rs ≡ true
      → is_calm ((m, recovered r) ∷ rs) ≡ true
  calm-recovered m (ok _) rs c = c
  calm-recovered m (err (failed _)) rs c = c
  calm-recovered m (err (panicked _)) rs c = c

  acknowledged-recovered :
      (m : ConsumerMessage) (r : Result (Fault E) (Unit {0}))
      (rs ss : List (ConsumerMessage × Result (Fault E) (Unit {0})))
      → acknowledged rs ≡ not_failed ss
      → acknowledged ((m, recovered r) ∷ rs) ≡ not_failed ((m, r) ∷ ss)
  acknowledged-recovered m (ok _) rs ss h = ap (λ l. m ∷ l) h
  acknowledged-recovered m (err (failed _)) rs ss h = h
  acknowledged-recovered m (err (panicked _)) rs ss h = ap (λ l. m ∷ l) h

  recovered-calm :
      (handler : MessageHandler W E) (ms : List ConsumerMessage) (w : W)
      → is_calm (results (recovery log handler) ms w) ≡ true
  recovered-calm handler [] w = refl
  recovered-calm handler (m ∷ ms) w =
      let w' = (recovery log handler (to_message m) w).1 in
      rw (recovery-recovered handler (to_message m) w) (
        calm-recovered m (handler (to_message m) w).0 (results (recovery log handler) ms w')
          (recovered-calm handler ms w'))

  acknowledged-observed :
      (handler : MessageHandler W E) (ms : List ConsumerMessage) (w : W)
      → acknowledged (results (recovery log handler) ms w) ≡ not_failed (observed handler ms w)
  acknowledged-observed handler [] w = refl
  acknowledged-observed handler (m ∷ ms) w =
      let w' = (recovery log handler (to_message m) w).1 in
      rw (recovery-recovered handler (to_message m) w) (
        acknowledged-recovered m (handler (to_message m) w).0 (results (recovery log handler) ms w')
          (observed handler ms w') (acknowledged-observed handler ms w'))

  -- With the recovery as the first middleware, no message ends a claim: it marks the messages for
  -- which the handler, behind the other middlewares, returned nil or panicked, and skips those it
  -- returned an error for.
  pub consume_claim-recovered :
      (handler : MessageHandler W E) (ms : List (Middleware W E)) (events : List ClaimEvent) (w : W)
      → consume_claim (new_group_handler handler (recovery log ∷ ms)) events w ≡ record {
        marked = not_failed (observed (nested handler ms) (delivered events) w);
        end = if is_ended events then returned else waiting;
        world = world_after (recovery log (nested handler ms)) (delivered events) w;
      }
  consume_claim-recovered handler ms events w =
      rw (new_group_handler-nested handler (recovery log ∷ ms)) (
        consume_claim-calm (recovery log (nested handler ms)) events w
          (recovered-calm (nested handler ms) (delivered events) w)
        ∙ rw (acknowledged-observed (nested handler ms) (delivered events) w) refl)
