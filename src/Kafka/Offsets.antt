-- ===== src/Kafka/Offsets.antt =====
-- Which messages of a claim come again after a restart (platform/kafka/consumer/group_handler.go). The
-- offset that sarama commits is a parameter.
use rocket_maintenance.Common.{
  ℕ, ◌+◌, ◌≤◌, ◌<◌, ◌≡◌, ◌⊎◌, inl, inr, refl, ap, ◌∙◌, List, [], ◌∷◌, ◌++◌, Result, ok, err, Fault,
  All, arith, true,
}
use mathlib.Core.List.{append-nil}
use rocket_maintenance.Kafka.{
  MessageHandler, ConsumerMessage, ClaimEvent, consume_claim, to_message,
}
use rocket_maintenance.Kafka.Claims.{
  delivered, results, world_after, acknowledged, is_calm, consume_claim-calm,
}

-- `MarkMessage`, by the offset of the next message to read: it moves behind the message, never back.
pub record Marker : Type 0 where
  pub mark : ℕ → ConsumerMessage → ℕ
  pub mark_covers : (next : ℕ) (m : ConsumerMessage) → m.offset < mark next m
  pub mark_keeps : (next : ℕ) (m : ConsumerMessage) → next ≤ mark next m
  pub mark_least :
      (next : ℕ) (m : ConsumerMessage) → (mark next m ≡ next) ⊎ (mark next m ≡ m.offset + 1)

module _ {W E : Type 0} (handler : MessageHandler W E) where
  results-append :
      (ms ns : List ConsumerMessage) (w : W)
      → results handler (ms ++ ns) w
        ≡ results handler ms w ++ results handler ns (world_after handler ms w)
  results-append [] ns w = refl
  results-append (m ∷ ms) ns w =
      ap (λ rs. (m, (handler (to_message m) w).0) ∷ rs)
        (results-append ms ns (handler (to_message m) w).1)

acknowledged-append :
    {E : Type 0} (rs ss : List (ConsumerMessage × Result (Fault E) (Unit {0})))
    → acknowledged (rs ++ ss) ≡ acknowledged rs ++ acknowledged ss
acknowledged-append [] ss = refl
acknowledged-append ((m, ok _) ∷ rs) ss = ap (λ l. m ∷ l) (acknowledged-append rs ss)
acknowledged-append ((m, err _) ∷ rs) ss = acknowledged-append rs ss

module _ (marker : Marker) where
  -- The offset from which a restart reads, behind the messages that were marked.
  abbrev pub committed : ℕ → List ConsumerMessage → ℕ
  committed next [] = next
  committed next (m ∷ ms) = committed (marker.mark next m) ms

  committed-keeps : (next : ℕ) (ms : List ConsumerMessage) → next ≤ committed next ms
  committed-keeps next [] = omega arith
  committed-keeps next (m ∷ ms) =
      omega (arith, marker.mark_keeps next m, committed-keeps (marker.mark next m) ms)

  committed-covers :
      (next : ℕ) (before behind : List ConsumerMessage) (m : ConsumerMessage)
      → m.offset < committed next (before ++ (m ∷ behind))
  committed-covers next [] behind m =
      omega (arith, marker.mark_covers next m, committed-keeps (marker.mark next m) behind)
  committed-covers next (b ∷ before) behind m =
      committed-covers (marker.mark next b) before behind m

  committed-bound :
      (next k : ℕ) (ms : List ConsumerMessage)
      → next ≤ k
      → All (λ m. m.offset < k) ms
      → committed next ms ≤ k
  committed-bound next k [] h _ = h
  committed-bound next k (m ∷ ms) h (n, a) =
      committed-bound (marker.mark next m) k ms
        (elim (marker.mark_least next m) [
          | inl same ↦ omega (arith, same)
          | inr moved ↦ omega (arith, moved)
        ])
        a

module _ {W E : Type 0} (handler : MessageHandler W E) (marker : Marker) where
  -- In a claim whose handler does not panic, a message that comes before one with a greater offset
  -- for which the handler returned nil lies below the offset committed at the end, also when the
  -- handler returned an error for it: it does not come again.
  pub consume_claim-skipped :
      (events : List ClaimEvent) (before between behind : List ConsumerMessage)
      (m m' : ConsumerMessage) (next : ℕ) (w : W)
      → is_calm (results handler (delivered events) w) ≡ true
      → delivered events ≡ (before ++ (m ∷ between)) ++ (m' ∷ behind)
      → (handler (to_message m') (world_after handler (before ++ (m ∷ between)) w)).0 ≡ ok tt
      → m.offset < m'.offset
      → m.offset < committed marker next (consume_claim handler events w).marked
  consume_claim-skipped events before between behind m m' next w calm d good h =
      let earlier = before ++ (m ∷ between) in
      let w₁ = world_after handler earlier w in
      let marks : (consume_claim handler events w).marked
          ≡ acknowledged (results handler earlier w)
            ++ (m' ∷ acknowledged (results handler behind (handler (to_message m') w₁).1)) =
        ap (λ r. r.marked) (consume_claim-calm handler events w calm)
        ∙ ap (λ ms. acknowledged (results handler ms w)) d
        ∙ ap acknowledged (results-append handler earlier (m' ∷ behind) w)
        ∙ acknowledged-append (results handler earlier w) (results handler (m' ∷ behind) w₁)
        ∙ ap
            (λ (r : Result (Fault E) (Unit {0})).
              acknowledged (results handler earlier w)
              ++ acknowledged ((m', r) ∷ results handler behind (handler (to_message m') w₁).1))
            good in
      let covered =
        committed-covers marker next (acknowledged (results handler earlier w))
          (acknowledged (results handler behind (handler (to_message m') w₁).1)) m' in
      rw marks (omega (arith, covered, h))

  acknowledged-All :
      (P : ConsumerMessage → Type 0) (ms : List ConsumerMessage) (w : W)
      → All P ms
      → All P (acknowledged (results handler ms w))
  acknowledged-All P [] w a = tt
  acknowledged-All P (m ∷ ms) w (p, a) =
      split (handler (to_message m) w).0 (acknowledged-All P ms (handler (to_message m) w).1 a)
    where
      split :
          (r : Result (Fault E) (Unit {0}))
          → All P (acknowledged (results handler ms (handler (to_message m) w).1))
          → All P (acknowledged ((m, r) ∷ results handler ms (handler (to_message m) w).1))
      split (ok _) rest = (p, rest)
      split (err _) rest = rest

  -- In a claim whose handler does not panic, if it returned an error for a message and for all
  -- behind it, and the messages before it have smaller offsets, as the one from which the claim
  -- began is at most its own, the offset committed at the end is at most its own: it comes again.
  pub consume_claim-redelivered :
      (events : List ClaimEvent) (before behind : List ConsumerMessage) (m : ConsumerMessage)
      (next : ℕ) (w : W)
      → is_calm (results handler (delivered events) w) ≡ true
      → delivered events ≡ before ++ (m ∷ behind)
      → acknowledged (results handler (m ∷ behind) (world_after handler before w)) ≡ []
      → All (λ b. b.offset < m.offset) before
      → next ≤ m.offset
      → committed marker next (consume_claim handler events w).marked ≤ m.offset
  consume_claim-redelivered events before behind m next w calm d bad earlier h =
      let marks : (consume_claim handler events w).marked
          ≡ acknowledged (results handler before w) =
        ap (λ r. r.marked) (consume_claim-calm handler events w calm)
        ∙ ap (λ ms. acknowledged (results handler ms w)) d
        ∙ ap acknowledged (results-append handler before (m ∷ behind) w)
        ∙ acknowledged-append (results handler before w)
            (results handler (m ∷ behind) (world_after handler before w))
        ∙ ap (λ l. acknowledged (results handler before w) ++ l) bad
        ∙ append-nil (acknowledged (results handler before w)) in
      rw marks (
        committed-bound marker next m.offset (acknowledged (results handler before w)) h
          (acknowledged-All (λ b. b.offset < m.offset) before w earlier))
