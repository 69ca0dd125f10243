-- ===== src/Kafka/Claims.antt =====
-- Which messages a claim marks, and how the consumer's loop ends.
use rocket_maintenance.Common.{
  ◌≡◌, refl, ◌∙◌, Bool, true, false, List, [], ◌∷◌, ◌++◌, Result, ok, err, Fault, failed, panicked,
  arith, if◌then◌else◌,
}
use mathlib.Core.List.{append_assoc, append-nil}
use rocket_maintenance.Kafka.{
  MessageHandler, ConsumerMessage, ClaimEvent, message, channel_closed, session_done, ClaimRun,
  waiting, returned, claim_from, consume_claim, to_message,
}

-- The messages that come before the channel is closed or the session ends.
abbrev pub delivered : List ClaimEvent → List ConsumerMessage
delivered [] = []
delivered (channel_closed ∷ _) = []
delivered (session_done ∷ _) = []
delivered (message m ∷ es) = m ∷ delivered es

-- Whether the channel was closed or the session ended.
abbrev pub is_ended : List ClaimEvent → Bool
is_ended [] = false
is_ended (channel_closed ∷ _) = true
is_ended (session_done ∷ _) = true
is_ended (message _ ∷ es) = is_ended es

module _ {W E : Type 0} (handler : MessageHandler W E) where
  -- The handler run on one message after the other, whatever it returns, with the results.
  abbrev pub results :
      List ConsumerMessage → W → List (ConsumerMessage × Result (Fault E) (Unit {0}))
  results [] w = []
  results (m ∷ ms) w = let (r, w') = handler (to_message m) w in (m, r) ∷ results ms w'

  abbrev pub world_after : List ConsumerMessage → W → W
  world_after [] w = w
  world_after (m ∷ ms) w = world_after ms (handler (to_message m) w).1

-- The messages whose handler returned nil.
abbrev pub acknowledged :
    {E : Type 0} → List (ConsumerMessage × Result (Fault E) (Unit {0})) → List ConsumerMessage
acknowledged [] = []
acknowledged ((m, r) ∷ rs) = elim r [ ok _ ↦ m ∷ acknowledged rs | err _ ↦ acknowledged rs ]

abbrev pub is_calm : {E : Type 0} → List (ConsumerMessage × Result (Fault E) (Unit {0})) → Bool
is_calm [] = true
is_calm ((m, ok _) ∷ rs) = is_calm rs
is_calm ((m, err (failed _)) ∷ rs) = is_calm rs
is_calm ((m, err (panicked _)) ∷ rs) = false

module _ {W E : Type 0} (handler : MessageHandler W E) where
  abbrev run_of : List ConsumerMessage → List ClaimEvent → W → ClaimRun W
  run_of marked events w = record {
    marked = marked ++ acknowledged (results handler (delivered events) w);
    end = if is_ended events then returned else waiting;
    world = world_after handler (delivered events) w;
  }

  claim_from-calm :
      (marked : List ConsumerMessage) (events : List ClaimEvent) (w : W)
      → is_calm (results handler (delivered events) w) ≡ true
      → claim_from handler marked events w ≡ run_of marked events w
  unfolding claim_from
  claim_from-calm marked [] w c = rw (append-nil marked) refl
  claim_from-calm marked (channel_closed ∷ es) w c = rw (append-nil marked) refl
  claim_from-calm marked (session_done ∷ es) w c = rw (append-nil marked) refl
  claim_from-calm marked (message m ∷ es) w c =
      split (handler (to_message m) w).0 refl
        (λ marked' k. claim_from-calm marked' es (handler (to_message m) w).1 k) c
    where
      split :
          (r : Result (Fault E) (Unit {0}))
          → (handler (to_message m) w).0 ≡ r
          → let w₁ = (handler (to_message m) w).1 in
            ((marked' : List ConsumerMessage)
              → is_calm (results handler (delivered es) w₁) ≡ true
              → claim_from handler marked' es w₁ ≡ run_of marked' es w₁)
            → is_calm ((m, r) ∷ results handler (delivered es) w₁) ≡ true
            → claim_from handler marked (message m ∷ es) w ≡ record {
              marked = marked ++ acknowledged ((m, r) ∷ results handler (delivered es) w₁);
              end = if is_ended es then returned else waiting;
              world = world_after handler (delivered es) w₁;
            }
      split (ok _) e rest k =
          let later = acknowledged (results handler (delivered es) (handler (to_message m) w).1) in
          rw (e, claim_from)
            (rest (marked ++ (m ∷ [])) k ∙ rw (append_assoc marked (m ∷ []) later) refl)
      split (err (failed x)) e rest k = rw (e, claim_from) (rest marked k)
      split (err (panicked x)) e rest k = absurd (ground arith)

  -- A claim whose handler does not panic marks the messages that it returned nil for, in their
  -- order, and no message that it returned an error for, though the loop goes on behind one; each
  -- delivered message is handled once; it returns when the channel is closed or the session ends.
  pub consume_claim-calm :
      (events : List ClaimEvent) (w : W)
      → is_calm (results handler (delivered events) w) ≡ true
      → consume_claim handler events w ≡ record {
        marked = acknowledged (results handler (delivered events) w);
        end = if is_ended events then returned else waiting;
        world = world_after handler (delivered events) w;
      }
  unfolding consume_claim
  consume_claim-calm events w c = claim_from-calm [] events w c
