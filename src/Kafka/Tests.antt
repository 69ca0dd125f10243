-- ===== src/Kafka/Tests.antt =====
-- A consumer that counts, on messages that are fine, refused and fatal.
use rocket_maintenance.Common.{
  ℕ, suc, ◌+◌, ◌<◌, ◌≤◌, ◌⊎◌, ltb, if◌then◌else◌, arith, ◌≡◌, refl, String, List, [], ◌∷◌, Option,
  none, some, Result, ok, err, Fault, failed, panicked,
}
use rocket_maintenance.Kafka.{
  Bytes, MessageHandler, Middleware, ConsumerMessage, ClaimEvent, message, session_done, returned,
  crashed, consume_claim, RecordHeader, extract_headers, logging, recovery, new_group_handler,
  claim_from, to_message, wrap_down, extract_from,
}
use rocket_maintenance.Kafka.Header.{extract_headers-last}
use rocket_maintenance.Kafka.Claims.{delivered, world_after}
use rocket_maintenance.Kafka.Chain.{consume_claim-recovered, nested, not_failed, observed}
use rocket_maintenance.Kafka.Offsets.{Marker, committed, consume_claim-skipped}

-- An empty value is fine, a single byte is refused, and more is fatal.
abbrev verdict : Bytes → Result (Fault String) (Unit {0})
verdict [] = ok tt
verdict (_ ∷ []) = err (failed "refused")
verdict (_ ∷ (_ ∷ _)) = err (panicked "index out of range")

abbrev counting : MessageHandler ℕ String
counting msg w = (verdict msg.value, suc w)

abbrev carrying : Bytes → ConsumerMessage
carrying v = record {
  headers = [];
  timestamp = 0;
  block_timestamp = 0;
  key = [];
  value = v;
  topic = "order.paid";
  partition = 0;
  offset = 0;
}

abbrev calm_events : List ClaimEvent
calm_events =
    message (carrying [])
    ∷ (message (carrying (1 ∷ [])) ∷ (message (carrying []) ∷ (session_done ∷ [])))

abbrev all_events : List ClaimEvent
all_events = message (carrying (1 ∷ (2 ∷ []))) ∷ calm_events

calm_run :
    consume_claim counting calm_events 0
    ≡ record { marked = carrying [] ∷ (carrying [] ∷ []); end = returned; world = 3 }
unfolding consume_claim claim_from to_message
calm_run = refl

crash_run :
    consume_claim counting all_events 0
    ≡ record { marked = []; end = crashed "index out of range"; world = 1 }
unfolding consume_claim claim_from to_message
crash_run = refl

recovered_run :
    consume_claim (new_group_handler counting (recovery (λ _ w. w) ∷ [])) all_events 0 ≡ record {
      marked = carrying (1 ∷ (2 ∷ [])) ∷ (carrying [] ∷ (carrying [] ∷ []));
      end = returned;
      world = 4;
    }
unfolding consume_claim claim_from to_message new_group_handler wrap_down recovery
recovered_run = refl

abbrev middlewares : List (Middleware ℕ String)
middlewares = recovery (λ _ w. suc w) ∷ (logging (λ _ w. suc w) ∷ [])

consume_claim-recovered_example :
    consume_claim (new_group_handler counting middlewares) all_events 0 ≡ record {
      marked = not_failed (
          observed
            (λ _ w. suc w)
            (nested counting (logging (λ _ w. suc w) ∷ []))
            (delivered all_events)
            0);
      end = returned;
      world =
          world_after
            (recovery (λ _ w. suc w) (nested counting (logging (λ _ w. suc w) ∷ [])))
            (delivered all_events)
            0;
    }
consume_claim-recovered_example =
    consume_claim-recovered (λ _ w. suc w) counting (logging (λ _ w. suc w) ∷ []) all_events 0

-- A nil header, a nil key, and a key that is given twice.
abbrev headers : List (Option RecordHeader)
headers =
    some (record { key = some (7 ∷ []); value = 1 ∷ [] })
    ∷ (none
        ∷ (some (record { key = none; value = 2 ∷ [] })
            ∷ (some (record { key = some (7 ∷ []); value = 3 ∷ [] }) ∷ [])))

extract_headers_last_wins : extract_headers headers (7 ∷ []) ≡ some (3 ∷ [])
unfolding extract_headers extract_from
extract_headers_last_wins = refl

-- Offsets are marked as sarama does: the next one is one more, unless it is further already.
abbrev larger : ℕ → ℕ → ℕ
larger a b = if ltb a b then b else a

mark-covers : (next : ℕ) (m : ConsumerMessage) → m.offset < larger next (m.offset + 1)
mark-covers next m = ground arith

mark-keeps : (next : ℕ) (m : ConsumerMessage) → next ≤ larger next (m.offset + 1)
mark-keeps next m = ground arith

mark-least :
    (next : ℕ) (m : ConsumerMessage)
    → (larger next (m.offset + 1) ≡ next) ⊎ (larger next (m.offset + 1) ≡ m.offset + 1)
mark-least next m = ground arith

abbrev marker : Marker
marker = record {
  mark = λ next m. larger next (m.offset + 1);
  mark_covers = mark-covers;
  mark_keeps = mark-keeps;
  mark_least = mark-least;
}

abbrev at : ℕ → Bytes → ConsumerMessage
at n v = record (carrying v) { offset = n }

-- The message at 3 is refused, those at 4 and 5 are fine and refused.
abbrev three_events : List ClaimEvent
three_events =
    message (at 3 (1 ∷ [])) ∷ message (at 4 []) ∷ message (at 5 (1 ∷ [])) ∷ session_done ∷ []

consume_claim-skipped_example :
    3 < committed marker 3 (consume_claim counting three_events 0).marked
unfolding to_message
consume_claim-skipped_example =
    consume_claim-skipped counting marker three_events [] [] (at 5 (1 ∷ []) ∷ []) (at 3 (1 ∷ []))
      (at 4 []) 3 0 refl refl refl (omega arith)

-- The key 1 twice, a nil header and a nil key.
abbrev record_headers : List (Option RecordHeader)
record_headers =
    some (record { key = some (1 ∷ []); value = 5 ∷ [] })
    ∷ none
    ∷ some (record { key = none; value = 7 ∷ [] })
    ∷ some (record { key = some (1 ∷ []); value = 6 ∷ [] })
    ∷ []

extract_headers-last_example : extract_headers record_headers (1 ∷ []) ≡ some (6 ∷ [])
extract_headers-last_example = extract_headers-last record_headers (1 ∷ [])
