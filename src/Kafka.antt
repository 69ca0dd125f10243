-- ===== src/Kafka.antt =====
-- platform/kafka: the message and the two interfaces (message.go, kafka.go), the middlewares
-- (middleware/), the consumer with its group handler (consumer/) and the producer (producer/). The
-- client library sarama is a parameter; what it delivers is an explicit sequence. Log lines are left
-- out, save those of the middlewares.
pub mod Claims
pub mod Chain
pub mod Header
pub mod Offsets
mod Tests
use rocket_maintenance.Common.{
  ℕ, String, Bool, true, false, ◌&&◌, List, [], ◌∷◌, ◌++◌, Option, none, some, ◌==◌, if◌then◌else◌,
  Result, ok, err, Action, Fault, failed, panicked,
}
use rocket_maintenance.Common.Int64.{Int64}

-- A byte slice, and a string made of one.
abbrev pub Bytes : Type 0
Bytes = List ℕ

abbrev pub same : Bytes → Bytes → Bool
same [] [] = true
same [] (_ ∷ _) = false
same (_ ∷ _) [] = false
same (x ∷ xs) (y ∷ ys) = x == y && same xs ys

-- A Go map: what it has under each key.
abbrev pub Headers : Type 0
Headers = Bytes → Option Bytes

pub record Message : Type 0 where
  pub headers : Headers
  pub timestamp : ℕ
  pub block_timestamp : ℕ
  pub key : Bytes
  pub value : Bytes
  pub topic : String
  pub partition : ℕ
  pub offset : Int64

-- sarama's header and message. A nil header is `none` in the list of them, a nil key is `none`.
pub record RecordHeader : Type 0 where
  pub key : Option Bytes
  pub value : Bytes

pub record ConsumerMessage : Type 0 where
  pub headers : List (Option RecordHeader)
  pub timestamp : ℕ
  pub block_timestamp : ℕ
  pub key : Bytes
  pub value : Bytes
  pub topic : String
  pub partition : ℕ
  pub offset : Int64

abbrev pub put : Bytes → Bytes → Headers → Headers
put k v headers = λ k'. if same k k' then some v else headers k'

-- The loop of `extractHeaders`, with the map so far.
unfoldable pub extract_from : Headers → List (Option RecordHeader) → Headers
extract_from result [] = result
extract_from result (none ∷ hs) = extract_from result hs
extract_from result (some h ∷ hs) = elim h.key [
  | none ↦ extract_from result hs
  | some k ↦ extract_from (put k h.value result) hs
]

unfoldable pub extract_headers : List (Option RecordHeader) → Headers
unfolding extract_from
extract_headers hs = extract_from (λ _. none) hs

unfoldable pub to_message : ConsumerMessage → Message
unfolding extract_headers
to_message m = record {
  headers = extract_headers m.headers;
  timestamp = m.timestamp;
  block_timestamp = m.block_timestamp;
  key = m.key;
  value = m.value;
  topic = m.topic;
  partition = m.partition;
  offset = m.offset;
}

abbrev pub backwards : {A : Type 0} → List A → List A
backwards [] = []
backwards (x ∷ xs) = backwards xs ++ (x ∷ [])

module _ (W E : Type 0) where
  abbrev pub MessageHandler : Type 0
  MessageHandler = Message → Action W (Fault E) (Unit {0})

  abbrev pub Middleware : Type 0
  Middleware = MessageHandler → MessageHandler

module _ {W E : Type 0} where
  -- `log` is what the line does to the state outside.
  unfoldable pub logging : (Message → W → W) → Middleware W E
  logging log next msg w = next msg (log msg w)

  -- A deferred `recover` leaves the result at its zero value, a nil error.
  unfoldable pub recovery : (String → W → W) → Middleware W E
  recovery log next msg w = elim (next msg w).0 [
    | ok _ ↦ (ok tt, (next msg w).1)
    | err (failed e) ↦ (err (failed e), (next msg w).1)
    | err (panicked r) ↦ (ok tt, log r (next msg w).1)
  ]

  -- The loop of `NewGroupHandler`: `i` is one more than the index.
  unfoldable pub wrap_down : (List (Middleware W E)) → MessageHandler W E → MessageHandler W E
  wrap_down [] handler = handler
  wrap_down (m ∷ ms) handler = wrap_down ms (m handler)

  unfoldable pub new_group_handler : MessageHandler W E → List (Middleware W E) → MessageHandler W E
  unfolding wrap_down
  new_group_handler handler middlewares = wrap_down (backwards middlewares) handler

-- What the `select` of `ConsumeClaim` takes next.
pub data ClaimEvent : Type 0 where
  message : ConsumerMessage → ClaimEvent
  channel_closed session_done : ClaimEvent

-- Whether `ConsumeClaim` waits for more, has returned nil, or has panicked.
pub data ClaimEnd : Type 0 where
  waiting returned : ClaimEnd
  crashed : String → ClaimEnd

-- The messages that were marked, in order, how it ended and the state outside.
pub record ClaimRun (W : Type 0) : Type 0 where
  pub marked : List ConsumerMessage
  pub end : ClaimEnd
  pub world : W

module _ {W E : Type 0} (handler : MessageHandler W E) where
  -- `marked` so far; the loop goes on behind a message whose handler returned an error.
  unfoldable pub claim_from : List ConsumerMessage → List ClaimEvent → W → ClaimRun W
  unfolding to_message
  claim_from marked [] w = record { marked = marked; end = waiting; world = w }
  claim_from marked (channel_closed ∷ _) w = record { marked = marked; end = returned; world = w }
  claim_from marked (session_done ∷ _) w = record { marked = marked; end = returned; world = w }
  claim_from marked (message m ∷ events) w = elim (handler (to_message m) w).0 [
    | ok _ ↦ claim_from (marked ++ (m ∷ [])) events (handler (to_message m) w).1
    | err (failed _) ↦ claim_from marked events (handler (to_message m) w).1
    | err (panicked r) ↦ record {
      marked = marked;
      end = crashed r;
      world = (handler (to_message m) w).1;
    }
  ]

  unfoldable pub consume_claim : List ClaimEvent → W → ClaimRun W
  unfolding claim_from
  consume_claim events w = claim_from [] events w

-- One round of `Consume`: the error of the group's call, and that of the context behind it.
pub data GroupError : Type 0 where
  closed_consumer_group : GroupError
  other_error : String → GroupError

pub record Round : Type 0 where
  pub group : Option GroupError
  pub context : Option String

-- What `Consume` returns: nil, an error, or nothing so far.
pub data ConsumeEnd : Type 0 where
  running stopped : ConsumeEnd
  group_failed context_ended : String → ConsumeEnd

unfoldable pub consume : List Round → ConsumeEnd
consume [] = running
consume (r ∷ rounds) = elim r.group [
  | some closed_consumer_group ↦ stopped
  | some (other_error e) ↦ group_failed e
  | none ↦ elim r.context [ some e ↦ context_ended e | none ↦ consume rounds ]
]

pub record ProducerMessage : Type 0 where
  pub topic : String
  pub key : Bytes
  pub value : Bytes

-- `Send`, over sarama's `SendMessage`, which gives the partition and the offset.
module _ {W E : Type 0} (send_message : ProducerMessage → Action W E (ℕ × Int64)) where
  unfoldable pub send : String → Bytes → Bytes → Action W E (Unit {0})
  send topic key value w =
      let (r, w') = send_message (record { topic = topic; key = key; value = value }) w in
      elim r [ ok _ ↦ (ok tt, w') | err e ↦ (err e, w') ]
