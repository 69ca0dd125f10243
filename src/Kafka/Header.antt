-- ===== src/Kafka/Header.antt =====
-- The header map of a message, and the end of the consumer's loop.
use rocket_maintenance.Common.{
  ◌≡◌, refl, ◌∙◌, String, List, [], ◌∷◌, Option, none, some, arith, if◌then◌else◌,
}
use rocket_maintenance.Kafka.{
  Bytes, Headers, RecordHeader, same, put, extract_from, extract_headers, Round, ConsumeEnd,
  running, stopped, GroupError, group_failed, context_ended, closed_consumer_group, other_error,
  consume,
}

-- The value of the last header with the key, if there is one.
abbrev pub last_value : Bytes → List (Option RecordHeader) → Option Bytes
last_value k [] = none
last_value k (none ∷ hs) = last_value k hs
last_value k (some h ∷ hs) = elim (last_value k hs) [
  | some v ↦ some v
  | none ↦ elim h.key [ none ↦ none | some k' ↦ if same k' k then some h.value else none ]
]

abbrev or_else : Option Bytes → Option Bytes → Option Bytes
or_else (some v) o = some v
or_else none o = o

extract_from-last :
    (result : Headers) (hs : List (Option RecordHeader)) (k : Bytes)
    → extract_from result hs k ≡ or_else (last_value k hs) (result k)
unfolding extract_from
extract_from-last result [] k = refl
extract_from-last result (none ∷ hs) k = extract_from-last result hs k
extract_from-last result (some h ∷ hs) k = split h.key h.value (λ r. extract_from-last r hs k)
  where
    split :
        (key : Option Bytes) (v : Bytes)
        → ((r : Headers) → extract_from r hs k ≡ or_else (last_value k hs) (r k))
        → extract_from result (some (record { key = key; value = v }) ∷ hs) k
          ≡ or_else (last_value k (some (record { key = key; value = v }) ∷ hs)) (result k)
    split none v rest = rest result ∙ ground arith
    split (some k') v rest = rest (put k' v result) ∙ ground arith

-- The map has under each key the value of the last header with that key, and nothing under a key
-- that no header has; nil headers and headers with a nil key count for nothing.
pub extract_headers-last :
    (hs : List (Option RecordHeader)) (k : Bytes) → extract_headers hs k ≡ last_value k hs
unfolding extract_headers
extract_headers-last hs k = extract_from-last (λ _. none) hs k ∙ ground arith

-- The first round that does not end well, or after which the context is done.
abbrev pub first_end : List Round → Option Round
first_end [] = none
first_end (r ∷ rs) = elim r.group [
  | some _ ↦ some r
  | none ↦ elim r.context [ some _ ↦ some r | none ↦ first_end rs ]
]

abbrev pub end_of : Option Round → ConsumeEnd
end_of none = running
end_of (some r) = elim r.group [
  | some closed_consumer_group ↦ stopped
  | some (other_error e) ↦ group_failed e
  | none ↦ elim r.context [ some e ↦ context_ended e | none ↦ running ]
]

-- The consumer goes on as long as the group's calls return nil and the context is alive; it stops
-- with nil when the group is closed, and with the error of the first other failure.
pub consume-first_end : (rs : List Round) → consume rs ≡ end_of (first_end rs)
unfolding consume
consume-first_end [] = refl
consume-first_end (r ∷ rs) = split r.group r.context (consume-first_end rs)
  where
    split :
        (g : Option GroupError) (c : Option String)
        → consume rs ≡ end_of (first_end rs)
        → consume (record { group = g; context = c } ∷ rs)
          ≡ end_of (first_end (record { group = g; context = c } ∷ rs))
    split (some closed_consumer_group) c h = refl
    split (some (other_error e)) c h = refl
    split none (some e) h = refl
    split none none h = h
