-- ===== src/Assembly/Wire.antt =====
-- A concrete wire format for examples: it takes the ids that are prints of numbers, and one method.
use text.Mathlib.Text.{◌==◌ as str_eq}
use text.Mathlib.TextEquality.{eq_iff}
use rocket_maintenance.Common.{
  ◌≡◌, String, Bool, true, ◌&&◌, [], ◌∷◌, Result, ok, err, if◌then◌else◌, arith, Bool-cases, inl,
  inr, none,
}
use rocket_maintenance.Proto.{PaidOrderRecord, AssembledShipRecord, ProtoLib}
use rocket_maintenance.Kafka.{Bytes, Message}
use rocket_maintenance.Order.InMemory.{print, count}
use rocket_maintenance.Order.Model.{PaidOrder, card}

abbrev pub same : String → String → Bool
same s t = str_eq s t

abbrev pub is_print : String → Bool
is_print s = same (print (count s)) s

pub is_print-eq : (s : String) → is_print s ≡ true → print (count s) ≡ s
is_print-eq s h = (eq_iff (print (count s)) s).0 h

abbrev pub card_text : String
card_text = "PAYMENT_METHOD_CARD"

abbrev pub is_wired_paid : PaidOrderRecord → Bool
is_wired_paid p =
    is_print p.event_uuid
    && (is_print p.order_uuid
        && (is_print p.user_uuid
            && (is_print p.transaction_uuid && same p.payment_method card_text)))

abbrev pub wired_paid : PaidOrderRecord → Bytes
wired_paid p =
    count p.event_uuid
    ∷ (count p.order_uuid ∷ (count p.user_uuid ∷ (count p.transaction_uuid ∷ [])))

abbrev pub marshal_paid : PaidOrderRecord → Result String Bytes
marshal_paid p = if is_wired_paid p then ok (wired_paid p) else err "not canonical"

abbrev pub unmarshal_paid : Bytes → Result String PaidOrderRecord
unmarshal_paid (a ∷ (b ∷ (c ∷ (d ∷ [])))) = ok (record {
  event_uuid = print a;
  order_uuid = print b;
  user_uuid = print c;
  transaction_uuid = print d;
  payment_method = card_text;
})
unmarshal_paid _ = err "truncated"

pub unmarshal-marshal_paid :
    (p : PaidOrderRecord) (b : Bytes) → marshal_paid p ≡ ok b → unmarshal_paid b ≡ ok p
unmarshal-marshal_paid p b h = elim (Bool-cases (is_wired_paid p)) [
  | inr t ↦ absurd (ground arith)
  | inl t ↦
      let ev = is_print-eq p.event_uuid (ground arith) in
      let ord = is_print-eq p.order_uuid (ground arith) in
      let user = is_print-eq p.user_uuid (ground arith) in
      let tx = is_print-eq p.transaction_uuid (ground arith) in
      let method = (eq_iff p.payment_method card_text).0 (ground arith) in
      let bytes : ok (wired_paid p) ≡ ok b = rw t at h in ground arith
]

abbrev pub is_wired_ship : AssembledShipRecord → Bool
is_wired_ship p = is_print p.event_uuid && (is_print p.order_uuid && is_print p.user_uuid)

abbrev pub marshal_ship : AssembledShipRecord → Result String Bytes
marshal_ship p =
    if is_wired_ship p
    then ok
        (count p.event_uuid ∷ (count p.order_uuid ∷ (count p.user_uuid ∷ (p.build_time_sec ∷ []))))
    else err "not canonical"

abbrev pub unmarshal_ship : Bytes → Result String AssembledShipRecord
unmarshal_ship (a ∷ (b ∷ (c ∷ (d ∷ [])))) =
    ok (record {
      event_uuid = print a;
      order_uuid = print b;
      user_uuid = print c;
      build_time_sec = d;
    })
unmarshal_ship _ = err "truncated"

pub unmarshal-marshal_ship :
    (p : AssembledShipRecord) (b : Bytes) → marshal_ship p ≡ ok b → unmarshal_ship b ≡ ok p
unmarshal-marshal_ship p b h = elim (Bool-cases (is_wired_ship p)) [
  | inr t ↦ absurd (ground arith)
  | inl t ↦
      let ev = is_print-eq p.event_uuid (ground arith) in
      let ord = is_print-eq p.order_uuid (ground arith) in
      let user = is_print-eq p.user_uuid (ground arith) in ground arith
]

abbrev pub proto : ProtoLib
proto = record {
  marshal_paid = marshal_paid;
  unmarshal_paid = unmarshal_paid;
  marshal_ship = marshal_ship;
  unmarshal_ship = unmarshal_ship;
  unmarshal-marshal_paid = unmarshal-marshal_paid;
  unmarshal-marshal_ship = unmarshal-marshal_ship;
}

abbrev pub paid_order : PaidOrder
paid_order = record {
  event_id = 1;
  order_id = 2;
  user_id = 3;
  payment_method = card;
  transaction_id = 4;
}

abbrev pub carrying : Bytes → Message
carrying b = record {
  headers = λ _. none;
  timestamp = 0;
  block_timestamp = 0;
  key = [];
  value = b;
  topic = "order.paid";
  partition = 0;
  offset = 0;
}
