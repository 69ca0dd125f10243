-- ===== src/Notification/Tests.antt =====
-- Two chats, and a client that writes down what it sends and refuses the chat 0.
use rocket_maintenance.Common.{
  ◌≡◌, refl, String, List, [], ◌∷◌, ok, err, Action, Error, new_error, ◌==◌, if◌then◌else◌, arith,
}
use rocket_maintenance.Common.Int64.{Int64}
use rocket_maintenance.Common.Uuids.{UuidLib}
use rocket_maintenance.Order.InMemory.{print, count as unary, parse-print}
use rocket_maintenance.Order.Events
use rocket_maintenance.Assembly
use rocket_maintenance.Assembly.Wire.{proto, carrying}
use rocket_maintenance.Notification.{
  Telegram, send_each, order_assembled_handler, notify_ship_assembled, build_paid_order,
  build_ship_assembled, assembled_ship_to_model,
}
use rocket_maintenance.Notification.Chats.{count, IsKeys}

record World : Type 0 where
  chats : List Int64
  log : List (Int64 × String)

abbrev send : Int64 → String → Action World (Error (Unit {0})) (Unit {0})
send c msg w =
    if c == 0
    then (err (new_error "chat not found"), w)
    else (ok tt, record w { log = (c, msg) ∷ w.log })

abbrev uuids : UuidLib World
uuids = record {
  to_string = print;
  parse = λ s. ok (unary s);
  random = λ w. (0, w);
  parse-to_string = parse-print;
}

abbrev telegram : Telegram World (Unit {0})
telegram = record {
  uuids = uuids;
  proto = proto;
  print_duration = λ d. print d;
  storage = λ w. w.chats;
  send_message = send;
  iteration = λ xs. xs;
}

abbrev two_chats : World
two_chats = record { chats = 3 ∷ (4 ∷ []); log = [] }

keys : IsKeys (3 ∷ (4 ∷ []))
keys c = ground arith

refused :
    send_each send "hello" (3 ∷ (0 ∷ (4 ∷ []))) two_chats
    ≡ (err (new_error "chat not found"), record two_chats { log = (3, "hello") ∷ [] })
unfolding send_each
refused = refl

abbrev paid_text : String
paid_text = build_paid_order uuids (record {
  event_id = 1;
  order_id = 2;
  user_id = 3;
  payment_method = "PAYMENT_METHOD_CARD";
  transaction_id = 4;
})

abbrev told : World
told = record two_chats { log = (4, paid_text) ∷ ((3, paid_text) ∷ []) }

abbrev ship : Assembly.AssembledShip
ship = record { event_id = 1; order_id = 2; user_id = 3; build_time = 10000000000 }

encodes_ship :
    Assembly.assembled_ship_to_payload {S = Unit {0}} uuids proto ship
    ≡ ok (1 ∷ (2 ∷ (3 ∷ (10 ∷ []))))
unfolding Assembly.assembled_ship_to_payload
encodes_ship = refl

abbrev ship_text : String
ship_text =
    build_ship_assembled uuids print
      (record { event_id = 1; order_id = 2; user_id = 3; build_time = 10 })

abbrev ready : World
ready = record two_chats { log = (4, ship_text) ∷ ((3, ship_text) ∷ []) }

tells_ship :
    order_assembled_handler telegram (carrying (1 ∷ (2 ∷ (3 ∷ (10 ∷ []))))) two_chats
    ≡ (ok tt, ready)
unfolding order_assembled_handler notify_ship_assembled assembled_ship_to_model send_each
tells_ship = refl
