-- ===== src/Order/InMemory.antt =====
-- A concrete environment of the order service for examples: a table in memory, an inventory that
-- lists the parts that it is given, and a payment service that always accepts.
use rocket_maintenance.Common.{
  ℕ, zero, suc, ◌+◌, ◌≡◌, ◌≢◌, ◌⊎◌, inl, inr, refl, ap, String, List, ◌∷◌, Option, none, some, ok,
  err, Result, ◌==◌, Option-cases, if◌then◌else◌, arith, ◌<◌,
}
use rocket_maintenance.Common.Uuids.{Uuid, UuidLib}
use rocket_maintenance.Order.Model.{Order, PaidOrder}
use rocket_maintenance.Order.Part.{Part}
use rocket_maintenance.Order.Ports.{Service}
use rocket_maintenance.Order.Repository.{repository}
use rocket_maintenance.Order.Repository.Database.{
  Columns, SetMap, DbError, no_rows, Engine, inserted, updated,
}

pub record World : Type 0 where
  pub rows : Uuid → Option Columns
  pub next : Uuid
  pub parts : List Part
  pub sent : List PaidOrder

abbrev pub as_row : Uuid → Option Columns → Option Order
as_row id none = none
as_row id (some c) = some (inserted id c)

abbrev pub columns_of : Order → Columns
columns_of o = record {
  user_id = o.user_id;
  part_ids = o.part_ids;
  total_price = o.total_price;
  transaction_id = o.transaction_id;
  payment_method = o.payment_method;
  status = o.status;
}

abbrev pub row : World → Uuid → Option Order
row w id = as_row id (w.rows id)

abbrev pub put : World → Uuid → Columns → World
put w id c = record w { rows = λ k. if k == id then some c else w.rows k }

abbrev pub insert : Columns → World → Result DbError Uuid × World
insert c w = elim (w.rows w.next) [
  | none ↦ (ok w.next, record (put w w.next c) { next = w.next + 1 })
  | some _ ↦ (err no_rows, w)
]

abbrev pub select : Uuid → World → Result DbError Order × World
select id w = elim (row w id) [ none ↦ (err no_rows, w) | some o ↦ (ok o, w) ]

abbrev pub exec_update : SetMap → Uuid → World → Result DbError ℕ × World
exec_update s id w = elim (row w id) [
  | none ↦ (ok 0, w)
  | some o ↦ (ok 1, put w id (columns_of (updated s o)))
]

pub row_key : (w : World) (id : Uuid) (o : Order) → row w id ≡ some o → o.id ≡ id
row_key w id o h = ground arith

pub select_ok :
    (id : Uuid) (w w' : World) (o : Order) → select id w ≡ (ok o, w') → row w id ≡ some o
select_ok id w w' o h = ground arith

pub select_no_rows : (id : Uuid) (w w' : World) → select id w ≡ (err no_rows, w') → row w id ≡ none
select_no_rows id w w' h = ground arith

pub insert_ok :
    (c : Columns) (id : Uuid) (w w' : World)
    → insert c w ≡ (ok id, w')
    → (row w id ≡ none) × (row w' id ≡ some (inserted id c))
insert_ok c id w w' h = ground arith

pub insert_others :
    (c : Columns) (id k : Uuid) (w w' : World)
    → insert c w ≡ (ok id, w')
    → k ≢ id
    → row w' k ≡ row w k
insert_others c id k w w' h n = ground arith

pub insert_err :
    (c : Columns) (k : Uuid) (w w' : World) (e : DbError)
    → insert c w ≡ (err e, w')
    → (row w' k ≡ row w k) ⊎ ((row w k ≡ none) × (row w' k ≡ some (inserted k c)))
insert_err c k w w' e h = ground arith

pub update_none :
    (s : SetMap) (id : Uuid) (w w' : World) → exec_update s id w ≡ (ok 0, w') → row w' id ≡ row w id
update_none s id w w' h = ground arith

pub update_rows :
    (s : SetMap) (id : Uuid) (w w' : World) (n : ℕ)
    → exec_update s id w ≡ (ok n, w')
    → 0 < n
    → (old : Order) × (row w id ≡ some old) × (row w' id ≡ some (updated s old))
update_rows s id w w' n h p = elim (Option-cases (w.rows id)) [
  | inl missing ↦ absurd (ground arith)
  | inr (c, found) ↦ (inserted id c, ground arith, ground arith)
]

pub update_err :
    (s : SetMap) (id : Uuid) (w w' : World) (e : DbError)
    → exec_update s id w ≡ (err e, w')
    → (row w' id ≡ row w id)
      ⊎ ((old : Order) × (row w id ≡ some old) × (row w' id ≡ some (updated s old)))
update_err s id w w' e h = absurd (ground arith)

pub update_others :
    (s : SetMap) (id k : Uuid) (w : World) → k ≢ id → row (exec_update s id w).1 k ≡ row w k
update_others s id k w n = ground arith

abbrev pub engine : Engine World
engine = record {
  row = row;
  insert = insert;
  select = select;
  exec_update = exec_update;
  row_key = row_key;
  select_ok = select_ok;
  select_no_rows = select_no_rows;
  insert_ok = insert_ok;
  insert_others = insert_others;
  insert_err = insert_err;
  update_none = update_none;
  update_rows = update_rows;
  update_err = update_err;
  update_others = update_others;
}

-- A UUID is printed in unary.
abbrev pub print : Uuid → String
print zero = ""
print (suc n) = String.◌∷◌ "1" (print n)

abbrev pub count : String → ℕ
count String.[] = 0
count (String.◌∷◌ _ s) = suc (count s)

count-print : (u : Uuid) → count (print u) ≡ u
count-print zero = refl
count-print (suc n) = ap suc (count-print n)

pub parse-print : (u : Uuid) → ◌≡◌ {A = Result String Uuid} (ok (count (print u))) (ok u)
parse-print u = ap ok (count-print u)

abbrev pub uuids : UuidLib World
uuids = record {
  to_string = print;
  parse = λ s. ok (count s);
  random = λ w. (w.next, record w { next = w.next + 1 });
  parse-to_string = parse-print;
}

abbrev pub service : Service World
service = record {
  repo = repository engine;
  inventory = record { list_parts = λ _ w. (ok w.parts, w) };
  payment = record { pay_order = λ _ w. (ok "1111111", w) };
  producer = record { send_order_paid = λ e w. (ok tt, record w { sent = e ∷ w.sent }) };
  uuids = uuids;
}
