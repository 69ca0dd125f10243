-- ===== src/Order/Lifecycle/Traces.antt =====
-- What holds of an order over every sequence of requests.
use rocket_maintenance.Common.{
  ◌≡◌, ◌≢◌, ◌⊎◌, inl, inr, refl, ◌∙◌, Option, none, some, List, [], ◌∷◌, arith,
}
use rocket_maintenance.Common.Uuids.{Uuid}
use rocket_maintenance.Order.Model.{Order, pending_payment, paid, completed}
use rocket_maintenance.Order.Ports.{Service}
use rocket_maintenance.Order.Table.{OrderTable}
use rocket_maintenance.Order.Lifecycle.{
  Request, SameGoods, HasPayment, Move, same, opened, settled, dropped, finished, Quiet, handle,
  handle_all,
}
use rocket_maintenance.Order.Lifecycle.Moves.{handle-Move}

pub SameGoods-refl : (o : Order) → SameGoods o o
SameGoods-refl o = record { user_id = refl; part_ids = refl; total_price = refl }

pub SameGoods-trans : {a b c : Order} → SameGoods a b → SameGoods b c → SameGoods a c
SameGoods-trans g h = record {
  user_id = h.user_id ∙ g.user_id;
  part_ids = h.part_ids ∙ g.part_ids;
  total_price = h.total_price ∙ g.total_price;
}

-- A row behind a stored order that is past its payment.
abbrev pub Kept : Order → Option Order → Type 0
Kept o b =
    (o' : Order) × (b ≡ some o')
    × SameGoods o o'
    × (o'.transaction_id ≡ o.transaction_id)
    × ((o'.status ≡ o.status) ⊎ (o'.status ≡ completed))

Move-Kept :
    (o : Order) (a b : Option Order) → a ≡ some o → o.status ≢ pending_payment → Move a b → Kept o b
Move-Kept o a b h n (same e) = (o, e ∙ h, SameGoods-refl o, refl, inl refl)
Move-Kept o a b h n (opened p e f s x) = absurd (ground arith)
Move-Kept o a b h n (settled p p' e f s s' x g) = absurd (n (ground arith))
Move-Kept o a b h n (dropped p p' e f s s' g) = absurd (n (ground arith))
Move-Kept o a b h n (finished p p' e f s x g) =
    let it : p ≡ o = ground arith in (p', f, ground arith, ground arith, inr s)

-- The table's rows: what is paid has its payment on record, what is pending has none.
pub record IsSound (o : Order) : Type 0 where
  pub paid_has_payment : o.status ≡ paid → HasPayment o
  pub pending_has_none : o.status ≡ pending_payment → o.transaction_id ≡ none

abbrev pub RowIsSound : Option Order → Type 0
RowIsSound none = Unit
RowIsSound (some o) = IsSound o

Move-RowIsSound : (a b : Option Order) → RowIsSound a → Move a b → RowIsSound b
Move-RowIsSound a b v (same e) = rw e v
Move-RowIsSound a b v (opened o e f s x) =
    rw f (record { paid_has_payment = λ p. absurd (ground arith); pending_has_none = λ _. x })
Move-RowIsSound a b v (settled o o' e f s s' x g) =
    rw f (record { paid_has_payment = λ _. x; pending_has_none = λ p. absurd (ground arith) })
Move-RowIsSound a b v (dropped o o' e f s s' g) = rw f (record {
  paid_has_payment = λ p. absurd (ground arith);
  pending_has_none = λ p. absurd (ground arith);
})
Move-RowIsSound a b v (finished o o' e f s x g) = rw f (record {
  paid_has_payment = λ p. absurd (ground arith);
  pending_has_none = λ p. absurd (ground arith);
})

module _ {W : Type 0} (svc : Service W) (t : OrderTable svc.repo) (q : Quiet svc t) where
  -- If nothing else writes to the table while a request runs, an order that is paid, cancelled or
  -- completed keeps its goods and its transaction over every sequence of requests, and its status
  -- too unless it becomes completed.
  pub handle_all-Kept :
      (rs : List Request) (k : Uuid) (o : Order) (w : W)
      → t.row w k ≡ some o
      → o.status ≢ pending_payment
      → Kept o (t.row (handle_all svc rs w) k)
  unfolding handle_all
  handle_all-Kept [] k o w h n = (o, h, SameGoods-refl o, refl, inl refl)
  handle_all-Kept (r ∷ rs) k o w h n =
      let (o₁, e₁, g₁, x₁, s₁) = Move-Kept o _ _ h n (handle-Move svc t q r k w) in
      let (o₂, e₂, g₂, x₂, s₂) = handle_all-Kept rs k o₁ (handle svc r w) e₁ (λ e. ground arith) in
      (o₂, e₂, SameGoods-trans g₁ g₂, x₂ ∙ x₁, ground arith)

  -- If nothing else writes to the table while a request runs and a row is sound, it is sound after
  -- any sequence of requests: a paid order has its transaction and its method on record, and a
  -- pending one has no transaction.
  pub handle_all-RowIsSound :
      (rs : List Request) (k : Uuid) (w : W)
      → RowIsSound (t.row w k)
      → RowIsSound (t.row (handle_all svc rs w) k)
  unfolding handle_all
  handle_all-RowIsSound [] k w h = h
  handle_all-RowIsSound (r ∷ rs) k w h =
      handle_all-RowIsSound rs k (handle svc r w)
        (Move-RowIsSound _ _ h (handle-Move svc t q r k w))
