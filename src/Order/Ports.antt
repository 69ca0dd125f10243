-- ===== src/Order/Ports.antt =====
-- The interfaces that the order service calls (order/internal/service/order/service.go), with what
-- its proofs rely on. `W` is the state outside: databases, other services, requests that run
-- meanwhile. A deadline that passes shows as an error of the call.
use rocket_maintenance.Common.{String, List, Action}
use rocket_maintenance.Common.Uuids.{Uuid, UuidLib}
use rocket_maintenance.Order.Model.{Order, PayOrderParams, PaidOrder, OrderError}
use rocket_maintenance.Order.Part.{Part, PartsFilter}

pub record OrderRepository (W : Type 0) : Type 0 where
  pub create : Order → Action W OrderError Uuid
  pub order_by_id : Uuid → Action W OrderError Order
  pub update : Order → Action W OrderError (Unit {0})

pub record InventoryClient (W : Type 0) : Type 0 where
  pub list_parts : PartsFilter → Action W OrderError (List Part)

pub record PaymentClient (W : Type 0) : Type 0 where
  pub pay_order : PayOrderParams → Action W OrderError String

pub record OrderPaidSender (W : Type 0) : Type 0 where
  pub send_order_paid : PaidOrder → Action W OrderError (Unit {0})

-- `type service struct`, less its two timeouts.
pub record Service (W : Type 0) : Type 0 where
  pub repo : OrderRepository W
  pub inventory : InventoryClient W
  pub payment : PaymentClient W
  pub producer : OrderPaidSender W
  pub uuids : UuidLib W
