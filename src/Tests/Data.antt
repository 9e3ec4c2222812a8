-- ===== src/Tests/Data.antt =====
-- A small shop for the tests.
use mathlib.Core.List.{Permᴰ}
use mathlib.Core.List.Permᴰ as PermD
use ec_order_state_service.Prelude.{ℕ, ◌+◌, refl, String, List, [], ◌∷◌}
use ec_order_state_service.Domain.Status.{created, waiting_for_shipment}
use ec_order_state_service.Domain.Order.{Time, Order}
use ec_order_state_service.Repository.Memory.{Orders}
use ec_order_state_service.Repository.Memory.Keys.{IsKeyed}
use ec_order_state_service.Service.Deps.{OrderStateService}
use ec_order_state_service.Service.Mocks.{World, new_order_state_service}

abbrev pub tick : ℕ → Time
tick n = 1000 + n

abbrev pub in_order : Orders → List (String × Order)
in_order orders = orders

pub in_order-meets : (orders : Orders) → Permᴰ (in_order orders) orders
in_order-meets orders = PermD.refl orders

abbrev pub new_order : Order
new_order = record { id = "A"; status = created; created_at = 1; updated_at = 1 }

abbrev pub paid_order : Order
paid_order = record { id = "B"; status = waiting_for_shipment; created_at = 2; updated_at = 3 }

abbrev pub shop : World
shop = record {
  orders = ("A", new_order) ∷ ("B", paid_order) ∷ [];
  events = [];
  logs = [];
  reads = 0;
}

pub shop-IsKeyed : IsKeyed shop.orders
shop-IsKeyed = (refl, refl, (refl, refl, tt))

abbrev pub shop_service : OrderStateService World
shop_service = new_order_state_service tick in_order
