-- ===== src/Scheduler/Completion.antt =====
-- internal/scheduler/order_state_scheduler.go: a tick in which the dice pick every order, over the
-- service of NewOrderStateService.
use mathlib.Core.List.{Permᴰ}
use mathlib.Core.Option
use ec_order_state_service.Prelude.{ℕ, ◌<◌, ◌≡◌, String, Option, List, length}
use ec_order_state_service.Prelude.Int.{pos}
use ec_order_state_service.Domain.Status.{OrderStatus}
use ec_order_state_service.Domain.Order.{Time, Order}
use ec_order_state_service.Domain.Failure.{Result}
use ec_order_state_service.Repository.Memory
use ec_order_state_service.Repository.Memory.{Orders, with_status}
use ec_order_state_service.Repository.Memory.Keys.{IsKeyed}
use ec_order_state_service.Service.Contract.{promote_status}
use ec_order_state_service.Service.Core.{get_orders_by_status}
use ec_order_state_service.Service.Mocks.{World}
use ec_order_state_service.Service.MemoryService.{statuses}
use ec_order_state_service.Scheduler.{OrderStateScheduler}
use ec_order_state_service.Scheduler.MemoryRun.{memory_scheduler}

-- Every order in the status `from` has got the status `to`, and no other order has changed its.
record IsPromoted (from to : OrderStatus) (w w' : World) : Type 0 where
  sees : (j : String) → statuses w' j ≡ promote_status to from (statuses w j)
  keyed : IsKeyed w'.orders
  same_size : length w'.orders ≡ length w.orders

module _ (tick : ℕ → Time) (range : Orders → List (String × Order))
    (meets : (orders : Orders) → Permᴰ (range orders) orders) (size : ℕ) (rand : World → ℕ × World)
    (sleep : ℕ → World → World) (rand_orders : (w : World) → (rand w).1.orders ≡ w.orders)
    (sleep_orders : (n : ℕ) (w : World) → (sleep n w).orders ≡ w.orders)
    (picked : (w : World) → (rand w).0 < 50) where
  abbrev scheduler : OrderStateScheduler World
  scheduler = memory_scheduler tick range meets size rand sleep rand_orders sleep_orders

  abbrev page_of : OrderStatus → World → Option (Result (List Order)) × World
  page_of status =
      get_orders_by_status scheduler.order_state_service status scheduler.batch_size (pos 0)

  -- The orders on the first page, which is the only one.
  abbrev listed : OrderStatus → World → List Order
  listed status w = with_status status (range w.orders)
