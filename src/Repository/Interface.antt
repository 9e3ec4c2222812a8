-- ===== src/Repository/Interface.antt =====
-- internal/repository/order_repository.go: the interface `OrderRepository`, as a record of
-- operations on a state `W` that holds all that the program shares. A pointer to an order is the
-- order: both implementations hand out copies and keep copies.
use ec_order_state_service.Prelude.{String, Option, List}
use ec_order_state_service.Prelude.Int.{ℤ}
use ec_order_state_service.Domain.Status.{OrderStatus}
use ec_order_state_service.Domain.Order.{Order}
use ec_order_state_service.Domain.Failure.{Error, Result}

pub record OrderRepository (W : Type 0) : Type 0 where
  pub get_by_id : String → W → Result Order × W
  pub save : Order → W → Option Error × W
  -- status, limit, offset; `none` is a run-time panic
  pub get_orders_by_status : OrderStatus → ℤ → ℤ → W → Option (Result (List Order)) × W
  -- ids, new status, status that an order must have
  pub batch_update_order_status : List String → OrderStatus → OrderStatus → W → Option Error × W
