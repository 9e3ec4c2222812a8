-- ===== src/Tests/Pages.antt =====
-- A pass of the scheduler over two orders in pages of one, where the dice pick every order.
use ec_order_state_service.Prelude.{ℕ, ◌≡◌, refl, some, [], ◌∷◌}
use ec_order_state_service.Prelude.Int.{int64, ◌+ℤ◌}
use ec_order_state_service.Domain.Status.{in_transit, wait_pickup}
use ec_order_state_service.Domain.Events.{new_order_status_changed_event}
use ec_order_state_service.Repository.Memory
use ec_order_state_service.Service.Core.{batch_update_order_status}
use ec_order_state_service.Service.Mocks.{World, publish_order_status_changed}
use ec_order_state_service.Service.MemoryService.{statuses}
use ec_order_state_service.Scheduler.{
  OrderStateScheduler, Outcome, finished, panicked, out_of_fuel, process_status_transition,
}
use ec_order_state_service.Scheduler.MemoryRun.{memory_scheduler}
use ec_order_state_service.Tests.Data.{tick, in_order, in_order-meets}

abbrev on_the_way : World
on_the_way = record {
  orders =
      ("1", record { id = "1"; status = in_transit; created_at = 1; updated_at = 1 })
      ∷ ("2", record { id = "2"; status = in_transit; created_at = 2; updated_at = 2 })
      ∷ [];
  events = [];
  logs = [];
  reads = 0;
}

abbrev always : World → ℕ × World
always w = (0, w)

abbrev at_once : ℕ → World → World
at_once n w = w

abbrev one_by_one : OrderStateScheduler World
one_by_one =
    memory_scheduler tick in_order in_order-meets 0 always at_once (λ w. refl) (λ n w. refl)

abbrev world_after : Outcome World → World
world_after (finished _ _ w) = w
world_after panicked = on_the_way
world_after out_of_fuel = on_the_way

-- The second order is passed over: the first has left the pages when the offset moves on.
passed_over :
    (statuses
        (world_after (process_status_transition one_by_one 5 in_transit wait_pickup on_the_way))
        "1"
      ≡ some wait_pickup)
    × (statuses
          (world_after (process_status_transition one_by_one 5 in_transit wait_pickup on_the_way))
          "2"
        ≡ some in_transit)
unfolding process_status_transition Memory.get_orders_by_status Memory.page Memory.with_status int64
    ◌+ℤ◌ batch_update_order_status publish_order_status_changed new_order_status_changed_event
    Memory.batch_update
passed_over = (refl, refl)
