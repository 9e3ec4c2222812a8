-- ===== src/Service/Mocks.antt =====
-- internal/service/order_state_service.go: MockEventPublisher and MockLogger, which the server uses
-- too, and the service of `NewOrderStateService`, over a world that holds what they keep.
use ec_order_state_service.Prelude.{ℕ, ◌+◌, String, Option, none, some, List, [], ◌∷◌, ◌++◌}
use ec_order_state_service.Prelude.Dict.{Dict, insert}
use ec_order_state_service.Domain.Order.{Time, Order, Clock}
use ec_order_state_service.Domain.Events.{OrderStatusChangedEvent}
use ec_order_state_service.Domain.Failure.{Error, error_text}
use ec_order_state_service.Repository.Interface.{OrderRepository}
use ec_order_state_service.Repository.Memory
use ec_order_state_service.Repository.Memory.{Orders}
use ec_order_state_service.Service.Deps.{Value, text, EventPublisher, Logger, OrderStateService}

-- MockEventPublisher
abbrev pub PublishedEvents : Type 0
PublishedEvents = List OrderStatusChangedEvent

unfoldable pub publish_order_status_changed :
    OrderStatusChangedEvent → PublishedEvents → Option Error × PublishedEvents
publish_order_status_changed event events = (none, events ++ (event ∷ []))

abbrev pub clear_events : PublishedEvents → PublishedEvents
clear_events _ = []

pub record LogEntry : Type 0 where
  pub level : String
  pub message : String
  pub fields : Dict Value

-- MockLogger
abbrev pub Logs : Type 0
Logs = List LogEntry

-- The loop of parseFields takes the fields two by two; a key that is no `string` is passed over, as
-- is a last field that stands alone.
unfoldable pub parse_fields : List Value → Dict Value → Dict Value
parse_fields (text key ∷ value ∷ fields) result = parse_fields fields (insert key value result)
parse_fields (_ ∷ _ ∷ fields) result = parse_fields fields result
parse_fields _ result = result

unfoldable pub log_info : String → List Value → Logs → Logs
unfolding parse_fields
log_info msg fields logs =
    logs ++ (record { level = "INFO"; message = msg; fields = parse_fields fields [] } ∷ [])

unfoldable pub log_error : String → Option Error → List Value → Logs → Logs
unfolding parse_fields error_text
log_error msg e fields logs =
    let parsed = parse_fields fields [] in
    let parsed' : Dict Value = elim e [
      | none ↦ parsed
      | some e' ↦ insert "error" (text (error_text e')) parsed
    ] in
    logs ++ (record { level = "ERROR"; message = msg; fields = parsed' } ∷ [])

unfoldable pub log_warn : String → List Value → Logs → Logs
unfolding parse_fields
log_warn msg fields logs =
    logs ++ (record { level = "WARN"; message = msg; fields = parse_fields fields [] } ∷ [])

-- All that the service of `NewOrderStateService` keeps; `reads` counts the readings of the clock.
pub record World : Type 0 where
  pub orders : Orders
  pub events : PublishedEvents
  pub logs : Logs
  pub reads : ℕ

-- An operation on the map of orders, run on the world.
abbrev on_orders : {A : Type 0} → (Orders → A × Orders) → World → A × World
on_orders f w = let (a, orders) = f w.orders in (a, record w { orders = orders })

-- `tick n` is the n-th reading of the clock, `range` the order in which a loop meets the entries.
module _ (tick : ℕ → Time) (range : Orders → List (String × Order)) where
  abbrev pub world_clock : Clock World
  world_clock w = (tick w.reads, record w { reads = w.reads + 1 })

  abbrev pub memory_repository : OrderRepository World
  memory_repository = record {
    get_by_id = λ id. on_orders (Memory.get_by_id id);
    save = λ o. on_orders (Memory.save o);
    get_orders_by_status =
        λ status limit offset. on_orders (Memory.get_orders_by_status range status limit offset);
    batch_update_order_status =
        λ ids new from. on_orders (λ orders. (none, Memory.batch_update ids new from orders));
  }

  abbrev pub mock_event_publisher : EventPublisher World
  mock_event_publisher = record {
    publish_order_status_changed = λ event w.
        let (e, events) = publish_order_status_changed event w.events in
        (e, record w { events = events });
  }

  abbrev pub mock_logger : Logger World
  mock_logger = record {
    info = λ msg fields w. record w { logs = log_info msg fields w.logs };
    error = λ msg e fields w. record w { logs = log_error msg e fields w.logs };
    warn = λ msg fields w. record w { logs = log_warn msg fields w.logs };
  }

  -- NewOrderStateService
  abbrev pub new_order_state_service : OrderStateService World
  new_order_state_service = record {
    order_repo = memory_repository;
    event_publisher = mock_event_publisher;
    logger = mock_logger;
    clock = world_clock;
  }
