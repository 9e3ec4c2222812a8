-- ===== src/Service/Deps.antt =====
-- internal/service/order_state_service.go: what the service is made of. The struct's fields are
-- operations on the shared state `W`; the clock stands for `time.Now`.
use ec_order_state_service.Prelude.{ℕ, ◌||◌, String, Bool, false, Option, none, some, List}
use ec_order_state_service.Prelude.Text.{codes, to_lower, contains}
use ec_order_state_service.Domain.Status.{OrderStatus}
use ec_order_state_service.Domain.Order.{Clock}
use ec_order_state_service.Domain.Events.{OrderStatusChangedEvent}
use ec_order_state_service.Domain.Failure.{Error, error_text}
use ec_order_state_service.Repository.Interface.{OrderRepository}

-- The values of type `interface{}` that stand in the log's fields. The text of a duration is kept
-- as the duration.
pub data Value : Type 0 where
  text : String → Value
  status : OrderStatus → Value
  integer : ℕ → Value
  duration : ℕ → Value

pub record EventPublisher (W : Type 0) : Type 0 where
  pub publish_order_status_changed : OrderStatusChangedEvent → W → Option Error × W

pub record Logger (W : Type 0) : Type 0 where
  pub info : String → List Value → W → W
  pub error : String → Option Error → List Value → W → W
  pub warn : String → List Value → W → W

pub record OrderStateService (W : Type 0) : Type 0 where
  pub order_repo : OrderRepository W
  pub event_publisher : EventPublisher W
  pub logger : Logger W
  pub clock : Clock W

unfoldable pub is_duplicate_key_error : Option Error → Bool
is_duplicate_key_error none = false
is_duplicate_key_error (some e) =
    let text = to_lower (codes (error_text e)) in
    contains text (codes "duplicate key")
    || (contains text (codes "23505") || contains text (codes "unique constraint"))

unfoldable pub is_deadlock_or_conflict_error : Option Error → Bool
is_deadlock_or_conflict_error none = false
is_deadlock_or_conflict_error (some e) =
    let text = to_lower (codes (error_text e)) in
    contains text (codes "deadlock")
    || (contains text (codes "40001") || contains text (codes "could not serialize"))
