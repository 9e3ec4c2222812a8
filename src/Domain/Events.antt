-- ===== src/Domain/Events.antt =====
-- internal/domain/events.go. Each constructor reads the clock for its timestamp.
use ec_order_state_service.Prelude.{String}
use ec_order_state_service.Domain.Status.{OrderStatus}
use ec_order_state_service.Domain.Order.{Time, Clock}

pub record OrderCreatedEvent : Type 0 where
  pub order_id : String
  pub timestamp : Time

pub record PaymentCompletedEvent : Type 0 where
  pub order_id : String
  pub timestamp : Time

pub record ShipmentStartedEvent : Type 0 where
  pub order_id : String
  pub tracking_number : String
  pub timestamp : Time

pub record PackageArrivedAtPickupStoreEvent : Type 0 where
  pub order_id : String
  pub store_id : String
  pub timestamp : Time

pub record PackagePickedUpEvent : Type 0 where
  pub order_id : String
  pub picked_up_at : Time
  pub timestamp : Time

pub record OrderStatusChangedEvent : Type 0 where
  pub order_id : String
  pub from_status : OrderStatus
  pub to_status : OrderStatus
  pub timestamp : Time

-- The interface `Event`, with one constructor for each type that implements it.
pub data Event : Type 0 where
  order_created : OrderCreatedEvent → Event
  payment_completed : PaymentCompletedEvent → Event
  shipment_started : ShipmentStartedEvent → Event
  package_arrived : PackageArrivedAtPickupStoreEvent → Event
  package_picked_up : PackagePickedUpEvent → Event
  order_status_changed : OrderStatusChangedEvent → Event

unfoldable pub event_type : Event → String
event_type (order_created _) = "OrderCreated"
event_type (payment_completed _) = "PaymentCompleted"
event_type (shipment_started _) = "ShipmentStarted"
event_type (package_arrived _) = "PackageArrivedAtPickupStore"
event_type (package_picked_up _) = "PackagePickedUp"
event_type (order_status_changed _) = "OrderStatusChanged"

module _ {W : Type 0} (now : Clock W) where
  unfoldable pub new_order_created_event : String → W → OrderCreatedEvent × W
  new_order_created_event id w =
      let (t, w') = now w in (record { order_id = id; timestamp = t }, w')

  unfoldable pub new_payment_completed_event : String → W → PaymentCompletedEvent × W
  new_payment_completed_event id w =
      let (t, w') = now w in (record { order_id = id; timestamp = t }, w')

  unfoldable pub new_shipment_started_event : String → String → W → ShipmentStartedEvent × W
  new_shipment_started_event id tracking w =
      let (t, w') = now w in
      (record { order_id = id; tracking_number = tracking; timestamp = t }, w')

  unfoldable pub new_package_arrived_event :
      String → String → W → PackageArrivedAtPickupStoreEvent × W
  new_package_arrived_event id store w =
      let (t, w') = now w in (record { order_id = id; store_id = store; timestamp = t }, w')

  unfoldable pub new_package_picked_up_event : String → Time → W → PackagePickedUpEvent × W
  new_package_picked_up_event id picked w =
      let (t, w') = now w in (record { order_id = id; picked_up_at = picked; timestamp = t }, w')

  unfoldable pub new_order_status_changed_event :
      String → OrderStatus → OrderStatus → W → OrderStatusChangedEvent × W
  new_order_status_changed_event id from to w =
      let (t, w') = now w in
      (record { order_id = id; from_status = from; to_status = to; timestamp = t }, w')
