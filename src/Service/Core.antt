-- ===== src/Service/Core.antt =====
-- internal/service/order_state_service.go: the methods of OrderStateService, with every call that
-- they make; HandlePaymentCompleted stands in the child. A method gives its error and the state that
-- it leaves.
pub mod Payments
use ec_order_state_service.Prelude.{
  ◌-◌, ◌==◌, String, Bool, Option, none, some, List, [], ◌∷◌, length, if◌then◌else◌,
}
use ec_order_state_service.Prelude.Int.{ℤ}
use ec_order_state_service.Domain.Status.{
  OrderStatus, created, waiting_for_shipment, in_transit, wait_pickup, completed, can_transition_to,
}
use ec_order_state_service.Domain.Order.{Order, update_status}
use ec_order_state_service.Domain.Events.{
  OrderCreatedEvent, PaymentCompletedEvent, ShipmentStartedEvent, PackageArrivedAtPickupStoreEvent,
  PackagePickedUpEvent, new_order_status_changed_event,
}
use ec_order_state_service.Domain.Failure.{
  Error, wrapped, wrapped_nil, as_not_found, Result, ok, err,
}
use ec_order_state_service.Service.Deps.{
  Value, text, status, integer, duration, OrderStateService, is_duplicate_key_error,
  is_deadlock_or_conflict_error,
}

module _ {W : Type 0} (s : OrderStateService W) where
  abbrev pub info : String → List Value → W → W
  info = s.logger.info

  abbrev pub error : String → Error → List Value → W → W
  error msg e = s.logger.error msg (some e)

  abbrev pub warn : String → List Value → W → W
  warn = s.logger.warn

  abbrev pub for_order : String → List Value
  for_order id = text "orderId" ∷ text id ∷ []

  abbrev pub from_to : OrderStatus → OrderStatus → List Value
  from_to from to = text "fromStatus" ∷ status from ∷ text "toStatus" ∷ status to ∷ []

  -- NewOrderStatusChangedEvent and PublishOrderStatusChanged.
  abbrev pub publish : String → OrderStatus → OrderStatus → W → Option Error × W
  publish id from to w =
      let (event, w') = new_order_status_changed_event s.clock id from to w in
      s.event_publisher.publish_order_status_changed event w'

  -- The same where a failure is written to the log.
  abbrev pub publish_or_log : String → OrderStatus → OrderStatus → W → W
  publish_or_log id from to w =
      let (e, w') = publish id from to w in
      elim e [ none ↦ w' | some e' ↦ error "發布狀態變更事件失敗" e' (for_order id) w' ]

  unfoldable pub handle_order_created : OrderCreatedEvent → W → Option Error × W
  handle_order_created event w = (
    none,
    info "Order created event received, order status remains Created" (for_order event.order_id) w,
  )

  -- Save, publish and `finish`, in the body that HandleShipmentStarted,
  -- HandlePackageArrivedAtPickupStore, HandlePackagePickedUp and UpdateOrderStatus share.
  unfoldable pub save_changed : OrderStatus → (OrderStatus → W → W) → Order → W → Option Error × W
  save_changed from finish order w =
      let (e, w') = s.order_repo.save order w in
      elim e [
        | some e' ↦ (some e', w')
        | none ↦ (none, finish from (publish order.id from order.status w').1)
      ]

  -- What follows `order.UpdateStatus(to)` in it.
  unfoldable pub after_update :
      String
      → OrderStatus
      → (OrderStatus → List Value)
      → (OrderStatus → W → W)
      → (Option Error × Order) × W
      → Option Error × W
  unfolding save_changed
  after_update id from refused finish ((some e, _), w) =
      (some e, error "invalid status transition" e (text "orderId" ∷ text id ∷ refused from) w)
  after_update id from refused finish ((none, order), w) = save_changed from finish order w

  -- The whole body: `refused` are the fields that the four add to the log of a refused transition,
  -- `finish` is what they do last. Both are given the status that was found.
  unfoldable pub change_status :
      String
      → OrderStatus
      → (OrderStatus → List Value)
      → (OrderStatus → W → W)
      → W
      → Option Error × W
  unfolding after_update update_status
  change_status id to refused finish w =
      let (r, w') = s.order_repo.get_by_id id w in
      elim r [
        | err e ↦ (some e, w')
        | ok order ↦ after_update id order.status refused finish (update_status s.clock to order w')
      ]

  unfoldable pub handle_shipment_started : ShipmentStartedEvent → W → Option Error × W
  unfolding change_status
  handle_shipment_started event = change_status event.order_id in_transit (λ _. []) (λ _ w. w)

  unfoldable pub handle_package_arrived_at_pickup_store :
      PackageArrivedAtPickupStoreEvent → W → Option Error × W
  unfolding change_status
  handle_package_arrived_at_pickup_store event =
      change_status event.order_id wait_pickup (λ _. []) (λ _ w. w)

  unfoldable pub handle_package_picked_up : PackagePickedUpEvent → W → Option Error × W
  unfolding change_status
  handle_package_picked_up event = change_status event.order_id completed (λ _. []) (λ _ w. w)

  unfoldable pub get_order : String → W → Result Order × W
  get_order = s.order_repo.get_by_id

  unfoldable pub check_status_transition : OrderStatus → OrderStatus → Bool
  check_status_transition = can_transition_to

  unfoldable pub update_order_status : String → OrderStatus → W → Option Error × W
  unfolding change_status
  update_order_status id new_status =
      change_status id new_status (λ from. from_to from new_status)
        (λ from. info "訂單狀態已更新" (text "orderId" ∷ text id ∷ from_to from new_status))

  unfoldable pub get_orders_by_status : OrderStatus → ℤ → ℤ → W → Option (Result (List Order)) × W
  get_orders_by_status = s.order_repo.get_orders_by_status

  -- The loop that publishes one event for each id.
  unfoldable pub publish_all : List String → OrderStatus → OrderStatus → W → W
  publish_all [] from to w = w
  publish_all (id ∷ ids) from to w = publish_all ids from to (publish_or_log id from to w)

  unfoldable pub batch_update_order_status :
      List String → OrderStatus → OrderStatus → W → Option Error × W
  unfolding publish_all
  batch_update_order_status [] from to w = (none, w)
  batch_update_order_status (id ∷ ids) from to w =
      let count = text "orderCount" ∷ integer (length (id ∷ ids)) ∷ from_to from to in
      let (e, w1) = s.order_repo.batch_update_order_status (id ∷ ids) to from w in
      elim e [
        | some e' ↦ (some e', error "批量更新訂單狀態失敗" e' count w1)
        | none ↦ (none, info "批量更新訂單狀態成功" count (publish_all (id ∷ ids) from to w1))
      ]
