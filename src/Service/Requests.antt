-- ===== src/Service/Requests.antt =====
-- internal/service/order_state_service.go: the methods that change orders, one after the other.
use ec_order_state_service.Prelude.{
  ◌≡◌, refl, String, true, Option, List, [], ◌∷◌, inl, inr, Option-cases,
}
use ec_order_state_service.Domain.Status.{OrderStatus, can_transition_to}
use ec_order_state_service.Domain.Events.{
  OrderCreatedEvent, PaymentCompletedEvent, ShipmentStartedEvent, PackageArrivedAtPickupStoreEvent,
  PackagePickedUpEvent,
}
use ec_order_state_service.Domain.Failure.{Error}
use ec_order_state_service.Service.Deps.{OrderStateService}
use ec_order_state_service.Service.Contract.{Meaning, Quiet, ◌⨟◌, IsLawful}
use ec_order_state_service.Service.Core.{
  handle_order_created, handle_shipment_started, handle_package_arrived_at_pickup_store,
  handle_package_picked_up, update_order_status, batch_update_order_status, publish_all,
}
use ec_order_state_service.Service.Core.Payments.{handle_payment_completed}
use ec_order_state_service.Service.Payment.{pay-Step, publish_or_log-keeps}
use ec_order_state_service.Service.Progress.{
  Progress, Progress-trans, Quiet-Progress, Step-Progress, Promotes-Progress,
}

pub data Request : Type 0 where
  order_created : OrderCreatedEvent → Request
  payment_completed : PaymentCompletedEvent → Request
  shipment_started : ShipmentStartedEvent → Request
  package_arrived : PackageArrivedAtPickupStoreEvent → Request
  package_picked_up : PackagePickedUpEvent → Request
  set_status : String → OrderStatus → Request
  batch : List String → OrderStatus → OrderStatus → Request

-- BatchUpdateOrderStatus does not ask CanTransitionTo: its callers have to.
abbrev pub IsAllowed : Request → Type 0
IsAllowed (batch ids from to) = can_transition_to from to ≡ true
IsAllowed _ = Unit {0}

abbrev pub AllAllowed : List Request → Type 0
AllAllowed [] = Unit {0}
AllAllowed (r ∷ rs) = IsAllowed r × AllAllowed rs

module _ {W : Type 0} (s : OrderStateService W) where
  unfoldable pub perform : Request → W → Option Error × W
  perform (order_created e) = handle_order_created s e
  perform (payment_completed e) = handle_payment_completed s e
  perform (shipment_started e) = handle_shipment_started s e
  perform (package_arrived e) = handle_package_arrived_at_pickup_store s e
  perform (package_picked_up e) = handle_package_picked_up s e
  perform (set_status id status) = update_order_status s id status
  perform (batch ids from to) = batch_update_order_status s ids from to

  unfoldable pub perform_all : List Request → W → W
  perform_all [] w = w
  perform_all (r ∷ rs) w = perform_all rs (perform r w).1

module _ {W : Type 0} (s : OrderStateService W) (m : Meaning W) (L : IsLawful s m) where
  publish_all-keeps :
      (ids : List String) (from to : OrderStatus) (w : W) → Quiet m w (publish_all s ids from to w)
  unfolding publish_all
  publish_all-keeps [] from to w = record { sees = refl; stays = λ h. h }
  publish_all-keeps (id ∷ ids) from to w =
      publish_all-keeps ids from to _ ⨟ publish_or_log-keeps s m L id from to w

  pub handle_payment_completed-Progress :
      (event : PaymentCompletedEvent) (w : W)
      → m.Valid w
      → Progress m w (handle_payment_completed s event w).1
  unfolding handle_payment_completed
  handle_payment_completed-Progress event w valid =
      let (start, w1) = s.clock w in
      let first : Quiet m w w1 = L.clock_keeps w in
      Progress-trans (Quiet-Progress first) (
        Progress-trans (Step-Progress (pay-Step s m L event.order_id w1 (first.stays valid)))
          (Quiet-Progress (L.info_keeps _ _ _ ⨟ L.clock_keeps _)))

  pub batch_update_order_status-Progress :
      (ids : List String) (from to : OrderStatus) (w : W)
      → can_transition_to from to ≡ true
      → Progress m w (batch_update_order_status s ids from to w).1
  unfolding batch_update_order_status
  batch_update_order_status-Progress [] from to w good =
      Quiet-Progress (record { sees = refl; stays = λ h. h })
  batch_update_order_status-Progress (id ∷ ids) from to w good =
      elim (Option-cases (s.order_repo.batch_update_order_status (id ∷ ids) to from w).0) [
        | inl done ↦
            rw (done, batch_update_order_status)
              (Progress-trans (Promotes-Progress (L.batch_done (id ∷ ids) to from w done) good)
                (Quiet-Progress (L.info_keeps _ _ _ ⨟ publish_all-keeps (id ∷ ids) from to _)))
        | inr (e, failed) ↦
            rw (failed, batch_update_order_status)
              (Quiet-Progress
                (L.error_keeps _ _ _ _ ⨟ L.batch_failed (id ∷ ids) to from w e failed))
      ]
