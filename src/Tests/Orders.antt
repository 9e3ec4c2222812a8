-- ===== src/Tests/Orders.antt =====
-- The life of the orders in the shop.
use ec_order_state_service.Prelude.{
  ℕ, ◌≤◌, ◌≡◌, ◌≢◌, refl, ◌==◌, eq_iff, false, some, length, List, [], ◌∷◌, arith,
}
use ec_order_state_service.Prelude.Int.{pos}
use ec_order_state_service.Domain.Status.{
  OrderStatus, created, waiting_for_shipment, in_transit, wait_pickup, completed, refund, to_int,
  can_transition_to,
}
use ec_order_state_service.Domain.Lifecycle.{
  Journey, stay, move, steps, steps-le, status_of, Journey_at_rest, status_of-to_int,
}
use ec_order_state_service.Repository.Memory
use ec_order_state_service.Service.Mocks.{World, publish_order_status_changed}
use ec_order_state_service.Service.Core
use ec_order_state_service.Service.Core.Payments
use ec_order_state_service.Service.MemoryService.{statuses}
use ec_order_state_service.Prelude.Dict.{lookup}
use ec_order_state_service.Domain.Events.{PaymentCompletedEvent, new_order_status_changed_event}
use ec_order_state_service.Repository.Memory.Paging.{page_lem}
use ec_order_state_service.Repository.Memory.Laws.{lookup-batch_update}
use ec_order_state_service.Service.Contract.{IsLawful}
use ec_order_state_service.Service.MemoryService.{world_meaning, new_order_state_service-IsLawful}
use ec_order_state_service.Service.MemoryPayment.{Pays, changes, handle_payment_completed-Pays}
use ec_order_state_service.Service.Redelivery.{handle_payment_completed-twice}
use ec_order_state_service.Service.Progress.{Progress}
use ec_order_state_service.Service.Requests.{
  Request, payment_completed, shipment_started, package_picked_up, perform, perform_all,
}
use ec_order_state_service.Handler
use ec_order_state_service.Scheduler.{OrderStateScheduler, process_orders}
use ec_order_state_service.Scheduler.Termination.{Ends}
use ec_order_state_service.Scheduler.Progress.{IsQuiet, Advances, process_orders-Advances}
use ec_order_state_service.Scheduler.MemoryRun.{memory_scheduler, process_orders-finished}
use ec_order_state_service.Tests.Data.{
  shop, shop_service, shop-IsKeyed, new_order, paid_order, tick, in_order, in_order-meets,
}

whole_life : Journey created completed
unfolding can_transition_to
whole_life =
    move {t = waiting_for_shipment} refl
      (move {t = in_transit} refl (move {t = wait_pickup} refl (move refl stay)))

steps-le_example : steps whole_life ≤ 4
steps-le_example = steps-le whole_life

differs : (s : OrderStatus) → (refund == s) ≡ false → refund ≢ s
differs s h e = ground (arith, (eq_iff refund s).1 e)

refunded : Journey refund refund
refunded = stay

Journey_at_rest_example : refund ≡ refund
Journey_at_rest_example =
    Journey_at_rest refunded (differs created refl) (differs waiting_for_shipment refl)
      (differs in_transit refl) (differs wait_pickup refl)

status_of-to_int_example : status_of (to_int in_transit) ≡ in_transit
unfolding to_int
status_of-to_int_example = status_of-to_int in_transit (ground arith)

-- What is asked for in turn: the payment of "A", a payment of an order "C" that is not there, the
-- shipment of "B", an order picked up too early.
abbrev requests : List Request
requests =
    payment_completed (record { order_id = "A"; timestamp = 5 })
    ∷ payment_completed (record { order_id = "C"; timestamp = 6 })
    ∷ shipment_started (record { order_id = "B"; tracking_number = "T"; timestamp = 7 })
    ∷ package_picked_up (record { order_id = "A"; picked_up_at = 8; timestamp = 8 })
    ∷ []

-- The statuses after them.
after_requests :
    statuses (perform_all shop_service requests shop) "A" ≡ some waiting_for_shipment
    × statuses (perform_all shop_service requests shop) "B" ≡ some in_transit
    × statuses (perform_all shop_service requests shop) "C" ≡ some waiting_for_shipment
unfolding perform_all perform Payments.handle_payment_completed Core.handle_shipment_started
    Core.handle_package_picked_up Memory.get_by_id can_transition_to Memory.save
    publish_order_status_changed new_order_status_changed_event
after_requests = (refl, refl, refl)

new_order_state_service-IsLawful_example : IsLawful shop_service world_meaning
new_order_state_service-IsLawful_example =
    new_order_state_service-IsLawful tick in_order in_order-meets

abbrev payment : PaymentCompletedEvent
payment = record { order_id = "A"; timestamp = 5 }

handle_payment_completed-Pays_example :
    Pays "A" shop (Payments.handle_payment_completed shop_service payment shop)
handle_payment_completed-Pays_example =
    handle_payment_completed-Pays tick in_order payment shop shop-IsKeyed

abbrev payment_again : PaymentCompletedEvent
payment_again = record { order_id = "A"; timestamp = 9 }

abbrev after_payment : World
after_payment = (Payments.handle_payment_completed shop_service payment shop).1

handle_payment_completed-twice_example :
    (statuses (Payments.handle_payment_completed shop_service payment_again after_payment).1
      ≡ statuses after_payment)
    × (changes (Payments.handle_payment_completed shop_service payment_again after_payment).1
        ≡ changes after_payment)
handle_payment_completed-twice_example =
    handle_payment_completed-twice tick in_order in_order-meets payment payment_again shop
      shop-IsKeyed refl

page_lem_example :
    Memory.page (new_order ∷ paid_order ∷ []) (pos 1) (pos 1) ≡ some (paid_order ∷ [])
page_lem_example =
    page_lem (new_order ∷ paid_order ∷ []) (pos 1) (pos 1) (ground arith) (ground arith)

lookup-batch_update_example :
    lookup "B" (Memory.batch_update ("B" ∷ []) in_transit waiting_for_shipment shop.orders)
    ≡ some (record paid_order { status = in_transit })
lookup-batch_update_example =
    lookup-batch_update ("B" ∷ []) in_transit waiting_for_shipment shop.orders "B"

-- A die that always picks the order, and no waiting.
abbrev rand : World → ℕ × World
rand w = (0, w)

abbrev sleep : ℕ → World → World
sleep n w = w

abbrev shop_scheduler : OrderStateScheduler World
shop_scheduler =
    memory_scheduler tick in_order in_order-meets 0 rand sleep (λ w. refl) (λ n w. refl)

process_orders-finished_example :
    Ends (λ w. length w.orders ≡ 2) (process_orders shop_scheduler 5 shop)
process_orders-finished_example =
    process_orders-finished tick in_order in_order-meets 0 rand sleep (λ w. refl) (λ n w. refl) 5
      shop (ground arith) (ground arith) (ground arith)

shop_scheduler-IsQuiet : IsQuiet shop_scheduler world_meaning
shop_scheduler-IsQuiet = record {
  rand_keeps = λ w. record { sees = refl; stays = λ h. h };
  sleep_keeps = λ n w. record { sees = refl; stays = λ h. h };
}

process_orders-Advances_example : Advances world_meaning shop (process_orders shop_scheduler 5 shop)
process_orders-Advances_example =
    process_orders-Advances shop_scheduler world_meaning
      (new_order_state_service-IsLawful tick in_order in_order-meets) shop_scheduler-IsQuiet 5 shop
