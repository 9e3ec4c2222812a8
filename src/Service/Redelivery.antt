-- ===== src/Service/Redelivery.antt =====
-- internal/service/order_state_service.go: the payment of one order delivered twice to the service
-- of NewOrderStateService.
use mathlib.Core.Path.{fun_ext}
use mathlib.Core.List.{Permᴰ, append-nil}
use ec_order_state_service.Prelude.{
  ℕ, ◌≡◌, refl, ◌∙◌, String, ◌==◌, eq_iff, eq_refl, Option, none, some, List, [], inl, inr,
  Bool-cases,
}
use ec_order_state_service.Domain.Status.{OrderStatus, created}
use ec_order_state_service.Domain.Order.{Time, Order}
use ec_order_state_service.Domain.Events.{PaymentCompletedEvent}
use ec_order_state_service.Repository.Memory.{Orders}
use ec_order_state_service.Repository.Memory.Keys.{IsKeyed}
use ec_order_state_service.Service.Core.Payments.{handle_payment_completed}
use ec_order_state_service.Service.Requests.{handle_payment_completed-Progress}
use ec_order_state_service.Service.Mocks.{World, new_order_state_service}
use ec_order_state_service.Service.MemoryService.{
  statuses, world_meaning, new_order_state_service-IsLawful,
}
use ec_order_state_service.Service.MemoryPayment.{
  paid, announced, changes, handle_payment_completed-Pays,
}

paid-paid : (s : Option OrderStatus) → paid (paid s) ≡ paid s
paid-paid none = refl
paid-paid (some s) = elim (Bool-cases (s == created)) [
  | inl new ↦ rw new
  | inr other ↦ rw (other, other)
]

announced-paid : (id : String) (s : Option OrderStatus) → announced id (paid s) ≡ []
announced-paid id none = refl
announced-paid id (some s) = elim (Bool-cases (s == created)) [
  | inl new ↦ rw new
  | inr other ↦ rw (other, other)
]

module _ (tick : ℕ → Time) (range : Orders → List (String × Order))
    (meets : (orders : Orders) → Permᴰ (range orders) orders) where
  -- On the service of NewOrderStateService, from any state whose orders stand under their
  -- own ids, a second HandlePaymentCompleted for the same order, with any timestamp, changes
  -- no order's status and publishes nothing.
  pub handle_payment_completed-twice :
      (first again : PaymentCompletedEvent) (w : World)
      → IsKeyed w.orders
      → again.order_id ≡ first.order_id
      → (statuses
            (handle_payment_completed
              (new_order_state_service tick range)
              again
              (handle_payment_completed (new_order_state_service tick range) first w).1).1
          ≡ statuses (handle_payment_completed (new_order_state_service tick range) first w).1)
        × (changes
              (handle_payment_completed
                (new_order_state_service tick range)
                again
                (handle_payment_completed (new_order_state_service tick range) first w).1).1
            ≡ changes (handle_payment_completed (new_order_state_service tick range) first w).1)
  handle_payment_completed-twice first again w valid same_order =
      let service = new_order_state_service tick range in
      let w1 = (handle_payment_completed service first w).1 in
      let lawful = new_order_state_service-IsLawful tick range meets in
      let p = handle_payment_completed-Pays tick range first w valid in
      let valid1 : IsKeyed w1.orders =
        (handle_payment_completed-Progress service world_meaning lawful first w valid).stays
          valid in
      let q = handle_payment_completed-Pays tick range again w1 valid1 in
      let is_paid : statuses w1 first.order_id ≡ paid (statuses w first.order_id) =
        p.sees first.order_id ∙ rw eq_refl in
      (
        fun_ext λ j. elim (Bool-cases (first.order_id == j)) [
          | inl own ↦
              rw (← (eq_iff first.order_id j).0 own)
                (q.sees first.order_id ∙ rw (same_order, eq_refl, is_paid, paid-paid))
          | inr other ↦ q.sees j ∙ rw (same_order, other)
        ],
        q.tells ∙ rw (same_order, is_paid, announced-paid) (append-nil _),
      )
