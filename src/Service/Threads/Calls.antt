-- ===== src/Service/Threads/Calls.antt =====
-- internal/service/order_state_service.go: how many calls a method makes at most.
use ec_order_state_service.Prelude.{
  ℕ, zero, suc, ◌+◌, ◌*◌, ◌≤◌, String, ◌==◌, Option, none, some, List, [], ◌∷◌, length, arith, inl,
  inr, Bool-cases, Option-cases,
}
use ec_order_state_service.Domain.Failure.{Error, Result, as_not_found, ok, err}
use ec_order_state_service.Domain.Status.{OrderStatus, created, waiting_for_shipment}
use ec_order_state_service.Domain.Order.{Order}
use ec_order_state_service.Domain.Events.{PaymentCompletedEvent}
use ec_order_state_service.Service.Deps.{
  Value, OrderStateService, is_duplicate_key_error, is_deadlock_or_conflict_error,
}
use ec_order_state_service.Service.Requests.{
  Request, order_created, payment_completed, shipment_started, package_arrived, package_picked_up,
  set_status, batch,
}
use ec_order_state_service.Service.Threads.{
  Thread, done, call, act, publish, publish_or_log, save_changed, after_update, change_status,
  after_conflict, save_paid, after_paid, settle_payment, after_duplicate, create_paid, pay,
  and_then, handle_payment_completed, publish_all, batch_update_order_status, thread,
}

-- The thread returns after at most `n` calls, whatever they return.
pub data Within {W : Type 0} : ℕ → Thread W → Type 1 where
  ended : {n : ℕ} {e : Option Error} → Within n (done e)
  called :
      {n : ℕ} {A : Type 0} {f : W → A × W} {next : A → Thread W}
      → ((a : A) → Within n (next a))
      → Within (suc n) (call f next)

-- Something holds of the thread at a place.
pub Within-le : {W : Type 0} {n k : ℕ} {t : Thread W} → Within n t → n ≤ k → Within k t
Within-le ended h = ended
Within-le {k = zero} (called f) h = absurd (omega arith)
Within-le {k = suc k} (called f) h = called λ a. Within-le (f a) (omega arith)

module _ {W : Type 0} (s : OrderStateService W) where
  -- The calls that suffice for a request, whatever they return.
  abbrev pub calls : Request → ℕ
  calls (order_created event) = 1
  calls (payment_completed event) = 15
  calls (batch ids from to) = 2 + 3 * length ids
  calls r = 6

  act-Within : {n : ℕ} {f : W → W} {t : Thread W} → Within n t → Within (suc n) (act s f t)
  act-Within h = called (λ _. h)

  -- A call that returns an error or nil, and one that returns a value or an error.
  on_error-Within :
      {n : ℕ} {f : W → Option Error × W} {next : Option Error → Thread W}
      → Within n (next none)
      → ((e : Error) → Within n (next (some e)))
      → Within (suc n) (call f next)
  on_error-Within {n} {next = next} h k = called go
    where
      go : (e : Option Error) → Within n (next e)
      go none = h
      go (some e) = k e

  on_result-Within :
      {n : ℕ} {A : Type 0} {f : W → Result A × W} {next : Result A → Thread W}
      → ((e : Error) → Within n (next (err e)))
      → ((a : A) → Within n (next (ok a)))
      → Within (suc n) (call f next)
  on_result-Within {n} {A} {next = next} h k = called go
    where
      go : (r : Result A) → Within n (next r)
      go (err e) = h e
      go (ok a) = k a

  on_update-Within :
      {n : ℕ} {f : W → (Option Error × Order) × W} {next : Option Error × Order → Thread W}
      → ((e : Error) (o : Order) → Within n (next (some e, o)))
      → ((o : Order) → Within n (next (none, o)))
      → Within (suc n) (call f next)
  on_update-Within {n} {next = next} h k = called go
    where
      go : (r : Option Error × Order) → Within n (next r)
      go (none, o) = k o
      go (some e, o) = h e o

  publish_or_log-Within :
      {n : ℕ} (id : String) (from to : OrderStatus) {t : Thread W}
      → Within n t
      → Within (suc (suc (suc n))) (publish_or_log s id from to t)
  unfolding publish_or_log publish
  publish_or_log-Within id from to h =
      called λ _. on_error-Within (Within-le h (omega arith)) (λ e. act-Within h)

  save_changed-Within :
      (from : OrderStatus) (finish : OrderStatus → W → W) (o : Order)
      → Within 4 (save_changed s from finish o)
  unfolding save_changed publish
  save_changed-Within from finish o =
      on_error-Within (called λ _. called λ _. act-Within ended) (λ e. ended)

  change_status-Within :
      (id : String) (to : OrderStatus) (refused : OrderStatus → List Value)
      (finish : OrderStatus → W → W)
      → Within 6 (change_status s id to refused finish)
  unfolding change_status after_update
  change_status-Within id to refused finish =
      on_result-Within (λ e. ended)
        λ o.
          on_update-Within (λ e _. act-Within ended) (λ o'. save_changed-Within o.status finish o')

  after_conflict-Within : (id : String) → Within 3 (after_conflict s id)
  unfolding after_conflict
  after_conflict-Within id = act-Within (
      on_result-Within (λ e. act-Within ended)
        λ o. elim (Bool-cases (o.status == waiting_for_shipment)) [
          | inl paid ↦ rw paid (act-Within ended)
          | inr unpaid ↦ rw unpaid ended
        ])

  save_paid-Within :
      (id : String) (from : OrderStatus) (o : Order) → Within 5 (save_paid s id from o)
  unfolding save_paid
  save_paid-Within id from o =
      on_error-Within (publish_or_log-Within o.id from o.status (act-Within ended)) λ e.
        elim (Bool-cases (is_deadlock_or_conflict_error (some e))) [
          | inl conflict ↦ rw conflict (Within-le (after_conflict-Within id) (omega arith))
          | inr other ↦ rw other (act-Within ended)
        ]

  settle_payment-Within : (id : String) (o : Order) → Within 6 (settle_payment s id o)
  unfolding settle_payment after_paid
  settle_payment-Within id o = elim (Bool-cases (o.status == waiting_for_shipment)) [
    | inl paid ↦ rw (settle_payment, paid) (act-Within ended)
    | inr unpaid ↦ elim (Bool-cases (o.status == created)) [
      | inl new ↦
          rw (settle_payment, unpaid, new)
            (on_update-Within (λ e _. act-Within ended) (λ o'. save_paid-Within id o.status o'))
      | inr other ↦ rw (settle_payment, unpaid, other) (act-Within ended)
    ]
  ]

  create_paid-Within : (id : String) → Within 11 (create_paid s id)
  unfolding create_paid after_duplicate
  create_paid-Within id = act-Within (
      called λ now. on_error-Within (act-Within ended) λ e.
        elim (Bool-cases (is_duplicate_key_error (some e))) [
          | inl duplicate ↦
              rw duplicate
                (act-Within (on_result-Within (λ _. act-Within ended) (settle_payment-Within id)))
          | inr other ↦ rw other (act-Within ended)
        ])

  pay-Within : (id : String) → Within 12 (pay s id)
  unfolding pay
  pay-Within id =
      on_result-Within
        (λ e. elim (Option-cases (as_not_found e)) [
          | inl broken ↦ rw broken (act-Within ended)
          | inr (missing, found) ↦ rw found (create_paid-Within id)
        ])
        (λ o. Within-le (settle_payment-Within id o) (omega arith))

  and_then-Within :
      {n k : ℕ} {t : Thread W} {next : Option Error → Thread W}
      → Within n t
      → ((e : Option Error) → Within k (next e))
      → Within (n + k) (and_then s t next)
  unfolding and_then
  and_then-Within ended h = Within-le (h _) (omega arith)
  and_then-Within (called f) h = Within-le (called λ a. and_then-Within (f a) h) (omega arith)

  handle_payment_completed-Within :
      (event : PaymentCompletedEvent) → Within 15 (handle_payment_completed s event)
  unfolding handle_payment_completed
  handle_payment_completed-Within event = called λ _.
      and_then-Within {n = 12} {k = 2} (pay-Within event.order_id) λ e. called λ _. act-Within ended

  publish_all-Within :
      {n : ℕ} (ids : List String) (from to : OrderStatus) {t : Thread W}
      → Within n t
      → Within (n + 3 * length ids) (publish_all s ids from to t)
  unfolding publish_all
  publish_all-Within [] from to h = Within-le h (omega arith)
  publish_all-Within (id ∷ ids) from to h =
      Within-le (publish_or_log-Within id from to (publish_all-Within ids from to h)) (omega arith)

  batch_update_order_status-Within :
      (ids : List String) (from to : OrderStatus)
      → Within (2 + 3 * length ids) (batch_update_order_status s ids from to)
  unfolding batch_update_order_status
  batch_update_order_status-Within [] from to = ended
  batch_update_order_status-Within (id ∷ ids) from to =
      Within-le
        (on_error-Within {n = 1 + 3 * length (id ∷ ids)}
          (publish_all-Within (id ∷ ids) from to (act-Within ended))
          (λ e. Within-le (act-Within {n = 0} ended) (omega arith)))
        (omega arith)

  pub thread-Within : (r : Request) → Within (calls r) (thread s r)
  unfolding thread
  thread-Within (order_created event) = act-Within ended
  thread-Within (payment_completed event) = handle_payment_completed-Within event
  thread-Within (shipment_started event) = change_status-Within _ _ _ _
  thread-Within (package_arrived event) = change_status-Within _ _ _ _
  thread-Within (package_picked_up event) = change_status-Within _ _ _ _
  thread-Within (set_status id new_status) = change_status-Within _ _ _ _
  thread-Within (batch ids from to) = batch_update_order_status-Within ids from to
