-- ===== src/Service/Threads.antt =====
-- internal/service/order_state_service.go: the methods again, as the calls that a goroutine makes
-- one by one, between which other goroutines may run. The names are those of Service/Core.
pub mod Agree
pub mod Schedule
pub mod Safe
pub mod Safety
pub mod Interleaving
pub mod Calls
pub mod Answers
use ec_order_state_service.Prelude.{
  ◌-◌, ◌==◌, String, Option, none, some, List, [], ◌∷◌, length, if◌then◌else◌,
}
use ec_order_state_service.Domain.Status.{
  OrderStatus, created, waiting_for_shipment, in_transit, wait_pickup, completed,
}
use ec_order_state_service.Domain.Order.{Order, update_status}
use ec_order_state_service.Domain.Events.{PaymentCompletedEvent, new_order_status_changed_event}
use ec_order_state_service.Domain.Failure.{
  Error, wrapped, wrapped_nil, as_not_found, Result, ok, err,
}
use ec_order_state_service.Service.Deps.{
  Value, text, status, integer, duration, OrderStateService, is_duplicate_key_error,
  is_deadlock_or_conflict_error,
}
use ec_order_state_service.Service.Core.{info, error, warn, for_order, from_to}
use ec_order_state_service.Service.Requests.{
  Request, order_created, payment_completed, shipment_started, package_arrived, package_picked_up,
  set_status, batch,
}

-- What a goroutine has still to do: it has returned an error or nil, or makes a call and goes on
-- with what the call returns.
pub data Thread (W : Type 0) : Type 1 where
  done : Option Error → Thread W
  call : {A : Type 0} → (W → A × W) → (A → Thread W) → Thread W

-- All calls in a row, with no other goroutine between them.
unfoldable pub run : {W : Type 0} → Thread W → W → Option Error × W
run (done e) w = (e, w)
run (call f next) w = let (a, w') = f w in run (next a) w'

module _ {W : Type 0} (s : OrderStateService W) where
  -- A call that returns nothing.
  abbrev pub act : (W → W) → Thread W → Thread W
  act f t = call {A = Unit {0}} (λ w. (tt, f w)) (λ _. t)

  unfoldable pub publish : String → OrderStatus → OrderStatus → (Option Error → Thread W) → Thread W
  publish id from to next =
      call (new_order_status_changed_event s.clock id from to)
        λ event. call (s.event_publisher.publish_order_status_changed event) next

  unfoldable pub publish_or_log : String → OrderStatus → OrderStatus → Thread W → Thread W
  unfolding publish
  publish_or_log id from to t =
      publish id from to
        λ e. elim e [ none ↦ t | some e' ↦ act (error s "發布狀態變更事件失敗" e' (for_order s id)) t ]

  unfoldable pub save_changed : OrderStatus → (OrderStatus → W → W) → Order → Thread W
  unfolding publish
  save_changed from finish order = call (s.order_repo.save order) λ e. elim e [
    | some e' ↦ done (some e')
    | none ↦ publish order.id from order.status (λ _. act (finish from) (done none))
  ]

  unfoldable pub after_update :
      String
      → OrderStatus
      → (OrderStatus → List Value)
      → (OrderStatus → W → W)
      → Option Error × Order
      → Thread W
  unfolding save_changed
  after_update id from refused finish (some e, _) =
      act (error s "invalid status transition" e (text "orderId" ∷ text id ∷ refused from))
        (done (some e))
  after_update id from refused finish (none, order) = save_changed from finish order

  unfoldable pub change_status :
      String → OrderStatus → (OrderStatus → List Value) → (OrderStatus → W → W) → Thread W
  unfolding after_update
  change_status id to refused finish = call (s.order_repo.get_by_id id) λ r. elim r [
    | err e ↦ done (some e)
    | ok order ↦ call (update_status s.clock to order) (after_update id order.status refused finish)
  ]

  unfoldable pub after_conflict : String → Thread W
  after_conflict id = act (warn s "並發更新衝突，重新查詢訂單狀態" (for_order s id)) (
      call (s.order_repo.get_by_id id) λ r. elim r [
        | err e ↦ act (error s "重新查詢訂單失敗" e (for_order s id)) (done (some (wrapped "重新查詢訂單失敗" e)))
        | ok order ↦
            if order.status == waiting_for_shipment
            then act (info s "訂單狀態已由其他請求更新，跳過（冪等性）" (for_order s id)) (done none)
            else done (some (wrapped_nil "並發更新衝突後狀態仍不正確"))
      ])

  unfoldable pub save_paid : String → OrderStatus → Order → Thread W
  unfolding after_conflict publish_or_log
  save_paid id from order = call (s.order_repo.save order) λ e. elim e [
    | some e' ↦
        if is_deadlock_or_conflict_error (some e')
        then after_conflict id
        else act (error s "保存訂單失敗" e' (for_order s id)) (done (some e'))
    | none ↦ publish_or_log order.id from order.status (
        act (info s "訂單狀態更新成功" (text "orderId" ∷ text id ∷ from_to s from order.status))
          (done none))
  ]

  unfoldable pub after_paid : String → OrderStatus → Option Error × Order → Thread W
  unfolding save_paid
  after_paid id from (some e, _) =
      act
        (error s "invalid status transition" e
          (text "orderId" ∷ text id ∷ from_to s from waiting_for_shipment))
        (done (some e))
  after_paid id from (none, order) = save_paid id from order

  unfoldable pub settle_payment : String → Order → Thread W
  unfolding after_paid
  settle_payment id order =
      if order.status == waiting_for_shipment
      then act (info s "訂單已經是 WaitingForShipment 狀態，跳過更新（冪等性）" (for_order s id)) (done none)
      else if order.status == created
      then call (update_status s.clock waiting_for_shipment order) (after_paid id order.status)
      else act
          (warn s "訂單狀態不是 Created 或 WaitingForShipment，跳過處理"
            (text "orderId" ∷ text id ∷ text "currentStatus" ∷ status order.status ∷ []))
          (done none)

  unfoldable pub after_duplicate : String → Result Order → Thread W
  unfolding settle_payment
  after_duplicate id (err e) =
      act (error s "重新查詢訂單失敗" e (for_order s id)) (done (some (wrapped "重新查詢訂單失敗" e)))
  after_duplicate id (ok order) = settle_payment id order

  unfoldable pub create_paid : String → Thread W
  unfolding after_duplicate
  create_paid id = act (info s "訂單不存在，創建新訂單" (for_order s id)) (
      call s.clock λ now.
        call
          (s.order_repo.save
            (record { id = id; status = waiting_for_shipment; created_at = now; updated_at = now }))
          λ e. elim e [
            | none ↦
                act
                  (info s "訂單創建成功"
                    (text "orderId" ∷ text id ∷ text "status" ∷ status waiting_for_shipment ∷ []))
                  (done none)
            | some e' ↦
                if is_duplicate_key_error (some e')
                then act (info s "訂單已存在（可能由並發創建），重新查詢" (for_order s id))
                    (call (s.order_repo.get_by_id id) (after_duplicate id))
                else act (error s "創建訂單失敗" e' (for_order s id)) (done (some (wrapped "創建訂單失敗" e')))
          ])

  unfoldable pub pay : String → Thread W
  unfolding create_paid
  pay id = call (s.order_repo.get_by_id id) λ r. elim r [
    | ok order ↦ settle_payment id order
    | err e ↦ elim (as_not_found e) [
      | none ↦ act (error s "查詢訂單失敗" e (for_order s id)) (done (some (wrapped "查詢訂單失敗" e)))
      | some _ ↦ create_paid id
    ]
  ]

  -- What is done when a thread has returned.
  unfoldable pub and_then : Thread W → (Option Error → Thread W) → Thread W
  and_then (done e) next = next e
  and_then (call f after) next = call f (λ a. and_then (after a) next)

  unfoldable pub handle_payment_completed : PaymentCompletedEvent → Thread W
  unfolding pay and_then
  handle_payment_completed event = call s.clock λ start. and_then (pay event.order_id) λ e.
      call s.clock λ end.
        act
          (info s "HandlePaymentCompleted 處理完成"
            (text "orderId" ∷ text event.order_id ∷ text "duration" ∷ duration (end - start) ∷ []))
          (done e)

  unfoldable pub publish_all : List String → OrderStatus → OrderStatus → Thread W → Thread W
  unfolding publish_or_log
  publish_all [] from to t = t
  publish_all (id ∷ ids) from to t = publish_or_log id from to (publish_all ids from to t)

  unfoldable pub batch_update_order_status : List String → OrderStatus → OrderStatus → Thread W
  unfolding publish_all
  batch_update_order_status [] from to = done none
  batch_update_order_status (id ∷ ids) from to =
      let count = text "orderCount" ∷ integer (length (id ∷ ids)) ∷ from_to s from to in
      call (s.order_repo.batch_update_order_status (id ∷ ids) to from) λ e. elim e [
        | some e' ↦ act (error s "批量更新訂單狀態失敗" e' count) (done (some e'))
        | none ↦ publish_all (id ∷ ids) from to (act (info s "批量更新訂單狀態成功" count) (done none))
      ]

  unfoldable pub thread : Request → Thread W
  unfolding change_status handle_payment_completed batch_update_order_status
  thread (order_created event) =
      act
        (info s "Order created event received, order status remains Created"
          (for_order s event.order_id))
        (done none)
  thread (payment_completed event) = handle_payment_completed event
  thread (shipment_started event) = change_status event.order_id in_transit (λ _. []) (λ _ w. w)
  thread (package_arrived event) = change_status event.order_id wait_pickup (λ _. []) (λ _ w. w)
  thread (package_picked_up event) = change_status event.order_id completed (λ _. []) (λ _ w. w)
  thread (set_status id new_status) =
      change_status id new_status (λ from. from_to s from new_status)
        (λ from. info s "訂單狀態已更新" (text "orderId" ∷ text id ∷ from_to s from new_status))
  thread (batch ids from to) = batch_update_order_status ids from to
