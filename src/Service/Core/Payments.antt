-- ===== src/Service/Core/Payments.antt =====
-- internal/service/order_state_service.go: HandlePaymentCompleted, in the parts that follow its calls.
use ec_order_state_service.Prelude.{◌-◌, ◌==◌, String, Option, none, some, [], ◌∷◌, if◌then◌else◌}
use ec_order_state_service.Domain.Status.{OrderStatus, created, waiting_for_shipment}
use ec_order_state_service.Domain.Order.{Order, update_status}
use ec_order_state_service.Domain.Events.{PaymentCompletedEvent}
use ec_order_state_service.Domain.Failure.{Error, wrapped, wrapped_nil, as_not_found, ok, err}
use ec_order_state_service.Service.Deps.{
  text, status, duration, OrderStateService, is_duplicate_key_error, is_deadlock_or_conflict_error,
}
use ec_order_state_service.Service.Core.{info, error, warn, for_order, from_to, publish_or_log}

module _ {W : Type 0} (s : OrderStateService W) where
  -- What HandlePaymentCompleted does when Save reports a conflict: `err` is nil where the last
  -- error is made.
  unfoldable pub after_conflict : String → W → Option Error × W
  after_conflict id w =
      let (r, w') = s.order_repo.get_by_id id (warn s "並發更新衝突，重新查詢訂單狀態" (for_order s id) w) in
      elim r [
        | err e ↦ (some (wrapped "重新查詢訂單失敗" e), error s "重新查詢訂單失敗" e (for_order s id) w')
        | ok order ↦
            if order.status == waiting_for_shipment
            then (none, info s "訂單狀態已由其他請求更新，跳過（冪等性）" (for_order s id) w')
            else (some (wrapped_nil "並發更新衝突後狀態仍不正確"), w')
      ]

  -- The branch for an order in status Created, after UpdateStatus.
  unfoldable pub save_paid : String → OrderStatus → Order → W → Option Error × W
  unfolding after_conflict
  save_paid id from order w =
      let (e, w') = s.order_repo.save order w in
      elim e [
        | some e' ↦
            if is_deadlock_or_conflict_error (some e')
            then after_conflict id w'
            else (some e', error s "保存訂單失敗" e' (for_order s id) w')
        | none ↦ (
          none,
          info s "訂單狀態更新成功" (text "orderId" ∷ text id ∷ from_to s from order.status)
              (publish_or_log s order.id from order.status w'),
        )
      ]

  -- What follows `order.UpdateStatus(domain.StatusWaitingForShipment)`, on its error, the order that
  -- it leaves and the state.
  unfoldable pub after_paid : String → OrderStatus → (Option Error × Order) × W → Option Error × W
  unfolding save_paid
  after_paid id from ((some e, _), w) = (
    some e,
    error s "invalid status transition" e
        (text "orderId" ∷ text id ∷ from_to s from waiting_for_shipment) w,
  )
  after_paid id from ((none, order), w) = save_paid id from order w

  -- The order exists: the part of HandlePaymentCompleted from the check of its status on.
  unfoldable pub settle_payment : String → Order → W → Option Error × W
  unfolding after_paid update_status
  settle_payment id order w =
      if order.status == waiting_for_shipment
      then (none, info s "訂單已經是 WaitingForShipment 狀態，跳過更新（冪等性）" (for_order s id) w)
      else if order.status == created
      then after_paid id order.status (update_status s.clock waiting_for_shipment order w)
      else (
        none,
        warn s "訂單狀態不是 Created 或 WaitingForShipment，跳過處理"
            (text "orderId" ∷ text id ∷ text "currentStatus" ∷ status order.status ∷ []) w,
      )

  -- The order does not exist: it is created, or was created by someone else in the meantime.
  unfoldable pub create_paid : String → W → Option Error × W
  unfolding settle_payment
  create_paid id w =
      let (now, w1) = s.clock (info s "訂單不存在，創建新訂單" (for_order s id) w) in
      let order : Order = record {
        id = id;
        status = waiting_for_shipment;
        created_at = now;
        updated_at = now;
      } in
      let (e, w2) = s.order_repo.save order w1 in
      elim e [
        | none ↦ (
          none,
          info s "訂單創建成功"
              (text "orderId" ∷ text id ∷ text "status" ∷ status waiting_for_shipment ∷ []) w2,
        )
        | some e' ↦
            if is_duplicate_key_error (some e')
            then (let (r, w3) =
                  s.order_repo.get_by_id id (info s "訂單已存在（可能由並發創建），重新查詢" (for_order s id) w2) in
                elim r [
                  | err e2 ↦
                      (some (wrapped "重新查詢訂單失敗" e2), error s "重新查詢訂單失敗" e2 (for_order s id) w3)
                  | ok order' ↦ settle_payment id order' w3
                ])
            else (some (wrapped "創建訂單失敗" e'), error s "創建訂單失敗" e' (for_order s id) w2)
      ]

  unfoldable pub pay : String → W → Option Error × W
  unfolding create_paid
  pay id w =
      let (r, w1) = s.order_repo.get_by_id id w in
      elim r [
        | ok order ↦ settle_payment id order w1
        | err e ↦ elim (as_not_found e) [
          | none ↦ (some (wrapped "查詢訂單失敗" e), error s "查詢訂單失敗" e (for_order s id) w1)
          | some _ ↦ create_paid id w1
        ]
      ]

  -- The deferred function logs how long it took.
  unfoldable pub handle_payment_completed : PaymentCompletedEvent → W → Option Error × W
  unfolding pay
  handle_payment_completed event w =
      let (start, w1) = s.clock w in
      let (e, w2) = pay event.order_id w1 in
      let (end, w3) = s.clock w2 in
      (
        e,
        info s "HandlePaymentCompleted 處理完成"
            (text "orderId" ∷ text event.order_id ∷ text "duration" ∷ duration (end - start) ∷ [])
            w3,
      )
