-- ===== src/Handler.antt =====
-- internal/handler/order_state_event_handler.go: OrderStateEventHandlerImpl. What it prints is left
-- out; it reads the clock once more on either branch.
use ec_order_state_service.Prelude.{◌<>◌, Option, none, some}
use ec_order_state_service.Domain.Events.{new_payment_completed_event}
use ec_order_state_service.Domain.Failure.{Error, wrapped}
use ec_order_state_service.Service.Deps.{OrderStateService}
use ec_order_state_service.Service.Contract.{Meaning, Quiet, ◌⨟◌, IsLawful}
use ec_order_state_service.Service.Core.Payments
use ec_order_state_service.Service.Progress.{Progress, Progress-trans, Quiet-Progress}
use ec_order_state_service.Service.Requests
use ec_order_state_service.Rabbitmq.Consumer.{PaymentCompletedMessage}

module _ {W : Type 0} (s : OrderStateService W) where
  unfoldable pub handle_payment_completed : PaymentCompletedMessage → W → Option Error × W
  unfolding Payments.handle_payment_completed new_payment_completed_event
  handle_payment_completed msg w =
      let (start, w1) = s.clock w in
      let (event, w2) = new_payment_completed_event s.clock msg.order_id w1 in
      let (e, w3) = Payments.handle_payment_completed s event w2 in
      let (end, w4) = s.clock w3 in
      (
        elim e [
          | none ↦ none
          | some e' ↦ some (wrapped ("處理支付完成事件失敗 (orderId=" <> (msg.order_id <> ")")) e')
        ],
        w4,
      )

pub handle_payment_completed-Progress :
    {W : Type 0} (s : OrderStateService W) (m : Meaning W) (lawful : IsLawful s m)
    (msg : PaymentCompletedMessage) (w : W)
    → m.Valid w
    → Progress m w (handle_payment_completed s msg w).1
unfolding handle_payment_completed new_payment_completed_event
handle_payment_completed-Progress s m lawful msg w valid =
    let before : Quiet m w (s.clock (s.clock w).1).1 =
      lawful.clock_keeps _ ⨟ lawful.clock_keeps w in
    let event = (new_payment_completed_event s.clock msg.order_id (s.clock w).1).0 in
    Progress-trans (Quiet-Progress before) (
      Progress-trans
        (Requests.handle_payment_completed-Progress s m lawful event _ (before.stays valid))
        (Quiet-Progress (lawful.clock_keeps _)))
