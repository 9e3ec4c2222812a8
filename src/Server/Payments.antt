-- ===== src/Server/Payments.antt =====
-- pkg/rabbitmq/order_state_consumer.go over internal/handler and internal/service: what becomes of a
-- payment message and of its order.
use ec_order_state_service.Prelude.{◌≡◌, String, Option, some, [], ◌∷◌}
use ec_order_state_service.Domain.Failure.{Error, ok, err}
use ec_order_state_service.Service.Deps.{OrderStateService}
use ec_order_state_service.Service.Core.Payments
use ec_order_state_service.Service.Contract.{Meaning, Quiet, IsLawful}
use ec_order_state_service.Service.Settled.{IsPaid}
use ec_order_state_service.Handler
use ec_order_state_service.Rabbitmq.Amqp.{Publishing, Delivery, Channel, Codec}
use ec_order_state_service.Rabbitmq.Consumer.{PaymentCompletedMessage, exchange}
use ec_order_state_service.Rabbitmq.Consumer.Ledger.{
  Ledger, Adds, IsBroker, acked, rejected, requeued,
}

-- Where the message is once handleMessage is done with it: nowhere else but in an order that is
-- paid, unless the broker has it in a queue.
pub data Whereabouts {W : Type 0} (m : Meaning W) (json : Codec PaymentCompletedMessage)
    (l : Ledger W) (msg : Delivery) (w w' : W) : Type 0 where
  dead_lettered :
      (e : Error)
      → json.unmarshal msg.body ≡ err e
      → Adds l ((msg, rejected) ∷ []) [] w w'
      → Whereabouts m json l msg w w'
  paid :
      (message : PaymentCompletedMessage)
      → json.unmarshal msg.body ≡ ok message
      → IsPaid m message.order_id w'
      → Adds l ((msg, acked) ∷ []) [] w w'
      → Whereabouts m json l msg w w'
  sent_on :
      (message : PaymentCompletedMessage) (key : String) (copy : Publishing)
      → json.unmarshal msg.body ≡ ok message
      → json.marshal message ≡ ok copy.body
      → Adds l ((msg, acked) ∷ []) ((exchange, key, copy) ∷ []) w w'
      → Whereabouts m json l msg w w'
  queued_again : Adds l ((msg, requeued) ∷ []) [] w w' → Whereabouts m json l msg w w'

-- A handler beside a time-out gives a result only if it has returned it, and a call of Ack changes no
-- order.
pub record IsTimely {W : Type 0} (channel : Channel W)
    (race : (W → Option Error × W) → W → Option (Option Error) × W) (m : Meaning W) : Type 0 where
  pub in_time :
      (f : W → Option Error × W) (w : W) (r : Option Error)
      → (race f w).0 ≡ some r
      → ((f w).0 ≡ r) × Quiet m (f w).1 (race f w).1
  pub ack_keeps : (msg : Delivery) (w : W) → Quiet m w (channel.ack msg w)

module _ {W : Type 0} (s : OrderStateService W) (m : Meaning W) (L : IsLawful s m)
    (channel : Channel W) (json : Codec PaymentCompletedMessage)
    (race : (W → Option Error × W) → W → Option (Option Error) × W) (l : Ledger W)
    (broker : IsBroker channel (Handler.handle_payment_completed s) race l)
    (T : IsTimely channel race m) where
  abbrev handler : PaymentCompletedMessage → W → Option Error × W
  handler = Handler.handle_payment_completed s
