-- ===== src/Rabbitmq/Consumer.antt =====
-- pkg/rabbitmq/order_state_consumer.go: what a worker of OrderStateConsumer does with a message.
pub mod Ledger
pub mod Outcome
pub mod Limits
pub mod Lifecycle
pub mod Workers
use ec_order_state_service.Prelude.{
  ◌==◌, ◌<>◌, String, Bool, true, false, Option, none, some, List, [], ◌∷◌, if◌then◌else◌,
}
use ec_order_state_service.Prelude.Int.{ℤ, pos, ◌+ℤ◌, leb_ℤ, int64}
use ec_order_state_service.Prelude.Dict.{lookup}
use ec_order_state_service.Domain.Failure.{Error, plain, Result, ok, err}
use ec_order_state_service.Rabbitmq.Amqp.{Field, int, text, Publishing, Delivery, Channel, Codec}

pub record PaymentCompletedMessage : Type 0 where
  pub event_type : String
  pub order_id : String
  pub timestamp : String

-- `count, ok := retryCount.(int)`
abbrev pub as_int : Field → Option ℤ
as_int (int n) = some n
as_int _ = none

unfoldable pub get_retry_count : Delivery → ℤ
get_retry_count msg = elim msg.headers [
  | none ↦ pos 0
  | some headers ↦ elim (lookup "x-retry-count" headers) [
    | none ↦ pos 0
    | some field ↦ elim (as_int field) [ none ↦ pos 0 | some n ↦ n ]
  ]
]

abbrev pub exchange : String
exchange = "order.state.update"

abbrev pub routing_key : String
routing_key = "order.state.payment.completed"

abbrev pub dlq_routing_key : String
dlq_routing_key = "order.state.payment.completed.dlq"

-- What republishWithRetryCount and sendToDLQ publish.
abbrev pub retry_publishing : String → ℤ → Publishing
retry_publishing body count = record {
  content_type = "application/json";
  body = body;
  persistent = true;
  headers = ("x-retry-count", int count) ∷ [];
}

abbrev pub dlq_publishing : String → ℤ → Publishing
dlq_publishing body count = record {
  content_type = "application/json";
  body = body;
  persistent = true;
  headers =
      ("x-original-queue", text "order_state_queue")
      ∷ ("x-retry-count", int count)
      ∷ ("x-failed-reason", text "max retries exceeded")
      ∷ [];
}

-- `handler` is `c.handler.HandlePaymentCompleted`. `race f` runs `f` in a goroutine with the
-- message's timeout beside it, and gives `none` where the timeout is what `select` takes.
module _ {W : Type 0} (channel : Channel W) (json : Codec PaymentCompletedMessage)
    (handler : PaymentCompletedMessage → W → Option Error × W)
    (race : (W → Option Error × W) → W → Option (Option Error) × W) where
  -- The part that republishWithRetryCount and sendToDLQ share: `false` if the message is not sent.
  unfoldable pub try_publish :
      String → (String → Publishing) → PaymentCompletedMessage → W → Bool × W
  try_publish key publishing message w =
      if channel.is_nil w
      then (false, w)
      else (let (closed, w1) = channel.is_closed w in
          if closed then (false, w1) else (elim (json.marshal message) [
            | err _ ↦ (false, w1)
            | ok body ↦
                (let (e, w2) = channel.publish exchange key (publishing body) w1 in
                  (elim e [ none ↦ true | some _ ↦ false ], w2))
          ]))

  unfoldable pub republish_with_retry_count : Delivery → PaymentCompletedMessage → ℤ → W → Bool × W
  unfolding try_publish
  republish_with_retry_count _ message count =
      try_publish routing_key (λ body. retry_publishing body count) message

  unfoldable pub send_to_dlq : Delivery → PaymentCompletedMessage → W → Bool × W
  unfolding try_publish get_retry_count
  send_to_dlq original message =
      try_publish dlq_routing_key (λ body. dlq_publishing body (get_retry_count original)) message

  -- Ack what was moved on, put back into the queue what was not.
  abbrev pub ack_if : Delivery → Bool × W → W
  ack_if msg (sent, w) = if sent then channel.ack msg w else channel.nack msg true w

  -- The body of the goroutine.
  unfoldable pub dispatch : PaymentCompletedMessage → W → Option Error × W
  dispatch message w =
      if message.event_type == "PaymentCompleted"
      then handler message w
      else (some (plain ("未知的事件類型: " <> message.event_type)), w)

  -- What follows a failure.
  unfoldable pub on_failure : Delivery → PaymentCompletedMessage → W → W
  unfolding send_to_dlq republish_with_retry_count get_retry_count
  on_failure msg message w =
      if leb_ℤ (pos 3) (get_retry_count msg)
      then ack_if msg (send_to_dlq msg message w)
      else ack_if msg
          (republish_with_retry_count msg message (int64 (get_retry_count msg +ℤ pos 1)) w)

  -- What follows the `select` on the result and the timeout.
  unfoldable pub conclude : Delivery → PaymentCompletedMessage → Option (Option Error) × W → W
  unfolding on_failure
  conclude msg message (some none, w) = channel.ack msg w
  conclude msg message (some (some e), w) = on_failure msg message w
  conclude msg message (none, w) = on_failure msg message w

  unfoldable pub handle_message : Delivery → W → W
  unfolding dispatch conclude
  handle_message msg w = elim (json.unmarshal msg.body) [
    | err _ ↦ channel.nack msg false w
    | ok message ↦ conclude msg message (race (dispatch message) w)
  ]
