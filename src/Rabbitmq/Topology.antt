-- ===== src/Rabbitmq/Topology.antt =====
-- pkg/rabbitmq: the exchanges, queues and bindings that the consumer and the producer declare.
-- Each call stands with the text that its error is wrapped in.
pub mod Routes
use ec_order_state_service.Prelude.{String, true, false, Option, none, some, List, [], ◌∷◌}
use ec_order_state_service.Prelude.Int.{ℤ, pos}
use ec_order_state_service.Domain.Failure.{Error, wrapped}
use ec_order_state_service.Rabbitmq.Amqp.{
  Table, text, Call, exchange_declare, queue_declare, queue_bind, qos, Client,
}

-- `channel.ExchangeDeclare(name, "direct", true, false, false, false, nil)` and the like.
abbrev direct_exchange : String → Call
direct_exchange name = exchange_declare name "direct" true false false false none

abbrev durable_queue : String → Option Table → Call
durable_queue name args = queue_declare name true false false false args

abbrev bind : String → String → String → Call
bind name key exchange = queue_bind name key exchange false none

abbrev dead_letters : String → String → Option Table
dead_letters exchange key =
    some (("x-dead-letter-exchange", text exchange) ∷ ("x-dead-letter-routing-key", text key) ∷ [])

-- What NewOrderStateConsumerWithConfig declares.
unfoldable pub new_consumer_calls : ℤ → List (String × Call)
new_consumer_calls prefetch_count =
    ("宣告交換器失敗", direct_exchange "order.state.update")
    ∷ ("宣告死信交換器失敗", direct_exchange "dead.letter.exchange")
    ∷ ("宣告 RabbitMQ 死信佇列失敗", durable_queue "order_state_queue.dlq" none)
    ∷ ("綁定 RabbitMQ 死信佇列失敗", bind "order_state_queue.dlq" "order.state.dlq" "dead.letter.exchange")
    ∷ ("宣告應用層死信隊列失敗", durable_queue "order_state_queue_dlq" none)
    ∷ (
      "綁定應用層死信隊列失敗",
      bind "order_state_queue_dlq" "order.state.payment.completed.dlq" "order.state.update",
    )
    ∷ (
      "宣告隊列失敗",
      durable_queue "order_state_queue" (dead_letters "dead.letter.exchange" "order.state.dlq"),
    )
    ∷ ("綁定隊列失敗", bind "order_state_queue" "order.state.payment.completed" "order.state.update")
    ∷ ("設置 Qos 失敗", qos prefetch_count (pos 0) false)
    ∷ []

-- What setupChannel declares on a channel after a reconnection.
unfoldable pub setup_channel_calls : ℤ → List (String × Call)
setup_channel_calls prefetch_count =
    ("宣告交換器失敗", direct_exchange "order.state.update")
    ∷ ("宣告死信交換器失敗", direct_exchange "dead.letter.exchange")
    ∷ ("宣告 RabbitMQ 死信佇列失敗", durable_queue "order_state_queue.dlq" none)
    ∷ ("綁定 RabbitMQ 死信佇列失敗", bind "order_state_queue.dlq" "order.state.dlq" "dead.letter.exchange")
    ∷ ("宣告應用層死信隊列失敗", durable_queue "order_state_queue_dlq" none)
    ∷ (
      "綁定應用層死信隊列失敗",
      bind "order_state_queue_dlq" "order.state.payment.completed.dlq" "order.state.update",
    )
    ∷ (
      "宣告隊列失敗",
      durable_queue "order_state_queue" (dead_letters "dead.letter.exchange" "order.state.dlq"),
    )
    ∷ ("綁定隊列失敗", bind "order_state_queue" "order.state.payment.completed" "order.state.update")
    ∷ ("設置 Qos 失敗", qos prefetch_count (pos 0) false)
    ∷ []

-- What initializeExchangeAndQueue of the producer declares.
unfoldable pub producer_calls : List (String × Call)
producer_calls =
    ("宣告主交換器失敗", direct_exchange "order.state.update")
    ∷ ("宣告死信交換器失敗", direct_exchange "dead.letter.exchange")
    ∷ ("宣告死信佇列失敗", durable_queue "order_state_changed_queue.dlq" none)
    ∷ (
      "綁定死信佇列失敗",
      bind "order_state_changed_queue.dlq" "order.state.changed.dlq" "dead.letter.exchange",
    )
    ∷ (
      "宣告主佇列失敗",
      durable_queue "order_state_changed_queue"
          (dead_letters "dead.letter.exchange" "order.state.changed.dlq"),
    )
    ∷ (
      "綁定主佇列失敗",
      bind "order_state_changed_queue" "order.state.status.changed" "order.state.update",
    )
    ∷ []

module _ {W C : Type 0} (client : Client W C) where
  -- One call after the other, up to the first that fails.
  unfoldable pub declare_all : C → List (String × Call) → W → Option Error × W
  declare_all channel [] w = (none, w)
  declare_all channel ((context, call) ∷ calls) w =
      let (e, w') = client.call channel call w in
      let rest = declare_all channel calls w' in
      elim e [ none ↦ rest | some e' ↦ (some (wrapped context e'), w') ]

  unfoldable pub setup_channel : ℤ → C → W → Option Error × W
  unfolding declare_all setup_channel_calls
  setup_channel prefetch_count channel = declare_all channel (setup_channel_calls prefetch_count)

  unfoldable pub initialize_exchange_and_queue : C → W → Option Error × W
  unfolding declare_all producer_calls
  initialize_exchange_and_queue channel = declare_all channel producer_calls
