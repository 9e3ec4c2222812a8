-- ===== src/Rabbitmq/Producer.antt =====
-- pkg/rabbitmq/order_state_producer.go: OrderStateProducer. The mutex of getOrCreateChannel makes
-- what follows the first test one step; the producer's fields are passed along with the state.
pub mod Readiness
use ec_order_state_service.Prelude.{
  String, Bool, true, false, not, ◌&&◌, Option, none, some, [], if◌then◌else◌,
}
use ec_order_state_service.Prelude.Int.{ℤ}
use ec_order_state_service.Domain.Failure.{Error, wrapped, Result, ok, err}
use ec_order_state_service.Rabbitmq.Amqp.{Publishing, Codec, Client}
use ec_order_state_service.Rabbitmq.Connection.{wrap_error, get_new_channel}
use ec_order_state_service.Rabbitmq.Topology.{initialize_exchange_and_queue}

pub record OrderStateProducer (C : Type 0) : Type 0 where
  pub channel : Option C
  pub initialized : Bool

pub record OrderStatusChangedMessage : Type 0 where
  pub event_type : String
  pub order_id : String
  pub from_status : ℤ
  pub to_status : ℤ
  pub timestamp : String

-- NewOrderStateProducer
abbrev pub new_order_state_producer : {C : Type 0} → OrderStateProducer C
new_order_state_producer = record { channel = none; initialized = false }

abbrev pub order_state_exchange : String
order_state_exchange = "order.state.update"

abbrev pub order_state_routing_key : String
order_state_routing_key = "order.state.status.changed"

abbrev pub status_publishing : String → Publishing
status_publishing body = record {
  content_type = "application/json";
  body = body;
  persistent = true;
  headers = [];
}

module _ {W C : Type 0} (client : Client W C) (json : Codec OrderStatusChangedMessage) where
  -- `p.channel != nil && !p.channel.IsClosed() && p.initialized`
  unfoldable pub usable_channel : OrderStateProducer C → W → Option C × W
  usable_channel p w = elim p.channel [
    | none ↦ (none, w)
    | some c ↦
        (let (closed, w') = client.channel_is_closed c w in
          (if not closed && p.initialized then some c else none, w'))
  ]

  -- `if p.channel != nil { if !p.channel.IsClosed() { p.channel.Close() } }`
  unfoldable pub close_old : OrderStateProducer C → W → W
  close_old p w = elim p.channel [
    | none ↦ w
    | some c ↦
        (let (closed, w') = client.channel_is_closed c w in
          if closed then w' else (client.close_channel c w').1)
  ]

  -- What follows `p.conn.GetNewChannel()`; the producer's channel is nil here.
  unfoldable pub initialize : Bool → Result C × W → (Result C × OrderStateProducer C) × W
  unfolding initialize_exchange_and_queue
  initialize was (err e, w) =
      ((err (wrapped "建立 Channel 失敗" e), record { channel = none; initialized = was }), w)
  initialize was (ok c, w) =
      let (e, w') = initialize_exchange_and_queue client c w in
      elim e [
        | some e' ↦ (
          (err (wrapped "初始化 Exchange/Queue 失敗" e'), record { channel = none; initialized = was }),
          (client.close_channel c w').1,
        )
        | none ↦ ((ok c, record { channel = some c; initialized = true }), w')
      ]

  unfoldable pub get_or_create_channel :
      OrderStateProducer C → W → (Result C × OrderStateProducer C) × W
  unfolding usable_channel close_old initialize get_new_channel
  get_or_create_channel p w =
      let (first, w1) = usable_channel p w in
      let (second, w2) = usable_channel p w1 in
      elim first [
        | some c ↦ ((ok c, p), w1)
        | none ↦ elim second [
          | some c ↦ ((ok c, p), w2)
          | none ↦ initialize p.initialized (get_new_channel client (close_old p w2))
        ]
      ]

  -- `channel.Publish` and what follows it.
  unfoldable pub send :
      C → String → OrderStateProducer C → W → (Option Error × OrderStateProducer C) × W
  send c body p w =
      let (e, w') =
        client.publish c order_state_exchange order_state_routing_key (status_publishing body) w in
      elim e [
        | none ↦ ((none, p), w')
        | some e' ↦
            ((some (wrapped "發布訊息失敗" e'), record { channel = none; initialized = false }), w')
      ]

  -- What follows getOrCreateChannel.
  unfoldable pub publish_on :
      OrderStatusChangedMessage
      → (Result C × OrderStateProducer C) × W
      → (Option Error × OrderStateProducer C) × W
  unfolding send
  publish_on message ((err e, p), w) = ((some (wrapped "取得 Channel 失敗" e), p), w)
  publish_on message ((ok c, p), w) = elim (json.marshal message) [
    | err e ↦ ((some (wrapped "序列化訊息失敗" e), p), w)
    | ok body ↦ send c body p w
  ]

  unfoldable pub publish_order_status_changed :
      OrderStatusChangedMessage
      → OrderStateProducer C
      → W
      → (Option Error × OrderStateProducer C) × W
  unfolding get_or_create_channel publish_on
  publish_order_status_changed message p w = publish_on message (get_or_create_channel p w)

  -- Close
  unfoldable pub close : OrderStateProducer C → W → (Option Error × OrderStateProducer C) × W
  close p w =
      let gone : OrderStateProducer C = record { channel = none; initialized = false } in
      elim p.channel [
        | none ↦ ((none, gone), w)
        | some c ↦
            (let (closed, w1) = client.channel_is_closed c w in
              let (e, w2) = client.close_channel c w1 in
              if closed then ((none, gone), w1) else elim e [
                | none ↦ ((none, gone), w2)
                | some e' ↦ ((some (wrapped "關閉 Channel 失敗" e'), p), w2)
              ])
      ]
