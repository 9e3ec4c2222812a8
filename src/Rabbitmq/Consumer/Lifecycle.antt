-- ===== src/Rabbitmq/Consumer/Lifecycle.antt =====
-- pkg/rabbitmq/order_state_consumer.go: how OrderStateConsumer comes by its channel, at the start
-- and after a lost connection. The consumer's fields are passed along with the state.
use ec_order_state_service.Prelude.{String, Bool, false, Option, none, some, if◌then◌else◌}
use ec_order_state_service.Prelude.Int.{ℤ}
use ec_order_state_service.Domain.Failure.{Error, plain, wrapped, Result, ok, err}
use ec_order_state_service.Rabbitmq.Amqp.{Table, Delivery, Codec, Client}
use ec_order_state_service.Rabbitmq.Connection.{wrap_error, get_new_channel}
use ec_order_state_service.Rabbitmq.Connection
use ec_order_state_service.Rabbitmq.Topology.{declare_all, new_consumer_calls, setup_channel}
use ec_order_state_service.Rabbitmq.Consumer.{PaymentCompletedMessage}

-- The fields of OrderStateConsumer that these methods change or read, and the URL of its connection.
pub record OrderStateConsumer (C : Type 0) : Type 0 where
  pub channel : Option C
  pub url : String
  pub prefetch_count : ℤ
  pub worker_count : ℤ

module _ {W C : Type 0} (client : Client W C) where
  -- The part of reconnect that starts from a new channel.
  unfoldable pub adopt :
      OrderStateConsumer C → Result C × W → (Option Error × OrderStateConsumer C) × W
  unfolding setup_channel
  adopt c (err e, w) = ((some (wrapped "創建新 channel 失敗" e), c), w)
  adopt c (ok channel, w) =
      let (e, w') = setup_channel client c.prefetch_count channel w in
      elim e [
        | some e' ↦ ((some (wrapped "設置 channel 失敗" e'), c), (client.close_channel channel w').1)
        | none ↦ ((none, record c { channel = some channel }), w')
      ]

  -- `if oldChannel != nil && !oldChannel.IsClosed() { oldChannel.Close() }`
  unfoldable pub close_old : Option C → W → W
  close_old none w = w
  close_old (some channel) w =
      let (closed, w') = client.channel_is_closed channel w in
      if closed then w' else (client.close_channel channel w').1

  unfoldable pub reconnect : OrderStateConsumer C → W → (Option Error × OrderStateConsumer C) × W
  unfolding adopt close_old get_new_channel Connection.reconnect
  reconnect c w =
      let gone : OrderStateConsumer C = record c { channel = none } in
      let (e, w') = Connection.reconnect client c.url (close_old c.channel w) in
      elim e [
        | some e' ↦ ((some (wrapped "重新連接失敗" e'), gone), w')
        | none ↦ adopt gone (get_new_channel client w')
      ]

  -- NewOrderStateConsumerWithConfig, after GetNewChannel.
  unfoldable pub open_consumer : String → ℤ → ℤ → Result C × W → Result (OrderStateConsumer C) × W
  unfolding declare_all new_consumer_calls
  open_consumer url prefetch_count worker_count (err e, w) = (err (wrapped "建立 Channel 失敗" e), w)
  open_consumer url prefetch_count worker_count (ok channel, w) =
      let (e, w') = declare_all client channel (new_consumer_calls prefetch_count) w in
      elim e [
        | some e' ↦ (err e', (client.close_channel channel w').1)
        | none ↦ (
          ok (record {
            channel = some channel;
            url = url;
            prefetch_count = prefetch_count;
            worker_count = worker_count;
          }),
          w',
        )
      ]

  unfoldable pub new_order_state_consumer : String → ℤ → ℤ → W → Result (OrderStateConsumer C) × W
  unfolding open_consumer get_new_channel
  new_order_state_consumer url prefetch_count worker_count w =
      open_consumer url prefetch_count worker_count (get_new_channel client w)

  -- `consume` is the channel's Consume, which gives a Go channel of deliveries, of type `D`; `cancel`
  -- is its Cancel.
  module _ {D : Type 0}
      (consume : C → String → String → Bool → Bool → Bool → Bool → Option Table → W → Result D × W)
      (cancel : C → String → Bool → W → Option Error × W) where
    abbrev registered : Result D × W → Result D × W
    registered (err e, w) = (err (wrapped "註冊消費者失敗" e), w)
    registered (ok msgs, w) = (ok msgs, w)

    unfoldable pub consume_messages : OrderStateConsumer C → W → Result D × W
    consume_messages c w = elim c.channel [
      | none ↦ (err (plain "channel 為 nil"), w)
      | some channel ↦
          let (closed, w') = client.channel_is_closed channel w in
          if closed
          then (err (plain "channel 已關閉"), w')
          else registered (consume channel "order_state_queue" "" false false false false none w')
    ]

    -- Stop, after its wait.
    unfoldable pub finish_stop : OrderStateConsumer C → W → Option Error × W
    finish_stop c w = elim c.channel [
      | none ↦ (none, w)
      | some channel ↦
          let (e, w') = cancel channel "" false w in
          elim e [ some e' ↦ (some e', w') | none ↦ (none, (client.close_channel channel w').1) ]
    ]

module _ (json : Codec PaymentCompletedMessage) where
  unfoldable pub extract_order_id : Delivery → String
  extract_order_id msg = elim (json.unmarshal msg.body) [ ok m ↦ m.order_id | err _ ↦ "unknown" ]
