-- ===== src/Rabbitmq/Connection.antt =====
-- pkg/rabbitmq/connection.go: Connection. `conn` is never nil: NewConnection sets it.
use ec_order_state_service.Prelude.{String, Option, none, some, if◌then◌else◌}
use ec_order_state_service.Domain.Failure.{Error, plain, wrapped, Result, ok, err}
use ec_order_state_service.Rabbitmq.Amqp.{Client}

abbrev pub wrap_error : String → Option Error → Option Error
wrap_error text none = none
wrap_error text (some e) = some (wrapped text e)

abbrev pub wrap_result : {A : Type 0} → String → Result A → Result A
wrap_result text (ok a) = ok a
wrap_result text (err e) = err (wrapped text e)

module _ {W C : Type 0} (client : Client W C) where
  unfoldable pub new_connection : String → W → Option Error × W
  new_connection url w = let (e, w') = client.dial url w in (wrap_error "連接 RabbitMQ 失敗" e, w')

  unfoldable pub get_new_channel : W → Result C × W
  get_new_channel w =
      let (closed, w1) = client.connection_is_closed w in
      let (r, w2) = client.new_channel w1 in
      if closed then (err (plain "連接已關閉"), w1) else (wrap_result "建立 Channel 失敗" r, w2)

  unfoldable pub close : W → Option Error × W
  close = client.close_connection

  -- What closing the connection before says is printed only.
  unfoldable pub reconnect : String → W → Option Error × W
  unfolding close
  reconnect url w =
      let (closed, w1) = client.connection_is_closed w in
      let (e, w2) = client.dial url (if closed then w1 else (close w1).1) in
      (wrap_error "重新連接 RabbitMQ 失敗" e, w2)
