-- ===== src/Rabbitmq/Amqp.antt =====
-- What pkg/rabbitmq uses of github.com/rabbitmq/amqp091-go and of encoding/json: the library's
-- types, and its calls as operations on a state `W`.
use ec_order_state_service.Prelude.{String, Bool, Option}
use ec_order_state_service.Prelude.Int.{ℤ}
use ec_order_state_service.Prelude.Dict.{Dict}
use ec_order_state_service.Domain.Failure.{Error, Result}

-- A header's value by its Go type; `text` is a `string`, `other` any further type.
pub data Field : Type 0 where
  int : ℤ → Field
  int32 : ℤ → Field
  text : String → Field
  other : Field

-- amqp.Table
abbrev pub Table : Type 0
Table = Dict Field

-- The fields of amqp.Publishing that the program sets.
pub record Publishing : Type 0 where
  pub content_type : String
  pub body : String
  pub persistent : Bool
  pub headers : Table

-- The fields of amqp.Delivery that the program reads; `headers` may be nil.
pub record Delivery : Type 0 where
  pub body : String
  pub headers : Option Table

-- `is_nil` is the test of the consumer's or producer's channel; Ack and Nack are called without a
-- look at their error, `multiple` is always false.
pub record Channel (W : Type 0) : Type 0 where
  pub is_nil : W → Bool
  pub is_closed : W → Bool × W
  pub publish : String → String → Publishing → W → Option Error × W
  pub ack : Delivery → W → W
  pub nack : Delivery → Bool → W → W

-- json.Unmarshal and json.Marshal on one type of message.
pub record Codec (M : Type 0) : Type 0 where
  pub unmarshal : String → Result M
  pub marshal : M → Result String

-- ExchangeDeclare, QueueDeclare, QueueBind and Qos with all their arguments, in the library's order.
pub data Call : Type 0 where
  exchange_declare :
      (name kind : String) (durable auto_delete internal no_wait : Bool) → Option Table → Call
  queue_declare :
      (name : String) (durable auto_delete exclusive no_wait : Bool) → Option Table → Call
  queue_bind : (name key exchange : String) (no_wait : Bool) → Option Table → Call
  qos : (prefetch_count prefetch_size : ℤ) (global : Bool) → Call

-- A connection and its channels, of type `C`: `dial` opens a connection, which takes the place of
-- the one before. A call that fails gives an error.
pub record Client (W C : Type 0) : Type 0 where
  pub dial : String → W → Option Error × W
  pub connection_is_closed : W → Bool × W
  pub close_connection : W → Option Error × W
  pub new_channel : W → Result C × W
  pub channel_is_closed : C → W → Bool × W
  pub close_channel : C → W → Option Error × W
  pub call : C → Call → W → Option Error × W
  pub publish : C → String → String → Publishing → W → Option Error × W
