-- ===== src/Tests/Messages.antt =====
-- A message's way through the consumer and its workers.
use ec_order_state_service.Prelude.{
  ◌≡◌, ◌≤◌, ◌⊎◌, refl, sym, ◌==◌, String, true, Option, some, [], ◌∷◌, arith, if◌then◌else◌,
}
use mathlib.Core.List.{append-nil}
use mathlib.Core.Option.{some-injective}
use ec_order_state_service.Prelude.Int.{pos, int64, ◌+ℤ◌}
use ec_order_state_service.Domain.Failure.{Error, plain, ok, err}
use ec_order_state_service.Rabbitmq.Amqp.{Delivery, Codec, int32}
use ec_order_state_service.Rabbitmq.Consumer.{
  PaymentCompletedMessage, exchange, routing_key, retry_publishing, dispatch, handle_message,
}
use ec_order_state_service.Rabbitmq.Consumer.Ledger.{IsBroker}
use ec_order_state_service.Tests.Broker.{
  Broker, broker_channel, in_time, broker_ledger, quiet_broker,
}
use ec_order_state_service.Rabbitmq.Consumer.Outcome.{Outcome, handle_message-Outcome}
use ec_order_state_service.Rabbitmq.Consumer.Limits.{HasNoInt, handle_message-never_buried}
use ec_order_state_service.Rabbitmq.Consumer.Workers.{
  Consuming, Step, start, ranging, returned, retire, panicked, Run, begin, next, connect, receive,
  pass, panic, close_stop, close_queue,
}
use ec_order_state_service.Rabbitmq.Consumer.Workers.Conservation.{Balanced, Run-Balanced}
use ec_order_state_service.Rabbitmq.Consumer.Workers.Stopping.{work, steps, IsStopped, Run-stops}

abbrev payment_message : PaymentCompletedMessage
payment_message = record { event_type = "PaymentCompleted"; order_id = "A"; timestamp = "now" }

abbrev payment_json : Codec PaymentCompletedMessage
payment_json = record {
  unmarshal = λ body. if body == "{}" then ok payment_message else err (plain "syntax error");
  marshal = λ m. ok "{}";
}

-- A handler that fails, in time.
abbrev failing : PaymentCompletedMessage → Broker → Option Error × Broker
failing m w = (some (plain "no connection"), w)

broker-IsBroker : IsBroker broker_channel failing in_time broker_ledger
broker-IsBroker = record {
  ack_adds = λ d w. record { answered = refl; took = sym (append-nil _) };
  nack_adds = λ d again w. record { answered = refl; took = sym (append-nil _) };
  is_closed_adds = λ w. record { answered = sym (append-nil _); took = sym (append-nil _) };
  publish_adds = λ x key p w e. record { answered = sym (append-nil _); took = refl };
  publish_refused = λ x key p w e h. absurd (ground arith);
  handler_adds = λ m w. record { answered = sym (append-nil _); took = sym (append-nil _) };
  race_adds = λ f h w. h w;
}

abbrev delivery : Delivery
delivery = record { body = "{}"; headers = some (("x-retry-count", int32 (pos 3)) ∷ []) }

handle_message-Outcome_example :
    Outcome payment_json broker_ledger
      (λ m. (in_time (dispatch broker_channel payment_json failing in_time m) quiet_broker).0)
      delivery
      quiet_broker
      (handle_message broker_channel payment_json failing in_time delivery quiet_broker)
handle_message-Outcome_example =
    handle_message-Outcome broker_channel payment_json failing in_time broker_ledger broker-IsBroker
      delivery quiet_broker

-- The failed message goes back to the queue with the count 1, though its header says 3.
failed_message :
    (handle_message broker_channel payment_json failing in_time delivery quiet_broker).taken
    ≡ (exchange, routing_key, retry_publishing "{}" (pos 1)) ∷ []
unfolding handle_message int64 ◌+ℤ◌
failed_message = refl

delivery-HasNoInt : HasNoInt delivery
delivery-HasNoInt headers name n there = rw (← some-injective _ _ there) (λ e. ground arith)

handle_message-never_buried_example :
    ((handle_message broker_channel payment_json failing in_time delivery quiet_broker).taken ≡ [])
    ⊎ ((body : String) × ((handle_message broker_channel payment_json failing in_time delivery
            quiet_broker).taken
          ≡ (exchange, routing_key, retry_publishing body (pos 1)) ∷ []))
handle_message-never_buried_example =
    handle_message-never_buried broker_channel payment_json failing in_time broker_ledger
      broker-IsBroker delivery quiet_broker delivery-HasNoInt

-- A message arrives, waits in the channel, and the consumer is stopped before a worker has it.
abbrev message_waits : Consuming
message_waits = record {
  receiver = ranging;
  queue = delivery ∷ [];
  idle = 2;
  busy = [];
  stopping = true;
  closed = true;
  arrived = delivery ∷ [];
  put_back = [];
  finished = [];
}

stopped_while_waiting : Run 4 (start 2) message_waits
stopped_while_waiting =
    next
      (next
        (next (next (next begin (connect refl refl)) (receive delivery refl))
          (pass delivery refl refl (ground arith)))
        (close_stop refl))
      (close_queue refl refl)

Run-Balanced_example : Balanced (λ m. 1) message_waits
Run-Balanced_example = Run-Balanced (λ m. 1) 4 2 message_waits stopped_while_waiting

-- The receiver has returned; a worker is told to stop, another has a message in hand.
abbrev winding_down : Consuming
winding_down = record message_waits { receiver = returned; idle = 1; busy = delivery ∷ [] }

one_retires : Run 4 winding_down (record winding_down { idle = 0 })
one_retires = next begin (retire 0 refl refl)

Run-stops_example :
    (steps one_retires ≤ work winding_down)
    × (IsStopped (record winding_down { idle = 0 })
        ⊎ ((u : Consuming) × Step 4 (record winding_down { idle = 0 }) u))
Run-stops_example =
    Run-stops 4 one_retires (record { receiver_returned = refl; told_to_stop = refl })

-- Stop while the receiver has a message in hand: it may panic.
panics : Run 4 (start 2) (record (start 2) {
  receiver = panicked delivery;
  stopping = true;
  closed = true;
  arrived = delivery ∷ [];
})
panics =
    next
      (next (next (next (next begin (connect refl refl)) (receive delivery refl)) (close_stop refl))
        (close_queue refl refl))
      (panic delivery refl refl)
