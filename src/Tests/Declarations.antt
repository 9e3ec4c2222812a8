-- ===== src/Tests/Declarations.antt =====
-- The declarations of the consumer and of the producer, on clients that record or count the calls.
use ec_order_state_service.Prelude.{ℕ, ◌+◌, ◌≡◌, ◌≤◌, refl, false, none, List, [], ◌∷◌, ◌++◌, arith}
use ec_order_state_service.Prelude.Int.{pos}
use ec_order_state_service.Domain.Failure.{plain, ok, err}
use ec_order_state_service.Rabbitmq.Amqp.{Codec, Call, Client}
use ec_order_state_service.Rabbitmq.Topology.{setup_channel, initialize_exchange_and_queue}
use ec_order_state_service.Rabbitmq.Topology.Routes.{routes, setup_channel-routes}
use ec_order_state_service.Rabbitmq.Consumer.{exchange, routing_key, dlq_routing_key}
use ec_order_state_service.Rabbitmq.Producer.{
  OrderStateProducer, OrderStatusChangedMessage, new_order_state_producer, get_or_create_channel,
  publish_order_status_changed,
}
use ec_order_state_service.Rabbitmq.Producer.Readiness.{
  IsClient, IsReady, Fit, get_or_create_channel-Fit, publish_order_status_changed-IsReady,
}

-- A client on which every call succeeds, over the calls made.
abbrev calls_client : Client (List Call) ℕ
calls_client = record {
  dial = λ _ w. (none, w);
  connection_is_closed = λ w. (false, w);
  close_connection = λ w. (none, w);
  new_channel = λ w. (ok 0, w);
  channel_is_closed = λ c w. (false, w);
  close_channel = λ c w. (none, w);
  call = λ c call w. (none, w ++ (call ∷ []));
  publish = λ c _ _ _ w. (none, w);
}

setup_channel-routes_example :
    (routes (setup_channel calls_client (pos 10) 0 []).1 exchange routing_key
      ≡ "order_state_queue" ∷ [])
    × (routes (setup_channel calls_client (pos 10) 0 []).1 exchange dlq_routing_key
        ≡ "order_state_queue_dlq" ∷ [])
    × (routes (setup_channel calls_client (pos 10) 0 []).1 "dead.letter.exchange" "order.state.dlq"
        ≡ "order_state_queue.dlq" ∷ [])
unfolding setup_channel
setup_channel-routes_example =
    setup_channel-routes calls_client (λ w. w) (λ _ _ _ _. refl) (pos 10) 0 [] refl

-- The same with the calls counted: the six declarations have been made on the only channel.
abbrev counting_client : Client ℕ ℕ
counting_client = record {
  dial = λ _ w. (none, w);
  connection_is_closed = λ w. (false, w);
  close_connection = λ w. (none, w);
  new_channel = λ w. (ok 0, w);
  channel_is_closed = λ c w. (false, w);
  close_channel = λ c w. (none, w);
  call = λ c call w. (none, w + 1);
  publish = λ c _ _ _ w. (none, w);
}

abbrev status_json : Codec OrderStatusChangedMessage
status_json = record { unmarshal = λ _. err (plain "unused"); marshal = λ m. ok m.order_id }

abbrev Counted : ℕ → ℕ → Type 0
Counted c w = 6 ≤ w

counting-IsClient : IsClient counting_client status_json Counted
unfolding initialize_exchange_and_queue
counting-IsClient = record {
  initialized_declares = λ c w e. omega arith;
  is_closed_keeps = λ c d w h. h;
  close_keeps = λ c d w h. h;
  publish_keeps = λ c d x key p w h. h;
}

abbrev producer : OrderStateProducer ℕ
producer = new_order_state_producer

producer-IsReady : IsReady counting_client status_json Counted producer 0
producer-IsReady = record { declared = λ c held again. absurd (ground arith) }

get_or_create_channel-Fit_example :
    Fit counting_client status_json Counted
      (get_or_create_channel counting_client status_json producer 0)
get_or_create_channel-Fit_example =
    get_or_create_channel-Fit counting_client status_json Counted counting-IsClient producer 0
      producer-IsReady

abbrev status_message : OrderStatusChangedMessage
status_message = record {
  event_type = "OrderStatusChanged";
  order_id = "A";
  from_status = pos 0;
  to_status = pos 2;
  timestamp = "now";
}

publish_order_status_changed-IsReady_example :
    IsReady counting_client status_json Counted
      (publish_order_status_changed counting_client status_json status_message producer 0).0.1
      (publish_order_status_changed counting_client status_json status_message producer 0).1
publish_order_status_changed-IsReady_example =
    publish_order_status_changed-IsReady counting_client status_json Counted counting-IsClient
      status_message producer 0 producer-IsReady
