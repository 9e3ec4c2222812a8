-- ===== src/Tests/Broker.antt =====
-- A broker that takes every message, for the tests.
use ec_order_state_service.Prelude.{false, Option, none, some, List, [], ◌∷◌, ◌++◌}
use ec_order_state_service.Domain.Failure.{Error}
use ec_order_state_service.Rabbitmq.Amqp.{Delivery, Channel}
use ec_order_state_service.Rabbitmq.Consumer.Ledger.{Settlement, acked, Sent, Ledger, nacked}

pub record Broker : Type 0 where
  pub answers : List (Delivery × Settlement)
  pub taken : List Sent

abbrev pub broker_channel : Channel Broker
broker_channel = record {
  is_nil = λ w. false;
  is_closed = λ w. (false, w);
  publish = λ x key p w. (none, record w { taken = w.taken ++ ((x, key, p) ∷ []) });
  ack = λ d w. record w { answers = w.answers ++ ((d, acked) ∷ []) };
  nack = λ d again w. record w { answers = w.answers ++ ((d, nacked again) ∷ []) };
}

-- No time-out comes first.
abbrev pub in_time : (Broker → Option Error × Broker) → Broker → Option (Option Error) × Broker
in_time f w = (some (f w).0, (f w).1)

abbrev pub broker_ledger : Ledger Broker
broker_ledger = record { answers = λ w. w.answers; taken = λ w. w.taken }

abbrev pub quiet_broker : Broker
quiet_broker = record { answers = []; taken = [] }
