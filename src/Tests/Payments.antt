-- ===== src/Tests/Payments.antt =====
-- A payment message for an order that has been paid before, in a store that nothing is written to.
use ec_order_state_service.Prelude.{none, some}
use ec_order_state_service.Domain.Status.{waiting_for_shipment}
use ec_order_state_service.Domain.Failure.{plain, ok, err}
use ec_order_state_service.Service.Deps.{OrderStateService}
use ec_order_state_service.Service.Core.Payments
use ec_order_state_service.Service.Contract.{Meaning}
use ec_order_state_service.Handler
use ec_order_state_service.Rabbitmq.Amqp.{Delivery, Codec}
use ec_order_state_service.Rabbitmq.Consumer.{PaymentCompletedMessage}
use ec_order_state_service.Tests.Broker.{Broker}

abbrev archive : OrderStateService Broker
archive = record {
  order_repo = record {
    get_by_id = λ id w.
        (ok (record { id = id; status = waiting_for_shipment; created_at = 1; updated_at = 1 }), w);
    save = λ o w. (some (plain "read-only"), w);
    get_orders_by_status = λ status limit offset w. (some (err (plain "read-only")), w);
    batch_update_order_status = λ ids new from w. (some (plain "read-only"), w);
  };
  event_publisher = record { publish_order_status_changed = λ event w. (none, w) };
  logger = record {
    info = λ msg fields w. w;
    error = λ msg e fields w. w;
    warn = λ msg fields w. w;
  };
  clock = λ w. (5, w);
}

abbrev all_paid : Meaning Broker
all_paid = record { view = λ w id. some waiting_for_shipment; Valid = λ w. Unit {0} }

abbrev plain_codec : Codec PaymentCompletedMessage
plain_codec = record {
  unmarshal =
      λ body. ok (record { event_type = "PaymentCompleted"; order_id = body; timestamp = "" });
  marshal = λ message. ok message.order_id;
}

abbrev delivery : Delivery
delivery = record { body = "A"; headers = none }
