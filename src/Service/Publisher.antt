-- ===== src/Service/Publisher.antt =====
-- internal/service/rabbitmq_event_publisher.go: RabbitMQEventPublisher. Its state is the producer's
-- fields beside the rest; `format` is `t.Format(time.RFC3339)`.
use ec_order_state_service.Prelude.{String, Option}
use ec_order_state_service.Domain.Status.{to_int}
use ec_order_state_service.Domain.Order.{Time}
use ec_order_state_service.Domain.Events.{OrderStatusChangedEvent, order_status_changed, event_type}
use ec_order_state_service.Domain.Failure.{Error}
use ec_order_state_service.Rabbitmq.Amqp.{Codec, Client}
use ec_order_state_service.Rabbitmq.Connection.{wrap_error}
use ec_order_state_service.Rabbitmq.Producer.{OrderStateProducer, OrderStatusChangedMessage}
use ec_order_state_service.Rabbitmq.Producer
use ec_order_state_service.Service.Deps.{EventPublisher}

module _ (format : Time → String) where
  unfoldable pub to_message : OrderStatusChangedEvent → OrderStatusChangedMessage
  unfolding event_type to_int
  to_message event = record {
    event_type = event_type (order_status_changed event);
    order_id = event.order_id;
    from_status = to_int event.from_status;
    to_status = to_int event.to_status;
    timestamp = format event.timestamp;
  }

  module _ {W C : Type 0} (client : Client W C) (json : Codec OrderStatusChangedMessage) where
    unfoldable pub publish_order_status_changed :
        OrderStatusChangedEvent
        → OrderStateProducer C × W
        → Option Error × (OrderStateProducer C × W)
    unfolding to_message Producer.publish_order_status_changed
    publish_order_status_changed event (p, w) =
        let ((e, p'), w') =
          Producer.publish_order_status_changed client json (to_message event) p w in
        (wrap_error "發布訂單狀態變更事件失敗" e, (p', w'))

    abbrev pub rabbitmq_event_publisher : EventPublisher (OrderStateProducer C × W)
    rabbitmq_event_publisher = record {
      publish_order_status_changed = publish_order_status_changed;
    }
