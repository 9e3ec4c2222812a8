-- ===== src/Rabbitmq.antt =====
-- pkg/rabbitmq: what the service does with its RabbitMQ broker.
pub mod Amqp
pub mod Connection
pub mod Topology
pub mod Producer
pub mod Consumer
