-- ===== src/Lib.antt =====
-- The order state service: an order's status from its payment to its collection.
--
-- The program. A payment message comes in over RabbitMQ (pkg/rabbitmq/order_state_consumer.go), is
-- handed to internal/handler/order_state_event_handler.go and from there to OrderStateService
-- (internal/service/order_state_service.go), which reads and writes orders through a repository
-- (internal/repository) and publishes each change of status through an event publisher
-- (internal/service/rabbitmq_event_publisher.go over pkg/rabbitmq/order_state_producer.go). A
-- scheduler (internal/scheduler/order_state_scheduler.go) moves paid orders on by batches. Which
-- status may follow which is laid down in internal/domain. cmd/server/main.go reads the configuration
-- (internal/config), brings the database up to date (pkg/migrate), puts these parts together and
-- serves status updates over HTTP; cmd/migrate is a command for the migrations.
--
-- How it is modelled. Code that changes state is a function on a state `W` that holds all that the
-- program shares: it takes the state last and gives its result beside the state it leaves. Struct
-- fields that are interfaces (OrderRepository, EventPublisher, Logger) are records of such
-- functions, so that a method of the service runs over any of them. An `error` is an `Option
-- Error`, a `(value, error)` a `Result`, a run-time panic `none`. `time.Now`, `rand.Intn` and
-- `time.Sleep` are operations on `W` too.
--
-- The files. Those that name code:
--   Domain/Status     OrderStatus, ToInt, CanTransitionTo (internal/domain/order_status.go)
--   Domain/Order      Order, UpdateStatus (internal/domain/order.go)
--   Domain/Events     the events (internal/domain/events.go)
--   Domain/Failure    the errors, as far as they are made or looked at
--   Repository/Interface, Repository/Memory
--                     OrderRepository and InMemoryOrderRepository
--                     (internal/repository/order_repository.go)
--   Repository/Database  the generated queries (internal/db)
--   Repository/Postgres  PgOrderRepository (internal/repository/pg_order_repository.go)
--   Service/Deps, Service/Core, Service/Mocks
--                     the service, its methods (HandlePaymentCompleted in
--                     Service/Core/Payments), and what NewOrderStateService puts it together from
--   Service/Publisher RabbitMQEventPublisher
--   Handler           OrderStateEventHandlerImpl
--   Service/Threads   the service's methods again, one call at a time, so that goroutines interleave;
--                     Service/Threads/Schedule plays a schedule of them
--   Config            Config, LoadConfig (internal/config/config.go), over Prelude/Decimal
--                     (strconv.Atoi) and Prelude/Duration (time.ParseDuration)
--   Migrate, Migrate/Command
--                     RunMigrations (pkg/migrate/migrate.go) and cmd/migrate/main.go
--   Server, Server/Http
--                     main and the HTTP endpoints (cmd/server/main.go)
--   Rabbitmq/Amqp     the types and calls of the AMQP client and of encoding/json
--   Rabbitmq/Connection, Rabbitmq/Topology, Rabbitmq/Producer
--                     Connection, the declarations, OrderStateProducer (pkg/rabbitmq)
--   Rabbitmq/Consumer, Rabbitmq/Consumer/Lifecycle
--                     what a worker does with a message, how the consumer gets its channel and its
--                     deliveries, and the end of Stop
--   Rabbitmq/Consumer/Workers
--                     the consumer's goroutines: Start, messageReceiver, and Stop up to its wait, as
--                     a step relation
--   Scheduler, Scheduler/Ticker
--                     OrderStateScheduler; its constructors and Start
-- Those that say what the code is for: Domain/Lifecycle (the diagram and histories of an order),
-- Service/Contract (what the service asks of its collaborators), Service/Progress (what may become
-- of an order), Repository/Postgres/Table (what the SQL statements and transactions do to the rows),
-- Rabbitmq/Consumer/Ledger (what a broker keeps of a consumer's calls), Server/Activity (what the
-- running server may do), Service/Settled (what a payment that returns nil has made sure of),
-- Prelude/Print (decimal prints). The others hold lemmas, and
-- Tests runs the code and the theorems on examples.
--
-- Bounds and fuel. Numbers are natural numbers; `int` and `int32` are integers with the wrap-around
-- of 64 and 32 bits (Prelude/Int). The loop over the pages of the scheduler runs on fuel, one for
-- each round, and reports when it has none left; a tick over n orders needs n + 1. The loop of
-- time.ParseDuration has one round for each code point left, which is enough. The retries of Save
-- count down from three. All other loops are recursions over lists.
--
-- What is not modelled. The database, the broker, transactions, JSON, the migration library and gin
-- are parameters, and what a theorem needs of them is a hypothesis of it; so is the one product of
-- floating-point numbers in time.ParseDuration. In Service/Core orders are read and written one call
-- after the other; Service/Threads lets goroutines run between the calls, each of which is one step.
-- A handler that goes on after its time-out is what `race` of Rabbitmq/Consumer makes of it. When the
-- ticker fires is left open: every choice of a select is allowed for. Left out are printed lines,
-- gin's routing, the SQL scripts and the repository's tests.
pub mod Prelude
pub mod Domain
pub mod Config
pub mod Migrate
pub mod Server
pub mod Repository
pub mod Service
pub mod Rabbitmq
pub mod Handler
pub mod Scheduler
pub mod Tests
